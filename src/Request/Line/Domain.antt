-- ===== src/Request/Line/Domain.antt =====
-- The domain behind `HELO` and `EHLO`.
use mathlib.Core.Path.{ap₂}
use native.Mathlib.Decide.{dec_lt}
use tpe_protos.Base.{
  IsLine, ℕ, ◌+◌, ◌%◌, ◌≤◌, ◌<◌, ◌≡◌, ◌≢◌, refl, ap, sym, ◌∙◌, true, false, List, [], ◌∷◌, ◌++◌,
  none, ok, err, out_of_bounds, ◌>>=◌, store, arith, lt→ltb, ltb, inl, inr, Bool-cases, length,
  length-append, append_assoc, append-nil,
}
use tpe_protos.Request.{
  Command, helo, ehlo, State, verb_helo, verb_ehlo, helo_sep, helo_domain, ehlo_sep, ehlo_domain,
  cr, error, Parser, Request, field_size,
}
use tpe_protos.Request.Feed.{feed, expect, refeed, put_domain, accept, go}
use tpe_protos.Request.Consume.{is_done_state}
use tpe_protos.Request.Consume.Refine.{run}
use tpe_protos.Request.Line.{is_blank, skip_blanks, padded, filled, nonempty_domain, with_domain}
use tpe_protos.Request.Line.Run.{crlf, run-step, run_cr, run-refeed}
use tpe_protos.Request.Line.Argument.{
  payload, Follows, Follows-step, Follows-refused, run_fault, run_swallow, store-padded,
  store-padded_full,
}

-- The states of a domain argument: `sep` before it, `dom` inside it.
pub record ReadsDomain (k : Command) (word sep dom : State) : Type 0 where
  blank_word :
      (p : Parser) (c : ℕ)
      → is_blank c ≡ true
      → feed (record p { state = word }) c ≡ ok (record p { state = sep })
  other_word :
      (p : Parser) (c : ℕ)
      → is_blank c ≡ false
      → feed (record p { state = word }) c ≡ refeed (record p { state = word }) c
  blank_sep :
      (p : Parser) (c : ℕ)
      → is_blank c ≡ true
      → feed (record p { state = sep }) c ≡ ok (record p { state = sep })
  end_sep : (p : Parser) → feed (record p { state = sep }) b'\r' ≡ go error p
  first :
      (p : Parser) (c : ℕ)
      → is_blank c ≡ false
      → c ≢ b'\r'
      → feed (record p { state = sep }) c ≡ put_domain dom 0 (record p { state = sep }) c
  end_dom : (p : Parser) → feed (record p { state = dom }) b'\r' ≡ accept k cr p
  more :
      (p : Parser) (c : ℕ)
      → c ≢ b'\r'
      → feed (record p { state = dom }) c ≡ put_domain dom p.i (record p { state = dom }) c
  sep_on : is_done_state sep ≡ false
  dom_on : is_done_state dom ≡ false
  in_domain : (r : Request) → payload k r ≡ r.domain

pub helo-ReadsDomain : ReadsDomain helo verb_helo helo_sep helo_domain
unfolding feed expect
helo-ReadsDomain = record {
  blank_word = λ p c h. ground arith;
  other_word = λ p c h. ground arith;
  blank_sep = λ p c h. ground arith;
  end_sep = λ p. refl;
  first = λ p c h ne. ground arith;
  end_dom = λ p. refl;
  more = λ p c ne. ground arith;
  sep_on = refl;
  dom_on = refl;
  in_domain = λ r. refl;
}

pub ehlo-ReadsDomain : ReadsDomain ehlo verb_ehlo ehlo_sep ehlo_domain
unfolding feed expect
ehlo-ReadsDomain = record {
  blank_word = λ p c h. ground arith;
  other_word = λ p c h. ground arith;
  blank_sep = λ p c h. ground arith;
  end_sep = λ p. refl;
  first = λ p c h ne. ground arith;
  end_dom = λ p. refl;
  more = λ p c ne. ground arith;
  sep_on = refl;
  dom_on = refl;
  in_domain = λ r. refl;
}

-- The parser with `a` stored as its domain.
abbrev holding : Parser → List ℕ → State → Parser
holding p a s = record p {
  request = record p.request { domain = padded a };
  state = s;
  i = length a;
}

put_domain-stores :
    (s : State) (i : ℕ) (p : Parser) (c : ℕ) (a : List ℕ)
    → p.request.domain ≡ padded a
    → i ≡ length a
    → length a < field_size
    → put_domain s i p c ≡ ok (holding p (a ++ (c ∷ [])) s)
unfolding put_domain
put_domain-stores s i p c a e ei h =
    let index : (i + 1) % 256 ≡ length (a ++ (c ∷ [])) = omega (arith, length-append a (c ∷ [])) in
    ap
      (λ r. r >>= λ (x : List ℕ).
        ok (record p { request = record p.request { domain = x }; state = s; i = (i + 1) % 256 }))
      (ap₂ (λ x j. store x j c) e ei ∙ store-padded a c h)
    ∙ ap
        (λ j. ok (record p {
          request = record p.request { domain = padded (a ++ (c ∷ [])) };
          state = s;
          i = j;
        }))
        index

put_domain-full :
    (s : State) (i : ℕ) (p : Parser) (c : ℕ) (a : List ℕ)
    → p.request.domain ≡ padded a
    → i ≡ length a
    → length a ≡ field_size
    → put_domain s i p c ≡ err out_of_bounds
unfolding put_domain
put_domain-full s i p c a e ei h =
    ap
      (λ r. r >>= λ (x : List ℕ).
        ok (record p { request = record p.request { domain = x }; state = s; i = (i + 1) % 256 }))
      (ap₂ (λ x j. store x j c) e ei ∙ store-padded_full a c h)

module _ (rest : List ℕ) {k : Command} {word sep dom : State} (d : ReadsDomain k word sep dom) where
  -- Inside the domain, of which `a` has been stored.
  run_domain :
      (w a : List ℕ) (p : Parser)
      → IsLine w
      → length a ≤ field_size
      → p.request.domain ≡ padded a
      → p.i ≡ length a
      → Follows rest (filled k (a ++ w)) (run (w ++ crlf rest) (record p { state = dom }) none)
  run_domain [] a p h le e i =
      let fits : ltb field_size (length (a ++ [])) ≡ false = rw append-nil (ground arith) in
      rw fits (
        p,
        run-step b'\r' (b'\n' ∷ rest) (record p { state = dom })
              (record p { state = cr; command = k }) (d.end_dom p) refl
            ∙ run_cr (record p { command = k }) rest,
        d.in_domain p.request ∙ e ∙ ap padded (sym (append-nil a)),
      )
  run_domain (c ∷ w) a p (ne, h) le e i = elim (dec_lt (length a) field_size) [
    | yes room ↦ rw (← append_assoc a (c ∷ []) w) (
        Follows-step rest (filled k ((a ++ (c ∷ [])) ++ w))
          (run-step c (w ++ crlf rest) (record p { state = dom }) (holding p (a ++ (c ∷ [])) dom)
            (d.more p c ne ∙ put_domain-stores dom p.i (record p { state = dom }) c a e i room)
            d.dom_on)
          (run_domain w (a ++ (c ∷ [])) (holding p (a ++ (c ∷ [])) dom) h
            (omega (arith, length-append a (c ∷ []))) refl refl))
    | no full ↦
        let long : ltb field_size (length (a ++ (c ∷ w))) ≡ true =
          lt→ltb _ _ (omega (arith, length-append a (c ∷ w))) in
        rw long (
          run_fault c (w ++ crlf rest) (record p { state = dom })
            (d.more p c ne
              ∙ put_domain-full dom p.i (record p { state = dom }) c a e i (omega arith)))
  ]

  -- Behind the first blank.
  run_sep :
      (w : List ℕ) (p : Parser)
      → IsLine w
      → p.request.domain ≡ padded []
      → Follows rest
          (nonempty_domain k (skip_blanks w))
          (run (w ++ crlf rest) (record p { state = sep }) none)
  run_sep [] p h e = run_swallow rest p sep (d.end_sep p)
  run_sep (c ∷ w) p (ne, h) e = elim (Bool-cases (is_blank c)) [
    | inl b ↦ rw b (
        Follows-step rest (nonempty_domain k (skip_blanks w))
          (run-step c (w ++ crlf rest) (record p { state = sep }) (record p { state = sep })
            (d.blank_sep p c b) d.sep_on)
          (run_sep w p h e))
    | inr b ↦ rw b (
        Follows-step rest (filled k (c ∷ w))
          (run-step c (w ++ crlf rest) (record p { state = sep }) (holding p (c ∷ []) dom)
            (d.first p c b ne
              ∙ put_domain-stores dom 0 (record p { state = sep }) c [] e refl (omega arith))
            d.dom_on)
          (run_domain w (c ∷ []) (holding p (c ∷ []) dom) h (omega arith) refl refl))
  ]

  -- Behind the keyword.
  pub run-with_domain :
      (w : List ℕ) (p : Parser)
      → IsLine w
      → p.request.domain ≡ padded []
      → Follows rest (with_domain k w) (run (w ++ crlf rest) (record p { state = word }) none)
  run-with_domain [] p h e =
      Follows-refused rest p
        (run-refeed [] rest (record p { state = word }) tt (d.other_word p b'\r' refl))
  run-with_domain (c ∷ w) p (ne, h) e = elim (Bool-cases (is_blank c)) [
    | inl b ↦ rw b (
        Follows-step rest (nonempty_domain k (skip_blanks w))
          (run-step c (w ++ crlf rest) (record p { state = word }) (record p { state = sep })
            (d.blank_word p c b) d.sep_on)
          (run_sep w p h e))
    | inr b ↦ rw b (
        Follows-refused rest p
          (run-refeed (c ∷ w) rest (record p { state = word }) (ne, h) (d.other_word p c b)))
  ]
