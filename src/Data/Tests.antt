-- ===== src/Data/Tests.antt =====
-- Runs of data.c on short texts.
use tpe_protos.Base.{
  codes, ℕ, ◌≡◌, ◌≢◌, refl, false, List, [], ◌∷◌, ◌++◌, ok, arith, length, replicate, take,
}
use tpe_protos.Buffer.{Buffer}
use tpe_protos.Buffer.Valid.{contents}
use tpe_protos.Data.{data_, crlfdotcr, done, Parser, Outcome, consume, is_done}
use tpe_protos.Data.Lossless.{pending, consume-lossless}
use tpe_protos.Data.Body.{text, consume-blank_line, consume_drops}

abbrev fill : List ℕ → Buffer
fill w = record { bytes = w; limit = length w; read_at = 0; write_at = length w }

abbrev space : ℕ → Buffer
space n = record { bytes = replicate n 0; limit = n; read_at = 0; write_at = 0 }

abbrev ready : ℕ → Parser
ready n = record { data_buffer = space n; state = data_ }

abbrev message : List ℕ
message = text (codes "hi") (codes "..x" ∷ [])

consume-blank_line_example :
    (o : Outcome) × (consume (fill (codes "hi\r\n\r\n.\r\n")) (ready 20) ≡ ok o)
    × (o.st ≢ done)
    × (contents o.b ≡ [])
consume-blank_line_example =
    consume-blank_line (fill (codes "hi\r\n\r\n.\r\n")) (ready 20) (codes "hi") [] (omega arith)
      (omega arith) refl (omega arith) refl

abbrev kept : Parser
kept = record { data_buffer = space 6; state = crlfdotcr }

consume_drops_example :
    (o : Outcome) × (consume (fill (codes "abcdef")) kept ≡ ok o)
    × (contents o.p.data_buffer
        ≡ contents kept.data_buffer ++ (pending crlfdotcr ++ take 2 (codes "abcdef")))
    × (contents o.b ≡ [])
consume_drops_example =
    consume_drops (fill (codes "abcdef")) kept b'a' (codes "bcdef") (omega arith) (omega arith) refl
      (omega arith) (λ e. omega arith) refl refl (omega arith)

consume-lossless_example :
    (o : Outcome) × (consume (fill (codes "a\r\n.\r\nb")) (ready 20) ≡ ok o)
    × (contents o.p.data_buffer ++ (pending o.p.state ++ contents o.b)
        ≡ contents (ready 20).data_buffer ++ (pending data_ ++ codes "a\r\n.\r\nb"))
    × (o.st ≡ o.p.state)
    × (is_done o.st ≡ false → contents o.b ≡ [])
consume-lossless_example =
    consume-lossless (fill (codes "a\r\n.\r\nb")) (ready 20) (omega arith) (omega arith) (λ e. cc)
      (omega arith)
