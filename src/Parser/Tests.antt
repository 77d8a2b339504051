-- ===== src/Parser/Tests.antt =====
-- Witnesses for the parser of a word of parser.c and parser_utils.c.
use tpe_protos.Base.{◌≡◌, refl, arith, true, false, some, ok, err, out_of_bounds, codes}
use tpe_protos.Parser.{Parser, parser_init, parser_feed, parser_no_classes}
use tpe_protos.Parser.Strcmpi.{eq, mayeq, neq, parser_utils_strcmpi}
use tpe_protos.Parser.Steps.{event}
use tpe_protos.Parser.Compare.{feed_all, last_byte, verdict, feed_all-verdict}

feed_all-verdict_example :
    (p : Parser) × (p' : Parser) × (parser_init true parser_no_classes
        (parser_utils_strcmpi true (codes "foo"))
      ≡ some p)
    × (feed_all (codes "fOo") p ≡ ok p')
    × (p'.e1 ≡ event (verdict (codes "foo") (codes "fOo")) (last_byte b'f' (codes "Oo")))
    × (p'.next ≡ false)
    × (parser_feed p' 255 ≡ err out_of_bounds)
feed_all-verdict_example =
    feed_all-verdict (codes "foo") (codes "Oo") b'f' (omega arith, (omega arith, (omega arith, tt)))
      (omega arith, (omega arith, (omega arith, tt)))

whole : verdict (codes "foo") (codes "fOo") ≡ eq
whole = refl

start : verdict (codes "foo") (codes "F") ≡ mayeq
start = refl

longer : verdict (codes "foo") (codes "fool") ≡ neq
longer = refl
