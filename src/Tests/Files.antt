-- ===== src/Tests/Files.antt =====
-- A small file of messages.
use hft_backtester.Prelude.{◌≡◌, ◌≢◌, refl, ap, length, [], ◌∷◌, ◌++◌, pos, true, arith}
use hft_backtester.Message.{Message}
use hft_backtester.Text.{Bytes}
use hft_backtester.Parser.{mapped, parse, parsed, refused}
use hft_backtester.Parser.Line.{IsLine, plain}
use hft_backtester.Parser.Stream.{Lines, parse-Lines, parse_no_header}

abbrev bid : Message
bid = record { id = 7; time = 12; size = 3; price = pos 500; action = b'A'; side = true }

-- `12,A,B,500,3,7`
abbrev line : Bytes
line =
    b'1' ∷ b'2' ∷ b',' ∷ b'A' ∷ b',' ∷ b'B' ∷ b',' ∷ b'5' ∷ b'0' ∷ b'0' ∷ b',' ∷ b'3' ∷ b',' ∷ b'7'
    ∷ []

line-IsLine : IsLine bid line
line-IsLine = record {
  time = b'1' ∷ b'2' ∷ [];
  side = b'B';
  price = b'5' ∷ b'0' ∷ b'0' ∷ [];
  size = b'3' ∷ [];
  id = b'7' ∷ [];
  split = refl;
  time_is = record { lead = b'1'; others = b'2' ∷ []; split = refl; spells = (refl, (refl, refl)) };
  time_lt = omega arith;
  action_mark = record { comma = omega arith; newline = omega arith; zero_byte = omega arith };
  side_mark = record { comma = omega arith; newline = omega arith; zero_byte = omega arith };
  side_is = refl;
  price_is =
      plain
        (record {
          lead = b'5';
          others = b'0' ∷ b'0' ∷ [];
          split = refl;
          spells = (refl, (refl, (refl, refl)));
        })
        (omega arith);
  size_is = record { lead = b'3'; others = []; split = refl; spells = (refl, refl) };
  size_lt = omega arith;
  id_is = record { lead = b'7'; others = []; split = refl; spells = (refl, refl) };
  id_lt = omega arith;
}

abbrev body : Bytes
body = line ++ b'\n' ∷ []

body-Lines : Lines (bid ∷ []) body
body-Lines = (line, [], refl, line-IsLine, refl)

-- One message behind the two lines `v` and `h`.
parse-Lines_example :
    parse (mapped ((b'v' ∷ []) ++ b'\n' ∷ ((b'h' ∷ []) ++ b'\n' ∷ body)) (0 ∷ 0 ∷ [])) []
    ≡ parsed (bid ∷ [])
parse-Lines_example =
    parse-Lines (b'v' ∷ []) (b'h' ∷ []) body (0 ∷ 0 ∷ []) (bid ∷ []) [] refl refl body-Lines

abbrev half : Bytes
half = b'h' ∷ []

half_ne : half ≢ []
half_ne e = absurd (omega (arith, ap length e))

-- One line alone, and a line with the start of a second.
parse_no_header_example :
    (parse (mapped half (0 ∷ [])) (bid ∷ []) ≡ refused (bid ∷ []))
    × (parse (mapped ((b'v' ∷ []) ++ b'\n' ∷ half) (0 ∷ [])) (bid ∷ []) ≡ refused (bid ∷ []))
parse_no_header_example = parse_no_header (b'v' ∷ []) half (0 ∷ []) (bid ∷ []) refl refl half_ne
