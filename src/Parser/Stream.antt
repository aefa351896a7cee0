-- ===== src/Parser/Stream.antt =====
-- A file: two lines of header and the lines of its messages.
use hft_backtester.Prelude.{
  ℕ, zero, suc, ◌≤◌, ◌≡◌, ◌≢◌, refl, ap, ◌∙◌, false, none, some, List, [], ◌∷◌, ◌++◌, ◌==◌, length,
  length-append, arith, ◌>>=◌,
}
use mathlib.Core.List.{append_assoc, append-nil}
use hft_backtester.Limit.Chain.{has}
use hft_backtester.Message.{Message}
use hft_backtester.Text.{Bytes}
use hft_backtester.Text.Numeral.{Numeral-lacks, has-append}
use hft_backtester.Parser.{
  parsed, refused, mapped, parse_line, after_line, skip_lines, or_end, parse_lines, ended,
  parse_body, parse_mapped_data, parse,
}
use hft_backtester.Parser.Line.{IsLine, Price-lacks, parse_line-IsLine}

-- Each message has its line, and each line its newline.
abbrev pub Lines : List Message → Bytes → Type 0
Lines [] s = s ≡ []
Lines (m ∷ ms) s =
    (line : Bytes) × (rest : Bytes) × (s ≡ line ++ b'\n' ∷ rest) × IsLine m line × Lines ms rest

after_line-found :
    (line rest : Bytes) → has b'\n' line ≡ false → after_line (line ++ b'\n' ∷ rest) ≡ some rest
unfolding after_line
after_line-found [] rest h = refl
after_line-found (x ∷ xs) rest h =
    let no : (x == b'\n') ≡ false = ground arith in rw no (after_line-found xs rest (ground arith))

skip_lines_line :
    (k : ℕ) (line rest : Bytes)
    → has b'\n' line ≡ false
    → skip_lines (suc k) (line ++ b'\n' ∷ rest) ≡ skip_lines k rest
unfolding skip_lines
skip_lines_line k [] rest h = ap (λ o. o >>= skip_lines k) (after_line-found [] rest h)
skip_lines_line k (x ∷ xs) rest h = ap (λ o. o >>= skip_lines k) (after_line-found (x ∷ xs) rest h)

skip_lines_none : (s : Bytes) → skip_lines 0 s ≡ some s
unfolding skip_lines
skip_lines_none s = refl

parse_lines_line :
    (padding : Bytes) (k : ℕ) (line rest : Bytes) (stream : List Message)
    → has b'\n' line ≡ false
    → parse_lines padding (suc k) (line ++ b'\n' ∷ rest) stream ≡ (
        parse_line ((line ++ b'\n' ∷ rest) ++ padding) >>= λ m.
        parse_lines padding k rest (stream ++ m ∷ []))
unfolding parse_lines or_end
parse_lines_line padding k [] rest stream h =
    ap
      (λ o. parse_line (b'\n' ∷ rest ++ padding) >>= λ m.
        parse_lines padding k (or_end o) (stream ++ m ∷ []))
      (after_line-found [] rest h)
parse_lines_line padding k (x ∷ xs) rest stream h =
    ap
      (λ o. parse_line ((x ∷ xs ++ b'\n' ∷ rest) ++ padding) >>= λ m.
        parse_lines padding k (or_end o) (stream ++ m ∷ []))
      (after_line-found (x ∷ xs) rest h)

IsLine-lacks : (m : Message) (line : Bytes) → IsLine m line → has b'\n' line ≡ false
IsLine-lacks m line v =
    let time = Numeral-lacks b'\n' v.time m.time refl v.time_is in
    let price = Price-lacks b'\n' v.price m.price refl (omega arith) v.price_is in
    let size = Numeral-lacks b'\n' v.size m.size refl v.size_is in
    let id = Numeral-lacks b'\n' v.id m.id refl v.id_is in
    let action = v.action_mark.newline in
    let side = v.side_mark.newline in
    let end = has-append b'\n' v.size (b',' ∷ v.id) size in
    let middle = has-append b'\n' v.price (b',' ∷ (v.size ++ b',' ∷ v.id)) price in
    let front =
      has-append b'\n' v.time
        (b',' ∷ m.action ∷ b',' ∷ v.side ∷ b',' ∷ (v.price ++ b',' ∷ (v.size ++ b',' ∷ v.id)))
        time in
    rw (v.split) (ground (arith, end, middle, front, id))

parse_lines_nil :
    (padding : Bytes) (k : ℕ) (stream : List Message)
    → parse_lines padding k [] stream ≡ some stream
unfolding parse_lines
parse_lines_nil padding zero stream = refl
parse_lines_nil padding (suc k) stream = refl

parse_lines-Lines :
    (padding : Bytes) (ms : List Message) (s : Bytes) (k : ℕ) (stream : List Message)
    → Lines ms s
    → length s ≤ k
    → parse_lines padding k s stream ≡ some (stream ++ ms)
parse_lines-Lines padding [] s k stream e h =
    ap (λ t. parse_lines padding k t stream) e
    ∙ parse_lines_nil padding k stream
    ∙ rw append-nil refl
parse_lines-Lines padding (m ∷ ms) s zero stream (line, rest, e, v, more) h =
    absurd (omega (arith, ap length e, length-append line (b'\n' ∷ rest), h))
parse_lines-Lines padding (m ∷ ms) s (suc k) stream (line, rest, e, v, more) h =
    let fits : length rest ≤ k = omega (arith, ap length e, length-append line (b'\n' ∷ rest), h) in
    let lacks = IsLine-lacks m line v in
    let read : parse_line ((line ++ b'\n' ∷ rest) ++ padding) ≡ some m =
      ap parse_line (append_assoc line (b'\n' ∷ rest) padding)
      ∙ parse_line-IsLine m line (rest ++ padding) v in
    ap (λ t. parse_lines padding (suc k) t stream) e
    ∙ parse_lines_line padding k line rest stream lacks
    ∙ ap (λ o. o >>= λ x. parse_lines padding k rest (stream ++ x ∷ [])) read
    ∙ parse_lines-Lines padding ms rest k (stream ++ m ∷ []) more fits
    ∙ ap some (append_assoc stream (m ∷ []) ms)

-- A file of two header lines, whatever they hold, and of lines that spell messages: the messages are
-- appended to the stream in their order.
pub parse-Lines :
    (first second body padding : Bytes) (ms stream : List Message)
    → has b'\n' first ≡ false
    → has b'\n' second ≡ false
    → Lines ms body
    → parse (mapped (first ++ b'\n' ∷ (second ++ b'\n' ∷ body)) padding) stream
      ≡ parsed (stream ++ ms)
unfolding parse parse_mapped_data parse_body ended
parse-Lines first second body padding ms stream h1 h2 lines =
    let header : skip_lines 2 (first ++ b'\n' ∷ (second ++ b'\n' ∷ body)) ≡ some body =
      skip_lines_line 1 first (second ++ b'\n' ∷ body) h1
      ∙ skip_lines_line 0 second body h2
      ∙ skip_lines_none body in
    ap (λ o. parse_body padding o stream) header
    ∙ ap ended (parse_lines-Lines padding ms body (length body) stream lines (omega arith))

after_line-missing : (s : Bytes) → has b'\n' s ≡ false → after_line s ≡ none
unfolding after_line
after_line-missing [] h = refl
after_line-missing (x ∷ xs) h =
    let no : (x == b'\n') ≡ false = ground arith in rw no (after_line-missing xs (ground arith))

skip_lines_missing :
    (k : ℕ) (s : Bytes) → s ≢ [] → has b'\n' s ≡ false → skip_lines (suc k) s ≡ none
unfolding skip_lines
skip_lines_missing k [] ne h = absurd (ne refl)
skip_lines_missing k (x ∷ xs) ne h = ap (λ o. o >>= skip_lines k) (after_line-missing (x ∷ xs) h)

-- A file that ends inside its header is refused, with the stream as it was: when it is one line that
-- is not empty and has no newline, and when such a line stands behind a first line.
pub parse_no_header :
    (first second padding : Bytes) (stream : List Message)
    → has b'\n' first ≡ false
    → has b'\n' second ≡ false
    → second ≢ []
    → (parse (mapped second padding) stream ≡ refused stream)
      × (parse (mapped (first ++ b'\n' ∷ second) padding) stream ≡ refused stream)
unfolding parse parse_mapped_data parse_body
parse_no_header first second padding stream h1 h2 ne = (
  ap (λ o. parse_body padding o stream) (skip_lines_missing 1 second ne h2),
  ap (λ o. parse_body padding o stream)
      (skip_lines_line 1 first second h1 ∙ skip_lines_missing 0 second ne h2),
)
