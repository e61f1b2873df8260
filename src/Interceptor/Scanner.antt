-- ===== src/Interceptor/Scanner.antt =====
-- Go's `bufio.Scanner` with the default split function, on a body that is read to its end: the lines
-- without their ends, up to the first one that does not fit into the buffer of 64 KB. A full buffer with
-- no end of a line in it ends the scan, unless the reader has given its end with the last bytes.
pub mod Laws
use cel_admission_webhook.Common.{
  ℕ, suc, Bool, true, false, List, [], ◌∷◌, ◌++◌, nat_eq, ltb, length, if◌then◌else◌,
}
use cel_admission_webhook.Interceptor.Replace.{Bytes}

abbrev pub newline : ℕ
newline = b'\n'

abbrev pub carriage_return : ℕ
carriage_return = b'\r'

-- The buffer holds 65536 bytes, and the line's end has to fit into it.
abbrev pub max_line : ℕ
max_line = 65535

-- What fits of a line that `rest` follows: the whole buffer, if the reader gives its end together with
-- the last byte; `eof_with_data` says whether it does.
abbrev pub room : Bool → Bytes → ℕ
room eof_with_data [] = if eof_with_data then suc max_line else max_line
room eof_with_data (c ∷ rest) = max_line

-- A carriage return at the end is taken off.
unfoldable pub drop_cr : Bytes → Bytes
drop_cr [] = []
drop_cr (c ∷ []) = if nat_eq c carriage_return then [] else c ∷ []
drop_cr (c ∷ d ∷ s) = c ∷ drop_cr (d ∷ s)

unfoldable pub last_line : Bytes → List Bytes
last_line [] = []
last_line (c ∷ s) = drop_cr (c ∷ s) ∷ []

-- The second argument is the line so far.
unfoldable pub scan : Bool → Bytes → Bytes → List Bytes
scan eof_with_data [] line = last_line line
scan eof_with_data (c ∷ s) line =
    let ended = drop_cr line ∷ scan eof_with_data s [] in
    let longer = scan eof_with_data s (line ++ c ∷ []) in
    if nat_eq c newline
    then ended
    else if ltb (length line) (room eof_with_data s)
    then longer
    else []

unfoldable pub lines : Bool → Bytes → List Bytes
lines eof_with_data body = scan eof_with_data body []
