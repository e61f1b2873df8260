-- ===== src/Interceptor/Scanner/Laws.antt =====
-- The lines that the scanner of Interceptor/Scanner.antt gives.
use cel_admission_webhook.Common.{
  ℕ, suc, Bool, true, false, ◌+◌, ◌<◌, ◌≤◌, ◌≡◌, ◌≢◌, refl, sym, ◌∙◌, ap, List, [], ◌∷◌, ◌++◌,
  length, length-append, All, arith,
}
use mathlib.Core.List.{append_assoc, append-nil}
use cel_admission_webhook.Interceptor.Replace.{Bytes}
use cel_admission_webhook.Interceptor.Scanner.{
  newline, max_line, room, drop_cr, last_line, scan, lines,
}

abbrev pub LacksNewline : Bytes → Type 0
LacksNewline = All (λ c. c ≢ newline)

-- A line that the scanner gives as it is: no end of a line inside, at most so many bytes, and no
-- carriage return at the end.
pub record IsLine (most : ℕ) (l : Bytes) : Type 0 where
  pub inside : LacksNewline l
  pub fits : length l ≤ most
  pub no_cr : drop_cr l ≡ l

-- The lines, each with its end, and what follows them.
abbrev pub ended : List Bytes → Bytes → Bytes
ended [] tail = tail
ended (l ∷ ls) tail = l ++ newline ∷ ended ls tail

room-bounds :
    (eof : Bool) (rest : Bytes) → (max_line ≤ room eof rest) × (room eof rest ≤ suc max_line)
room-bounds true [] = omega arith
room-bounds false [] = omega arith
room-bounds eof (c ∷ rest) = omega arith

-- A byte of a line that fits has room.
room-ahead :
    (eof : Bool) (l rest : Bytes) (n : ℕ)
    → n + suc (length l) ≤ room eof rest
    → n < room eof (l ++ rest)
room-ahead eof [] rest n h = omega arith
room-ahead eof (c ∷ l) rest n h = let b = room-bounds eof rest in omega arith

scan-append :
    (eof : Bool) (l rest line : Bytes)
    → LacksNewline l
    → length line + length l ≤ room eof rest
    → scan eof (l ++ rest) line ≡ scan eof rest (line ++ l)
unfolding scan
scan-append eof [] rest line lacks fits = ap (scan eof rest) (sym (append-nil line))
scan-append eof (c ∷ l) rest line lacks fits = ground (
  arith,
  room-ahead eof l rest (length line) fits,
  scan-append eof l rest (line ++ c ∷ []) lacks.1,
  length-append line (c ∷ []),
  append_assoc line (c ∷ []) l,
)

scan-newline :
    (eof : Bool) (rest line : Bytes)
    → scan eof (newline ∷ rest) line ≡ drop_cr line ∷ scan eof rest []
unfolding scan
scan-newline eof rest line = refl

-- A byte that has room, of a line that does not fit, leaves room for another.
room-short :
    (eof : Bool) (l rest : Bytes) (n : ℕ)
    → room eof rest < n + suc (length l)
    → n < room eof (l ++ rest)
    → suc n ≤ max_line
room-short eof [] rest n long here = absurd (omega arith)
room-short eof (c ∷ l) rest n long here = here

-- Nothing is given of a line that does not fit, and nothing of what follows it.
scan-long :
    (eof : Bool) (l rest line : Bytes)
    → LacksNewline l
    → length line ≤ max_line
    → room eof rest < length line + length l
    → scan eof (l ++ rest) line ≡ []
unfolding scan
scan-long eof [] rest line lacks small long = let b = room-bounds eof rest in absurd (omega arith)
scan-long eof (c ∷ l) rest line lacks small long = ground (
  arith,
  room-short eof l rest (length line) long,
  scan-long eof l rest (line ++ c ∷ []) lacks.1,
  length-append line (c ∷ []),
)

from_start : (l : Bytes) (most : ℕ) → length l ≤ most → 0 + length l ≤ most
from_start l most h = omega arith

pub lines-ended :
    (eof : Bool) (ls : List Bytes) (tail : Bytes)
    → All (IsLine max_line) ls
    → lines eof (ended ls tail) ≡ ls ++ lines eof tail
unfolding lines
lines-ended eof [] tail all = refl
lines-ended eof (l ∷ ls) tail (line, all) =
    scan-append eof l (newline ∷ ended ls tail) [] line.inside (from_start l max_line line.fits)
    ∙ (scan-newline eof (ended ls tail) l
        ∙ (ap (λ k. k ∷ scan eof (ended ls tail) []) line.no_cr
            ∙ ap (◌∷◌ l) (lines-ended eof ls tail all)))

pub lines-last : (eof : Bool) (l : Bytes) → IsLine (room eof []) l → lines eof l ≡ last_line l
unfolding lines scan
lines-last eof l line =
    ap (λ k. scan eof k []) (sym (append-nil l))
    ∙ scan-append eof l [] [] line.inside (from_start l (room eof []) line.fits)

pub lines-long :
    (eof : Bool) (l rest : Bytes)
    → LacksNewline l
    → room eof rest < length l
    → lines eof (l ++ rest) ≡ []
unfolding lines
lines-long eof l rest lacks long = scan-long eof l rest [] lacks (omega arith) (omega arith)
