-- ===== src/Interceptor/Replace.antt =====
-- Go's `strings.Contains` and `strings.ReplaceAll`, and those of `bytes`, on lists of bytes. What is
-- looked for is not empty; its matches are taken from the left and do not overlap.
use Prim.Native.Char.{code}
use Prim.Native.String
use cel_admission_webhook.Common.{
  ℕ, zero, suc, ◌-◌, String, Bool, true, false, ◌&&◌, ◌||◌, List, [], ◌∷◌, ◌++◌, nat_eq, length,
  if◌then◌else◌,
}
pub mod RoundTrip

abbrev pub Bytes : Type 0
Bytes = List ℕ

-- The bytes of an ASCII text.
abbrev pub codes : String → Bytes
codes String.[] = []
codes (String.◌∷◌ c s) = code c ∷ codes s

-- `strings.HasPrefix`
unfoldable pub starts : Bytes → Bytes → Bool
starts [] s = true
starts (p ∷ ps) [] = false
starts (p ∷ ps) (c ∷ s) = nat_eq p c && starts ps s

unfoldable pub contains : Bytes → Bytes → Bool
contains [] part = starts part []
contains (c ∷ s) part = starts part (c ∷ s) || contains s part

-- The first argument counts the bytes of a match that are still to be skipped.
unfoldable pub replace_from : Bytes → Bytes → ℕ → Bytes → Bytes
replace_from old new skip [] = []
replace_from old new (suc skip) (c ∷ s) = replace_from old new skip s
replace_from old new zero (c ∷ s) =
    let matched = new ++ replace_from old new (length old - 1) s in
    let copied = c ∷ replace_from old new 0 s in if starts old (c ∷ s) then matched else copied

unfoldable pub replace_all : Bytes → Bytes → Bytes → Bytes
replace_all s old new = replace_from old new 0 s
