-- ===== src/Common/Errors.antt =====
-- Go's `error` values and the pairs `(value, error)`. What code can observe of an error is kept:
-- the text of `Error()` and the `StatusError` that `errors.As` finds in its chain.
use Prim.Native.Nat.{ℕ}
use Prim.Native.String.{String}
use mathlib.Core.Path.{◌≡◌, refl}
use mathlib.Core.Logic.{◌⊎◌, inl, inr}
use mathlib.Core.Option.{Option, none, some}

-- The fields that are read of `metav1.Status`, as carried by `k8serrors.StatusError`.
pub record Status : Type 0 where
  pub code : ℕ
  pub message : String
  pub reason : String

pub record Error : Type 0 where
  pub message : String
  pub as_status : Option Status

-- `errors.New` and `fmt.Errorf` without `%w`: there is nothing to unwrap.
abbrev pub errorf : String → Error
errorf text = record { message = text; as_status = none }

pub data Result {ℓ} (A : Type ℓ) : Type ℓ where
  ok : A → Result A
  err : Error → Result A

-- `if err != nil { return nil, err }`
infixl 5 ◌>>=◌
abbrev pub ◌>>=◌ {ℓ κ} : {A : Type ℓ} {B : Type κ} → Result A → (A → Result B) → Result B
err e >>= next = err e
ok value >>= next = next value

-- `if v, err := f(); err == nil { return v, nil }` and then another call.
abbrev pub or_else : {A : Type 0} → Result A → Result A → Result A
or_else (ok a) other = ok a
or_else (err e) other = other

pub Result-cases {ℓ} :
    {A : Type ℓ} (m : Result A) → ((a : A) × (m ≡ ok a)) ⊎ ((e : Error) × (m ≡ err e))
Result-cases (ok a) = inl (a, refl)
Result-cases (err e) = inr (e, refl)

-- A verdict with the state that it leaves.
pub outcome-cases :
    {S : Type 0} (r : Option Error × S)
    → ((t : S) × (r ≡ (none, t))) ⊎ ((e : Error) × (t : S) × (r ≡ (some e, t)))
outcome-cases (none, t) = inl (t, refl)
outcome-cases (some e, t) = inr (e, t, refl)

-- A sequence that succeeds does so in both of its steps.
pub >>=-eq-ok {ℓ κ} :
    {A : Type ℓ} {B : Type κ} (first : Result A) (next : A → Result B) {answer : B}
    → (first >>= next) ≡ ok answer
    → (found : A) × (first ≡ ok found) × (next found ≡ ok answer)
>>=-eq-ok (err e) next both = cc
>>=-eq-ok (ok found) next both = (found, refl, both)
