-- ===== src/Interceptor/Decimal.antt =====
-- Go's `strconv.Itoa` on a length, and the number that digits stand for.
use cel_admission_webhook.Common.{
  ℕ, zero, suc, ◌+◌, ◌-◌, ◌*◌, ◌/◌, ◌%◌, ◌<◌, ◌≡◌, refl, ◌∙◌, ap, [], ◌∷◌, nat_eq, if◌then◌else◌,
  arith, Bool-cases, inl, inr,
}
use cel_admission_webhook.Interceptor.Replace.{Bytes}

-- Each round divides by ten; the fuel is one more than the number.
digits : ℕ → ℕ → Bytes → Bytes
digits zero n out = out
digits (suc fuel) n out =
    let more = digits fuel (n / 10) ((b'0' + n % 10) ∷ out) in
    if nat_eq (n / 10) 0 then (b'0' + n % 10) ∷ out else more

unfoldable pub itoa : ℕ → Bytes
unfolding digits
itoa n = digits (suc n) n []

unfoldable pub value : ℕ → Bytes → ℕ
value n [] = n
value n (d ∷ ds) = value (n * 10 + (d - b'0')) ds

value-digits : (fuel n : ℕ) (out : Bytes) → n < fuel → value 0 (digits fuel n out) ≡ value n out
unfolding value digits
value-digits zero n out h = absurd (omega arith)
value-digits (suc fuel) n out h = elim (Bool-cases (nat_eq (n / 10) 0)) [
  | inl last ↦ rw last (ap (λ m. value m out) (ground arith))
  | inr more ↦ rw more (
      value-digits fuel (n / 10) ((b'0' + n % 10) ∷ out) (ground arith)
      ∙ ap (λ m. value m out) (omega arith))
]

-- The digits of a number stand for it.
pub value-itoa : (n : ℕ) → value 0 (itoa n) ≡ n
unfolding itoa
value-itoa n = value-digits (suc n) n [] (omega arith) ∙ unfold value in refl
