-- ===== src/Interceptor/Replace/RoundTrip.antt =====
-- Replacing a text and then replacing it back.
use cel_admission_webhook.Common.{
  ℕ, zero, suc, ◌-◌, ◌<◌, length-append, ◌≡◌, refl, ◌∙◌, ap, Bool, true, false, ◌&&◌, not, [], ◌∷◌,
  ◌++◌, nat_eq, length, arith, Bool-cases, inl, inr,
}
use cel_admission_webhook.Interceptor.Replace.{Bytes, starts, contains, replace_from, replace_all}

-- The two texts agree as far as both go.
abbrev agree : Bytes → Bytes → Bool
agree [] q = true
agree (a ∷ p) [] = true
agree (a ∷ p) (b ∷ q) = nat_eq a b && agree p q

-- No end of the first text, itself included, agrees with the second.
abbrev pub is_apart : Bytes → Bytes → Bool
is_apart [] q = true
is_apart (a ∷ p) q = not (agree (a ∷ p) q) && is_apart p q

minus_one : (n : ℕ) → suc n - 1 ≡ n
minus_one n = omega arith

starts-append : (p s : Bytes) → starts p (p ++ s) ≡ true
unfolding starts
starts-append [] s = refl
starts-append (c ∷ p) s = ground (arith, starts-append p s)

agree_of_starts : (p q s : Bytes) → starts p (q ++ s) ≡ true → agree p q ≡ true
unfolding starts
agree_of_starts [] q s h = refl
agree_of_starts (a ∷ p) [] s h = refl
agree_of_starts (a ∷ p) (b ∷ q) s h = ground (arith, agree_of_starts p q s)

-- What is skipped is the rest of the match.
replace_from-append :
    (old new p s : Bytes) → replace_from old new (length p) (p ++ s) ≡ replace_from old new 0 s
unfolding replace_from
replace_from-append old new [] s = refl
replace_from-append old new (c ∷ p) s = replace_from-append old new p s

replace_at-match :
    (o : ℕ) (old new s : Bytes)
    → replace_from (o ∷ old) new 0 (o ∷ old ++ s) ≡ new ++ replace_from (o ∷ old) new 0 s
unfolding replace_from
replace_at-match o old new s = rw (starts-append (o ∷ old) s) (
    ap (◌++◌ new) (
      ap (λ k. replace_from (o ∷ old) new k (old ++ s)) (minus_one (length old))
      ∙ replace_from-append (o ∷ old) new old s))

replace-miss :
    (old new : Bytes) (c : ℕ) (s : Bytes)
    → starts old (c ∷ s) ≡ false
    → replace_from old new 0 (c ∷ s) ≡ c ∷ replace_from old new 0 s
unfolding replace_from
replace-miss old new c s h = rw h refl

rest_of : (p s : Bytes) → starts p s ≡ true → (t : Bytes) × (s ≡ p ++ t)
unfolding starts
rest_of [] s h = (s, refl)
rest_of (a ∷ p) [] h = absurd (cc)
rest_of (a ∷ p) (c ∷ s) h = let (t, same) = rest_of p s (ground arith) in (t, ground arith)

contains-append : (q t p : Bytes) → contains t p ≡ true → contains (q ++ t) p ≡ true
unfolding contains
contains-append [] t p h = h
contains-append (c ∷ q) t p h = ground (arith, contains-append q t p)

no_match_after : (q t p : Bytes) → contains (q ++ t) p ≡ false → contains t p ≡ false
no_match_after q t p h = ground (arith, contains-append q t p)

-- The replaced text holds no other match than the text did: one would end inside of a replacement.
starts-replace :
    (o : ℕ) (old new p s : Bytes)
    → is_apart p new ≡ true
    → starts p (replace_from (o ∷ old) new 0 s) ≡ true
    → starts p s ≡ true
unfolding starts
starts-replace o old new [] s apart h = refl
starts-replace o old new (a ∷ p) [] apart h = unfold replace_from in h
starts-replace o old new (a ∷ p) (c ∷ s) apart h = elim (Bool-cases (starts (o ∷ old) (c ∷ s))) [
  | inl hit ↦
      let (t, same) = rest_of (o ∷ old) (c ∷ s) hit in
      let seen = rw (same, replace_at-match o old new t) at h in
      let overlap = agree_of_starts (a ∷ p) new (replace_from (o ∷ old) new 0 t) seen in
      absurd (ground arith)
  | inr miss ↦
      let there = rw (replace-miss (o ∷ old) new c s miss) at h in
      ground (arith, starts-replace o old new p s)
]

contains-tail : (c : ℕ) (s p : Bytes) → contains (c ∷ s) p ≡ false → contains s p ≡ false
unfolding contains
contains-tail c s p h = ground arith

starts_of_contains : (c : ℕ) (s p : Bytes) → contains (c ∷ s) p ≡ false → starts p (c ∷ s) ≡ false
unfolding contains
starts_of_contains c s p h = ground arith

-- Where the text has no match, the replaced text has no match of the replacement.
miss_back :
    (o : ℕ) (old : Bytes) (n : ℕ) (new : Bytes) (c : ℕ) (s : Bytes)
    → is_apart new (n ∷ new) ≡ true
    → contains (c ∷ s) (n ∷ new) ≡ false
    → starts (n ∷ new) (c ∷ replace_from (o ∷ old) (n ∷ new) 0 s) ≡ false
unfolding starts
miss_back o old n new c s apart h =
    ground (arith, starts-replace o old (n ∷ new) new s, starts_of_contains c s (n ∷ new))

module _ (o : ℕ) (old : Bytes) (n : ℕ) (new : Bytes) (apart : is_apart new (n ∷ new) ≡ true) where
  back_from :
      (k : ℕ) (s : Bytes)
      → length s < k
      → contains s (n ∷ new) ≡ false
      → replace_from (n ∷ new) (o ∷ old) 0 (replace_from (o ∷ old) (n ∷ new) 0 s) ≡ s
  back_from zero s below h = absurd (omega arith)
  back_from (suc k) [] below h = unfold replace_from in refl
  back_from (suc k) (c ∷ s) below h = elim (Bool-cases (starts (o ∷ old) (c ∷ s))) [
    | inl hit ↦
        let (t, same) = rest_of (o ∷ old) (c ∷ s) hit in
        let clean = no_match_after (o ∷ old) t (n ∷ new) (rw same at h) in
        let shorter = length-append old t in
        rw
          (
            same,
            replace_at-match o old (n ∷ new) t,
            replace_at-match n new (o ∷ old) _,
            back_from k t (omega (arith, ap length same)) clean,
          )
          refl
    | inr miss ↦
        rw
          (
            replace-miss (o ∷ old) (n ∷ new) c s miss,
            replace-miss (n ∷ new) (o ∷ old) c _ (miss_back o old n new c s apart h),
            back_from k s (omega arith) (contains-tail c s (n ∷ new) h),
          )
          refl
  ]

-- A text without the replacement comes back, when no end of the replacement but itself agrees with
-- the replacement.
pub replace_all_back :
    (o : ℕ) (old : Bytes) (n : ℕ) (new s : Bytes)
    → is_apart new (n ∷ new) ≡ true
    → contains s (n ∷ new) ≡ false
    → replace_all (replace_all s (o ∷ old) (n ∷ new)) (n ∷ new) (o ∷ old) ≡ s
unfolding replace_all
replace_all_back o old n new s apart h =
    back_from o old n new apart (suc (length s)) s (omega arith) h

contains-starts : (s p : Bytes) → starts p s ≡ true → contains s p ≡ true
unfolding contains
contains-starts [] p h = h
contains-starts (c ∷ s) p h = ground arith

-- A replaced match shows.
contains-replace_from :
    (o : ℕ) (old new s : Bytes)
    → contains s (o ∷ old) ≡ true
    → contains (replace_from (o ∷ old) new 0 s) new ≡ true
unfolding contains
contains-replace_from o old new [] h =
    let empty : starts (o ∷ old) [] ≡ false = unfold starts in refl in cc
contains-replace_from o old new (c ∷ s) h = elim (Bool-cases (starts (o ∷ old) (c ∷ s))) [
  | inl hit ↦
      let (t, same) = rest_of (o ∷ old) (c ∷ s) hit in
      rw (same, replace_at-match o old new t)
        (contains-starts _ new (starts-append new (replace_from (o ∷ old) new 0 t)))
  | inr miss ↦
      let there = contains-replace_from o old new s (ground arith) in
      rw (replace-miss (o ∷ old) new c s miss) (contains-append (c ∷ []) _ new there)
]

pub contains-replace_all :
    (o : ℕ) (old new s : Bytes)
    → contains s (o ∷ old) ≡ true
    → contains (replace_all s (o ∷ old) new) new ≡ true
unfolding replace_all
contains-replace_all = contains-replace_from
