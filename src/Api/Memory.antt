-- ===== src/Api/Memory.antt =====
-- The memory that the API types live in, as far as copying them depends on it: a pointer is `nil`
-- or the address of a cell with what the cell holds, a slice points to its array, and code that
-- allocates takes the next free address and returns the one after its last. The growth room that
-- a slice has past its length holds nothing that is read, and stays out.
use cel_admission_webhook.Common.{ℕ, suc, List, [], ◌∷◌, Option, none, some}

pub record Ref (A : Type 0) : Type 0 where
  pub address : ℕ
  pub target : A

abbrev pub Pointer : Type 0 → Type 0
Pointer A = Option (Ref A)

abbrev pub Slice : Type 0 → Type 0
Slice A = Pointer (List A)

-- Code that allocates.
abbrev pub Alloc : Type 0 → Type 0
Alloc A = ℕ → A × ℕ

abbrev pub pure : {A : Type 0} → A → Alloc A
pure a n = (a, n)

infixl 1 ◌>>=◌
abbrev pub ◌>>=◌ : {A B : Type 0} → Alloc A → (A → Alloc B) → Alloc B
(m >>= f) n = f (m n).0 (m n).1

module _ {A : Type 0} where
  -- `if in.F != nil { *out = new(T); (*in).DeepCopyInto(*out) }`: `nil` stays, and what a pointer
  -- points to is copied to a new cell.
  unfoldable pub new : (A → Alloc A) → Pointer A → Alloc (Pointer A)
  new copy none n = (none, n)
  new copy (some r) n =
      let copied = copy r.target (suc n) in
      (some (record { address = n; target = copied.0 }), copied.1)

  -- `for i := range *in { (*in)[i].DeepCopyInto(&(*out)[i]) }`
  unfoldable pub each : (A → Alloc A) → List A → Alloc (List A)
  each copy [] = pure []
  each copy (x ∷ xs) = do copied ← copy x; rest ← each copy xs; pure (copied ∷ rest)
