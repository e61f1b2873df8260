-- ===== src/Api/Copy/Deep.antt =====
-- The copies of zz_generated.deepcopy.go are deep. The type of a value gives its cells, in the
-- order of the fields, and its contents: the value with every address set to 0. A deep copy has the
-- contents of the original, and its cells are the ones that copying it took, each once.
use cel_admission_webhook.Common.{
  arith, ◌≤◌, ◌<◌, ℕ, suc, ◌≡◌, refl, sym, List, [], ◌∷◌, ◌++◌, none, some,
}
use cel_admission_webhook.Api.Copy.{deep_copy}
use mathlib.Core.List.{Memᴰ}
use mathlib.Core.List.Memᴰ.{head, tail}
use cel_admission_webhook.Api.Memory.{Alloc, Pointer, pure, new, each}

pub record Shape (A : Type 0) : Type 0 where
  pub erase : A → A
  pub cells : A → List ℕ

-- The addresses from the first on, each once and in order, up to the second.
pub data Taken : ℕ → List ℕ → ℕ → Type 0 where
  nothing : {n : ℕ} → Taken n [] n
  next : {n m : ℕ} {xs : List ℕ} → Taken (suc n) xs m → Taken n (n ∷ xs) m

pub record IsDeep {A : Type 0} (s : Shape A) (copy : A → Alloc A) : Type 0 where
  pub same : (a : A) (n : ℕ) → s.erase (copy a n).0 ≡ s.erase a
  pub taken : (a : A) (n : ℕ) → Taken n (s.cells (copy a n).0) (copy a n).1

pub Taken-◌++◌ : {n m k : ℕ} {xs ys : List ℕ} → Taken n xs m → Taken m ys k → Taken n (xs ++ ys) k
Taken-◌++◌ nothing t = t
Taken-◌++◌ (next s) t = next (Taken-◌++◌ s t)

pub Taken-lower : {n m x : ℕ} {xs : List ℕ} → Taken n xs m → Memᴰ x xs → n ≤ x
Taken-lower nothing p = elim p [ ]
Taken-lower (next s) (head e) = omega arith
Taken-lower (next s) (tail p) = let above = Taken-lower s p in omega arith

module _ {A : Type 0} where
  -- What is copied by assignment holds no cell.
  unfoldable pub flat : Shape A
  flat = record { erase = λ a. a; cells = λ _. [] }

  unfoldable pub erase_pointer : Shape A → Pointer A → Pointer A
  erase_pointer s none = none
  erase_pointer s (some r) = some (record { address = 0; target = s.erase r.target })

  unfoldable pub pointer_cells : Shape A → Pointer A → List ℕ
  pointer_cells s none = []
  pointer_cells s (some r) = r.address ∷ s.cells r.target

  abbrev pub pointer : Shape A → Shape (Pointer A)
  pointer s = record { erase = erase_pointer s; cells = pointer_cells s }

  unfoldable pub erase_list : Shape A → List A → List A
  erase_list s [] = []
  erase_list s (x ∷ xs) = s.erase x ∷ erase_list s xs

  unfoldable pub list_cells : Shape A → List A → List ℕ
  list_cells s [] = []
  list_cells s (x ∷ xs) = s.cells x ++ list_cells s xs

  abbrev pub list : Shape A → Shape (List A)
  list s = record { erase = erase_list s; cells = list_cells s }

abbrev pub slice : {A : Type 0} → Shape A → Shape (Pointer (List A))
slice s = pointer (list s)

module _ {A : Type 0} where
  pub pure-IsDeep : IsDeep (flat {A = A}) pure
  unfolding flat
  pure-IsDeep = record { same = λ _ _. refl; taken = λ _ _. nothing }

module _ {A : Type 0} {s : Shape A} {copy : A → Alloc A} (h : IsDeep s copy) where
  new-same : (p : Pointer A) (n : ℕ) → erase_pointer s (new copy p n).0 ≡ erase_pointer s p
  unfolding new erase_pointer
  new-same none n = refl
  new-same (some r) n = rw (h.same) refl

  new-Taken : (p : Pointer A) (n : ℕ) → Taken n (pointer_cells s (new copy p n).0) (new copy p n).1
  unfolding new pointer_cells
  new-Taken none n = nothing
  new-Taken (some r) n = next (h.taken r.target (suc n))

  pub new-IsDeep : IsDeep (pointer s) (new copy)
  new-IsDeep = record { same = new-same; taken = new-Taken }

  each-same : (vs : List A) (n : ℕ) → erase_list s (each copy vs n).0 ≡ erase_list s vs
  unfolding each erase_list
  each-same [] n = refl
  each-same (x ∷ xs) n = rw (h.same, each-same xs) refl

  each-Taken : (vs : List A) (n : ℕ) → Taken n (list_cells s (each copy vs n).0) (each copy vs n).1
  unfolding each list_cells
  each-Taken [] n = nothing
  each-Taken (x ∷ xs) n = Taken-◌++◌ (h.taken x n) (each-Taken xs (copy x n).1)

  pub each-IsDeep : IsDeep (list s) (each copy)
  each-IsDeep = record { same = each-same; taken = each-Taken }

module _ {A : Type 0} {s : Shape A} {copy : A → Alloc A} (h : IsDeep s copy) where
  deep_copy_lem : (p : Pointer A) (n : ℕ) → new copy p n ≡ deep_copy copy p n
  unfolding new deep_copy
  deep_copy_lem none n = refl
  deep_copy_lem (some r) n = refl

  pub deep_copy-IsDeep : IsDeep (pointer s) (deep_copy copy)
  deep_copy-IsDeep =
      let deep = new-IsDeep h in
      record {
        same = λ p n. rw (sym (deep_copy_lem p n)) (deep.same p n);
        taken = λ p n. rw (sym (deep_copy_lem p n)) (deep.taken p n);
      }

-- `new pure`, the copy of what is copied by assignment.
module _ {A : Type 0} where
  pub flat-same :
      (p : Pointer A) (n : ℕ) → erase_pointer flat (new pure p n).0 ≡ erase_pointer flat p
  flat-same = (new-IsDeep pure-IsDeep).same

  pub flat-Taken :
      (p : Pointer A) (n : ℕ) → Taken n (pointer_cells flat (new pure p n).0) (new pure p n).1
  flat-Taken = (new-IsDeep pure-IsDeep).taken

-- A deep copy that takes its cells above those of the original shares none of them.
pub IsDeep-separate :
    {A : Type 0} {s : Shape A} {copy : A → Alloc A} (h : IsDeep s copy) (a : A) (n : ℕ)
    → ((x : ℕ) → Memᴰ x (s.cells a) → x < n)
    → (x : ℕ) → Memᴰ x (s.cells a)
    → ¬ Memᴰ x (s.cells (copy a n).0)
IsDeep-separate h a n below x inside copied =
    let lower = Taken-lower (h.taken a n) copied in let upper = below x inside in omega arith
