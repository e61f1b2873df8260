-- ===== src/Common/Dict.antt =====
-- Go's `map[string]V` as an association list with at most one entry to a key.
use Prim.Native.String.{String}
use mathlib.Core.Path.{◌≡◌, refl}
use mathlib.Core.Option.{Option, none, some}
use mathlib.Core.List.{List, [], ◌∷◌}
use native.Mathlib.Omega.{arith}
use text.Mathlib.Text.{◌==◌}
use text.Mathlib.TextEquality.{eq_iff}
use cel_admission_webhook.Common.Tests.{if◌then◌else◌}

abbrev pub Dict {ℓ} : Type ℓ → Type ℓ
Dict V = List (String × V)

module _ {ℓ} {V : Type ℓ} where
  unfoldable pub lookup : String → Dict V → Option V
  lookup name [] = none
  lookup name ((here, held) ∷ rest) = if here == name then some held else lookup name rest

  -- `m[name] = value`
  unfoldable pub insert : String → V → Dict V → Dict V
  insert name value [] = (name, value) ∷ []
  insert name value ((here, held) ∷ rest) =
      if here == name then (name, value) ∷ rest else (here, held) ∷ insert name value rest

  pub lookup-insert :
      (name asked : String) (value : V) (dict : Dict V)
      → lookup asked (insert name value dict)
        ≡ (if name == asked then some value else lookup asked dict)
  unfolding lookup insert
  lookup-insert name asked value [] = refl
  lookup-insert name asked value ((here, held) ∷ rest) = ground (
    arith,
    lookup-insert name asked value rest,
    eq_iff here name,
    eq_iff here asked,
    eq_iff name asked,
  )
