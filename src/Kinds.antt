-- ===== src/Kinds.antt =====
-- The names of kinds and resources that Kubernetes' `schema` package gives, as far as the program
-- reads them: `GroupVersionKind`, `GroupKind`, `GroupVersionResource` and `GroupResource`.
use cel_admission_webhook.Common.{String, ◌≡◌, ◌↔◌, Bool, true, ◌&&◌, ◌==◌, eq_iff, arith}

pub record GroupVersionKind : Type 0 where
  pub group : String
  pub version : String
  pub kind : String

pub record GroupKind : Type 0 where
  pub group : String
  pub kind : String

pub record GroupVersionResource : Type 0 where
  pub group : String
  pub version : String
  pub resource : String

pub record GroupResource : Type 0 where
  pub group : String
  pub resource : String

-- `gvk.GroupKind()`
abbrev pub group_kind : GroupVersionKind → GroupKind
group_kind g = record { group = g.group; kind = g.kind }

-- Go's `==` on the structs.
abbrev pub gvk_eq : GroupVersionKind → GroupVersionKind → Bool
gvk_eq a b = a.group == b.group && (a.version == b.version && a.kind == b.kind)

pub gvk_eq_iff : (a b : GroupVersionKind) → (gvk_eq a b ≡ true) ↔ (a ≡ b)
gvk_eq_iff a b =
    ground (arith, eq_iff a.group b.group, eq_iff a.version b.version, eq_iff a.kind b.kind)
