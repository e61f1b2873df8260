-- ===== src/Validator.antt =====
-- pkg/validator/multi.go: a list of validators as one. A validator may change the state of the
-- world `S`, so the order in which they run is part of the model.
pub mod Laws
mod Tests
use cel_admission_webhook.Common.{
  String, Bool, true, false, not, Option, none, some, List, [], ◌∷◌, if◌then◌else◌,
}
use cel_admission_webhook.Common.Errors.{Error}

-- `admission.ValidationInterface`
pub record Validator (Attributes S : Type 0) : Type 0 where
  pub handles : String → Bool
  pub validate : Attributes → S → Option Error × S

-- `if err != nil { return err }`
abbrev pub and_then : {S : Type 0} → Option Error × S → (S → Option Error × S) → Option Error × S
and_then (none, t) next = next t
and_then (some e, t) next = (some e, t)

module _ {Attributes S : Type 0} (get_operation : Attributes → String) where
  -- The loop of `multi.Handles`.
  unfoldable pub any_handles : List (Validator Attributes S) → String → Bool
  any_handles [] operation = false
  any_handles (v ∷ vs) operation = if v.handles operation then true else any_handles vs operation

  -- The loop of `multi.Validate`.
  unfoldable pub validate_each : List (Validator Attributes S) → Attributes → S → Option Error × S
  validate_each [] a s = (none, s)
  validate_each (v ∷ vs) a s =
      let rest = validate_each vs a in
      if not (v.handles (get_operation a)) then rest s else and_then (v.validate a s) rest

  unfoldable pub new_multi : List (Validator Attributes S) → Validator Attributes S
  new_multi vs = record { handles = any_handles vs; validate = validate_each vs }
