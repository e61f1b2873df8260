-- ===== src/Api/Copy/Every/Laws.antt =====
-- `DeepCopy` of every API type is deep.
use cel_admission_webhook.Common.{ℕ, ◌≡◌, ◌<◌, ◌↔◌, none, arith}
use mathlib.Core.List.{Memᴰ}
use cel_admission_webhook.Api.Memory.{Alloc, Pointer}
use cel_admission_webhook.Api.Types.{
  Meta, AuditAnnotation, ExpressionWarning, MatchResources, NamedRuleWithOperations, ParamKind,
  ParamRef, TypeChecking, ValidatingAdmissionPolicy, ValidatingAdmissionPolicyBinding,
  ValidatingAdmissionPolicyBindingList, ValidatingAdmissionPolicyBindingSpec,
  ValidatingAdmissionPolicyList, ValidatingAdmissionPolicySpec, ValidatingAdmissionPolicyStatus,
  Validation,
}
use cel_admission_webhook.Api.Copy.{MetaCopies, deep_copy}
use cel_admission_webhook.Api.Copy.Deep.{
  Shape, Taken, IsDeep, IsDeep-separate, deep_copy-IsDeep, flat, pointer, pure-IsDeep,
}
use cel_admission_webhook.Api.Copy.Shapes.{
  MetaShapes, match_resources_shape, named_rule_shape, type_checking_shape, policy_shape,
  binding_shape, binding_list_shape, binding_spec_shape, policy_list_shape, policy_spec_shape,
  policy_status_shape, validation_shape,
}
use cel_admission_webhook.Api.Copy.Laws.{
  MetaIsDeep, match_resources-IsDeep, named_rule-IsDeep, type_checking-IsDeep, policy-IsDeep,
  binding-IsDeep, binding_list-IsDeep, binding_spec-IsDeep, policy_list-IsDeep, policy_spec-IsDeep,
  policy_status-IsDeep, validation-IsDeep,
}
use cel_admission_webhook.Api.Copy.Every.{
  deep_copy_audit_annotation, deep_copy_expression_warning, deep_copy_match_condition,
  deep_copy_match_resources, deep_copy_named_rule, deep_copy_param_kind, deep_copy_param_ref,
  deep_copy_type_checking, deep_copy_policy, deep_copy_binding, deep_copy_binding_list,
  deep_copy_binding_spec, deep_copy_policy_list, deep_copy_policy_spec, deep_copy_policy_status,
  deep_copy_validation, deep_copy_policy_object, deep_copy_policy_list_object,
  deep_copy_binding_object, deep_copy_binding_list_object,
}

-- The types of the file.
pub data ApiType : Type 0 where
  audit_annotation : ApiType
  expression_warning : ApiType
  match_condition : ApiType
  match_resources : ApiType
  named_rule : ApiType
  param_kind : ApiType
  param_ref : ApiType
  type_checking : ApiType
  policy : ApiType
  binding : ApiType
  binding_list : ApiType
  binding_spec : ApiType
  policy_list : ApiType
  policy_spec : ApiType
  policy_status : ApiType
  validation : ApiType

-- The type that a name stands for.
abbrev pub Value : Meta → ApiType → Type 0
Value meta audit_annotation = AuditAnnotation
Value meta expression_warning = ExpressionWarning
Value meta match_condition = meta.MatchCondition
Value meta match_resources = MatchResources meta
Value meta named_rule = NamedRuleWithOperations meta
Value meta param_kind = ParamKind
Value meta param_ref = ParamRef
Value meta type_checking = TypeChecking
Value meta policy = ValidatingAdmissionPolicy meta
Value meta binding = ValidatingAdmissionPolicyBinding meta
Value meta binding_list = ValidatingAdmissionPolicyBindingList meta
Value meta binding_spec = ValidatingAdmissionPolicyBindingSpec meta
Value meta policy_list = ValidatingAdmissionPolicyList meta
Value meta policy_spec = ValidatingAdmissionPolicySpec meta
Value meta policy_status = ValidatingAdmissionPolicyStatus meta
Value meta validation = Validation

module _ {meta : Meta} (shapes : MetaShapes meta) where
  abbrev pub shape_of : (t : ApiType) → Shape (Value meta t)
  shape_of audit_annotation = flat
  shape_of expression_warning = flat
  shape_of match_condition = flat
  shape_of match_resources = match_resources_shape shapes
  shape_of named_rule = named_rule_shape shapes
  shape_of param_kind = flat
  shape_of param_ref = flat
  shape_of type_checking = type_checking_shape
  shape_of policy = policy_shape shapes
  shape_of binding = binding_shape shapes
  shape_of binding_list = binding_list_shape shapes
  shape_of binding_spec = binding_spec_shape shapes
  shape_of policy_list = policy_list_shape shapes
  shape_of policy_spec = policy_spec_shape shapes
  shape_of policy_status = policy_status_shape shapes
  shape_of validation = validation_shape

module _ {meta : Meta} (copies : MetaCopies meta) where
  -- `DeepCopy` of each type.
  abbrev pub deep_copy_of : (t : ApiType) → Pointer (Value meta t) → Alloc (Pointer (Value meta t))
  deep_copy_of audit_annotation = deep_copy_audit_annotation
  deep_copy_of expression_warning = deep_copy_expression_warning
  deep_copy_of match_condition = deep_copy_match_condition meta
  deep_copy_of match_resources = deep_copy_match_resources copies
  deep_copy_of named_rule = deep_copy_named_rule copies
  deep_copy_of param_kind = deep_copy_param_kind
  deep_copy_of param_ref = deep_copy_param_ref
  deep_copy_of type_checking = deep_copy_type_checking
  deep_copy_of policy = deep_copy_policy copies
  deep_copy_of binding = deep_copy_binding copies
  deep_copy_of binding_list = deep_copy_binding_list copies
  deep_copy_of binding_spec = deep_copy_binding_spec copies
  deep_copy_of policy_list = deep_copy_policy_list copies
  deep_copy_of policy_spec = deep_copy_policy_spec copies
  deep_copy_of policy_status = deep_copy_policy_status copies
  deep_copy_of validation = deep_copy_validation

module _ {meta : Meta} {shapes : MetaShapes meta} {copies : MetaCopies meta}
    (law : MetaIsDeep shapes copies) where
  every-IsDeep : (t : ApiType) → IsDeep (pointer (shape_of shapes t)) (deep_copy_of copies t)
  every-IsDeep audit_annotation = deep_copy-IsDeep pure-IsDeep
  every-IsDeep expression_warning = deep_copy-IsDeep pure-IsDeep
  every-IsDeep match_condition = deep_copy-IsDeep pure-IsDeep
  every-IsDeep match_resources = deep_copy-IsDeep (match_resources-IsDeep law)
  every-IsDeep named_rule = deep_copy-IsDeep (named_rule-IsDeep law)
  every-IsDeep param_kind = deep_copy-IsDeep pure-IsDeep
  every-IsDeep param_ref = deep_copy-IsDeep pure-IsDeep
  every-IsDeep type_checking = deep_copy-IsDeep type_checking-IsDeep
  every-IsDeep policy = deep_copy-IsDeep (policy-IsDeep law)
  every-IsDeep binding = deep_copy-IsDeep (binding-IsDeep law)
  every-IsDeep binding_list = deep_copy-IsDeep (binding_list-IsDeep law)
  every-IsDeep binding_spec = deep_copy-IsDeep (binding_spec-IsDeep law)
  every-IsDeep policy_list = deep_copy-IsDeep (policy_list-IsDeep law)
  every-IsDeep policy_spec = deep_copy-IsDeep (policy_spec-IsDeep law)
  every-IsDeep policy_status = deep_copy-IsDeep (policy_status-IsDeep law)
  every-IsDeep validation = deep_copy-IsDeep validation-IsDeep

  -- `DeepCopy` of a pointer to any type of the file gives a pointer with the contents of the original, nil
  -- for nil, whose cells, in the order of the fields, are the ones that the copy took, each once, when
  -- the copies of the types from elsewhere are deep.
  pub deep_copy_of-copied :
      (t : ApiType) (p : Pointer (Value meta t)) (n : ℕ)
      → ((pointer (shape_of shapes t)).erase (deep_copy_of copies t p n).0
          ≡ (pointer (shape_of shapes t)).erase p)
        × Taken n
            ((pointer (shape_of shapes t)).cells (deep_copy_of copies t p n).0)
            (deep_copy_of copies t p n).1
  deep_copy_of-copied t p n = ((every-IsDeep t).same p n, (every-IsDeep t).taken p n)

  -- `DeepCopy` of a pointer to any type of the file shares no cell with the original, when the cells that
  -- it takes lie above those of the original and the copies of the types from elsewhere are deep.
  pub deep_copy_of-separate :
      (t : ApiType) (p : Pointer (Value meta t)) (n : ℕ)
      → ((x : ℕ) → Memᴰ x ((pointer (shape_of shapes t)).cells p) → x < n)
      → (x : ℕ) → Memᴰ x ((pointer (shape_of shapes t)).cells p)
      → ¬ Memᴰ x ((pointer (shape_of shapes t)).cells (deep_copy_of copies t p n).0)
  deep_copy_of-separate t = IsDeep-separate (every-IsDeep t)

module _ {meta : Meta} (copies : MetaCopies meta) where
  -- `DeepCopyObject` gives a nil interface for a nil pointer, and only then.
  pub deep_copy_object-none_iff :
      (n : ℕ) (p : Pointer (ValidatingAdmissionPolicy meta))
      (l : Pointer (ValidatingAdmissionPolicyList meta))
      (b : Pointer (ValidatingAdmissionPolicyBinding meta))
      (m : Pointer (ValidatingAdmissionPolicyBindingList meta))
      → (((deep_copy_policy_object copies p n).0 ≡ none) ↔ (p ≡ none))
        × (((deep_copy_policy_list_object copies l n).0 ≡ none) ↔ (l ≡ none))
        × (((deep_copy_binding_object copies b n).0 ≡ none) ↔ (b ≡ none))
        × (((deep_copy_binding_list_object copies m n).0 ≡ none) ↔ (m ≡ none))
  unfolding deep_copy_policy_object deep_copy_policy_list_object deep_copy_binding_object
      deep_copy_binding_list_object deep_copy
  deep_copy_object-none_iff n p l b m = ground arith
