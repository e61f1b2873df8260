-- ===== src/Api/Copy/Every.antt =====
-- Every type of zz_generated.deepcopy.go: the copies of the types without a pointer, `DeepCopy` of each
-- type, and `DeepCopyObject` of those that are a `runtime.Object`.
pub mod Laws
use cel_admission_webhook.Common.{Option, none, some}
use cel_admission_webhook.Api.Memory.{Alloc, Pointer, Ref, pure}
use cel_admission_webhook.Api.Types.{
  Meta, AuditAnnotation, ExpressionWarning, MatchResources, NamedRuleWithOperations, ParamKind,
  ParamRef, TypeChecking, ValidatingAdmissionPolicy, ValidatingAdmissionPolicyBinding,
  ValidatingAdmissionPolicyBindingList, ValidatingAdmissionPolicyBindingSpec,
  ValidatingAdmissionPolicyList, ValidatingAdmissionPolicySpec, ValidatingAdmissionPolicyStatus,
  Validation,
}
use cel_admission_webhook.Api.Copy.{
  MetaCopies, deep_copy, copy_match_resources, copy_named_rule, copy_type_checking, copy_policy,
  copy_binding, copy_binding_list, copy_binding_spec, copy_policy_list, copy_policy_spec,
  copy_policy_status, copy_validation,
}

abbrev pub copy_audit_annotation : AuditAnnotation → Alloc AuditAnnotation
copy_audit_annotation = pure

abbrev pub copy_expression_warning : ExpressionWarning → Alloc ExpressionWarning
copy_expression_warning = pure

abbrev pub copy_param_kind : ParamKind → Alloc ParamKind
copy_param_kind = pure

abbrev pub copy_param_ref : ParamRef → Alloc ParamRef
copy_param_ref = pure

-- `runtime.Object`: a pointer that is not nil, with its type.
pub data RuntimeObject (meta : Meta) : Type 0 where
  policy_object : Ref (ValidatingAdmissionPolicy meta) → RuntimeObject meta
  policy_list_object : Ref (ValidatingAdmissionPolicyList meta) → RuntimeObject meta
  binding_object : Ref (ValidatingAdmissionPolicyBinding meta) → RuntimeObject meta
  binding_list_object : Ref (ValidatingAdmissionPolicyBindingList meta) → RuntimeObject meta

abbrev pub deep_copy_audit_annotation : Pointer AuditAnnotation → Alloc (Pointer AuditAnnotation)
deep_copy_audit_annotation = deep_copy copy_audit_annotation

abbrev pub deep_copy_expression_warning :
    Pointer ExpressionWarning → Alloc (Pointer ExpressionWarning)
deep_copy_expression_warning = deep_copy copy_expression_warning

abbrev pub deep_copy_param_kind : Pointer ParamKind → Alloc (Pointer ParamKind)
deep_copy_param_kind = deep_copy copy_param_kind

abbrev pub deep_copy_param_ref : Pointer ParamRef → Alloc (Pointer ParamRef)
deep_copy_param_ref = deep_copy copy_param_ref

abbrev pub deep_copy_type_checking : Pointer TypeChecking → Alloc (Pointer TypeChecking)
deep_copy_type_checking = deep_copy copy_type_checking

abbrev pub deep_copy_validation : Pointer Validation → Alloc (Pointer Validation)
deep_copy_validation = deep_copy copy_validation

abbrev pub copy_match_condition : (meta : Meta) → meta.MatchCondition → Alloc meta.MatchCondition
copy_match_condition meta = pure

abbrev pub deep_copy_match_condition :
    (meta : Meta) → Pointer meta.MatchCondition → Alloc (Pointer meta.MatchCondition)
deep_copy_match_condition meta = deep_copy (copy_match_condition meta)

module _ {meta : Meta} (copies : MetaCopies meta) where
  abbrev pub deep_copy_match_resources :
      Pointer (MatchResources meta) → Alloc (Pointer (MatchResources meta))
  deep_copy_match_resources = deep_copy (copy_match_resources copies)

  abbrev pub deep_copy_named_rule :
      Pointer (NamedRuleWithOperations meta) → Alloc (Pointer (NamedRuleWithOperations meta))
  deep_copy_named_rule = deep_copy (copy_named_rule copies)

  abbrev pub deep_copy_policy :
      Pointer (ValidatingAdmissionPolicy meta) → Alloc (Pointer (ValidatingAdmissionPolicy meta))
  deep_copy_policy = deep_copy (copy_policy copies)

  abbrev pub deep_copy_binding :
      Pointer (ValidatingAdmissionPolicyBinding meta)
      → Alloc (Pointer (ValidatingAdmissionPolicyBinding meta))
  deep_copy_binding = deep_copy (copy_binding copies)

  abbrev pub deep_copy_binding_list :
      Pointer (ValidatingAdmissionPolicyBindingList meta)
      → Alloc (Pointer (ValidatingAdmissionPolicyBindingList meta))
  deep_copy_binding_list = deep_copy (copy_binding_list copies)

  abbrev pub deep_copy_binding_spec :
      Pointer (ValidatingAdmissionPolicyBindingSpec meta)
      → Alloc (Pointer (ValidatingAdmissionPolicyBindingSpec meta))
  deep_copy_binding_spec = deep_copy (copy_binding_spec copies)

  abbrev pub deep_copy_policy_list :
      Pointer (ValidatingAdmissionPolicyList meta)
      → Alloc (Pointer (ValidatingAdmissionPolicyList meta))
  deep_copy_policy_list = deep_copy (copy_policy_list copies)

  abbrev pub deep_copy_policy_spec :
      Pointer (ValidatingAdmissionPolicySpec meta)
      → Alloc (Pointer (ValidatingAdmissionPolicySpec meta))
  deep_copy_policy_spec = deep_copy (copy_policy_spec copies)

  abbrev pub deep_copy_policy_status :
      Pointer (ValidatingAdmissionPolicyStatus meta)
      → Alloc (Pointer (ValidatingAdmissionPolicyStatus meta))
  deep_copy_policy_status = deep_copy (copy_policy_status copies)

  -- `if c := in.DeepCopy(); c != nil { return c }; return nil`: a nil pointer becomes a nil interface.
  unfoldable pub deep_copy_policy_object :
      Pointer (ValidatingAdmissionPolicy meta) → Alloc (Option (RuntimeObject meta))
  deep_copy_policy_object p n =
      let (c, m) = deep_copy_policy p n in
      (elim c [ none ↦ none | some r ↦ some (policy_object r) ], m)

  unfoldable pub deep_copy_binding_object :
      Pointer (ValidatingAdmissionPolicyBinding meta) → Alloc (Option (RuntimeObject meta))
  deep_copy_binding_object p n =
      let (c, m) = deep_copy_binding p n in
      (elim c [ none ↦ none | some r ↦ some (binding_object r) ], m)

  unfoldable pub deep_copy_binding_list_object :
      Pointer (ValidatingAdmissionPolicyBindingList meta) → Alloc (Option (RuntimeObject meta))
  deep_copy_binding_list_object p n =
      let (c, m) = deep_copy_binding_list p n in
      (elim c [ none ↦ none | some r ↦ some (binding_list_object r) ], m)

  unfoldable pub deep_copy_policy_list_object :
      Pointer (ValidatingAdmissionPolicyList meta) → Alloc (Option (RuntimeObject meta))
  deep_copy_policy_list_object p n =
      let (c, m) = deep_copy_policy_list p n in
      (elim c [ none ↦ none | some r ↦ some (policy_list_object r) ], m)
