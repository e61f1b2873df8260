-- ===== src/Api/Copy.antt =====
-- pkg/apis/admissionregistration.x-k8s.io/v1alpha1/zz_generated.deepcopy.go: the copies of the API
-- types. `DeepCopyInto` starts with `*out = *in` and then replaces each pointer and each slice, in
-- the order of the fields; the new cells are taken in that order.
use cel_admission_webhook.Common.{ℕ, suc, Option, none, some}
use cel_admission_webhook.Api.Memory.{Alloc, Pointer, pure, ◌>>=◌, new, each}
use cel_admission_webhook.Api.Types.{
  Meta, ExpressionWarning, TypeChecking, ParamKind, Validation, AuditAnnotation, ParamRef,
  NamedRuleWithOperations, MatchResources, ValidatingAdmissionPolicySpec,
  ValidatingAdmissionPolicyStatus, ValidatingAdmissionPolicy, ValidatingAdmissionPolicyList,
  ValidatingAdmissionPolicyBindingSpec, ValidatingAdmissionPolicyBinding,
  ValidatingAdmissionPolicyBindingList,
}
pub mod Deep
pub mod Shapes
pub mod Laws
pub mod Every
pub mod Tests

-- The `DeepCopyInto` of the types that come from elsewhere. A `MatchCondition` has none: it is
-- copied by assignment.
pub record MetaCopies (meta : Meta) : Type 0 where
  pub copy_object_meta : meta.ObjectMeta → Alloc meta.ObjectMeta
  pub copy_list_meta : meta.ListMeta → Alloc meta.ListMeta
  pub copy_label_selector : meta.LabelSelector → Alloc meta.LabelSelector
  pub copy_condition : meta.Condition → Alloc meta.Condition
  pub copy_rule_with_operations : meta.RuleWithOperations → Alloc meta.RuleWithOperations

-- The `DeepCopy` of a type from its `DeepCopyInto`: `nil` for `nil`, and a new cell otherwise.
unfoldable pub deep_copy : {A : Type 0} → (A → Alloc A) → Pointer A → Alloc (Pointer A)
deep_copy copy none n = (none, n)
deep_copy copy (some r) n =
    let out = copy r.target (suc n) in (some (record { address = n; target = out.0 }), out.1)

unfoldable pub copy_type_checking : TypeChecking → Alloc TypeChecking
copy_type_checking t = do
  expression_warnings ← new pure t.expression_warnings
  pure (record t { expression_warnings = expression_warnings })

unfoldable pub copy_validation : Validation → Alloc Validation
copy_validation v = do reason ← new pure v.reason; pure (record v { reason = reason })

module _ {meta : Meta} (copies : MetaCopies meta) where
  open copies use {
    copy_object_meta, copy_list_meta, copy_label_selector, copy_condition,
    copy_rule_with_operations,
  }

  unfoldable pub copy_named_rule :
      NamedRuleWithOperations meta → Alloc (NamedRuleWithOperations meta)
  copy_named_rule r = do
    resource_names ← new pure r.resource_names
    rule ← copy_rule_with_operations r.rule_with_operations
    pure (record r { resource_names = resource_names; rule_with_operations = rule })

  unfoldable pub copy_match_resources : MatchResources meta → Alloc (MatchResources meta)
  copy_match_resources m = do
    namespace_selector ← new copy_label_selector m.namespace_selector
    object_selector ← new copy_label_selector m.object_selector
    resource_rules ← new (each copy_named_rule) m.resource_rules
    exclude_resource_rules ← new (each copy_named_rule) m.exclude_resource_rules
    match_policy ← new pure m.match_policy
    pure (record m {
      namespace_selector = namespace_selector;
      object_selector = object_selector;
      resource_rules = resource_rules;
      exclude_resource_rules = exclude_resource_rules;
      match_policy = match_policy;
    })

  unfoldable pub copy_policy_spec :
      ValidatingAdmissionPolicySpec meta → Alloc (ValidatingAdmissionPolicySpec meta)
  copy_policy_spec s = do
    param_kind ← new pure s.param_kind
    match_constraints ← new copy_match_resources s.match_constraints
    validations ← new (each copy_validation) s.validations
    failure_policy ← new pure s.failure_policy
    audit_annotations ← new pure s.audit_annotations
    match_conditions ← new pure s.match_conditions
    pure (record s {
      param_kind = param_kind;
      match_constraints = match_constraints;
      validations = validations;
      failure_policy = failure_policy;
      audit_annotations = audit_annotations;
      match_conditions = match_conditions;
    })

  unfoldable pub copy_policy_status :
      ValidatingAdmissionPolicyStatus meta → Alloc (ValidatingAdmissionPolicyStatus meta)
  copy_policy_status s = do
    type_checking ← new copy_type_checking s.type_checking
    conditions ← new (each copy_condition) s.conditions
    pure (record s { type_checking = type_checking; conditions = conditions })

  unfoldable pub copy_policy :
      ValidatingAdmissionPolicy meta → Alloc (ValidatingAdmissionPolicy meta)
  copy_policy p = do
    object_meta ← copy_object_meta p.object_meta
    spec ← copy_policy_spec p.spec
    status ← copy_policy_status p.status
    pure (record p { object_meta = object_meta; spec = spec; status = status })

  unfoldable pub copy_policy_list :
      ValidatingAdmissionPolicyList meta → Alloc (ValidatingAdmissionPolicyList meta)
  copy_policy_list l = do
    list_meta ← copy_list_meta l.list_meta
    items ← new (each copy_policy) l.items
    pure (record l { list_meta = list_meta; items = items })

  unfoldable pub copy_binding_spec :
      ValidatingAdmissionPolicyBindingSpec meta → Alloc (ValidatingAdmissionPolicyBindingSpec meta)
  copy_binding_spec s = do
    param_ref ← new pure s.param_ref
    match_resources ← new copy_match_resources s.match_resources
    validation_actions ← new pure s.validation_actions
    pure (record s {
      param_ref = param_ref;
      match_resources = match_resources;
      validation_actions = validation_actions;
    })

  unfoldable pub copy_binding :
      ValidatingAdmissionPolicyBinding meta → Alloc (ValidatingAdmissionPolicyBinding meta)
  copy_binding b = do
    object_meta ← copy_object_meta b.object_meta
    spec ← copy_binding_spec b.spec
    pure (record b { object_meta = object_meta; spec = spec })

  unfoldable pub copy_binding_list :
      ValidatingAdmissionPolicyBindingList meta → Alloc (ValidatingAdmissionPolicyBindingList meta)
  copy_binding_list l = do
    list_meta ← copy_list_meta l.list_meta
    items ← new (each copy_binding) l.items
    pure (record l { list_meta = list_meta; items = items })
