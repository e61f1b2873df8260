-- ===== src/Api/Copy/Laws.antt =====
-- The copies of zz_generated.deepcopy.go are deep.
use cel_admission_webhook.Common.{refl, ◌≡◌, ℕ, ◌<◌}
use mathlib.Core.List.{Memᴰ}
use cel_admission_webhook.Api.Memory.{Pointer}
use cel_admission_webhook.Api.Types.{
  Meta, ValidatingAdmissionPolicyList, ValidatingAdmissionPolicyBindingList,
  ValidatingAdmissionPolicy,
}
use cel_admission_webhook.Api.Copy.{
  MetaCopies, deep_copy, copy_type_checking, copy_validation, copy_named_rule, copy_match_resources,
  copy_policy_spec, copy_policy_status, copy_policy, copy_policy_list, copy_binding_spec,
  copy_binding, copy_binding_list,
}
use cel_admission_webhook.Api.Copy.Deep.{
  Taken, deep_copy-IsDeep, IsDeep-separate, pointer, IsDeep, Taken-◌++◌, flat-same, flat-Taken,
  new-IsDeep, each-IsDeep,
}
use cel_admission_webhook.Api.Copy.Shapes.{
  MetaShapes, type_checking_shape, validation_shape, named_rule_shape, match_resources_shape,
  policy_spec_shape, policy_status_shape, policy_shape, policy_list_shape, binding_spec_shape,
  binding_shape, binding_list_shape,
}

-- What the copies of the types from elsewhere do.
pub record MetaIsDeep {meta : Meta} (shapes : MetaShapes meta) (copies : MetaCopies meta)
    : Type 0 where
  pub object_meta-IsDeep : IsDeep shapes.object_meta_shape copies.copy_object_meta
  pub list_meta-IsDeep : IsDeep shapes.list_meta_shape copies.copy_list_meta
  pub label_selector-IsDeep : IsDeep shapes.label_selector_shape copies.copy_label_selector
  pub condition-IsDeep : IsDeep shapes.condition_shape copies.copy_condition
  pub rule_with_operations-IsDeep :
      IsDeep shapes.rule_with_operations_shape copies.copy_rule_with_operations

pub type_checking-IsDeep : IsDeep type_checking_shape copy_type_checking
unfolding type_checking_shape copy_type_checking
type_checking-IsDeep = record {
  same = λ t n. rw (flat-same t.expression_warnings _) refl;
  taken = λ t n. flat-Taken t.expression_warnings _;
}

pub validation-IsDeep : IsDeep validation_shape copy_validation
unfolding validation_shape copy_validation
validation-IsDeep = record {
  same = λ v n. rw (flat-same v.reason _) refl;
  taken = λ v n. flat-Taken v.reason _;
}

module _ {meta : Meta} {shapes : MetaShapes meta} {copies : MetaCopies meta}
    (law : MetaIsDeep shapes copies) where
  pub named_rule-IsDeep : IsDeep (named_rule_shape shapes) (copy_named_rule copies)
  unfolding named_rule_shape copy_named_rule
  named_rule-IsDeep = record {
    same = λ r n.
        rw
          (
            flat-same r.resource_names _,
            law.rule_with_operations-IsDeep.same r.rule_with_operations _,
          )
          refl;
    taken = λ r n.
        Taken-◌++◌ (flat-Taken r.resource_names _)
          (law.rule_with_operations-IsDeep.taken r.rule_with_operations _);
  }

  pub match_resources-IsDeep : IsDeep (match_resources_shape shapes) (copy_match_resources copies)
  unfolding match_resources_shape copy_match_resources
  match_resources-IsDeep =
      let namespace_selector = new-IsDeep law.label_selector-IsDeep in
      let resource_rules = new-IsDeep (each-IsDeep named_rule-IsDeep) in
      record {
        same = λ m n.
            rw
              (
                namespace_selector.same m.namespace_selector _,
                namespace_selector.same m.object_selector _,
                resource_rules.same m.resource_rules _,
                resource_rules.same m.exclude_resource_rules _,
                flat-same m.match_policy _,
              )
              refl;
        taken = λ m n. Taken-◌++◌ (namespace_selector.taken m.namespace_selector _) (
            Taken-◌++◌ (namespace_selector.taken m.object_selector _) (
              Taken-◌++◌ (resource_rules.taken m.resource_rules _) (
                Taken-◌++◌ (resource_rules.taken m.exclude_resource_rules _)
                  (flat-Taken m.match_policy _))));
      }

  pub policy_spec-IsDeep : IsDeep (policy_spec_shape shapes) (copy_policy_spec copies)
  unfolding policy_spec_shape copy_policy_spec
  policy_spec-IsDeep =
      let match_constraints = new-IsDeep match_resources-IsDeep in
      let validations = new-IsDeep (each-IsDeep validation-IsDeep) in
      record {
        same = λ s n.
            rw
              (
                flat-same s.param_kind _,
                match_constraints.same s.match_constraints _,
                validations.same s.validations _,
                flat-same s.failure_policy _,
                flat-same s.audit_annotations _,
                flat-same s.match_conditions _,
              )
              refl;
        taken = λ s n. Taken-◌++◌ (flat-Taken s.param_kind _) (
            Taken-◌++◌ (match_constraints.taken s.match_constraints _) (
              Taken-◌++◌ (validations.taken s.validations _) (
                Taken-◌++◌ (flat-Taken s.failure_policy _) (
                  Taken-◌++◌ (flat-Taken s.audit_annotations _)
                    (flat-Taken s.match_conditions _)))));
      }

  pub policy_status-IsDeep : IsDeep (policy_status_shape shapes) (copy_policy_status copies)
  unfolding policy_status_shape copy_policy_status
  policy_status-IsDeep =
      let type_checking = new-IsDeep type_checking-IsDeep in
      let conditions = new-IsDeep (each-IsDeep law.condition-IsDeep) in
      record {
        same =
            λ s n. rw (type_checking.same s.type_checking _, conditions.same s.conditions _) refl;
        taken = λ s n.
            Taken-◌++◌ (type_checking.taken s.type_checking _) (conditions.taken s.conditions _);
      }

  pub policy-IsDeep : IsDeep (policy_shape shapes) (copy_policy copies)
  unfolding policy_shape copy_policy
  policy-IsDeep = record {
    same = λ p n.
        rw
          (
            law.object_meta-IsDeep.same p.object_meta _,
            policy_spec-IsDeep.same p.spec _,
            policy_status-IsDeep.same p.status _,
          )
          refl;
    taken = λ p n.
        Taken-◌++◌ (law.object_meta-IsDeep.taken p.object_meta _)
          (Taken-◌++◌ (policy_spec-IsDeep.taken p.spec _) (policy_status-IsDeep.taken p.status _));
  }

  pub policy_list-IsDeep : IsDeep (policy_list_shape shapes) (copy_policy_list copies)
  unfolding policy_list_shape copy_policy_list
  policy_list-IsDeep =
      let items = new-IsDeep (each-IsDeep policy-IsDeep) in
      record {
        same = λ l n. rw (law.list_meta-IsDeep.same l.list_meta _, items.same l.items _) refl;
        taken =
            λ l n. Taken-◌++◌ (law.list_meta-IsDeep.taken l.list_meta _) (items.taken l.items _);
      }

  pub binding_spec-IsDeep : IsDeep (binding_spec_shape shapes) (copy_binding_spec copies)
  unfolding binding_spec_shape copy_binding_spec
  binding_spec-IsDeep =
      let match_resources = new-IsDeep match_resources-IsDeep in
      record {
        same = λ s n.
            rw
              (
                flat-same s.param_ref _,
                match_resources.same s.match_resources _,
                flat-same s.validation_actions _,
              )
              refl;
        taken = λ s n. Taken-◌++◌ (flat-Taken s.param_ref _) (
            Taken-◌++◌ (match_resources.taken s.match_resources _)
              (flat-Taken s.validation_actions _));
      }

  pub binding-IsDeep : IsDeep (binding_shape shapes) (copy_binding copies)
  unfolding binding_shape copy_binding
  binding-IsDeep = record {
    same = λ b n.
        rw (law.object_meta-IsDeep.same b.object_meta _, binding_spec-IsDeep.same b.spec _) refl;
    taken = λ b n.
        Taken-◌++◌ (law.object_meta-IsDeep.taken b.object_meta _)
          (binding_spec-IsDeep.taken b.spec _);
  }

  pub binding_list-IsDeep : IsDeep (binding_list_shape shapes) (copy_binding_list copies)
  unfolding binding_list_shape copy_binding_list
  binding_list-IsDeep =
      let items = new-IsDeep (each-IsDeep binding-IsDeep) in
      record {
        same = λ l n. rw (law.list_meta-IsDeep.same l.list_meta _, items.same l.items _) refl;
        taken =
            λ l n. Taken-◌++◌ (law.list_meta-IsDeep.taken l.list_meta _) (items.taken l.items _);
      }

  -- `DeepCopy` of a pointer to a policy shares no cell with the policy, when the cells that it takes
  -- lie above those of the policy and the copies of the types from elsewhere are deep.
  pub policy-separate :
      (p : Pointer (ValidatingAdmissionPolicy meta)) (n : ℕ)
      → ((x : ℕ) → Memᴰ x ((pointer (policy_shape shapes)).cells p) → x < n)
      → (x : ℕ) → Memᴰ x ((pointer (policy_shape shapes)).cells p)
      → ¬ Memᴰ x ((pointer (policy_shape shapes)).cells (deep_copy (copy_policy copies) p n).0)
  policy-separate = IsDeep-separate (deep_copy-IsDeep policy-IsDeep)

  -- Copying a list of policies gives a list with the contents of the original, whose cells, in the
  -- order of the fields, are the ones that the copy took, each once, when the copies of the types
  -- from elsewhere are deep.
  pub policy_list-copied :
      (l : ValidatingAdmissionPolicyList meta) (n : ℕ)
      → ((policy_list_shape shapes).erase (copy_policy_list copies l n).0
          ≡ (policy_list_shape shapes).erase l)
        × Taken n
            ((policy_list_shape shapes).cells (copy_policy_list copies l n).0)
            (copy_policy_list copies l n).1
  policy_list-copied l n = let deep = policy_list-IsDeep in (deep.same l n, deep.taken l n)

  -- Copying a list of bindings gives a list with the contents of the original, whose cells, in the
  -- order of the fields, are the ones that the copy took, each once, when the copies of the types
  -- from elsewhere are deep.
  pub binding_list-copied :
      (l : ValidatingAdmissionPolicyBindingList meta) (n : ℕ)
      → ((binding_list_shape shapes).erase (copy_binding_list copies l n).0
          ≡ (binding_list_shape shapes).erase l)
        × Taken n
            ((binding_list_shape shapes).cells (copy_binding_list copies l n).0)
            (copy_binding_list copies l n).1
  binding_list-copied l n = let deep = binding_list-IsDeep in (deep.same l n, deep.taken l n)
