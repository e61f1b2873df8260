-- ===== src/Api/Copy/Tests.antt =====
-- Tests and instances for Api/Copy.antt.
use cel_admission_webhook.Common.{ℕ, String, ◌≡◌, refl, ◌<◌, arith, none, some, [], ◌∷◌}
use mathlib.Core.List.{Memᴰ}
use mathlib.Core.List.Memᴰ.{head, tail}
use std.Int.{pos}
use cel_admission_webhook.Api.Memory.{each, Pointer, Slice, pure, new}
use cel_admission_webhook.Api.Types.{
  Meta, Validation, ValidatingAdmissionPolicy, ValidatingAdmissionPolicyList,
  ValidatingAdmissionPolicyBindingList, fail, deny,
}
use cel_admission_webhook.Api.Copy.{
  copy_policy_spec, copy_validation, copy_policy_status, MetaCopies, deep_copy, copy_policy,
  copy_policy_list,
}
use cel_admission_webhook.Api.Copy.Deep.{
  pointer_cells, list_cells, Taken, flat, pointer, pure-IsDeep, new-IsDeep,
}
use cel_admission_webhook.Api.Copy.Shapes.{
  MetaShapes, policy_spec_shape, validation_shape, policy_status_shape, policy_shape,
  policy_list_shape,
}
use cel_admission_webhook.Api.Copy.Laws.{MetaIsDeep}
use cel_admission_webhook.Api.Copy.Every.{deep_copy_policy_object}
use cel_admission_webhook.Api.Copy.Every.Laws.{
  policy, policy_list, shape_of, deep_copy_of, deep_copy_of-separate, deep_copy_of-copied,
}

-- Labels are an array of texts, the other types single texts.
abbrev texts : Meta
texts = record {
  TypeMeta = String;
  ObjectMeta = Slice String;
  ListMeta = String;
  LabelSelector = Slice String;
  Condition = String;
  RuleWithOperations = Slice String;
  MatchCondition = String;
}

abbrev copies : MetaCopies texts
copies = record {
  copy_object_meta = new pure;
  copy_list_meta = pure;
  copy_label_selector = new pure;
  copy_condition = pure;
  copy_rule_with_operations = new pure;
}

abbrev shapes : MetaShapes texts
shapes = record {
  object_meta_shape = pointer flat;
  list_meta_shape = flat;
  label_selector_shape = pointer flat;
  condition_shape = flat;
  rule_with_operations_shape = pointer flat;
}

law : MetaIsDeep shapes copies
law = record {
  object_meta-IsDeep = new-IsDeep pure-IsDeep;
  list_meta-IsDeep = pure-IsDeep;
  label_selector-IsDeep = new-IsDeep pure-IsDeep;
  condition-IsDeep = pure-IsDeep;
  rule_with_operations-IsDeep = new-IsDeep pure-IsDeep;
}

abbrev at_cell : {A : Type 0} → ℕ → A → Pointer A
at_cell n a = some (record { address = n; target = a })

abbrev replicas : Validation
replicas = record {
  expression = "object.spec.replicas <= 5";
  message = "too many replicas";
  reason = at_cell 2 "Invalid";
  message_expression = "";
}

abbrev stored : ValidatingAdmissionPolicy texts
stored = record {
  type_meta = "ValidatingAdmissionPolicy";
  object_meta = at_cell 0 ("app=web" ∷ []);
  spec = record {
    param_kind = none;
    match_constraints = none;
    validations = at_cell 1 (replicas ∷ []);
    failure_policy = at_cell 3 fail;
    audit_annotations = none;
    match_conditions = none;
  };
  status = record { observed_generation = pos 0; type_checking = none; conditions = none };
}

abbrev policies : ValidatingAdmissionPolicyList texts
policies = record { type_meta = "List"; list_meta = "12"; items = at_cell 4 (stored ∷ []) }

abbrev bindings : ValidatingAdmissionPolicyBindingList texts
bindings = record {
  type_meta = "List";
  list_meta = "12";
  items = at_cell 0 (
      record {
        type_meta = "ValidatingAdmissionPolicyBinding";
        object_meta = none;
        spec = record {
          policy_name = "replicas";
          param_ref = at_cell 1 (record { name = "limits"; namespace = "default" });
          match_resources = none;
          validation_actions = at_cell 2 (deny ∷ []);
        };
      }
      ∷ []);
}

-- The copy takes a cell for the array of policies, and then those of its one policy.
test_cells :
    (policy_list_shape shapes).cells (copy_policy_list copies policies 7).0
    ≡ 7 ∷ 8 ∷ 9 ∷ 10 ∷ 11 ∷ []
unfolding copy_policy_list policy_list_shape flat pointer_cells list_cells policy_shape
    policy_spec_shape validation_shape policy_status_shape new each copy_policy copy_policy_spec
    copy_validation copy_policy_status
test_cells = refl

policies_below : (x : ℕ) → Memᴰ x ((pointer (policy_shape shapes)).cells (at_cell 4 stored)) → x < 5
unfolding flat pointer_cells list_cells policy_shape policy_spec_shape validation_shape
    policy_status_shape
policies_below x (head e) = omega arith
policies_below x (tail (head e)) = omega arith
policies_below x (tail (tail (head e))) = omega arith
policies_below x (tail (tail (tail (head e)))) = omega arith
policies_below x (tail (tail (tail (tail (head e))))) = omega arith
policies_below x (tail (tail (tail (tail (tail p))))) = elim p [ ]

reason_inside : Memᴰ 2 ((pointer (policy_shape shapes)).cells (at_cell 4 stored))
unfolding flat pointer_cells list_cells policy_shape policy_spec_shape validation_shape
    policy_status_shape
reason_inside = tail (tail (tail (head refl)))

deep_copy_of-separate_example :
    ¬ Memᴰ 2
      ((pointer (shape_of shapes policy)).cells (deep_copy_of copies policy (at_cell 4 stored) 5).0)
deep_copy_of-separate_example =
    deep_copy_of-separate law policy (at_cell 4 stored) 5 policies_below 2 reason_inside

deep_copy_of-copied_example :
    ((pointer (shape_of shapes policy_list)).erase
        (deep_copy_of copies policy_list (at_cell 6 policies) 7).0
      ≡ (pointer (shape_of shapes policy_list)).erase (at_cell 6 policies))
    × Taken 7
        ((pointer (shape_of shapes policy_list)).cells
          (deep_copy_of copies policy_list (at_cell 6 policies) 7).0)
        (deep_copy_of copies policy_list (at_cell 6 policies) 7).1
deep_copy_of-copied_example = deep_copy_of-copied law policy_list (at_cell 6 policies) 7

nil_object : deep_copy_policy_object copies none 7 ≡ (none, 7)
unfolding deep_copy_policy_object deep_copy
nil_object = refl
