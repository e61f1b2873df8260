-- ===== src/Api/Copy/Shapes.antt =====
-- The shapes of the API types: which fields hold cells, in the order of the fields, and what of
-- each field counts as contents. The shapes of the types that come from elsewhere are parameters.
use cel_admission_webhook.Common.{◌++◌}
use cel_admission_webhook.Api.Types.{
  Meta, TypeChecking, Validation, NamedRuleWithOperations, MatchResources,
  ValidatingAdmissionPolicySpec, ValidatingAdmissionPolicyStatus, ValidatingAdmissionPolicy,
  ValidatingAdmissionPolicyList, ValidatingAdmissionPolicyBindingSpec,
  ValidatingAdmissionPolicyBinding, ValidatingAdmissionPolicyBindingList,
}
use cel_admission_webhook.Api.Copy.Deep.{Shape, flat, pointer, slice}

pub record MetaShapes (meta : Meta) : Type 0 where
  pub object_meta_shape : Shape meta.ObjectMeta
  pub list_meta_shape : Shape meta.ListMeta
  pub label_selector_shape : Shape meta.LabelSelector
  pub condition_shape : Shape meta.Condition
  pub rule_with_operations_shape : Shape meta.RuleWithOperations

unfoldable pub type_checking_shape : Shape TypeChecking
type_checking_shape = record {
  erase = λ v. record v { expression_warnings = (pointer flat).erase v.expression_warnings };
  cells = λ v. (pointer flat).cells v.expression_warnings;
}

unfoldable pub validation_shape : Shape Validation
validation_shape = record {
  erase = λ v. record v { reason = (pointer flat).erase v.reason };
  cells = λ v. (pointer flat).cells v.reason;
}

module _ {meta : Meta} (shapes : MetaShapes meta) where
  open shapes use {
    object_meta_shape, list_meta_shape, label_selector_shape, condition_shape,
    rule_with_operations_shape,
  }

  unfoldable pub named_rule_shape : Shape (NamedRuleWithOperations meta)
  named_rule_shape = record {
    erase = λ v. record v {
      resource_names = (pointer flat).erase v.resource_names;
      rule_with_operations = rule_with_operations_shape.erase v.rule_with_operations;
    };
    cells = λ v.
        (pointer flat).cells v.resource_names
        ++ (rule_with_operations_shape.cells v.rule_with_operations);
  }

  unfoldable pub match_resources_shape : Shape (MatchResources meta)
  match_resources_shape = record {
    erase = λ v. record v {
      namespace_selector = (pointer label_selector_shape).erase v.namespace_selector;
      object_selector = (pointer label_selector_shape).erase v.object_selector;
      resource_rules = (slice named_rule_shape).erase v.resource_rules;
      exclude_resource_rules = (slice named_rule_shape).erase v.exclude_resource_rules;
      match_policy = (pointer flat).erase v.match_policy;
    };
    cells = λ v.
        (pointer label_selector_shape).cells v.namespace_selector
        ++ ((pointer label_selector_shape).cells v.object_selector
            ++ ((slice named_rule_shape).cells v.resource_rules
                ++ ((slice named_rule_shape).cells v.exclude_resource_rules
                    ++ ((pointer flat).cells v.match_policy))));
  }

  unfoldable pub policy_spec_shape : Shape (ValidatingAdmissionPolicySpec meta)
  policy_spec_shape = record {
    erase = λ v. record v {
      param_kind = (pointer flat).erase v.param_kind;
      match_constraints = (pointer match_resources_shape).erase v.match_constraints;
      validations = (slice validation_shape).erase v.validations;
      failure_policy = (pointer flat).erase v.failure_policy;
      audit_annotations = (pointer flat).erase v.audit_annotations;
      match_conditions = (pointer flat).erase v.match_conditions;
    };
    cells = λ v.
        (pointer flat).cells v.param_kind
        ++ ((pointer match_resources_shape).cells v.match_constraints
            ++ ((slice validation_shape).cells v.validations
                ++ ((pointer flat).cells v.failure_policy
                    ++ ((pointer flat).cells v.audit_annotations
                        ++ ((pointer flat).cells v.match_conditions)))));
  }

  unfoldable pub policy_status_shape : Shape (ValidatingAdmissionPolicyStatus meta)
  policy_status_shape = record {
    erase = λ v. record v {
      type_checking = (pointer type_checking_shape).erase v.type_checking;
      conditions = (slice condition_shape).erase v.conditions;
    };
    cells = λ v.
        (pointer type_checking_shape).cells v.type_checking
        ++ ((slice condition_shape).cells v.conditions);
  }

  unfoldable pub policy_shape : Shape (ValidatingAdmissionPolicy meta)
  policy_shape = record {
    erase = λ v. record v {
      object_meta = object_meta_shape.erase v.object_meta;
      spec = policy_spec_shape.erase v.spec;
      status = policy_status_shape.erase v.status;
    };
    cells = λ v.
        object_meta_shape.cells v.object_meta
        ++ (policy_spec_shape.cells v.spec ++ (policy_status_shape.cells v.status));
  }

  unfoldable pub policy_list_shape : Shape (ValidatingAdmissionPolicyList meta)
  policy_list_shape = record {
    erase = λ v. record v {
      list_meta = list_meta_shape.erase v.list_meta;
      items = (slice policy_shape).erase v.items;
    };
    cells = λ v. list_meta_shape.cells v.list_meta ++ ((slice policy_shape).cells v.items);
  }

  unfoldable pub binding_spec_shape : Shape (ValidatingAdmissionPolicyBindingSpec meta)
  binding_spec_shape = record {
    erase = λ v. record v {
      param_ref = (pointer flat).erase v.param_ref;
      match_resources = (pointer match_resources_shape).erase v.match_resources;
      validation_actions = (pointer flat).erase v.validation_actions;
    };
    cells = λ v.
        (pointer flat).cells v.param_ref
        ++ ((pointer match_resources_shape).cells v.match_resources
            ++ ((pointer flat).cells v.validation_actions));
  }

  unfoldable pub binding_shape : Shape (ValidatingAdmissionPolicyBinding meta)
  binding_shape = record {
    erase = λ v. record v {
      object_meta = object_meta_shape.erase v.object_meta;
      spec = binding_spec_shape.erase v.spec;
    };
    cells = λ v. object_meta_shape.cells v.object_meta ++ (binding_spec_shape.cells v.spec);
  }

  unfoldable pub binding_list_shape : Shape (ValidatingAdmissionPolicyBindingList meta)
  binding_list_shape = record {
    erase = λ v. record v {
      list_meta = list_meta_shape.erase v.list_meta;
      items = (slice binding_shape).erase v.items;
    };
    cells = λ v. list_meta_shape.cells v.list_meta ++ ((slice binding_shape).cells v.items);
  }
