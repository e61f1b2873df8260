-- ===== src/Api/Types.antt =====
-- pkg/apis/admissionregistration.x-k8s.io/v1alpha1/types.go: the policies and bindings. A string
-- type of Go is a text, an `int64` an integer; a pointer or a slice is one of Api.Memory.
use cel_admission_webhook.Common.{String}
use cel_admission_webhook.Api.Memory.{Pointer, Slice}
use std.Int.{ℤ}

-- The types of `metav1` and of `k8s.io/api/admissionregistration/v1` that the API's types hold.
pub record Meta : Type 1 where
  pub TypeMeta : Type 0
  pub ObjectMeta : Type 0
  pub ListMeta : Type 0
  pub LabelSelector : Type 0
  pub Condition : Type 0
  pub RuleWithOperations : Type 0
  pub MatchCondition : Type 0

abbrev pub FailurePolicyType : Type 0
FailurePolicyType = String

abbrev pub ignore : FailurePolicyType
ignore = "Ignore"

abbrev pub fail : FailurePolicyType
fail = "Fail"

abbrev pub MatchPolicyType : Type 0
MatchPolicyType = String

abbrev pub exact : MatchPolicyType
exact = "Exact"

abbrev pub equivalent : MatchPolicyType
equivalent = "Equivalent"

abbrev pub ValidationAction : Type 0
ValidationAction = String

abbrev pub deny : ValidationAction
deny = "Deny"

abbrev pub warn : ValidationAction
warn = "Warn"

abbrev pub audit : ValidationAction
audit = "Audit"

pub record ExpressionWarning : Type 0 where
  pub field_ref : String
  pub warning : String

pub record TypeChecking : Type 0 where
  pub expression_warnings : Slice ExpressionWarning

pub record ParamKind : Type 0 where
  pub api_version : String
  pub kind : String

pub record Validation : Type 0 where
  pub expression : String
  pub message : String
  pub reason : Pointer String
  pub message_expression : String

pub record AuditAnnotation : Type 0 where
  pub key : String
  pub value_expression : String

pub record ParamRef : Type 0 where
  pub name : String
  pub namespace : String

module _ (meta : Meta) where
  open meta use {
    TypeMeta, ObjectMeta, ListMeta, LabelSelector, Condition, RuleWithOperations, MatchCondition,
  }

  pub record NamedRuleWithOperations : Type 0 where
    pub resource_names : Slice String
    pub rule_with_operations : RuleWithOperations

  pub record MatchResources : Type 0 where
    pub namespace_selector : Pointer LabelSelector
    pub object_selector : Pointer LabelSelector
    pub resource_rules : Slice NamedRuleWithOperations
    pub exclude_resource_rules : Slice NamedRuleWithOperations
    pub match_policy : Pointer MatchPolicyType

  pub record ValidatingAdmissionPolicySpec : Type 0 where
    pub param_kind : Pointer ParamKind
    pub match_constraints : Pointer MatchResources
    pub validations : Slice Validation
    pub failure_policy : Pointer FailurePolicyType
    pub audit_annotations : Slice AuditAnnotation
    pub match_conditions : Slice MatchCondition

  pub record ValidatingAdmissionPolicyStatus : Type 0 where
    pub observed_generation : ℤ
    pub type_checking : Pointer TypeChecking
    pub conditions : Slice Condition

  pub record ValidatingAdmissionPolicy : Type 0 where
    pub type_meta : TypeMeta
    pub object_meta : ObjectMeta
    pub spec : ValidatingAdmissionPolicySpec
    pub status : ValidatingAdmissionPolicyStatus

  pub record ValidatingAdmissionPolicyList : Type 0 where
    pub type_meta : TypeMeta
    pub list_meta : ListMeta
    pub items : Slice ValidatingAdmissionPolicy

  pub record ValidatingAdmissionPolicyBindingSpec : Type 0 where
    pub policy_name : String
    pub param_ref : Pointer ParamRef
    pub match_resources : Pointer MatchResources
    pub validation_actions : Slice ValidationAction

  pub record ValidatingAdmissionPolicyBinding : Type 0 where
    pub type_meta : TypeMeta
    pub object_meta : ObjectMeta
    pub spec : ValidatingAdmissionPolicyBindingSpec

  pub record ValidatingAdmissionPolicyBindingList : Type 0 where
    pub type_meta : TypeMeta
    pub list_meta : ListMeta
    pub items : Slice ValidatingAdmissionPolicyBinding
