-- ===== src/Lister/Generated/Tests.antt =====
-- The generated listers over an indexer of one policy.
use cel_admission_webhook.Common.{String, ◌≡◌, refl, if◌then◌else◌, ◌==◌, none, some, [], ◌∷◌}
use cel_admission_webhook.Common.Errors.{Error, errorf, ok, err}
use cel_admission_webhook.Kinds.{GroupResource}
use cel_admission_webhook.Lister.{Indexer}
use cel_admission_webhook.Lister.Generated.{
  policy_lister, binding_lister, ReadsAs, generated-ReadsAs,
}

abbrev one_policy : Indexer String String
one_policy = record {
  get_by_key = λ name. if name == "web" then ok (some "web") else ok none;
  list_all = λ selector. ("web" ∷ [], none);
  list_namespace = λ namespace selector. ([], none);
}

abbrev not_found : GroupResource → String → Error
not_found resource name = errorf resource.resource

generated-ReadsAs_example :
    ReadsAs not_found one_policy "validatingadmissionpolicy" (policy_lister not_found one_policy)
    × ReadsAs not_found one_policy "validatingadmissionpolicybinding"
        (binding_lister not_found one_policy)
generated-ReadsAs_example = generated-ReadsAs not_found one_policy

missing : (policy_lister not_found one_policy).get "db" ≡ err (errorf "validatingadmissionpolicy")
unfolding policy_lister
missing = refl
