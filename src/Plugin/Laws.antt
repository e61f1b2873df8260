-- ===== src/Plugin/Laws.antt =====
-- Which requests the plugin leaves to the evaluator, and when.
use cel_admission_webhook.Common.{
  ℕ, ◌≡◌, ◌↔◌, ◌⊎◌, inl, inr, true, false, none, some, arith, eq_iff, Bool-cases,
}
use cel_admission_webhook.Common.Errors.{Error, errorf, outcome-cases}
use cel_admission_webhook.Kinds.{GroupVersionResource}
use cel_admission_webhook.Plugin.{Condition, Host, is_policy_resource, synced_condition, validate}

-- The policy resources are the policies and the bindings of either group, at every version.
pub is_policy_resource_iff :
    (r : GroupVersionResource)
    → (is_policy_resource r ≡ true) ↔ (
        ((r.group ≡ "admissionregistration.k8s.io") ⊎ (r.group ≡ "admissionregistration.x-k8s.io"))
        × ((r.resource ≡ "validatingadmissionpolicies")
            ⊎ (r.resource ≡ "validatingadmissionpolicybindings")))
unfolding is_policy_resource
is_policy_resource_iff r = ground (
  arith,
  eq_iff r.group "admissionregistration.k8s.io",
  eq_iff r.group "admissionregistration.x-k8s.io",
  eq_iff r.resource "validatingadmissionpolicies",
  eq_iff r.resource "validatingadmissionpolicybindings",
)

-- What the documentation of `PollImmediate` says: the condition is tried at once, the wait ends
-- without an error only after the condition was done, and a condition that is done at once ends it.
pub record PollLaws (h : Host) : Type 0 where
  pub ends_done :
      (i t : ℕ) (c : Condition h.State) (s u : h.State)
      → h.poll_immediate i t c s ≡ (none, u)
      → (w : h.State) × (c w ≡ (true, none, u))
  pub at_once :
      (i t : ℕ) (c : Condition h.State) (s u : h.State)
      → c s ≡ (true, none, u)
      → h.poll_immediate i t c s ≡ (none, u)

synced_condition-done :
    (h : Host) (w u : h.State)
    → synced_condition h w ≡ (true, none, u)
    → h.evaluator_has_synced w ≡ (true, u)
unfolding synced_condition
synced_condition-done h w u e = ground arith

synced_condition-synced :
    (h : Host) (w u : h.State)
    → h.evaluator_has_synced w ≡ (true, u)
    → synced_condition h w ≡ (true, none, u)
unfolding synced_condition
synced_condition-synced h w u e = ground arith

module _ (h : Host) (laws : PollLaws h) where
  open h use {
    Attributes, State, get_resource, evaluator_has_synced, evaluator_validate, poll_immediate,
    new_forbidden,
  }

  -- A policy resource is admitted and nothing is asked. Any other request is forbidden as not yet
  -- ready, when the wait fails, or has the evaluator's verdict, from a state in which the evaluator
  -- had just reported that it has synced.
  pub validate-cases :
      (a : Attributes) (s : State)
      → ((is_policy_resource (get_resource a) ≡ true) × (validate h a s ≡ (none, s)))
        ⊎ ((is_policy_resource (get_resource a) ≡ false)
            × (((e : Error) × (u : State) × (poll_immediate 100 1000 (synced_condition h) s
                    ≡ (some e, u))
                  × (validate h a s
                      ≡ (some (new_forbidden a (errorf "not yet ready to handle request")), u)))
                ⊎ ((w : State) × (u : State) × (evaluator_has_synced w ≡ (true, u))
                    × (validate h a s ≡ evaluator_validate a u))))
  unfolding validate
  validate-cases a s = elim (Bool-cases (is_policy_resource (get_resource a))) [
    | inl policy ↦ inl (policy, ground arith)
    | inr other ↦ inr (
      other,
      elim (outcome-cases (poll_immediate 100 1000 (synced_condition h) s)) [
        | inl (u, polled) ↦
            let (w, seen) = laws.ends_done 100 1000 (synced_condition h) s u polled in
            inr (w, u, synced_condition-done h w u seen, rw (other, polled))
        | inr (e, u, polled) ↦ inl (e, u, polled, rw (other, polled))
      ],
    )
  ]

  -- With an evaluator that has synced already the plugin is the evaluator, on all but the policies.
  pub validate-synced :
      (a : Attributes) (s u : State)
      → is_policy_resource (get_resource a) ≡ false
      → evaluator_has_synced s ≡ (true, u)
      → validate h a s ≡ evaluator_validate a u
  unfolding validate
  validate-synced a s u p e =
      let polled =
        laws.at_once 100 1000 (synced_condition h) s u (synced_condition-synced h s u e) in
      rw (p, polled)
