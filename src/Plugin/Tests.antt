-- ===== src/Plugin/Tests.antt =====
-- A concrete host for Plugin.antt, tests and instances: the state is a clock in milliseconds, the
-- evaluator has synced from 500 on, and polling waits up to the timeout in steps of the interval.
use cel_admission_webhook.Common.{
  ℕ, zero, suc, ◌+◌, ◌/◌, ◌≡◌, refl, ◌⊎◌, inl, inr, Bool, true, false, not, Option, none, some, ltb,
  arith,
}
use cel_admission_webhook.Common.Errors.{Error, errorf}
use cel_admission_webhook.Kinds.{GroupVersionResource}
use cel_admission_webhook.Plugin.{Condition, Host, is_policy_resource, synced_condition, validate}
use cel_admission_webhook.Plugin.Laws.{PollLaws, validate-cases}

abbrev poll_answer : Bool × Option Error × ℕ → Option Error × ℕ → Option Error × ℕ
poll_answer (done, some e, t) later = (some e, t)
poll_answer (true, none, t) later = (none, t)
poll_answer (false, none, t) later = later

poll : ℕ → ℕ → Condition ℕ → ℕ → Option Error × ℕ
poll zero interval c s = poll_answer (c s) (some (errorf "timed out"), s)
poll (suc rounds) interval c s = poll_answer (c s) (poll rounds interval c (s + interval))

abbrev clock_poll : ℕ → ℕ → Condition ℕ → ℕ → Option Error × ℕ
clock_poll interval timeout c s = poll (timeout / interval) interval c s

abbrev clock_synced : ℕ → Bool × ℕ
clock_synced t = (not (ltb t 500), t)

abbrev pods : GroupVersionResource
pods = record { group = ""; version = "v1"; resource = "pods" }

abbrev policies : GroupVersionResource
policies = record {
  group = "admissionregistration.x-k8s.io";
  version = "v1alpha1";
  resource = "validatingadmissionpolicies";
}

abbrev clock_host : Host
clock_host = record {
  Attributes = GroupVersionResource;
  State = ℕ;
  get_resource = λ a. a;
  evaluator_has_synced = clock_synced;
  evaluator_validate = λ a s. (some (errorf "denied"), s);
  poll_immediate = clock_poll;
  new_forbidden = λ a e. e;
}

poll_answer-none :
    (r : Bool × Option Error × ℕ) (later : Option Error × ℕ) (u : ℕ)
    → poll_answer r later ≡ (none, u)
    → (r ≡ (true, none, u)) ⊎ (later ≡ (none, u))
poll_answer-none (done, some e, t) later u h = absurd (ground arith)
poll_answer-none (true, none, t) later u h = inl (ground arith)
poll_answer-none (false, none, t) later u h = inr h

poll-done :
    (rounds interval : ℕ) (c : Condition ℕ) (s u : ℕ)
    → poll rounds interval c s ≡ (none, u)
    → (w : ℕ) × (c w ≡ (true, none, u))
unfolding poll
poll-done zero interval c s u h = elim (poll_answer-none (c s) (some (errorf "timed out"), s) u h) [
  | inl now ↦ (s, now)
  | inr later ↦ absurd (cc)
]
poll-done (suc rounds) interval c s u h =
    let more = poll-done rounds interval c (s + interval) u in
    elim (poll_answer-none (c s) (poll rounds interval c (s + interval)) u h) [
      | inl now ↦ (s, now)
      | inr later ↦ more later
    ]

poll-at_once :
    (rounds interval : ℕ) (c : Condition ℕ) (s u : ℕ)
    → c s ≡ (true, none, u)
    → poll rounds interval c s ≡ (none, u)
unfolding poll
poll-at_once zero interval c s u h = rw h
poll-at_once (suc rounds) interval c s u h = rw h

clock_laws : PollLaws clock_host
clock_laws = record {
  ends_done = λ i t c s u h. poll-done (t / i) i c s u h;
  at_once = λ i t c s u h. poll-at_once (t / i) i c s u h;
}

test_waits : validate clock_host pods 0 ≡ (some (errorf "denied"), 500)
unfolding validate is_policy_resource poll synced_condition
test_waits = refl

validate-cases_example :
    ((is_policy_resource pods ≡ true) × (validate clock_host pods 0 ≡ (none, 0)))
    ⊎ ((is_policy_resource pods ≡ false)
        × (((e : Error) × (u : ℕ) × (clock_poll 100 1000 (synced_condition clock_host) 0
                ≡ (some e, u))
              × (validate clock_host pods 0 ≡ (some (errorf "not yet ready to handle request"), u)))
            ⊎ ((w : ℕ) × (u : ℕ) × (clock_synced w ≡ (true, u))
                × (validate clock_host pods 0 ≡ (some (errorf "denied"), u)))))
validate-cases_example = validate-cases clock_host clock_laws pods 0
