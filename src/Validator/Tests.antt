-- ===== src/Validator/Tests.antt =====
-- Tests and instances for Validator.antt: the state lists the validators that ran.
use cel_admission_webhook.Common.{ℕ, String, ◌≡◌, refl, ◌↔◌, none, some, List, [], ◌∷◌, ◌==◌}
use cel_admission_webhook.Common.Errors.{errorf}
use cel_admission_webhook.Validator.{Validator, validate_each}
use cel_admission_webhook.Validator.Laws.{Passes, validate_each_iff}

abbrev accepting : ℕ → String → Validator String (List ℕ)
accepting n operation = record {
  handles = λ o. o == operation;
  validate = λ a ran. (none, n ∷ ran);
}

abbrev rejecting : ℕ → String → Validator String (List ℕ)
rejecting n operation = record {
  handles = λ o. o == operation;
  validate = λ a ran. (some (errorf "rejected"), n ∷ ran);
}

abbrev operation_of : String → String
operation_of a = a

abbrev four : List (Validator String (List ℕ))
four =
    accepting 1 "CREATE" ∷ rejecting 2 "DELETE" ∷ rejecting 3 "CREATE" ∷ accepting 4 "CREATE" ∷ []

test_order : validate_each operation_of four "CREATE" [] ≡ (some (errorf "rejected"), 3 ∷ 1 ∷ [])
unfolding validate_each
test_order = refl

validate_each_iff_example :
    (validate_each operation_of four "DELETE" [] ≡ (none, []))
    ↔ Passes operation_of "DELETE" four [] []
validate_each_iff_example = (validate_each_iff operation_of "DELETE" four [] []).0
