-- ===== src/Story/Promises/Tests.antt =====
-- Promises of a project at concrete values.
use ocrowley_commons.Common.{[], none, refl, some, ◌∷◌, ◌≡◌}
use ocrowley_commons.Persistence.{read_file, write_file}
use ocrowley_commons.Story.Promises.{
  PromiseInput, broken, compute_promise_health, create_promise, developing, load_promises,
  new_promise, plot, put_promise, save_promises, upsert_promise,
}

abbrev first_input : PromiseInput
first_input = record {
  project_id = "novel";
  kind = plot;
  statement = "The letter is opened";
  setup_chapter = some 1;
  risk_score = none;
}

abbrev second_input : PromiseInput
second_input = record first_input { statement = "The brother returns" }

-- Of two promises that are made in one millisecond, only the second is kept.
same_millisecond :
    load_promises
      (create_promise (create_promise [] "m1" first_input).1 "m1" second_input).1
      "novel"
    ≡ new_promise "m1" second_input ∷ []
unfolding create_promise upsert_promise load_promises save_promises put_promise read_file write_file
same_millisecond = refl

health_test :
    (compute_promise_health (
      record (new_promise "m1" first_input) {
        payoff_chapter = some 4;
        status = developing;
        risk_score = 70;
      }
      ∷ record (new_promise "m2" second_input) { status = broken }
      ∷ []))
    ≡ record { total = 2; open_count = 1; broken_count = 1; paid_off_count = 0; overdue = 1 }
unfolding compute_promise_health
health_test = refl
