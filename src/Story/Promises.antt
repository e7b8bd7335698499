-- ===== src/Story/Promises.antt =====
-- packages/story-memory/src/promise.ts and promiseRegistryService.ts: the promises that a book makes
-- to its reader, for each project. The map `mem` has the reading and writing of Persistence. The array
-- that loadPromises returns is the one in the map: a call that changes it is written as a new list.
pub mod Health
mod Tests
use ocrowley_commons.Common.{
  Bool, List, Option, String, [], false, filter, get_or, if◌then◌else◌, leb, length, map, none, not,
  some, str_eq, true, ℕ, ◌&&◌, ◌+s◌, ◌==◌, ◌∷◌,
}
use ocrowley_commons.Persistence.{Dir, read_file, write_file}

pub data PromiseType : Type 0 where
  plot character theme revelation emotional : PromiseType

pub data PromiseStatus : Type 0 where
  planted developing paid_off broken cut_advised still_open : PromiseStatus

pub record StoryPromise : Type 0 where
  pub id : String
  pub kind : PromiseType
  pub statement : String
  pub setup_chapter : Option ℕ
  pub payoff_chapter : Option ℕ
  pub status : PromiseStatus
  pub risk_score : ℕ
  pub notes : Option String

pub record PromiseHealth : Type 0 where
  pub total : ℕ
  pub open_count : ℕ
  pub broken_count : ℕ
  pub paid_off_count : ℕ
  pub overdue : ℕ

-- `['planted', 'developing', 'open'].includes(p.status)`.
abbrev pub is_pending : StoryPromise → Bool
is_pending p = elim p.status [
  | planted ↦ true
  | developing ↦ true
  | paid_off ↦ false
  | broken ↦ false
  | cut_advised ↦ false
  | still_open ↦ true
]

abbrev pub is_broken : StoryPromise → Bool
is_broken p = elim p.status [
  | planted ↦ false
  | developing ↦ false
  | paid_off ↦ false
  | broken ↦ true
  | cut_advised ↦ false
  | still_open ↦ false
]

abbrev pub is_paid_off : StoryPromise → Bool
is_paid_off p = elim p.status [
  | planted ↦ false
  | developing ↦ false
  | paid_off ↦ true
  | broken ↦ false
  | cut_advised ↦ false
  | still_open ↦ false
]

-- A chapter is truthy when there is one and it is not 0.
abbrev pub has_chapter : Option ℕ → Bool
has_chapter none = false
has_chapter (some n) = not (n == 0)

abbrev pub is_overdue : StoryPromise → Bool
is_overdue p = has_chapter p.payoff_chapter && is_pending p && leb 70 p.risk_score

unfoldable pub compute_promise_health : List StoryPromise → PromiseHealth
compute_promise_health promises = record {
  total = length promises;
  open_count = length (filter is_pending promises);
  broken_count = length (filter is_broken promises);
  paid_off_count = length (filter is_paid_off promises);
  overdue = length (filter is_overdue promises);
}

abbrev pub Mem : Type 0
Mem = Dir (List StoryPromise)

abbrev pub promises_key : String → String
promises_key project_id = "promises:" +s project_id

unfoldable pub load_promises : Mem → (project_id : String) → List StoryPromise
load_promises mem project_id = get_or (read_file mem (promises_key project_id)) []

unfoldable pub save_promises : Mem → (project_id : String) → List StoryPromise → Mem
save_promises mem project_id promises = write_file mem (promises_key project_id) promises

-- The first promise with the id is replaced; where there is none, the promise is pushed.
unfoldable pub put_promise : StoryPromise → List StoryPromise → List StoryPromise
put_promise promise [] = promise ∷ []
put_promise promise (p ∷ ps) =
    let rest = put_promise promise ps in if str_eq p.id promise.id then promise ∷ ps else p ∷ rest

unfoldable pub upsert_promise : Mem → (project_id : String) → StoryPromise → List StoryPromise × Mem
unfolding load_promises save_promises put_promise
upsert_promise mem project_id promise =
    let promises = put_promise promise (load_promises mem project_id) in
    (promises, save_promises mem project_id promises)

abbrev pub with_status : (id : String) → PromiseStatus → StoryPromise → StoryPromise
with_status id status p = if str_eq p.id id then record p { status = status } else p

unfoldable pub set_promise_status :
    Mem → (project_id id : String) → PromiseStatus → List StoryPromise × Mem
unfolding load_promises save_promises
set_promise_status mem project_id id status =
    let promises = map (with_status id status) (load_promises mem project_id) in
    (promises, save_promises mem project_id promises)

pub record PromiseInput : Type 0 where
  pub project_id : String
  pub kind : PromiseType
  pub statement : String
  pub setup_chapter : Option ℕ
  pub risk_score : Option ℕ

-- `now` is `Date.now().toString(36)`.
abbrev pub new_promise : (now : String) → PromiseInput → StoryPromise
new_promise now input = record {
  id = "prm_" +s now;
  kind = input.kind;
  statement = input.statement;
  setup_chapter = input.setup_chapter;
  payoff_chapter = none;
  status = planted;
  risk_score = get_or input.risk_score 0;
  notes = none;
}

unfoldable pub create_promise : Mem → (now : String) → PromiseInput → StoryPromise × Mem
unfolding upsert_promise
create_promise mem now input =
    (new_promise now input, (upsert_promise mem input.project_id (new_promise now input)).1)
