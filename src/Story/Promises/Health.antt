-- ===== src/Story/Promises/Health.antt =====
-- The counts of computePromiseHealth.
use text.Mathlib.TextLemmas.{append_cancel_left}
use ocrowley_commons.Common.{
  List, String, [], arith, eq_iff, find, if◌then◌else◌, refl, some, str_eq, ◌&&◌, ◌+◌, ◌∷◌, ◌≡◌,
  ◌≤◌,
}
use ocrowley_commons.Story.Promises.{
  Mem, StoryPromise, compute_promise_health, load_promises, promises_key, put_promise,
  save_promises, upsert_promise,
}
use ocrowley_commons.Persistence.Laws.{read-write_file}

-- Replacing keeps the ids of the list, and pushing adds one.
put_promise-find :
    (promise : StoryPromise) (ps : List StoryPromise) (i : String)
    → find (λ p. str_eq p.id i) (put_promise promise ps)
      ≡ (if str_eq promise.id i then some promise else find (λ p. str_eq p.id i) ps)
unfolding put_promise
put_promise-find promise [] i = refl
put_promise-find promise (p ∷ ps) i = ground (
  arith,
  put_promise-find promise ps i,
  eq_iff p.id promise.id,
  eq_iff p.id i,
  eq_iff promise.id i,
)

-- Every promise is counted at most once, and an overdue promise is an open one.
pub compute_promise_health_lem :
    (ps : List StoryPromise)
    → ((compute_promise_health ps).open_count
          + (compute_promise_health ps).broken_count
          + (compute_promise_health ps).paid_off_count
        ≤ (compute_promise_health ps).total)
      × ((compute_promise_health ps).overdue ≤ (compute_promise_health ps).open_count)
unfolding compute_promise_health
compute_promise_health_lem [] = (omega arith, omega arith)
compute_promise_health_lem (p ∷ ps) =
    (ground (arith, compute_promise_health_lem ps), ground (arith, compute_promise_health_lem ps))

load_promises-save :
    (mem : Mem) (q r : String) (ps : List StoryPromise)
    → load_promises (save_promises mem q ps) r ≡ (if str_eq q r then ps else load_promises mem r)
unfolding load_promises save_promises
load_promises-save mem q r ps = ground (
  arith,
  read-write_file mem (promises_key q) (promises_key r) ps,
  eq_iff (promises_key q) (promises_key r),
  eq_iff q r,
  append_cancel_left "promises:" q r,
)

-- For every project `r` and id `i`: after upsertPromise, the first promise of `r` with the id `i` is the
-- given one where `r` is the given project and `i` its id, and else what it was.
pub upsert_promise_lem :
    (mem : Mem) (q r i : String) (promise : StoryPromise)
    → find (λ p. str_eq p.id i) (load_promises (upsert_promise mem q promise).1 r) ≡ (
        if str_eq q r && str_eq promise.id i
        then some promise
        else find (λ p. str_eq p.id i) (load_promises mem r))
unfolding upsert_promise
upsert_promise_lem mem q r i promise = ground (
  arith,
  load_promises-save mem q r (put_promise promise (load_promises mem q)),
  put_promise-find promise (load_promises mem q) i,
  eq_iff q r,
)
