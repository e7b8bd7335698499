-- ===== src/Osint/WhoWorker/Loop.antt =====
-- packages/osint/src/jobs/whoWorker.ts: the start of a worker and its loop. `should_stop n` is the answer
-- of the callback at the n-th turn, false where there is none.
use ocrowley_commons.Common.{
  Bool, Bool-cases, Option, String, arith, false, first_chars, if_false, if_true, if◌then◌else◌,
  inl, inr, leb, none, refl, some, suc, true, zero, ℕ, ◌+s◌, ◌+◌, ◌<◌, ◌||◌, ◌∙◌, ◌≡◌, ◌≤◌,
}
use ocrowley_commons.Jobs.Lease.{recover_stuck_jobs}
use ocrowley_commons.Osint.Auth.{or_text}
use ocrowley_commons.Osint.WhoJobs.{who_job_kind}
use ocrowley_commons.Osint.WhoWorker.{WhoValue, WorkerEnv, World, with_store}
use ocrowley_commons.Osint.WhoWorker.Process.{run_who_worker_once}
use ocrowley_commons.Jobs.{CaspaJob}

pub record WorkerOptions : Type 0 where
  pub max_jobs : Option ℕ
  pub worker_id : Option String
  pub should_stop : ℕ → Bool

-- `opts.maxJobs !== undefined && processed >= opts.maxJobs`.
abbrev pub limit_reached : Option ℕ → ℕ → Bool
limit_reached none processed = false
limit_reached (some max) processed = leb max processed

module _ {W R T B : Type 0} (env : WorkerEnv W T R B) (opts : WorkerOptions) where
  abbrev pub count_turn :
      (processed : ℕ) → Option (CaspaJob (WhoValue W)) × World W R → ℕ × World W R
  count_turn processed (some job, next) = (processed + 1, next)
  count_turn processed (none, next) = (processed, env.idle next)

  -- One turn on the way: a job, or a sleep.
  unfoldable pub worker_turn : (processed : ℕ) → World W R → ℕ × World W R
  unfolding run_who_worker_once
  worker_turn processed w = count_turn processed (run_who_worker_once env w)

  -- `none` where the fuel runs out: the loop has no bound of its own.
  unfoldable pub worker_loop : (fuel turn processed : ℕ) → World W R → Option (ℕ × World W R)
  unfolding worker_turn
  worker_loop zero turn processed w = none
  worker_loop (suc fuel) turn processed w =
      let (count, next) = worker_turn processed w in
      let rest = worker_loop fuel (turn + 1) count next in
      if w.stop_requested || opts.should_stop turn
      then some (processed, w)
      else if limit_reached opts.max_jobs processed
      then some (processed, w)
      else rest

  -- The world as the loop finds it; the stuck jobs are recovered.
  unfoldable pub prepared : World W R → World W R
  unfolding first_chars
  prepared w =
      let named = or_text opts.worker_id ("who-" +s first_chars 10 (env.fresh_id w.reads)) in
      let (count, store) =
        recover_stuck_jobs (record { kind = some who_job_kind; max_age_ms = 0 })
          (env.clock (w.reads + 1)) (λ _. env.clock (w.reads + 2)) w.who.store in
      record (with_store store 3 w) { worker_id = named; is_active = true; stop_requested = false }

  -- A worker that runs is not started again. The end of the loop clears the flag.
  unfoldable pub start_who_worker : (fuel : ℕ) → World W R → Option (ℕ × World W R)
  unfolding worker_loop prepared
  start_who_worker fuel w =
      let loop = worker_loop fuel 0 0 (prepared w) in
      if w.is_active then some (0, w) else elim loop [
        | none ↦ none
        | some (processed, after) ↦ some (processed, record after { is_active = false })
      ]

  count_turn-le :
      (processed : ℕ) (r : Option (CaspaJob (WhoValue W)) × World W R)
      → (count_turn processed r).0 ≤ processed + 1
  count_turn-le processed (some job, next) = omega arith
  count_turn-le processed (none, next) = omega arith

  turn-le : (processed : ℕ) (w : World W R) → (worker_turn processed w).0 ≤ processed + 1
  unfolding worker_turn
  turn-le processed w = count_turn-le processed (run_who_worker_once env w)

  halts : (a b : Bool) → b ≡ true → (a || b) ≡ true
  halts a b h = ground arith

  -- The loop ends at the latest when the callback says so, with no more jobs than the limit.
  worker_loop-ends :
      (max fuel turn left processed : ℕ) (w : World W R)
      → opts.max_jobs ≡ some max
      → processed ≤ max
      → opts.should_stop (turn + left) ≡ true
      → left < fuel
      → (count : ℕ) × (after : World W R) × (worker_loop fuel turn processed w
          ≡ some (count, after))
        × (count ≤ max)
  unfolding worker_loop
  worker_loop-ends max zero turn left processed w limit low stop enough = absurd (omega arith)
  worker_loop-ends max (suc fuel) turn zero processed w limit low stop enough =
      let now : opts.should_stop turn ≡ true =
        let at : turn + 0 ≡ turn = omega arith in rw at at stop in
      (processed, w, if_true _ _ _ (halts w.stop_requested (opts.should_stop turn) now), low)
  worker_loop-ends max (suc fuel) turn (suc left) processed w limit low stop enough =
      elim (Bool-cases (w.stop_requested || opts.should_stop turn)) [
        | inl halt ↦ (processed, w, if_true _ _ _ halt, low)
        | inr on ↦ elim (Bool-cases (limit_reached opts.max_jobs processed)) [
          | inl done ↦ (processed, w, if_false _ _ _ on ∙ if_true _ _ _ done, low)
          | inr more ↦
              let room : leb max processed ≡ false = rw limit at more in
              let next = worker_turn processed w in
              let at : turn + suc left ≡ turn + 1 + left = omega arith in
              let (count, after, ran, within) =
                worker_loop-ends max fuel (turn + 1) left next.0 next.1 limit
                  (ground (arith, turn-le processed w)) (rw at at stop) (omega arith) in
              (count, after, if_false _ _ _ on ∙ if_false _ _ _ more ∙ ran, within)
        ]
      ]

  -- A worker that is not active yet, with a limit and a callback that says at its turn n that it is to
  -- stop, ends within n + 1 turns, has processed no more jobs than the limit, and is no longer active;
  -- one that is active is not started again.
  pub start_who_worker_lem :
      (max n : ℕ) (w : World W R)
      → opts.max_jobs ≡ some max
      → opts.should_stop n ≡ true
      → (w.is_active ≡ false
          → (count : ℕ) × (after : World W R) × (start_who_worker (n + 1) w ≡ some (count, after))
            × (count ≤ max)
            × (after.is_active ≡ false))
        × (w.is_active ≡ true → start_who_worker (n + 1) w ≡ some (0, w))
  unfolding start_who_worker
  start_who_worker_lem max n w limit stop = (
    λ idle.
        let (count, after, ran, within) =
          worker_loop-ends max (n + 1) 0 n 0 (prepared w) limit (omega arith)
            (let at : 0 + n ≡ n = omega arith in rw at stop) (omega arith) in
        (
          count,
          record after { is_active = false },
          if_false _ _ _ idle ∙ rw ran refl,
          within,
          refl,
        ),
    λ busy. if_true _ _ _ busy,
  )
