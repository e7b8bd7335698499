-- ===== src/Jobs/Lifecycle.antt =====
-- Any sequence of calls of the service on an empty store.
use ocrowley_commons.Common.{
  All, Bool-cases, List, Option, Option-cases, String, [], arith, head?, inl, inr, refl, true, ℕ,
  ◌+◌, ◌∷◌, ◌≡◌,
}
use ocrowley_commons.Jobs.{CaspaJob, is_running}
use ocrowley_commons.Jobs.Service.{
  CreateInput, Patch, Store, complete_stage, create, get, list, patch, start_stage,
}
use ocrowley_commons.Jobs.Lease.{
  ClaimOptions, RecoverOptions, candidates, claim_next_job_with_lease, claimed, heartbeat_lease,
  held_by_other, is_claimable, is_stuck, of_kind, recover_loop, recover_stuck_jobs, recovered,
  take_job,
}
use ocrowley_commons.Jobs.Outcome.{cancel, complete, fail, mark_failed, retry}
use ocrowley_commons.Jobs.Sound.{
  IsGood, IsSound, cancel-IsGood, complete-IsGood, complete_stage-IsGood, create-IsGood,
  fail-IsGood, get-IsSound, mark_failed-IsGood, patch-IsGood, retry-IsGood, start_stage-IsGood,
}

-- The calls of the service that write; each carries its arguments and clock readings.
pub data Call {ℓ} (V : Type ℓ) : Type ℓ where
  creates : (new_id : String) (no_payload : V) (now : ℕ) → CreateInput V → Call V
  patches : (id : String) → Patch V → (now : ℕ) → Call V
  starts_stage : (id stage_id : String) (now : ℕ) → Call V
  completes_stage : (id stage_id : String) (partial_result : Option V) (now : ℕ) → Call V
  completes : (id : String) (result : V) (now later : ℕ) → Call V
  fails : (id error : String) (now : ℕ) → Call V
  marks_failed : (id error : String) (now later : ℕ) → Call V
  cancels : (id reason : String) (now now' later : ℕ) → Call V
  retries : (id : String) (now : ℕ) → Call V
  claims : ClaimOptions → (now later : ℕ) → Call V
  heartbeats : (id owner : String) (lease_ms now later : ℕ) → Call V
  recovers : RecoverOptions → (now : ℕ) (stamp : String → ℕ) → Call V

module _ {ℓ} {V : Type ℓ} where
  abbrev pub run_call : Call V → Store V → Store V
  run_call (creates new_id no_payload now input) store =
      (create new_id no_payload now input store).1
  run_call (patches id change now) store = (patch id change now store).1
  run_call (starts_stage id stage_id now) store = (start_stage id stage_id now store).1
  run_call (completes_stage id stage_id result now) store =
      (complete_stage id stage_id result now store).1
  run_call (completes id result now later) store = (complete id result now later store).1
  run_call (fails id error now) store = (fail id error now store).1
  run_call (marks_failed id error now later) store = (mark_failed id error now later store).1
  run_call (cancels id reason now now' later) store = (cancel id reason now now' later store).1
  run_call (retries id now) store = (retry id now store).1
  run_call (claims opts now later) store = (claim_next_job_with_lease opts now later store).1
  run_call (heartbeats id owner lease_ms now later) store =
      (heartbeat_lease id owner lease_ms now later store).1
  run_call (recovers opts now stamp) store = (recover_stuck_jobs opts now stamp store).1

  abbrev pub run_calls : List (Call V) → Store V → Store V
  run_calls [] store = store
  run_calls (c ∷ cs) store = run_calls cs (run_call c store)

  take_job-IsGood :
      (opts : ClaimOptions) (now later : ℕ) (next : CaspaJob V) (store : Store V)
      → IsGood store
      → IsGood (take_job opts now later next store).1
  unfolding take_job claimed
  take_job-IsGood opts now later next store g = elim (Option-cases (get next.id store)) [
    | inl gone ↦ rw (gone, take_job) g
    | inr (fresh, found) ↦
        let patched =
          patch-IsGood fresh.id (claimed opts now fresh) later store g (λ j f. refl)
            (λ j f s. ground arith) in
        elim (Bool-cases (is_claimable fresh now)) [
          | inl may ↦ rw (found, take_job, may) patched
          | inr may_not ↦ rw (found, take_job, may_not) g
        ]
  ]

  claim-IsGood :
      (opts : ClaimOptions) (now later : ℕ) (store : Store V)
      → IsGood store
      → IsGood (claim_next_job_with_lease opts now later store).1
  unfolding claim_next_job_with_lease
  claim-IsGood opts now later store g = elim (Option-cases (head? (candidates opts now store))) [
    | inl idle ↦ rw (idle, claim_next_job_with_lease) g
    | inr (next, chosen) ↦
        rw (chosen, claim_next_job_with_lease) (take_job-IsGood opts now later next store g)
  ]

  heartbeat-IsGood :
      (id owner : String) (lease_ms now later : ℕ) (store : Store V)
      → IsGood store
      → IsGood (heartbeat_lease id owner lease_ms now later store).1
  unfolding heartbeat_lease
  heartbeat-IsGood id owner lease_ms now later store g = elim (Option-cases (get id store)) [
    | inl gone ↦ rw (gone, heartbeat_lease) g
    | inr (job, found) ↦ elim (Bool-cases (is_running job.status)) [
      | inr idle ↦ rw (found, heartbeat_lease, idle) g
      | inl live ↦ elim (Bool-cases (held_by_other job.lease_owner owner)) [
        | inl other ↦ rw (found, heartbeat_lease, live, other) g
        | inr own ↦
            rw (found, heartbeat_lease, live, own)
              (patch-IsGood id _ later store g (λ j f. refl)
                (λ j f s.
                  let same : job ≡ j = ground arith in
                  let still : is_running j.status ≡ true = rw (← same) live in ground arith))
      ]
    ]
  ]

  recover_loop-IsGood :
      (opts : RecoverOptions) (now : ℕ) (stamp : String → ℕ) (found : List (CaspaJob V)) (count : ℕ)
      (store : Store V)
      → IsGood store
      → IsGood (recover_loop opts now stamp found count store).1
  unfolding recover_loop recovered
  recover_loop-IsGood opts now stamp [] count store g = g
  recover_loop-IsGood opts now stamp (job ∷ rest) count store g =
      elim (Bool-cases (is_stuck opts now job)) [
        | inl stuck ↦
            rw (stuck, recover_loop)
              (recover_loop-IsGood opts now stamp rest (count + 1) _ (
                patch-IsGood job.id (recovered job) (stamp job.id) store g (λ j f. refl)
                  (λ j f s. ground arith)))
        | inr fine ↦ rw (fine, recover_loop) (recover_loop-IsGood opts now stamp rest count store g)
      ]

  -- A patch may write any fields; this one makes a sound job of a sound job. The other calls take no
  -- such care of their caller.
  abbrev pub MayPatch : Call V → Type ℓ
  MayPatch (patches id change now) =
      (job : CaspaJob V) → IsSound job → ((change job).id ≡ job.id) × IsSound (change job)
  MayPatch _ = Unit

  pub run_call-IsGood :
      (c : Call V) (store : Store V) → MayPatch c → IsGood store → IsGood (run_call c store)
  unfolding recover_stuck_jobs
  run_call-IsGood (creates new_id no_payload now input) store may g =
      create-IsGood new_id no_payload now input store g
  run_call-IsGood (patches id change now) store may g =
      patch-IsGood id change now store g (λ j f. (may j (get-IsSound store id j g f)).0)
        (λ j f s. let sound = (may j s).1 in ground arith)
  run_call-IsGood (starts_stage id stage_id now) store may g =
      start_stage-IsGood id stage_id now store g
  run_call-IsGood (completes_stage id stage_id result now) store may g =
      complete_stage-IsGood id stage_id result now store g
  run_call-IsGood (completes id result now later) store may g =
      complete-IsGood id result now later store g
  run_call-IsGood (fails id error now) store may g = fail-IsGood id error now store g
  run_call-IsGood (marks_failed id error now later) store may g =
      mark_failed-IsGood id error now later store g
  run_call-IsGood (cancels id reason now now' later) store may g =
      cancel-IsGood id reason now now' later store g
  run_call-IsGood (retries id now) store may g = retry-IsGood id now store g
  run_call-IsGood (claims opts now later) store may g = claim-IsGood opts now later store g
  run_call-IsGood (heartbeats id owner lease_ms now later) store may g =
      heartbeat-IsGood id owner lease_ms now later store g
  run_call-IsGood (recovers opts now stamp) store may g =
      recover_loop-IsGood opts now stamp (list (of_kind opts.kind) store) 0 store g

  run_calls_from :
      (cs : List (Call V)) (store : Store V)
      → All MayPatch cs
      → IsGood store
      → IsGood (run_calls cs store)
  run_calls_from [] store may g = g
  run_calls_from (c ∷ cs) store may g =
      run_calls_from cs (run_call c store) may.1 (run_call-IsGood c store may.0 g)

  -- After any sequence of calls on an empty store, with any arguments and clock readings, where every
  -- direct call of `patch` keeps the id and makes a sound job of a sound job: no two files share a
  -- name, every file is named after the id of the job in it, and every job in the store is sound. So
  -- no job but a running one holds a lease; a queued job has no current stage, result, error, stage to
  -- resume from, or time of completion or cancellation; and a completed, failed or cancelled job says
  -- when.
  pub run_calls-IsGood : (cs : List (Call V)) → All MayPatch cs → IsGood (run_calls cs [])
  run_calls-IsGood cs may =
      run_calls_from cs [] may
        (record { placed = record { keyed = tt; distinct = tt }; sound = tt })
