-- ===== src/Jobs/Cancelled.antt =====
-- What becomes of a cancelled job when the service goes on with other work.
use ocrowley_commons.Common.{
  Bool, Bool-cases, List, Option, Option-cases, String, [], all, ap, arith, false, if_false, inl,
  inr, not, refl, some, str_cases, str_eq, sym, true, ℕ, ◌+◌, ◌∙◌, ◌∷◌, ◌≡◌,
}
use ocrowley_commons.Jobs.{CaspaJob, cancelled}
use ocrowley_commons.Jobs.Service.{
  Patch, Store, complete_stage, create, get, patch, stage_completed, stage_started, start_stage,
}
use ocrowley_commons.Jobs.Lease.{
  ClaimOptions, RecoverOptions, claim_next_job_with_lease, heartbeat_lease, is_claimable, is_stuck,
  recover_stuck_jobs,
}
use ocrowley_commons.Jobs.Store.{get-id, get-write_job}
use ocrowley_commons.Jobs.Outcome.{cancel, complete, fail, is_settled, mark_failed, requeued, retry}
use ocrowley_commons.Jobs.Sound.{IsGood}
use ocrowley_commons.Jobs.Lifecycle.{
  Call, MayPatch, cancels, claims, completes, completes_stage, creates, fails, heartbeats,
  marks_failed, patches, recovers, retries, run_call, run_call-IsGood, run_calls, starts_stage,
}
use ocrowley_commons.Jobs.Recover.{recover_stuck_jobs_lem}
use ocrowley_commons.Jobs.Heartbeat.{not_claimed}
use ocrowley_commons.Jobs.Stages.{cancelled_kept}

module _ {ℓ} {V : Type ℓ} where
  -- The calls that do not create a job with the id, and do not complete or fail the one that has it.
  -- A direct patch may write anything, so none is among them.
  abbrev pub spares : String → Call V → Bool
  spares id (creates new_id no_payload now input) = not (str_eq new_id id)
  spares id (patches other change now) = false
  spares id (completes other result now later) = not (str_eq other id)
  spares id (fails other error now) = not (str_eq other id)
  spares id (marks_failed other error now later) = not (str_eq other id)
  spares id _ = true

  spares-MayPatch : (id : String) (c : Call V) → spares id c ≡ true → MayPatch c
  spares-MayPatch id (patches other change now) h = cc
  spares-MayPatch id (creates new_id no_payload now input) h = tt
  spares-MayPatch id (starts_stage other stage_id now) h = tt
  spares-MayPatch id (completes_stage other stage_id result now) h = tt
  spares-MayPatch id (completes other result now later) h = tt
  spares-MayPatch id (fails other error now) h = tt
  spares-MayPatch id (marks_failed other error now later) h = tt
  spares-MayPatch id (cancels other reason now now' later) h = tt
  spares-MayPatch id (retries other now) h = tt
  spares-MayPatch id (claims opts now later) h = tt
  spares-MayPatch id (heartbeats other owner lease_ms now later) h = tt
  spares-MayPatch id (recovers opts now stamp) h = tt

  module _ (id : String) (store : Store V) (g : IsGood store) where
    -- A patch of another job.
    patch-other :
        (other : String) (change : Patch V) (now : ℕ)
        → ((job : CaspaJob V) → (change job).id ≡ job.id)
        → str_eq other id ≡ false
        → get id (patch other change now store).1 ≡ get id store
    unfolding patch
    patch-other other change now same apart = elim (Option-cases (get other store)) [
      | inl gone ↦ rw (patch, gone) refl
      | inr (job, found) ↦
          let named = same job ∙ get-id store other job g.placed found in
          rw (patch, found, get-write_job, named, apart) refl
    ]

    start_stage-other :
        (other stage_id : String) (now : ℕ)
        → str_eq other id ≡ false
        → get id (start_stage other stage_id now store).1 ≡ get id store
    unfolding start_stage stage_started
    start_stage-other other stage_id now apart = elim (Option-cases (get other store)) [
      | inl gone ↦ rw (start_stage, gone) refl
      | inr (job, found) ↦
          let named = get-id store other job g.placed found in
          let wrote = get-write_job store job.id id (stage_started stage_id now job) in
          let away : str_eq job.id id ≡ false = rw named apart in ground arith
    ]

    complete_stage-other :
        (other stage_id : String) (result : Option V) (now : ℕ)
        → str_eq other id ≡ false
        → get id (complete_stage other stage_id result now store).1 ≡ get id store
    unfolding complete_stage stage_completed
    complete_stage-other other stage_id result now apart = elim (Option-cases (get other store)) [
      | inl gone ↦ rw (complete_stage, gone) refl
      | inr (job, found) ↦
          let named = get-id store other job g.placed found in
          let wrote = get-write_job store job.id id (stage_completed stage_id result now job) in
          let away : str_eq job.id id ≡ false = rw named apart in ground arith
    ]

    cancel-other :
        (other reason : String) (now now' later : ℕ)
        → str_eq other id ≡ false
        → get id (cancel other reason now now' later store).1 ≡ get id store
    unfolding cancel
    cancel-other other reason now now' later apart = elim (Option-cases (get other store)) [
      | inl gone ↦ rw (cancel, gone) refl
      | inr (job, found) ↦ elim (Bool-cases (is_settled job.status)) [
        | inl stop ↦ rw (cancel, found, stop) refl
        | inr go ↦ rw (cancel, found, go) (patch-other other _ later (λ j. refl) apart)
      ]
    ]

    retry-other :
        (other : String) (now : ℕ)
        → str_eq other id ≡ false
        → get id (retry other now store).1 ≡ get id store
    unfolding retry requeued
    retry-other other now apart = elim (Option-cases (get other store)) [
      | inl gone ↦ rw (retry, gone) refl
      | inr (job, found) ↦
          let patched = patch-other other (requeued job) now (λ j. refl) apart in ground arith
    ]

    heartbeat_lease-other :
        (other owner : String) (lease_ms now later : ℕ)
        → str_eq other id ≡ false
        → get id (heartbeat_lease other owner lease_ms now later store).1 ≡ get id store
    unfolding heartbeat_lease
    heartbeat_lease-other other owner lease_ms now later apart =
        let patched =
          patch-other other
            (λ j. record j { lease_owner = some owner; lease_until = some (now + lease_ms) }) later
            (λ j. refl) apart in
        elim (Option-cases (get other store)) [
          | inl gone ↦ rw (heartbeat_lease, gone) refl
          | inr (job, found) ↦ ground arith
        ]

    module _ (job : CaspaJob V) (found : get id store ≡ some job)
        (stop : job.status ≡ cancelled) where
      claim-cancelled :
          (opts : ClaimOptions) (now later : ℕ)
          → get id (claim_next_job_with_lease opts now later store).1 ≡ some job
      unfolding is_claimable
      claim-cancelled opts now later =
          (not_claimed opts now later store id job g.placed found (ground arith)).1

      recover-cancelled :
          (opts : RecoverOptions) (now : ℕ) (stamp : String → ℕ)
          → get id (recover_stuck_jobs opts now stamp store).1 ≡ some job
      recover-cancelled opts now stamp =
          let named = get-id store id job g.placed found in
          let there = ap (λ i. get i store) named ∙ found in
          let fine : is_stuck opts now job ≡ false = ground arith in
          let after = (recover_stuck_jobs opts now stamp store).1 in
          sym (ap (λ i. get i after) named)
          ∙ (recover_stuck_jobs_lem opts now stamp store g.placed).2 job there
          ∙ ap some (if_false (is_stuck opts now job) _ _ fine)

      -- One call.
      run_call-cancelled : (c : Call V) → spares id c ≡ true → get id (run_call c store) ≡ some job
      unfolding create complete fail mark_failed
      run_call-cancelled (creates new_id no_payload now input) h =
          let apart : str_eq new_id id ≡ false = ground arith in rw (get-write_job, apart) found
      run_call-cancelled (patches other change now) h = cc
      run_call-cancelled (starts_stage other stage_id now) h = elim (str_cases other id) [
        | inl same ↦ rw same (
            ap (get id) (ap (λ r. r.1) ((cancelled_kept id store job found stop).0 stage_id now))
            ∙ found)
        | inr apart ↦ start_stage-other other stage_id now apart ∙ found
      ]
      run_call-cancelled (completes_stage other stage_id result now) h = elim (str_cases other id) [
        | inl same ↦ rw same (
            ap (λ r. get id r.1) ((cancelled_kept id store job found stop).1 stage_id result now)
            ∙ found)
        | inr apart ↦ complete_stage-other other stage_id result now apart ∙ found
      ]
      run_call-cancelled (completes other result now later) h =
          patch-other other _ later (λ j. refl) (ground arith) ∙ found
      run_call-cancelled (fails other error now) h =
          patch-other other _ now (λ j. refl) (ground arith) ∙ found
      run_call-cancelled (marks_failed other error now later) h =
          patch-other other _ later (λ j. refl) (ground arith) ∙ found
      run_call-cancelled (cancels other reason now now' later) h = elim (str_cases other id) [
        | inl same ↦ rw same (
            ap (λ r. get id r.1) ((cancelled_kept id store job found stop).2 reason now now' later)
            ∙ found)
        | inr apart ↦ cancel-other other reason now now' later apart ∙ found
      ]
      run_call-cancelled (retries other now) h = elim (str_cases other id) [
        | inl same ↦
            rw same (ap (λ r. get id r.1) ((cancelled_kept id store job found stop).3 now) ∙ found)
        | inr apart ↦ retry-other other now apart ∙ found
      ]
      run_call-cancelled (claims opts now later) h = claim-cancelled opts now later
      run_call-cancelled (heartbeats other owner lease_ms now later) h = elim (str_cases other id) [
        | inl same ↦ rw same (
            ap (λ r. get id r.1)
              ((cancelled_kept id store job found stop).4 owner lease_ms now later)
            ∙ found)
        | inr apart ↦ heartbeat_lease-other other owner lease_ms now later apart ∙ found
      ]
      run_call-cancelled (recovers opts now stamp) h = recover-cancelled opts now stamp

  -- On a good store, a cancelled job stays exactly as it is under any sequence of calls, on it and on
  -- other jobs, in which no call creates a job with its id, completes or fails it, or is a direct
  -- patch: it is not started, claimed, retried, recovered, cancelled again or given a lease.
  pub cancelled_for_good :
      (cs : List (Call V)) (id : String) (store : Store V) (job : CaspaJob V)
      → IsGood store
      → get id store ≡ some job
      → job.status ≡ cancelled
      → all (spares id) cs ≡ true
      → get id (run_calls cs store) ≡ some job
  cancelled_for_good [] id store job g found stop h = found
  cancelled_for_good (c ∷ cs) id store job g found stop h =
      let may : spares id c ≡ true = ground arith in
      cancelled_for_good cs id (run_call c store) job
        (run_call-IsGood c store (spares-MayPatch id c may) g)
        (run_call-cancelled id store g job found stop c may) stop (ground arith)
