-- ===== src/Jobs/Lease.antt =====
-- packages/jobs/src/CaspaJobService.ts: leases, the choice of the next job, and recovery.
use ocrowley_commons.Common.{
  Bool, List, Option, String, [], false, filter, find, get_or, head?, if◌then◌else◌, is_empty, leb,
  ltb, none, not, some, sort_by, str_eq, true, ℕ, ◌&&◌, ◌+◌, ◌||◌, ◌∷◌,
}
use ocrowley_commons.Jobs.{
  CaspaJob, default_lease_ms, is_queued, is_running, needs_review, partial, queued, running,
}
use ocrowley_commons.Jobs.Service.{ListOptions, Patch, Store, get, list, passes, patch}

pub record ClaimOptions : Type 0 where
  pub owner : String
  pub lease_ms : Option ℕ
  pub kind : Option String

-- `maxAgeMs > 0` is false where the option is missing.
pub record RecoverOptions : Type 0 where
  pub kind : Option String
  pub max_age_ms : ℕ

-- `list(opts.type ? { type: opts.type } : undefined)`: a missing and an empty type select all.
abbrev pub of_kind : Option String → ListOptions
of_kind kind = record { project_id = none; user_id = none; kind = kind }

-- `job.leaseOwner && job.leaseOwner !== owner`.
abbrev pub held_by_other : Option String → String → Bool
held_by_other none owner = false
held_by_other (some holder) owner = not (is_empty holder) && not (str_eq holder owner)

-- `maxAgeMs > 0 && job.startedAt ? now - Date.parse(job.startedAt) > maxAgeMs : false`.
abbrev pub is_too_old : ℕ → ℕ → Option ℕ → Bool
is_too_old max_age_ms now none = false
is_too_old max_age_ms now (some started) = ltb 0 max_age_ms && ltb (started + max_age_ms) now

module _ {ℓ} {V : Type ℓ} where
  unfoldable pub is_lease_expired : CaspaJob V → ℕ → Bool
  is_lease_expired job now =
      if not (is_running job.status)
      then false
      else elim job.lease_until [ none ↦ true | some until ↦ leb until now ]

  -- The last test of a claim, and the filter of its candidates.
  unfoldable pub is_claimable : CaspaJob V → ℕ → Bool
  unfolding is_lease_expired
  is_claimable job now = is_queued job.status || is_running job.status && is_lease_expired job now

  abbrev pub is_candidate : Option String → ℕ → CaspaJob V → Bool
  is_candidate kind now job = passes kind (some job.kind) && is_claimable job now

  -- `a.createdAt.localeCompare(b.createdAt)` is at most 0.
  abbrev pub older_first : CaspaJob V → CaspaJob V → Bool
  older_first a b = leb a.created_at b.created_at

  unfoldable pub candidates : ClaimOptions → ℕ → Store V → List (CaspaJob V)
  candidates opts now store =
      sort_by older_first (filter (is_candidate opts.kind now) (list (of_kind opts.kind) store))

  -- The fields that a claim writes; `fresh` is the job as it was read again.
  unfoldable pub claimed : ClaimOptions → ℕ → CaspaJob V → Patch V
  claimed opts now fresh job = record job {
    status = running;
    started_at = some (get_or fresh.started_at now);
    lease_owner = some opts.owner;
    lease_until = some (now + get_or opts.lease_ms default_lease_ms);
    error = if is_running fresh.status then none else fresh.error;
  }

  -- What follows the choice of a candidate: the second reading, the second test and the write.
  unfoldable pub take_job :
      ClaimOptions → (now later : ℕ) → CaspaJob V → Store V → Option (CaspaJob V) × Store V
  take_job opts now later next store = elim (get next.id store) [
    | none ↦ (none, store)
    | some fresh ↦
        if is_claimable fresh now
        then patch fresh.id (claimed opts now fresh) later store
        else (none, store)
  ]

  -- `now` is read at the start, `later` when the patch is written.
  unfoldable pub claim_next_job_with_lease :
      ClaimOptions → (now later : ℕ) → Store V → Option (CaspaJob V) × Store V
  claim_next_job_with_lease opts now later store = elim (head? (candidates opts now store)) [
    | none ↦ (none, store)
    | some next ↦ take_job opts now later next store
  ]

  unfoldable pub claim_next_job : (now later : ℕ) → Store V → Option (CaspaJob V) × Store V
  claim_next_job =
      claim_next_job_with_lease
        (record { owner = "anonymous"; lease_ms = some default_lease_ms; kind = none })

  unfoldable pub heartbeat_lease :
      String → String → ℕ → (now later : ℕ) → Store V → Option (CaspaJob V) × Store V
  heartbeat_lease id owner lease_ms now later store = elim (get id store) [
    | none ↦ (none, store)
    | some job ↦
        if not (is_running job.status)
        then (some job, store)
        else if held_by_other job.lease_owner owner
        then (none, store)
        else patch id
            (λ j. record j { lease_owner = some owner; lease_until = some (now + lease_ms) }) later
            store
  ]

  abbrev pub is_stuck : RecoverOptions → ℕ → CaspaJob V → Bool
  is_stuck opts now job =
      is_running job.status
      && passes opts.kind (some job.kind)
      && (is_lease_expired job now || is_too_old opts.max_age_ms now job.started_at)

  unfoldable pub recovered : CaspaJob V → Patch V
  recovered job j = record j {
    status = partial;
    error = some "Lease expired or worker lost — retry to resume.";
    resume_from_stage = job.current_stage;
    lease_owner = none;
    lease_until = none;
  }

  -- The loop of `recoverStuckJobs`; `stamp id` is the clock when the job is patched.
  unfoldable pub recover_loop :
      RecoverOptions → ℕ → (String → ℕ) → List (CaspaJob V) → ℕ → Store V → ℕ × Store V
  recover_loop opts now stamp [] count store = (count, store)
  recover_loop opts now stamp (job ∷ rest) count store =
      let skipped = recover_loop opts now stamp rest count store in
      let done =
        recover_loop opts now stamp rest (count + 1)
          (patch job.id (recovered job) (stamp job.id) store).1 in
      if is_stuck opts now job then done else skipped

  unfoldable pub recover_stuck_jobs : RecoverOptions → ℕ → (String → ℕ) → Store V → ℕ × Store V
  recover_stuck_jobs opts now stamp store =
      recover_loop opts now stamp (list (of_kind opts.kind) store) 0 store

  -- `['running', 'partial', 'queued', 'needs-review'].includes(j.status)`.
  abbrev pub is_open : CaspaJob V → Bool
  is_open job = elim job.status [
    | running ↦ true
    | partial ↦ true
    | queued ↦ true
    | needs_review ↦ true
    | _ ↦ false
  ]

  unfoldable pub latest_for_project : String → Store V → Option (CaspaJob V)
  latest_for_project project_id store =
      let found =
        list (record { project_id = some project_id; user_id = none; kind = none }) store in
      elim (find is_open found) [ some job ↦ some job | none ↦ head? found ]
