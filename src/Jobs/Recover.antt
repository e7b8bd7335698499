-- ===== src/Jobs/Recover.antt =====
-- `recoverStuckJobs`: which jobs it takes back, and that it leaves the others alone.
use ocrowley_commons.Common.{
  All, All-tabulate, Bool-cases, List, Memᴰ, Option, String, [], ap, arith, eq_iff, eq_refl, false,
  filter, if◌then◌else◌, inl, inr, length, none, refl, some, str_cases, str_eq, sym, true, ℕ, ◌&&◌,
  ◌+◌, ◌∙◌, ◌∷◌, ◌≡◌, ◌⊎◌,
}
use ocrowley_commons.Persistence.{write_json_file}
use ocrowley_commons.Jobs.{CaspaJob, partial}
use ocrowley_commons.Jobs.Service.{Store, get, job_file, list, patch}
use ocrowley_commons.Jobs.Lease.{
  RecoverOptions, is_stuck, of_kind, recover_loop, recover_stuck_jobs, recovered,
}
use ocrowley_commons.Jobs.Store.{IsKeyed, get-mem, get-write_job, list-mem, mem-get, mem-list}

module _ {ℓ} {V : Type ℓ} (opts : RecoverOptions) (now : ℕ) (stamp : String → ℕ) where
  -- A job as the recovery leaves it.
  abbrev pub as_recovered : CaspaJob V → CaspaJob V
  as_recovered job = record job {
    status = partial;
    error = some "Lease expired or worker lost — retry to resume.";
    resume_from_stage = job.current_stage;
    lease_owner = none;
    lease_until = none;
    updated_at = stamp job.id;
  }

  -- Each listed job is in the store as it was listed, or already taken back.
  abbrev Pending : List (CaspaJob V) → Store V → Type ℓ
  Pending found store =
      All (λ j. (get j.id store ≡ some j) ⊎ (get j.id store ≡ some (as_recovered j))) found

  patch-recovered :
      (store : Store V) (job : CaspaJob V)
      → (get job.id store ≡ some job) ⊎ (get job.id store ≡ some (as_recovered job))
      → (patch job.id (recovered job) (stamp job.id) store).1
        ≡ write_json_file store (job_file job.id) (as_recovered job)
  unfolding patch recovered
  patch-recovered store job (inl found) = ground arith
  patch-recovered store job (inr found) = ground arith

  -- What the loop makes of one file.
  abbrev outcome : List (CaspaJob V) → String → Option (CaspaJob V) → Option (CaspaJob V)
  outcome [] id old = old
  outcome (job ∷ rest) id old =
      outcome rest id
        (if is_stuck opts now job && str_eq job.id id then some (as_recovered job) else old)

  Pending-write :
      (found : List (CaspaJob V)) (store : Store V) (job : CaspaJob V)
      → ((j : CaspaJob V) → Memᴰ j found → j.id ≡ job.id → j ≡ job)
      → Pending found store
      → Pending found (write_json_file store (job_file job.id) (as_recovered job))
  Pending-write [] store job same p = tt
  Pending-write (j ∷ found) store job same p = (
    elim (str_cases job.id j.id) [
      | inl one ↦
          let equal : j ≡ job = same j (Memᴰ.head refl) (sym one) in
          inr (rw (get-write_job, equal, eq_refl))
      | inr two ↦ rw (get-write_job, two) p.0
    ],
    Pending-write found store job (λ i m. same i (Memᴰ.tail m)) p.1,
  )

  recover_loop-get :
      (found : List (CaspaJob V)) (count : ℕ) (store : Store V) (id : String)
      → Pending found store
      → ((i j : CaspaJob V) → Memᴰ i found → Memᴰ j found → i.id ≡ j.id → i ≡ j)
      → (get id (recover_loop opts now stamp found count store).1 ≡ outcome found id (get id store))
        × ((recover_loop opts now stamp found count store).0
            ≡ count + length (filter (is_stuck opts now) found))
  unfolding recover_loop
  recover_loop-get [] count store id p same = (refl, omega arith)
  recover_loop-get (job ∷ rest) count store id p same =
      let same_rest = λ (i j : CaspaJob V) (m : Memᴰ i rest) (n : Memᴰ j rest).
        same i j (Memᴰ.tail m) (Memᴰ.tail n) in
      elim (Bool-cases (is_stuck opts now job)) [
        | inl stuck ↦
            let next = write_json_file store (job_file job.id) (as_recovered job) in
            let later =
              recover_loop-get rest (count + 1) next id
                (Pending-write rest store job (λ j m. same j job (Memᴰ.tail m) (Memᴰ.head refl))
                  p.1)
                same_rest in
            rw (stuck, recover_loop, patch-recovered store job p.0)
              (
                later.0 ∙ ap (outcome rest id) (get-write_job store job.id id _),
                omega (arith, later.1),
              )
        | inr fine ↦ rw (fine, recover_loop) (recover_loop-get rest count store id p.1 same_rest)
      ]

  outcome_untouched :
      (found : List (CaspaJob V)) (id : String) (old : Option (CaspaJob V))
      → ((j : CaspaJob V) → Memᴰ j found → j.id ≡ id → is_stuck opts now j ≡ false)
      → outcome found id old ≡ old
  outcome_untouched [] id old h = refl
  outcome_untouched (job ∷ rest) id old h =
      let here = h job (Memᴰ.head refl) in
      ground
        (arith, eq_iff job.id id, here, outcome_untouched rest id old (λ j m. h j (Memᴰ.tail m)))

  outcome_stays :
      (found : List (CaspaJob V)) (job : CaspaJob V)
      → ((j : CaspaJob V) → Memᴰ j found → j.id ≡ job.id → j ≡ job)
      → outcome found job.id (some (as_recovered job)) ≡ some (as_recovered job)
  outcome_stays [] job same = refl
  outcome_stays (x ∷ rest) job same = elim (str_cases x.id job.id) [
    | inl one ↦
        rw (same x (Memᴰ.head refl) one, eq_refl)
          (elim (Bool-cases (is_stuck opts now job)) [
            | inl stuck ↦ rw stuck (outcome_stays rest job (λ j m. same j (Memᴰ.tail m)))
            | inr fine ↦ rw fine (outcome_stays rest job (λ j m. same j (Memᴰ.tail m)))
          ])
    | inr two ↦ ground (arith, outcome_stays rest job (λ j m. same j (Memᴰ.tail m)))
  ]

  outcome_recovered :
      (found : List (CaspaJob V)) (job : CaspaJob V) (old : Option (CaspaJob V))
      → Memᴰ job found
      → is_stuck opts now job ≡ true
      → ((j : CaspaJob V) → Memᴰ j found → j.id ≡ job.id → j ≡ job)
      → outcome found job.id old ≡ some (as_recovered job)
  outcome_recovered [] job old m stuck same = elim m [ ]
  outcome_recovered (x ∷ rest) job old (Memᴰ.head e) stuck same =
      rw (← e, stuck, eq_refl) (outcome_stays rest job (λ j m. same j (Memᴰ.tail m)))
  outcome_recovered (x ∷ rest) job old (Memᴰ.tail m) stuck same =
      outcome_recovered rest job _ m stuck (λ j n. same j (Memᴰ.tail n))

  listed-Pending :
      (store : Store V) (found : List (CaspaJob V))
      → ((j : CaspaJob V) → Memᴰ j found → get j.id store ≡ some j)
      → Pending found store
  listed-Pending store found h = All-tabulate _ found (λ j m. inl (h j m))

  -- On a keyed store, `recoverStuckJobs` returns the number of the jobs it lists that are stuck, that
  -- is running, of the wanted type, and with a lease that is missing or past or, where an age is
  -- given, started longer ago. Afterwards every such job is partial, with its stage to resume
  -- from, a message and no lease; every other job is as before, and no job has come or gone.
  pub recover_stuck_jobs_lem :
      (store : Store V)
      → IsKeyed store
      → ((recover_stuck_jobs opts now stamp store).0
          ≡ length (filter (is_stuck opts now) (list (of_kind opts.kind) store)))
        × ((id : String)
            → get id store ≡ none
            → get id (recover_stuck_jobs opts now stamp store).1 ≡ none)
        × ((job : CaspaJob V)
            → get job.id store ≡ some job
            → get job.id (recover_stuck_jobs opts now stamp store).1
              ≡ some (if is_stuck opts now job then as_recovered job else job))
  unfolding recover_stuck_jobs
  recover_stuck_jobs_lem store k = (
    omega (arith, (run "").1),
    λ id gone.
        (run id).0
        ∙ outcome_untouched found id (get id store)
            (λ j m e. absurd (cc (read j m, ap (λ (s : String). get s store) e, gone)))
        ∙ gone,
    λ job there. (run job.id).0 ∙ settle job there,
  )
    where
      found : List (CaspaJob V)
      found = list (of_kind opts.kind) store

      read : (j : CaspaJob V) → Memᴰ j found → get j.id store ≡ some j
      read j m = get-mem store j k (mem-list (of_kind opts.kind) store j k m).0

      same : (i j : CaspaJob V) → Memᴰ i found → Memᴰ j found → i.id ≡ j.id → i ≡ j
      same i j m n e = ground (arith, read i m, read j n, ap (λ (s : String). get s store) e)

      run :
          (id : String)
          → (get id (recover_loop opts now stamp found 0 store).1 ≡ outcome found id (get id store))
            × ((recover_loop opts now stamp found 0 store).0
                ≡ 0 + length (filter (is_stuck opts now) found))
      run id = recover_loop-get found 0 store id (listed-Pending store found read) same

      alone :
          (job : CaspaJob V)
          → get job.id store ≡ some job
          → (j : CaspaJob V) → Memᴰ j found
          → j.id ≡ job.id
          → j ≡ job
      alone job there j m e = ground (arith, read j m, ap (λ (s : String). get s store) e)

      settle :
          (job : CaspaJob V)
          → get job.id store ≡ some job
          → outcome found job.id (get job.id store)
            ≡ some (if is_stuck opts now job then as_recovered job else job)
      settle job there = elim (Bool-cases (is_stuck opts now job)) [
        | inl stuck ↦ rw stuck (
            outcome_recovered found job (get job.id store)
              (list-mem (of_kind opts.kind) store job k (mem-get store job.id job there)
                (ground arith))
              stuck (alone job there))
        | inr fine ↦ rw fine (
            outcome_untouched found job.id (get job.id store)
              (λ j m e. rw (alone job there j m e) fine)
            ∙ there)
      ]
