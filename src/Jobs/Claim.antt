-- ===== src/Jobs/Claim.antt =====
-- Claiming the next job: which job is given out, what is written, and that a lease excludes others.
use ocrowley_commons.Common.{
  Bool-cases, IsOrder, IsOrder-refl, Memᴰ, Option-cases, String, arith, false, filter-mem, get_or,
  head?, head?-IsSortedBy, head?-mem, head?-none, if◌then◌else◌, inl, inr, mem-filter, mem-sort_by,
  none, some, sort_by-IsSortedBy, sort_by-mem, str_eq, true, ℕ, ◌+◌, ◌↔◌, ◌≡◌, ◌≤◌, ◌⊎◌,
}
use ocrowley_commons.Persistence.{write_json_file}
use ocrowley_commons.Jobs.{CaspaJob, is_running, queued, running}
use ocrowley_commons.Jobs.Service.{Store, get, job_file, patch}
use ocrowley_commons.Jobs.Lease.{
  ClaimOptions, candidates, claim_next_job_with_lease, claimed, is_candidate, is_claimable, of_kind,
  older_first, take_job,
}
use ocrowley_commons.Jobs.Store.{
  IsKeyed, get-mem, get-write_job, jobs, list-mem, mem-list, write_job-IsKeyed,
}

module _ {ℓ} {V : Type ℓ} where
  older_first-IsOrder : IsOrder {A = CaspaJob V} older_first
  older_first-IsOrder = record { total = λ x y h. ground arith; trans = λ x y z h k. ground arith }

  mem-candidates :
      (opts : ClaimOptions) (now : ℕ) (store : Store V) (job : CaspaJob V)
      → IsKeyed store
      → Memᴰ job (candidates opts now store)
      → Memᴰ job (jobs store) × (is_candidate opts.kind now job ≡ true)
  unfolding candidates
  mem-candidates opts now store job k m =
      let (listed, may) =
        mem-filter (is_candidate opts.kind now) _ job (mem-sort_by older_first _ job m) in
      ((mem-list (of_kind opts.kind) store job k listed).0, may)

  candidates-mem :
      (opts : ClaimOptions) (now : ℕ) (store : Store V) (job : CaspaJob V)
      → IsKeyed store
      → Memᴰ job (jobs store)
      → is_candidate opts.kind now job ≡ true
      → Memᴰ job (candidates opts now store)
  unfolding candidates
  candidates-mem opts now store job k m may = sort_by-mem older_first _ job (
      filter-mem (is_candidate opts.kind now) _ job
        (list-mem (of_kind opts.kind) store job k m (ground arith)) may)

  -- A queued job, or a running one whose lease, if it has one, is over.
  abbrev pub IsFree : CaspaJob V → ℕ → Type 0
  IsFree job now =
      (job.status ≡ queued)
      ⊎ ((job.status ≡ running) × ((until : ℕ) → job.lease_until ≡ some until → until ≤ now))

  claimable-IsFree : (job : CaspaJob V) (now : ℕ) → is_claimable job now ≡ true → IsFree job now
  unfolding is_claimable
  claimable-IsFree job now may = ground arith

  -- A job as a claim writes it.
  abbrev pub as_claimed : ClaimOptions → (now later : ℕ) → CaspaJob V → CaspaJob V
  as_claimed opts now later job = record job {
    status = running;
    started_at = some (get_or job.started_at now);
    lease_owner = some opts.owner;
    lease_until = some (now + get_or opts.lease_ms 60000);
    error = if is_running job.status then none else job.error;
    updated_at = later;
  }

  take_job-candidate :
      (opts : ClaimOptions) (now later : ℕ) (store : Store V) (job : CaspaJob V)
      → IsKeyed store
      → Memᴰ job (jobs store)
      → is_claimable job now ≡ true
      → take_job opts now later job store ≡ (
        some (as_claimed opts now later job),
        write_json_file store (job_file job.id) (as_claimed opts now later job),
      )
  unfolding take_job patch claimed
  take_job-candidate opts now later store job k m may =
      let found = get-mem store job k m in ground arith

  -- The claim of `job`, which was the oldest candidate.
  pub record Claims (opts : ClaimOptions) (now later : ℕ) (store : Store V) (result : CaspaJob V)
      (after : Store V) : Type ℓ where
    pub job : CaspaJob V
    pub stored : Memᴰ job (jobs store)
    pub candidate : is_candidate opts.kind now job ≡ true
    pub free : IsFree job now
    pub oldest :
        (other : CaspaJob V)
        → Memᴰ other (jobs store)
        → is_candidate opts.kind now other ≡ true
        → job.created_at ≤ other.created_at
    pub taken : result ≡ as_claimed opts now later job
    pub keyed : IsKeyed after
    pub reads :
        (id : String) → get id after ≡ (if str_eq job.id id then some result else get id store)

  -- The candidate that a claim settles on, and what it makes of the store.
  pub record Settles (opts : ClaimOptions) (now later : ℕ) (store : Store V) : Type ℓ where
    pub next : CaspaJob V
    pub chosen : head? (candidates opts now store) ≡ some next
    pub stored : Memᴰ next (jobs store)
    pub may : is_candidate opts.kind now next ≡ true
    pub outcome : claim_next_job_with_lease opts now later store ≡ (
      some (as_claimed opts now later next),
      write_json_file store (job_file next.id) (as_claimed opts now later next),
    )

  pub claim-cases :
      (opts : ClaimOptions) (now later : ℕ) (store : Store V)
      → IsKeyed store
      → ((head? (candidates opts now store) ≡ none)
          × (claim_next_job_with_lease opts now later store ≡ (none, store)))
        ⊎ Settles opts now later store
  unfolding claim_next_job_with_lease
  claim-cases opts now later store k = elim (Option-cases (head? (candidates opts now store))) [
    | inl idle ↦ inl (idle, ground arith)
    | inr (next, chosen) ↦
        let (m, may) =
          mem-candidates opts now store next k
            (head?-mem (candidates opts now store) next chosen) in
        let t = take_job-candidate opts now later store next k m (ground arith) in
        inr (record { next = next; chosen = chosen; stored = m; may = may; outcome = ground arith })
  ]

  oldest_lem :
      (opts : ClaimOptions) (now : ℕ) (store : Store V) (job other : CaspaJob V)
      → IsKeyed store
      → head? (candidates opts now store) ≡ some job
      → Memᴰ other (jobs store)
      → is_candidate opts.kind now other ≡ true
      → job.created_at ≤ other.created_at
  unfolding candidates
  oldest_lem opts now store job other k chosen m may =
      let le =
        head?-IsSortedBy older_first (IsOrder-refl older_first older_first-IsOrder)
          (candidates opts now store) job other
          (sort_by-IsSortedBy older_first older_first-IsOrder _) chosen
          (candidates-mem opts now store other k m may) in
      ground arith

  -- On a keyed store a claim returns nothing and leaves the store alone exactly when there is no
  -- candidate: no queued job of the wanted type and no running one whose lease is missing or past.
  pub claim_none_iff :
      (opts : ClaimOptions) (now later : ℕ) (store : Store V)
      → IsKeyed store
      → (claim_next_job_with_lease opts now later store ≡ (none, store))
        ↔ ((job : CaspaJob V) → Memᴰ job (jobs store) → is_candidate opts.kind now job ≡ false)
  claim_none_iff opts now later store k = elim (claim-cases opts now later store k) [
    | inl (idle, out) ↦ (
      λ h job m. elim (Bool-cases (is_candidate opts.kind now job)) [
        | inl may ↦ absurd (
            head?-none (candidates opts now store) job idle
              (candidates-mem opts now store job k m may))
        | inr may_not ↦ may_not
      ],
      λ h. out,
    )
    | inr s ↦ (λ h. absurd (cc (h, s.outcome)), λ h. absurd (cc (h s.next s.stored, s.may)))
  ]

  -- On a keyed store, what a claim returns is a candidate of the store, queued or running without a
  -- lease that is still good, none of the candidates is older, and its fields are those that a claim writes; the store after it has that job under its
  -- id and every other job as before, and is keyed again.
  pub claim-Claims :
      (opts : ClaimOptions) (now later : ℕ) (store after : Store V) (result : CaspaJob V)
      → IsKeyed store
      → claim_next_job_with_lease opts now later store ≡ (some result, after)
      → Claims opts now later store result after
  unfolding claimed
  claim-Claims opts now later store after result k h = elim (claim-cases opts now later store k) [
    | inl (idle, out) ↦ absurd (cc (h, out))
    | inr s ↦
        let same : result ≡ as_claimed opts now later s.next = cc (h, s.outcome) in
        let written : after
            ≡ write_json_file store (job_file s.next.id) (as_claimed opts now later s.next) =
          cc (h, s.outcome) in
        record {
          job = s.next;
          stored = s.stored;
          candidate = s.may;
          free = claimable-IsFree s.next now (ground arith);
          oldest = λ other m may. oldest_lem opts now store s.next other k s.chosen m may;
          taken = same;
          keyed = rw written (write_job-IsKeyed store (as_claimed opts now later s.next) k);
          reads = λ id. rw (written, same) (get-write_job store s.next.id id _);
        }
  ]
