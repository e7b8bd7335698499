-- ===== src/Jobs/Heartbeat.antt =====
-- What a lease is worth: it keeps other claims off, and only its owner may extend it.
use ocrowley_commons.Common.{
  Bool, Option, String, ap, arith, false, if◌then◌else◌, inl, inr, none, refl, some, str_eq, str_ne,
  true, ℕ, ◌+◌, ◌<◌, ◌≡◌,
}
use ocrowley_commons.Jobs.{CaspaJob, running}
use ocrowley_commons.Jobs.Service.{Store, get, job_file, patch}
use ocrowley_commons.Jobs.Lease.{
  ClaimOptions, claim_next_job_with_lease, heartbeat_lease, held_by_other, is_candidate,
  is_claimable,
}
use ocrowley_commons.Jobs.Store.{IsKeyed, get-id, get-mem, get-write_job}
use ocrowley_commons.Jobs.Claim.{claim-cases}
use ocrowley_commons.Persistence.{write_json_file}

module _ {ℓ} {V : Type ℓ} where
  not_claimable :
      (job : CaspaJob V) (until now : ℕ)
      → job.status ≡ running
      → job.lease_until ≡ some until
      → now < until
      → is_claimable job now ≡ false
  unfolding is_claimable
  not_claimable job until now live lease early = ground arith

  shut_candidate :
      (kind : Option String) (now : ℕ) (j : CaspaJob V)
      → is_claimable j now ≡ false
      → is_candidate kind now j ≡ false
  shut_candidate kind now j h = ground arith

  -- Whether a call returned the job with the id.
  abbrev pub returns_job : String → Option (CaspaJob V) → Bool
  returns_job id none = false
  returns_job id (some job) = str_eq job.id id

  -- A claim leaves a stored job alone that is no candidate, whether or not it finds another one.
  pub not_claimed :
      (opts : ClaimOptions) (now later : ℕ) (store : Store V) (id : String) (job : CaspaJob V)
      → IsKeyed store
      → get id store ≡ some job
      → is_candidate opts.kind now job ≡ false
      → (returns_job id (claim_next_job_with_lease opts now later store).0 ≡ false)
        × (get id (claim_next_job_with_lease opts now later store).1 ≡ some job)
  not_claimed opts now later store id job k found shut = elim (claim-cases opts now later store k) [
    | inl (idle, out) ↦ rw out (refl, found)
    | inr s ↦
        let own = get-mem store s.next k s.stored in
        let apart : str_eq s.next.id id ≡ false = str_ne s.next.id id (λ e.
          let same : s.next ≡ job = ground (arith, ap (λ (i : String). get i store) e) in
          cc (ap (λ j. is_candidate opts.kind now j) same, s.may, shut)) in
        rw s.outcome (apart, rw (get-write_job, apart) found)
  ]

  -- In a keyed store, while a running job's lease has not run out, no claim, of whatever owner and
  -- type, and whether or not it gives out another job, returns that job or changes it.
  pub lease_excludes :
      (opts : ClaimOptions) (now later : ℕ) (store : Store V) (job : CaspaJob V) (id : String)
      (until : ℕ)
      → IsKeyed store
      → get id store ≡ some job
      → job.status ≡ running
      → job.lease_until ≡ some until
      → now < until
      → (returns_job id (claim_next_job_with_lease opts now later store).0 ≡ false)
        × (get id (claim_next_job_with_lease opts now later store).1 ≡ some job)
  lease_excludes opts now later store job id until k found live lease early =
      not_claimed opts now later store id job k found
        (shut_candidate opts.kind now job (not_claimable job until now live lease early))

  -- A job with a new lease.
  abbrev pub renewed : String → (until later : ℕ) → CaspaJob V → CaspaJob V
  renewed owner until later job = record job {
    lease_owner = some owner;
    lease_until = some until;
    updated_at = later;
  }

  -- In a keyed store, for a running job: another owner's heartbeat returns nothing and changes
  -- nothing, and any other heartbeat, with the owner's name or where no owner is recorded, moves
  -- the end of the lease to its own time plus the given length, whether or not the lease had run
  -- out, and changes no other job.
  pub heartbeat_lease_lem :
      (id owner : String) (lease_ms now later : ℕ) (store : Store V) (job : CaspaJob V)
      → IsKeyed store
      → get id store ≡ some job
      → job.status ≡ running
      → (held_by_other job.lease_owner owner ≡ true
          → heartbeat_lease id owner lease_ms now later store ≡ (none, store))
        × (held_by_other job.lease_owner owner ≡ false
            → (after : Store V) × (heartbeat_lease id owner lease_ms now later store
                ≡ (some (renewed owner (now + lease_ms) later job), after))
              × ((j : String)
                  → get j after ≡ (
                      if str_eq id j
                      then some (renewed owner (now + lease_ms) later job)
                      else get j store)))
  unfolding heartbeat_lease patch
  heartbeat_lease_lem id owner lease_ms now later store job k found live = (
    λ other. ground arith,
    λ own. (
      write_json_file store (job_file job.id) (renewed owner (now + lease_ms) later job),
      ground arith,
      λ j. rw (get-write_job, get-id store id job k found),
    ),
  )
