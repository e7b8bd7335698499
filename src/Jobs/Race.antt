-- ===== src/Jobs/Race.antt =====
-- Two workers that claim at the same time. The second reading of a claim and its write are separate
-- awaits, so a whole claim of another worker may run between them.
use ocrowley_commons.Common.{
  Option, ap, arith, eq_refl, head?, if◌then◌else◌, inl, inr, none, refl, some, true, ℕ, ◌∙◌, ◌≡◌,
}
use ocrowley_commons.Jobs.{CaspaJob}
use ocrowley_commons.Jobs.Service.{Store, get, job_file, patch}
use ocrowley_commons.Jobs.Lease.{
  ClaimOptions, candidates, claim_next_job_with_lease, claimed, is_claimable, take_job,
}
use ocrowley_commons.Jobs.Store.{IsKeyed, get-mem, get-write_job, patch_lem}
use ocrowley_commons.Persistence.{write_json_file}
use ocrowley_commons.Jobs.Claim.{as_claimed, claim-cases}

module _ {ℓ} {V : Type ℓ} where
  -- A claim up to its second test: the job that it will patch, if any.
  unfoldable pub claim_reads : ClaimOptions → ℕ → Store V → Option (CaspaJob V)
  claim_reads opts now store = elim (head? (candidates opts now store)) [
    | none ↦ none
    | some next ↦ elim (get next.id store) [
      | none ↦ none
      | some fresh ↦ if is_claimable fresh now then some fresh else none
    ]
  ]

  -- The rest of the claim, on the store as it is by then.
  unfoldable pub claim_writes :
      ClaimOptions → (now later : ℕ) → Option (CaspaJob V) → Store V → Option (CaspaJob V) × Store V
  claim_writes opts now later none store = (none, store)
  claim_writes opts now later (some fresh) store =
      patch fresh.id (claimed opts now fresh) later store

  -- With nothing in between, the two halves are the claim.
  pub claim_halves :
      (opts : ClaimOptions) (now later : ℕ) (store : Store V)
      → claim_writes opts now later (claim_reads opts now store) store
        ≡ claim_next_job_with_lease opts now later store
  unfolding claim_reads claim_writes claim_next_job_with_lease take_job
  claim_halves opts now later store = ground arith

  candidates_kind :
      (first second : ClaimOptions) (now : ℕ) (store : Store V)
      → first.kind ≡ second.kind
      → candidates first now store ≡ candidates second now store
  unfolding candidates
  candidates_kind first second now store same = rw same

  claim_reads_lem :
      (opts : ClaimOptions) (now : ℕ) (store : Store V) (next : CaspaJob V)
      → head? (candidates opts now store) ≡ some next
      → get next.id store ≡ some next
      → is_claimable next now ≡ true
      → claim_reads opts now store ≡ some next
  unfolding claim_reads
  claim_reads_lem opts now store next chosen found may = ground arith

  -- In every keyed store in which a claim succeeds: where a first worker has done the first half of a
  -- claim, a second worker makes a whole claim of the same type at the same time, and the first
  -- worker then goes on, both are given the job with the same id, each as its own, and the store
  -- names the first worker.
  pub double_claim :
      (first second : ClaimOptions) (now later later' : ℕ) (store after : Store V)
      (job : CaspaJob V)
      → IsKeyed store
      → first.kind ≡ second.kind
      → claim_next_job_with_lease second now later store ≡ (some job, after)
      → (job.lease_owner ≡ some second.owner)
        × ((mine : CaspaJob V) × (last : Store V) × (claim_writes first now later'
                (claim_reads first now store)
                after
              ≡ (some mine, last))
            × (mine.id ≡ job.id)
            × (mine.lease_owner ≡ some first.owner)
            × (get job.id last ≡ some mine))
  unfolding claim_writes claimed
  double_claim first second now later later' store after job k same h =
      elim (claim-cases second now later store k) [
        | inl (idle, out) ↦ absurd (cc (h, out))
        | inr s ↦
            let taken : job ≡ as_claimed second now later s.next = cc (h, s.outcome) in
            let stored : after
                ≡ write_json_file store (job_file s.next.id) (as_claimed second now later s.next) =
              cc (h, s.outcome) in
            let there : get s.next.id after ≡ some (as_claimed second now later s.next) =
              rw (stored, get-write_job, eq_refl) in
            let reads : claim_reads first now store ≡ some s.next =
              claim_reads_lem first now store s.next
                (ap head? (candidates_kind first second now store same) ∙ s.chosen)
                (get-mem store s.next k s.stored) (ground arith) in
            let mine : CaspaJob V =
              record (claimed first now s.next (as_claimed second now later s.next)) {
                updated_at = later';
              } in
            (
              rw taken,
              (
                mine,
                write_json_file after (job_file mine.id) mine,
                rw (reads, claim_writes)
                    (patch_lem s.next.id (claimed first now s.next) later' after
                      (as_claimed second now later s.next) there),
                rw taken,
                refl,
                rw (taken, get-write_job, eq_refl),
              ),
            )
      ]
