-- ===== src/Jobs/Tests.antt =====
-- The job service at concrete stores.
use ocrowley_commons.Common.{
  List, Memᴰ, Option, String, [], arith, false, filter, if◌then◌else◌, length, none, refl, some,
  sort_by, ℕ, ◌↔◌, ◌∷◌, ◌≡◌,
}
use ocrowley_commons.Persistence.{
  list_json_files, read_file, read_json_file, rename, unlink, write_file, write_json_file,
}
use ocrowley_commons.Jobs.{
  CaspaJob, CaspaJobStatus, cancelled, completed, failed, partial, queued, running,
}
use ocrowley_commons.Jobs.Service.{Patch, Store, collect, get, list, patch, queued_stage}
use ocrowley_commons.Jobs.Lease.{
  ClaimOptions, RecoverOptions, candidates, claim_next_job_with_lease, claimed, is_candidate,
  is_claimable, is_lease_expired, is_stuck, of_kind, recover_loop, recover_stuck_jobs, recovered,
  take_job,
}
use ocrowley_commons.Jobs.Store.{IsKeyed, jobs}
use ocrowley_commons.Jobs.Cancelled.{cancelled_for_good}
use ocrowley_commons.Jobs.Lifecycle.{
  Call, claims, creates, patches, recovers, retries, run_calls, run_calls-IsGood, starts_stage,
}
use ocrowley_commons.Jobs.Claim.{Claims, claim-Claims, claim_none_iff}
use ocrowley_commons.Jobs.Heartbeat.{lease_excludes, returns_job}
use ocrowley_commons.Jobs.Recover.{as_recovered, recover_stuck_jobs_lem}
use ocrowley_commons.Jobs.Stages.{cancelled_overwritten, status_of}
use ocrowley_commons.Jobs.Race.{claim_reads, claim_writes, double_claim}
use ocrowley_commons.Jobs.Outcome.{complete, fail, mark_failed}
use ocrowley_commons.Jobs.Sound.{IsGood, IsSound}

-- A job of type "gold" with one stage; the payload is a number.
abbrev a_job : String → CaspaJobStatus → ℕ → Option String → Option ℕ → CaspaJob ℕ
a_job id status created owner until = record {
  id = id;
  user_id = none;
  project_id = none;
  kind = "gold";
  status = status;
  current_stage = none;
  stages = queued_stage ("a", "A") ∷ [];
  input = 0;
  result = none;
  partial_result = none;
  error = none;
  retry_count = 0;
  resume_from_stage = none;
  created_at = created;
  updated_at = created;
  started_at = none;
  completed_at = none;
  cancelled_at = none;
  lease_owner = owner;
  lease_until = until;
}

abbrev leased : CaspaJob ℕ
leased = a_job "j1" running 10 (some "w1") (some 900)

abbrev waiting_job : CaspaJob ℕ
waiting_job = a_job "j2" queued 30 none none

abbrev stopped : CaspaJob ℕ
stopped = a_job "j3" cancelled 40 none none

abbrev broken : CaspaJob ℕ
broken = a_job "j4" failed 50 none none

abbrev store : Store ℕ
store =
    ("j1.json", leased) ∷ ("j2.json", waiting_job) ∷ ("j3.json", stopped) ∷ ("j4.json", broken) ∷ []

store-IsKeyed : IsKeyed store
store-IsKeyed = record {
  keyed = (refl, (refl, (refl, (refl, tt))));
  distinct = (refl, (refl, (refl, (refl, tt))));
}

abbrev worker : String → ClaimOptions
worker owner = record { owner = owner; lease_ms = some 100; kind = some "gold" }

abbrev given : CaspaJob ℕ
given = record waiting_job {
  status = running;
  started_at = some 500;
  lease_owner = some "w2";
  lease_until = some 600;
  updated_at = 501;
}

abbrev given_store : Store ℕ
given_store =
    ("j1.json", leased) ∷ ("j2.json", given) ∷ ("j3.json", stopped) ∷ ("j4.json", broken) ∷ []

claim_run : claim_next_job_with_lease (worker "w2") 500 501 store ≡ (some given, given_store)
unfolding claim_next_job_with_lease candidates list collect list_json_files take_job get
    is_claimable claimed patch write_json_file rename write_file unlink read_json_file read_file
    sort_by
claim_run = refl

claim-Claims_example : Claims (worker "w2") 500 501 store given given_store
claim-Claims_example =
    claim-Claims (worker "w2") 500 501 store given_store given store-IsKeyed claim_run

claim_none_iff_example :
    (claim_next_job_with_lease (worker "w2") 500 501 store ≡ (none, store))
    ↔ ((job : CaspaJob ℕ) → Memᴰ job (jobs store) → is_candidate (some "gold") 500 job ≡ false)
claim_none_iff_example = claim_none_iff (worker "w2") 500 501 store store-IsKeyed

get-leased : get "j1" store ≡ some leased
unfolding get read_json_file read_file
get-leased = refl

get-stopped : get "j3" store ≡ some stopped
unfolding get read_json_file read_file
get-stopped = refl

get-broken : get "j4" store ≡ some broken
unfolding get read_json_file read_file
get-broken = refl

lease_excludes_example :
    (returns_job "j1" (claim_next_job_with_lease (worker "w2") 500 501 store).0 ≡ false)
    × (get "j1" (claim_next_job_with_lease (worker "w2") 500 501 store).1 ≡ some leased)
lease_excludes_example =
    lease_excludes (worker "w2") 500 501 store leased "j1" 900 store-IsKeyed get-leased refl refl
      (omega arith)

abbrev recovery : RecoverOptions
recovery = record { kind = none; max_age_ms = 0 }

recover_stuck_jobs_lem_example :
    ((recover_stuck_jobs recovery 1000 (λ id. 1001) store).0
      ≡ length (filter (is_stuck recovery 1000) (list (of_kind none) store)))
    × ((id : String)
        → get id store ≡ none
        → get id (recover_stuck_jobs recovery 1000 (λ id. 1001) store).1 ≡ none)
    × ((job : CaspaJob ℕ)
        → get job.id store ≡ some job
        → get job.id (recover_stuck_jobs recovery 1000 (λ id. 1001) store).1
          ≡ some (
              if is_stuck recovery 1000 job
              then as_recovered recovery 1000 (λ id. 1001) job
              else job))
recover_stuck_jobs_lem_example =
    recover_stuck_jobs_lem recovery 1000 (λ id. 1001) store store-IsKeyed

recover_run : (recover_stuck_jobs recovery 1000 (λ id. 1001) store).0 ≡ 1
unfolding recover_stuck_jobs recover_loop list collect list_json_files get is_lease_expired
    recovered patch write_json_file rename write_file unlink read_json_file read_file sort_by
recover_run = refl

abbrev history : List (Call ℕ)
history =
    creates "j1" 0 10 (record {
      user_id = none;
      project_id = none;
      kind = "gold";
      stages = ("a", "A") ∷ [];
      payload = none;
    })
    ∷ claims (worker "w1") 20 21
    ∷ starts_stage "j1" "a" 22
    ∷ recovers recovery 500 (λ id. 501)
    ∷ []

-- A patch of the input, which leaves every field of soundness alone.
abbrev new_input : Patch ℕ
new_input job = record job { input = 7 }

new_input-IsSound :
    (job : CaspaJob ℕ) → IsSound job → ((new_input job).id ≡ job.id) × IsSound (new_input job)
new_input-IsSound job s = (refl, ground arith)

run_calls-IsGood_example : IsGood {V = ℕ} (run_calls (patches "j1" new_input 9 ∷ history) [])
run_calls-IsGood_example =
    run_calls-IsGood (patches "j1" new_input 9 ∷ history)
      (new_input-IsSound, (tt, (tt, (tt, (tt, tt)))))

-- A job that was cancelled, and then other calls.
abbrev ended : CaspaJob ℕ
ended = record stopped { cancelled_at = some 5 }

abbrev only_stopped : Store ℕ
only_stopped = ("j3.json", ended) ∷ []

only_stopped-IsGood : IsGood only_stopped
only_stopped-IsGood = record {
  placed = record { keyed = (refl, tt); distinct = (refl, tt) };
  sound = (ground arith, tt);
}

only_stopped-get : get "j3" only_stopped ≡ some ended
unfolding get read_json_file read_file
only_stopped-get = refl

abbrev later_calls : List (Call ℕ)
later_calls = retries "j3" 900 ∷ claims (worker "w1") 901 902 ∷ starts_stage "j3" "a" 903 ∷ history

cancelled_for_good_example : get "j3" (run_calls later_calls only_stopped) ≡ some ended
cancelled_for_good_example =
    cancelled_for_good later_calls "j3" only_stopped ended only_stopped-IsGood only_stopped-get refl
      refl

cancelled_overwritten_example :
    ((result now later : ℕ)
      → status_of (get "j3" (complete "j3" result now later store).1) ≡ some completed)
    × ((error : String) (now : ℕ)
        → status_of (get "j3" (fail "j3" error now store).1) ≡ some partial)
    × ((error : String) (now later : ℕ)
        → status_of (get "j3" (mark_failed "j3" error now later store).1) ≡ some failed)
cancelled_overwritten_example =
    cancelled_overwritten "j3" store stopped store-IsKeyed get-stopped refl

double_claim_example :
    (given.lease_owner ≡ some "w2")
    × ((mine : CaspaJob ℕ) × (last : Store ℕ) × (claim_writes
            (worker "w3")
            500
            502
            (claim_reads (worker "w3") 500 store)
            given_store
          ≡ (some mine, last))
        × (mine.id ≡ given.id)
        × (mine.lease_owner ≡ some "w3")
        × (get given.id last ≡ some mine))
double_claim_example =
    double_claim (worker "w3") (worker "w2") 500 501 502 store given_store given store-IsKeyed refl
      claim_run
