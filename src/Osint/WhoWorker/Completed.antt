-- ===== src/Osint/WhoWorker/Completed.antt =====
-- WHO jobs whose lookup gives a result.
use ocrowley_commons.Common.{
  Option, String, [], ap, append_assoc, false, get_or, is_blank, last?, last?-append, ok, refl,
  some, ℕ, ◌++◌, ◌+◌, ◌∙◌, ◌∷◌, ◌≡◌, ◌⊎◌,
}
use ocrowley_commons.Audit.{dossier_written, who_completed}
use ocrowley_commons.Crypto.RoundTrip.{HasKey, HasNoKey, IsLawful}
use ocrowley_commons.Jobs.{CaspaJob, CaspaJobStatus, completed, is_cancelled, running}
use ocrowley_commons.Osint.Dossiers.{Dossier, StoredDossier, WriteInput, read_dossier}
use ocrowley_commons.Osint.EntityIndex.{get_entity_index}
use ocrowley_commons.Osint.EntityIndex.History.{latest-upsert, latest_of}
use ocrowley_commons.Osint.WhoJobs.{job_completed, job_progress, publish_who_progress}
use ocrowley_commons.Osint.WhoWorker.{
  WhoResult, WhoValue, WorkerEnv, World, append_audit, audit_value, beat, begin_stage,
  completed_metadata, discover_value, dossier_value, end_stage, publish, stage, written_metadata,
}
use ocrowley_commons.Osint.WhoWorker.Process.{
  attempt_job, audit_job, audit_work, caught, discover_work, discovered, dossier_of, dossier_work,
  finish_job, index_dossier, index_input, job_actor, job_case, process_who_job, with_entity,
}
use ocrowley_commons.Osint.WhoWorker.Stage.{
  >>>-ok, HasJob, complete-HasJob, complete_stage-HasJob, job_is_cancelled-HasJob, stage-ok,
}
use ocrowley_commons.Osint.WhoWorker.Refused.{
  actions, append_audit-actions, at_who, before_discover, before_discover-HasJob, from_dossier,
  from_found, open_at, policy-passed, working-HasJob,
}
use ocrowley_commons.Osint.Dossiers.RoundTrip.{write-IsReadable}
use ocrowley_commons.Jobs.Outcome.{complete}

module _ {W R T B : Type 0} (env : WorkerEnv W T R B) (laws : IsLawful env.node)
    (parse : String → Option (Dossier R))
    (parse-to_json : (d : Dossier R) → parse (env.to_json d) ≡ some d) (job : CaspaJob (WhoValue W))
    (found : WhoResult T) (key : HasKey env.node env.env_key ⊎ HasNoKey env.env_key)
    (twelve : (n : ℕ) → env.node.byte_length (env.fresh_iv n) ≡ 12) where
  -- What a finished lookup leaves: a completed job, a dossier that reads back, an index entry that
  -- names it as the latest, and two audit entries more.
  pub record IsCompleted (before after : World W R) : Type 0 where
    pub completed_job : HasJob job.id completed after.who.store
    pub stored : StoredDossier R
    pub readable :
        read_dossier env.node env.env_key parse (job_case env job) stored.id after.dossiers
        ≡ ok (some (record stored { dossier = some (dossier_of env found (job_case env job)) }))
    pub indexed :
        (at : ℕ) × (latest_of (get_entity_index (job_case env job) stored.entity_id after.entities)
          ≡ some (stored.id, at))
    pub audited : actions after.audit ≡ actions before.audit ++ dossier_written ∷ who_completed ∷ []
    pub told : last? after.who.published ≡ some (record { job_id = job.id; event = job_completed })

  -- The same after the dossier stage.
  record IsWritten (stored : StoredDossier R) (before after : World W R) : Type 0 where
    readable :
        read_dossier env.node env.env_key parse (job_case env job) stored.id after.dossiers
        ≡ ok (some (record stored { dossier = some (dossier_of env found (job_case env job)) }))
    indexed :
        (at : ℕ) × (latest_of (get_entity_index (job_case env job) stored.entity_id after.entities)
          ≡ some (stored.id, at))
    audited : actions after.audit ≡ actions before.audit ++ dossier_written ∷ []
    same_who : after.who ≡ before.who

  index_dossier-latest :
      (stored : StoredDossier R) (w : World W R)
      → latest_of (
          get_entity_index
            (job_case env job)
            stored.entity_id
            (index_dossier env job found stored w).entities)
        ≡ some (stored.id, env.clock w.reads)
  unfolding index_dossier append_audit
  index_dossier-latest stored w =
      latest-upsert (index_input env job found stored) (env.clock w.reads) w.entities

  index_dossier-actions :
      (stored : StoredDossier R) (w : World W R)
      → actions (index_dossier env job found stored w).audit
        ≡ actions w.audit ++ dossier_written ∷ []
  unfolding index_dossier
  index_dossier-actions stored w =
      append_audit-actions env (job_actor env job) dossier_written "who.dossier" stored.id
        (written_metadata (job_case env job) stored.entity_id job.id)
        (with_entity env job found stored w)

  index_dossier-kept :
      (stored : StoredDossier R) (w : World W R)
      → ((index_dossier env job found stored w).who ≡ w.who)
        × ((index_dossier env job found stored w).dossiers ≡ w.dossiers)
  unfolding index_dossier append_audit
  index_dossier-kept stored w = (refl, refl)

  -- The work of the dossier stage.
  dossier_work-IsWritten :
      (w : World W R)
      → (stored : StoredDossier R) × (next : World W R) × (dossier_work env job found w
          ≡ (ok (stored.id, dossier_value stored.id stored.entity_id), next))
        × IsWritten stored w next
  unfolding dossier_work
  dossier_work-IsWritten w =
      let input : WriteInput R = record {
        case_ref = job_case env job;
        dossier = dossier_of env found (job_case env job);
        job_id = some job.id;
        archive_id = found.archive_id;
      } in
      let (stored, dossiers, wrote, written) =
        write-IsReadable env.node laws env.env_key env.to_json parse parse-to_json env.lower
          env.sha256 (env.fresh_id w.reads) (env.clock w.reads) (env.fresh_iv w.reads)
          (twelve w.reads) input w.dossiers key in
      let mid : World W R = record w { dossiers = dossiers; reads = w.reads + 1 } in
      (
        stored,
        index_dossier env job found stored mid,
        rw (dossier_work, wrote) refl,
        record {
          readable = rw ((index_dossier-kept stored mid).1) written.readable;
          indexed = (env.clock mid.reads, index_dossier-latest stored mid);
          audited = index_dossier-actions stored mid;
          same_who = (index_dossier-kept stored mid).0;
        },
      )

  module _ (later : CaspaJobStatus) (u : World W R) (hu : HasJob job.id later u.who.store)
      (open_job : is_cancelled later ≡ false) where
    -- The audit stage and the end of the job.
    from_dossier-done :
        (dossier_id : String)
        → (done : CaspaJob (WhoValue W)) × (final : World W R) × (from_dossier env job later u hu
              open_job found dossier_id u
            ≡ (ok done, final))
          × HasJob job.id completed final.who.store
          × (actions final.audit ≡ actions u.audit ++ who_completed ∷ [])
          × (last? final.who.published ≡ some (record { job_id = job.id; event = job_completed }))
          × (final.dossiers ≡ u.dossiers)
          × (final.entities ≡ u.entities)
    unfolding audit_work append_audit finish_job end_stage begin_stage beat publish
        publish_who_progress
    from_dossier-done dossier_id =
        let k = beat env job.id (begin_stage env job.id "audit" u) in
        let (entry, y) =
          audit_job env job who_completed
            (completed_metadata (job_case env job) dossier_id found.archive_id found.stats.confirmed
              found.stats.checked)
            k in
        let hk = working-HasJob env job later u hu open_job "audit" in
        let x4 = end_stage env job.id "audit" (audit_value entry.unsigned.sequence) y in
        let h4 : HasJob job.id running x4.who.store =
          complete_stage-HasJob job.id running k.who.store hk "audit" _ _ refl in
        let end = finish_job env job found dossier_id entry.unsigned.sequence x4 in
        (
          get_or (complete job.id _ _ _ x4.who.store).0 job,
          end.1,
          >>>-ok (stage env job.id "audit" (audit_work env job found dossier_id))
              (λ sequence. finish_job env job found dossier_id sequence) u x4
              entry.unsigned.sequence
              (stage-ok env job.id "audit" (audit_work env job found dossier_id) u
                entry.unsigned.sequence (audit_value entry.unsigned.sequence) y
                (open_at env job later u hu open_job) refl
                (job_is_cancelled-HasJob job.id running y hk)),
          complete-HasJob job.id running x4.who.store h4 _ _ _,
          append_audit-actions env (job_actor env job) who_completed "who.job" job.id _ k,
          last?-append x4.who.published _,
          refl,
          refl,
        )

  -- From the end of the discover stage on.
  from_found-IsCompleted :
      (later : CaspaJobStatus) (u : World W R) (hu : HasJob job.id later u.who.store)
      (open_job : is_cancelled later ≡ false)
      → (done : CaspaJob (WhoValue W)) × (final : World W R) × (from_found env job later u hu
            open_job found u
          ≡ (ok done, final))
        × IsCompleted u final
  unfolding end_stage begin_stage beat publish publish_who_progress
  from_found-IsCompleted later u hu open_job =
      let u2 = publish job.id job_progress u in
      let k = beat env job.id (begin_stage env job.id "dossier" u2) in
      let (stored, x, wrote, wr) = dossier_work-IsWritten k in
      let hk = working-HasJob env job later u2 hu open_job "dossier" in
      let hx : HasJob job.id running x.who.store = rw wr.same_who hk in
      let u3 = end_stage env job.id "dossier" (dossier_value stored.id stored.entity_id) x in
      let h3 : HasJob job.id running u3.who.store =
        complete_stage-HasJob job.id running x.who.store hx "dossier" _ _ refl in
      let (done, final, ran, ended, audited, told, dossiers, entities) =
        from_dossier-done running u3 h3 refl stored.id in
      (
        done,
        final,
        >>>-ok (stage env job.id "dossier" (dossier_work env job found))
              (from_dossier env job later u hu open_job found) u2 u3 stored.id
              (stage-ok env job.id "dossier" (dossier_work env job found) u2 stored.id
                (dossier_value stored.id stored.entity_id) x (open_at env job later u2 hu open_job)
                wrote (job_is_cancelled-HasJob job.id running x hx))
            ∙ ran,
        record {
          completed_job = ended;
          stored = stored;
          readable = rw dossiers wr.readable;
          indexed = (wr.indexed.0, rw entities wr.indexed.1);
          audited =
              audited
              ∙ ap (λ a. a ++ who_completed ∷ []) wr.audited
              ∙ append_assoc (actions k.audit) (dossier_written ∷ []) (who_completed ∷ []);
          told = told;
        },
      )

  -- With lawful libraries, initialisation vectors of 12 bytes, and either a master key of 32 bytes in hex
  -- or none of 64 units, a job that is not cancelled and has a case reference, whose lookup gives a
  -- result and leaves the job there and not cancelled, is completed: from the end of the lookup on, the
  -- chain has the entries for the dossier and the completion, the dossier of that result reads back
  -- under the case, the index names it as its entity's latest, and the completion is published.
  pub completed_lem :
      (status later : CaspaJobStatus) (w v : World W R) (h : HasJob job.id status w.who.store)
      (go : is_cancelled status ≡ false)
      → is_blank (job_case env job) ≡ false
      → env.who job.input (job_case env job) (at_who env job status w h go) ≡ (ok found, v)
      → HasJob job.id later v.who.store
      → is_cancelled later ≡ false
      → IsCompleted v (process_who_job env job w).1
  unfolding process_who_job discover_work end_stage publish publish_who_progress
  completed_lem status later w v h go given looked hv still =
      let before = before_discover env job status w h go in
      let a0 = publish job.id job_progress v in
      let partial_result = discover_value found.name found.stats found.tools_used in
      let u = end_stage env job.id "discover" partial_result a0 in
      let hu : HasJob job.id later u.who.store =
        complete_stage-HasJob job.id later v.who.store hv "discover" _ _ still in
      let (done, final, ran, c) = from_found-IsCompleted later u hu still in
      let all : attempt_job env job w ≡ (ok done, final) =
        policy-passed env job status w h go given
        ∙ >>>-ok (stage env job.id "discover" (discover_work env job))
            (from_found env job status w h go) before u found
            (stage-ok env job.id "discover" (discover_work env job) before found partial_result a0
              (open_at env job running before (before_discover-HasJob env job status w h go) refl)
              (ap (discovered env job) looked) (job_is_cancelled-HasJob job.id later a0 hv ∙ still))
        ∙ ran in
      rw (ap (caught env job) all) (record {
        completed_job = c.completed_job;
        stored = c.stored;
        readable = c.readable;
        indexed = c.indexed;
        audited = c.audited;
        told = c.told;
      })
