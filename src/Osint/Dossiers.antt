-- ===== src/Osint/Dossiers.antt =====
-- packages/osint/src/dossier/dossierStore.ts: dossiers of a case on disk, encrypted where there is a
-- master key. What the code reads of a dossier is its entity; the rest is of any type `R`. `to_json`
-- and `parse` are JSON.stringify and JSON.parse on dossiers, `none` for a parse that throws.
pub mod RoundTrip
pub mod Listing
pub mod Samples
mod Tests
use ocrowley_commons.Common.{
  Bool, List, Option, Result, String, [], err, first_chars, get_or, if◌then◌else◌, is_empty, leb,
  none, not, ok, some, sort_by, str_eq, take, true, utf16_length, ℕ, ◌&&◌, ◌++◌, ◌+s◌, ◌==◌, ◌>>=◌,
  ◌||◌, ◌∷◌,
}
use ocrowley_commons.Persistence.{list_json_files}
use ocrowley_commons.Crypto.{CryptoError, Node, decrypt, encrypt}
use ocrowley_commons.Osint.Cases.{
  Cases, case_dir, dossier_entity_id, list_case_dirs, read_case_file, sanitize_case_path, text_or,
  write_case_file,
}

pub record Dossier (R : Type 0) : Type 0 where
  pub entity_id : Option String
  pub entity_value : String
  pub rest : R

pub record StoredDossier (R : Type 0) : Type 0 where
  pub id : String
  pub case_ref : String
  pub entity_id : String
  pub saved_at : ℕ
  pub job_id : Option String
  pub archive_id : Option String
  pub encrypted : Bool
  pub dossier : Option (Dossier R)
  pub ciphertext : Option String

pub record WriteInput (R : Type 0) : Type 0 where
  pub case_ref : String
  pub dossier : Dossier R
  pub job_id : Option String
  pub archive_id : Option String

-- What the operations throw: the error with status code 503, one of the crypto package, and one of
-- JSON.parse.
pub data DossierError : Type 0 where
  key_required : DossierError
  crypto_error : CryptoError → DossierError
  json_error : DossierError

abbrev pub dossier_file : String → String
dossier_file id = id +s ".json"

unfoldable pub encryption_enabled : Option String → Bool
unfolding utf16_length
encryption_enabled env_key = leb 64 (utf16_length (get_or env_key ""))

abbrev pub crypto_result : {A : Type 0} → Result CryptoError A → Result DossierError A
crypto_result (ok a) = ok a
crypto_result (err e) = err (crypto_error e)

-- `a || b` where `a` may be missing.
abbrev pub id_or : Option String → String → String
id_or none b = b
id_or (some a) b = text_or a b

module _ {R : Type 0} where
  unfoldable pub entity_id_of : (lower sha256 : String → String) → WriteInput R → String
  unfolding dossier_entity_id
  entity_id_of lower sha256 input = id_or input.dossier.entity_id (
      dossier_entity_id lower sha256 input.case_ref input.dossier.entity_value
        input.dossier.entity_value)

  -- The record before its body.
  abbrev pub blank_record : WriteInput R → (id entity_id : String) → ℕ → Bool → StoredDossier R
  blank_record input id entity_id now use_crypto = record {
    id = id;
    case_ref = input.case_ref;
    entity_id = entity_id;
    saved_at = now;
    job_id = input.job_id;
    archive_id = input.archive_id;
    encrypted = use_crypto;
    dossier = none;
    ciphertext = none;
  }

  module _ {B : Type 0} (node : Node B) (env_key : Option String) where
    -- The body: the ciphertext of the dossier, or the dossier.
    unfoldable pub with_body :
        (to_json : Dossier R → String) (iv : B)
        → Dossier R
        → StoredDossier R
        → Result CryptoError (StoredDossier R)
    unfolding encrypt
    with_body to_json iv dossier blank =
        let sealed = encrypt node env_key iv (to_json dossier) >>= λ text.
        ok (record blank { ciphertext = some text }) in
        if blank.encrypted then sealed else ok (record blank { dossier = some dossier })

    unfoldable pub write_dossier :
        (lower sha256 : String → String) (to_json : Dossier R → String) (new_id : String) (now : ℕ)
        (iv : B)
        → WriteInput R
        → Cases (StoredDossier R)
        → Result CryptoError (StoredDossier R × Cases (StoredDossier R))
    unfolding entity_id_of encryption_enabled with_body first_chars sanitize_case_path
        write_case_file
    write_dossier lower sha256 to_json new_id now iv input tree =
        let entity_id = entity_id_of lower sha256 input in
        let id = entity_id +s "-" +s first_chars 8 new_id in
        with_body to_json iv input.dossier
          (blank_record input id entity_id now (encryption_enabled env_key))
        >>= λ stored. ok (
          stored,
          write_case_file tree (sanitize_case_path input.case_ref) (dossier_file id) stored,
        )

    abbrev pub parsed : Option (Dossier R) → Result DossierError (Dossier R)
    parsed none = err json_error
    parsed (some dossier) = ok dossier

    unfoldable pub open_ciphertext :
        (parse : String → Option (Dossier R))
        → StoredDossier R
        → String
        → Result DossierError (Option (StoredDossier R))
    unfolding encryption_enabled decrypt
    open_ciphertext parse raw text =
        let opened = crypto_result (decrypt node env_key text) >>= λ json.
        parsed (parse json) >>= λ dossier. ok (some (record raw { dossier = some dossier })) in
        if encryption_enabled env_key then opened else err key_required

    abbrev pub open_plain : StoredDossier R → Option (StoredDossier R)
    open_plain raw = elim raw.dossier [
      | none ↦ none
      | some dossier ↦ some (record raw { dossier = some dossier })
    ]

    -- What is read of a record: the record with its dossier.
    unfoldable pub open_record :
        (parse : String → Option (Dossier R))
        → StoredDossier R
        → Result DossierError (Option (StoredDossier R))
    unfolding open_ciphertext
    open_record parse raw = elim raw.ciphertext [
      | none ↦ ok (open_plain raw)
      | some text ↦
          if raw.encrypted && not (is_empty text)
          then open_ciphertext parse raw text
          else ok (open_plain raw)
    ]

    unfoldable pub read_dossier :
        (parse : String → Option (Dossier R)) (case_ref id : String)
        → Cases (StoredDossier R)
        → Result DossierError (Option (StoredDossier R))
    unfolding open_record read_case_file sanitize_case_path
    read_dossier parse case_ref id tree =
        elim (read_case_file tree (sanitize_case_path case_ref) (dossier_file id)) [
          | none ↦ ok none
          | some raw ↦ open_record parse raw
        ]

pub record DossierSummary : Type 0 where
  pub id : String
  pub case_ref : String
  pub entity_id : String
  pub saved_at : ℕ
  pub job_id : Option String
  pub archive_id : Option String
  pub encrypted : Bool

abbrev pub newer_summary : DossierSummary → DossierSummary → Bool
newer_summary a b = leb b.saved_at a.saved_at

module _ {R : Type 0} where
  abbrev pub summary : StoredDossier R → DossierSummary
  summary entry = record {
    id = entry.id;
    case_ref = entry.case_ref;
    entity_id = entry.entity_id;
    saved_at = entry.saved_at;
    job_id = entry.job_id;
    archive_id = entry.archive_id;
    encrypted = entry.encrypted;
  }

  -- `caseRef && entry.caseRef !== caseRef` is false.
  abbrev pub is_listed : Option String → StoredDossier R → Bool
  is_listed none entry = true
  is_listed (some case_ref) entry = is_empty case_ref || str_eq entry.case_ref case_ref

  -- The two loops of `listDossiers`.
  unfoldable pub summaries_of :
      Option String → (dir : String) → List String → Cases (StoredDossier R) → List DossierSummary
  unfolding read_case_file
  summaries_of case_ref dir [] tree = []
  summaries_of case_ref dir (file ∷ files) tree =
      let rest = summaries_of case_ref dir files tree in
      elim (read_case_file tree dir file) [
        | none ↦ rest
        | some entry ↦ if is_listed case_ref entry then summary entry ∷ rest else rest
      ]

  unfoldable pub all_summaries :
      Option String → List String → Cases (StoredDossier R) → List DossierSummary
  unfolding summaries_of
  all_summaries case_ref [] tree = []
  all_summaries case_ref (dir ∷ dirs) tree =
      summaries_of case_ref dir (list_json_files (case_dir tree dir)) tree
      ++ all_summaries case_ref dirs tree

  abbrev pub case_dirs : Option String → Cases (StoredDossier R) → List String
  case_dirs none tree = list_case_dirs tree
  case_dirs (some case_ref) tree =
      if is_empty case_ref then list_case_dirs tree else sanitize_case_path case_ref ∷ []

  unfoldable pub list_dossiers :
      Option String → Option ℕ → Cases (StoredDossier R) → List DossierSummary
  unfolding all_summaries
  list_dossiers case_ref limit tree =
      let size = get_or limit 40 in
      take (if size == 0 then 1 else size)
        (sort_by newer_summary (all_summaries case_ref (case_dirs case_ref tree) tree))
