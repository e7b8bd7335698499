-- ===== src/Osint/Dossiers/RoundTrip.antt =====
-- A dossier that was written is read again, and nothing else changes.
use ocrowley_commons.Common.{
  Option, String, ap, arith, eq_refl, err, false, first_chars, if_false, if_true, inl, inr,
  is_empty, none, not, ok, refl, some, str_eq, true, utf16_length, ℕ, ◌&&◌, ◌+s◌, ◌∙◌, ◌≡◌, ◌≤◌,
  ◌⊎◌,
}
use ocrowley_commons.Crypto.{Node, decrypt, invalid_key_length, is_encrypted}
use ocrowley_commons.Crypto.RoundTrip.{
  HasBadKey, HasKey, HasNoKey, IsLawful, encrypt_bad_key, encrypt_usable, key_cases,
}
use ocrowley_commons.Osint.Dossiers.{
  Dossier, StoredDossier, WriteInput, blank_record, dossier_file, encryption_enabled, entity_id_of,
  open_ciphertext, open_record, read_dossier, with_body, write_dossier,
}
use ocrowley_commons.Osint.Cases.{Cases, read-write_case_json, sanitize_case_path, write_case_file}

module _ {B R : Type 0} (node : Node B) (laws : IsLawful node) (env_key : Option String)
    (to_json : Dossier R → String) (parse : String → Option (Dossier R))
    (parse-to_json : (d : Dossier R) → parse (to_json d) ≡ some d) where
  -- Where there is a key of 32 bytes, the dossier is stored encrypted and in no other form; where there
  -- is none, or one of less than 64 units, it is stored as it is.
  abbrev pub IsSealed : Dossier R → StoredDossier R → Type 0
  IsSealed dossier stored =
      HasKey node env_key
      × (stored.encrypted ≡ true)
      × (stored.dossier ≡ none)
      × ((text : String) × (stored.ciphertext ≡ some text)
          × (is_encrypted text ≡ true)
          × (decrypt node env_key text ≡ ok (to_json dossier)))

  abbrev pub IsPlain : Dossier R → StoredDossier R → Type 0
  IsPlain dossier stored =
      HasNoKey env_key
      × (stored.encrypted ≡ false)
      × (stored.dossier ≡ some dossier)
      × (stored.ciphertext ≡ none)

  enabled_long :
      (raw : String)
      → env_key ≡ some raw
      → 64 ≤ utf16_length raw
      → encryption_enabled env_key ≡ true
  unfolding encryption_enabled
  enabled_long raw found long = rw (encryption_enabled, found) (ground arith)

  not_enabled : HasNoKey env_key → encryption_enabled env_key ≡ false
  unfolding encryption_enabled utf16_length
  not_enabled (inl gone) = rw (encryption_enabled, gone) refl
  not_enabled (inr (raw, found, few)) = rw (encryption_enabled, found) (ground arith)

  open-sealed :
      (base : StoredDossier R) (text json : String) (dossier : Dossier R)
      → base.encrypted ≡ true
      → is_empty text ≡ false
      → encryption_enabled env_key ≡ true
      → decrypt node env_key text ≡ ok json
      → parse json ≡ some dossier
      → open_record node env_key parse (record base { ciphertext = some text })
        ≡ ok (some (record base { dossier = some dossier; ciphertext = some text }))
  unfolding open_record open_ciphertext
  open-sealed base text json dossier flag full on plain read =
      if_true (base.encrypted && not (is_empty text)) _ _ (ground (arith, flag, full))
      ∙ if_true (encryption_enabled env_key) _ _ on
      ∙ rw (plain, read) refl

  -- The body is put into the record, and opening the record gives the dossier.
  with_body-open :
      (iv : B) (dossier : Dossier R) (input : WriteInput R) (id entity_id : String) (now : ℕ)
      → node.byte_length iv ≡ 12
      → HasKey node env_key ⊎ HasNoKey env_key
      → (stored : StoredDossier R) × (with_body node env_key to_json iv dossier
            (blank_record input id entity_id now (encryption_enabled env_key))
          ≡ ok stored)
        × (stored.id ≡ id)
        × (IsSealed dossier stored ⊎ IsPlain dossier stored)
        × (open_record node env_key parse stored
            ≡ ok (some (record stored { dossier = some dossier })))
  unfolding with_body open_record
  with_body-open iv dossier input id entity_id now twelve (inl (raw, found, long, size)) =
      let blank = blank_record input id entity_id now (encryption_enabled env_key) in
      let on = enabled_long raw found long in
      let key : HasKey node env_key = (raw, found, long, size) in
      let (text, sealed, plain, full, looks) =
        encrypt_usable node laws env_key iv (to_json dossier) twelve key in
      (
        record blank { ciphertext = some text },
        if_true (encryption_enabled env_key) _ _ on ∙ rw sealed refl,
        refl,
        inl (key, on, refl, (text, refl, looks, plain)),
        open-sealed blank text (to_json dossier) dossier on full on plain (parse-to_json dossier),
      )
  with_body-open iv dossier input id entity_id now twelve (inr no_key) =
      let blank = blank_record input id entity_id now (encryption_enabled env_key) in
      let off = not_enabled no_key in
      (
        record blank { dossier = some dossier },
        if_false (encryption_enabled env_key) _ _ off,
        refl,
        inr (no_key, off, refl, refl),
        refl,
      )

  -- What the round trip says of a write that returned.
  pub record IsReadable (input : WriteInput R) (tree : Cases (StoredDossier R))
      (stored : StoredDossier R) (after : Cases (StoredDossier R)) : Type 0 where
    pub body : IsSealed input.dossier stored ⊎ IsPlain input.dossier stored
    pub readable :
        read_dossier node env_key parse input.case_ref stored.id after
        ≡ ok (some (record stored { dossier = some input.dossier }))
    pub others :
        (case_ref id : String)
        → (str_eq (sanitize_case_path input.case_ref) (sanitize_case_path case_ref)
            && str_eq stored.id id)
          ≡ false
        → read_dossier node env_key parse case_ref id after
          ≡ read_dossier node env_key parse case_ref id tree

  module _ (lower sha256 : String → String) (new_id : String) (now : ℕ) (iv : B)
      (twelve : node.byte_length iv ≡ 12) (input : WriteInput R)
      (tree : Cases (StoredDossier R)) where
    pub write-IsReadable :
        HasKey node env_key ⊎ HasNoKey env_key
        → (stored : StoredDossier R) × (after : Cases (StoredDossier R)) × (write_dossier node
              env_key lower sha256 to_json new_id now iv input tree
            ≡ ok (stored, after))
          × IsReadable input tree stored after
    unfolding write_dossier read_dossier
    write-IsReadable key =
        let entity_id = entity_id_of lower sha256 input in
        let id = entity_id +s "-" +s first_chars 8 new_id in
        let (stored, wrote, same_id, body, opens) =
          with_body-open iv input.dossier input id entity_id now twelve key in
        let dir = sanitize_case_path input.case_ref in
        let after = write_case_file tree dir (dossier_file id) stored in
        (
          stored,
          after,
          rw (write_dossier, wrote) refl,
          record {
            body = body;
            readable =
                ap (λ i. read_dossier node env_key parse input.case_ref i after) same_id
                ∙ rw
                    (
                      read_dossier,
                      read-write_case_json tree dir dir id id stored,
                      eq_refl dir,
                      eq_refl id,
                    )
                    opens;
            others = λ case_ref other apart.
                rw
                  (
                    read_dossier,
                    read-write_case_json tree dir (sanitize_case_path case_ref) id other stored,
                    (rw same_id at apart),
                  )
                  refl;
          },
        )

    write_refused :
        HasBadKey node env_key
        → write_dossier node env_key lower sha256 to_json new_id now iv input tree
          ≡ err invalid_key_length
    unfolding write_dossier with_body
    write_refused (raw, found, long, size) =
        let on = enabled_long raw found long in
        let refused =
          encrypt_bad_key node laws env_key iv (to_json input.dossier) (raw, found, long, size) in
        rw (write_dossier, with_body, on, refused) refl

    -- Under an initialisation vector of 12 bytes, either the key has 64 units or more and is not 32 bytes
    -- in hex, and the write throws that its length is wrong; or the write returns a record, which holds
    -- the dossier encrypted and in no other form where there is a key of 32 bytes, and as it is where
    -- there is no key of 64 units. In the second case, what is then read under the case and the id is
    -- that record with the dossier, and every other id, and every other case directory, reads as before.
    pub read-write_dossier :
        (HasBadKey node env_key
          × (write_dossier node env_key lower sha256 to_json new_id now iv input tree
              ≡ err invalid_key_length))
        ⊎ ((stored : StoredDossier R) × (after : Cases (StoredDossier R)) × (write_dossier node
                env_key lower sha256 to_json new_id now iv input tree
              ≡ ok (stored, after))
            × IsReadable input tree stored after)
    read-write_dossier = elim (key_cases node laws env_key) [
      | inl key ↦ inr (write-IsReadable (inl key))
      | inr (inl gone) ↦ inr (write-IsReadable (inr gone))
      | inr (inr bad) ↦ inl (bad, write_refused bad)
    ]
