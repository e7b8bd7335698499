-- ===== src/Crypto/RoundTrip.antt =====
-- What comes back from what was encrypted, key by key.

use text.Mathlib.TextLemmas.{nil-append, cons-append}
use ocrowley_commons.Common.{
  Bool-cases, List, Option, Option-cases, Result, String, [], ap, arith, err, false, first_chars,
  inl, inr, is_empty, leb, le→leb, ltb, none, ok, refl, some, true, utf16_length, ℕ, ◌+s◌, ◌<◌,
  ◌==◌, ◌∙◌, ◌∷◌, ◌≡◌, ◌≢◌, ◌≤◌, ◌⊎◌,
}
use ocrowley_commons.Crypto.{
  CryptoError, Node, authentic, cipher_key, decrypt, encrypt, framed, get_master_key,
  invalid_format, invalid_key_length, is_encrypted, missing_key, open_parts, separator, split_parts,
}
use ocrowley_commons.Crypto.Split.{has_separator, split_parts-three}

-- What the code relies on: a key of AES-256 has 32 bytes, GCM opens what it sealed under such a key and
-- a vector of 12 bytes, base64 and its alphabet, 16 digits for 12 bytes, and the comparison of equal
-- buffers.
pub record IsLawful {B : Type 0} (node : Node B) : Type 0 where
  pub takes_key-length : (key : B) → node.takes_key key ≡ (node.byte_length key == 32)
  pub unseal-seal :
      (key iv : B) (text : String)
      → node.byte_length key ≡ 32
      → node.byte_length iv ≡ 12
      → node.unseal key iv (node.seal key iv text).1 (node.seal key iv text).0 ≡ some text
  pub from-to_base64 : (b : B) → node.from_base64 (node.to_base64 b) ≡ b
  pub alphabet : (b : B) → has_separator (node.to_base64 b) ≡ false
  pub iv_digits : (b : B) → node.byte_length b ≡ 12 → 16 ≤ utf16_length (node.to_base64 b)
  pub timing_safe_equal-refl : (b : B) → node.timing_safe_equal b b ≡ true

pub is_encrypted-three :
    (value head tag tail : String)
    → split_parts value ≡ head ∷ tag ∷ tail ∷ []
    → is_encrypted value ≡ leb 16 (utf16_length head)
unfolding is_encrypted
is_encrypted-three value head tag tail h = rw (is_encrypted, h) refl

pub ok_inj {ℓ} : {E A : Type ℓ} {a b : A} → Path (Result E A) (ok a) (ok b) → a ≡ b
ok_inj e = cc

framed_nonempty : (s t : String) → is_empty (s +s (separator +s t)) ≡ false
framed_nonempty String.[] t = rw (nil-append, cons-append) refl
framed_nonempty (String.◌∷◌ c s) t = rw (cons-append c s) refl

-- A key that is no key: missing, or a text of less than 64 units. A key of 64 units or more of which the
-- first 64 are the hex digits of 32 bytes, and one of which they are not.
abbrev pub HasNoKey : Option String → Type 0
HasNoKey env_key =
    (env_key ≡ none) ⊎ ((raw : String) × (env_key ≡ some raw) × (utf16_length raw < 64))

module _ {B : Type 0} (node : Node B) where
  abbrev pub key_bytes : (raw : String) → ℕ
  key_bytes raw = node.byte_length (node.from_hex (first_chars 64 raw))

  abbrev pub HasKey : Option String → Type 0
  HasKey env_key =
      (raw : String) × (env_key ≡ some raw) × (64 ≤ utf16_length raw) × (key_bytes raw ≡ 32)

  abbrev pub HasBadKey : Option String → Type 0
  HasBadKey env_key =
      (raw : String) × (env_key ≡ some raw) × (64 ≤ utf16_length raw) × (key_bytes raw ≢ 32)

module _ {B : Type 0} (node : Node B) (laws : IsLawful node) (env_key : Option String) where
  pub long_key :
      (raw : String)
      → env_key ≡ some raw
      → 64 ≤ utf16_length raw
      → get_master_key node env_key ≡ ok (node.from_hex (first_chars 64 raw))
  unfolding get_master_key
  long_key raw found long =
      let fits : ltb (utf16_length raw) 64 ≡ false = ground arith in
      rw (get_master_key, found, fits) refl

  pub no_key : HasNoKey env_key → get_master_key node env_key ≡ err missing_key
  unfolding get_master_key
  no_key (inl gone) = rw (get_master_key, gone) refl
  no_key (inr (raw, found, few)) =
      let short : ltb (utf16_length raw) 64 ≡ true = ground arith in
      rw (get_master_key, found, short) refl

  pub key_cases : HasKey node env_key ⊎ HasNoKey env_key ⊎ HasBadKey node env_key
  key_cases = elim (Option-cases env_key) [
    | inl gone ↦ inr (inl (inl gone))
    | inr (raw, found) ↦ elim (Bool-cases (ltb (utf16_length raw) 64)) [
      | inl short ↦ inr (inl (inr (raw, found, ground arith)))
      | inr long ↦ elim (Bool-cases (key_bytes node raw == 32)) [
        | inl right ↦ inl (raw, found, ground arith, ground arith)
        | inr wrong ↦ inr (inr (raw, found, ground arith, ground arith))
      ]
    ]
  ]

  cipher_key-32 : (key : B) → node.byte_length key ≡ 32 → cipher_key node env_key key ≡ ok key
  unfolding cipher_key
  cipher_key-32 key h = ground (arith, laws.takes_key-length key)

  cipher_key-bad :
      (key : B) → node.byte_length key ≢ 32 → cipher_key node env_key key ≡ err invalid_key_length
  unfolding cipher_key
  cipher_key-bad key h = ground (arith, laws.takes_key-length key)

  decrypt-framed :
      (key iv tag ciphertext : B)
      → get_master_key node env_key ≡ ok key
      → node.byte_length key ≡ 32
      → decrypt node env_key (framed node env_key iv tag ciphertext)
        ≡ authentic node env_key (node.unseal key iv tag ciphertext)
  unfolding decrypt
  decrypt-framed key iv tag ciphertext h size =
      rw
        (
          h,
          split_parts-three (node.to_base64 iv) (node.to_base64 tag) (node.to_base64 ciphertext)
              (laws.alphabet iv) (laws.alphabet tag) (laws.alphabet ciphertext),
          cipher_key-32 key size,
          laws.from-to_base64 iv,
          laws.from-to_base64 tag,
          laws.from-to_base64 ciphertext,
        )
        refl

  -- With a key of 32 bytes, a text is encrypted to one that is not empty and decrypts to it.
  pub encrypt_usable :
      (iv : B) (text : String)
      → node.byte_length iv ≡ 12
      → HasKey node env_key
      → (stored : String) × (encrypt node env_key iv text ≡ ok stored)
        × (decrypt node env_key stored ≡ ok text)
        × (is_empty stored ≡ false)
        × (is_encrypted stored ≡ true)
  unfolding encrypt
  encrypt_usable iv text twelve (raw, found, long, size) =
      let key = node.from_hex (first_chars 64 raw) in
      let h = long_key raw found long in
      let (ciphertext, tag) = node.seal key iv text in
      (
        framed node env_key iv tag ciphertext,
        rw (encrypt, h, cipher_key-32 key size) refl,
        decrypt-framed key iv tag ciphertext h size
            ∙ ap (authentic node env_key) (laws.unseal-seal key iv text size twelve),
        framed_nonempty (node.to_base64 iv) _,
        is_encrypted-three (framed node env_key iv tag ciphertext) (node.to_base64 iv)
              (node.to_base64 tag) (node.to_base64 ciphertext)
              (split_parts-three _ _ _ (laws.alphabet iv) (laws.alphabet tag)
                (laws.alphabet ciphertext))
            ∙ le→leb _ _ (laws.iv_digits iv twelve),
      )

  abbrev pub IsFailure : {A : Type 0} → Result CryptoError A → Type 0
  IsFailure (ok a) = ⊥
  IsFailure (err e) = Unit

  encrypt_no_key :
      (iv : B) (text : String) → HasNoKey env_key → encrypt node env_key iv text ≡ err missing_key
  unfolding encrypt
  encrypt_no_key iv text h = rw (encrypt, no_key h) refl

  decrypt_no_key :
      (stored : String) → HasNoKey env_key → decrypt node env_key stored ≡ err missing_key
  unfolding decrypt
  decrypt_no_key stored h = rw (decrypt, no_key h) refl

  pub encrypt_bad_key :
      (iv : B) (text : String)
      → HasBadKey node env_key
      → encrypt node env_key iv text ≡ err invalid_key_length
  unfolding encrypt
  encrypt_bad_key iv text (raw, found, long, size) =
      rw
        (encrypt, long_key raw found long, cipher_key-bad (node.from_hex (first_chars 64 raw)) size)
        refl

  open_parts_bad :
      (key : B) (parts : List String)
      → node.byte_length key ≢ 32
      → (open_parts node env_key key parts ≡ err invalid_key_length)
        ⊎ (open_parts node env_key key parts ≡ err invalid_format)
  unfolding open_parts
  open_parts_bad key [] h = inr refl
  open_parts_bad key (a ∷ []) h = inr refl
  open_parts_bad key (a ∷ b ∷ []) h = inr refl
  open_parts_bad key (a ∷ b ∷ c ∷ []) h = inl (rw (open_parts, cipher_key-bad key h) refl)
  open_parts_bad key (a ∷ b ∷ c ∷ d ∷ parts) h = inr refl

  decrypt_bad_key :
      (stored : String)
      → HasBadKey node env_key
      → (decrypt node env_key stored ≡ err invalid_key_length)
        ⊎ (decrypt node env_key stored ≡ err invalid_format)
  unfolding decrypt
  decrypt_bad_key stored (raw, found, long, size) =
      rw (decrypt, long_key raw found long)
        (open_parts_bad (node.from_hex (first_chars 64 raw)) (split_parts stored) size)

  pub decrypt-encrypt :
      (iv : B) (text : String)
      → node.byte_length iv ≡ 12
      → (HasKey node env_key
          × ((stored : String) × (encrypt node env_key iv text ≡ ok stored)
              × (is_encrypted stored ≡ true)
              × (decrypt node env_key stored ≡ ok text)))
        ⊎ (HasNoKey env_key
            × (encrypt node env_key iv text ≡ err missing_key)
            × ((stored : String) → decrypt node env_key stored ≡ err missing_key))
        ⊎ (HasBadKey node env_key
            × (encrypt node env_key iv text ≡ err invalid_key_length)
            × ((stored : String)
                → (decrypt node env_key stored ≡ err invalid_key_length)
                  ⊎ (decrypt node env_key stored ≡ err invalid_format)))
  decrypt-encrypt iv text twelve = elim key_cases [
    | inl key ↦
        let (stored, sealed, plain, full, looks) = encrypt_usable iv text twelve key in
        inl (key, (stored, sealed, looks, plain))
    | inr (inl gone) ↦
        inr (inl (gone, encrypt_no_key iv text gone, λ stored. decrypt_no_key stored gone))
    | inr (inr bad) ↦
        inr (inr (bad, encrypt_bad_key iv text bad, λ stored. decrypt_bad_key stored bad))
  ]
