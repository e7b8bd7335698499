-- ===== src/Crypto/Safe.antt =====
-- The safe variants, which leave alone what looks encrypted or does not, and signatures.
use ocrowley_commons.Common.{
  Option, String, arith, false, first_chars, inl, inr, le→leb, ok, refl, sym, true, utf16_length,
  ◌+s◌, ◌∙◌, ◌≡◌, ◌≤◌, ◌⊎◌,
}
use ocrowley_commons.Crypto.{
  Node, decrypt, encrypt, get_master_key, is_encrypted, safe_decrypt, safe_encrypt, separator, sign,
  verify_signature,
}
use ocrowley_commons.Crypto.Split.{has_separator, split_parts-three}
use ocrowley_commons.Crypto.RoundTrip.{
  IsLawful, decrypt-encrypt, is_encrypted-three, key_cases, long_key, no_key, ok_inj,
}

module _ {B : Type 0} (node : Node B) (laws : IsLawful node) (env_key : Option String) where
  -- What was encrypted looks so and decrypts to its text.
  sealed_lem :
      (iv : B) (text stored : String)
      → node.byte_length iv ≡ 12
      → encrypt node env_key iv text ≡ ok stored
      → (is_encrypted stored ≡ true) × (decrypt node env_key stored ≡ ok text)
  sealed_lem iv text stored twelve h = elim (decrypt-encrypt node laws env_key iv text twelve) [
    | inl (key, (s, e, looks, d)) ↦
        let same : s ≡ stored = ok_inj (sym e ∙ h) in (rw (← same) looks, rw (← same) d)
    | inr (inl (gone, e, d)) ↦ cc
    | inr (inr (bad, e, d)) ↦ cc
  ]

  -- What is encrypted under an initialisation vector of 12 bytes looks encrypted. So a text that does
  -- not look encrypted comes back from the safe variants, if there is a usable key, and encrypting
  -- safely what was encrypted changes nothing.
  pub safe_round_trip :
      (iv iv' : B) (text stored : String)
      → node.byte_length iv ≡ 12
      → encrypt node env_key iv text ≡ ok stored
      → (is_encrypted stored ≡ true)
        × (safe_encrypt node env_key iv' stored ≡ ok stored)
        × (is_encrypted text ≡ false
            → (safe_encrypt node env_key iv text ≡ ok stored)
              × (safe_decrypt node env_key stored ≡ ok text))
  unfolding safe_encrypt safe_decrypt
  safe_round_trip iv iv' text stored bytes h =
      let (looks, opens) = sealed_lem iv text stored bytes h in
      (looks, rw looks refl, λ plain. (rw plain h, rw looks opens))

  -- A text that looks encrypted is stored as it is, with no key and under any: three parts, the first
  -- of at least 16 UTF-16 units.
  pub safe_encrypt-kept :
      (iv : B) (head tag tail : String)
      → has_separator head ≡ false
      → has_separator tag ≡ false
      → has_separator tail ≡ false
      → 16 ≤ utf16_length head
      → safe_encrypt node env_key iv (head +s (separator +s (tag +s (separator +s tail))))
        ≡ ok (head +s (separator +s (tag +s (separator +s tail))))
  unfolding safe_encrypt is_encrypted
  safe_encrypt-kept iv head tag tail hh ht hl long =
      rw
        (
          is_encrypted-three _ head tag tail (split_parts-three head tag tail hh ht hl),
          le→leb _ _ long,
        )
        refl

  -- A signature verifies under the key that signed; with no usable key nothing verifies.
  pub verify_signature-sign :
      (text : String)
      → ((signature : String) × (sign node env_key text ≡ ok signature)
          × (verify_signature node env_key text signature ≡ true))
        ⊎ ((signature : String) → verify_signature node env_key text signature ≡ false)
  unfolding sign verify_signature
  verify_signature-sign text = elim (key_cases node laws env_key) [
    | inl (raw, found, long, size) ↦
        signs (node.from_hex (first_chars 64 raw)) (long_key node laws env_key raw found long)
    | inr (inl gone) ↦
        inr (λ signature. rw (verify_signature, sign, (no_key node laws env_key gone)) refl)
    | inr (inr (raw, found, long, size)) ↦
        signs (node.from_hex (first_chars 64 raw)) (long_key node laws env_key raw found long)
  ]
    where
      verified :
          (signature : String)
          → sign node env_key text ≡ ok signature
          → verify_signature node env_key text signature ≡ true
      verified signature e =
          rw (verify_signature, e)
            (ground (arith, laws.timing_safe_equal-refl (node.from_hex signature)))

      signs :
          (key : B)
          → get_master_key node env_key ≡ ok key
          → ((signature : String) × (sign node env_key text ≡ ok signature)
              × (verify_signature node env_key text signature ≡ true))
            ⊎ ((signature : String) → verify_signature node env_key text signature ≡ false)
      signs key h =
          let signed : sign node env_key text ≡ ok (node.hmac key text) = rw (sign, h) refl in
          inl (node.hmac key text, signed, verified (node.hmac key text) signed)
