-- ===== src/Crypto.antt =====
-- packages/crypto/src/encryption.ts: encryption of stored texts. Node's crypto and Buffer are the
-- parameter `Node`, on any type `B` of byte buffers; the environment's key and the random
-- initialisation vector are arguments.
pub mod Split
pub mod RoundTrip
pub mod Safe
pub mod Samples
mod Tests
use Prim.Native.Char.{Char, code}
use Prim.Native.String
use ocrowley_commons.Common.{
  Bool, List, Option, Result, String, [], err, false, first_chars, if◌then◌else◌, leb, ltb, none,
  ok, some, utf16_length, ℕ, ◌+s◌, ◌==◌, ◌>>=◌, ◌∷◌,
}

-- What the code calls: whether createCipheriv and createDecipheriv take a key for AES-256-GCM, and
-- throw if not; what they do with it (`none` where the vector, the tag or `final` throws); base64, hex,
-- HMAC-SHA256 in hex digits, and the comparison of two buffers of the same length.
pub record Node {ℓ} (B : Type ℓ) : Type ℓ where
  pub takes_key : (key : B) → Bool
  pub seal : (key iv : B) → String → B × B
  pub unseal : (key iv tag ciphertext : B) → Option String
  pub to_base64 : B → String
  pub from_base64 : String → B
  pub from_hex : String → B
  pub hmac : (key : B) → String → String
  pub byte_length : B → ℕ
  pub timing_safe_equal : B → B → Bool

pub data CryptoError : Type 0 where
  missing_key invalid_key_length invalid_format unauthentic : CryptoError

-- SEPARATOR, and its code point.
abbrev pub separator : String
separator = ":"

abbrev pub is_separator : ℕ → Bool
is_separator c = c == 58

-- A character put before the first part.
abbrev pub push_char : Char → List String → List String
push_char c [] = String.◌∷◌ c String.[] ∷ []
push_char c (p ∷ ps) = String.◌∷◌ c p ∷ ps

-- `s.split(SEPARATOR)`.
unfoldable pub split_parts : String → List String
split_parts String.[] = String.[] ∷ []
split_parts (String.◌∷◌ c s) =
    if is_separator (code c) then String.[] ∷ split_parts s else push_char c (split_parts s)

unfoldable pub is_encrypted : String → Bool
unfolding split_parts utf16_length
is_encrypted value = elim (split_parts value) [
  | iv ∷ tag ∷ ciphertext ∷ [] ↦ leb 16 (utf16_length iv)
  | _ ↦ false
]

module _ {B : Type 0} (node : Node B) (env_key : Option String) where
  -- A text that is no hex digit ends what `Buffer.from` reads, so the code points serve for `slice`.
  unfoldable pub get_master_key : Result CryptoError B
  unfolding utf16_length first_chars
  get_master_key = elim env_key [
    | none ↦ err missing_key
    | some raw ↦
        if ltb (utf16_length raw) 64
        then err missing_key
        else ok (node.from_hex (first_chars 64 raw))
  ]

  -- What createCipheriv and createDecipheriv do with the key.
  unfoldable pub cipher_key : B → Result CryptoError B
  cipher_key key = if node.takes_key key then ok key else err invalid_key_length

  -- The three parts, joined.
  abbrev pub framed : (iv tag ciphertext : B) → String
  framed iv tag ciphertext =
      node.to_base64 iv
      +s (separator +s (node.to_base64 tag +s (separator +s node.to_base64 ciphertext)))

  unfoldable pub encrypt : (iv : B) → String → Result CryptoError String
  unfolding get_master_key cipher_key
  encrypt iv plaintext = get_master_key >>= λ raw. cipher_key raw >>= λ key.
      let (ciphertext, tag) = node.seal key iv plaintext in ok (framed iv tag ciphertext)

  -- What `decipher.final` gives.
  abbrev pub authentic : Option String → Result CryptoError String
  authentic none = err unauthentic
  authentic (some text) = ok text

  -- The parts are an initialisation vector, a tag and a ciphertext.
  unfoldable pub open_parts : (raw : B) → List String → Result CryptoError String
  unfolding cipher_key
  open_parts raw (iv ∷ tag ∷ ciphertext ∷ []) = cipher_key raw >>= λ key.
      authentic
        (node.unseal key (node.from_base64 iv) (node.from_base64 tag) (node.from_base64 ciphertext))
  open_parts raw _ = err invalid_format

  unfoldable pub decrypt : String → Result CryptoError String
  unfolding get_master_key open_parts split_parts
  decrypt stored = get_master_key >>= λ raw. open_parts raw (split_parts stored)

  unfoldable pub sign : String → Result CryptoError String
  unfolding get_master_key
  sign text = get_master_key >>= λ key. ok (node.hmac key text)

  -- Whatever is thrown is answered by `false`.
  unfoldable pub verify_signature : String → String → Bool
  unfolding sign
  verify_signature text signature = elim (sign text) [
    | err e ↦ false
    | ok expected ↦
        let expected_buf = node.from_hex expected in
        let actual_buf = node.from_hex signature in
        if node.byte_length expected_buf == node.byte_length actual_buf
        then node.timing_safe_equal expected_buf actual_buf
        else false
  ]

  unfoldable pub safe_encrypt : (iv : B) → String → Result CryptoError String
  unfolding is_encrypted encrypt
  safe_encrypt iv value =
      let sealed = encrypt iv value in if is_encrypted value then ok value else sealed

  unfoldable pub safe_decrypt : String → Result CryptoError String
  unfolding is_encrypted decrypt
  safe_decrypt value = let plain = decrypt value in if is_encrypted value then plain else ok value
