-- ===== src/Crypto/Samples.antt =====
-- A library of byte buffers that are texts, which meets what the code relies on.
use Prim.Native.Char.{Char, code}
use text.Mathlib.TextEquality.{Char-path}
use ocrowley_commons.Common.{
  Bool-cases, Option, String, ap, arith, eq_refl, false, first_chars, if◌then◌else◌, inl, inr, none,
  refl, some, str_eq, true, utf16_length, ℕ, ◌*◌, ◌+s◌, ◌+◌, ◌==◌, ◌≡◌, ◌≤◌,
}
use ocrowley_commons.Crypto.{Node, is_separator}
use ocrowley_commons.Crypto.Split.{has_separator}
use ocrowley_commons.Crypto.RoundTrip.{HasKey, IsLawful}

-- Two digits for a character: the separator is "x;", any other character `c` is "yc".
abbrev pub digits : String → String
digits String.[] = String.[]
digits (String.◌∷◌ c s) =
    if is_separator (code c)
    then String.◌∷◌ "x" (String.◌∷◌ ";" (digits s))
    else String.◌∷◌ "y" (String.◌∷◌ c (digits s))

abbrev undigit : Char → Char → Char
undigit p c = if code p == 120 then ":" else c

abbrev pub undigits : String → String
undigits String.[] = String.[]
undigits (String.◌∷◌ p String.[]) = String.[]
undigits (String.◌∷◌ p (String.◌∷◌ c s)) = String.◌∷◌ (undigit p c) (undigits s)

is_separator-eq : (c : Char) → is_separator (code c) ≡ true → Path Char ":" c
is_separator-eq c h = Char-path ":" c (ground arith)

pub undigits-digits : (s : String) → undigits (digits s) ≡ s
undigits-digits String.[] = refl
undigits-digits (String.◌∷◌ c s) = elim (Bool-cases (is_separator (code c))) [
  | inl same ↦ rw (same, ← is_separator-eq c same) (ap (String.◌∷◌ ":") (undigits-digits s))
  | inr other ↦ rw other (ap (String.◌∷◌ c) (undigits-digits s))
]

pub digits-alphabet : (s : String) → has_separator (digits s) ≡ false
digits-alphabet String.[] = refl
digits-alphabet (String.◌∷◌ c s) = elim (Bool-cases (is_separator (code c))) [
  | inl same ↦ rw same (digits-alphabet s)
  | inr other ↦ rw other (ground (arith, digits-alphabet s))
]

abbrev char_count : String → ℕ
char_count String.[] = 0
char_count (String.◌∷◌ c s) = 1 + char_count s

digits-length : (s : String) → 2 * char_count s ≤ utf16_length (digits s)
unfolding utf16_length
digits-length String.[] = omega arith
digits-length (String.◌∷◌ c s) = elim (Bool-cases (is_separator (code c))) [
  | inl same ↦ rw same (ground (arith, digits-length s))
  | inr other ↦ rw other (ground (arith, digits-length s))
]

-- The first 32 characters stand for the bytes of 64 digits.
abbrev first_half : String → String
first_half s = first_chars 32 s

-- The key, and a text with it, stand for the sealed bytes; opening looks at the key.
abbrev pub text_node : Node String
text_node = record {
  takes_key = λ key. char_count key == 32;
  seal = λ key iv text. (text, key);
  unseal = λ key iv tag ciphertext. if str_eq key tag then some ciphertext else none;
  to_base64 = digits;
  from_base64 = undigits;
  from_hex = first_half;
  hmac = λ key text. key +s text;
  byte_length = char_count;
  timing_safe_equal = str_eq;
}

pub text_node-IsLawful : IsLawful text_node
text_node-IsLawful = record {
  takes_key-length = λ key. refl;
  unseal-seal = λ key iv text size twelve. rw (eq_refl key) refl;
  from-to_base64 = undigits-digits;
  alphabet = digits-alphabet;
  iv_digits = λ b h. omega (arith, digits-length b, h);
  timing_safe_equal-refl = eq_refl;
}

abbrev pub test_master_key : String
test_master_key = "0123456789abcdef0123456789abcdef0123456789abcdef0123456789abcdef"

abbrev pub test_key : Option String
test_key = some test_master_key

pub test_master_key-length : 64 ≤ utf16_length test_master_key
unfolding utf16_length
test_master_key-length = omega arith

pub test_master_key-bytes :
    text_node.byte_length (text_node.from_hex (first_chars 64 test_master_key)) ≡ 32
unfolding first_chars
test_master_key-bytes = refl

pub has_test_key : HasKey text_node test_key
has_test_key = (test_master_key, refl, test_master_key-length, test_master_key-bytes)

abbrev pub test_iv : String
test_iv = "abcdefghijkl"
