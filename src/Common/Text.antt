-- ===== src/Common/Text.antt =====
-- Text operations of the JavaScript standard library that the packages use.
use Prim.Native.String
use Prim.Native.Nat.{◌+◌, ℕ, zero, suc, ◌/◌, ◌%◌}
use Prim.Native.Char.{code}
use Prim.Native.String.{String}
use mathlib.Core.Path.{◌≡◌, refl}
use mathlib.Core.Bool.{Bool, true, false, ◌&&◌, ◌||◌}
use text.Mathlib.Text.{◌==◌ as str_eq}
use ocrowley_commons.Common.Tests.{if◌then◌else◌, leb, ltb, ◌==◌}

-- The white space and line terminators of ECMAScript, by code point.
pub is_space : ℕ → Bool
is_space c =
    (leb 9 c && leb c 13)
    || c == 32
    || c == 0xa0
    || c == 0x1680
    || (leb 0x2000 c && leb c 0x200a)
    || c == 0x2028
    || c == 0x2029
    || c == 0x202f
    || c == 0x205f
    || c == 0x3000
    || c == 0xfeff

-- Joining two texts, `${s}${t}`.
infixl 60 ◌+s◌
abbrev pub ◌+s◌ : String → String → String
s +s t = String.◌++◌ s t

-- `s.endsWith(suffix)`.
abbrev pub ends_with : String → String → Bool
ends_with String.[] suffix = str_eq String.[] suffix
ends_with (String.◌∷◌ c s) suffix = str_eq (String.◌∷◌ c s) suffix || ends_with s suffix

digit : ℕ → String
digit n =
    if n == 0
    then "0"
    else if n == 1
    then "1"
    else if n == 2
    then "2"
    else if n == 3
    then "3"
    else if n == 4
    then "4"
    else if n == 5
    then "5"
    else if n == 6
    then "6"
    else if n == 7
    then "7"
    else if n == 8
    then "8"
    else "9"

-- The decimal digits of `n`; a number has at most `n + 1` of them, which is the fuel.
decimal_upto : ℕ → ℕ → String
decimal_upto zero n = ""
decimal_upto (suc fuel) n =
    let front = decimal_upto fuel (n / 10) in if ltb n 10 then digit n else front +s digit (n % 10)

-- `${n}`.
unfoldable pub decimal : ℕ → String
unfolding decimal_upto digit
decimal n = decimal_upto (suc n) n

abbrev pub is_empty : String → Bool
is_empty String.[] = true
is_empty (String.◌∷◌ c s) = false

trim_start : String → String
trim_start String.[] = String.[]
trim_start (String.◌∷◌ c s) =
    let rest = trim_start s in if is_space (code c) then rest else String.◌∷◌ c s

trim_end : String → String
trim_end String.[] = String.[]
trim_end (String.◌∷◌ c s) =
    let rest = trim_end s in
    if is_empty rest && is_space (code c) then String.[] else String.◌∷◌ c rest

-- `s.trim()`.
unfoldable pub trim : String → String
unfolding trim_start trim_end is_space
trim s = trim_end (trim_start s)

-- `s.trim()` is truthy.
abbrev pub is_blank : String → Bool
is_blank s = is_empty (trim s)

-- `s.length`: UTF-16 code units.
unfoldable pub utf16_length : String → ℕ
utf16_length String.[] = 0
utf16_length (String.◌∷◌ c s) = (if leb 0x10000 (code c) then 2 else 1) + utf16_length s

-- `s.slice(0, n)`, on ASCII.
unfoldable pub first_chars : ℕ → String → String
first_chars zero s = ""
first_chars (suc n) String.[] = ""
first_chars (suc n) (String.◌∷◌ c s) = String.◌∷◌ c (first_chars n s)

-- `/word/i.test(s)` for a word of ASCII letters: without the flag `u`, only ASCII letters fold into
-- ASCII letters.
abbrev pub fold_code : ℕ → ℕ
fold_code c = if leb 65 c && leb c 90 then c + 32 else c

abbrev pub starts_with_fold : (word s : String) → Bool
starts_with_fold String.[] s = true
starts_with_fold (String.◌∷◌ c word) String.[] = false
starts_with_fold (String.◌∷◌ c word) (String.◌∷◌ d s) =
    fold_code (code c) == fold_code (code d) && starts_with_fold word s

abbrev pub contains_fold : (word s : String) → Bool
contains_fold word String.[] = starts_with_fold word String.[]
contains_fold word (String.◌∷◌ d s) = starts_with_fold word (String.◌∷◌ d s) || contains_fold word s

trim_test : trim " \t CASE 1  " ≡ "CASE 1"
unfolding trim
trim_test = refl

decimal_test : decimal 107 ≡ "107"
unfolding decimal
decimal_test = refl
