-- ===== src/Osint/Auth.antt =====
-- packages/osint/src/auth/whoOperators.ts: operator tokens and the cases an operator may use. The
-- hash of a token, the bytes of a hexadecimal text and `toLowerCase` are parameters, and so are the
-- regular expressions of the headers: each gives its first group, where it matches. The operators
-- are those that `loadOperators` gives; reading and writing their file is left out.
pub mod Request
pub mod Merge
use ocrowley_commons.Common.{
  Bool, List, Option, String, [], any, false, get_or, if◌then◌else◌, includes, is_blank, is_empty,
  length, none, not, some, str_eq, trim, true, ℕ, ◌&&◌, ◌==◌, ◌||◌, ◌∷◌,
}

pub data WhoOperatorRole : Type 0 where
  osint_operator investigator counsel viewer admin : WhoOperatorRole

abbrev pub role_name : WhoOperatorRole → String
role_name osint_operator = "osint-operator"
role_name investigator = "investigator"
role_name counsel = "counsel"
role_name viewer = "viewer"
role_name admin = "admin"

pub data WhoAuthMode : Type 0 where
  pin_mode operators_mode pin_and_operators_mode : WhoAuthMode

pub record WhoOperatorRecord : Type 0 where
  pub id : String
  pub name : String
  pub token_hash : String
  pub roles : List WhoOperatorRole
  pub cases : List String
  pub disabled : Bool
  pub created_at : ℕ

pub record ResolvedOperator : Type 0 where
  pub id : String
  pub name : String
  pub roles : List WhoOperatorRole
  pub cases : List String

-- A row of OCROWLEY_WHO_OPERATORS.
pub record OperatorRow : Type 0 where
  pub id : String
  pub name : Option String
  pub token : String
  pub roles : Option (List WhoOperatorRole)
  pub cases : Option (List String)

-- What the code takes from outside: hashing, hexadecimal decoding and the regular expressions
-- `/^Bearer\s+(who_[A-Za-z0-9_-]+)$/i`, `/^Bearer\s+(.+)$/i`, `/^who_/i` and the one that finds the
-- pin in a cookie; and decodeURIComponent, `none` where it throws.
pub record External : Type 0 where
  pub lower : String → String
  pub hash_token : String → String
  pub bytes_of_hex : String → List ℕ
  pub bearer_token : String → Option String
  pub bearer_rest : String → Option String
  pub looks_like_token : String → Bool
  pub cookie_pin : String → Option String
  pub decode_uri : String → Option String

-- `a || b` on texts, where `a` may be missing.
abbrev pub or_text : Option String → String → String
or_text none b = b
or_text (some a) b = if is_empty a then b else a

pub data HeaderValue : Type 0 where
  single : String → HeaderValue
  several : List String → HeaderValue

abbrev pub header_value : Option HeaderValue → String
header_value none = ""
header_value (some (single s)) = s
header_value (some (several [])) = ""
header_value (some (several (s ∷ ss))) = s

abbrev pub operators_required : WhoAuthMode → Bool
operators_required pin_mode = false
operators_required _ = true

abbrev pub pin_still_required : WhoAuthMode → Bool
pin_still_required operators_mode = false
pin_still_required _ = true

abbrev pub resolved : WhoOperatorRecord → ResolvedOperator
resolved op = record { id = op.id; name = op.name; roles = op.roles; cases = op.cases }

abbrev pub same_bytes : List ℕ → List ℕ → Bool
same_bytes [] [] = true
same_bytes (x ∷ xs) (y ∷ ys) = x == y && same_bytes xs ys
same_bytes _ _ = false

unfoldable pub operator_may_access_case : ResolvedOperator → String → Bool
unfolding trim
operator_may_access_case op case_ref =
    if is_blank case_ref
    then false
    else includes op.cases "*" || any (λ c. str_eq c case_ref) op.cases

module _ (ext : External) where
  -- `OCROWLEY_WHO_AUTH` gives the mode.
  unfoldable pub who_auth_mode : Option String → WhoAuthMode
  unfolding trim
  who_auth_mode who_auth =
      let raw = ext.lower (trim (or_text who_auth "pin")) in
      if str_eq raw "operators" || str_eq raw "operator"
      then operators_mode
      else if str_eq raw "pin+operators" || str_eq raw "pin+operator" || str_eq raw "both"
      then pin_and_operators_mode
      else pin_mode

  unfoldable pub hashes_equal : String → String → Bool
  hashes_equal a b =
      let ab = ext.bytes_of_hex a in
      let bb = ext.bytes_of_hex b in
      if not (length ab == length bb) || length ab == 0 then false else same_bytes ab bb

  -- The loop over the operators.
  unfoldable pub find_operator : String → List WhoOperatorRecord → Option ResolvedOperator
  unfolding hashes_equal
  find_operator want [] = none
  find_operator want (op ∷ ops) =
      let rest = find_operator want ops in
      if op.disabled
      then rest
      else if not (hashes_equal op.token_hash want)
      then rest
      else some (resolved op)

  unfoldable pub resolve_operator : String → List WhoOperatorRecord → Option ResolvedOperator
  unfolding find_operator
  resolve_operator token operators =
      if is_empty token then none else find_operator (ext.hash_token token) operators

  -- The record that a row of the environment stands for.
  unfoldable pub row_record : ℕ → OperatorRow → Option WhoOperatorRecord → WhoOperatorRecord
  row_record now row existing = record {
    id = row.id;
    name = or_text row.name row.id;
    token_hash = ext.hash_token row.token;
    roles = elim (get_or row.roles []) [ [] ↦ osint_operator ∷ [] | r ∷ rs ↦ r ∷ rs ];
    cases = elim (get_or row.cases []) [ [] ↦ "*" ∷ [] | c ∷ cs ↦ c ∷ cs ];
    disabled = elim existing [ none ↦ false | some op ↦ op.disabled ];
    created_at = elim existing [ none ↦ now | some op ↦ op.created_at ];
  }

  -- `Object.assign` onto the first operator with the row's id, or a push at the end; an operator
  -- that is there keeps the fields that the record does not name.
  unfoldable pub merge_row : ℕ → OperatorRow → List WhoOperatorRecord → List WhoOperatorRecord
  unfolding row_record
  merge_row now row [] = row_record now row none ∷ []
  merge_row now row (op ∷ ops) =
      let rest = merge_row now row ops in
      if str_eq op.id row.id then row_record now row (some op) ∷ ops else op ∷ rest

  unfoldable pub merge_env_operators :
      ℕ → List OperatorRow → List WhoOperatorRecord → List WhoOperatorRecord
  unfolding merge_row
  merge_env_operators now [] operators = operators
  merge_env_operators now (row ∷ rows) operators =
      let skipped = merge_env_operators now rows operators in
      let merged = merge_env_operators now rows (merge_row now row operators) in
      if is_empty row.id || is_empty row.token then skipped else merged

  unfoldable pub ensure_bootstrap_operator :
      (token : String) (now : ℕ) → List WhoOperatorRecord → List WhoOperatorRecord
  ensure_bootstrap_operator token now [] =
      record {
        id = "op_admin";
        name = "Bootstrap Admin";
        token_hash = ext.hash_token token;
        roles = admin ∷ osint_operator ∷ investigator ∷ [];
        cases = "*" ∷ [];
        disabled = false;
        created_at = now;
      }
      ∷ []
  ensure_bootstrap_operator token now (op ∷ ops) = op ∷ ops
