-- ===== src/Osint/Auth/Request.antt =====
-- packages/osint/src/auth/authorizeRequest.ts: the authorization of a WHO request.
pub mod Admission
pub mod Refusals
mod Tests
use ocrowley_commons.Common.{
  Bool, List, Option, Result, String, [], err, get_or, if◌then◌else◌, is_empty, map, none, not, ok,
  some, str_eq, trim, true, ℕ, ◌&&◌, ◌+s◌, ◌||◌, ◌∷◌,
}
use ocrowley_commons.Osint.Auth.{
  External, HeaderValue, ResolvedOperator, WhoAuthMode, WhoOperatorRecord, header_value,
  operator_may_access_case, operators_required, or_text, pin_still_required, resolve_operator,
  role_name, who_auth_mode,
}

pub record Headers : Type 0 where
  pub who_token : Option HeaderValue
  pub authorization : Option HeaderValue
  pub osint_case : Option HeaderValue
  pub who_pin : Option HeaderValue
  pub cookie : Option HeaderValue

pub record WhoEnv : Type 0 where
  pub who_auth : Option String
  pub who_pin : Option String
  pub osint_case : Option String
  pub osint_actor : Option String

pub record RequestInput : Type 0 where
  pub headers : Headers
  pub body_case : Option String
  pub query_case : Option String
  pub require_case : Option Bool
  pub require_pin : Option Bool
  pub pin : Option String
  pub skip_case_acl : Bool

pub record AuthContext : Type 0 where
  pub mode : WhoAuthMode
  pub operator : Option ResolvedOperator
  pub case_ref : String
  pub actor_id : String
  pub roles : List String

pub record Refusal : Type 0 where
  pub status : ℕ
  pub error : String
  pub hint : String

-- What a request that is not admitted gets: an answer, or the URIError of decodeURIComponent.
pub data AuthFailure : Type 0 where
  answered : Refusal → AuthFailure
  uri_error : AuthFailure

abbrev pub pin_refusal : Refusal
pin_refusal = record {
  status = 401;
  error = "PIN required";
  hint = "Unlock via POST /api/unlock or send X-OCROWLEY-WHO-PIN";
}

abbrev pub operator_refusal : Refusal
operator_refusal = record {
  status = 401;
  error = "Operator token required";
  hint = "Send X-OCROWLEY-WHO-TOKEN or Authorization: Bearer who_…";
}

abbrev pub case_refusal : Refusal
case_refusal = record {
  status = 401;
  error = "Case authorization required";
  hint = "Set OCROWLEY_OSINT_CASE, or send X-OCROWLEY-OSINT-CASE / body.case";
}

abbrev pub acl_refusal : ResolvedOperator → String → Refusal
acl_refusal op case_ref = record {
  status = 403;
  error = "Case not permitted for this operator";
  hint = "Operator " +s op.id +s " cannot access case " +s case_ref;
}

module _ (ext : External) where
  unfoldable pub extract_operator_token : Headers → String
  unfolding trim
  extract_operator_token headers =
      let header = header_value headers.who_token in
      if is_empty header
      then get_or (ext.bearer_token (header_value headers.authorization)) ""
      else trim header

  unfoldable pub bearer_raw : Option HeaderValue → String
  unfolding trim
  bearer_raw auth = elim (ext.bearer_rest (header_value auth)) [ none ↦ "" | some rest ↦ trim rest ]

  unfoldable pub resolve_case_ref_for_auth :
      WhoEnv → Headers → (body_case query_case : Option String) → String
  unfolding bearer_raw trim
  resolve_case_ref_for_auth env headers body_case query_case =
      let header = header_value headers.osint_case in
      let bearer = bearer_raw headers.authorization in
      if not (is_empty header)
      then trim header
      else if not (is_empty bearer) && not (ext.looks_like_token bearer)
      then bearer
      else trim (or_text body_case (or_text query_case (or_text env.osint_case "")))

  -- `decodeURIComponent(m[1]).trim()`.
  abbrev pub decoded_pin : Option String → Option String
  decoded_pin none = none
  decoded_pin (some text) = some (trim text)

  -- `none` where decodeURIComponent throws.
  unfoldable pub extract_pin : Headers → Option String
  unfolding trim
  extract_pin headers =
      let header = header_value headers.who_pin in
      if not (is_empty header)
      then some (trim header)
      else elim (ext.cookie_pin (header_value headers.cookie)) [
        | none ↦ some ""
        | some raw ↦ decoded_pin (ext.decode_uri raw)
      ]

  unfoldable pub expected_pin : WhoEnv → RequestInput → String
  unfolding trim
  expected_pin env input = trim (or_text input.pin (or_text env.who_pin "3123"))

  -- Whether the pin is asked for.
  unfoldable pub pin_asked : WhoEnv → RequestInput → Bool
  unfolding who_auth_mode
  pin_asked env input =
      get_or input.require_pin true && pin_still_required (who_auth_mode ext env.who_auth)

  -- The first test, on the pin that was read: it is the expected one.
  unfoldable pub pin_matches : WhoEnv → RequestInput → (got : String) → Bool
  unfolding expected_pin
  pin_matches env input got = not (is_empty got || not (str_eq got (expected_pin env input)))

  -- What stops a request at the first test.
  unfoldable pub pin_failure : WhoEnv → RequestInput → Option AuthFailure
  unfolding extract_pin pin_matches pin_asked
  pin_failure env input =
      if pin_asked env input
      then elim (extract_pin input.headers) [
        | none ↦ some uri_error
        | some got ↦ if pin_matches env input got then none else some (answered pin_refusal)
      ]
      else none

  abbrev pub admitted : WhoEnv → RequestInput → Option ResolvedOperator → String → AuthContext
  admitted env input operator case_ref = record {
    mode = who_auth_mode ext env.who_auth;
    operator = operator;
    case_ref = case_ref;
    actor_id = elim operator [
      | none ↦ or_text env.osint_actor "local"
      | some op ↦ or_text (some op.id) (or_text env.osint_actor "local")
    ];
    roles = elim operator [
      | none ↦ "osint-operator" ∷ []
      | some op ↦ elim op.roles [ [] ↦ "osint-operator" ∷ [] | r ∷ rs ↦ map role_name (r ∷ rs) ]
    ];
  }

  -- The last two tests, on the operator that was found and the case.
  unfoldable pub check_case :
      WhoEnv → RequestInput → Option ResolvedOperator → String → Result AuthFailure AuthContext
  unfolding operator_may_access_case
  check_case env input operator case_ref =
      if get_or input.require_case true && is_empty case_ref && not input.skip_case_acl
      then err (answered case_refusal)
      else elim operator [
        | none ↦ ok (admitted env input none case_ref)
        | some op ↦
            if not (is_empty case_ref)
              && not input.skip_case_acl
              && not (operator_may_access_case op case_ref)
            then err (answered (acl_refusal op case_ref))
            else ok (admitted env input (some op) case_ref)
      ]

  -- `operators` are the operators on file.
  unfoldable pub authorize_who_request :
      WhoEnv → List WhoOperatorRecord → RequestInput → Result AuthFailure AuthContext
  unfolding pin_failure check_case resolve_operator extract_operator_token resolve_case_ref_for_auth
      who_auth_mode
  authorize_who_request env operators input =
      let case_ref = resolve_case_ref_for_auth env input.headers input.body_case input.query_case in
      elim (pin_failure env input) [
        | some failure ↦ err failure
        | none ↦
            if operators_required (who_auth_mode ext env.who_auth)
            then elim (resolve_operator ext (extract_operator_token input.headers) operators) [
              | none ↦ err (answered operator_refusal)
              | some op ↦ check_case env input (some op) case_ref
            ]
            else check_case env input none case_ref
      ]
