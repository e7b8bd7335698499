-- ===== src/Osint/Auth/Request/Tests.antt =====
-- Requests at concrete headers.
use Prim.Native.Char.{code}
use ocrowley_commons.Common.{
  All, Bool, List, String, [], err, false, map, none, ok, refl, some, trim, true, ℕ, ◌++◌, ◌∷◌, ◌≡◌,
}
use ocrowley_commons.Osint.Auth.{
  External, OperatorRow, WhoOperatorRecord, investigator, merge_env_operators,
  pin_and_operators_mode, resolved, several, single, who_auth_mode,
}
use ocrowley_commons.Osint.Auth.Merge.{merge_env_operators-standing, standing}
use ocrowley_commons.Osint.Auth.Request.{
  AuthContext, RequestInput, WhoEnv, acl_refusal, answered, authorize_who_request,
}
use ocrowley_commons.Osint.Auth.Request.Admission.{Admitted, authorize-Admitted}
use ocrowley_commons.Osint.Auth.Request.Refusals.{Refused, authorize-Refused}

abbrev codes : String → List ℕ
codes String.[] = []
codes (String.◌∷◌ c s) = code c ∷ codes s

-- The token itself for its hash, and no text that matches an expression.
abbrev plain : External
plain = record {
  lower = λ s. s;
  hash_token = λ s. s;
  bytes_of_hex = codes;
  bearer_token = λ s. none;
  bearer_rest = λ s. none;
  looks_like_token = λ s. false;
  cookie_pin = λ s. none;
  decode_uri = some;
}

abbrev strict_env : WhoEnv
strict_env = record {
  who_auth = some "both";
  who_pin = none;
  osint_case = none;
  osint_actor = none;
}

abbrev anna : WhoOperatorRecord
anna = record {
  id = "anna";
  name = "Anna";
  token_hash = "who_a";
  roles = investigator ∷ [];
  cases = "C1" ∷ [];
  disabled = false;
  created_at = 0;
}

abbrev request : String → RequestInput
request case_ref = record {
  headers = record {
    who_token = some (single "who_a");
    authorization = none;
    osint_case = some (single case_ref);
    who_pin = some (several ("3123" ∷ []));
    cookie = none;
  };
  body_case = none;
  query_case = none;
  require_case = none;
  require_pin = none;
  pin = none;
  skip_case_acl = false;
}

abbrev anna_auth : AuthContext
anna_auth = record {
  mode = pin_and_operators_mode;
  operator = some (resolved anna);
  case_ref = "C1";
  actor_id = "anna";
  roles = "investigator" ∷ [];
}

own_case_run : authorize_who_request plain strict_env (anna ∷ []) (request "C1") ≡ ok anna_auth
unfolding authorize_who_request who_auth_mode trim
own_case_run = refl

foreign_case_run :
    authorize_who_request plain strict_env (anna ∷ []) (request "C2")
    ≡ err (answered (acl_refusal (resolved anna) "C2"))
unfolding authorize_who_request who_auth_mode trim
foreign_case_run = refl

authorize-Admitted_example : Admitted plain strict_env (anna ∷ []) (request "C1") anna_auth
authorize-Admitted_example =
    authorize-Admitted plain strict_env (anna ∷ []) (request "C1") anna_auth own_case_run

authorize-Refused_example :
    Refused plain strict_env
      (anna ∷ [])
      (request "C2")
      (answered (acl_refusal (resolved anna) "C2"))
authorize-Refused_example =
    authorize-Refused plain strict_env (anna ∷ []) (request "C2")
      (answered (acl_refusal (resolved anna) "C2")) foreign_case_run

-- The environment gives a disabled operator a new token, and leaves it disabled.
disabled_kept :
    map
      (λ op. op.disabled)
      (merge_env_operators plain 5
        (record { id = "anna"; name = none; token = "who_b"; roles = none; cases = none } ∷ [])
        (record anna { disabled = true } ∷ []))
    ≡ true ∷ []
unfolding merge_env_operators
disabled_kept = refl

abbrev new_rows : List OperatorRow
new_rows =
    record { id = "anna"; name = none; token = "who_b"; roles = none; cases = none }
    ∷ record { id = "ben"; name = none; token = "who_c"; roles = none; cases = none }
    ∷ []

merge_env_operators-standing_example :
    (added : List (String × Bool)) × (map standing
        (merge_env_operators plain 5 new_rows (anna ∷ []))
      ≡ map standing (anna ∷ []) ++ added)
    × All (λ s. s.1 ≡ false) added
merge_env_operators-standing_example = merge_env_operators-standing plain 5 new_rows (anna ∷ [])
