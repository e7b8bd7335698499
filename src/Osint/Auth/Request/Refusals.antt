-- ===== src/Osint/Auth/Request/Refusals.antt =====
-- Why a request is refused.
use ocrowley_commons.Common.{
  Bool-cases, List, Memᴰ, Option, Option-cases, String, ap, arith, eq_iff, err, false, get_or, inl,
  inr, is_empty, none, not, refl, some, true, ◌&&◌, ◌∙◌, ◌≡◌, ◌≢◌, ◌⊎◌,
}
use ocrowley_commons.Osint.Auth.{
  External, ResolvedOperator, WhoOperatorRecord, hashes_equal, operator_may_access_case,
  operators_required, pin_still_required, resolve_operator, who_auth_mode,
}
use ocrowley_commons.Osint.Auth.Request.{
  AuthFailure, RequestInput, WhoEnv, acl_refusal, answered, authorize_who_request, case_refusal,
  check_case, expected_pin, extract_operator_token, extract_pin, operator_refusal, pin_asked,
  pin_failure, pin_matches, pin_refusal, resolve_case_ref_for_auth, uri_error,
}
use ocrowley_commons.Osint.Auth.Request.Admission.{
  Known, find_operator-none, resolve_operator-Known,
}

module _ (ext : External) (env : WhoEnv) (operators : List WhoOperatorRecord)
    (input : RequestInput) where
  abbrev case_of : String
  case_of = resolve_case_ref_for_auth ext env input.headers input.body_case input.query_case

  abbrev token_of : String
  token_of = extract_operator_token ext input.headers

  -- The reasons for which a request is refused, with the answer that each gets.
  pub data Refused : AuthFailure → Type 0 where
    bad_cookie :
        (get_or input.require_pin true && pin_still_required (who_auth_mode ext env.who_auth))
          ≡ true
        → extract_pin ext input.headers ≡ none
        → Refused uri_error
    wrong_pin :
        (got : String)
        → (get_or input.require_pin true && pin_still_required (who_auth_mode ext env.who_auth))
          ≡ true
        → extract_pin ext input.headers ≡ some got
        → (is_empty got ≡ true) ⊎ (got ≢ expected_pin ext env input)
        → Refused (answered pin_refusal)
    unknown_operator :
        operators_required (who_auth_mode ext env.who_auth) ≡ true
        → (is_empty token_of ≡ true)
          ⊎ ((op : WhoOperatorRecord)
              → Memᴰ op operators
              → op.disabled ≡ false
              → hashes_equal ext op.token_hash (ext.hash_token token_of) ≡ false)
        → Refused (answered operator_refusal)
    missing_case :
        get_or input.require_case true ≡ true
        → input.skip_case_acl ≡ false
        → is_empty case_of ≡ true
        → Refused (answered case_refusal)
    foreign_case :
        (who : ResolvedOperator)
        → Known ext token_of operators who
        → input.skip_case_acl ≡ false
        → operator_may_access_case who case_of ≡ false
        → Refused (answered (acl_refusal who case_of))

  mismatch :
      (got : String)
      → pin_matches ext env input got ≡ false
      → (is_empty got ≡ true) ⊎ (got ≢ expected_pin ext env input)
  unfolding pin_matches
  mismatch got h = elim (Bool-cases (is_empty got)) [
    | inl absent ↦ inl absent
    | inr given ↦ inr (λ e. let hit = (eq_iff got (expected_pin ext env input)).1 e in ground arith)
  ]

  pin-Refused : (r : AuthFailure) → pin_failure ext env input ≡ some r → Refused r
  unfolding pin_failure pin_asked
  pin-Refused r h = elim (Bool-cases (pin_asked ext env input)) [
    | inr free ↦ cc (rw (pin_failure, free) at h)
    | inl asked ↦ elim (Option-cases (extract_pin ext input.headers)) [
      | inl thrown ↦
          let same : r ≡ uri_error = cc (rw (pin_failure, asked, thrown) at h) in
          rw same (bad_cookie asked thrown)
      | inr (got, found) ↦ elim (Bool-cases (pin_matches ext env input got)) [
        | inl right ↦ cc (rw (pin_failure, asked, found, right) at h)
        | inr wrong ↦
            let same : r ≡ answered pin_refusal = cc (rw (pin_failure, asked, found, wrong) at h) in
            rw same (wrong_pin got asked found (mismatch got wrong))
      ]
    ]
  ]

  stranger-Refused :
      (r : AuthFailure)
      → r ≡ answered operator_refusal
      → operators_required (who_auth_mode ext env.who_auth) ≡ true
      → resolve_operator ext token_of operators ≡ none
      → Refused r
  unfolding resolve_operator
  stranger-Refused r same needed stranger = rw same (
      unknown_operator needed (elim (Bool-cases (is_empty token_of)) [
        | inl absent ↦ inl absent
        | inr given ↦ inr (find_operator-none ext token_of operators (ground arith))
      ]))

  case-Refused :
      (operator : Option ResolvedOperator) (r : AuthFailure)
      → ((who : ResolvedOperator) → operator ≡ some who → Known ext token_of operators who)
      → check_case ext env input operator case_of ≡ err r
      → Refused r
  unfolding check_case
  case-Refused none r known h =
      let same : r ≡ answered case_refusal = ground arith in
      rw same (missing_case (ground arith) (ground arith) (ground arith))
  case-Refused (some who) r known h =
      elim (Bool-cases
        (get_or input.require_case true && is_empty case_of && not input.skip_case_acl)) [
          | inl missing ↦
              let same : r ≡ answered case_refusal = ground arith in
              rw same (missing_case (ground arith) (ground arith) (ground arith))
          | inr given ↦
              let same : r ≡ answered (acl_refusal who case_of) = ground arith in
              rw same (foreign_case who (known who refl) (ground arith) (ground arith))
        ]

  -- A request that is refused is refused for one of five reasons, each with its own answer: the pin
  -- is asked for and the cookie's cannot be decoded, which throws; it is absent or wrong; an operator is asked for and there is no token, or no enabled
  -- operator on file has its hash; a case is asked for and there is none; or the operator of the
  -- token may not use the case.
  pub authorize-Refused :
      (r : AuthFailure) → authorize_who_request ext env operators input ≡ err r → Refused r
  unfolding authorize_who_request
  authorize-Refused r h = elim (Option-cases (pin_failure ext env input)) [
    | inr (failure, barred) ↦
        let same : failure ≡ r = cc (rw (authorize_who_request, barred) at h) in
        pin-Refused r (barred ∙ ap some same)
    | inl passes ↦ elim (Bool-cases (operators_required (who_auth_mode ext env.who_auth))) [
      | inr free ↦ case-Refused none r (λ who e. cc) (rw (authorize_who_request, passes, free) at h)
      | inl needed ↦ elim (Option-cases (resolve_operator ext token_of operators)) [
        | inl stranger ↦
            stranger-Refused r (cc (rw (authorize_who_request, passes, needed, stranger) at h))
              needed stranger
        | inr (who, found) ↦
            case-Refused (some who) r
              (λ w e. resolve_operator-Known ext token_of operators w (cc (found, e)))
              (rw (authorize_who_request, passes, needed, found) at h)
      ]
    ]
  ]
