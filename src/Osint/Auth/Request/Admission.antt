-- ===== src/Osint/Auth/Request/Admission.antt =====
-- Who gets past `authorizeWhoRequest`, and why the others do not.
use ocrowley_commons.Common.{
  Bool-cases, List, Memᴰ, Option, Option-cases, String, [], ap, arith, eq_iff, false, get_or,
  includes, includes_iff, inl, inr, is_blank, is_empty, none, not, ok, refl, some, sym, true, ◌&&◌,
  ◌||◌, ◌↔◌, ◌∙◌, ◌∷◌, ◌≡◌, ◌⊎◌,
}
use ocrowley_commons.Osint.Auth.{
  External, ResolvedOperator, WhoOperatorRecord, find_operator, hashes_equal,
  operator_may_access_case, operators_required, pin_still_required, resolve_operator, resolved,
  who_auth_mode,
}
use ocrowley_commons.Osint.Auth.Request.{
  AuthContext, RequestInput, WhoEnv, admitted, authorize_who_request, check_case, expected_pin,
  extract_operator_token, extract_pin, pin_asked, pin_failure, pin_matches,
  resolve_case_ref_for_auth,
}

-- An operator may work on a case that is not blank and that is listed, or when `*` is.
pub operator_may_access_case_iff :
    (op : ResolvedOperator) (case_ref : String)
    → (operator_may_access_case op case_ref ≡ true)
      ↔ ((is_blank case_ref ≡ false) × (Memᴰ "*" op.cases ⊎ Memᴰ case_ref op.cases))
unfolding operator_may_access_case
operator_may_access_case_iff op case_ref = (to, from)
  where
    to :
        operator_may_access_case op case_ref ≡ true
        → (is_blank case_ref ≡ false) × (Memᴰ "*" op.cases ⊎ Memᴰ case_ref op.cases)
    to h = elim (Bool-cases (includes op.cases "*")) [
      | inl star ↦ (ground arith, inl ((includes_iff op.cases "*").0 star))
      | inr no_star ↦ (ground arith, inr ((includes_iff op.cases case_ref).0 (ground arith)))
    ]

    from :
        (is_blank case_ref ≡ false) × (Memᴰ "*" op.cases ⊎ Memᴰ case_ref op.cases)
        → operator_may_access_case op case_ref ≡ true
    from (given, inl star) = let listed = (includes_iff op.cases "*").1 star in ground arith
    from (given, inr own) = let listed = (includes_iff op.cases case_ref).1 own in ground arith

module _ (ext : External) where
  -- An operator on file whose token this is.
  pub record Known (token : String) (operators : List WhoOperatorRecord) (who : ResolvedOperator)
      : Type 0 where
    pub record_of : WhoOperatorRecord
    pub on_file : Memᴰ record_of operators
    pub enabled : record_of.disabled ≡ false
    pub hash_matches : hashes_equal ext record_of.token_hash (ext.hash_token token) ≡ true
    pub same : who ≡ resolved record_of

  find_operator-Known :
      (token : String) (operators : List WhoOperatorRecord) (who : ResolvedOperator)
      → find_operator ext (ext.hash_token token) operators ≡ some who
      → Known token operators who
  unfolding find_operator
  find_operator-Known token [] who h = cc
  find_operator-Known token (op ∷ ops) who h =
      elim (Bool-cases
        (op.disabled || not (hashes_equal ext op.token_hash (ext.hash_token token)))) [
          | inl skipped ↦
              let k = find_operator-Known token ops who (ground arith) in
              record {
                record_of = k.record_of;
                on_file = Memᴰ.tail k.on_file;
                enabled = k.enabled;
                hash_matches = k.hash_matches;
                same = k.same;
              }
          | inr hit ↦ record {
            record_of = op;
            on_file = Memᴰ.head refl;
            enabled = ground arith;
            hash_matches = ground arith;
            same = ground arith;
          }
        ]

  pub resolve_operator-Known :
      (token : String) (operators : List WhoOperatorRecord) (who : ResolvedOperator)
      → resolve_operator ext token operators ≡ some who
      → Known token operators who
  unfolding resolve_operator
  resolve_operator-Known token operators who h =
      find_operator-Known token operators who (ground arith)

  pub find_operator-none :
      (token : String) (operators : List WhoOperatorRecord)
      → find_operator ext (ext.hash_token token) operators ≡ none
      → (op : WhoOperatorRecord) → Memᴰ op operators
      → op.disabled ≡ false
      → hashes_equal ext op.token_hash (ext.hash_token token) ≡ false
  unfolding find_operator
  find_operator-none token [] h op m live = elim m [ ]
  find_operator-none token (o ∷ os) h op (Memᴰ.head e) live =
      let on = rw e at live in rw e (ground arith)
  find_operator-none token (o ∷ os) h op (Memᴰ.tail m) live =
      find_operator-none token os (ground arith) op m live

  -- What an admission means.
  pub record Admitted (env : WhoEnv) (operators : List WhoOperatorRecord) (input : RequestInput)
      (auth : AuthContext) : Type 0 where
    pub pin_checked :
        (get_or input.require_pin true && pin_still_required (who_auth_mode ext env.who_auth))
          ≡ true
        → (extract_pin ext input.headers ≡ some (expected_pin ext env input))
          × (is_empty (expected_pin ext env input) ≡ false)
    pub operator_known :
        operators_required (who_auth_mode ext env.who_auth) ≡ true
        → (who : ResolvedOperator) × (auth.operator ≡ some who)
          × Known (extract_operator_token ext input.headers) operators who
    pub no_operator :
        operators_required (who_auth_mode ext env.who_auth) ≡ false → auth.operator ≡ none
    pub case_resolved :
        auth.case_ref
        ≡ resolve_case_ref_for_auth ext env input.headers input.body_case input.query_case
    pub case_given :
        get_or input.require_case true ≡ true
        → input.skip_case_acl ≡ false
        → is_empty auth.case_ref ≡ false
    pub case_permitted :
        (who : ResolvedOperator)
        → auth.operator ≡ some who
        → is_empty auth.case_ref ≡ false
        → input.skip_case_acl ≡ false
        → Memᴰ "*" who.cases ⊎ Memᴰ auth.case_ref who.cases

  check_case-ok :
      (env : WhoEnv) (input : RequestInput) (operator : Option ResolvedOperator) (case_ref : String)
      (auth : AuthContext)
      → check_case ext env input operator case_ref ≡ ok auth
      → (auth ≡ admitted ext env input operator case_ref)
        × (get_or input.require_case true ≡ true
            → input.skip_case_acl ≡ false
            → is_empty case_ref ≡ false)
        × ((who : ResolvedOperator)
            → operator ≡ some who
            → is_empty case_ref ≡ false
            → input.skip_case_acl ≡ false
            → operator_may_access_case who case_ref ≡ true)
  unfolding check_case
  check_case-ok env input none case_ref auth h = (ground arith, λ r s. ground arith, λ who e. cc)
  check_case-ok env input (some op) case_ref auth h =
      (ground arith, λ r s. ground arith, λ who e n s. ground arith)

  pin_matches-expected :
      (env : WhoEnv) (input : RequestInput) (got : String)
      → pin_matches ext env input got ≡ true
      → (got ≡ expected_pin ext env input) × (is_empty (expected_pin ext env input) ≡ false)
  unfolding pin_matches
  pin_matches-expected env input got h =
      let same : got ≡ expected_pin ext env input =
        (eq_iff got (expected_pin ext env input)).0 (ground arith) in
      (same, sym (ap is_empty same) ∙ ground arith)

  pin_failure-none :
      (env : WhoEnv) (input : RequestInput)
      → pin_failure ext env input ≡ none
      → pin_asked ext env input ≡ true
      → (extract_pin ext input.headers ≡ some (expected_pin ext env input))
        × (is_empty (expected_pin ext env input) ≡ false)
  unfolding pin_failure
  pin_failure-none env input h asked = elim (Option-cases (extract_pin ext input.headers)) [
    | inl thrown ↦ cc (rw (pin_failure, asked, thrown) at h)
    | inr (got, found) ↦ elim (Bool-cases (pin_matches ext env input got)) [
      | inl right ↦
          let (same, given) = pin_matches-expected env input got right in
          (found ∙ ap some same, given)
      | inr wrong ↦ cc (rw (pin_failure, asked, found, wrong) at h)
    ]
  ]

  -- An admission from the last two tests, for the operator that was found.
  admit :
      (env : WhoEnv) (operators : List WhoOperatorRecord) (input : RequestInput)
      (operator : Option ResolvedOperator) (auth : AuthContext)
      → pin_failure ext env input ≡ none
      → (operators_required (who_auth_mode ext env.who_auth) ≡ true
          → (who : ResolvedOperator) × (operator ≡ some who)
            × Known (extract_operator_token ext input.headers) operators who)
      → (operators_required (who_auth_mode ext env.who_auth) ≡ false → operator ≡ none)
      → check_case ext env input operator
          (resolve_case_ref_for_auth ext env input.headers input.body_case input.query_case)
        ≡ ok auth
      → Admitted env operators input auth
  admit env operators input operator auth passes known unknown h =
      let case_ref =
        resolve_case_ref_for_auth ext env input.headers input.body_case input.query_case in
      let (same, given, may) = check_case-ok env input operator case_ref auth h in
      let operator_same : auth.operator ≡ operator = ap (λ (a : AuthContext). a.operator) same in
      let case_same : auth.case_ref ≡ case_ref = ap (λ (a : AuthContext). a.case_ref) same in
      record {
        pin_checked = λ asked. pin_failure-none env input passes (unfold pin_asked in asked);
        operator_known = λ r. let (who, e, k) = known r in (who, operator_same ∙ e, k);
        no_operator = λ r. operator_same ∙ unknown r;
        case_resolved = case_same;
        case_given = λ r s. rw case_same (given r s);
        case_permitted = λ who e n s.
            rw case_same
              ((operator_may_access_case_iff who case_ref).0
                (may who (sym operator_same ∙ e) (rw case_same at n) s)).1;
      }

  -- A request that is admitted: where the mode and the call ask for the pin, the request has the
  -- expected one; where the mode asks for an operator, the operator is on file, not disabled, and
  -- has the hash of the request's token, and otherwise there is none; where a case is asked for,
  -- there is one; and unless the call skips it, the case is among those of the operator or they are
  -- all.
  pub authorize-Admitted :
      (env : WhoEnv) (operators : List WhoOperatorRecord) (input : RequestInput)
      (auth : AuthContext)
      → authorize_who_request ext env operators input ≡ ok auth
      → Admitted env operators input auth
  unfolding authorize_who_request
  authorize-Admitted env operators input auth h = elim (Option-cases (pin_failure ext env input)) [
    | inr (failure, barred) ↦ cc (rw (authorize_who_request, barred) at h)
    | inl passes ↦ elim (Bool-cases (operators_required (who_auth_mode ext env.who_auth))) [
      | inr free ↦
          admit env operators input none auth passes (λ r. cc) (λ r. refl)
            (rw (authorize_who_request, passes, free) at h)
      | inl needed ↦
          elim (Option-cases
            (resolve_operator ext (extract_operator_token ext input.headers) operators)) [
              | inl stranger ↦ cc (rw (authorize_who_request, passes, needed, stranger) at h)
              | inr (who, found) ↦
                  admit env operators input (some who) auth passes
                    (λ r. (
                      who,
                      refl,
                      resolve_operator-Known (extract_operator_token ext input.headers) operators
                          who found,
                    ))
                    (λ r. cc) (rw (authorize_who_request, passes, needed, found) at h)
            ]
    ]
  ]
