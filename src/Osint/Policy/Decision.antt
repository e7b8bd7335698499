-- ===== src/Osint/Policy/Decision.antt =====
-- What the OSINT gate permits, action by action, and what it says when it refuses.
use ocrowley_commons.Common.{
  Bool, Option, Result, String, any, arith, err, false, get_or, if◌then◌else◌, includes, is_blank,
  none, not, ok, some, ◌≡◌,
}
use ocrowley_commons.Policy.{default_reason, development, production, staging}
use ocrowley_commons.Policy.Attributes.{operator_works, same_roles, working_roles}
use ocrowley_commons.Osint.Policy.{
  OsintAction, OsintAuthorization, OsintError, archive_recover, assert_osint_allowed, brief_export,
  enrich_person, policy_denied, probe_username, scan_footprint, scan_investigate, scan_passive,
}

abbrev has_working_role : OsintAuthorization → Bool
has_working_role auth = any (λ r. includes working_roles r) auth.roles

-- In production without the osint-operator role.
abbrev bars_probes : OsintAuthorization → Bool
bars_probes auth = elim (get_or auth.environment development) [
  | production ↦ not (includes auth.roles "osint-operator")
  | development ↦ false
  | staging ↦ false
]

abbrev pub ref_reason : String
ref_reason = "OSINT actions require a non-empty authorization reference."

abbrev investigate_reason : String
investigate_reason = "Investigate-mode OSINT requires investigator or counsel role."

abbrev probe_reason : String
probe_reason = "Production live probes require osint-operator role."

-- Why an action with a reference is refused, if it is.
abbrev pub objection : OsintAction → OsintAuthorization → Option String
objection scan_passive auth = none
objection brief_export auth = none
objection archive_recover auth = none
objection enrich_person auth = if has_working_role auth then none else some investigate_reason
objection scan_investigate auth =
    if has_working_role auth
    then (if bars_probes auth then some probe_reason else none)
    else some investigate_reason
objection scan_footprint auth =
    if bars_probes auth
    then some probe_reason
    else if has_working_role auth
    then none
    else some default_reason
objection probe_username auth =
    if bars_probes auth
    then some probe_reason
    else if has_working_role auth
    then none
    else some default_reason

abbrev pub verdict : OsintAction → OsintAuthorization → Result OsintError (Unit {0})
verdict action auth =
    if is_blank auth.authorization_ref
    then err (policy_denied action ref_reason)
    else elim (objection action auth) [ none ↦ ok tt | some why ↦ err (policy_denied action why) ]

-- In every locale the gate throws the denial for a missing reference if the reference is blank.
-- Otherwise it passes a passive scan, an export and an archive recovery; an enrichment only with
-- one of the three working roles; an investigation with such a role and, in production, the
-- osint-operator role; a footprint or a probe with the osint-operator role in production and one
-- of the working roles elsewhere; and what it throws carries the reason of the first rule, by
-- priority, that denies, or the default one.
pub assert_osint_allowed_lem :
    (id_le : String → String → Bool) (action : OsintAction) (auth : OsintAuthorization)
    → assert_osint_allowed id_le action auth ≡ verdict action auth
unfolding assert_osint_allowed
assert_osint_allowed_lem id_le scan_passive auth = ground arith
assert_osint_allowed_lem id_le action auth =
    ground (arith, same_roles auth.roles, operator_works auth.roles)
