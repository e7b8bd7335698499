-- ===== src/Policy/Attributes.antt =====
-- Readings of a context's attributes and roles that the OSINT and the dark-web rules share
-- (packages/osint/src/policy.ts, packages/darkweb/src/policy.ts).
use ocrowley_commons.Common.{
  Bool, List, Option, String, [], any, arith, eq_iff, if◌then◌else◌, includes, is_blank, none, not,
  refl, some, str_eq, true, ◌∷◌, ◌≡◌,
}
use ocrowley_commons.Policy.{Attribute, PolicyContext, flag, text}

abbrev pub attribute : String → List (String × Attribute) → Option Attribute
attribute k [] = none
attribute k ((j, v) ∷ rest) = if str_eq j k then some v else attribute k rest

-- `String(value ?? '')`.
abbrev pub attribute_text : Option Attribute → String
attribute_text none = ""
attribute_text (some (text s)) = s
attribute_text (some (flag b)) = if b then "true" else "false"

-- `Boolean(String(c.attributes?.authorizationRef ?? '').trim())`.
abbrev pub has_ref : PolicyContext → Bool
has_ref c = not (is_blank (attribute_text (attribute "authorizationRef" c.attributes)))

-- `['investigator', 'counsel', 'osint-operator'].includes(r)`, in the orders that the files write.
abbrev pub investigating_roles : List String
investigating_roles = "investigator" ∷ "counsel" ∷ "osint-operator" ∷ []

abbrev pub working_roles : List String
working_roles = "osint-operator" ∷ "investigator" ∷ "counsel" ∷ []

abbrev pub some_role : List String → PolicyContext → Bool
some_role allowed c = any (λ r. includes allowed r) c.roles

pub operator_works :
    (roles : List String)
    → includes roles "osint-operator" ≡ true
    → any (λ r. includes working_roles r) roles ≡ true
operator_works [] h = cc
operator_works (r ∷ rs) h =
    ground (arith, eq_iff r "osint-operator", eq_iff "osint-operator" r, operator_works rs)

pub same_roles :
    (roles : List String)
    → any (λ r. includes investigating_roles r) roles ≡ any (λ r. includes working_roles r) roles
same_roles [] = refl
same_roles (r ∷ rs) = ground (arith, same_roles rs)
