-- ===== src/Policy/Construction.antt =====
-- The constructor of the policy engine: which lists of rules it takes, and what it keeps.
use mathlib.Core.List.{Perm}
use ocrowley_commons.Common.{
  All, Bool, IsSortedBy, List, String, [], arith, eq_iff, false, includes, is_ok, leb, none, ok,
  refl, sort_by-IsSortedBy, sort_by-perm, true, ◌↔◌, ◌∷◌, ◌≡◌,
}
use ocrowley_commons.Policy.{PolicyEngine, PolicyRule, check_ids, new_engine, rule_ids, rule_le}
use ocrowley_commons.Policy.Decision.{engine_rules}
use ocrowley_commons.Policy.Decisive.{IsCollation, rule_le-IsOrder}

-- No two rules share an id.
abbrev pub DistinctIds : List PolicyRule → Type 0
DistinctIds [] = Unit
DistinctIds (r ∷ rs) = (includes (rule_ids rs) r.id ≡ false) × DistinctIds rs

-- None of the ids has been seen.
Unseen : List String → List PolicyRule → Type 0
Unseen seen rs = All (λ r. includes seen r.id ≡ false) rs

Unseen-cons :
    (s : String) (seen : List String) (rs : List PolicyRule)
    → Unseen (s ∷ seen) rs ↔ ((includes (rule_ids rs) s ≡ false) × Unseen seen rs)
unfolding Unseen
Unseen-cons s seen [] = ground arith
Unseen-cons s seen (r ∷ rs) = ground (arith, Unseen-cons s seen rs, eq_iff s r.id, eq_iff r.id s)

check_ids-eq-none_iff :
    (seen : List String) (rs : List PolicyRule)
    → (check_ids seen rs ≡ none) ↔ (Unseen seen rs × DistinctIds rs)
unfolding check_ids Unseen
check_ids-eq-none_iff seen [] = ground arith
check_ids-eq-none_iff seen (r ∷ rs) =
    ground (arith, check_ids-eq-none_iff (r.id ∷ seen) rs, Unseen-cons r.id seen rs)

-- The constructor succeeds exactly when the ids are distinct.
new_engine-is_ok_iff :
    (id_le : String → String → Bool) (rules : List PolicyRule)
    → (is_ok (new_engine id_le rules) ≡ true) ↔ DistinctIds rules
unfolding new_engine Unseen
new_engine-is_ok_iff id_le rules = ground (arith, check_ids-eq-none_iff [] rules, unseen rules)
  where
    unseen : (rs : List PolicyRule) → All (λ r. includes [] r.id ≡ false) rs
    unseen [] = tt
    unseen (r ∷ rs) = (refl, unseen rs)

weaken :
    (id_le : String → String → Bool) (a : PolicyRule) (rs : List PolicyRule)
    → All (λ b. rule_le id_le a b ≡ true) rs
    → All (λ b. leb b.priority a.priority ≡ true) rs
weaken id_le a [] h = tt
weaken id_le a (r ∷ rs) h = (ground arith, weaken id_le a rs h.1)

by_priority :
    (id_le : String → String → Bool) (rs : List PolicyRule)
    → IsSortedBy (rule_le id_le) rs
    → IsSortedBy (λ a b. leb b.priority a.priority) rs
by_priority id_le [] s = tt
by_priority id_le (r ∷ rs) s = (weaken id_le r rs s.0, by_priority id_le rs s.1)

-- The constructor throws exactly when two rules share an id. Where it succeeds, and `localeCompare`
-- is a total preorder, the engine holds the given rules, each as often, with no rule behind one of
-- lower priority.
pub new_engine_lem :
    (id_le : String → String → Bool)
    → IsCollation id_le
    → (rules : List PolicyRule)
    → ((is_ok (new_engine id_le rules) ≡ true) ↔ DistinctIds rules)
      × ((e : PolicyEngine)
          → new_engine id_le rules ≡ ok e
          → Perm e.rules rules × IsSortedBy (λ a b. leb b.priority a.priority) e.rules)
new_engine_lem id_le o rules = (
  new_engine-is_ok_iff id_le rules,
  λ e built. rw (engine_rules id_le rules e built) (
    sort_by-perm (rule_le id_le) rules,
    by_priority id_le _ (sort_by-IsSortedBy (rule_le id_le) (rule_le-IsOrder id_le o) rules),
  ),
)
