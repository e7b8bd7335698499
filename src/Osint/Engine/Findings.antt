-- ===== src/Osint/Engine/Findings.antt =====
-- The findings of the evidence: one entry for every entity, with its items and no others.
use ocrowley_commons.Common.{
  All, All-append, Bool, Bool-cases, DistinctKeys, DistinctKeys-append, List, String, [], ap,
  append_assoc, append_nil, arith, eq_iff, eq_refl, false, filter, if_false, if_true, if◌then◌else◌,
  includes, inl, inr, length, length-map, map, not, refl, str_cases, str_eq, sym, true, ◌++◌, ◌||◌,
  ◌∙◌, ◌∷◌, ◌≡◌,
}
use ocrowley_commons.Osint.Engine.{
  EntityFindings, Groups, OsintEvidenceItem, add_seeds, findings_of, group_entity, push_item,
  push_items, snippet_of, to_findings,
}
use ocrowley_commons.Osint.Refinement.{RefinementSeed}

abbrev pub of_entity : String → OsintEvidenceItem → Bool
of_entity e i = str_eq i.entity e

-- The items of one entity; "*" stands for none.
abbrev pub named_item : OsintEvidenceItem → Bool
named_item i = not (str_eq i.entity "*")

abbrev Covered : Groups → OsintEvidenceItem → Type 0
Covered groups i = includes (map group_entity groups) i.entity ≡ true

abbrev Exact : List OsintEvidenceItem → String × List OsintEvidenceItem → Type 0
Exact seen g = g.1 ≡ filter (of_entity g.0) seen

-- The groups of the items so far.
record IsGrouping (seen : List OsintEvidenceItem) (groups : Groups) : Type 0 where
  distinct : DistinctKeys group_entity groups
  exact : All (Exact seen) groups
  covers : All (Covered groups) seen

push_item-includes :
    (item : OsintEvidenceItem) (groups : Groups) (e : String)
    → includes (map group_entity (push_item item groups)) e
      ≡ (includes (map group_entity groups) e || str_eq item.entity e)
unfolding push_item
push_item-includes item [] e = ground arith
push_item-includes item ((f, items) ∷ groups) e = ground (
  arith,
  eq_iff f item.entity,
  eq_iff f e,
  eq_iff item.entity e,
  push_item-includes item groups e,
)

push_item-DistinctKeys :
    (item : OsintEvidenceItem) (groups : Groups)
    → DistinctKeys group_entity groups
    → DistinctKeys group_entity (push_item item groups)
unfolding push_item
push_item-DistinctKeys item [] d = (refl, tt)
push_item-DistinctKeys item ((f, items) ∷ groups) d = elim (Bool-cases (str_eq f item.entity)) [
  | inl same ↦ rw (push_item, same) d
  | inr other ↦
      rw (push_item, other)
        (
          ground
              (arith, push_item-includes item groups f, eq_iff item.entity f, eq_iff f item.entity),
          push_item-DistinctKeys item groups d.1,
        )
]

filter-snoc :
    (e : String) (seen : List OsintEvidenceItem) (item : OsintEvidenceItem)
    → filter (of_entity e) (seen ++ item ∷ []) ≡ (
        if str_eq item.entity e
        then filter (of_entity e) seen ++ item ∷ []
        else filter (of_entity e) seen)
filter-snoc e [] item = ground arith
filter-snoc e (i ∷ seen) item = ground (arith, filter-snoc e seen item)

-- Groups of other entities stay exact.
Exact-skip :
    (seen : List OsintEvidenceItem) (item : OsintEvidenceItem) (groups : Groups)
    → includes (map group_entity groups) item.entity ≡ false
    → All (Exact seen) groups
    → All (Exact (seen ++ item ∷ [])) groups
Exact-skip seen item [] apart h = tt
Exact-skip seen item ((f, items) ∷ groups) apart h = (
  h.0
      ∙ sym (
          filter-snoc f seen item
          ∙ if_false (str_eq item.entity f) _ _
              (ground (arith, eq_iff f item.entity, eq_iff item.entity f))),
  Exact-skip seen item groups (ground arith) h.1,
)

push_item-Exact :
    (seen : List OsintEvidenceItem) (item : OsintEvidenceItem) (groups : Groups)
    → (includes (map group_entity groups) item.entity ≡ false
        → filter (of_entity item.entity) seen ≡ [])
    → DistinctKeys group_entity groups
    → All (Exact seen) groups
    → All (Exact (seen ++ item ∷ [])) (push_item item groups)
unfolding push_item
push_item-Exact seen item [] fresh d h = (
  sym (
      filter-snoc item.entity seen item
      ∙ if_true _ _ _ (eq_refl item.entity)
      ∙ ap (λ xs. xs ++ item ∷ []) (fresh refl)),
  tt,
)
push_item-Exact seen item ((f, items) ∷ groups) fresh d h = elim (str_cases f item.entity) [
  | inl same ↦
      rw (push_item, same, eq_refl item.entity)
        (
          ap (λ xs. xs ++ item ∷ []) (rw same at h.0)
              ∙ sym (filter-snoc item.entity seen item ∙ if_true _ _ _ (eq_refl item.entity)),
          Exact-skip seen item groups (rw same at d.0) h.1,
        )
  | inr other ↦
      rw (push_item, other)
        (
          (Exact-skip seen item ((f, items) ∷ []) (ground arith) (h.0, tt)).0,
          push_item-Exact seen item groups (λ gone. fresh (ground arith)) d.1 h.1,
        )
]

none_of_entity :
    (keys : List String) (e : String) (seen : List OsintEvidenceItem)
    → All (λ i. includes keys i.entity ≡ true) seen
    → includes keys e ≡ false
    → filter (of_entity e) seen ≡ []
none_of_entity keys e [] h gone = refl
none_of_entity keys e (i ∷ seen) h gone = elim (str_cases i.entity e) [
  | inl same ↦ let clash : includes keys e ≡ true = rw same at h.0 in cc
  | inr other ↦ rw other (none_of_entity keys e seen h.1 gone)
]

covers-grow :
    (item : OsintEvidenceItem) (groups : Groups) (seen : List OsintEvidenceItem)
    → All (Covered groups) seen
    → All (Covered (push_item item groups)) (seen ++ item ∷ [])
covers-grow item groups [] h =
    (ground (arith, push_item-includes item groups item.entity, eq_refl item.entity), tt)
covers-grow item groups (i ∷ seen) h =
    (ground (arith, push_item-includes item groups i.entity), covers-grow item groups seen h.1)

push_item-IsGrouping :
    (seen : List OsintEvidenceItem) (item : OsintEvidenceItem) (groups : Groups)
    → IsGrouping seen groups
    → IsGrouping (seen ++ item ∷ []) (push_item item groups)
push_item-IsGrouping seen item groups g = record {
  distinct = push_item-DistinctKeys item groups g.distinct;
  exact =
      push_item-Exact seen item groups
        (none_of_entity (map group_entity groups) item.entity seen g.covers) g.distinct g.exact;
  covers = covers-grow item groups seen g.covers;
}

push_items-IsGrouping :
    (seen items : List OsintEvidenceItem) (groups : Groups)
    → IsGrouping seen groups
    → IsGrouping (seen ++ filter named_item items) (push_items items groups)
unfolding push_items
push_items-IsGrouping seen [] groups g = rw (append_nil seen) g
push_items-IsGrouping seen (item ∷ items) groups g = elim (Bool-cases (str_eq item.entity "*")) [
  | inl star ↦ rw (push_items, star) (push_items-IsGrouping seen items groups g)
  | inr given ↦
      rw (push_items, given)
        (rw (← append_assoc seen (item ∷ []) (filter named_item items)) (
          push_items-IsGrouping (seen ++ item ∷ []) items (push_item item groups)
            (push_item-IsGrouping seen item groups g)))
]

DistinctKeys-snoc :
    (groups : Groups) (e : String)
    → DistinctKeys group_entity groups
    → includes (map group_entity groups) e ≡ false
    → DistinctKeys group_entity (groups ++ (e, []) ∷ [])
DistinctKeys-snoc groups e d gone =
    DistinctKeys-append group_entity groups ((e, []) ∷ []) d (refl, tt) (gone, tt)

-- The seeds start groups without items.
add_seeds-IsGrouping :
    (seeds : List RefinementSeed) (groups : Groups)
    → IsGrouping [] groups
    → IsGrouping [] (add_seeds seeds groups)
unfolding add_seeds
add_seeds-IsGrouping [] groups g = g
add_seeds-IsGrouping (seed ∷ seeds) groups g =
    elim (Bool-cases (includes (map group_entity groups) seed.value)) [
      | inl old ↦ rw (add_seeds, old) (add_seeds-IsGrouping seeds groups g)
      | inr new ↦
          rw (add_seeds, new)
            (add_seeds-IsGrouping seeds (groups ++ (seed.value, []) ∷ []) (record {
              distinct = DistinctKeys-snoc groups seed.value g.distinct new;
              exact = All-append (Exact []) groups ((seed.value, []) ∷ []) g.exact (refl, tt);
              covers = tt;
            }))
    ]

abbrev pub finding_entity : EntityFindings → String
finding_entity f = f.entity

-- A finding lists all items of its entity, in the order of the evidence, and counts them.
abbrev pub IsFinding : List OsintEvidenceItem → EntityFindings → Type 0
IsFinding evidence f =
    (f.findings ≡ map snippet_of (filter (of_entity f.entity) (filter named_item evidence)))
    × (f.kept_count ≡ length f.findings)
    × (f.query_count ≡ f.kept_count)

findings-All :
    (evidence : List OsintEvidenceItem) (groups : Groups)
    → All (Exact (filter named_item evidence)) groups
    → All (IsFinding evidence) (map findings_of groups)
findings-All evidence [] h = tt
findings-All evidence ((e, items) ∷ groups) h = (
  (ap (map snippet_of) h.0, sym (length-map snippet_of items), refl),
  findings-All evidence groups h.1,
)

entities-map :
    (groups : Groups) → map finding_entity (map findings_of groups) ≡ map group_entity groups
entities-map [] = refl
entities-map (g ∷ groups) = ap (◌∷◌ g.0) (entities-map groups)

findings-DistinctKeys :
    (groups : Groups)
    → DistinctKeys group_entity groups
    → DistinctKeys finding_entity (map findings_of groups)
findings-DistinctKeys [] d = tt
findings-DistinctKeys (g ∷ groups) d = (rw entities-map d.0, findings-DistinctKeys groups d.1)

-- The findings of any evidence and seeds: no entity has two, each lists and counts the items of its
-- entity, and every item but those of "*" is of an entity that has one.
pub to_findings_lem :
    (evidence : List OsintEvidenceItem) (seeds : List RefinementSeed)
    → DistinctKeys finding_entity (to_findings evidence seeds)
      × All (IsFinding evidence) (to_findings evidence seeds)
      × All
          (λ i. includes (map finding_entity (to_findings evidence seeds)) i.entity ≡ true)
          (filter named_item evidence)
unfolding to_findings
to_findings_lem evidence seeds =
    let groups = push_items evidence (add_seeds seeds []) in
    let empty : IsGrouping [] [] = record { distinct = tt; exact = tt; covers = tt } in
    let g =
      push_items-IsGrouping [] evidence (add_seeds seeds [])
        (add_seeds-IsGrouping seeds [] empty) in
    (
      findings-DistinctKeys groups g.distinct,
      findings-All evidence groups g.exact,
      rw (entities-map groups) g.covers,
    )
