-- ===== src/Osint/Auth/Merge.antt =====
-- What the operators of the environment may change in the operators on file.
use ocrowley_commons.Common.{
  All, All-append, Bool, Bool-cases, List, String, [], ap, append_assoc, append_nil, eq_refl, false,
  inl, inr, is_empty, map, refl, str_cases, sym, ℕ, ◌++◌, ◌||◌, ◌∙◌, ◌∷◌, ◌≡◌,
}
use ocrowley_commons.Osint.Auth.{
  External, OperatorRow, WhoOperatorRecord, merge_env_operators, merge_row, row_record,
}

-- Who an operator is, and whether it is disabled.
abbrev pub standing : WhoOperatorRecord → String × Bool
standing op = (op.id, op.disabled)

module _ (ext : External) (now : ℕ) where
  merge_row-standing :
      (row : OperatorRow) (operators : List WhoOperatorRecord)
      → (added : List (String × Bool)) × (map standing (merge_row ext now row operators)
          ≡ map standing operators ++ added)
        × All (λ s. s.1 ≡ false) added
  unfolding merge_row row_record
  merge_row-standing row [] = ((row.id, false) ∷ [], refl, (refl, tt))
  merge_row-standing row (op ∷ ops) =
      let (added, e, enabled) = merge_row-standing row ops in
      elim (str_cases op.id row.id) [
        | inl same ↦ (
          [],
          rw (merge_row, same, eq_refl row.id)
              (ap (λ xs. (row.id, op.disabled) ∷ xs) (sym (append_nil (map standing ops)))),
          tt,
        )
        | inr other ↦ (added, rw (merge_row, other) (ap (λ xs. standing op ∷ xs) e), enabled)
      ]

  -- Whatever rows the environment has, the operators on file keep their order, their ids and whether
  -- they are disabled; what is added comes after them and is enabled.
  pub merge_env_operators-standing :
      (rows : List OperatorRow) (operators : List WhoOperatorRecord)
      → (added : List (String × Bool)) × (map standing (merge_env_operators ext now rows operators)
          ≡ map standing operators ++ added)
        × All (λ s. s.1 ≡ false) added
  unfolding merge_env_operators
  merge_env_operators-standing [] operators = ([], sym (append_nil (map standing operators)), tt)
  merge_env_operators-standing (row ∷ rows) operators =
      elim (Bool-cases (is_empty row.id || is_empty row.token)) [
        | inl skipped ↦
            rw (merge_env_operators, skipped) (merge_env_operators-standing rows operators)
        | inr taken ↦
            let (first, e, ok_first) = merge_row-standing row operators in
            let (rest, e', ok_rest) =
              merge_env_operators-standing rows (merge_row ext now row operators) in
            (
              first ++ rest,
              rw (merge_env_operators, taken)
                  (e' ∙ ap (λ xs. xs ++ rest) e ∙ append_assoc (map standing operators) first rest),
              All-append _ first rest ok_first ok_rest,
            )
      ]
