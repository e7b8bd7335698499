-- ===== src/Audit/Chain.antt =====
-- The ledgers that `verify` accepts, and that `append` keeps them so.
use ocrowley_commons.Common.{
  List, String, [], arith, eq_iff, eq_refl, length, ok, refl, sym, true, ℕ, ◌++◌, ◌+◌, ◌↔◌, ◌∷◌,
  ◌≡◌,
}
use ocrowley_commons.Audit.{
  AuditEntry, AuditEntryInput, UnsignedEntry, append, append_all, genesis, hashes_match, last_hash,
  next_entry, valid, verify, verify_from,
}

pub hashes_match_self : (s : String) → hashes_match s s ≡ ok true
unfolding hashes_match
hashes_match_self s = ground (arith, eq_refl s)

pub hashes_match-eq : (s t : String) → hashes_match s t ≡ ok true → s ≡ t
unfolding hashes_match
hashes_match-eq s t h = ground (arith, eq_iff s t)

module _ {ℓ} {M : Type ℓ} (hash : UnsignedEntry M → String) where
  -- Every entry carries its own hash and names the one before it.
  abbrev pub IsChained : String → List (AuditEntry M) → Type ℓ
  IsChained previous [] = Unit
  IsChained previous (e ∷ es) =
      (e.hash ≡ hash e.unsigned) × (e.unsigned.previous_hash ≡ previous) × IsChained e.hash es

  verify_from_sound :
      (previous : String) (es : List (AuditEntry M))
      → verify_from hash previous es ≡ ok valid
      → IsChained previous es
  unfolding verify_from
  verify_from_sound previous [] h = tt
  verify_from_sound previous (e ∷ es) h = ground (
    arith,
    hashes_match-eq (hash e.unsigned) e.hash,
    eq_iff e.unsigned.previous_hash previous,
    verify_from_sound e.hash es,
  )

  verify_from_complete :
      (previous : String) (es : List (AuditEntry M))
      → IsChained previous es
      → verify_from hash previous es ≡ ok valid
  unfolding verify_from
  verify_from_complete previous [] h = refl
  verify_from_complete previous (e ∷ es) h = ground (
    arith,
    hashes_match_self e.hash,
    eq_iff e.unsigned.previous_hash previous,
    verify_from_complete e.hash es,
  )

  pub verify_iff : (es : List (AuditEntry M)) → (verify hash es ≡ ok valid) ↔ IsChained genesis es
  unfolding verify
  verify_iff es = (verify_from_sound genesis es, verify_from_complete genesis es)

  -- The hash that the entry after `es` has to name.
  abbrev pub final_hash : String → List (AuditEntry M) → String
  final_hash previous [] = previous
  final_hash previous (e ∷ es) = final_hash e.hash es

  pub IsChained-append :
      (previous : String) (es : List (AuditEntry M)) (e : AuditEntry M)
      → IsChained previous es
      → e.hash ≡ hash e.unsigned
      → e.unsigned.previous_hash ≡ final_hash previous es
      → IsChained previous (es ++ e ∷ [])
  IsChained-append previous [] e h same names = (same, names, tt)
  IsChained-append previous (x ∷ es) e h same names =
      (h.0, h.1, IsChained-append x.hash es e h.2 same names)

pub final_hash-last_hash {ℓ} :
    {M : Type ℓ} (hash : UnsignedEntry M → String) (es : List (AuditEntry M))
    → final_hash hash genesis es ≡ last_hash es
final_hash-last_hash hash [] = refl
final_hash-last_hash hash (e ∷ []) = refl
final_hash-last_hash hash (e ∷ f ∷ es) = final_hash-last_hash hash (f ∷ es)

module _ {ℓ} {M : Type ℓ} (hash : UnsignedEntry M → String) where
  pub append-IsChained :
      (es : List (AuditEntry M)) (input : AuditEntryInput M)
      → IsChained hash genesis es
      → IsChained hash genesis (append hash es input).0
  unfolding append
  append-IsChained es input h =
      IsChained-append hash genesis es _ h refl (sym (final_hash-last_hash hash es))

  append_all-IsChained :
      (es : List (AuditEntry M)) (inputs : List (AuditEntryInput M))
      → IsChained hash genesis es
      → IsChained hash genesis (append_all hash es inputs)
  unfolding append_all
  append_all-IsChained es [] h = h
  append_all-IsChained es (i ∷ is) h =
      append_all-IsChained (append hash es i).0 is (append-IsChained es i h)

  -- The entries' sequence numbers, from the one after `n`.
  abbrev pub IsNumbered : ℕ → List (AuditEntry M) → Type 0
  IsNumbered n [] = Unit
  IsNumbered n (e ∷ es) = (e.unsigned.sequence ≡ n + 1) × IsNumbered (n + 1) es

  IsNumbered-append :
      (n : ℕ) (es : List (AuditEntry M)) (e : AuditEntry M)
      → IsNumbered n es
      → e.unsigned.sequence ≡ n + length es + 1
      → IsNumbered n (es ++ e ∷ [])
  IsNumbered-append n [] e h same = (omega arith, tt)
  IsNumbered-append n (x ∷ es) e h same = (h.0, IsNumbered-append (n + 1) es e h.1 (omega arith))

  append_all-IsNumbered :
      (es : List (AuditEntry M)) (inputs : List (AuditEntryInput M))
      → IsNumbered 0 es
      → IsNumbered 0 (append_all hash es inputs)
  unfolding append_all append
  append_all-IsNumbered es [] h = h
  append_all-IsNumbered es (i ∷ is) h =
      append_all-IsNumbered (append hash es i).0 is
        (IsNumbered-append 0 es (next_entry hash es i) h (unfold next_entry in omega arith))

  -- After any appends to a new ledger, whatever the hash function: `verify` returns that it is
  -- valid, and the entries' sequence numbers are 1, 2, 3 and so on.
  pub verify-append_all :
      (inputs : List (AuditEntryInput M))
      → (verify hash (append_all hash [] inputs) ≡ ok valid)
        × IsNumbered 0 (append_all hash [] inputs)
  verify-append_all inputs = (
    (verify_iff hash (append_all hash [] inputs)).1 (append_all-IsChained [] inputs tt),
    append_all-IsNumbered [] inputs tt,
  )
