-- ===== src/Audit/Verify.antt =====
-- What `verify` reports about a ledger that something else than `append` has written.
use Prim.Native.String.{len}
use ocrowley_commons.Common.{
  Bool-cases, List, Result-cases, String, [], ap, arith, eq_iff, eq_refl, err, false, inl, inr, ok,
  refl, str_eq, sym, utf16_length, ℕ, ◌++◌, ◌↔◌, ◌∷◌, ◌≡◌, ◌≢◌, ◌⊎◌,
}
use ocrowley_commons.Audit.{
  AuditEntry, UnsignedEntry, broken_at, genesis, hashes_match, range_error, verify, verify_from,
}
use ocrowley_commons.Audit.Chain.{IsChained, final_hash, hashes_match-eq, hashes_match_self}

module _ {ℓ} {M : Type ℓ} (hash : UnsignedEntry M → String) where
  -- The first entry at which the chain fails: all before it are linked, and it has not the hash of
  -- its content or does not name the hash before it.
  pub record FirstBroken (n : ℕ) (es : List (AuditEntry M)) (previous : String) : Type ℓ where
    pub before : List (AuditEntry M)
    pub entry : AuditEntry M
    pub after : List (AuditEntry M)
    pub splits : es ≡ before ++ entry ∷ after
    pub linked : IsChained hash previous before
    pub numbered : entry.unsigned.sequence ≡ n
    pub fails :
        (entry.hash ≢ hash entry.unsigned)
        ⊎ (entry.unsigned.previous_hash ≢ final_hash hash previous before)

  broken_here :
      (e : AuditEntry M) (es : List (AuditEntry M)) (previous : String)
      → (e.hash ≢ hash e.unsigned) ⊎ (e.unsigned.previous_hash ≢ previous)
      → FirstBroken e.unsigned.sequence (e ∷ es) previous
  broken_here e es previous why = record {
    before = [];
    entry = e;
    after = es;
    splits = refl;
    linked = tt;
    numbered = refl;
    fails = why;
  }

  broken_later :
      (n : ℕ) (e : AuditEntry M) (es : List (AuditEntry M)) (previous : String)
      → e.hash ≡ hash e.unsigned
      → e.unsigned.previous_hash ≡ previous
      → FirstBroken n es e.hash
      → FirstBroken n (e ∷ es) previous
  broken_later n e es previous same names b = record {
    before = e ∷ b.before;
    entry = b.entry;
    after = b.after;
    splits = ap (◌∷◌ e) b.splits;
    linked = (same, names, b.linked);
    numbered = b.numbered;
    fails = b.fails;
  }

  mismatch : (s t : String) → hashes_match s t ≡ ok false → t ≢ s
  mismatch s t h e = cc (hashes_match_self s, ap (hashes_match s) e)

  verify_from_broken :
      (n : ℕ) (es : List (AuditEntry M)) (previous : String)
      → verify_from hash previous es ≡ ok (broken_at n)
      → FirstBroken n es previous
  unfolding verify_from
  verify_from_broken n [] previous h = cc
  verify_from_broken n (e ∷ es) previous h =
      elim (Result-cases (hashes_match (hash e.unsigned) e.hash)) [
        | inr (x, thrown) ↦ cc (rw (thrown, verify_from) at h)
        | inl (same, compared) ↦ elim (Bool-cases same) [
          | inr differs ↦
              let here : e.unsigned.sequence ≡ n = ground arith in
              rw (← here) (
                broken_here e es previous
                  (inl (mismatch (hash e.unsigned) e.hash (rw differs at compared))))
          | inl equal ↦ elim (Bool-cases (str_eq e.unsigned.previous_hash previous)) [
            | inr other ↦
                let here : e.unsigned.sequence ≡ n = ground arith in
                rw (← here) (
                  broken_here e es previous
                    (inr λ q. ground (arith, eq_iff e.unsigned.previous_hash previous)))
            | inl names ↦
                broken_later n e es previous
                  (sym (hashes_match-eq (hash e.unsigned) e.hash (rw equal at compared)))
                  ((eq_iff _ _).0 names) (verify_from_broken n es e.hash (ground arith))
          ]
        ]
      ]

  -- If `verify` reports a ledger as broken at n, the ledger has a first entry at which the chain
  -- fails, that entry carries the sequence number n, and every entry before it is linked to its
  -- predecessor and carries the hash of its content.
  pub verify-FirstBroken :
      (n : ℕ) (es : List (AuditEntry M))
      → verify hash es ≡ ok (broken_at n)
      → FirstBroken n es genesis
  unfolding verify
  verify-FirstBroken n es h = verify_from_broken n es genesis h

  -- The first entry at which `verify` fails, which has a hash of as many UTF-16 code units as that of
  -- its content, and another number of UTF-8 bytes; all before it are linked.
  pub record FirstThrowing (es : List (AuditEntry M)) (previous : String) : Type ℓ where
    pub before : List (AuditEntry M)
    pub entry : AuditEntry M
    pub after : List (AuditEntry M)
    pub splits : es ≡ before ++ entry ∷ after
    pub linked : IsChained hash previous before
    pub same_units : utf16_length (hash entry.unsigned) ≡ utf16_length entry.hash
    pub other_bytes : len (hash entry.unsigned) ≢ len entry.hash

  thrown_units :
      (s t : String)
      → hashes_match s t ≡ err range_error
      → (utf16_length s ≡ utf16_length t) × (len s ≢ len t)
  unfolding hashes_match
  thrown_units s t h = (ground arith, ground arith)

  verify_from_thrown :
      (es : List (AuditEntry M)) (previous : String)
      → verify_from hash previous es ≡ err range_error
      → FirstThrowing es previous
  unfolding verify_from
  verify_from_thrown [] previous h = cc
  verify_from_thrown (e ∷ es) previous h =
      elim (Result-cases (hashes_match (hash e.unsigned) e.hash)) [
        | inr (range_error, thrown) ↦
            let (units, bytes) = thrown_units (hash e.unsigned) e.hash thrown in
            record {
              before = [];
              entry = e;
              after = es;
              splits = refl;
              linked = tt;
              same_units = units;
              other_bytes = bytes;
            }
        | inl (same, compared) ↦ elim (Bool-cases same) [
          | inr differs ↦ ground arith
          | inl equal ↦ elim (Bool-cases (str_eq e.unsigned.previous_hash previous)) [
            | inr other ↦ ground arith
            | inl names ↦
                let t = verify_from_thrown es e.hash (ground arith) in
                record {
                  before = e ∷ t.before;
                  entry = t.entry;
                  after = t.after;
                  splits = ap (◌∷◌ e) t.splits;
                  linked = (
                    sym (hashes_match-eq (hash e.unsigned) e.hash (rw equal at compared)),
                    (eq_iff _ _).0 names,
                    t.linked,
                  );
                  same_units = t.same_units;
                  other_bytes = t.other_bytes;
                }
          ]
        ]
      ]

  throwing_here :
      (e : AuditEntry M) (before after : List (AuditEntry M)) (previous : String)
      → IsChained hash previous before
      → utf16_length (hash e.unsigned) ≡ utf16_length e.hash
      → len (hash e.unsigned) ≢ len e.hash
      → verify_from hash previous (before ++ e ∷ after) ≡ err range_error
  unfolding verify_from hashes_match
  throwing_here e [] after previous h same other = ground arith
  throwing_here e (x ∷ before) after previous h same other = ground (
    arith,
    eq_refl x.hash,
    eq_iff x.unsigned.previous_hash previous,
    throwing_here e before after x.hash h.2 same other,
  )

  -- `verify` throws a RangeError, and reports nothing, exactly when the first entry at which the chain
  -- fails stores a hash of as many UTF-16 code units as the hash of its content and of another number
  -- of UTF-8 bytes, while every entry before it is linked to its predecessor and carries the hash of
  -- its content.
  pub verify_throws_iff :
      (es : List (AuditEntry M)) → (verify hash es ≡ err range_error) ↔ FirstThrowing es genesis
  unfolding verify
  verify_throws_iff es = (
    verify_from_thrown es genesis,
    λ t.
        rw t.splits
          (throwing_here t.entry t.before t.after genesis t.linked t.same_units t.other_bytes),
  )
