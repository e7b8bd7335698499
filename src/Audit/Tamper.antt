-- ===== src/Audit/Tamper.antt =====
-- Tamper evidence: the last hash of a ledger stands for all of it.
use ocrowley_commons.Common.{List, Memᴰ, String, [], ap, inl, inr, ok, refl, ◌∷◌, ◌≡◌, ◌≢◌, ◌⊎◌}
use ocrowley_commons.Audit.{AuditEntry, UnsignedEntry, genesis, last_hash, valid, verify}
use ocrowley_commons.Audit.Chain.{IsChained, final_hash, final_hash-last_hash, verify_iff}
use mathlib.Core.List.{reverse, reverse_aux, reverse-reverse}
use mathlib.Core.Path.{ap₂}

module _ {ℓ} {M : Type ℓ} (hash : UnsignedEntry M → String) where
  -- A ledger read from its end, with the hash that the next entry would name.
  data Linked : List (AuditEntry M) → String → Type ℓ where
    empty : {h : String} → h ≡ genesis → Linked [] h
    link :
        {es : List (AuditEntry M)} {previous : String} (e : AuditEntry M) (h : String)
        → Linked es previous
        → e.unsigned.previous_hash ≡ previous
        → e.hash ≡ hash e.unsigned
        → e.hash ≡ h
        → Linked (e ∷ es) h

  IsChained-Linked :
      (es back : List (AuditEntry M)) (previous : String)
      → Linked back previous
      → IsChained hash previous es
      → Linked (reverse_aux es back) (final_hash hash previous es)
  IsChained-Linked [] back previous l c = l
  IsChained-Linked (e ∷ es) back previous l c =
      IsChained-Linked es (e ∷ back) e.hash (link e e.hash l c.1 c.0 refl) c.2

  -- No entry of the first ledger and entry of the second have one hash and different contents.
  abbrev pub NoCollision : List (AuditEntry M) → List (AuditEntry M) → Type ℓ
  NoCollision es fs =
      (e f : AuditEntry M)
      → Memᴰ e es
      → Memᴰ f fs
      → hash e.unsigned ≡ hash f.unsigned
      → e.unsigned ≡ f.unsigned

  -- No entry's content has the hash "GENESIS".
  abbrev pub NotGenesis : List (AuditEntry M) → Type ℓ
  NotGenesis es = (e : AuditEntry M) → Memᴰ e es → hash e.unsigned ≢ genesis

  Linked-determined :
      (es fs : List (AuditEntry M)) (h : String)
      → Linked es h
      → Linked fs h
      → NoCollision es fs
      → NotGenesis es
      → NotGenesis fs
      → es ≡ fs
  Linked-determined [] [] h (empty _) (empty _) nc ge gf = refl
  Linked-determined [] (f ∷ fs) h (empty g) (link _ _ l names own same) nc ge gf =
      absurd (gf f (Memᴰ.head refl) (cc))
  Linked-determined (e ∷ es) [] h (link _ _ l names own same) (empty g) nc ge gf =
      absurd (ge e (Memᴰ.head refl) (cc))
  Linked-determined (e ∷ es) (f ∷ fs) h (link {previous = p} _ _ l names own same)
        (link {previous = q} _ _ k names' own' same') nc ge gf =
      let content = nc e f (Memᴰ.head refl) (Memᴰ.head refl) (cc) in
      let head : e ≡ f = cc in
      let before : q ≡ p = cc (ap (λ (u : UnsignedEntry M). u.previous_hash) content) in
      let rest =
        Linked-determined es fs p l (rw before at k) (λ x y m n. nc x y (Memᴰ.tail m) (Memᴰ.tail n))
          (λ x m. ge x (Memᴰ.tail m)) (λ x m. gf x (Memᴰ.tail m)) in
      ap₂ ◌∷◌ head rest

  mem-reverse_aux :
      (es back : List (AuditEntry M)) (x : AuditEntry M)
      → Memᴰ x (reverse_aux es back)
      → Memᴰ x es ⊎ Memᴰ x back
  mem-reverse_aux [] back x m = inr m
  mem-reverse_aux (e ∷ es) back x m = elim (mem-reverse_aux es (e ∷ back) x m) [
    | inl n ↦ inl (Memᴰ.tail n)
    | inr n ↦ put_back n
  ]
    where
      put_back : Memᴰ x (e ∷ back) → Memᴰ x (e ∷ es) ⊎ Memᴰ x back
      put_back (Memᴰ.head q) = inl (Memᴰ.head q)
      put_back (Memᴰ.tail k) = inr k

  mem-reverse : (es : List (AuditEntry M)) (x : AuditEntry M) → Memᴰ x (reverse es) → Memᴰ x es
  mem-reverse es x m = elim (mem-reverse_aux es [] x m) [ inl n ↦ n | inr n ↦ elim n [ ] ]

  -- If `verify` accepts two ledgers that end in one hash, and neither a collision between an entry
  -- of the one and an entry of the other nor the hash "GENESIS" occurs, the two ledgers are the same
  -- in every entry and in their length.
  pub verify_determined :
      (es fs : List (AuditEntry M))
      → verify hash es ≡ ok valid
      → verify hash fs ≡ ok valid
      → last_hash es ≡ last_hash fs
      → NoCollision es fs
      → NotGenesis es
      → NotGenesis fs
      → es ≡ fs
  verify_determined es fs v w same nc ge gf =
      let l = IsChained-Linked es [] genesis (empty refl) ((verify_iff hash es).0 v) in
      let k = IsChained-Linked fs [] genesis (empty refl) ((verify_iff hash fs).0 w) in
      let ends : final_hash hash genesis fs ≡ final_hash hash genesis es =
        cc (final_hash-last_hash hash es, final_hash-last_hash hash fs) in
      let back =
        Linked-determined (reverse es) (reverse fs) (final_hash hash genesis es) l (rw ends at k)
          (λ x y m n. nc x y (mem-reverse es x m) (mem-reverse fs y n))
          (λ x m. ge x (mem-reverse es x m)) (λ x m. gf x (mem-reverse fs x m)) in
      cc (ap reverse back, reverse-reverse es, reverse-reverse fs)
