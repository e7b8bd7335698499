-- ===== src/Audit/Tests.antt =====
-- The ledger at concrete entries, with a toy hash that a reader can follow.
use Prim.Native.String
use Prim.Native.String.{len}
use ocrowley_commons.Common.{
  Memᴰ, String, [], ap, arith, eq_iff, err, none, ok, refl, utf16_length, ◌↔◌, ◌∷◌, ◌≡◌,
}
use ocrowley_commons.Audit.{
  AuditEntry, AuditEntryInput, UnsignedEntry, append_all, genesis, hashes_match, range_error, valid,
  verify, verify_from, who_requested,
}
use ocrowley_commons.Audit.Chain.{IsNumbered, verify-append_all}
use ocrowley_commons.Audit.Verify.{
  FirstBroken, FirstThrowing, verify-FirstBroken, verify_throws_iff,
}
use ocrowley_commons.Audit.Tamper.{NoCollision, NotGenesis, verify_determined}

abbrev requested : AuditEntryInput (Unit {0})
requested = record {
  actor_id = "ann";
  action = who_requested;
  resource_type = "who.job";
  resource_id = "id_1";
  occurred_at = "2026-01-01T00:00:00.000Z";
  metadata = none;
}

-- A hash that joins an entry's resource id to the hash before it.
abbrev toy_hash : UnsignedEntry (Unit {0}) → String
toy_hash u = String.◌++◌ u.input.resource_id u.previous_hash

-- An entry whose stored hash has another character.
abbrev forged : AuditEntry (Unit {0})
forged = record {
  unsigned = record { input = requested; sequence = 1; previous_hash = genesis };
  hash = "id_1GENESIé";
}

verify-append_all_example :
    (verify toy_hash (append_all toy_hash [] (requested ∷ requested ∷ [])) ≡ ok valid)
    × IsNumbered toy_hash 0 (append_all toy_hash [] (requested ∷ requested ∷ []))
verify-append_all_example = verify-append_all toy_hash (requested ∷ requested ∷ [])

verify_throws_iff_example :
    (verify toy_hash (forged ∷ []) ≡ err range_error) ↔ FirstThrowing toy_hash (forged ∷ []) genesis
verify_throws_iff_example = verify_throws_iff toy_hash (forged ∷ [])

forged_thrown : verify toy_hash (forged ∷ []) ≡ err range_error
unfolding verify verify_from hashes_match utf16_length
forged_thrown = refl

-- A ledger whose first entry was renumbered and rehashed, and whose second entry was not.
abbrev second : AuditEntry (Unit {0})
second = record {
  unsigned = record { input = requested; sequence = 2; previous_hash = "stale" };
  hash = "id_1stale";
}

abbrev first : AuditEntry (Unit {0})
first = record {
  unsigned = record { input = requested; sequence = 1; previous_hash = genesis };
  hash = "id_1GENESIS";
}

verify-FirstBroken_example : FirstBroken toy_hash 2 (first ∷ second ∷ []) genesis
unfolding verify verify_from hashes_match
verify-FirstBroken_example = verify-FirstBroken toy_hash 2 (first ∷ second ∷ []) refl

no_collision : NoCollision toy_hash (first ∷ []) (first ∷ [])
no_collision e f (Memᴰ.head p) (Memᴰ.head q) h = cc
no_collision e f (Memᴰ.head p) (Memᴰ.tail n) h = elim n [ ]
no_collision e f (Memᴰ.tail m) n h = elim m [ ]

not_genesis : NotGenesis toy_hash (first ∷ [])
not_genesis e (Memᴰ.head p) h =
    let same : toy_hash e.unsigned ≡ toy_hash first.unsigned =
      ap (λ (x : AuditEntry (Unit {0})). toy_hash x.unsigned) p in
    ground (arith, eq_iff "id_1GENESIS" "GENESIS")
not_genesis e (Memᴰ.tail m) h = elim m [ ]

verify_determined_example : first ∷ [] ≡ first ∷ []
unfolding verify verify_from hashes_match
verify_determined_example =
    verify_determined toy_hash (first ∷ []) (first ∷ []) refl refl refl no_collision not_genesis
      not_genesis
