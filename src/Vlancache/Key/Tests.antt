-- ===== src/Vlancache/Key/Tests.antt =====
-- plugins/vlancache/key.go: tests, and the theorem at a concrete input.
use bramble_gate.Prelude.{ℕ, ◌≡◌, refl, true, false, [], ◌∷◌, codes, arith}
use bramble_gate.Vlancache.Key.{fnv_write, direct_bytes}
use bramble_gate.Vlancache.Key.Bytes.{NoZero, direct_bytes-injective}

-- The bytes of a direct key for A records: flags, type, bucket, separator, name.
direct_bytes_lan :
    direct_bytes (codes "lan") (codes "a.") 1 true false
    ≡ 1 ∷ 0 ∷ 0 ∷ 1 ∷ 108 ∷ 97 ∷ 110 ∷ 0 ∷ 97 ∷ 46 ∷ []
unfolding direct_bytes
direct_bytes_lan = refl

-- FNV-1 of the empty string and of "a", as published.
fnv_empty : fnv_write 14695981039346656037 [] ≡ 0xcbf29ce484222325
unfolding fnv_write
fnv_empty = refl

fnv_a : fnv_write 14695981039346656037 (codes "a") ≡ 0xaf63bd4c8601b7be
unfolding fnv_write
fnv_a = refl

lan-NoZero : NoZero (codes "lan")
lan-NoZero = (omega arith, (omega arith, (omega arith, tt)))

direct_bytes-injective_example :
    (codes "lan" ≡ codes "lan")
    × (codes "a." ≡ codes "a.")
    × ◌≡◌ {A = ℕ} 28 28
    × (true ≡ true)
    × (false ≡ false)
direct_bytes-injective_example =
    direct_bytes-injective (codes "lan") (codes "lan") (codes "a.") (codes "a.") 28 28 true true
      false false lan-NoZero lan-NoZero (omega arith) (omega arith) refl
