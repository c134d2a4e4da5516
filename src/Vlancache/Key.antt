-- ===== src/Vlancache/Key.antt =====
-- plugins/vlancache/key.go: the hashes that key the two tiers.
pub mod Bytes
mod Tests
use Prim.Native.Nat.{bit_xor}
use bramble_gate.Prelude.{
  ℕ, ◌*◌, ◌/◌, ◌%◌, ◌^◌, Bool, true, false, List, [], ◌∷◌, ◌++◌, if◌then◌else◌, GoString,
}

-- hash/fnv's New64: multiply, then exclusive-or with the byte.
abbrev fnv_offset : ℕ
fnv_offset = 14695981039346656037

abbrev fnv_prime : ℕ
fnv_prime = 1099511628211

unfoldable pub fnv_write : ℕ → List ℕ → ℕ
fnv_write h [] = h
fnv_write h (b ∷ bs) = fnv_write (bit_xor (h * fnv_prime % 2 ^ 64) b) bs

-- `writeBool`
abbrev pub bool_bytes : Bool → List ℕ
bool_bytes b = (if b then 1 else 0) ∷ []

-- `writeQtype`, big-endian
abbrev pub qtype_bytes : ℕ → List ℕ
qtype_bytes qtype = (qtype / 256 % 256) ∷ (qtype % 256) ∷ []

-- What `hashDirect` and `hashScoped` write to the hash, in order.
unfoldable pub direct_bytes : GoString → GoString → ℕ → Bool → Bool → List ℕ
direct_bytes bucket qname qtype do_bit cd_bit =
    bool_bytes do_bit ++ (bool_bytes cd_bit ++ (qtype_bytes qtype ++ (bucket ++ (0 ∷ qname))))

unfoldable pub scoped_bytes : GoString → ℕ → Bool → Bool → List ℕ
scoped_bytes qname qtype do_bit cd_bit =
    bool_bytes do_bit ++ (bool_bytes cd_bit ++ (qtype_bytes qtype ++ qname))

-- `hashDirect`
unfoldable pub hash_direct : GoString → GoString → ℕ → Bool → Bool → ℕ
unfolding direct_bytes fnv_write
hash_direct bucket qname qtype do_bit cd_bit =
    fnv_write fnv_offset (direct_bytes bucket qname qtype do_bit cd_bit)

-- `hashScoped`
unfoldable pub hash_scoped : GoString → ℕ → Bool → Bool → ℕ
unfolding scoped_bytes fnv_write
hash_scoped qname qtype do_bit cd_bit =
    fnv_write fnv_offset (scoped_bytes qname qtype do_bit cd_bit)
