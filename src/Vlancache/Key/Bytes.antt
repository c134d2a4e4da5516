-- ===== src/Vlancache/Key/Bytes.antt =====
-- plugins/vlancache/key.go: the separator keeps the parts of a direct key apart.
use bramble_gate.Prelude.{
  ℕ, ◌<◌, ◌≡◌, refl, ap₂, Bool, true, false, List, [], ◌∷◌, ◌++◌, All, arith, GoString,
  if◌then◌else◌,
}
use bramble_gate.Vlancache.Key.{direct_bytes}

-- A name without a zero byte, as are VLAN names in settings.yaml.
abbrev pub NoZero : GoString → Type 0
NoZero = All (λ c. 0 < c)

split_at_zero :
    (a b x y : GoString) → NoZero a → NoZero b → a ++ (0 ∷ x) ≡ b ++ (0 ∷ y) → (a ≡ b) × (x ≡ y)
split_at_zero [] [] x y h k e = (refl, ground arith)
split_at_zero [] (d ∷ b) x y h k e = absurd (ground arith)
split_at_zero (c ∷ a) [] x y h k e = absurd (ground arith)
split_at_zero (c ∷ a) (d ∷ b) x y h k e =
    let (p, q) = split_at_zero a b x y h.1 k.1 (ground arith) in (ap₂ ◌∷◌ (ground arith) p, q)

four_heads :
    (a b c d a' b' c' d' : ℕ) (xs xs' : List ℕ)
    → a ∷ b ∷ c ∷ d ∷ xs ≡ a' ∷ b' ∷ c' ∷ d' ∷ xs'
    → (a ≡ a') × (b ≡ b') × (c ≡ c') × (d ≡ d') × (xs ≡ xs')
four_heads a b c d a' b' c' d' xs xs' e = (cc, cc, cc, cc, cc)

bit-injective : (d d' : Bool) → ◌≡◌ {A = ℕ} (if d then 1 else 0) (if d' then 1 else 0) → d ≡ d'
bit-injective true true e = refl
bit-injective false false e = refl
bit-injective true false e = absurd (ground arith)
bit-injective false true e = absurd (ground arith)

-- Two direct keys hash the same bytes only if bucket, name, type and both flags are the same, for
-- 16-bit types and buckets without a zero byte: the zero byte written between bucket and name
-- leaves no ambiguity.
pub direct_bytes-injective :
    (b b' q q' : GoString) (t t' : ℕ) (d d' c c' : Bool)
    → NoZero b
    → NoZero b'
    → t < 65536
    → t' < 65536
    → direct_bytes b q t d c ≡ direct_bytes b' q' t' d' c'
    → (b ≡ b') × (q ≡ q') × (t ≡ t') × (d ≡ d') × (c ≡ c')
unfolding direct_bytes
direct_bytes-injective b b' q q' t t' d d' c c' h k s s' e =
    let (pd, pc, hi, lo, rest) = four_heads _ _ _ _ _ _ _ _ _ _ e in
    let (pb, pq) = split_at_zero b b' q q' h k rest in
    (pb, pq, omega arith, bit-injective d d' pd, bit-injective c c' pc)
