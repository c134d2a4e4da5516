-- ===== src/Vlancache/Store/Flush.antt =====
-- plugins/vlancache/store.go: what clearName drops, and what it keeps.
use bramble_gate.Prelude.{
  ℕ, ◌+◌, ◌≡◌, refl, Bool, true, not, Option, none, some, List, [], ◌∷◌, length, select, count,
  is_nil, if◌then◌else◌, arith, ℕ_discrete, lookup, inc64, Unique, lookup-select, GoString,
}
use bramble_gate.Dns.{Library}
use bramble_gate.Vlancache.Entry.{Entry, depends_on}
use bramble_gate.Vlancache.Store.{
  ScopedEntry, Store, bucket, count_scoped, walk_direct, walk_scoped, clear_name, invalidate,
}

pub length-select {ℓ} :
    {A : Type ℓ} (p : A → Bool) (xs : List A)
    → count p xs + length (select (λ x. not (p x)) xs) ≡ length xs
length-select p [] = refl
length-select p (x ∷ xs) = ground (arith, length-select p xs)

-- The entries of both tiers.
abbrev pub size : {Rr : Type 0} → Store Rr → ℕ
size s = length s.direct + count_scoped s.scoped

module _ {Rr : Type 0} (dns : Library Rr) (name : GoString) where
  -- What a walk keeps of an entry found.
  abbrev pub surviving : Option (Entry Rr) → Option (Entry Rr)
  surviving none = none
  surviving (some e) = if depends_on dns e name then none else some e

  abbrev pub independent : ScopedEntry Rr → Bool
  independent se = not (depends_on dns se.e name)

  slice : ℕ → List (ℕ × List (ScopedEntry Rr)) → List (ScopedEntry Rr)
  slice k m = elim (lookup ℕ_discrete k m) [ none ↦ [] | some es ↦ es ]

  is_nil-eq : (xs : List (ScopedEntry Rr)) → is_nil xs ≡ true → xs ≡ []
  is_nil-eq [] h = refl
  is_nil-eq (x ∷ xs) h = cc

  slice-walk :
      (k : ℕ) (m : List (ℕ × List (ScopedEntry Rr)))
      → Unique ℕ_discrete m
      → slice k (walk_scoped dns name m).0 ≡ select independent (slice k m)
  unfolding slice walk_scoped lookup
  slice-walk k [] u = refl
  slice-walk k ((j, es) ∷ m) u =
      ground (arith, slice-walk k m u.1, is_nil-eq (select independent es))

  count-walk :
      (m : List (ℕ × List (ScopedEntry Rr)))
      → (walk_scoped dns name m).1 + count_scoped (walk_scoped dns name m).0 ≡ count_scoped m
  unfolding walk_scoped count_scoped
  count-walk [] = omega arith
  count-walk ((j, es) ∷ m) = ground (
    arith,
    count-walk m,
    length-select (λ se. depends_on dns se.e name) es,
    is_nil-eq (select independent es),
  )

  -- `clearName` keeps exactly the entries that do not depend on the name, in both tiers, starts a
  -- new epoch, and returns how many entries it dropped. The maps hold no key twice.
  pub clear_name_lem :
      (s : Store Rr)
      → Unique ℕ_discrete s.direct
      → Unique ℕ_discrete s.scoped
      → let (s', n) = clear_name dns s name in
        ((k : ℕ) → lookup ℕ_discrete k s'.direct ≡ surviving (lookup ℕ_discrete k s.direct))
        × ((k : ℕ) → bucket s' k ≡ select independent (bucket s k))
        × (s'.epoch ≡ inc64 s.epoch)
        × (n + size s' ≡ size s)
  unfolding clear_name walk_direct bucket invalidate
  clear_name_lem s u w = (
    λ k. ground (arith, lookup-select ℕ_discrete (λ e. not (depends_on dns e name)) k s.direct u),
    λ k. unfold slice in slice-walk k s.scoped w,
    refl,
    omega (
      arith,
      count-walk s.scoped,
      length-select (λ (p : ℕ × Entry Rr). depends_on dns p.1 name) s.direct,
    ),
  )
