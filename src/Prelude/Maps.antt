-- ===== src/Prelude/Maps.antt =====
-- Go maps as association lists. A map iterates in no fixed order: the list is one such order, and
-- the theorems say nothing that depends on which. A missing key is `none`.
use Prim.Native.Nat.{◌+◌}
use mathlib.Core.Path.{◌≡◌, refl, sym, ap, subst}
use mathlib.Core.Logic.{◌⊎◌, inl, inr, ◌≢◌}
use mathlib.Core.Bool.{Bool, true, false}
use mathlib.Core.List.Memᴰ
use mathlib.Core.List.{Memᴰ, List, [], ◌∷◌}
use mathlib.Core.Option.{Option, none, some}
use native.Mathlib.Omega.{arith}
use bramble_gate.Prelude.Tests.{if◌then◌else◌, Bool-cases}
use bramble_gate.Prelude.Lists.{All, select, count}

abbrev pub same {ℓ} : {A : Type ℓ} → Discrete A → A → A → Bool
same dec a b = elim (dec a b) [ yes _ ↦ true | no _ ↦ false ]

module _ {ℓ} {K : Type ℓ} (dec : Discrete K) where
  pub same_yes : (j k : K) → j ≡ k → same dec j k ≡ true
  same_yes j k e = ground arith

  pub same_no : (j k : K) → j ≢ k → same dec j k ≡ false
  same_no j k e = ground arith

module _ {ℓ κ} {K : Type ℓ} {V : Type κ} where
  -- A predicate holds of every value.
  abbrev pub AllValues {μ} : (V → Type μ) → List (K × V) → Type μ
  AllValues P [] = Unit
  AllValues P ((k, v) ∷ m) = P v × AllValues P m

  pub AllValues_weaken {μ ν} :
      (P : V → Type μ) (Q : V → Type ν) (m : List (K × V))
      → ((v : V) → P v → Q v)
      → AllValues P m
      → AllValues Q m
  AllValues_weaken P Q [] f h = tt
  AllValues_weaken P Q ((k, v) ∷ m) f h = (f v h.0, AllValues_weaken P Q m f h.1)

module _ {ℓ κ} {K : Type ℓ} {V : Type κ} (dec : Discrete K) where
  -- `m[k]`, with the missing key told apart.
  unfoldable pub lookup : K → List (K × V) → Option V
  lookup k [] = none
  lookup k ((j, v) ∷ m) = if same dec j k then some v else lookup k m

  -- `m[k] = v`
  unfoldable pub insert : K → V → List (K × V) → List (K × V)
  insert key value [] = (key, value) ∷ []
  insert key value ((j, w) ∷ m) =
      if same dec j key then (j, value) ∷ m else (j, w) ∷ insert key value m

  -- `delete(m, k)`
  unfoldable pub delete : K → List (K × V) → List (K × V)
  delete k [] = []
  delete k ((j, v) ∷ m) = let rest = delete k m in if same dec j k then rest else (j, v) ∷ rest

  -- A read after a write sees the write under its key, and else what was there.
  pub lookup-insert :
      (written read : K) (value : V) (entries : List (K × V))
      → lookup read (insert written value entries)
        ≡ (if same dec written read then some value else lookup read entries)
  unfolding insert lookup
  lookup-insert written read value [] = refl
  lookup-insert written read value (e ∷ entries) =
      ground (arith, lookup-insert written read value entries)

  pub lookup-delete :
      (k j : K) (m : List (K × V))
      → lookup j (delete k m) ≡ (if same dec k j then none else lookup j m)
  unfolding lookup delete
  lookup-delete k j [] = ground arith
  lookup-delete k j ((i, w) ∷ m) = ground (arith, lookup-delete k j m)

  -- No key stands twice, as in every Go map.
  abbrev pub Unique : List (K × V) → Type (ℓ ⊔ κ)
  Unique [] = Unit
  Unique ((k, v) ∷ m) = (lookup k m ≡ none) × Unique m

  pub insert-AllValues {μ} :
      (P : V → Type μ) (k : K) (v : V) (m : List (K × V))
      → P v
      → AllValues P m
      → AllValues P (insert k v m)
  unfolding insert
  insert-AllValues P k v [] p h = (p, tt)
  insert-AllValues P k v ((j, w) ∷ m) p h = elim (dec j k) [
    | yes e ↦ rw (same_yes dec j k e) (p, h.1)
    | no e ↦ rw (same_no dec j k e) (h.0, insert-AllValues P k v m p h.1)
  ]

  pub delete-AllValues {μ} :
      (P : V → Type μ) (k : K) (m : List (K × V)) → AllValues P m → AllValues P (delete k m)
  unfolding delete
  delete-AllValues P k [] h = tt
  delete-AllValues P k ((j, w) ∷ m) h = elim (dec j k) [
    | yes e ↦ rw (same_yes dec j k e) (delete-AllValues P k m h.1)
    | no e ↦ rw (same_no dec j k e) (h.0, delete-AllValues P k m h.1)
  ]

  pub AllValues_of_lookup {μ} :
      (P : V → Type μ) (m : List (K × V)) (k : K) {v : V}
      → AllValues P m
      → lookup k m ≡ some v
      → P v
  unfolding lookup
  AllValues_of_lookup P [] k h e = absurd (cc)
  AllValues_of_lookup P ((j, w) ∷ m) k {v} h e = elim (dec j k) [
    | yes s ↦ subst P (ground (arith, same_yes dec j k s)) h.0
    | no s ↦ AllValues_of_lookup P m k h.1 (ground (arith, same_no dec j k s))
  ]

  pub insert-All {μ} :
      (P : K × V → Type μ) (k : K) (v : V) (m : List (K × V))
      → P (k, v)
      → All P m
      → All P (insert k v m)
  unfolding insert
  insert-All P k v [] p h = (p, tt)
  insert-All P k v ((j, w) ∷ m) p h = elim (dec j k) [
    | yes e ↦ rw (same_yes dec j k e) (subst (λ i. P (i, v)) (sym e) p, h.1)
    | no e ↦ rw (same_no dec j k e) (h.0, insert-All P k v m p h.1)
  ]

  pub All_of_lookup {μ} :
      (P : K × V → Type μ) (m : List (K × V)) (k : K) {v : V}
      → All P m
      → lookup k m ≡ some v
      → P (k, v)
  unfolding lookup
  All_of_lookup P [] k h e = absurd (cc)
  All_of_lookup P ((j, w) ∷ m) k {v} h e = elim (dec j k) [
    | yes s ↦ subst P (ground (arith, same_yes dec j k s)) h.0
    | no s ↦ All_of_lookup P m k h.1 (ground (arith, same_no dec j k s))
  ]

  delete_absent : (k : K) (m : List (K × V)) → lookup k m ≡ none → delete k m ≡ m
  unfolding lookup delete
  delete_absent k [] h = refl
  delete_absent k ((j, w) ∷ m) h = ground (arith, delete_absent k m)

  -- Deleting a key that is there makes the map one shorter.
  pub count-delete :
      (test : V → Bool) (k : K) (v : V) (m : List (K × V))
      → Unique m
      → lookup k m ≡ some v
      → count (λ p. test p.1) m ≡ (if test v then 1 else 0) + count (λ p. test p.1) (delete k m)
  unfolding lookup delete
  count-delete test k v [] u h = cc
  count-delete test k v ((j, w) ∷ m) u h =
      ground (arith, delete_absent k m, count-delete test k v m u.1)

  pub lookup-select :
      (f : V → Bool) (k : K) (m : List (K × V))
      → Unique m
      → lookup k (select (λ p. f p.1) m)
        ≡ elim (lookup k m) [ none ↦ none | some v ↦ if f v then some v else none ]
  unfolding lookup
  lookup-select f k [] u = refl
  lookup-select f k ((j, v) ∷ m) u = ground (arith, lookup-select f k m u.1)

  pub insert-Unique : (k : K) (v : V) (m : List (K × V)) → Unique m → Unique (insert k v m)
  unfolding insert lookup
  insert-Unique k v [] u = (refl, tt)
  insert-Unique k v ((j, w) ∷ m) u = ground (arith, lookup-insert k j v m, insert-Unique k v m u.1)

  pub delete-Unique : (k : K) (m : List (K × V)) → Unique m → Unique (delete k m)
  unfolding delete
  delete-Unique k [] u = tt
  delete-Unique k ((j, w) ∷ m) u = ground (arith, lookup-delete k j m, delete-Unique k m u.1)

  pub mem-insert :
      (k : K) (v : V) (m : List (K × V)) {p : K × V} → Memᴰ p (insert k v m) → (p.1 ≡ v) ⊎ Memᴰ p m
  unfolding insert
  mem-insert k v [] (Memᴰ.head e) = inl (ap (λ q. q.1) e)
  mem-insert k v [] (Memᴰ.tail t) = inr t
  mem-insert k v ((j, w) ∷ m) {p} h = elim (dec j k) [
    | yes x ↦ elim (Memᴰ.cases_cons (subst (Memᴰ p) (if_yes x) h)) [
      | inl e ↦ inl (ap (λ q. q.1) e)
      | inr t ↦ inr (Memᴰ.tail t)
    ]
    | no x ↦ elim (Memᴰ.cases_cons (subst (Memᴰ p) (if_no x) h)) [
      | inl e ↦ inr (Memᴰ.head e)
      | inr t ↦ elim (mem-insert k v m t) [ inl e ↦ inl e | inr r ↦ inr (Memᴰ.tail r) ]
    ]
  ]
    where
      if_yes : j ≡ k → insert k v ((j, w) ∷ m) ≡ (j, v) ∷ m
      if_yes x = ground arith

      if_no : j ≢ k → insert k v ((j, w) ∷ m) ≡ (j, w) ∷ insert k v m
      if_no x = ground arith

  pub mem_of_lookup :
      (k : K) (m : List (K × V)) (v : V) → lookup k m ≡ some v → (j : K) × Memᴰ (j, v) m
  unfolding lookup
  mem_of_lookup k [] v h = cc
  mem_of_lookup k ((j, w) ∷ m) v h = elim (Bool-cases (same dec j k)) [
    | inl e ↦ (j, Memᴰ.head (ground arith))
    | inr e ↦ let (i, t) = mem_of_lookup k m v (ground arith) in (i, Memᴰ.tail t)
  ]
