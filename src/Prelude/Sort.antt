-- ===== src/Prelude/Sort.antt =====
-- Package sort.
use mathlib.Core.Path.{◌≡◌, refl}
use mathlib.Core.Bool.{Bool, true, false, not}
use mathlib.Core.List.{List, [], ◌∷◌}
use native.Mathlib.Omega.{arith}
use mathlib.Core.Logic.{inl, inr}
use bramble_gate.Prelude.Tests.{ltb, ◌==◌, if◌then◌else◌, Bool-cases}
use bramble_gate.Prelude.Lists.{All, count}
use bramble_gate.Prelude.Text.{GoString}

-- sort.Strings: by bytes.
unfoldable pub leq_string : GoString → GoString → Bool
leq_string [] t = true
leq_string (c ∷ s) [] = false
leq_string (c ∷ s) (d ∷ t) = if c == d then leq_string s t else ltb c d

unfoldable pub insert_sorted : GoString → List GoString → List GoString
insert_sorted s [] = s ∷ []
insert_sorted s (t ∷ ts) = if leq_string s t then s ∷ t ∷ ts else t ∷ insert_sorted s ts

unfoldable pub sort_strings : List GoString → List GoString
unfolding insert_sorted
sort_strings [] = []
sort_strings (s ∷ ss) = insert_sorted s (sort_strings ss)

-- `<` on strings
unfoldable pub less_string : GoString → GoString → Bool
unfolding leq_string
less_string s t = not (leq_string t s)

-- sort.Slice: it is not stable, so that equal elements may stand in another order than here.
module _ {ℓ} {A : Type ℓ} (less : A → A → Bool) where
  unfoldable pub insert_by : A → List A → List A
  insert_by x [] = x ∷ []
  insert_by x (y ∷ ys) = if less y x then y ∷ insert_by x ys else x ∷ y ∷ ys

  unfoldable pub sort_by : List A → List A
  unfolding insert_by
  sort_by [] = []
  sort_by (x ∷ xs) = insert_by x (sort_by xs)

  insert_by-All {κ} :
      (P : A → Type κ) (x : A) (ys : List A) → P x → All P ys → All P (insert_by x ys)
  unfolding insert_by
  insert_by-All P x [] p h = (p, tt)
  insert_by-All P x (y ∷ ys) p h = elim (Bool-cases (less y x)) [
    | inl e ↦ rw e (h.0, insert_by-All P x ys p h.1)
    | inr e ↦ rw e (p, h)
  ]

  pub sort_by-All {κ} : (P : A → Type κ) (xs : List A) → All P xs → All P (sort_by xs)
  unfolding sort_by
  sort_by-All P [] h = tt
  sort_by-All P (x ∷ xs) h = insert_by-All P x (sort_by xs) h.0 (sort_by-All P xs h.1)

  count-insert_by :
      (p : A → Bool) (x : A) (ys : List A) → count p (insert_by x ys) ≡ count p (x ∷ ys)
  unfolding insert_by
  count-insert_by p x [] = refl
  count-insert_by p x (y ∷ ys) = ground (arith, count-insert_by p x ys)

  -- Sorting keeps how many elements pass a test.
  pub count-sort_by : (p : A → Bool) (xs : List A) → count p (sort_by xs) ≡ count p xs
  unfolding sort_by
  count-sort_by p [] = refl
  count-sort_by p (x ∷ xs) = ground (arith, count-insert_by p x (sort_by xs), count-sort_by p xs)
