-- ===== src/Prelude/Ascending.antt =====
-- Strictly ascending lists of strings: such a list is determined by the strings that it has, and
-- sorting distinct strings makes one.
use mathlib.Core.Path.{◌≡◌, refl, sym, subst, ap₂, ◌∙◌}
use mathlib.Core.Logic.{inl, inr}
use mathlib.Core.Bool.{Bool, true, false, ◌||◌}
use mathlib.Core.List.{List, [], ◌∷◌}
use native.Mathlib.Omega.{arith}
use bramble_gate.Prelude.Tests.{Bool-cases}
use bramble_gate.Prelude.Lists.{any, All, All_weaken}
use bramble_gate.Prelude.Text.{GoString, str_eq, str_eq→eq, str_eq_refl}
use bramble_gate.Prelude.Sort.{leq_string, insert_sorted, sort_strings}
use bramble_gate.Prelude.Distinct.{Distinct}

-- One string stands before another.
abbrev pub Before : GoString → GoString → Type 0
Before s t = leq_string t s ≡ false

leq_refl : (s : GoString) → leq_string s s ≡ true
unfolding leq_string
leq_refl [] = refl
leq_refl (c ∷ s) = ground (arith, leq_refl s)

Before-trans : (s t u : GoString) → Before s t → Before t u → Before s u
unfolding leq_string
Before-trans s [] u h k = cc
Before-trans s (b ∷ t) [] h k = cc
Before-trans [] (b ∷ t) (c ∷ u) h k = refl
Before-trans (a ∷ s) (b ∷ t) (c ∷ u) h k = ground (arith, Before-trans s t u)

leq_antisym : (s t : GoString) → leq_string s t ≡ true → leq_string t s ≡ true → s ≡ t
unfolding leq_string
leq_antisym [] [] h k = refl
leq_antisym [] (b ∷ t) h k = cc
leq_antisym (a ∷ s) [] h k = cc
leq_antisym (a ∷ s) (b ∷ t) h k = ground (arith, leq_antisym s t)

pub str_eq_comm_false : (s t : GoString) → str_eq s t ≡ false → str_eq t s ≡ false
str_eq_comm_false s t h = elim (Bool-cases (str_eq t s)) [
  | inr n ↦ n
  | inl e ↦
      let clash = subst (λ x. str_eq s x ≡ false) (str_eq→eq t s e) h in
      let impossible : true ≡ false = sym (str_eq_refl s) ∙ clash in absurd (cc)
]

Before-irrefl : (s t : GoString) → Before s t → str_eq s t ≡ false
Before-irrefl s t h = elim (Bool-cases (str_eq s t)) [
  | inr n ↦ n
  | inl e ↦
      let clash : leq_string s s ≡ false =
        subst (λ x. leq_string x s ≡ false) (sym (str_eq→eq s t e)) h in
      let impossible : true ≡ false = sym (leq_refl s) ∙ clash in absurd (cc)
]

Before-asym : (s t : GoString) → Before s t → leq_string s t ≡ true
Before-asym s t h = elim (Bool-cases (leq_string s t)) [
  | inl e ↦ e
  | inr n ↦
      let clash = Before-trans s t s h n in
      let impossible : true ≡ false = sym (leq_refl s) ∙ clash in absurd (cc)
]

leq-Before : (s t : GoString) → leq_string s t ≡ true → str_eq s t ≡ false → Before s t
leq-Before s t h n = elim (Bool-cases (leq_string t s)) [
  | inr b ↦ b
  | inl e ↦
      let clash = subst (λ x. str_eq s x ≡ false) (sym (leq_antisym s t h e)) n in
      let impossible : true ≡ false = sym (str_eq_refl s) ∙ clash in absurd (cc)
]

abbrev pub Ascending : List GoString → Type 0
Ascending [] = Unit
Ascending (s ∷ ss) = All (Before s) ss × Ascending ss

insert_sorted-All :
    (P : GoString → Type 0) (s : GoString) (ss : List GoString)
    → P s
    → All P ss
    → All P (insert_sorted s ss)
unfolding insert_sorted
insert_sorted-All P s [] p h = (p, tt)
insert_sorted-All P s (t ∷ ts) p h = elim (Bool-cases (leq_string s t)) [
  | inl e ↦ rw e (p, h)
  | inr e ↦ rw e (h.0, insert_sorted-All P s ts p h.1)
]

insert_sorted-Ascending :
    (s : GoString) (ss : List GoString)
    → any (str_eq s) ss ≡ false
    → Ascending ss
    → Ascending (insert_sorted s ss)
unfolding insert_sorted
insert_sorted-Ascending s [] n a = (tt, tt)
insert_sorted-Ascending s (t ∷ ts) n a = elim (Bool-cases (leq_string s t)) [
  | inl e ↦
      let first = leq-Before s t e (ground (arith, n)) in
      rw e ((first, All_weaken (Before t) (Before s) ts (λ u b. Before-trans s t u first b) a.0), a)
  | inr e ↦ rw e (
    insert_sorted-All (Before t) s ts e a.0,
    insert_sorted-Ascending s ts (ground (arith, n)) a.1,
  )
]

any-insert_sorted :
    (p : GoString → Bool) (s : GoString) (ss : List GoString)
    → any p (insert_sorted s ss) ≡ (p s || any p ss)
unfolding insert_sorted
any-insert_sorted p s [] = ground arith
any-insert_sorted p s (t ∷ ts) = ground (arith, any-insert_sorted p s ts)

-- Sorting keeps which strings there are.
pub any-sort_strings :
    (p : GoString → Bool) (ss : List GoString) → any p (sort_strings ss) ≡ any p ss
unfolding sort_strings
any-sort_strings p [] = refl
any-sort_strings p (s ∷ ss) =
    ground (arith, any-insert_sorted p s (sort_strings ss), any-sort_strings p ss)

pub sort_strings-Ascending : (ss : List GoString) → Distinct ss → Ascending (sort_strings ss)
unfolding sort_strings
sort_strings-Ascending [] d = tt
sort_strings-Ascending (s ∷ ss) d =
    insert_sorted-Ascending s (sort_strings ss) (any-sort_strings (str_eq s) ss ∙ d.0)
      (sort_strings-Ascending ss d.1)

-- What stands before a whole list is not in it.
Before-absent : (s : GoString) (ss : List GoString) → All (Before s) ss → any (str_eq s) ss ≡ false
Before-absent s [] h = refl
Before-absent s (t ∷ ts) h = ground (arith, Before-irrefl s t h.0, Before-absent s ts h.1)

All_of_any :
    (P : GoString → Type 0) (s : GoString) (ss : List GoString)
    → All P ss
    → any (str_eq s) ss ≡ true
    → P s
All_of_any P s [] h e = absurd (cc)
All_of_any P s (t ∷ ts) h e = elim (Bool-cases (str_eq s t)) [
  | inl same ↦ subst P (sym (str_eq→eq s t same)) h.0
  | inr apart ↦ All_of_any P s ts h.1 (ground (arith, apart, e))
]

heads_agree :
    (x y : GoString) (xs ys : List GoString)
    → Ascending (x ∷ xs)
    → Ascending (y ∷ ys)
    → ((s : GoString) → any (str_eq s) (x ∷ xs) ≡ any (str_eq s) (y ∷ ys))
    → str_eq x y ≡ true
heads_agree x y xs ys a b h = elim (Bool-cases (str_eq x y)) [
  | inl e ↦ e
  | inr n ↦
      let x_there : any (str_eq x) ys ≡ true = ground (arith, n, h x, str_eq_refl x) in
      let y_there : any (str_eq y) xs ≡ true =
        ground (arith, str_eq_comm_false x y n, h y, str_eq_refl y) in
      let after = All_of_any (Before y) x ys b.0 x_there in
      let before = All_of_any (Before x) y xs a.0 y_there in
      let impossible : true ≡ false = sym (Before-asym x y before) ∙ after in absurd (cc)
]

-- Two ascending lists with the same strings are the same.
pub Ascending-ext :
    (xs ys : List GoString)
    → Ascending xs
    → Ascending ys
    → ((s : GoString) → any (str_eq s) xs ≡ any (str_eq s) ys)
    → xs ≡ ys
Ascending-ext [] [] a b h = refl
Ascending-ext [] (y ∷ ys) a b h =
    let impossible : ⊥ = ground (arith, h y, str_eq_refl y) in absurd impossible
Ascending-ext (x ∷ xs) [] a b h =
    let impossible : ⊥ = ground (arith, h x, str_eq_refl x) in absurd impossible
Ascending-ext (x ∷ xs) (y ∷ ys) a b h =
    let same_head = str_eq→eq x y (heads_agree x y xs ys a b h) in
    ap₂ ◌∷◌ same_head (Ascending-ext xs ys a.1 b.1 (tails same_head))
  where
    tails : x ≡ y → (s : GoString) → any (str_eq s) xs ≡ any (str_eq s) ys
    tails same_head s = elim (Bool-cases (str_eq s x)) [
      | inr n ↦
          let m : str_eq s y ≡ false = subst (λ z. str_eq s z ≡ false) same_head n in
          ground (arith, n, m, h s)
      | inl e ↦
          let same = str_eq→eq s x e in
          let left = Before-absent x xs a.0 in
          let right = Before-absent y ys b.0 in
          subst (λ z. any (str_eq z) xs ≡ any (str_eq z) ys) (sym same)
            (left ∙ sym (subst (λ z. any (str_eq z) ys ≡ false) (sym same_head) right))
    ]
