-- ===== src/Prelude/Distinct.antt =====
-- Texts that are each added once to those seen, as the loops do that keep a set in a map.
use mathlib.Core.Path.{◌≡◌, refl, sym, ◌∙◌}
use mathlib.Core.Logic.{inl, inr}
use mathlib.Core.Bool.{true, false, ◌||◌}
use mathlib.Core.List.{List, [], ◌∷◌, ◌++◌}
use native.Mathlib.Omega.{arith}
use bramble_gate.Prelude.Tests.{Bool-cases}
use bramble_gate.Prelude.Lists.{any}
use bramble_gate.Prelude.Text.{GoString, str_eq, str_eq→eq, str_eq_refl}

-- No text stands twice.
abbrev pub Distinct : List GoString → Type 0
Distinct [] = Unit
Distinct (s ∷ ss) = (any (str_eq s) ss ≡ false) × Distinct ss

-- The texts of the second list are distinct, none of them is in `before`, and `after` has them all
-- before those of `before`.
pub data Fresh : List GoString → List GoString → List GoString → Type 0 where
  done : {before : List GoString} → Fresh before [] before
  new :
      {s : GoString} {before ss after : List GoString}
      → any (str_eq s) before ≡ false
      → Fresh (s ∷ before) ss after
      → Fresh before (s ∷ ss) after

pub Fresh-append :
    {a b c xs ys : List GoString} → Fresh a xs b → Fresh b ys c → Fresh a (xs ++ ys) c
Fresh-append done g = g
Fresh-append (new h f) g = new h (Fresh-append f g)

Fresh-avoids :
    {before ss after : List GoString} (t : GoString)
    → Fresh before ss after
    → any (str_eq t) before ≡ true
    → any (str_eq t) ss ≡ false
Fresh-avoids t done h = refl
Fresh-avoids t (new {s} {before} n f) h = elim (Bool-cases (str_eq t s)) [
  | inl e ↦
      let twice = rw (str_eq→eq t s e) at h in let impossible : true ≡ false = sym twice ∙ n in cc
  | inr e ↦ rw e (Fresh-avoids t f (rw e h))
]

pub Fresh-Distinct : {before ss after : List GoString} → Fresh before ss after → Distinct ss
Fresh-Distinct done = tt
Fresh-Distinct (new {s} n f) = (Fresh-avoids s f (rw (str_eq_refl s)), Fresh-Distinct f)

-- What stands in `after` stands in `before` or among the new texts.
pub Fresh-after :
    {before ss after : List GoString} (t : GoString)
    → Fresh before ss after
    → any (str_eq t) after ≡ (any (str_eq t) before || any (str_eq t) ss)
Fresh-after t (done {before}) = ground arith
Fresh-after t (new {s} {before} {ss} n f) = ground (arith, Fresh-after t f)
