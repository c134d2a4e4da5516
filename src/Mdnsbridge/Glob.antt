-- ===== src/Mdnsbridge/Glob.antt =====
-- plugins/mdnsbridge/selector.go: the glob matcher. The two indices are the rests of the pattern and
-- of the text from there on, and `star` with `ss` is what comes behind the last star and the text
-- from the place that the star then ends at.
pub mod Laws
pub mod Loop
pub mod Total
mod Tests
use bramble_gate.Prelude.{
  ℕ, zero, suc, ◌+◌, ◌*◌, Bool, true, false, ◌||◌, Option, none, some, List, [], ◌∷◌, length, ◌==◌,
  if◌then◌else◌, GoString, to_lower,
}

-- The pattern from the star on, and the text.
abbrev pub Star : Type 0
Star = Option (GoString × GoString)

-- The last loop: only stars are left.
unfoldable pub all_stars : GoString → Bool
all_stars [] = true
all_stars (x ∷ p) = if x == b'*' then all_stars p else false

-- The first loop, with `none` when the fuel ran out.
unfoldable pub glob_loop : ℕ → GoString → GoString → Star → Option Bool
glob_loop zero p s back = none
glob_loop (suc n) p [] back = some (all_stars p)
glob_loop (suc n) [] (c ∷ s) none = some false
glob_loop (suc n) [] (c ∷ s) (some (bp, [])) = some false
glob_loop (suc n) [] (c ∷ s) (some (bp, b ∷ bs)) = glob_loop n bp bs (some (bp, bs))
glob_loop (suc n) (x ∷ p) (c ∷ s) back = elim (x == b'?' || x == c) [
  | true ↦ glob_loop n p s back
  | false ↦ elim (x == b'*') [
    | true ↦ glob_loop n p (c ∷ s) (some (p, c ∷ s))
    | false ↦ elim back [
      | none ↦ some false
      | some (bp, []) ↦ some false
      | some (bp, b ∷ bs) ↦ glob_loop n bp bs (some (bp, bs))
    ]
  ]
]

-- Rounds that are enough.
abbrev pub rounds : GoString → GoString → ℕ
rounds p s = suc (length p + length s + suc (length s) * suc (length p + length s))

-- `glob`
unfoldable pub glob : GoString → GoString → Option Bool
unfolding glob_loop
glob p s = glob_loop (rounds p s) p s none

-- `globMatch`
unfoldable pub glob_match : GoString → GoString → Option Bool
glob_match pattern s = glob (to_lower pattern) (to_lower s)
