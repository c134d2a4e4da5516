-- ===== src/Mdnsbridge/Glob/Total.antt =====
-- plugins/mdnsbridge/selector.go: the matcher returns on every pattern and text.
use bramble_gate.Prelude.{
  ℕ, zero, suc, ◌+◌, ◌-◌, ◌*◌, ◌≤◌, ◌<◌, ◌≡◌, refl, ◌∙◌, ap, inl, inr, Bool, true, false, ◌||◌,
  none, some, [], ◌∷◌, length, arith, ◌==◌, Bool-cases, GoString,
}
use bramble_gate.Mdnsbridge.Glob.{Star, all_stars, glob_loop, rounds, glob}
use bramble_gate.Mdnsbridge.Glob.Laws.{lap_step}
use bramble_gate.Mdnsbridge.Glob.Loop.{
  round_matched, round_none, round_back, round_end, round_empty,
}

round_star :
    (n x : ℕ) (p : GoString) (c : ℕ) (s : GoString) (back : Star)
    → (x == b'?' || x == c) ≡ false
    → (x == b'*') ≡ true
    → glob_loop (suc n) (x ∷ p) (c ∷ s) back ≡ glob_loop n p (c ∷ s) (some (p, c ∷ s))
unfolding glob_loop
round_star n x p c s back h k = ground arith

round_nothing : (n c : ℕ) (s : GoString) → glob_loop (suc n) [] (c ∷ s) none ≡ some false
unfolding glob_loop
round_nothing n c s = refl

-- The place to return to lies before the text's rest, and within the laps that are left.
abbrev IsBehind : GoString → ℕ → ℕ → Star → Type 0
IsBehind s lap k none = Unit
IsBehind s lap k (some (bp, bs)) =
    (length bp + length bs < k) × (length s ≤ length bs) × (length bs ≤ lap)

abbrev Returns : ℕ → GoString → GoString → Star → Type 0
Returns n p s back = (b : Bool) × (glob_loop n p s back ≡ some b)

IsBehind-next :
    (c : ℕ) (s : GoString) (lap k : ℕ) (back : Star)
    → IsBehind (c ∷ s) lap k back
    → IsBehind s lap k back
IsBehind-next c s lap k none w = tt
IsBehind-next c s lap k (some (bp, bs)) w = (w.0, omega arith, w.2)

-- A lap back.
go_back :
    (n : ℕ) (s bp : GoString) (b : ℕ) (bs : GoString) (lap k : ℕ)
    → ((l : ℕ)
        → length bp + length bs < k
        → length bs ≤ l
        → IsBehind bs l k (some (bp, bs))
        → length bp + length bs + l * k < n
        → Returns n bp bs (some (bp, bs)))
    → IsBehind s lap k (some (bp, b ∷ bs))
    → lap * k < n + 1
    → Returns n bp bs (some (bp, bs))
go_back n s bp b bs lap k again w h =
    let l : ℕ = lap - 1 in
    let e : lap ≡ suc l = omega (arith, w.2) in
    let laps : lap * k ≡ k + l * k = ap (λ z. z * k) e ∙ lap_step l k in
    again l (omega (arith, w.0)) (omega (arith, w.2))
      (omega (arith, w.0), omega arith, omega (arith, w.2)) (omega (arith, w.0, laps))

mismatch :
    (n x : ℕ) (p : GoString) (c : ℕ) (s : GoString) (lap k : ℕ) (back : Star)
    → ((bp bs : GoString) (l : ℕ)
        → length bp + length bs < k
        → length bs ≤ l
        → IsBehind bs l k (some (bp, bs))
        → length bp + length bs + l * k < n
        → Returns n bp bs (some (bp, bs)))
    → (x == b'?' || x == c) ≡ false
    → (x == b'*') ≡ false
    → IsBehind (c ∷ s) lap k back
    → lap * k < n + 1
    → Returns (suc n) (x ∷ p) (c ∷ s) back
mismatch n x p c s lap k none again q plain w h = (false, round_none n x p c s q plain)
mismatch n x p c s lap k (some (bp, [])) again q plain w h = absurd (omega (arith, w.1))
mismatch n x p c s lap k (some (bp, b ∷ bs)) again q plain w h =
    let (r, e) = go_back n (c ∷ s) bp b bs lap k (again bp bs) w h in
    (r, round_back n x p c s bp b bs q plain ∙ e)

loop-Returns :
    (n : ℕ) (p s : GoString) (lap k : ℕ) (back : Star)
    → length p + length s < k
    → length s ≤ lap
    → IsBehind s lap k back
    → length p + length s + lap * k < n
    → Returns n p s back
loop-Returns zero p s lap k back u v w h = absurd (omega arith)
loop-Returns (suc n) p [] lap k back u v w h = (all_stars p, round_end n p back)
loop-Returns (suc n) [] (c ∷ s) lap k none u v w h = (false, round_nothing n c s)
loop-Returns (suc n) [] (c ∷ s) lap k (some (bp, [])) u v w h = absurd (omega (arith, w.1))
loop-Returns (suc n) [] (c ∷ s) lap k (some (bp, b ∷ bs)) u v w h =
    let (r, e) =
      go_back n (c ∷ s) bp b bs lap k (λ l. loop-Returns n bp bs l k (some (bp, bs))) w
        (omega arith) in
    (r, round_empty n c s bp b bs ∙ e)
loop-Returns (suc n) (x ∷ p) (c ∷ s) lap k back u v w h = elim (Bool-cases (x == b'?' || x == c)) [
  | inl q ↦
      let (r, e) =
        loop-Returns n p s lap k back (omega arith) (omega arith) (IsBehind-next c s lap k back w)
          (omega arith) in
      (r, round_matched n x p c s back q ∙ e)
  | inr q ↦ elim (Bool-cases (x == b'*')) [
    | inl star ↦
        let (r, e) =
          loop-Returns n p (c ∷ s) lap k (some (p, c ∷ s)) (omega arith) v
            (omega arith, omega arith, v) (omega arith) in
        (r, round_star n x p c s back q star ∙ e)
    | inr plain ↦
        mismatch n x p c s lap k back (λ bp bs l. loop-Returns n bp bs l k (some (bp, bs))) q plain
          w (omega arith)
  ]
]

-- The matcher returns on every pattern and text, within the rounds given.
pub glob-returns : (p s : GoString) → (b : Bool) × (glob p s ≡ some b)
unfolding glob
glob-returns p s =
    loop-Returns (rounds p s) p s (suc (length s)) (suc (length p + length s)) none (omega arith)
      (omega arith) tt (omega arith)
