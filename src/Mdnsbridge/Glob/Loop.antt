-- ===== src/Mdnsbridge/Glob/Loop.antt =====
-- plugins/mdnsbridge/selector.go: the matcher's loop ends, and finds what the definition says.
use bramble_gate.Prelude.{
  ℕ, zero, suc, ◌+◌, ◌*◌, ◌<◌, ◌≡◌, ◌≢◌, refl, sym, subst, ◌∙◌, ap, inl, inr, Bool, true, false,
  ◌||◌, none, some, [], ◌∷◌, length, arith, ◌==◌, Bool-cases, GoString, ℕ_discrete,
}
use bramble_gate.Mdnsbridge.Glob.{Star, all_stars, glob_loop, rounds, glob}
use bramble_gate.Mdnsbridge.Glob.Laws.{
  is_match, NoStar, IsSound, IsSoundBack, SoundBack, matched, matched_back, starred, returned,
  lap_step, found, found_back, found_matched, found_starred, found_end, no_match,
}

-- What a round does.
pub round_matched :
    (n x : ℕ) (p : GoString) (c : ℕ) (s : GoString) (back : Star)
    → (x == b'?' || x == c) ≡ true
    → glob_loop (suc n) (x ∷ p) (c ∷ s) back ≡ glob_loop n p s back
unfolding glob_loop
round_matched n x p c s back h = ground arith

round_starred :
    (n : ℕ) (p : GoString) (c : ℕ) (s : GoString) (back : Star)
    → (b'*' == b'?' || b'*' == c) ≡ false
    → glob_loop (suc n) (b'*' ∷ p) (c ∷ s) back ≡ glob_loop n p (c ∷ s) (some (p, c ∷ s))
unfolding glob_loop
round_starred n p c s back h = ground arith

pub round_none :
    (n x : ℕ) (p : GoString) (c : ℕ) (s : GoString)
    → (x == b'?' || x == c) ≡ false
    → (x == b'*') ≡ false
    → glob_loop (suc n) (x ∷ p) (c ∷ s) none ≡ some false
unfolding glob_loop
round_none n x p c s h k = ground arith

pub round_back :
    (n x : ℕ) (p : GoString) (c : ℕ) (s bp : GoString) (b : ℕ) (bs : GoString)
    → (x == b'?' || x == c) ≡ false
    → (x == b'*') ≡ false
    → glob_loop (suc n) (x ∷ p) (c ∷ s) (some (bp, b ∷ bs)) ≡ glob_loop n bp bs (some (bp, bs))
unfolding glob_loop
round_back n x p c s bp b bs h k = ground arith

pub round_end :
    (n : ℕ) (p : GoString) (back : Star) → glob_loop (suc n) p [] back ≡ some (all_stars p)
unfolding glob_loop
round_end n [] back = refl
round_end n (x ∷ p) back = refl

pub round_empty :
    (n c : ℕ) (s bp : GoString) (b : ℕ) (bs : GoString)
    → glob_loop (suc n) [] (c ∷ s) (some (bp, b ∷ bs)) ≡ glob_loop n bp bs (some (bp, bs))
unfolding glob_loop
round_empty n c s bp b bs = refl

no_more : (c : ℕ) (s : GoString) → is_match [] (c ∷ s) ≡ false
unfolding is_match
no_more c s = refl

star_first : (c : ℕ) → c ≢ b'*' → (b'*' == b'?' || b'*' == c) ≡ false
star_first c h = ground arith

-- A place to return to, where nothing matches here.
found_only_back :
    (p s bp : GoString) (b : ℕ) (bs : GoString)
    → is_match p s ≡ false
    → found p s (some (bp, b ∷ bs)) ≡ found bp bs (some (bp, bs))
found_only_back p s bp b bs h = ground (arith, found_back bp bs)

-- What a shorter run from the place to return to finds.
abbrev Again : ℕ → ℕ → Type 0
Again n k =
    (bp bs : GoString) (l : ℕ)
    → IsSound bp bs l k (some (bp, bs))
    → IsSoundBack bs l k bp bs
    → length bp + length bs + l * k < n
    → glob_loop n bp bs (some (bp, bs)) ≡ some (found bp bs (some (bp, bs)))

mismatch :
    (n x : ℕ) (p : GoString) (c : ℕ) (s : GoString) (lap k : ℕ) (back : Star)
    → Again n k
    → x ≢ b'*'
    → (x == b'?' || x == c) ≡ false
    → IsSound (x ∷ p) (c ∷ s) lap k back
    → SoundBack (c ∷ s) lap k back
    → length (x ∷ p) + length (c ∷ s) + lap * k < suc n
    → glob_loop (suc n) (x ∷ p) (c ∷ s) back ≡ some (found (x ∷ p) (c ∷ s) back)
mismatch n x p c s lap k none again plain q v w h =
    round_none n x p c s q (ground arith) ∙ ap some (sym (ground (arith, no_match x p c s plain q)))
mismatch n x p c s lap k (some (bp, [])) again plain q v w h = absurd (omega (arith, w.behind))
mismatch n x p c s lap k (some (bp, b ∷ bs)) again plain q v w h =
    let (l, e, v', w') = returned (c ∷ s) lap k bp b bs w in
    let laps : lap * k ≡ k + l * k = ap (λ z. z * k) e ∙ lap_step l k in
    round_back n x p c s bp b bs q (ground arith)
    ∙ again bp bs l v' w' (omega (arith, laps, v'.short))
    ∙ ap some (sym (found_only_back (x ∷ p) (c ∷ s) bp b bs (no_match x p c s plain q)))

loop-found :
    (n : ℕ) (p s : GoString) (lap k : ℕ) (back : Star)
    → IsSound p s lap k back
    → SoundBack s lap k back
    → length p + length s + lap * k < n
    → glob_loop n p s back ≡ some (found p s back)
loop-found zero p s lap k back v w h = absurd (omega arith)
loop-found (suc n) p [] lap k back v w h = round_end n p back ∙ ap some (found_end p lap k back v)
loop-found (suc n) [] (c ∷ s) lap k none v w h = unfold glob_loop is_match in refl
loop-found (suc n) [] (c ∷ s) lap k (some (bp, [])) v w h = absurd (omega (arith, w.behind))
loop-found (suc n) [] (c ∷ s) lap k (some (bp, b ∷ bs)) v w h =
    let (l, e, v', w') = returned (c ∷ s) lap k bp b bs w in
    let laps : lap * k ≡ k + l * k = ap (λ z. z * k) e ∙ lap_step l k in
    round_empty n c s bp b bs
    ∙ loop-found n bp bs l k (some (bp, bs)) v' w' (omega (arith, laps, v'.short))
    ∙ ap some (sym (found_only_back [] (c ∷ s) bp b bs (no_more c s)))
loop-found (suc n) (x ∷ p) (c ∷ s) lap k back v w h = elim (ℕ_discrete x b'*') [
  | yes star ↦
      let v' : IsSound (b'*' ∷ p) (c ∷ s) lap k back =
        subst (λ y. IsSound (y ∷ p) (c ∷ s) lap k back) star v in
      let (u, u') = starred p c s lap k back v' in
      let not_literal : (b'*' == b'?' || b'*' == c) ≡ false = star_first c (v.clean.0) in
      ap (λ y. glob_loop (suc n) (y ∷ p) (c ∷ s) back) star
      ∙ round_starred n p c s back not_literal
      ∙ loop-found n p (c ∷ s) lap k (some (p, c ∷ s)) u u' (omega arith)
      ∙ ap some (sym (found_starred p c s lap k back v'))
      ∙ ap (λ y. some (found (y ∷ p) (c ∷ s) back)) (sym star)
  | no plain ↦ elim (Bool-cases (x == b'?' || x == c)) [
    | inl q ↦
        round_matched n x p c s back q
        ∙ loop-found n p s lap k back (matched x p c s lap k back plain v)
            (matched_back c s lap k back w) (omega arith)
        ∙ ap some (sym (found_matched x p c s back plain q))
    | inr q ↦
        mismatch n x p c s lap k back (λ bp bs l. loop-found n bp bs l k (some (bp, bs))) plain q v
          w h
  ]
]

-- On a text without a star the matcher returns, and says whether the text matches the pattern.
pub glob-is_match : (p s : GoString) → NoStar s → glob p s ≡ some (is_match p s)
unfolding glob
glob-is_match p s clean =
    loop-found (rounds p s) p s (suc (length s)) (suc (length p + length s)) none
      (record {
        absorbs = λ h. absurd (ground arith);
        clean = clean;
        short = omega arith;
        reach = omega arith;
      })
      tt (omega arith)
    ∙ ap some (or_false (is_match p s))
  where
    or_false : (b : Bool) → (b || false) ≡ b
    or_false b = ground arith
