-- ===== src/Mdnsbridge/Glob/Laws.antt =====
-- plugins/mdnsbridge/selector.go: the matcher with one place to return to agrees with the definition
-- of a glob, on a text without a star.
use bramble_gate.Prelude.{
  ℕ, suc, ◌+◌, ◌-◌, ◌*◌, ◌≤◌, ◌<◌, ◌≡◌, ◌≢◌, refl, sym, ◌∙◌, inl, inr, Bool, true, false, ◌||◌,
  none, some, [], ◌∷◌, length, All, arith, ◌==◌, if◌then◌else◌, Bool-cases, GoString,
}
use bramble_gate.Mdnsbridge.Glob.{Star, all_stars}

-- Some suffix of the text passes a test.
abbrev pub any_suffix : (GoString → Bool) → GoString → Bool
any_suffix f [] = f []
any_suffix f (c ∷ s) = f (c ∷ s) || any_suffix f s

-- What a glob means: `*` stands for any run of bytes, `?` for any byte, and any other byte for
-- itself.
unfoldable pub is_match : GoString → GoString → Bool
is_match [] [] = true
is_match [] (c ∷ s) = false
is_match (x ∷ p) [] = if x == b'*' then is_match p [] else false
is_match (x ∷ p) (c ∷ s) =
    let taken = any_suffix (is_match p) (c ∷ s) in
    let next = is_match p s in
    if x == b'*' then taken else if x == b'?' || x == c then next else false

-- A proper suffix passes.
abbrev pub later_suffix : (GoString → Bool) → GoString → Bool
later_suffix f [] = false
later_suffix f (c ∷ s) = any_suffix f s

-- What the place to return to may still give.
abbrev pub later : Star → Bool
later none = false
later (some (bp, bs)) = later_suffix (is_match bp) bs

abbrev pub NoStar : GoString → Type 0
NoStar = All (λ c. c ≢ b'*')

stars_match : (p : GoString) → all_stars p ≡ is_match p []
unfolding all_stars is_match
stars_match [] = refl
stars_match (x ∷ p) = ground (arith, stars_match p)

-- A byte matched takes the first byte of any suffix with it.
any_suffix-next :
    (x : ℕ) (p : GoString) (c : ℕ) (s : GoString)
    → x ≢ b'*'
    → any_suffix (is_match (x ∷ p)) (c ∷ s) ≡ true
    → any_suffix (is_match p) s ≡ true
unfolding is_match
any_suffix-next x p c [] h k = ground arith
any_suffix-next x p c (d ∷ s) h k = ground (arith, any_suffix-next x p d s h)

pub star_suffix : (p s : GoString) → is_match (b'*' ∷ p) s ≡ any_suffix (is_match p) s
unfolding is_match
star_suffix p [] = refl
star_suffix p (c ∷ s) = refl

-- A star absorbs what a star before it would skip.
any_suffix-star :
    (p s : GoString) → any_suffix (is_match (b'*' ∷ p)) s ≡ true → any_suffix (is_match p) s ≡ true
any_suffix-star p [] h = sym (star_suffix p []) ∙ h
any_suffix-star p (c ∷ s) h = ground (arith, any_suffix-star p s, star_suffix p (c ∷ s))

-- The place to return to is of no use where a star is met, the text there is as long, and `lap` and
-- `k` bound the rounds.
pub record IsSound (p s : GoString) (lap k : ℕ) (back : Star) : Type 0 where
  pub absorbs : later back ≡ true → any_suffix (is_match p) s ≡ true
  pub clean : NoStar s
  pub short : length p + length s < k
  pub reach : length s ≤ lap

pub record IsSoundBack (s : GoString) (lap k : ℕ) (bp bs : GoString) : Type 0 where
  pub clean_back : NoStar bs
  pub short_back : length bp + length bs < k
  pub behind : length s ≤ length bs
  pub within : length bs ≤ lap

abbrev pub SoundBack : GoString → ℕ → ℕ → Star → Type 0
SoundBack s lap k none = Unit
SoundBack s lap k (some (bp, bs)) = IsSoundBack s lap k bp bs

-- One step of each kind keeps this.
pub matched :
    (x : ℕ) (p : GoString) (c : ℕ) (s : GoString) (lap k : ℕ) (back : Star)
    → x ≢ b'*'
    → IsSound (x ∷ p) (c ∷ s) lap k back
    → IsSound p s lap k back
matched x p c s lap k back h v = record {
  absorbs = λ l. any_suffix-next x p c s h (v.absorbs l);
  clean = v.clean.1;
  short = omega (arith, v.short);
  reach = omega (arith, v.reach);
}

pub matched_back :
    (c : ℕ) (s : GoString) (lap k : ℕ) (back : Star)
    → SoundBack (c ∷ s) lap k back
    → SoundBack s lap k back
matched_back c s lap k none v = tt
matched_back c s lap k (some (bp, bs)) v = record {
  clean_back = v.clean_back;
  short_back = v.short_back;
  behind = omega (arith, v.behind);
  within = v.within;
}

pub starred :
    (p : GoString) (c : ℕ) (s : GoString) (lap k : ℕ) (back : Star)
    → IsSound (b'*' ∷ p) (c ∷ s) lap k back
    → IsSound p (c ∷ s) lap k (some (p, c ∷ s)) × IsSoundBack (c ∷ s) lap k p (c ∷ s)
starred p c s lap k back v = (
  record {
    absorbs = λ l. ground arith;
    clean = v.clean;
    short = omega (arith, v.short);
    reach = v.reach;
  },
  record {
    clean_back = v.clean;
    short_back = omega (arith, v.short);
    behind = omega arith;
    within = v.reach;
  },
)

pub returned :
    (s : GoString) (lap k : ℕ) (bp : GoString) (b : ℕ) (bs : GoString)
    → IsSoundBack s lap k bp (b ∷ bs)
    → (l : ℕ) × (lap ≡ suc l) × IsSound bp bs l k (some (bp, bs)) × IsSoundBack bs l k bp bs
returned s lap k bp b bs v =
    let l : ℕ = lap - 1 in
    let e : lap ≡ suc l = omega (arith, v.within) in
    (
      l,
      e,
      record {
        absorbs = later_any bp bs;
        clean = v.clean_back.1;
        short = omega (arith, v.short_back);
        reach = omega (arith, v.within);
      },
      record {
        clean_back = v.clean_back.1;
        short_back = omega (arith, v.short_back);
        behind = omega arith;
        within = omega (arith, v.within);
      },
    )
  where
    later_any :
        (q t : GoString) → later_suffix (is_match q) t ≡ true → any_suffix (is_match q) t ≡ true
    later_any q [] h = absurd (ground arith)
    later_any q (d ∷ t) h = ground arith

pub lap_step : (l k : ℕ) → suc l * k ≡ k + l * k
lap_step l k = omega arith

-- What is left to find: a match here, or one at the place to return to.
abbrev pub found : GoString → GoString → Star → Bool
found p s back = is_match p s || later back

pub found_back : (bp bs : GoString) → found bp bs (some (bp, bs)) ≡ any_suffix (is_match bp) bs
found_back bp [] = ground arith
found_back bp (c ∷ bs) = refl

pub found_matched :
    (x : ℕ) (p : GoString) (c : ℕ) (s : GoString) (back : Star)
    → x ≢ b'*'
    → (x == b'?' || x == c) ≡ true
    → found (x ∷ p) (c ∷ s) back ≡ found p s back
unfolding is_match
found_matched x p c s back h q = ground arith

pub found_starred :
    (p : GoString) (c : ℕ) (s : GoString) (lap k : ℕ) (back : Star)
    → IsSound (b'*' ∷ p) (c ∷ s) lap k back
    → found (b'*' ∷ p) (c ∷ s) back ≡ found p (c ∷ s) (some (p, c ∷ s))
found_starred p c s lap k back v = elim (Bool-cases (later back)) [
  | inl e ↦
      let a : any_suffix (is_match p) (c ∷ s) ≡ true = any_suffix-star p (c ∷ s) (v.absorbs e) in
      ground (arith, star_suffix p (c ∷ s), found_back p (c ∷ s))
  | inr e ↦ ground (arith, star_suffix p (c ∷ s), found_back p (c ∷ s))
]

pub found_end :
    (p : GoString) (lap k : ℕ) (back : Star)
    → IsSound p [] lap k back
    → all_stars p ≡ found p [] back
found_end p lap k back v = elim (Bool-cases (later back)) [
  | inl e ↦ let a : is_match p [] ≡ true = v.absorbs e in ground (arith, stars_match p)
  | inr e ↦ ground (arith, stars_match p)
]

pub no_match :
    (x : ℕ) (p : GoString) (c : ℕ) (s : GoString)
    → x ≢ b'*'
    → (x == b'?' || x == c) ≡ false
    → is_match (x ∷ p) (c ∷ s) ≡ false
unfolding is_match
no_match x p c s h q = ground arith
