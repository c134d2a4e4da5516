-- ===== src/Prelude/Text.antt =====
-- Go strings as lists of bytes, with the functions of package strings that the program calls.
-- Letters are lowered in the ASCII range only: names on the wire are bytes, and the other code
-- points that strings.ToLower would change stay as they are here.
use Prim.Native.Nat.{ℕ, ◌+◌, ◌-◌}
use Prim.Native.Char.{code}
use Prim.Native.String.{String}
use mathlib.Core.Path.{◌≡◌, refl, ◌∙◌}
use mathlib.Core.Bool.{Bool, true, false, ◌&&◌, ◌||◌}
use mathlib.Core.List.{List, [], ◌∷◌, map, reverse, reverse-cons, reverse-reverse}
use mathlib.Core.Option.{Option, none, some}
use native.Mathlib.Omega.{arith}
use native.Mathlib.Decide.{ℕ_discrete}
use bramble_gate.Prelude.Tests.{leb, ◌==◌, if◌then◌else◌}
use bramble_gate.Prelude.Lists.{length, take, any, any-append}
use bramble_gate.Prelude.Maps.{same, same_yes}

abbrev pub GoString : Type 0
GoString = List ℕ

abbrev pub codes : String → GoString
codes String.[] = []
codes (String.◌∷◌ c s) = code c ∷ codes s

unfoldable pub string_discrete : Discrete GoString
unfolding ℕ_discrete
string_discrete = hlevel ℕ_discrete

abbrev pub str_eq : GoString → GoString → Bool
str_eq = same string_discrete

pub str_eq_refl : (s : GoString) → str_eq s s ≡ true
str_eq_refl s = same_yes string_discrete s s refl

pub str_eq→eq : (s t : GoString) → str_eq s t ≡ true → s ≡ t
str_eq→eq s t h = ground arith

abbrev pub is_empty : GoString → Bool
is_empty [] = true
is_empty (_ ∷ _) = false

abbrev pub lower_byte : ℕ → ℕ
lower_byte c = if leb b'A' c && leb c b'Z' then c + 32 else c

-- strings.ToLower
unfoldable pub to_lower : GoString → GoString
to_lower s = map lower_byte s

-- strings.HasPrefix
unfoldable pub has_prefix : GoString → GoString → Bool
has_prefix s [] = true
has_prefix [] (p ∷ ps) = false
has_prefix (c ∷ s) (p ∷ ps) = if c == p then has_prefix s ps else false

-- strings.Contains
unfoldable pub contains : GoString → GoString → Bool
unfolding has_prefix
contains [] sub = has_prefix [] sub
contains (c ∷ s) sub = if has_prefix (c ∷ s) sub then true else contains s sub

-- strings.TrimSuffix with one dot
unfoldable pub trim_dot : GoString → GoString
trim_dot [] = []
trim_dot (c ∷ []) = if c == b'.' then [] else c ∷ []
trim_dot (c ∷ d ∷ s) = c ∷ trim_dot (d ∷ s)

-- The ASCII white space of unicode.IsSpace
abbrev pub is_space : ℕ → Bool
is_space c = c == b' ' || (leb 9 c && leb c 13)

trim_left : GoString → GoString
trim_left [] = []
trim_left (c ∷ s) = if is_space c then trim_left s else c ∷ s

-- strings.TrimSpace
unfoldable pub trim_space : GoString → GoString
unfolding trim_left
trim_space s = reverse (trim_left (reverse (trim_left s)))

-- strings.HasSuffix
unfoldable pub has_suffix : GoString → GoString → Bool
unfolding has_prefix
has_suffix s suffix = has_prefix (reverse s) (reverse suffix)

-- strings.TrimSuffix
unfoldable pub trim_suffix : GoString → GoString → GoString
unfolding has_suffix
trim_suffix s suffix = if has_suffix s suffix then take (length s - length suffix) s else s

-- strings.Cut with one byte: what stands before and after its first occurrence.
unfoldable pub cut : ℕ → GoString → Option (GoString × GoString)
cut d [] = none
cut d (c ∷ s) =
    let rest = cut d s in
    if c == d
    then some ([], s)
    else (elim rest [ none ↦ none | some (before, after) ↦ some (c ∷ before, after) ])

-- Text without white space is left as it is.
any-reverse : (p : ℕ → Bool) (s : GoString) → any p (reverse s) ≡ any p s
any-reverse p [] = refl
any-reverse p (c ∷ s) =
    rw (reverse-cons c s) (ground (arith, any-append p (reverse s) (c ∷ []), any-reverse p s))

trim_left_none : (s : GoString) → any is_space s ≡ false → trim_left s ≡ s
unfolding trim_left
trim_left_none [] h = refl
trim_left_none (c ∷ s) h = ground arith

pub trim_space_none : (s : GoString) → any is_space s ≡ false → trim_space s ≡ s
unfolding trim_space
trim_space_none s h =
    rw (trim_left_none s h, trim_left_none (reverse s) (any-reverse is_space s ∙ h))
      (reverse-reverse s)

test_contains : contains (codes "printer.home.arpa.") (codes "home") ≡ true
unfolding contains
test_contains = refl

test_eq : str_eq (codes "abc") (codes "abc") ≡ true
unfolding string_discrete
test_eq = refl

test_lower : to_lower (codes "Ab.C") ≡ codes "ab.c"
unfolding to_lower
test_lower = refl

test_trim : trim_space (codes "  a b ") ≡ codes "a b"
unfolding trim_space
test_trim = refl

test_suffix : trim_suffix (codes "_http._tcp.local.") (codes ".local.") ≡ codes "_http._tcp"
unfolding trim_suffix
test_suffix = refl

test_cut : cut b'=' (codes "a=b=c") ≡ some (codes "a", codes "b=c")
unfolding cut
test_cut = refl
