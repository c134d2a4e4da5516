-- ===== src/Model/Domain/Canonical.antt =====
-- model/domain.go: what `ParseDomainName` accepts is canonical, and stays as it is when it is
-- parsed again.
use mathlib.Core.List.{reverse, reverse-cons}
use bramble_gate.Prelude.{
  ℕ, ◌≤◌, ◌≡◌, refl, sym, ap, subst, ◌∙◌, Bool, true, false, ◌||◌, Option, none, [], ◌∷◌, ◌++◌, any,
  any-append, length, ◌==◌, if◌then◌else◌, GoString, codes, str_eq, is_empty, is_space, contains,
  has_prefix, trim_space, trim_space_none, trim_dot, to_lower, lower_byte, has_suffix, Ip, arith,
}
use bramble_gate.Prelude.Results.{ok}
use bramble_gate.Model.Domain.{
  max_domain_len, split, check_labels, is_invalid, finish_name, parse_trimmed, parse_domain_name,
  normalized_name,
}

-- A byte that no part of a name may be.
abbrev is_bad : ℕ → Bool
is_bad c = is_invalid c || (c == b'/' || (c == b':' || c == b'*'))

contains_absent :
    (c : ℕ) (ps s : GoString) → any (λ d. d == c) s ≡ false → contains s (c ∷ ps) ≡ false
unfolding contains has_prefix
contains_absent c ps [] h = refl
contains_absent c ps (d ∷ s) h = ground (arith, contains_absent c ps s)

contains_byte : (c : ℕ) (s : GoString) → contains s (c ∷ []) ≡ any (λ d. d == c) s
unfolding contains has_prefix
contains_byte c [] = refl
contains_byte c (d ∷ s) = ground (arith, contains_byte c s)

module _ (p q : ℕ → Bool) where
  any_weaken :
      (s : GoString) → ((c : ℕ) → q c ≡ true → p c ≡ true) → any p s ≡ false → any q s ≡ false
  any_weaken [] f h = refl
  any_weaken (c ∷ s) f h = ground (arith, f c, any_weaken s f)

  any_join : (s : GoString) → any p s ≡ false → any q s ≡ false → any (λ c. p c || q c) s ≡ false
  any_join [] h k = refl
  any_join (c ∷ s) h k = ground (arith, any_join s)

any-trim_dot : (p : ℕ → Bool) (s : GoString) → any p s ≡ false → any p (trim_dot s) ≡ false
unfolding trim_dot
any-trim_dot p [] h = refl
any-trim_dot p (c ∷ []) h = ground arith
any-trim_dot p (c ∷ d ∷ s) h = ground (arith, any-trim_dot p (d ∷ s))

any-to_lower : (s : GoString) → any is_bad s ≡ false → any is_bad (to_lower s) ≡ false
unfolding to_lower
any-to_lower [] h = refl
any-to_lower (c ∷ s) h = ground (arith, any-to_lower s)

trim_dot-append : (s : GoString) → trim_dot (s ++ codes ".") ≡ s
unfolding trim_dot
trim_dot-append [] = refl
trim_dot-append (c ∷ []) = refl
trim_dot-append (c ∷ d ∷ s) = ap (◌∷◌ c) (trim_dot-append (d ∷ s))

to_lower-to_lower : (s : GoString) → to_lower (to_lower s) ≡ to_lower s
unfolding to_lower
to_lower-to_lower [] = refl
to_lower-to_lower (c ∷ s) = ground (arith, to_lower-to_lower s)

any-map_lower : (s : GoString) → any is_bad s ≡ false → any is_bad (to_lower s ++ codes ".") ≡ false
any-map_lower s h = rw (any-append is_bad (to_lower s) (codes "."), any-to_lower s h) refl

to_lower-append : (s : GoString) → to_lower (s ++ codes ".") ≡ to_lower s ++ codes "."
unfolding to_lower
to_lower-append [] = refl
to_lower-append (c ∷ s) = ap (◌∷◌ (lower_byte c)) (to_lower-append s)

-- What is left after the checks of `finish_name`.
pub record IsName (name : GoString) : Type 0 where
  pub short : length name ≤ max_domain_len
  pub labels : check_labels (split b'.' name) ≡ none

finish_name-eq-ok :
    (name : GoString) {n : GoString}
    → finish_name name ≡ ok n
    → (name ++ codes "." ≡ n) × IsName name
unfolding finish_name
finish_name-eq-ok name {n} h =
    (ground arith, record { short = ground arith; labels = ground arith })

finish_name-IsName : (name : GoString) → IsName name → finish_name name ≡ ok (name ++ codes ".")
unfolding finish_name
finish_name-IsName name v = let short = v.short in let labels = v.labels in ground arith

body_cases :
    (body : GoString)
    → IsName body
    → (is_empty (body ++ codes ".") || str_eq (body ++ codes ".") (codes ".")) ≡ false
unfolding check_labels split
body_cases [] v = let impossible = v.labels in cc
body_cases (c ∷ []) v = ground arith
body_cases (c ∷ d ∷ body) v = ground arith

has_prefix-append :
    (p d : ℕ) (xs ys : GoString)
    → has_prefix ((xs ++ d ∷ []) ++ ys) (p ∷ []) ≡ has_prefix (xs ++ d ∷ []) (p ∷ [])
unfolding has_prefix
has_prefix-append p d [] ys = ground arith
has_prefix-append p d (x ∷ xs) ys = ground arith

has_suffix-cons :
    (c d : ℕ) (s : GoString) → has_suffix (c ∷ d ∷ s) (codes ".") ≡ has_suffix (d ∷ s) (codes ".")
unfolding has_suffix
has_suffix-cons c d s =
    rw (reverse-cons c (d ∷ s), reverse-cons d s) (has_prefix-append b'.' d (reverse s) (c ∷ []))

dotted_once :
    (t : GoString)
    → (if has_suffix (to_lower t) (codes ".") then to_lower t else to_lower t ++ codes ".")
      ≡ to_lower (trim_dot t) ++ codes "."
unfolding to_lower trim_dot
dotted_once [] = unfold has_suffix in refl
dotted_once (c ∷ []) = unfold has_suffix has_prefix in ground arith
dotted_once (c ∷ d ∷ t) =
    rw (has_suffix-cons (lower_byte c) (lower_byte d) (to_lower t))
      (ground (arith, dotted_once (d ∷ t)))

normalized_lem :
    (s : GoString) → normalized_name s ≡ to_lower (trim_dot (trim_space s)) ++ codes "."
unfolding normalized_name
normalized_lem s = dotted_once (trim_space s)

-- A name in the form that the DNS engine keys on: lower case, with a last dot, of non-empty
-- labels of at most 63 bytes, at most 253 bytes long without the dot, of visible ASCII characters
-- other than slash, colon and star.
pub record IsCanonical (n : GoString) : Type 0 where
  pub body : GoString
  pub dotted : body ++ codes "." ≡ n
  pub clean : any is_bad n ≡ false
  pub lower : to_lower n ≡ n
  pub name : IsName body

module _ (parse_ip : GoString → Option Ip) where
  -- What the guards of `parse_trimmed` have checked of a name that it accepts.
  record Passed (s n : GoString) : Type 0 where
    clean : any is_invalid s ≡ false
    no_slash : contains s (codes "/") ≡ false
    no_colon : contains s (codes ":") ≡ false
    no_star : contains s (codes "*") ≡ false
    finished : finish_name (to_lower (trim_dot s)) ≡ ok n

  parse_trimmed-Passed :
      (s : GoString) {n : GoString} → parse_trimmed parse_ip s ≡ ok n → Passed s n
  unfolding parse_trimmed
  parse_trimmed-Passed s h = record {
    clean = ground arith;
    no_slash = ground arith;
    no_colon = ground arith;
    no_star = ground arith;
    finished = ground arith;
  }

  Passed-clean : (s : GoString) {n : GoString} → Passed s n → any is_bad s ≡ false
  Passed-clean s p = any_join is_invalid _ s p.clean (
      any_join _ _ s (sym (contains_byte b'/' s) ∙ p.no_slash) (
        any_join _ _ s (sym (contains_byte b':' s) ∙ p.no_colon)
          (sym (contains_byte b'*' s) ∙ p.no_star)))

  accepts_canonical :
      (body : GoString)
      → any is_bad (body ++ codes ".") ≡ false
      → to_lower body ≡ body
      → IsName body
      → parse_ip (body ++ codes ".") ≡ none
      → parse_trimmed parse_ip (body ++ codes ".") ≡ ok (body ++ codes ".")
  unfolding parse_trimmed
  accepts_canonical body clean lower v no_ip =
      let t = body ++ codes "." in
      let absent = λ (c : ℕ) (bad : (d : ℕ) → (d == c) ≡ true → is_bad d ≡ true) (ps : GoString).
        contains_absent c ps t (any_weaken is_bad (λ d. d == c) t bad clean) in
      rw
        (
          body_cases body v,
          absent b':' (λ d e. ground arith) (codes "//"),
          absent b'/' (λ d e. ground arith) [],
          no_ip,
          absent b':' (λ d e. ground arith) [],
          any_weaken is_bad is_space t (λ d e. ground arith) clean,
          absent b'*' (λ d e. ground arith) [],
          any_weaken is_bad is_invalid t (λ d e. ground arith) clean,
          trim_dot-append body,
          lower,
        )
        (finish_name-IsName body v)

  parse_trimmed-IsCanonical :
      (s : GoString) {n : GoString} → parse_trimmed parse_ip s ≡ ok n → IsCanonical n
  parse_trimmed-IsCanonical s h =
      let p = parse_trimmed-Passed s h in
      let f = finish_name-eq-ok (to_lower (trim_dot s)) p.finished in
      record {
        body = to_lower (trim_dot s);
        dotted = f.0;
        clean =
            rw (sym f.0) (any-map_lower (trim_dot s) (any-trim_dot is_bad s (Passed-clean s p)));
        lower = rw (sym f.0) (to_lower-append _ ∙ rw (to_lower-to_lower (trim_dot s)) refl);
        name = f.1;
      }

  reparse :
      (body : GoString)
      → any is_bad (body ++ codes ".") ≡ false
      → to_lower (body ++ codes ".") ≡ body ++ codes "."
      → IsName body
      → parse_ip (body ++ codes ".") ≡ none
      → parse_domain_name parse_ip (body ++ codes ".") ≡ ok (body ++ codes ".")
  unfolding parse_domain_name
  reparse body clean lower v no_ip =
      let undotted =
        sym (trim_dot-append (to_lower body))
        ∙ ap trim_dot (sym (to_lower-append body) ∙ lower)
        ∙ trim_dot-append body in
      rw
        (trim_space_none (body ++ codes ".")
          (any_weaken is_bad is_space (body ++ codes ".") (λ d e. ground arith) clean))
        (accepts_canonical body clean undotted v no_ip)

  -- A name that is accepted comes out in the form that the DNS engine keys on, in which the keys of
  -- records and hosts are normalised too; and parsing it again gives the same name, since
  -- net.ParseIP reads no text that ends with a dot.
  pub parse_domain_name-IsCanonical :
      (s : GoString) {n : GoString}
      → ((t : GoString) → parse_ip (t ++ codes ".") ≡ none)
      → parse_domain_name parse_ip s ≡ ok n
      → IsCanonical n × (normalized_name s ≡ n) × (parse_domain_name parse_ip n ≡ ok n)
  unfolding parse_domain_name
  parse_domain_name-IsCanonical s {n} no_dot h =
      let c = parse_trimmed-IsCanonical (trim_space s) h in
      let p = parse_trimmed-Passed (trim_space s) h in
      let f = finish_name-eq-ok (to_lower (trim_dot (trim_space s))) p.finished in
      (
        c,
        normalized_lem s ∙ f.0,
        subst (λ t. parse_domain_name parse_ip t ≡ ok t) c.dotted
            (reparse c.body (rw c.dotted c.clean) (rw c.dotted c.lower) c.name (no_dot c.body)),
      )
