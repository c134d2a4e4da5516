-- ===== src/Querylog/Ring/Refine.antt =====
-- plugins/querylog/ring.go: a valid ring holds the last entries pushed, newest first.
use bramble_gate.Prelude.{
  ℕ, zero, suc, ◌+◌, ◌-◌, ◌%◌, dec_lt, ◌≤◌, ◌<◌, ◌≡◌, refl, ◌∙◌, ap, sym, ap₂, ◌≢◌, ◌⊎◌, inl, inr,
  some, List, [], ◌∷◌, length, get_elem?, set, Bool-cases, take_of_length-le, take-cons, take,
  select, ltb, ◌==◌, if◌then◌else◌, arith, length-set,
}
use native.Mathlib.Nat.{add-mod_right, mod-eq_of_lt, mod_self, mod-lt}
use bramble_gate.Prelude.Int.{pos, ◌+ℤ◌, ◌-ℤ◌, rem, int_laws}
use bramble_gate.Querylog.Entry.{Entry, zero_entry}
use bramble_gate.Querylog.Ring.{
  Ring, Filter, matches, push, push_all, read_back, snapshot_from, snapshot,
}

-- Both indices are in range.
pub record IsValid (r : Ring) : Type 0 where
  pub head_in : r.head < length r.buf
  pub size_in : r.size ≤ length r.buf

abbrev get : List Entry → ℕ → Entry
get [] i = zero_entry
get (x ∷ xs) zero = x
get (x ∷ xs) (suc i) = get xs i

get_elem?-get : (xs : List Entry) (i : ℕ) → i < length xs → get_elem? xs i ≡ some (get xs i)
get_elem?-get [] i h = elim h [ ]
get_elem?-get (x ∷ xs) zero h = refl
get_elem?-get (x ∷ xs) (suc i) h = get_elem?-get xs i (omega arith)

get-set_self : (xs : List Entry) (i : ℕ) (v : Entry) → i < length xs → get (set xs i v) i ≡ v
get-set_self [] i v h = elim h [ ]
get-set_self (x ∷ xs) zero v h = refl
get-set_self (x ∷ xs) (suc i) v h = get-set_self xs i v (omega arith)

get-set_ne : (xs : List Entry) (i j : ℕ) (v : Entry) → i ≢ j → get (set xs i v) j ≡ get xs j
get-set_ne [] i j v h = refl
get-set_ne (x ∷ xs) zero zero v h = absurd (h refl)
get-set_ne (x ∷ xs) zero (suc j) v h = refl
get-set_ne (x ∷ xs) (suc i) zero v h = refl
get-set_ne (x ∷ xs) (suc i) (suc j) v h = get-set_ne xs i j v (λ e. h (ap suc e))

-- The slot before `h`, going round.
abbrev pub before : ℕ → ℕ → ℕ
before len h = if h == 0 then len - 1 else h - 1

-- The `n` entries in the slots before `h` of a buffer of `len` slots, the nearest first.
abbrev pub back : List Entry → ℕ → ℕ → ℕ → List Entry
back buf len h zero = []
back buf len h (suc n) = get buf (before len h) ∷ back buf len (before len h) n

-- What the ring stands for: its valid entries, newest first.
abbrev pub contents : Ring → List Entry
contents r = back r.buf (length r.buf) r.head r.size

length-back : (buf : List Entry) (len h n : ℕ) → length (back buf len h n) ≡ n
length-back buf len h zero = refl
length-back buf len h (suc n) = ap suc (length-back buf len (before len h) n)

take-back :
    (buf : List Entry) (len h m n : ℕ) → m ≤ n → take m (back buf len h n) ≡ back buf len h m
take-back buf len h zero n p = refl
take-back buf len h (suc m) zero p = absurd (omega arith)
take-back buf len h (suc m) (suc n) p =
    ap (◌∷◌ (get buf (before len h))) (take-back buf len (before len h) m n (omega arith))

before-lt : (len h : ℕ) → h < len → before len h < len
before-lt len h p = ground arith

-- Advancing the head and looking one slot back finds the slot just written.
before-next : (len h : ℕ) → h < len → before len ((h + 1) % len) ≡ h
before-next len h p = elim (dec_lt (h + 1) len) [
  | yes q ↦ rw (mod-eq_of_lt q) (ground arith)
  | no q ↦
      let e : h + 1 ≡ len = omega arith in
      let z : (h + 1) % len ≡ 0 = rw e (mod_self len) in rw z (omega arith)
]

-- One slot back, the distance to a fixed slot grows by one.
before_distance :
    (len h d i : ℕ)
    → h < len
    → d < len
    → (i ≡ h + d) ⊎ (i + len ≡ h + d)
    → (i ≡ before len h + suc d) ⊎ (i + len ≡ before len h + suc d)
before_distance len h d i p q e = elim (Bool-cases (h == 0)) [
  | inl z ↦ inr (ground arith)
  | inr z ↦ elim e [ inl a ↦ inl (ground arith) | inr a ↦ inr (ground arith) ]
]

-- A write `d` slots past the window leaves the window alone.
back-set :
    (buf : List Entry) (len h d i n : ℕ) (v : Entry)
    → h < len
    → d + n < len
    → (i ≡ h + d) ⊎ (i + len ≡ h + d)
    → i < len
    → back (set buf i v) len h n ≡ back buf len h n
back-set buf len h d i zero v p q e b = refl
back-set buf len h d i (suc n) v p q e b =
    ap₂ ◌∷◌ (get-set_ne buf i (before len h) v (ground arith)) (
      back-set buf len (before len h) (suc d) i n v (before-lt len h p) (omega arith)
        (before_distance len h d i p (omega arith) e) b)

-- What a push leaves, field by field.
abbrev pushed : Ring → Entry → Ring
pushed r e = record r {
  buf = set r.buf r.head e;
  head = (r.head + 1) % length r.buf;
  size = if ltb r.size (length r.buf) then r.size + 1 else r.size;
}

push-pushed : (r : Ring) (e : Entry) → IsValid r → push r e ≡ some (pushed r e)
unfolding push
push-pushed r e v = ground arith

pushed-IsValid : (r : Ring) (e : Entry) → IsValid r → IsValid (pushed r e)
pushed-IsValid r e v = record {
  head_in = rw length-set (mod-lt _ (omega arith));
  size_in = rw length-set (ground arith);
}

-- The window of the ring after a push, `m` entries long.
back-pushed :
    (r : Ring) (e : Entry) (m n : ℕ)
    → IsValid r
    → n < length r.buf
    → m ≡ suc n
    → back (set r.buf r.head e) (length r.buf) ((r.head + 1) % length r.buf) m
      ≡ e ∷ back r.buf (length r.buf) r.head n
back-pushed r e m n v p q =
    rw (q, before-next (length r.buf) r.head v.head_in)
      (ap₂ ◌∷◌ (get-set_self r.buf r.head e v.head_in) (
        back-set r.buf (length r.buf) r.head 0 r.head n e v.head_in (omega arith)
          (inl (omega arith)) v.head_in))

length-contents : (r : Ring) → length (contents r) ≡ r.size
length-contents r = length-back r.buf (length r.buf) r.head r.size

-- While there is room nothing is dropped; a full ring drops its oldest entry.
contents-pushed_room :
    (r : Ring) (e : Entry)
    → IsValid r
    → r.size < length r.buf
    → contents (pushed r e) ≡ take (length r.buf) (e ∷ contents r)
contents-pushed_room r e v p =
    rw (length-set, take-cons (length r.buf) e (contents r) (omega arith))
      (back-pushed r e _ r.size v p (ground arith)
        ∙ ap (◌∷◌ e) (sym (take_of_length-le _ (contents r) (omega (arith, length-contents r)))))

contents-pushed_full :
    (r : Ring) (e : Entry)
    → IsValid r
    → r.size ≡ length r.buf
    → contents (pushed r e) ≡ take (length r.buf) (e ∷ contents r)
contents-pushed_full r e v p =
    rw (length-set, take-cons (length r.buf) e (contents r) (omega arith))
      (back-pushed r e _ (length r.buf - 1) v (omega arith) (ground arith)
        ∙ ap (◌∷◌ e)
            (sym (take-back r.buf (length r.buf) r.head (length r.buf - 1) r.size (omega arith))))

contents-pushed :
    (r : Ring) (e : Entry)
    → IsValid r
    → contents (pushed r e) ≡ take (length r.buf) (e ∷ contents r)
contents-pushed r e v = elim (dec_lt r.size (length r.buf)) [
  | yes p ↦ contents-pushed_room r e v p
  | no p ↦ contents-pushed_full r e v (omega arith)
]

-- On a valid ring `Push` does not panic, keeps the ring valid and its capacity as it was, and
-- leaves in the ring the new entry before the old ones, the oldest dropped if the ring was full.
pub push_refines :
    (r : Ring) (e : Entry)
    → IsValid r
    → (r' : Ring) × (push r e ≡ some r')
      × IsValid r'
      × (length r'.buf ≡ length r.buf)
      × (contents r' ≡ take (length r.buf) (e ∷ contents r))
push_refines r e v = (
  pushed r e,
  push-pushed r e v,
  pushed-IsValid r e v,
  length-set r.buf r.head e,
  contents-pushed r e v,
)

-- The slot that round `i` of `Snapshot` reads, by the distance to the head.
slot_of_round :
    (len head i p : ℕ)
    → i < len
    → p < len
    → head < len
    → (p + i ≡ head) ⊎ (p + i ≡ head + len)
    → (head + len - 1 - i) % len ≡ before len p
slot_of_round len head i p a b c (inr e) =
    let x : head + len - 1 - i ≡ p - 1 = omega arith in
    rw (x, mod-eq_of_lt {n = p - 1} {m = len} (omega arith)) (ground arith)
slot_of_round len head i p a b c (inl e) = elim (Bool-cases (p == 0)) [
  | inl z ↦
      let x : head + len - 1 - i ≡ len - 1 = ground arith in
      rw (x, mod-eq_of_lt {n = len - 1} {m = len} (omega arith), z)
  | inr z ↦
      let x : head + len - 1 - i ≡ p - 1 + len = ground arith in
      rw (x, add-mod_right, mod-eq_of_lt {n = p - 1} {m = len} (omega arith), z)
]

before_round :
    (len head i p : ℕ)
    → i < len
    → (p + i ≡ head) ⊎ (p + i ≡ head + len)
    → (before len p + (i + 1) ≡ head) ⊎ (before len p + (i + 1) ≡ head + len)
before_round len head i p a e = elim (Bool-cases (p == 0)) [
  | inl z ↦ inr (ground arith)
  | inr z ↦ elim e [ inl x ↦ inl (ground arith) | inr x ↦ inr (ground arith) ]
]

read_back_lem :
    (r : Ring) (i p : ℕ)
    → IsValid r
    → i < length r.buf
    → p < length r.buf
    → (p + i ≡ r.head) ⊎ (p + i ≡ r.head + length r.buf)
    → read_back r i ≡ some (get r.buf (before (length r.buf) p))
unfolding read_back rem
read_back_lem r i p v a b e =
    let z : pos r.head -ℤ pos 1 -ℤ pos i +ℤ pos (length r.buf)
        ≡ pos (r.head + length r.buf - 1 - i) =
      omega int_laws in
    rw (z, slot_of_round (length r.buf) r.head i p a b v.head_in e)
      (get_elem?-get r.buf _ (before-lt (length r.buf) p b))

snapshot_from_lem :
    (r : Ring) (f : Filter) (i n p : ℕ)
    → IsValid r
    → i + n ≤ length r.buf
    → p < length r.buf
    → (p + i ≡ r.head) ⊎ (p + i ≡ r.head + length r.buf)
    → snapshot_from r f i n ≡ some (select (matches f) (back r.buf (length r.buf) p n))
unfolding snapshot_from
snapshot_from_lem r f i zero p v a b e = refl
snapshot_from_lem r f i (suc n) p v a b e = rw (
  read_back_lem r i p v (omega arith) b e,
  snapshot_from_lem r f (i + 1) n (before (length r.buf) p) v (omega arith)
      (before-lt (length r.buf) p b) (before_round (length r.buf) r.head i p (omega arith) e),
)

-- On a valid ring `Snapshot` does not panic, and returns exactly the entries held that match the
-- filter, newest first.
pub snapshot_lem :
    (r : Ring) (f : Filter) → IsValid r → snapshot r f ≡ some (select (matches f) (contents r))
unfolding snapshot
snapshot_lem r f v =
    snapshot_from_lem r f 0 r.size r.head v (omega arith) v.head_in (inl (omega arith))

-- What a run of pushes leaves in a log of at most `cap` entries, newest first.
abbrev pub logged : ℕ → List Entry → List Entry → List Entry
logged cap log [] = log
logged cap log (e ∷ es) = logged cap (take cap (e ∷ log)) es

-- A run of pushes never panics on a valid ring, keeps it valid, and leaves in it the log that a
-- list of at most its capacity would hold.
pub push_all_refines :
    (es : List Entry) (r : Ring)
    → IsValid r
    → (r' : Ring) × (push_all r es ≡ some r')
      × IsValid r'
      × (contents r' ≡ logged (length r.buf) (contents r) es)
unfolding push_all
push_all_refines [] r v = (r, refl, v, refl)
push_all_refines (e ∷ es) r v =
    let (r', done, v', w, c) = push_refines r e v in
    let (r2, done2, v2, c2) = push_all_refines es r' v' in
    (r2, rw done done2, v2, c2 ∙ ap₂ (λ k l. logged k l es) w c)
