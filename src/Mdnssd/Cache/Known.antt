-- ===== src/Mdnssd/Cache/Known.antt =====
-- mdnssd/knownanswer.go: a query offers only answers that are far from any refresh.
use mathlib.Core.List.{Memᴰ}
use bramble_gate.Prelude.{
  ℕ, not, ◌&&◌, if◌then◌else◌, ap, ◌∙◌, ◌%◌, ◌^◌, ◌≡◌, refl, inl, inr, Bool-cases, true, false,
  Option, none, some, List, [], ◌∷◌, ◌++◌, AllValues, All, GoString, str_eq, arith,
}
use bramble_gate.Prelude.Int.{ℤ, pos, ◌-ℤ◌, ◌*ℤ◌, leb_ℤ, ltb_ℤ, pos_part, quot, -ℤ_parts}
use bramble_gate.Dns.{Library}
use bramble_gate.Mdnssd.Response.{second}
use bramble_gate.Mdnssd.Cache.{
  CacheRecord, Records, KnownRecord, elapsed, threshold_at, known_record, known_answers_for,
  remaining, known_answers,
}
use bramble_gate.Mdnssd.Cache.Ticks.{crossed}

-- Every lifetime is a whole number of seconds.
abbrev pub IsWhole : {Rr : Type 0} → CacheRecord Rr → Type 0
IsWhole r = r.ttl % second ≡ 0

abbrev pub AllWhole : {Rr : Type 0} → Records Rr → Type 0
AllWhole records = AllValues IsWhole records

young-crossed :
    (ttl : ℕ) (age : ℤ)
    → ttl % second ≡ 0
    → ltb_ℤ (age *ℤ pos 2) (pos ttl) ≡ true
    → crossed ttl age ≡ 0
unfolding threshold_at ◌*ℤ◌ crossed
young-crossed ttl age whole young = ground arith

-- What `knownAnswers` tests is that less than half of the lifetime has passed.
remaining-young :
    (ttl : ℕ) (age : ℤ)
    → leb_ℤ ((pos ttl -ℤ age) *ℤ pos 2) (pos ttl) ≡ false
    → ltb_ℤ (age *ℤ pos 2) (pos ttl) ≡ true
unfolding ◌*ℤ◌
remaining-young ttl age left = ground (arith, -ℤ_parts (pos ttl) age)

half_left :
    (ttl : ℕ) (age : ℤ)
    → leb_ℤ ((pos ttl -ℤ age) *ℤ pos 2) (pos ttl) ≡ not (ltb_ℤ (age *ℤ pos 2) (pos ttl))
unfolding ◌*ℤ◌
half_left ttl age = ground (arith, -ℤ_parts (pos ttl) age)

module _ {Rr : Type 0} (dns : Library Rr) (now : ℤ) (question : GoString) where
  -- An answer offered is a copy of a record of the cache that answers the question, with the whole
  -- seconds left as its TTL. More than half of the record's lifetime is left, and its age has
  -- reached no refresh threshold.
  pub record Offered (records : Records Rr) (answer : Rr) : Type 0 where
    pub key : GoString
    pub rec : CacheRecord Rr
    pub rr : Rr
    pub listed : Memᴰ (key, rec) records
    pub asked : str_eq rec.question question ≡ true
    pub held : rec.rr ≡ some rr
    pub young : ltb_ℤ (elapsed rec now *ℤ pos 2) (pos rec.ttl) ≡ true
    pub unreached : crossed rec.ttl (elapsed rec now) ≡ 0
    pub copied :
        answer ≡ dns.copy_with (pos_part (quot (pos rec.ttl -ℤ elapsed rec now) second) % 2 ^ 32) rr

  grow :
      (key : GoString) (rec : CacheRecord Rr) (records : Records Rr) (answers : List Rr)
      → All (Offered records) answers
      → All (Offered ((key, rec) ∷ records)) answers
  grow key rec records [] all = tt
  grow key rec records (a ∷ answers) all = (
    let o = all.0 in
        record {
          key = o.key;
          rec = o.rec;
          rr = o.rr;
          listed = Memᴰ.tail o.listed;
          asked = o.asked;
          held = o.held;
          young = o.young;
          unreached = o.unreached;
          copied = o.copied;
        },
    grow key rec records answers all.1,
  )

  abbrev record_of : CacheRecord Rr → Rr → KnownRecord Rr
  record_of rec rr = record {
    rr = rr;
    question = rec.question;
    ttl = rec.ttl;
    elapsed = elapsed rec now;
  }

  -- One record that answers the question and holds `rr`.
  offer :
      (key : GoString) (rec : CacheRecord Rr) (records : Records Rr) (rr : Rr)
      → rec.ttl % second ≡ 0
      → str_eq rec.question question ≡ true
      → rec.rr ≡ some rr
      → leb_ℤ (remaining dns (record_of rec rr) *ℤ pos 2) (pos rec.ttl) ≡ false
      → Offered
          ((key, rec) ∷ records)
          (dns.copy_with (pos_part (quot (remaining dns (record_of rec rr)) second) % 2 ^ 32) rr)
  unfolding remaining
  offer key rec records rr whole asked held left =
      let young = remaining-young rec.ttl (elapsed rec now) left in
      record {
        key = key;
        rec = rec;
        rr = rr;
        listed = Memᴰ.head refl;
        asked = asked;
        held = held;
        young = young;
        unreached = young-crossed rec.ttl (elapsed rec now) whole young;
        copied = refl;
      }

  offer_held :
      (key : GoString) (rec : CacheRecord Rr) (records : Records Rr)
      (others : List (KnownRecord Rr)) (o : Option Rr)
      → rec.ttl % second ≡ 0
      → str_eq rec.question question ≡ true
      → rec.rr ≡ o
      → All (Offered ((key, rec) ∷ records)) (known_answers dns others question)
      → All
          (Offered ((key, rec) ∷ records))
          (known_answers dns (known_record dns rec now o ++ others) question)
  unfolding known_answers
  offer_held key rec records others none whole asked held all = all
  offer_held key rec records others (some rr) whole asked held all =
      elim (Bool-cases (leb_ℤ (remaining dns (record_of rec rr) *ℤ pos 2) (pos rec.ttl))) [
        | inl old ↦ rw (asked, old) all
        | inr new ↦ rw (asked, new) (offer key rec records rr whole asked held new, all)
      ]

  -- Every answer that a query offers as known is such an answer.
  pub known-Offered :
      (records : Records Rr)
      → AllWhole records
      → All
          (Offered records)
          (known_answers dns (known_answers_for dns records question now) question)
  unfolding known_answers_for
  known-Offered [] whole = unfold known_answers in tt
  known-Offered ((key, rec) ∷ records) whole =
      let all = grow key rec records _ (known-Offered records whole.1) in
      elim (Bool-cases (str_eq rec.question question)) [
        | inl asked ↦ rw asked (offer_held key rec records _ rec.rr whole.0 asked refl all)
        | inr other ↦ rw other all
      ]

  -- The answers to offer: of the records that answer the question, hold an answer and have passed
  -- less than half of their lifetime, a copy with the whole seconds left.
  abbrev pub offer_one : CacheRecord Rr → Option Rr → List Rr → List Rr
  offer_one rec none rest = rest
  offer_one rec (some rr) rest =
      if str_eq rec.question question && ltb_ℤ (elapsed rec now *ℤ pos 2) (pos rec.ttl)
      then dns.copy_with (pos_part (quot (pos rec.ttl -ℤ elapsed rec now) second) % 2 ^ 32) rr
        ∷ rest
      else rest

  abbrev pub offers_of : Records Rr → List Rr
  offers_of [] = []
  offers_of ((key, rec) ∷ records) = offer_one rec rec.rr (offers_of records)

  known_one :
      (rec : CacheRecord Rr) (others : List (KnownRecord Rr)) (o : Option Rr)
      → known_answers dns
          (if str_eq rec.question question then known_record dns rec now o ++ others else others)
          question
        ≡ offer_one rec o (known_answers dns others question)
  unfolding known_answers remaining
  known_one rec others none = ground arith
  known_one rec others (some rr) = ground (arith, half_left rec.ttl (elapsed rec now))

  pub known-offers_of :
      (records : Records Rr)
      → known_answers dns (known_answers_for dns records question now) question ≡ offers_of records
  unfolding known_answers_for
  known-offers_of [] = unfold known_answers in refl
  known-offers_of ((key, rec) ∷ records) =
      known_one rec (known_answers_for dns records question now) rec.rr
      ∙ ap (offer_one rec rec.rr) (known-offers_of records)
