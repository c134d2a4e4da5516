-- ===== src/Mdnssd/Cache/Ticks.antt =====
-- mdnssd/cache.go: what a tick removes, what it asks to refresh, and that it does so once.
use bramble_gate.Prelude.{
  ℕ, zero, suc, ◌-◌, ◌≤◌, max, ◌≡◌, refl, inl, inr, Bool-cases, count_mono, is_nil, Bool, false,
  ◌&&◌, not, none, some, [], ◌∷◌, any, count, ltb, if◌then◌else◌, GoString, str_eq, string_discrete,
  lookup, Unique, AllValues, arith,
}
use bramble_gate.Prelude.Int.{ℤ, pos, ◌≤ℤ◌, leb_ℤ, -ℤ_parts}
use bramble_gate.Mdnssd.Cache.{
  CacheRecord, Records, threshold_at, elapsed, expired, advance, due_threshold, tick,
}

-- An age has reached a threshold.
abbrev reached : ℕ → ℤ → ℕ → Bool
reached ttl age i = leb_ℤ (pos (threshold_at ttl i)) age

-- How many of the thresholds an age has reached.
unfoldable pub crossed : ℕ → ℤ → ℕ
crossed ttl age = count (reached ttl age) (0 ∷ 1 ∷ 2 ∷ 3 ∷ [])

pub advance-eq-max :
    (ttl : ℕ) (age : ℤ) (sent : ℕ)
    → sent ≤ 4
    → advance (4 - sent) ttl age sent ≡ max sent (crossed ttl age)
unfolding advance threshold_at crossed
advance-eq-max ttl age zero h = ground arith
advance-eq-max ttl age (suc zero) h = ground arith
advance-eq-max ttl age (suc (suc zero)) h = ground arith
advance-eq-max ttl age (suc (suc (suc zero))) h = ground arith
advance-eq-max ttl age (suc (suc (suc (suc zero)))) h = ground arith
advance-eq-max ttl age (suc (suc (suc (suc (suc n))))) h = absurd (omega arith)

-- Every record of a cache has sent no more than the four refreshes.
abbrev pub IsBounded : {Rr : Type 0} → CacheRecord Rr → Type 0
IsBounded r = r.refreshes_sent ≤ 4

abbrev pub AllBounded : {Rr : Type 0} → Records Rr → Type 0
AllBounded records = AllValues IsBounded records

crossed-le : (ttl : ℕ) (age : ℤ) → crossed ttl age ≤ 4
unfolding crossed
crossed-le ttl age = ground arith

crossed_mono : (ttl : ℕ) (age later : ℤ) → age ≤ℤ later → crossed ttl age ≤ crossed ttl later
unfolding crossed
crossed_mono ttl age later h =
    count_mono (reached ttl age) (reached ttl later) (0 ∷ 1 ∷ 2 ∷ 3 ∷ []) (λ i e. ground arith)

module _ {Rr : Type 0} where
  pub due_threshold-eq :
      (r : CacheRecord Rr) (now : ℤ)
      → r.refreshes_sent ≤ 4
      → due_threshold r now ≡ (
        record r { refreshes_sent = max r.refreshes_sent (crossed r.ttl (elapsed r now)) },
        ltb r.refreshes_sent (crossed r.ttl (elapsed r now)),
      )
  unfolding due_threshold
  due_threshold-eq r now h = ground (arith, advance-eq-max r.ttl (elapsed r now) r.refreshes_sent h)

  pub due_threshold-IsBounded :
      (r : CacheRecord Rr) (now : ℤ) → IsBounded r → IsBounded (due_threshold r now).0
  due_threshold-IsBounded r now h =
      rw (due_threshold-eq r now h) (omega (arith, crossed-le r.ttl (elapsed r now)))

  -- What holds of records whatever refreshes are on their account still holds after a tick.
  pub tick-AllValues {μ} :
      (P : CacheRecord Rr → Type μ) (now : ℤ) (records : Records Rr)
      → ((r : CacheRecord Rr) → P r → P (due_threshold r now).0)
      → AllValues P records
      → AllValues P (tick now records).0
  unfolding tick
  tick-AllValues P now [] keep h = tt
  tick-AllValues P now ((key, r) ∷ records) keep h = elim (Bool-cases (expired r now)) [
    | inl old ↦ rw old (tick-AllValues P now records keep h.1)
    | inr new ↦ rw new (keep r h.0, tick-AllValues P now records keep h.1)
  ]

  tick_absent :
      (now : ℤ) (k : GoString) (records : Records Rr)
      → lookup string_discrete k records ≡ none
      → lookup string_discrete k (tick now records).0 ≡ none
  unfolding tick lookup
  tick_absent now k [] h = refl
  tick_absent now k ((key, r) ∷ records) h = ground (arith, tick_absent now k records)

  pub tick-Unique :
      (now : ℤ) (records : Records Rr)
      → Unique string_discrete records
      → Unique string_discrete (tick now records).0
  unfolding tick
  tick-Unique now [] u = tt
  tick-Unique now ((key, r) ∷ records) u =
      ground (arith, tick_absent now key records u.0, tick-Unique now records u.1)

  -- The record as a tick at `now` leaves it, and whether it is due then.
  abbrev pub ticked : ℤ → CacheRecord Rr → CacheRecord Rr
  ticked now r = record r { refreshes_sent = max r.refreshes_sent (crossed r.ttl (elapsed r now)) }

  abbrev pub is_due : ℤ → CacheRecord Rr → Bool
  is_due now r = not (expired r now) && ltb r.refreshes_sent (crossed r.ttl (elapsed r now))

  lookup-tick :
      (now : ℤ) (k : GoString) (records : Records Rr)
      → Unique string_discrete records
      → AllBounded records
      → lookup string_discrete k (tick now records).0 ≡ elim (lookup string_discrete k records) [
        | none ↦ none
        | some r ↦ if expired r now then none else some (ticked now r)
      ]
  unfolding tick lookup
  lookup-tick now k [] u h = refl
  lookup-tick now k ((key, r) ∷ records) u h =
      rw (due_threshold-eq r now h.0) (ground (arith, lookup-tick now k records u.1 h.1))

  any-gone :
      (now : ℤ) (k : GoString) (records : Records Rr)
      → Unique string_discrete records
      → any (str_eq k) (tick now records).2
        ≡ elim (lookup string_discrete k records) [ none ↦ false | some r ↦ expired r now ]
  unfolding tick lookup
  any-gone now k [] u = refl
  any-gone now k ((key, r) ∷ records) u = ground (arith, any-gone now k records u.1)

  any-due :
      (now : ℤ) (q : GoString) (records : Records Rr)
      → AllBounded records
      → any (str_eq q) (tick now records).1
        ≡ any (λ p. is_due now p.1 && str_eq q p.1.question) records
  unfolding tick
  any-due now q [] h = refl
  any-due now q ((key, r) ∷ records) h =
      rw (due_threshold-eq r now h.0) (ground (arith, any-due now q records h.1))

  -- A question is due if and only if a record is.
  pub is_nil-due :
      (now : ℤ) (records : Records Rr)
      → AllBounded records
      → is_nil (tick now records).1 ≡ not (any (λ p. is_due now p.1) records)
  unfolding tick
  is_nil-due now [] h = refl
  is_nil-due now ((key, r) ∷ records) h =
      rw (due_threshold-eq r now h.0) (ground (arith, is_nil-due now records h.1))

  -- A tick removes exactly the records whose lifetime has passed, and reports their keys. Every
  -- other record stays, with as many refreshes on its account as thresholds its age has reached.
  -- The questions reported as due are those of the records that stay and whose age has reached a
  -- threshold that was not on their account.
  pub tick_lem :
      (now : ℤ) (records : Records Rr)
      → Unique string_discrete records
      → AllBounded records
      → ((k : GoString)
          → lookup string_discrete k (tick now records).0
            ≡ elim (lookup string_discrete k records) [
              | none ↦ none
              | some r ↦ if expired r now then none else some (ticked now r)
            ])
        × ((k : GoString)
            → any (str_eq k) (tick now records).2
              ≡ elim (lookup string_discrete k records) [ none ↦ false | some r ↦ expired r now ])
        × ((q : GoString)
            → any (str_eq q) (tick now records).1
              ≡ any (λ p. is_due now p.1 && str_eq q p.1.question) records)
  tick_lem now records u h = (
    λ k. lookup-tick now k records u h,
    λ k. any-gone now k records u,
    λ q. any-due now q records h,
  )

  elapsed_mono :
      (r : CacheRecord Rr) (earlier now : ℤ) → earlier ≤ℤ now → elapsed r earlier ≤ℤ elapsed r now
  unfolding elapsed
  elapsed_mono r earlier now before =
      omega (arith, -ℤ_parts now r.stored_at, -ℤ_parts earlier r.stored_at)

  stable_record :
      (r : CacheRecord Rr) (earlier now : ℤ)
      → earlier ≤ℤ now
      → r.refreshes_sent ≤ 4
      → due_threshold (due_threshold r now).0 earlier ≡ ((due_threshold r now).0, false)
  unfolding elapsed
  stable_record r earlier now before h = ground (
    arith,
    due_threshold-eq r now h,
    due_threshold-eq (due_threshold r now).0 earlier (due_threshold-IsBounded r now h),
    crossed_mono r.ttl (elapsed r earlier) (elapsed r now) (elapsed_mono r earlier now before),
  )

  -- Advancing a record leaves its age, so one that is fresh now was fresh earlier.
  fresh_before :
      (r : CacheRecord Rr) (earlier now : ℤ)
      → earlier ≤ℤ now
      → r.refreshes_sent ≤ 4
      → expired r now ≡ false
      → expired (due_threshold r now).0 earlier ≡ false
  unfolding expired elapsed
  fresh_before r earlier now before h fresh =
      rw (due_threshold-eq r now h)
        (ground (arith, -ℤ_parts now r.stored_at, -ℤ_parts earlier r.stored_at))

  -- A tick has done all that is to be done up to its time: a tick at the same time or an earlier
  -- one then removes nothing, asks for nothing and changes nothing.
  pub tick-tick :
      (earlier now : ℤ) (records : Records Rr)
      → earlier ≤ℤ now
      → AllBounded records
      → tick earlier (tick now records).0 ≡ ((tick now records).0, [], [])
  unfolding tick
  tick-tick earlier now [] before h = refl
  tick-tick earlier now ((key, r) ∷ records) before h = elim (Bool-cases (expired r now)) [
    | inl old ↦ rw old (tick-tick earlier now records before h.1)
    | inr new ↦ rw (
      new,
      fresh_before r earlier now before h.0 new,
      stable_record r earlier now before h.0,
      tick-tick earlier now records before h.1,
    )
  ]
