-- ===== src/Vlancache/Handler/Outcome.antt =====
-- plugins/vlancache/handler.go: what `fetch` does on a failure.
use bramble_gate.Prelude.{
  ℕ, ◌≡◌, refl, sym, subst, ◌∙◌, ap, ◌⊎◌, inl, inr, true, Option, none, some, List, arith,
  Option-cases, Ip,
}
use bramble_gate.Prelude.Results.{ok}
use bramble_gate.Dns.{Library, Msg}
use bramble_gate.Vlancache.Entry.{Entry, new_entry}
use bramble_gate.Vlancache.Policy.{ResponseType, server_error, Upstream, ttl_for, scope_prefix}
use bramble_gate.Vlancache.Store.{Store, set_direct, if_current}
use bramble_gate.Vlancache.Handler.{
  rcode_server_failure, VlanCache, FetchResult, Call, Next, led, Storage, keep_nothing, keep_direct,
  keep_scoped, applies_to, response_of, tier_of, storage_of, commit, prefix_of, result_of,
  store_result, fetch, is_server_error,
}

module _ {Rr : Type 0} (dns : Library Rr) (up : Upstream Rr)
    (add : ℕ → Entry Rr → List (ℕ × Entry Rr) → List (ℕ × Entry Rr)) where
  -- A failure's entry goes to the direct tier.
  failure_tier :
      (call : Call Rr) (res : Msg Rr) (mt : ResponseType) (e : Entry Rr)
      → mt ≡ server_error
      → tier_of dns up add call res mt e ≡ keep_direct e
  unfolding tier_of
  failure_tier call res mt e h = elim (Option-cases (scope_prefix dns up res call.ip)) [
    | inl x ↦ ground arith
    | inr (p, x) ↦ let q : is_server_error mt ≡ true = ap is_server_error h in ground arith
  ]

  abbrev IsBucketWide : Storage Rr → Type 0
  IsBucketWide keep_nothing = Unit
  IsBucketWide (keep_direct e) = Unit
  IsBucketWide (keep_scoped p e) = ⊥

  storage_cases :
      (c : VlanCache) (call : Call Rr) (res : Msg Rr)
      → let mt = up.typify res call.now in
        let e =
          new_entry dns
            (up.canonical_name call.question_name)
            res
            call.now
            (ttl_for dns up c.fail_ttl res mt) in
        (storage_of dns up add c call res ≡ keep_nothing)
        ⊎ (storage_of dns up add c call res ≡ tier_of dns up add call res mt e)
  unfolding storage_of
  storage_cases c call res = ground arith

  failure_storage :
      (c : VlanCache) (call : Call Rr) (res : Msg Rr)
      → up.typify res call.now ≡ server_error
      → IsBucketWide (storage_of dns up add c call res)
  failure_storage c call res h = elim (storage_cases c call res) [
    | inl x ↦ subst IsBucketWide (sym x) tt
    | inr x ↦ subst IsBucketWide (sym (x ∙ failure_tier call res _ _ h)) tt
  ]

  wide_prefix : (x : Storage Rr) → IsBucketWide x → prefix_of x ≡ none
  wide_prefix keep_nothing h = refl
  wide_prefix (keep_direct e) h = refl
  wide_prefix (keep_scoped p e) h = absurd h

  wide_scoped :
      (gen : ℕ) (call : Call Rr) (x : Storage Rr) (s : Store Rr)
      → IsBucketWide x
      → (commit dns up add gen call x s).scoped ≡ s.scoped
  unfolding commit if_current set_direct
  wide_scoped gen call keep_nothing s h = refl
  wide_scoped gen call (keep_direct e) s h = ground arith
  wide_scoped gen call (keep_scoped p e) s h = absurd h

  answered_result :
      (c : VlanCache) (call : Call Rr) (next : Next Rr) (res : Msg Rr)
      → response_of dns up add call next ≡ ok res
      → result_of dns up add c call next
        ≡ ok (record { msg = res; prefix = prefix_of (storage_of dns up add c call res) })
  unfolding result_of
  answered_result c call next res h = ground arith

  answered_store :
      (c : VlanCache) (call : Call Rr) (next : Next Rr) (res : Msg Rr) (gen : ℕ) (s : Store Rr)
      → response_of dns up add call next ≡ ok res
      → store_result dns up add c call next gen s
        ≡ commit dns up add gen call (storage_of dns up add c call res) s
  unfolding store_result
  answered_store c call next res gen s h = ground arith

  unanswered :
      (call : Call Rr)
      → response_of dns up add call (record { msg = none; failed = true })
        ≡ ok (up.set_rcode call.req rcode_server_failure)
  unfolding response_of
  unanswered call = refl

  -- When the next plugin fails without a message, the leader's fetch is no error: it makes a server
  -- failure from the request, for every caller of the bucket whatever its address, and puts nothing
  -- in the scoped tier. The message made is taken to be of type ServerError.
  pub fetch-failure :
      (c : VlanCache) (call : Call Rr) (others : Store Rr → Store Rr) (s : Store Rr)
      → let res = up.set_rcode call.req rcode_server_failure in
        up.typify res call.now ≡ server_error
        → let x = fetch dns up add c call (led (record { msg = none; failed = true }) others) s in
          (fr : FetchResult Rr) × (x.0 ≡ ok fr)
          × (fr.msg ≡ res)
          × ((ip : Option Ip) → applies_to fr ip ≡ true)
          × (x.2.scoped ≡ (others s).scoped)
  unfolding fetch
  fetch-failure c call others s h = (
    record { msg = res; prefix = none },
    answered_result c call _ res (unanswered call)
        ∙ ap (λ p. ok (record { msg = res; prefix = p }))
            (wide_prefix (storage_of dns up add c call res) wide),
    refl,
    everyone,
    ap (λ (t : Store Rr). t.scoped)
          (answered_store c call _ res s.epoch (others s) (unanswered call))
        ∙ wide_scoped s.epoch call (storage_of dns up add c call res) (others s) wide,
  )
    where
      res : Msg Rr
      res = up.set_rcode call.req rcode_server_failure

      wide : IsBucketWide (storage_of dns up add c call res)
      wide = failure_storage c call res h

      everyone : (ip : Option Ip) → applies_to (record { msg = res; prefix = none }) ip ≡ true
      everyone none = unfold applies_to in refl
      everyone (some ip) = unfold applies_to in refl
