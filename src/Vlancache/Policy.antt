-- ===== src/Vlancache/Policy.antt =====
-- plugins/vlancache/handler.go: what may be cached, for how long, and for whom.
pub mod Bounds
mod Tests
use bramble_gate.Prelude.{
  ℕ, ◌*◌, ◌/◌, ◌≤◌, ◌≡◌, Bool, true, false, ◌&&◌, ◌||◌, not, Option, none, some, List, [], ◌∷◌, any,
  ltb, leb, ◌==◌, min, if◌then◌else◌, Ip, IpNet, mask_ip, GoString,
}
use bramble_gate.Prelude.Int.{ℤ, pos, pos_part, ◌*ℤ◌, ltb_ℤ, leb_ℤ}
use bramble_gate.Dns.{Library, Msg, type_soa}
use bramble_gate.Vlancache.Entry.{Entry, remaining}

-- response.Type of coredns: the types that the code names, and the others.
pub data ResponseType : Type 0 where
  name_error no_data server_error other_error meta update no_error delegation : ResponseType

-- An EDNS0_SUBNET option: its family, and the scope that the upstream echoed.
pub record Subnet : Type 0 where
  pub family : ℕ
  pub source_scope : ℕ

-- What the handler uses of coredns and of dns.Msg: response.Typify, dnsutil.MinimalTTLWithMaximum
-- with its two bounds, the EDNS0_SUBNET options of a message (nothing without an OPT record),
-- dns.CanonicalName, SetRcode, SetQuestion on a new message, and SetEdns0.
pub record Upstream (Rr : Type 0) : Type 0 where
  pub typify : Msg Rr → ℤ → ResponseType
  pub minimal_ttl : Msg Rr → ResponseType → ℤ → ℤ
  pub minimal_default_ttl : ℕ
  pub maximum_default_ttl : ℕ
  pub subnets : Msg Rr → List Subnet
  pub canonical_name : GoString → GoString
  pub set_rcode : Msg Rr → ℤ → Msg Rr
  pub set_question : GoString → ℕ → Msg Rr
  pub set_edns0 : Msg Rr → ℕ → Bool → Msg Rr

-- `clampDuration`
unfoldable pub clamp_duration : ℤ → ℤ → ℤ → ℤ
clamp_duration d lo hi = if ltb_ℤ d lo then lo else if ltb_ℤ hi d then hi else d

-- `nearExpiry`. The code divides as float64 and compares with 0.10; for durations below 2 ^ 52
-- nanoseconds that agrees with this comparison.
unfoldable pub near_expiry : {Rr : Type 0} → Entry Rr → ℤ → Bool
near_expiry e now =
    if leb_ℤ e.orig_ttl (pos 0) then false else leb_ℤ (pos 10 *ℤ remaining e now) e.orig_ttl

module _ {Rr : Type 0} (dns : Library Rr) (up : Upstream Rr) where
  -- `hasSOA`
  unfoldable pub has_soa : Msg Rr → Bool
  has_soa m = any (λ rr. dns.rr_type rr == type_soa) m.ns

  -- The `switch` of `cacheable`
  unfoldable pub cacheable_type : Msg Rr → ResponseType → Bool
  cacheable_type m other_error = false
  cacheable_type m meta = false
  cacheable_type m update = false
  cacheable_type m name_error = has_soa m
  cacheable_type m _ = true

  -- `cacheable`
  unfoldable pub cacheable : Msg Rr → ResponseType → Bool
  unfolding cacheable_type
  cacheable m t = if m.truncated then false else cacheable_type m t

  -- `minTTL`, `maxTTL`, `minNTTL`, `maxNTTL`
  abbrev pub min_ttl : ℤ
  min_ttl = pos up.minimal_default_ttl

  abbrev pub max_ttl : ℤ
  max_ttl = pos up.maximum_default_ttl

  abbrev pub max_nttl : ℤ
  max_nttl = pos (up.maximum_default_ttl / 2)

  -- `ttlFor`
  unfoldable pub ttl_for : ℤ → Msg Rr → ResponseType → ℤ
  ttl_for fail_ttl m name_error =
      clamp_duration (up.minimal_ttl m name_error max_nttl) min_ttl max_nttl
  ttl_for fail_ttl m no_data = clamp_duration (up.minimal_ttl m no_data max_nttl) min_ttl max_nttl
  ttl_for fail_ttl m server_error = fail_ttl
  ttl_for fail_ttl m t = clamp_duration (up.minimal_ttl m t max_ttl) min_ttl max_ttl

  -- The network of a scope option: its mask has 16 bytes for family 2, and else 4.
  unfoldable pub scope_net : Ip → Subnet → IpNet
  scope_net ip se =
      let wide = se.family == 2 in
      let bits = if wide then 128 else 32 in
      mask_ip ip wide (if ltb bits se.source_scope then bits else se.source_scope)

  -- `scopePrefix`: the first scope option decides.
  unfoldable pub scope_prefix : Msg Rr → Option Ip → Option IpNet
  scope_prefix m none = none
  scope_prefix m (some ip) = elim (up.subnets m) [ [] ↦ none | se ∷ _ ↦ some (scope_net ip se) ]
