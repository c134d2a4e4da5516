-- ===== src/Vlancache/Policy/Bounds.antt =====
-- plugins/vlancache/handler.go: the TTL that an answer is cached for lies in the configured bounds.
use bramble_gate.Prelude.{
  ℕ, ◌*◌, ◌/◌, ◌≤◌, ◌≡◌, refl, true, some, List, ◌∷◌, arith, Ip, IpNet, v4, v6, net_contains,
  mask_ip-contains4, mask_ip-contains6,
}
use bramble_gate.Prelude.Int.{ℤ, pos, ◌≤ℤ◌}
use bramble_gate.Dns.{Library, Msg}
use bramble_gate.Vlancache.Policy.{
  ResponseType, name_error, no_data, server_error, Subnet, Upstream, clamp_duration, ttl_for,
  scope_net, scope_prefix,
}

-- A clamped duration lies between the bounds, and is the duration itself if that does.
pub clamp_duration_bounds :
    (d lo hi : ℤ)
    → lo ≤ℤ hi
    → (lo ≤ℤ clamp_duration d lo hi)
      × (clamp_duration d lo hi ≤ℤ hi)
      × (lo ≤ℤ d → d ≤ℤ hi → clamp_duration d lo hi ≡ d)
unfolding clamp_duration
clamp_duration_bounds d lo hi h = (ground arith, ground arith, λ a b. ground arith)

module _ {Rr : Type 0} (dns : Library Rr) (up : Upstream Rr) where
  -- A cached lifetime for each type of response: the failure TTL for a server failure, at most half
  -- the maximum for a denial, and at most the maximum for any other.
  abbrev pub InBounds : ℤ → ResponseType → ℤ → Type 0
  InBounds fail_ttl server_error ttl = ttl ≡ fail_ttl
  InBounds fail_ttl name_error ttl =
      (pos up.minimal_default_ttl ≤ℤ ttl) × (ttl ≤ℤ pos (up.maximum_default_ttl / 2))
  InBounds fail_ttl no_data ttl =
      (pos up.minimal_default_ttl ≤ℤ ttl) × (ttl ≤ℤ pos (up.maximum_default_ttl / 2))
  InBounds fail_ttl _ ttl =
      (pos up.minimal_default_ttl ≤ℤ ttl) × (ttl ≤ℤ pos up.maximum_default_ttl)

  -- `ttlFor` stays in the bounds of the response's type whatever TTL the message carries, if the
  -- minimum is at most half the maximum.
  pub ttl_for-InBounds :
      (fail_ttl : ℤ) (m : Msg Rr) (t : ResponseType)
      → up.minimal_default_ttl * 2 ≤ up.maximum_default_ttl
      → InBounds fail_ttl t (ttl_for dns up fail_ttl m t)
  unfolding ttl_for
  ttl_for-InBounds fail_ttl m server_error h = refl
  ttl_for-InBounds fail_ttl m name_error h =
      let (a, b, c) =
        clamp_duration_bounds (up.minimal_ttl m name_error (pos (up.maximum_default_ttl / 2)))
          (pos up.minimal_default_ttl) (pos (up.maximum_default_ttl / 2)) (omega arith) in
      (a, b)
  ttl_for-InBounds fail_ttl m no_data h =
      let (a, b, c) =
        clamp_duration_bounds (up.minimal_ttl m no_data (pos (up.maximum_default_ttl / 2)))
          (pos up.minimal_default_ttl) (pos (up.maximum_default_ttl / 2)) (omega arith) in
      (a, b)
  ttl_for-InBounds fail_ttl m t h =
      let (a, b, c) =
        clamp_duration_bounds (up.minimal_ttl m t (pos up.maximum_default_ttl))
          (pos up.minimal_default_ttl) (pos up.maximum_default_ttl) (omega arith) in
      (a, b)

  -- The family of a scope option is that of the address.
  abbrev pub FamilyOf : Ip → ℕ → Type 0
  FamilyOf (v4 a) family = family ≡ 1
  FamilyOf (v6 a) family = family ≡ 2

  -- The network that `scopePrefix` reads from an answer contains the address that asked, if the
  -- first scope option is of the address's family.
  pub scope_prefix-contains :
      (m : Msg Rr) (ip : Ip) (se : Subnet) (ses : List Subnet)
      → up.subnets m ≡ se ∷ ses
      → FamilyOf ip se.family
      → (n : IpNet) × (scope_prefix dns up m (some ip) ≡ some n) × (net_contains n ip ≡ true)
  unfolding scope_prefix scope_net
  scope_prefix-contains m (v4 a) se ses e f =
      (scope_net dns up (v4 a) se, rw (e, scope_prefix), rw f (mask_ip-contains4 a _))
  scope_prefix-contains m (v6 a) se ses e f =
      (scope_net dns up (v6 a) se, rw (e, scope_prefix), rw f (mask_ip-contains6 a _))
