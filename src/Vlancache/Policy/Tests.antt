-- ===== src/Vlancache/Policy/Tests.antt =====
-- plugins/vlancache/handler.go: tests of the caching policy, and its theorems at concrete inputs.
use bramble_gate.Prelude.{◌*◌, ◌≡◌, refl, true, false, some, arith, net4, mask_ip}
use bramble_gate.Prelude.Int.{pos, negsuc, ◌≤ℤ◌, ◌-ℤ◌, ◌*ℤ◌}
use bramble_gate.Vlancache.Entry.{second, remaining}
use bramble_gate.Vlancache.Policy.{
  name_error, no_error, server_error, clamp_duration, near_expiry, cacheable, has_soa, ttl_for,
  scope_net, scope_prefix,
}
use bramble_gate.Vlancache.Policy.Bounds.{InBounds, clamp_duration_bounds, ttl_for-InBounds}
use bramble_gate.Vlancache.Examples.{dns, up, answer, requester, printer}

-- A denial without an SOA record is not cached, and a failure is cached for the failure TTL.
cacheable_denial : cacheable dns up answer name_error ≡ false
unfolding cacheable has_soa
cacheable_denial = refl

ttl_failure : ttl_for dns up (pos (5 * second)) answer server_error ≡ pos (5 * second)
unfolding ttl_for
ttl_failure = refl

ttl_answer : ttl_for dns up (pos (5 * second)) answer no_error ≡ pos (300 * second)
unfolding ttl_for clamp_duration
ttl_answer = refl

scope_answer : scope_prefix dns up answer (some requester) ≡ some (net4 0x0a010200 24)
unfolding scope_prefix scope_net mask_ip
scope_answer = refl

-- 30 of 300 seconds left is near the expiry, and 31 is not.
near_expiry_30 : near_expiry printer (pos (270 * second)) ≡ true
unfolding near_expiry remaining ◌-ℤ◌ ◌*ℤ◌
near_expiry_30 = refl

near_expiry_31 : near_expiry printer (pos (269 * second)) ≡ false
unfolding near_expiry remaining ◌-ℤ◌ ◌*ℤ◌
near_expiry_31 = refl

clamp_duration_bounds_example :
    (pos 5 ≤ℤ clamp_duration (negsuc 2) (pos 5) (pos 9))
    × (clamp_duration (negsuc 2) (pos 5) (pos 9) ≤ℤ pos 9)
    × (pos 5 ≤ℤ negsuc 2 → negsuc 2 ≤ℤ pos 9 → clamp_duration (negsuc 2) (pos 5) (pos 9) ≡ negsuc 2)
clamp_duration_bounds_example = clamp_duration_bounds (negsuc 2) (pos 5) (pos 9) (omega arith)

ttl_for-InBounds_example :
    InBounds dns up
      (pos (5 * second))
      name_error
      (ttl_for dns up (pos (5 * second)) answer name_error)
ttl_for-InBounds_example =
    ttl_for-InBounds dns up (pos (5 * second)) answer name_error (omega arith)
