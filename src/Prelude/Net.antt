-- ===== src/Prelude/Net.antt =====
-- Package net: addresses, networks, and which addresses a network contains.
use Prim.Native.Nat.{ℕ, zero, suc, ◌+◌, ◌-◌, ◌*◌, ◌/◌, ◌^◌, ◌≤◌, ◌<◌}
use mathlib.Core.Path.{◌≡◌, sym, ap, ◌∙◌}
use mathlib.Core.Logic.{◌⊎◌, inl, inr}
use mathlib.Core.Bool.{Bool, true, false}
use mathlib.Core.Option.{Option, none, some}
use native.Mathlib.Omega.{arith}
use native.Mathlib.Decide.{ℕ_discrete, dec_le}
use native.Mathlib.Nat.{
  mul-div_cancel, add-zero, add-suc, pow-zero, pow-suc, div-div-eq-div-mul, mul_assoc,
}
use bramble_gate.Prelude.Tests.{◌==◌, leb, if◌then◌else◌}

-- net.IP by the value of its bytes. A 16-byte form of an IPv4 address is `v4`, as To4 and
-- Contains read it.
pub data Ip : Type 0 where
  v4 : ℕ → Ip
  v6 : ℕ → Ip

unfoldable pub Ip-discrete : Discrete Ip
unfolding ℕ_discrete
Ip-discrete = hlevel ℕ_discrete

-- net.IPNet: the network's address, and the length of its mask. `net4in6` is an IPv4 address under
-- a 16-byte mask that keeps the mapping prefix, and `no_net` a mask whose address is nil.
pub data IpNet : Type 0 where
  net4 : ℕ → ℕ → IpNet
  net6 : ℕ → ℕ → IpNet
  net4in6 : ℕ → ℕ → IpNet
  no_net : ℕ → IpNet

unfoldable pub IpNet-discrete : Discrete IpNet
unfolding ℕ_discrete
IpNet-discrete = hlevel ℕ_discrete

-- The first `len` of `width` bits of an address.
abbrev pub prefix_bits : ℕ → ℕ → ℕ → ℕ
prefix_bits width len a = a / 2 ^ (width - len)

-- IPNet.Contains
unfoldable pub net_contains : IpNet → Ip → Bool
net_contains (net4 base len) (v4 a) = prefix_bits 32 len base == prefix_bits 32 len a
net_contains (net4 base len) (v6 a) = false
net_contains (net6 base len) (v4 a) = false
net_contains (net6 base len) (v6 a) = prefix_bits 128 len base == prefix_bits 128 len a
net_contains (net4in6 base len) (v4 a) = prefix_bits 128 len base == prefix_bits 128 len a
net_contains (net4in6 base len) (v6 a) = false
net_contains (no_net len) ip = false

-- What `n.String()` tells of a network: IPv4 has one form, and what has no form is `<nil>`.
abbrev pub written_net : IpNet → IpNet
written_net (net4 base len) = net4 base len
written_net (net6 base len) = net6 base len
written_net (net4in6 base len) = net4 base (len - 96)
written_net (no_net len) = no_net 0

-- `n.IP`, nil in `no_net`
abbrev pub net_ip : IpNet → Option Ip
net_ip (net4 base len) = some (v4 base)
net_ip (net6 base len) = some (v6 base)
net_ip (net4in6 base len) = some (v4 base)
net_ip (no_net len) = none

-- IPNet.Contains of an address that may be nil: a nil address has no length in common.
abbrev pub net_contains? : IpNet → Option Ip → Bool
net_contains? n none = false
net_contains? n (some ip) = net_contains n ip

-- The length of `n.Mask`
abbrev pub mask_size : IpNet → ℕ
mask_size (net4 base len) = len
mask_size (net6 base len) = len
mask_size (net4in6 base len) = len
mask_size (no_net len) = len

-- An address with all but the first `len` of `width` bits cleared.
abbrev pub masked : ℕ → ℕ → ℕ → ℕ
masked width len a = a / 2 ^ (width - len) * 2 ^ (width - len)

-- `&net.IPNet{IP: ip.Mask(mask), Mask: mask}` for a mask of 4 or 16 bytes, with an address in the
-- 16-byte form that net.ParseIP returns. Under a 16-byte mask an IPv4 address keeps its mapping
-- prefix only if the mask does.
unfoldable pub mask_ip : Ip → Bool → ℕ → IpNet
mask_ip (v4 a) false len = net4 (masked 32 len a) len
mask_ip (v4 a) true len =
    if leb 96 len
    then net4in6 (masked 128 len a) len
    else net6 (masked 128 len (0xffff * 2 ^ 32 + a)) len
mask_ip (v6 a) false len = no_net len
mask_ip (v6 a) true len = net6 (masked 128 len a) len

pow-add : (b m n : ℕ) → b ^ (m + n) ≡ b ^ m * b ^ n
pow-add b m zero = rw (add-zero, pow-zero) (omega arith)
pow-add b m (suc n) = rw (add-suc, pow-suc, pow-suc, pow-add b m n) (mul_assoc _ _ _)

-- Addresses that agree in a finer prefix agree in every coarser one.
coarser : (s t x y : ℕ) → t ≤ s → x / 2 ^ t ≡ y / 2 ^ t → x / 2 ^ s ≡ y / 2 ^ s
coarser s t x y h e =
    let z : s ≡ t + (s - t) = omega arith in
    rw (z, pow-add, ← div-div-eq-div-mul, ← div-div-eq-div-mul) (ap (λ k. k / 2 ^ (s - t)) e)

-- Of two prefixes of one address, the network address of one lies in the other network.
pub prefix_nested :
    (s t x y a : ℕ)
    → x / 2 ^ s ≡ a / 2 ^ s
    → y / 2 ^ t ≡ a / 2 ^ t
    → (x / 2 ^ s ≡ y / 2 ^ s) ⊎ (y / 2 ^ t ≡ x / 2 ^ t)
prefix_nested s t x y a p q = elim (dec_le t s) [
  | yes h ↦ inl (p ∙ sym (coarser s t y a h q))
  | no h ↦ inr (q ∙ sym (coarser t s x a (omega arith) p))
]

pow-pos : (n : ℕ) → 0 < 2 ^ n
pow-pos zero = omega arith
pow-pos (suc n) = rw pow-suc (omega (arith, pow-pos n))

-- Clearing the other bits leaves the prefix.
masked_prefix :
    (width len a : ℕ) → prefix_bits width len (masked width len a) ≡ prefix_bits width len a
masked_prefix width len a = mul-div_cancel (a / 2 ^ (width - len)) (pow-pos (width - len))

-- A mask of an address's own family gives a network that contains the address.
pub mask_ip-contains4 : (a len : ℕ) → net_contains (mask_ip (v4 a) false len) (v4 a) ≡ true
unfolding mask_ip net_contains
mask_ip-contains4 a len = ground (arith, masked_prefix 32 len a)

pub mask_ip-contains6 : (a len : ℕ) → net_contains (mask_ip (v6 a) true len) (v6 a) ≡ true
unfolding mask_ip net_contains
mask_ip-contains6 a len = ground (arith, masked_prefix 128 len a)
