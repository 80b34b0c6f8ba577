-- ===== src/Core/Cidr/Membership.antt =====
-- Which addresses a block covers, from ip_cidr.rs.
use native.Mathlib.Nat.{one-le-pow, mod-eq_of_lt, add-mul-mod_self_right, mul-div_cancel}
use onair.Prelude.{
  ℕ, zero, suc, ◌+◌, ◌-◌, ◌*◌, ◌/◌, ◌%◌, ◌^◌, ◌≤◌, ◌<◌, ◌≡◌, refl, sym, ap, ◌∙◌, ◌↔◌, true, false,
  arith, eqb, eqb_iff, le→leb,
}
use onair.Prelude.Bits.{pow-add, bit_and_high, bit_or_fields}
use onair.Core.Cidr.{
  IpAddr, v4, v6, v4_mapped_prefix, ipv4_mask, ipv6_mask, same_masked, contains_at, contains,
}

-- The address and the network agree in their first `prefix` bits; an IPv4 address is compared with
-- an IPv6 block as the address ::ffff:a.b.c.d.
abbrev pub Covers : IpAddr → ℕ → IpAddr → Type 0
Covers (v4 n) p (v4 a) = n / 2 ^ (32 - p) ≡ a / 2 ^ (32 - p)
Covers (v6 n) p (v6 a) = n / 2 ^ (128 - p) ≡ a / 2 ^ (128 - p)
Covers (v6 n) p (v4 a) = n / 2 ^ (128 - p) ≡ (v4_mapped_prefix + a) / 2 ^ (128 - p)
Covers (v4 n) p (v6 a) = ⊥

abbrev pub InRange : IpAddr → Type 0
InRange (v4 a) = a < 2 ^ 32
InRange (v6 a) = a < 2 ^ 128

abbrev pub PrefixFits : IpAddr → ℕ → Type 0
PrefixFits (v4 a) p = p ≤ 32
PrefixFits (v6 a) p = p ≤ 128

shifted_ones : (p k : ℕ) → (suc p * suc k - 1) * suc k ≡ p * suc k + k * (suc p * suc k)
shifted_ones p k = let e : suc p * suc k - 1 ≡ p * k + p + k = omega arith in rw e (omega arith)

below_product : (p k : ℕ) → p * suc k < suc p * suc k
below_product p k = omega arith

shifted_ones_mod : (P K : ℕ) → 1 ≤ P → 1 ≤ K → (P * K - 1) * K % (P * K) ≡ (P - 1) * K
shifted_ones_mod zero K hp hk = absurd (omega arith)
shifted_ones_mod (suc p) zero hp hk = absurd (omega arith)
shifted_ones_mod (suc p) (suc k) hp hk =
    let e : suc p - 1 ≡ p = omega arith in
    rw (shifted_ones p k, e)
      (add-mul-mod_self_right (p * suc k) k (suc p * suc k) ∙ mod-eq_of_lt (below_product p k))

high_mask : (w k p : ℕ) → p + k ≡ w → (2 ^ w - 1) * 2 ^ k % 2 ^ w ≡ (2 ^ p - 1) * 2 ^ k
high_mask w k p e =
    rw (← e, pow-add p k)
      (shifted_ones_mod (2 ^ p) (2 ^ k) (one-le-pow p 2 (omega arith))
        (one-le-pow k 2 (omega arith)))

-- Equal under the mask of the high bits means equal in those bits.
masked_iff :
    (k p n a : ℕ)
    → n < 2 ^ p * 2 ^ k
    → a < 2 ^ p * 2 ^ k
    → (same_masked ((2 ^ p - 1) * 2 ^ k) n a ≡ true) ↔ (n / 2 ^ k ≡ a / 2 ^ k)
unfolding same_masked
masked_iff k p n a hn ha =
    rw (bit_and_high k p n hn, bit_and_high k p a ha)
      (
        (λ h.
            let pos = one-le-pow k 2 (omega arith) in
            sym (mul-div_cancel (n / 2 ^ k) pos)
            ∙ (ap (λ t. t / 2 ^ k) ((eqb_iff _ _).0 h) ∙ mul-div_cancel (a / 2 ^ k) pos)),
        (λ h. (eqb_iff _ _).1 (ap (λ t. t * 2 ^ k) h)),
      )

ipv4_mask_lem : (p : ℕ) → p ≤ 32 → ipv4_mask p ≡ (2 ^ p - 1) * 2 ^ (32 - p)
unfolding ipv4_mask
ipv4_mask_lem zero h = refl
ipv4_mask_lem (suc p) h =
    let e : eqb (suc p) 0 ≡ false = ground arith in
    rw e (high_mask 32 (32 - suc p) (suc p) (omega arith))

ipv6_mask_lem : (p : ℕ) → p ≤ 128 → ipv6_mask p ≡ (2 ^ p - 1) * 2 ^ (128 - p)
unfolding ipv6_mask
ipv6_mask_lem zero h = refl
ipv6_mask_lem (suc p) h =
    let e : eqb (suc p) 0 ≡ false = ground arith in
    rw e (high_mask 128 (128 - suc p) (suc p) (omega arith))

fits : (w p a : ℕ) → p ≤ w → a < 2 ^ w → a < 2 ^ p * 2 ^ (w - p)
fits w p a h below = let e : p + (w - p) ≡ w = omega arith in rw (← pow-add p (w - p), e) below

contains_at_iff :
    (n : IpAddr) (p : ℕ) (a : IpAddr)
    → InRange n
    → InRange a
    → PrefixFits n p
    → (contains_at n p a ≡ true) ↔ Covers n p a
unfolding contains_at
contains_at_iff (v4 n) p (v4 a) hn ha h =
    rw (le→leb p 32 h, ipv4_mask_lem p h)
      (masked_iff (32 - p) p n a (fits 32 p n h hn) (fits 32 p a h ha))
contains_at_iff (v6 n) p (v6 a) hn ha h =
    rw (le→leb p 128 h, ipv6_mask_lem p h)
      (masked_iff (128 - p) p n a (fits 128 p n h hn) (fits 128 p a h ha))
contains_at_iff (v6 n) p (v4 a) hn ha h =
    rw (le→leb p 128 h, ipv6_mask_lem p h, bit_or_fields 32 0xFFFF a ha)
      (masked_iff (128 - p) p n (v4_mapped_prefix + a) (fits 128 p n h hn)
        (fits 128 p (v4_mapped_prefix + a) h (omega arith)))
contains_at_iff (v4 n) p (v6 a) hn ha h = (λ e. cc e, λ e. absurd e)

-- For a network and an address in range and a prefix length within the network's width, a block
-- contains an address exactly when their first `prefix` bits agree. An IPv4 address is compared
-- with an IPv6 block as ::ffff:a.b.c.d, and an IPv4 block contains no IPv6 address.
pub contains_iff :
    (n : IpAddr) (p : ℕ) (a : IpAddr)
    → InRange n
    → InRange a
    → PrefixFits n p
    → (contains (record { network = n; prefix = p }) a ≡ true) ↔ Covers n p a
unfolding contains
contains_iff = contains_at_iff
