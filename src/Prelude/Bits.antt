-- ===== src/Prelude/Bits.antt =====
-- Masks of high bits and the union of disjoint fields, as arithmetic at every width.
use Prim.Native.Nat.{
  ℕ, zero, suc, ◌+◌, ◌-◌, ◌*◌, ◌/◌, ◌%◌, ◌^◌, ◌≤◌, ◌<◌, min, max, bit_and, bit_or, digits, bitwise,
  bit_and-bitwise, bit_or-bitwise,
}
use mathlib.Core.Path.{◌≡◌, refl, sym, ap, ◌∙◌}
use native.Mathlib.Nat.{pow-suc, one-le-pow, pow-succ', div-div-eq-div-mul}
use native.Mathlib.Omega.{arith}

module _ (base : ℕ → ℕ) (op : ℕ → ℕ → ℕ) where
  -- one unit of fuel beyond the first argument changes nothing
  one_more : (n a b : ℕ) → a ≤ n → digits base op (suc n) a b ≡ digits base op n a b
  one_more zero zero b h = refl
  one_more zero (suc a) b h = absurd (omega arith)
  one_more (suc n) zero b h = refl
  one_more (suc n) (suc a) b h = omega (arith, one_more n (suc a / 2) (b / 2) (omega arith))

  surplus : (k a b : ℕ) → digits base op (k + a) a b ≡ bitwise base op a b
  surplus zero a b = let e : 0 + a ≡ a = omega arith in rw e refl
  surplus (suc k) a b =
      let e : suc k + a ≡ suc (k + a) = omega arith in
      rw e (one_more (k + a) a b (omega arith) ∙ surplus k a b)

  lowest_digit :
      (a b : ℕ)
      → bitwise base op (suc a) b ≡ bitwise base op (suc a / 2) (b / 2) * 2 + op (suc a % 2) (b % 2)
  lowest_digit a b =
      let half = suc a / 2 in
      let fuel : a - half + half ≡ a = omega arith in
      let short : digits base op a half (b / 2) ≡ bitwise base op half (b / 2) =
        ap (λ n. digits base op n half (b / 2)) (sym fuel) ∙ surplus (a - half) half (b / 2) in
      omega (arith, short)

and_digit : (a b : ℕ) → bit_and a b ≡ bit_and (a / 2) (b / 2) * 2 + min (a % 2) (b % 2)
and_digit zero b = omega (arith, bit_and-bitwise 0 b, bit_and-bitwise 0 (b / 2))
and_digit (suc a) b = omega (
  arith,
  bit_and-bitwise (suc a) b,
  bit_and-bitwise (suc a / 2) (b / 2),
  lowest_digit (λ y. 0) min a b,
)

or_digit : (a b : ℕ) → bit_or a b ≡ bit_or (a / 2) (b / 2) * 2 + max (a % 2) (b % 2)
or_digit zero b = omega (arith, bit_or-bitwise 0 b, bit_or-bitwise 0 (b / 2))
or_digit (suc a) b = omega (
  arith,
  bit_or-bitwise (suc a) b,
  bit_or-bitwise (suc a / 2) (b / 2),
  lowest_digit (λ y. y) max a b,
)

pub pow-add : (m n : ℕ) → 2 ^ (m + n) ≡ 2 ^ m * 2 ^ n
pow-add m zero = let e : m + zero ≡ m = omega arith in rw e (omega arith)
pow-add m (suc n) =
    let e : m + suc n ≡ suc (m + n) = omega arith in
    rw e (grind (arith, pow-suc 2 (m + n), pow-suc 2 n, pow-add m n))

-- A number that fits meets all of a mask's bits.
and_ones : (m a : ℕ) → a < 2 ^ m → bit_and a (2 ^ m - 1) ≡ a
and_ones zero a h = let e : a ≡ 0 = omega arith in rw e refl
and_ones (suc m) a h = ground (
  arith,
  pow-suc 2 m,
  one-le-pow m 2,
  and_digit a (2 ^ suc m - 1),
  and_ones m (a / 2) (omega (arith, pow-suc 2 m)),
)

mul-pow-suc : (q k : ℕ) → q * 2 ^ suc k ≡ q * 2 ^ k * 2
mul-pow-suc q k = omega (arith, ap (λ (t : ℕ). q * t) (pow-suc 2 k))

pub bit_and_high :
    (k m a : ℕ) → a < 2 ^ m * 2 ^ k → bit_and a ((2 ^ m - 1) * 2 ^ k) ≡ a / 2 ^ k * 2 ^ k
bit_and_high zero m a h =
    let e : (2 ^ m - 1) * 2 ^ 0 ≡ 2 ^ m - 1 = omega arith in
    rw e (omega (arith, and_ones m a (omega arith)))
bit_and_high (suc k) m a h =
    let ih = bit_and_high k m (a / 2) (omega (arith, mul-pow-suc (2 ^ m) k)) in
    let halves : a / 2 ^ suc k ≡ a / 2 / 2 ^ k =
      rw (pow-succ' 2 k) (sym (div-div-eq-div-mul a 2 (2 ^ k))) in
    ground (
      arith,
      ih,
      halves,
      and_digit a ((2 ^ m - 1) * 2 ^ suc k),
      mul-pow-suc (2 ^ m - 1) k,
      mul-pow-suc (a / 2 ^ suc k) k,
    )

-- A number of `k` bits under a field that starts at bit `k`.
pub bit_or_fields : (k q a : ℕ) → a < 2 ^ k → bit_or a (q * 2 ^ k) ≡ q * 2 ^ k + a
bit_or_fields zero q a h =
    let e : a ≡ 0 = omega arith in rw e (omega (arith, bit_or-bitwise 0 (q * 2 ^ 0)))
bit_or_fields (suc k) q a h = ground (
  arith,
  or_digit a (q * 2 ^ suc k),
  mul-pow-suc q k,
  bit_or_fields k q (a / 2) (omega (arith, pow-suc 2 k)),
)
