-- ===== src/Cache/Codec/Bits.antt =====
-- The `|=` of `Reader::u64`: a byte is shifted above the bits that are already there.
use Prim.Native.Nat.{bit_or, digits, bit_or-bitwise, max}
use native.Mathlib.Nat.{
  pow-suc, one-le-pow, div-add-mod', mod-lt, mod-eq_of_lt, add-mul-mod_self_right,
}
use native.Mathlib.Numerals.{towards_suc}
use metal_orm_cpp.Base.{
  ℕ, zero, suc, ◌+◌, ◌*◌, ◌/◌, ◌%◌, ◌^◌, ◌≤◌, ◌<◌, ◌≡◌, refl, sym, ap, ◌∙◌, arith,
}

abbrev or_digits : ℕ → ℕ → ℕ → ℕ
or_digits n a b = digits (λ b. b) max n a b

or_digits_fuel : (n m a b : ℕ) → a ≤ n → a ≤ m → or_digits n a b ≡ or_digits m a b
or_digits_fuel zero zero a b p q = refl
or_digits_fuel zero (suc m) zero b p q = refl
or_digits_fuel zero (suc m) (suc a) b p q = absurd (omega arith)
or_digits_fuel (suc n) zero zero b p q = refl
or_digits_fuel (suc n) zero (suc a) b p q = absurd (omega arith)
or_digits_fuel (suc n) (suc m) zero b p q = refl
or_digits_fuel (suc n) (suc m) (suc a) b p q =
    omega (arith, or_digits_fuel n m (suc a / 2) (b / 2) (omega arith) (omega arith))

zero-bit_or : (b : ℕ) → bit_or 0 b ≡ b
zero-bit_or b = bit_or-bitwise 0 b

bit_or_step : (a b : ℕ) → bit_or a b ≡ bit_or (a / 2) (b / 2) * 2 + max (a % 2) (b % 2)
bit_or_step zero b = omega (arith, zero-bit_or b, zero-bit_or (b / 2))
bit_or_step (suc a) b = omega (
  arith,
  bit_or-bitwise (suc a) b,
  bit_or-bitwise (suc a / 2) (b / 2),
  or_digits_fuel a (suc a / 2) (suc a / 2) (b / 2) (omega arith) (omega arith),
)

half_eq : (a x y : ℕ) → x ≡ y * 2 → bit_or a (x / 2) ≡ bit_or a y
half_eq a x y e = let h : x / 2 ≡ y = omega arith in rw h

-- `a | (c << k)` is a sum where `a` has at most `k` bits.
pub bit_or_shifted : (k a c : ℕ) → a < 2 ^ k → bit_or a (c * 2 ^ k) ≡ a + c * 2 ^ k
bit_or_shifted zero zero c h = omega (arith, zero-bit_or (c * 2 ^ 0))
bit_or_shifted zero (suc a) c h = absurd (omega arith)
bit_or_shifted (suc k) a c h =
    let double : 2 ^ suc k ≡ 2 ^ k * 2 = pow-suc 2 k in
    let scaled : c * 2 ^ suc k ≡ c * 2 ^ k * 2 = omega (arith, ap (λ (t : ℕ). c * t) double) in
    omega (
      arith,
      scaled,
      bit_or_step a (c * 2 ^ suc k),
      half_eq (a / 2) (c * 2 ^ suc k) (c * 2 ^ k) scaled,
      bit_or_shifted k (a / 2) c (omega (arith, double)),
    )

pow-add_eight : (s : ℕ) → 2 ^ (s + 8) ≡ 2 ^ s * 256
pow-add_eight s = simp towards_suc (omega arith)

pow-pos : (s : ℕ) → 0 < 2 ^ s
pow-pos s = one-le-pow s 2 (omega arith)

-- The byte above the lowest `p` values of a number.
mod_next_byte : (p v : ℕ) → 0 < p → v % p + v / p % 256 * p ≡ v % (p * 256)
mod_next_byte p v h =
    let q : ℕ = v / p in
    let low : ℕ = v % p + q % 256 * p in
    let split : v ≡ low + q / 256 * (p * 256) =
      omega (arith, div-add-mod' v p, ap (λ (t : ℕ). t * p) (div-add-mod' q 256)) in
    let small : low < p * 256 = grind (arith, mod-lt v h, mod-lt q {m = 256}) in
    sym (
      ap (λ k. k % (p * 256)) split
      ∙ add-mul-mod_self_right low (q / 256) (p * 256)
      ∙ mod-eq_of_lt small)

-- One round of the loop: eight more bits of the value have been read.
pub bit_or_next_byte : (s v : ℕ) → bit_or (v % 2 ^ s) (v / 2 ^ s % 256 * 2 ^ s) ≡ v % 2 ^ (s + 8)
bit_or_next_byte s v =
    bit_or_shifted s (v % 2 ^ s) (v / 2 ^ s % 256) (mod-lt v (pow-pos s))
    ∙ mod_next_byte (2 ^ s) v (pow-pos s)
    ∙ ap (λ k. v % k) (sym (pow-add_eight s))
