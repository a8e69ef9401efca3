-- ===== src/Prelude/Bits.antt =====
-- Bitwise laws at variables: the lowest-digit step of `bit_or`, and `bit_or` of disjoint fields.
use Prim.Native.Nat.{
  ℕ, zero, suc, ◌+◌, ◌-◌, ◌*◌, ◌/◌, ◌%◌, ◌^◌, ◌≤◌, ◌<◌, max, bit_or, digits, bit_or-bitwise,
}
use mathlib.Core.Path.{◌≡◌, refl, ap}
use native.Mathlib.Omega.{arith}
use native.Mathlib.Nat.{pow-suc, mul-le-mul_right}

abbrev or_digits : ℕ → ℕ → ℕ → ℕ
or_digits n a b = digits (λ b. b) max n a b

or_digits_fuel : (n m a b : ℕ) → a ≤ n → a ≤ m → or_digits n a b ≡ or_digits m a b
or_digits_fuel zero zero a b p q = refl
or_digits_fuel zero (suc m) zero b p q = refl
or_digits_fuel zero (suc m) (suc a) b p q = absurd (omega arith)
or_digits_fuel (suc n) zero zero b p q = refl
or_digits_fuel (suc n) zero (suc a) b p q = absurd (omega arith)
or_digits_fuel (suc n) (suc m) zero b p q = refl
or_digits_fuel (suc n) (suc m) (suc a) b p q =
    omega (arith, or_digits_fuel n m (suc a / 2) (b / 2) (omega arith) (omega arith))

zero-bit_or : (b : ℕ) → bit_or 0 b ≡ b
zero-bit_or b = bit_or-bitwise 0 b

pub bit_or_step : (a b : ℕ) → bit_or a b ≡ bit_or (a / 2) (b / 2) * 2 + max (a % 2) (b % 2)
bit_or_step zero b = omega (arith, zero-bit_or b, zero-bit_or (b / 2))
bit_or_step (suc a) b = omega (
  arith,
  bit_or-bitwise (suc a) b,
  bit_or-bitwise (suc a / 2) (b / 2),
  or_digits_fuel a (suc a / 2) (suc a / 2) (b / 2) (omega arith) (omega arith),
)

bit_or-zero_fuel : (n a : ℕ) → a ≤ n → bit_or a 0 ≡ a
bit_or-zero_fuel n zero h = refl
bit_or-zero_fuel zero (suc a) h = absurd (omega arith)
bit_or-zero_fuel (suc n) (suc a) h =
    omega (arith, bit_or_step (suc a) 0, bit_or-zero_fuel n (suc a / 2) (omega arith))

pub bit_or-zero : (a : ℕ) → bit_or a 0 ≡ a
bit_or-zero a = bit_or-zero_fuel a a (omega arith)

pub pow_two_suc : (k : ℕ) → 2 ^ suc k ≡ 2 * 2 ^ k
pow_two_suc k = omega (arith, pow-suc 2 k)

-- A field at position `k` and a value below it share no bit.
pub bit_or-disjoint : (k a b : ℕ) → b < 2 ^ k → bit_or b (a * 2 ^ k) ≡ b + a * 2 ^ k
bit_or-disjoint zero a zero h = omega (arith, zero-bit_or (a * 2 ^ 0))
bit_or-disjoint zero a (suc b) h = absurd (omega arith)
bit_or-disjoint (suc k) a b h =
    let e : a * 2 ^ suc k ≡ 2 * (a * 2 ^ k) =
      omega (arith, ap (λ (t : ℕ). a * t) (pow_two_suc k)) in
    let half : a * 2 ^ suc k / 2 ≡ a * 2 ^ k = omega arith in
    let ih = bit_or-disjoint k a (b / 2) (omega (arith, pow_two_suc k)) in
    omega (arith, bit_or_step b (a * 2 ^ suc k), rw (← half) at ih)

bit_or_comm_fuel : (n a b : ℕ) → a ≤ n → bit_or a b ≡ bit_or b a
bit_or_comm_fuel n zero b h = omega (arith, zero-bit_or b, bit_or-zero b)
bit_or_comm_fuel zero (suc a) b h = absurd (omega arith)
bit_or_comm_fuel (suc n) (suc a) b h = omega (
  arith,
  bit_or_step (suc a) b,
  bit_or_step b (suc a),
  bit_or_comm_fuel n (suc a / 2) (b / 2) (omega arith),
)

pub bit_or_comm : (a b : ℕ) → bit_or a b ≡ bit_or b a
bit_or_comm a b = bit_or_comm_fuel a a b (omega arith)

-- `bit_or` works on the digits above position `k` and below it separately.
pub bit_or-split :
    (k x y w : ℕ) → x < 2 ^ k → bit_or (x + y * 2 ^ k) (w * 2 ^ k) ≡ x + bit_or y w * 2 ^ k
bit_or-split zero x y w h =
    let e : x + y * 2 ^ 0 ≡ y = omega arith in
    let e' : w * 2 ^ 0 ≡ w = omega arith in rw (e, e') (omega arith)
bit_or-split (suc k) x y w h =
    let p = pow_two_suc k in
    let e : (x + y * 2 ^ suc k) / 2 ≡ x / 2 + y * 2 ^ k =
      omega (arith, p, ap (λ (t : ℕ). y * t) p) in
    let e' : w * 2 ^ suc k / 2 ≡ w * 2 ^ k = omega (arith, p, ap (λ (t : ℕ). w * t) p) in
    let ih = bit_or-split k (x / 2) y w (omega (arith, p)) in
    omega (
      arith,
      bit_or_step (x + y * 2 ^ suc k) (w * 2 ^ suc k),
      rw (← e, ← e') at ih,
      ap (λ (t : ℕ). y * t) p,
      ap (λ (t : ℕ). w * t) p,
      ap (λ (t : ℕ). bit_or y w * t) p,
    )

pub pow_two_add : (a b : ℕ) → 2 ^ (a + b) ≡ 2 ^ a * 2 ^ b
pow_two_add zero b = let e : zero + b ≡ b = omega arith in rw e (omega arith)
pow_two_add (suc a) b =
    let e : suc a + b ≡ suc (a + b) = omega arith in
    rw (e, pow_two_suc (a + b), pow_two_suc a, pow_two_add a b) (omega arith)

pub pow_two_pos : (k : ℕ) → 0 < 2 ^ k
pow_two_pos zero = omega arith
pow_two_pos (suc k) = omega (arith, pow_two_suc k, pow_two_pos k)

pub pow_two_mono : (a b : ℕ) → a ≤ b → 2 ^ a ≤ 2 ^ b
pow_two_mono a b h =
    let e : b ≡ a + (b - a) = omega arith in
    let one : 1 * 2 ^ a ≤ 2 ^ (b - a) * 2 ^ a = mul-le-mul_right (2 ^ a) (pow_two_pos (b - a)) in
    rw (e, pow_two_add a (b - a)) (omega (arith, one))
