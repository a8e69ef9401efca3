-- ===== src/Object/Log.antt =====
-- luaO_log2 and the macro ceillog2 against powers of two.
use native.Mathlib.Nat.{mul-le-mul_right, mul_comm}
use cpplua.Prelude.{
  ℕ, zero, suc, ◌+◌, ◌-◌, ◌*◌, ◌/◌, ◌%◌, ◌^◌, ◌≤◌, ◌<◌, ◌≡◌, refl, ap, true, some, Bool, ◌&&◌, inl,
  inr, arith, dec_lt, ltb, leb, Bool-cases, leb→le, if◌then◌else◌, get_or,
}
use cpplua.Prelude.Int.{pos, negsuc, ◌+ℤ◌, sub_ℕ}
use cpplua.Prelude.Bits.{pow_two_add, pow_two_mono}
use cpplua.Object.{log_2, log2_loop, log2, ceillog2}

sub_ℕ-add : (m n : ℕ) → sub_ℕ m 1 +ℤ pos n ≡ sub_ℕ (m + n) 1
unfolding ◌+ℤ◌
sub_ℕ-add m n = ground arith

pow_step : (fuel : ℕ) → 2 ^ (8 * suc fuel) ≡ 256 * 2 ^ (8 * fuel)
pow_step fuel =
    let e : 8 * suc fuel ≡ 8 + 8 * fuel = omega arith in rw (e, pow_two_add 8 (8 * fuel))

fuel_left : (fuel x : ℕ) → 256 ≤ x → x < 2 ^ (8 * suc fuel) → 0 < fuel
fuel_left zero x lo hi = absurd (omega arith)
fuel_left (suc fuel) x lo hi = omega arith

scale : (y j : ℕ) → y * 2 ^ (j + 8) ≡ 256 * (y * 2 ^ j)
scale y j = rw (pow_two_add j 8) (omega arith)

loop_ends :
    (fuel x m : ℕ)
    → 0 < fuel
    → x < 2 ^ (8 * fuel)
    → (y : ℕ) × (j : ℕ) × (log2_loop fuel x (sub_ℕ m 1) ≡ some (y, sub_ℕ (m + j) 1))
      × (y < 256)
      × (0 < x → 0 < y)
      × (y * 2 ^ j ≤ x)
      × (x < (y + 1) * 2 ^ j)
unfolding log2_loop
loop_ends zero x m h0 hx = absurd (omega arith)
loop_ends (suc fuel) x m h0 hx = elim (Bool-cases (leb 256 x)) [
  | inr done ↦
      let e : m + 0 ≡ m = omega arith in
      (x, 0, rw (done, e), ground arith, (λ h. h), omega arith, omega arith)
  | inl more ↦
      let big = leb→le 256 x more in
      let (y, j, run, small, keep, low, high) =
        loop_ends fuel (x / 2 ^ 8) (m + 8) (fuel_left fuel x big hx)
          (omega (arith, pow_step fuel)) in
      let e : m + 8 + j ≡ m + (j + 8) = omega arith in
      (
        y,
        j + 8,
        rw (more, sub_ℕ-add) (rw e at run),
        small,
        (λ h. keep (omega arith)),
        omega (arith, scale y j),
        omega (arith, scale (y + 1) j),
      )
]

and_left : (a b : Bool) → (a && b) ≡ true → a ≡ true
and_left a b h = ground arith

and_right : (a b : Bool) → (a && b) ≡ true → b ≡ true
and_right a b h = ground arith

within : ℕ → ℕ → Bool
within y t = if ltb 0 y then leb 1 t && (leb (2 ^ (t - 1)) y && ltb y (2 ^ t)) else true

within_sound : (y t : ℕ) → within y t ≡ true → 0 < y → (1 ≤ t) × (2 ^ (t - 1) ≤ y) × (y < 2 ^ t)
unfolding within
within_sound y t h some_bit = ground arith

-- the table is right at every index it has: index 0 holds 0, and any other is between the powers
all_right : ℕ → Bool
all_right zero = true
all_right (suc n) = within n (get_or log_2 n 0) && all_right n

all_right_sound : (n x : ℕ) → all_right n ≡ true → x < n → within x (get_or log_2 x 0) ≡ true
unfolding all_right
all_right_sound zero x h lt = absurd (omega arith)
all_right_sound (suc n) x h lt = elim (dec_lt x n) [
  | yes less ↦ all_right_sound n x (and_right _ _ h) less
  | no more ↦ let e : x ≡ n = omega arith in rw e (and_left _ _ h)
]

table_right : all_right 256 ≡ true
unfolding all_right within
table_right = refl

entry : ℕ → ℕ
entry y = get_or log_2 y 0

entry_bounds :
    (y : ℕ) → 0 < y → y < 256 → (1 ≤ entry y) × (2 ^ (entry y - 1) ≤ y) × (y < 2 ^ entry y)
unfolding entry
entry_bounds y lo hi = within_sound y (get_or log_2 y 0) (all_right_sound 256 y table_right hi) lo

exponent : (j t : ℕ) → 1 ≤ t → sub_ℕ (0 + j) 1 +ℤ pos t ≡ pos (j + (t - 1))
unfolding ◌+ℤ◌
exponent j t h = ground arith

-- For every positive 32-bit number the result is the exponent of the largest power of two not above
-- the number; the loop ends.
pub log2_lem :
    (x : ℕ) → 0 < x → x < 2 ^ 32 → (k : ℕ) × (log2 x ≡ some (pos k)) × (2 ^ k ≤ x) × (x < 2 ^ suc k)
unfolding log2 entry
log2_lem x lo hi =
    let (y, j, run, small, keep, low, high) = loop_ends 4 x 0 (omega arith) (omega arith) in
    let t = get_or log_2 y 0 in
    let (one, below, above) = entry_bounds y (keep lo) small in
    let k = j + (t - 1) in
    let e = exponent j t one in
    let low' : 2 ^ k ≤ y * 2 ^ j =
      rw (pow_two_add j (t - 1), mul_comm (2 ^ j) (2 ^ (t - 1))) (mul-le-mul_right (2 ^ j) below) in
    let e2 : suc k ≡ t + j = omega arith in
    let high' : (y + 1) * 2 ^ j ≤ 2 ^ suc k =
      rw (e2, pow_two_add t j) (mul-le-mul_right (2 ^ j) (omega arith)) in
    (k, rw (run, log2) (ap some e), omega arith, omega arith)

log2-zero : log2 0 ≡ some (negsuc 0)
unfolding log2 ◌+ℤ◌
log2-zero = refl

pow_up : (k : ℕ) → 2 ^ (k + 1) ≡ 2 ^ suc k
pow_up k = let e : k + 1 ≡ suc k = omega arith in rw e

-- For every x from 1 to 2 ^ 32 - 1, ceillog2 is the least k such that x is at most 2 ^ k.
pub ceillog2_lem :
    (x : ℕ)
    → 0 < x
    → x < 2 ^ 32
    → (k : ℕ) × (ceillog2 x ≡ some (pos k)) × (x ≤ 2 ^ k) × ((j : ℕ) → x ≤ 2 ^ j → k ≤ j)
unfolding ceillog2
ceillog2_lem x lo hi =
    let e : (x + 2 ^ 32 - 1) % 2 ^ 32 ≡ x - 1 = omega arith in
    elim (dec_lt 1 x) [
      | yes more ↦
          let (k, run, low, high) = log2_lem (x - 1) (omega arith) (omega arith) in
          (
            k + 1,
            rw (e, run, ceillog2) (ap some (unfold ◌+ℤ◌ in ground arith)),
            omega (arith, pow_up k, high),
            (λ j h. elim (dec_lt k j) [
              | yes above ↦ omega arith
              | no below ↦ absurd (omega (arith, pow_two_mono j k (omega arith)))
            ]),
          )
      | no one ↦
          let e' : x - 1 ≡ 0 = omega arith in
          (
            0,
            rw (e, e', log2-zero, ceillog2) (unfold ◌+ℤ◌ in refl),
            omega arith,
            (λ j h. omega arith),
          )
    ]
