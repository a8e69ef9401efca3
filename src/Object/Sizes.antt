-- ===== src/Object/Sizes.antt =====
-- The "floating point byte": what luaO_int2fb rounds to, read back by luaO_fb2int.
use cpplua.Prelude.{
  ℕ, zero, suc, ◌+◌, ◌-◌, ◌*◌, ◌/◌, ◌%◌, ◌^◌, ◌≤◌, ◌<◌, ◌≡◌, refl, ap, ◌⊎◌, inl, inr, some, arith,
  ltb, leb, Bool-cases, leb→le, dec_lt, ltb→lt,
}
use native.Mathlib.Nat.{mul-le-mul_right, mul-one}
use cpplua.Prelude.Bits.{pow_two_suc}
use cpplua.Object.{int2fb_result, int2fb_loop, int2fb, fb2int}

-- `x` is `x0` divided by `p`, rounded up
record Rounds (x0 x p : ℕ) : Type 0 where
  above : x0 ≤ x * p
  near : x * p < x0 + p
  first : ((x ≡ x0) × (p ≡ 1)) ⊎ (15 * p < 2 * x0)

Rounds-halve : {x0 x p : ℕ} → Rounds x0 x p → 16 ≤ x → Rounds x0 ((x + 1) / 2) (2 * p)
Rounds-halve {x0} {x} {p} r h =
    let y = (x + 1) / 2 in
    let lo : x ≤ 2 * y = omega arith in
    let hi : 2 * y ≤ x + 1 = omega arith in
    let lo' : x * p ≤ 2 * y * p = mul-le-mul_right p lo in
    let hi' : 2 * y * p ≤ (x + 1) * p = mul-le-mul_right p hi in
    let big : 16 * p ≤ x * p = mul-le-mul_right p h in
    record {
      above = omega (arith, r.above, lo');
      near = omega (arith, r.near, hi');
      first = inr (omega (arith, r.near, big));
    }

fuel_left : (f : ℕ) → 2 ≤ 2 ^ f → 0 < f
fuel_left zero h = absurd (omega arith)
fuel_left (suc f) h = omega arith

loop_ends :
    (fuel x0 x e : ℕ)
    → 0 < fuel
    → x < 2 ^ 31
    → x ≤ 4 * 2 ^ fuel
    → e + fuel ≤ 30
    → Rounds x0 x (2 ^ e)
    → (y : ℕ) × (d : ℕ) × (int2fb_loop fuel x e ≡ some (y, d))
      × (y < 16)
      × (d ≤ 29)
      × Rounds x0 y (2 ^ d)
unfolding int2fb_loop
loop_ends zero x0 x e h0 hx hf he r = absurd (omega arith)
loop_ends (suc fuel) x0 x e h0 hx hf he r = elim (Bool-cases (leb 16 x)) [
  | inr done ↦ (x, e, rw done, ground arith, omega arith, r)
  | inl more ↦
      let big = leb→le 16 x more in
      let next : suc e ≡ e + 1 = omega arith in
      let half : (x + 1) % 2 ^ 32 / 2 ≡ (x + 1) / 2 = omega arith in
      let step : Rounds x0 ((x + 1) / 2) (2 ^ suc e) = rw (pow_two_suc e) (Rounds-halve r big) in
      rw (more, half)
        (loop_ends fuel x0 ((x + 1) / 2) (e + 1) (fuel_left fuel (omega (arith, pow_two_suc fuel)))
          (omega arith) (omega (arith, pow_two_suc fuel)) (omega arith) (rw (← next) step))
]

exact : (x y p : ℕ) → y * p ≤ 7 * p → Rounds x y p → y ≡ x
exact x y p low r = elim r.first [ inl (e, _) ↦ e | inr big ↦ absurd (omega (arith, r.above)) ]

eighth : (x y p : ℕ) → 8 ≤ y → 15 * p < 2 * x → y * p < x + p → 8 * (y * p - x) ≤ x
eighth x y p many big near = elim (dec_lt 8 y) [
  | yes more ↦ let nine : 9 * p ≤ y * p = mul-le-mul_right p more in omega arith
  | no few ↦ let eight : y * p ≤ 8 * p = mul-le-mul_right p (omega arith) in omega arith
]

near_bounds :
    (x y p : ℕ)
    → 8 ≤ y
    → x ≤ 15 * 2 ^ 27
    → Rounds x y p
    → (y * p < 2 ^ 32) × (x ≤ y * p) × (8 * (y * p - x) ≤ x)
near_bounds x y p many h r =
    let low : 8 * p ≤ y * p = mul-le-mul_right p many in
    elim r.first [
      | inl (e, one) ↦
          let whole : y * p ≡ x = rw (one, mul-one) e in
          (omega (arith, whole), r.above, omega (arith, whole))
      | inr big ↦ (omega (arith, r.near), r.above, eighth x y p many big r.near)
    ]

fb2int-small : (y : ℕ) → y < 8 → fb2int y ≡ y
unfolding fb2int
fb2int-small y h = ground arith

fb2int-packed :
    (y d : ℕ) → 8 ≤ y → y < 16 → d ≤ 29 → fb2int ((d + 1) * 8 + (y - 8)) ≡ y * 2 ^ d % 2 ^ 32
unfolding fb2int
fb2int-packed y d lo hi few =
    let v = (d + 1) * 8 + (y - 8) in
    let e1 : v / 8 % 32 ≡ d + 1 = omega arith in
    let e2 : v % 8 + 8 ≡ y = omega arith in
    let e3 : d + 1 - 1 ≡ d = omega arith in rw (e1, e2, e3) (ground arith)

packed_near :
    (x y d : ℕ)
    → x ≤ 15 * 2 ^ 27
    → y < 16
    → d ≤ 29
    → Rounds x y (2 ^ d)
    → (v : ℕ) × (int2fb_result (y, d) ≡ v) × (v < 2 ^ 8) × (x ≤ fb2int v) × (8 * (fb2int v - x) ≤ x)
packed_near x y d h small few r = elim (Bool-cases (ltb y 8)) [
  | inl tiny ↦
      let less = ltb→lt y 8 tiny in
      let e = fb2int-small y less in
      let low : y * 2 ^ d ≤ 7 * 2 ^ d = mul-le-mul_right (2 ^ d) (omega arith) in
      let same : y ≡ x = exact x y (2 ^ d) low r in
      (y, rw tiny, omega arith, omega (arith, e), omega (arith, e))
  | inr full ↦
      let many : 8 ≤ y = ground arith in
      let e = fb2int-packed y d many small few in
      let fits = near_bounds x y (2 ^ d) many h r in
      ((d + 1) * 8 + (y - 8), rw full, omega arith, omega (arith, e, fits), omega (arith, e, fits))
]

-- A packed size read back is never below the size, and exceeds it by an eighth of it at most; this
-- for every size up to 15 * 2 ^ 27. The loop of luaO_int2fb ends, and the result fits a byte.
pub fb2int-int2fb :
    (x : ℕ)
    → x ≤ 15 * 2 ^ 27
    → (v : ℕ) × (int2fb x ≡ some v) × (v < 2 ^ 8) × (x ≤ fb2int v) × (8 * (fb2int v - x) ≤ x)
unfolding int2fb
fb2int-int2fb x h =
    let start : Rounds x x (2 ^ 0) = record {
      above = omega arith;
      near = omega arith;
      first = inl (refl, refl);
    } in
    let (y, d, e, small, few, r) =
      loop_ends 30 x x 0 (omega arith) (omega arith) (omega arith) (omega arith) start in
    let (v, e', fits, low, close) = packed_near x y d h small few r in
    (v, rw (e, int2fb) (ap some e'), fits, low, close)
