-- ===== src/Zio/Flat.antt =====
-- The stream as the list of bytes that it still gives, however the reader cuts them into blocks.
use cpplua.Prelude.{
  ℕ, zero, suc, ◌+◌, ◌-◌, ◌^◌, ◌≤◌, ◌<◌, ◌≡◌, refl, sym, ◌∙◌, ap, false, Option, none, some, List,
  [], ◌∷◌, ◌++◌, arith, leb, ◌==◌, if◌then◌else◌, length, take, drop, ◌≢◌, ◌⊎◌, inl, inr,
  length-drop, length-append,
}
use cpplua.Prelude.Slices.{take-append_le, drop-append_le, take-add, drop-add, take-all}
use cpplua.Prelude.Outcome.{ok, fault}
use cpplua.Zio.{Zio, zgetc, lookahead, copy, read_loop, read}

-- the reader's bytes up to its first empty block
pub upto_empty : List (List ℕ) → List ℕ
upto_empty [] = []
upto_empty (b ∷ more) = elim b [ [] ↦ [] | c ∷ rest ↦ (c ∷ rest) ++ upto_empty more ]

unfoldable pub flat : Zio → List ℕ
unfolding upto_empty
flat z = z.p ++ upto_empty z.reader

-- `n` counts the bytes at `p`
pub record IsValid (z : Zio) : Type 0 where
  pub counted : z.n ≡ length z.p

abbrev pub first : List ℕ → Option ℕ
first [] = none
first (c ∷ s) = some c

pub List-cases : (s : List ℕ) → (s ≡ []) ⊎ ((c : ℕ) × (t : List ℕ) × (s ≡ c ∷ t))
List-cases [] = inl refl
List-cases (c ∷ t) = inr (c, t, refl)

module _ (E : Type 0) where
  abbrev Looks : Zio → Type 0
  Looks z =
      (z' : Zio) × IsValid z'
      × (lookahead {E = E} z ≡ ok (first (flat z), z'))
      × (flat z ≢ [] → (flat z' ≡ flat z) × (0 < z'.n))

  looks :
      (n : ℕ) (p : List ℕ) (r : List (List ℕ))
      → n ≡ length p
      → Looks (record { n = n; p = p; reader = r })
  unfolding lookahead flat
  looks n (c ∷ p) r e = (
    record { n = n; p = c ∷ p; reader = r },
    record { counted = e },
    ground arith,
    λ h. (refl, omega arith),
  )
  looks n [] [] e =
      (record { n = n; p = []; reader = [] }, record { counted = e }, rw e, λ h. absurd (h refl))
  looks n [] ([] ∷ r) e =
      (record { n = n; p = []; reader = r }, record { counted = e }, rw e, λ h. absurd (h refl))
  looks n [] ((c ∷ b) ∷ r) e = (
    record { n = length b + 1; p = c ∷ b; reader = r },
    record { counted = omega arith },
    rw e,
    λ h. (refl, omega arith),
  )

  abbrev Reads : ℕ → ℕ → Zio → Type 0
  Reads fuel n z =
      (z' : Zio) × IsValid z'
      × (read_loop {E = E} fuel n z ≡ ok ((take n (flat z), n - length (flat z)), z'))
      × (n ≤ length (flat z) → flat z' ≡ drop n (flat z))

  copy_lem :
      (m : ℕ) (z : Zio)
      → m ≤ length z.p
      → copy {E = E} m z ≡ ok (take m z.p, record z { n = z.n - m; p = drop m z.p })
  unfolding copy
  copy_lem m z h = ground arith

  -- one round that finds a byte
  read_round :
      (fuel n m : ℕ) (z z1 : Zio) {c : ℕ} {s : List ℕ}
      → flat z ≡ c ∷ s
      → lookahead {E = E} z ≡ ok (some c, z1)
      → IsValid z1
      → flat z1 ≡ flat z
      → m ≡ (if leb (suc n) z1.n then suc n else z1.n)
      → m ≤ suc n
      → m ≤ z1.n
      → Reads fuel (suc n - m) (record z1 { n = z1.n - m; p = drop m z1.p })
      → Reads (suc fuel) (suc n) z
  unfolding read_loop flat
  read_round fuel n m z z1 {c} {s} full look v1 same me few fits (z', v', run, rest) =
      let t : (suc n == 0) ≡ false = ground arith in
      let inside : m ≤ length z1.p = omega (arith, v1.counted) in
      let e : drop m z1.p ++ upto_empty z1.reader ≡ drop m (flat z) =
        sym (drop-append_le m z1.p (upto_empty z1.reader) inside) ∙ ap (drop m) same in
      let e' : take m z1.p ≡ take m (flat z) =
        sym (take-append_le m z1.p (upto_empty z1.reader) inside) ∙ ap (take m) same in
      let whole : m + (suc n - m) ≡ suc n = omega arith in
      let bytes : take m z1.p ++ take (suc n - m) (drop m z1.p ++ upto_empty z1.reader)
          ≡ take (suc n) (flat z) =
        rw (e, e', take-add, whole) in
      let long : m ≤ length (flat z) =
        omega (arith, ap length same, length-append z1.p (upto_empty z1.reader)) in
      let short : suc n - m - length (drop m z1.p ++ upto_empty z1.reader)
          ≡ suc n - length (flat z) =
        rw e (omega (arith, length-drop m (flat z), long)) in
      (
        z',
        v',
        ground (arith, copy_lem m z1 inside, bytes, short),
        λ h. rest (omega (arith, length-drop m (flat z), ap length e)) ∙ rw (e, drop-add, whole),
      )

  reads : (fuel n : ℕ) (z : Zio) → IsValid z → n ≤ fuel → Reads fuel n z
  unfolding read_loop
  reads zero n z v h = let e : n ≡ 0 = omega arith in rw e (z, v, ground arith, λ h. refl)
  reads (suc fuel) zero z v h = (z, v, ground arith, λ h. refl)
  reads (suc fuel) (suc n) z v h =
      let looked : Looks z = looks z.n z.p z.reader v.counted in
      let (z1, v1, look, more) = looked in
      elim (List-cases (flat z)) [
        | inl e ↦
            let t : (suc n == 0) ≡ false = ground arith in
            let look' = rw e at look in
            (z1, v1, ground arith, λ k. absurd (omega (arith, ap length e)))
        | inr (c, s, e) ↦
            let (same, some_left) = more (λ k. cc) in
            let m = if leb (suc n) z1.n then suc n else z1.n in
            read_round fuel n m z z1 e (rw e at look) v1 same refl (ground arith) (ground arith) (
              reads fuel (suc n - m) (record z1 { n = z1.n - m; p = drop m z1.p })
                (record { counted = omega (arith, length-drop m z1.p, v1.counted) }) (ground arith))
      ]

pub read_lem :
    (E : Type 0) (n : ℕ) (z : Zio)
    → IsValid z
    → (z' : Zio) × IsValid z'
      × (read {E = E} n z ≡ ok ((take n (flat z), n - length (flat z)), z'))
      × (n ≤ length (flat z) → flat z' ≡ drop n (flat z))
unfolding read
read_lem E n z v = reads E n n z v (omega arith)

-- luaZ_read on a stream whose counter is right and which has n bytes left: it copies the next n bytes,
-- reports none missing, and leaves the rest, however the reader cuts its input into blocks.
pub read_full :
    (E : Type 0) (n : ℕ) (z : Zio)
    → IsValid z
    → n ≤ length (flat z)
    → (z' : Zio) × IsValid z'
      × (read {E = E} n z ≡ ok ((take n (flat z), 0), z'))
      × (flat z' ≡ drop n (flat z))
read_full E n z v h =
    let (z', v', r, left) = read_lem E n z v in
    let e : n - length (flat z) ≡ 0 = omega arith in (z', v', rw e at r, left h)

-- luaZ_read on a stream whose counter is right and which has fewer than n bytes left: it ends without
-- a fault, copies all of them, and reports how many are missing.
pub read_short :
    (E : Type 0) (n : ℕ) (z : Zio)
    → IsValid z
    → length (flat z) < n
    → (z' : Zio) × IsValid z' × (read {E = E} n z ≡ ok ((flat z, n - length (flat z)), z'))
read_short E n z v h =
    let (z', v', r, left) = read_lem E n z v in
    (z', v', rw (take-all n (flat z) (omega arith)) at r)

gets :
    (E : Type 0) (n : ℕ) (p : List ℕ) (r : List (List ℕ)) {c : ℕ} {s : List ℕ}
    → n ≡ length p
    → n < 2 ^ 64
    → p ++ upto_empty r ≡ c ∷ s
    → (z' : Zio) × IsValid z'
      × (zgetc {E = E} (record { n = n; p = p; reader = r }) ≡ ok (some c, z'))
      × (flat z' ≡ s)
unfolding zgetc flat
gets E n [] [] e h f = cc
gets E n [] ([] ∷ r) e h f = cc
gets E n [] ((b ∷ bs) ∷ r) e h f = (
  record { n = length bs; p = bs; reader = r },
  record { counted = refl },
  ground arith,
  ground arith,
)
gets E n (b ∷ p) r e h f = (
  record { n = length p; p = p; reader = r },
  record { counted = refl },
  ground arith,
  ground arith,
)

ends :
    (E : Type 0) (n : ℕ) (p : List ℕ) (r : List (List ℕ))
    → n ≡ length p
    → n < 2 ^ 64
    → p ++ upto_empty r ≡ []
    → (z' : Zio) × (zgetc {E = E} (record { n = n; p = p; reader = r }) ≡ ok (none, z'))
      × (zgetc {E = E} z' ≡ fault)
unfolding zgetc flat
ends E n (b ∷ p) r e h f = cc
ends E n [] [] e h f = (record { n = 2 ^ 64 - 1; p = []; reader = [] }, ground arith, ground arith)
ends E n [] ([] ∷ r) e h f =
    (record { n = 2 ^ 64 - 1; p = []; reader = r }, ground arith, ground arith)
ends E n [] ((b ∷ bs) ∷ r) e h f = cc

-- The macro zgetc on a stream whose counter is right and below 2 ^ 64, and that has a byte left: it
-- takes that byte off the stream, and keeps the counter right.
pub zgetc_lem :
    (E : Type 0) (z : Zio) {c : ℕ} {s : List ℕ}
    → IsValid z
    → z.n < 2 ^ 64
    → flat z ≡ c ∷ s
    → (z' : Zio) × IsValid z' × (zgetc {E = E} z ≡ ok (some c, z')) × (flat z' ≡ s)
unfolding flat
zgetc_lem E z v h f = gets E z.n z.p z.reader v.counted h f

-- The macro zgetc at the end of a stream whose counter is right and below 2 ^ 64: it answers EOZ, and
-- leaves the counter wrapped around, so that the next zgetc reads past the end of the buffer.
pub zgetc_at_end :
    (E : Type 0) (z : Zio)
    → IsValid z
    → z.n < 2 ^ 64
    → flat z ≡ []
    → (z' : Zio) × (zgetc {E = E} z ≡ ok (none, z')) × (zgetc {E = E} z' ≡ fault)
unfolding flat
zgetc_at_end E z v h f = ends E z.n z.p z.reader v.counted h f
