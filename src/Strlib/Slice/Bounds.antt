-- ===== src/Strlib/Slice/Bounds.antt =====
-- lstrlib.cpp: str_sub, str_byte and the places of a string that they choose.
use cpplua.Prelude.{
  ℕ, zero, suc, ◌+◌, ◌-◌, ◌%◌, ◌^◌, ◌≤◌, ◌<◌, ◌≡◌, refl, sym, ◌∙◌, ap, Bool, false, ◌&&◌, ◌||◌,
  true, Option, some, List, [], ◌∷◌, length, take, drop, ltb, leb, if◌then◌else◌, arith, Bool-cases,
  inl, inr,
}
use cpplua.Prelude.Int.{ℤ, pos, negsuc, pos_part, neg_part}
use cpplua.Prelude.Outcome.{ok}
use cpplua.Strlib.Find.{posrelat}
use cpplua.Strlib.Slice.{
  default, at_least_one, byte_end, bytes_between, sub_until, str_sub, str_byte, max_cstack,
  has_stack, push_bytes, byte_slice,
}

-- an order of integers as a test
abbrev pub le_z : ℤ → ℤ → Bool
le_z a b = leb (pos_part a + neg_part b) (pos_part b + neg_part a)

-- The bytes at the places from `lo` to `hi`, of a string whose first place is `k`.
pub places : ℤ → ℤ → ℕ → List ℕ → List ℕ
places lo hi k [] = []
places lo hi k (x ∷ xs) =
    let rest = places lo hi (k + 1) xs in
    if le_z lo (pos k) && le_z (pos k) hi then x ∷ rest else rest

take-nil : (n : ℕ) → take {A = ℕ} n [] ≡ []
take-nil zero = refl
take-nil (suc n) = refl

drop-nil : (n : ℕ) → drop {A = ℕ} n [] ≡ []
drop-nil zero = refl
drop-nil (suc n) = refl

module _ (a b : ℕ) where
  places_inside : (k : ℕ) (s : List ℕ) → a ≤ k → places (pos a) (pos b) k s ≡ take (b + 1 - k) s
  unfolding places
  places_inside k [] h = sym (take-nil (b + 1 - k))
  places_inside k (x ∷ xs) h = elim (Bool-cases (leb k b)) [
    | inl e ↦
        let more : b + 1 - k ≡ suc (b + 1 - (k + 1)) = ground (arith, e) in
        rw more (ground (arith, e, places_inside (k + 1) xs (omega arith)))
    | inr e ↦
        let over : b + 1 - k ≡ 0 = ground (arith, e) in
        let over' : b + 1 - (k + 1) ≡ 0 = ground (arith, e) in
        let ih : places (pos a) (pos b) (k + 1) xs ≡ [] =
          places_inside (k + 1) xs (omega arith) ∙ rw over' in
        rw over (ground (arith, e, ih))
  ]

  places_from :
      (k : ℕ) (s : List ℕ) → k ≤ a → places (pos a) (pos b) k s ≡ take (b + 1 - a) (drop (a - k) s)
  unfolding places
  places_from k [] h = sym (ap (take (b + 1 - a)) (drop-nil (a - k)) ∙ take-nil (b + 1 - a))
  places_from k (x ∷ xs) h = elim (Bool-cases (ltb k a)) [
    | inl e ↦
        let next : a - k ≡ suc (a - (k + 1)) = ground (arith, e) in
        rw next (ground (arith, e, places_from (k + 1) xs (ground arith)))
    | inr e ↦
        let here : k ≡ a = ground (arith, e) in
        let none_before : a - k ≡ 0 = omega arith in
        rw none_before (places_inside k (x ∷ xs) (omega arith) ∙ rw here)
  ]

  places_empty : (k : ℕ) (s : List ℕ) → b < a → places (pos a) (pos b) k s ≡ []
  unfolding places
  places_empty k [] h = refl
  places_empty k (x ∷ xs) h = ground (arith, places_empty (k + 1) xs)

-- Where both ends lie behind the string, they choose the same.
places_clamp :
    (lo : ℤ) (b c k : ℕ) (s : List ℕ)
    → k + length s ≤ b + 1
    → k + length s ≤ c + 1
    → places lo (pos b) k s ≡ places lo (pos c) k s
unfolding places
places_clamp lo b c k [] h i = refl
places_clamp lo b c k (x ∷ xs) h i =
    ground (arith, places_clamp lo b c (k + 1) xs (omega arith) (omega arith))

-- A first place before the string is as good as its first.
places-at_least_one :
    (lo hi : ℤ) (k : ℕ) (s : List ℕ)
    → 1 ≤ k
    → places (pos (at_least_one lo)) hi k s ≡ places lo hi k s
unfolding places at_least_one
places-at_least_one lo hi k [] h = refl
places-at_least_one (pos zero) hi k (x ∷ xs) h =
    ground (arith, places-at_least_one (pos zero) hi (k + 1) xs)
places-at_least_one (pos (suc n)) hi k (x ∷ xs) h = refl
places-at_least_one (negsuc n) hi k (x ∷ xs) h =
    ground (arith, places-at_least_one (negsuc n) hi (k + 1) xs)

places_negative : (lo : ℤ) (n k : ℕ) (s : List ℕ) → places lo (negsuc n) k s ≡ []
unfolding places
places_negative lo n k [] = refl
places_negative lo n k (x ∷ xs) = ground (arith, places_negative lo n (k + 1) xs)

at_least_one-pos : (lo : ℤ) → 1 ≤ at_least_one lo
unfolding at_least_one
at_least_one-pos (pos zero) = omega arith
at_least_one-pos (pos (suc n)) = omega arith
at_least_one-pos (negsuc n) = omega arith

module _ (s : List ℕ) (lo : ℤ) where
  -- an end that is in the string, in both functions
  upto :
      (b : ℕ)
      → b ≤ length s
      → (if leb (at_least_one lo) b then bytes_between s (at_least_one lo) b else some [])
        ≡ some (places lo (pos b) 1 s)
  unfolding bytes_between
  upto b h = elim (Bool-cases (leb (at_least_one lo) b)) [
    | inl e ↦
        let size : b - at_least_one lo + 1 ≡ b + 1 - at_least_one lo = ground (arith, e) in
        let whole : ltb (length s) b ≡ false = ground arith in
        rw (e, whole, size)
          (ap some (
            sym (places_from (at_least_one lo) b 1 s (at_least_one-pos lo))
            ∙ places-at_least_one lo (pos b) 1 s (omega arith)))
    | inr e ↦ rw e (
        ap some (
          sym (places_empty (at_least_one lo) b 1 s (ground (arith, e)))
          ∙ places-at_least_one lo (pos b) 1 s (omega arith)))
  ]

  sub_until-places : (hi : ℤ) → sub_until s (at_least_one lo) hi ≡ some (places lo hi 1 s)
  unfolding sub_until
  sub_until-places (negsuc n) = ap some (sym (places_negative lo n 1 s))
  sub_until-places (pos e) = elim (Bool-cases (ltb (length s) e)) [
    | inl over ↦ rw over (
        upto (length s) (omega arith)
        ∙ ap some (places_clamp lo (length s) e 1 s (omega arith) (ground (arith, over))))
    | inr fits ↦ rw fits (upto e (ground (arith, fits)))
  ]

-- str_sub returns the bytes whose places lie between the two positions, both read relative to the end
-- where they are negative; positions outside the string choose nothing there.
pub str_sub-places :
    (s : List ℕ) (i : ℤ) (j : Option ℤ)
    → str_sub s i j
      ≡ some (places (posrelat i (length s)) (posrelat (default j (negsuc 0)) (length s)) 1 s)
unfolding str_sub
str_sub-places s i j =
    sub_until-places s (posrelat i (length s)) (posrelat (default j (negsuc 0)) (length s))

-- what str_byte gives of a slice that ends with the string
byte_slice-upto :
    (used : ℕ) (s : List ℕ) (lo : ℤ)
    → used + length s ≤ max_cstack
    → (if leb (at_least_one lo) (length s)
        then byte_slice used s (at_least_one lo) (length s)
        else ok [])
      ≡ ok (places lo (pos (length s)) 1 s)
unfolding byte_slice has_stack push_bytes
byte_slice-upto used s lo room = elim (Bool-cases (leb (at_least_one lo) (length s))) [
  | inl e ↦
      let a = at_least_one lo in
      let one = at_least_one-pos lo in
      let size : (length s - a + 1) % 2 ^ 32 ≡ length s + 1 - a = ground (arith, e, one) in
      let whole : (leb (2 ^ 31) (length s + 1 - a) || leb (a + (length s + 1 - a)) (length s))
          ≡ false =
        ground (arith, e, one) in
      let fits : leb (used + (length s + 1 - a)) max_cstack ≡ true = ground (arith, e, one) in
      let inside : leb (a - 1 + (length s + 1 - a)) (length s) ≡ true = ground (arith, e, one) in
      rw (e, size, whole, fits, inside)
        (ap ok (
          sym (places_from a (length s) 1 s one)
          ∙ places-at_least_one lo (pos (length s)) 1 s (omega arith)))
  | inr e ↦ rw e (
      ap ok (
        sym (places_empty (at_least_one lo) (length s) 1 s (ground (arith, e)))
        ∙ places-at_least_one lo (pos (length s)) 1 s (omega arith)))
]

-- Where the stack has room for the whole string, an end before the string counts as the end of the string
-- in str_byte; str_sub takes nothing then.
pub str_byte-negative :
    (used : ℕ) (s : List ℕ) (i j : ℤ) (n : ℕ)
    → used + length s ≤ max_cstack
    → posrelat j (length s) ≡ negsuc n
    → (str_byte used s (some i) (some j) ≡ ok (places (posrelat i (length s)) (pos (length s)) 1 s))
      × (str_sub s i (some j) ≡ some [])
unfolding str_byte str_sub byte_end sub_until
str_byte-negative used s i j n room e =
    (rw e (byte_slice-upto used s (posrelat i (length s)) room), rw e)
