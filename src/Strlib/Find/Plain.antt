-- ===== src/Strlib/Find/Plain.antt =====
-- lmemfind against the naive search.
use cpplua.Prelude.{
  ℕ, zero, suc, ◌+◌, ◌-◌, ◌<◌, ◌≡◌, ◌⊎◌, refl, ap, ◌∙◌, true, false, Option, none, some, List, [],
  ◌∷◌, length, take, drop, ltb, ◌==◌, ==_iff, if◌then◌else◌, Bool-cases, Option-cases, inl, inr,
  arith, length-drop, length-take,
}
use cpplua.Strlib.Pattern.Match.{bytes_eq}
use cpplua.Strlib.Find.{memchr, find_rest, lmemfind}

-- the first place where `s2` stands, tried one after the other, and counted from `base`
unfoldable pub naive : List ℕ → List ℕ → ℕ → Option ℕ
naive s2 [] base = if bytes_eq [] s2 then some base else none
naive s2 (x ∷ xs) base =
    if bytes_eq (take (length s2) (x ∷ xs)) s2 then some base else naive s2 xs (base + 1)

pub bytes_eq-length : (xs ys : List ℕ) → bytes_eq xs ys ≡ true → length xs ≡ length ys
bytes_eq-length [] [] h = refl
bytes_eq-length [] (y ∷ ys) h = cc
bytes_eq-length (x ∷ xs) [] h = cc
bytes_eq-length (x ∷ xs) (y ∷ ys) h = ground (arith, bytes_eq-length xs ys)

-- What is too short does not hold `s2`.
naive_short : (s2 xs : List ℕ) (base : ℕ) → length xs < length s2 → naive s2 xs base ≡ none
unfolding naive
naive_short [] xs base h = absurd (omega arith)
naive_short (c ∷ s2) [] base h = refl
naive_short (c ∷ s2) (x ∷ xs) base h =
    elim (Bool-cases (bytes_eq (take (length (c ∷ s2)) (x ∷ xs)) (c ∷ s2))) [
      | inl e ↦ absurd (
          omega (
            arith,
            bytes_eq-length (take (length (c ∷ s2)) (x ∷ xs)) (c ∷ s2) e,
            length-take (length (c ∷ s2)) (x ∷ xs),
          ))
      | inr e ↦ rw e (naive_short (c ∷ s2) xs (base + 1) (omega arith))
    ]

module _ (c : ℕ) (rest : List ℕ) where
  naive-cons_ne :
      (x : ℕ) (xs : List ℕ) (base : ℕ)
      → (x == c) ≡ false
      → naive (c ∷ rest) (x ∷ xs) base ≡ naive (c ∷ rest) xs (base + 1)
  unfolding naive
  naive-cons_ne x xs base h = rw h

  naive-memchr-none :
      (s1 : List ℕ) (l base : ℕ)
      → length s1 ≡ l + length rest
      → memchr s1 c l ≡ none
      → naive (c ∷ rest) s1 base ≡ none
  unfolding memchr
  naive-memchr-none [] l base h e = naive_short (c ∷ rest) [] base (omega arith)
  naive-memchr-none (x ∷ xs) zero base h e = naive_short (c ∷ rest) (x ∷ xs) base (omega arith)
  naive-memchr-none (x ∷ xs) (suc l) base h e =
      naive-cons_ne x xs base (ground (arith, e))
      ∙ naive-memchr-none xs l (base + 1) (omega arith) (ground arith)

  memchr-cons :
      (x l i : ℕ) (xs : List ℕ)
      → memchr (x ∷ xs) c (suc l) ≡ some i
      → ((x ≡ c) × (i ≡ 0))
        ⊎ (((x == c) ≡ false) × ((k : ℕ) × (i ≡ suc k) × (memchr xs c l ≡ some k)))
  unfolding memchr
  memchr-cons x l i xs e = elim (Bool-cases (x == c)) [
    | inl here ↦ inl ((==_iff x c).0 here, ground arith)
    | inr there ↦ elim (Option-cases (memchr xs c l)) [
      | inl gone ↦ absurd (ground (arith, gone))
      | inr (k, found) ↦ inr (there, (k, ground (arith, found), found))
    ]
  ]

  -- Up to the first `c` nothing is found.
  naive-memchr-some :
      (s1 : List ℕ) (l base i : ℕ)
      → memchr s1 c l ≡ some i
      → (i < l)
        × (i < length s1)
        × (drop i s1 ≡ c ∷ drop (i + 1) s1)
        × (naive (c ∷ rest) s1 base ≡ naive (c ∷ rest) (drop i s1) (base + i))
  unfolding memchr
  naive-memchr-some [] l base i e = cc
  naive-memchr-some (x ∷ xs) zero base i e = cc
  naive-memchr-some (x ∷ xs) (suc l) base i e = elim (memchr-cons x l i xs e) [
    | inl (here, at) ↦
        let same : base + 0 ≡ base = omega arith in
        rw at (omega arith, omega arith, ap (λ (y : ℕ). y ∷ xs) here, rw same)
    | inr (there, (k, next, found)) ↦
        let (p, q, r, t) = naive-memchr-some xs l (base + 1) k found in
        let one : suc k + 1 ≡ suc (k + 1) = omega arith in
        let shift : base + suc k ≡ base + 1 + k = omega arith in
        rw next (omega arith, omega arith, rw one r, naive-cons_ne x xs base there ∙ (rw shift t))
  ]

  by_test :
      (t : List ℕ) (at : ℕ) (again : Option (Option ℕ))
      → again ≡ some (naive (c ∷ rest) t (at + 1))
      → (if bytes_eq (take (length rest) t) rest then some (some at) else again)
        ≡ some (naive (c ∷ rest) (c ∷ t) at)
  unfolding naive
  by_test t at again ih = elim (Bool-cases (bytes_eq (take (length rest) t) rest)) [
    | inl e ↦ ground (arith, e)
    | inr e ↦ ground (arith, e, ih)
  ]

  find_rest-naive :
      (fuel l base : ℕ) (s1 : List ℕ)
      → l < fuel
      → length s1 ≡ l + length rest
      → find_rest fuel s1 l c rest base ≡ some (naive (c ∷ rest) s1 base)
  unfolding find_rest
  find_rest-naive zero l base s1 h e = absurd (omega arith)
  find_rest-naive (suc fuel) zero base s1 h e = rw (naive_short (c ∷ rest) s1 base (omega arith))
  find_rest-naive (suc fuel) (suc l) base s1 h e = elim (Option-cases (memchr s1 c (suc l))) [
    | inl gone ↦ rw (gone, memchr, find_rest, naive-memchr-none s1 (suc l) base e gone)
    | inr (i, found) ↦
        let (p, q, here, skip) = naive-memchr-some s1 (suc l) base i found in
        let rest_of = drop (i + 1) s1 in
        let ih =
          find_rest-naive fuel (suc l - (i + 1)) (base + i + 1) rest_of (omega arith)
            (length-drop (i + 1) s1 ∙ omega arith) in
        rw (found, memchr, find_rest, skip, here) (by_test rest_of (base + i) _ ih)
  ]

-- lmemfind returns where the naive search does, whatever the two strings.
pub lmemfind-naive : (s1 s2 : List ℕ) → lmemfind s1 s2 ≡ some (naive s2 s1 0)
unfolding lmemfind naive
lmemfind-naive [] [] = refl
lmemfind-naive (x ∷ s1) [] = refl
lmemfind-naive s1 (c ∷ rest) = elim (Bool-cases (ltb (length s1) (suc (length rest)))) [
  | inl e ↦ rw (e, naive_short (c ∷ rest) s1 0 (ground arith))
  | inr e ↦ rw e (
      find_rest-naive c rest (length s1 + 1) (length s1 - length rest) 0 s1 (omega arith)
        (ground arith))
]
