-- ===== src/Strings/Chain.antt =====
-- What a table of strings holds for given bytes, and when it is in order.
use cpplua.Prelude.{
  ℕ, ◌≤◌, ◌<◌, ◌≡◌, refl, ap, true, false, ◌&&◌, Option, none, some, List, [], ◌∷◌, All, length,
  ◌==◌, ==_iff, if◌then◌else◌, Bool-cases, inl, inr, arith,
}
use cpplua.Strlib.Pattern.Match.{bytes_eq}
use cpplua.Upvalues.{isdead}
use cpplua.Strings.{TString, StringTable, lmod, hash_of, store, revive, find_in}

-- the strings of a chain that have the bytes `b`
unfoldable pub named : List TString → List ℕ → List ℕ
named [] b = []
named (p ∷ ps) b = if bytes_eq b p.bytes then p.id ∷ named ps b else named ps b

abbrev pub first : List ℕ → Option ℕ
first [] = none
first (x ∷ xs) = some x

abbrev pub home : StringTable → List ℕ → ℕ
home tb b = lmod (hash_of b) tb.size

-- the string that stands for the bytes `b`
unfoldable pub lookup : StringTable → List ℕ → Option ℕ
lookup tb b = first (named (tb.hash (home tb b)) b)

unfoldable pub Hashed : List TString → Type 0
Hashed ps = All (λ p. p.hash ≡ hash_of p.bytes) ps

pub record IsInterned (tb : StringTable) : Type 0 where
  pub room : 0 < tb.size
  pub hashed : (i : ℕ) → Hashed (tb.hash i)
  pub placed : (i : ℕ) (b : List ℕ) → (home tb b == i) ≡ false → named (tb.hash i) b ≡ []
  pub once : (b : List ℕ) → length (named (tb.hash (home tb b)) b) ≤ 1

pub bytes_eq-eq : (xs ys : List ℕ) → bytes_eq xs ys ≡ true → xs ≡ ys
bytes_eq-eq [] [] h = refl
bytes_eq-eq [] (y ∷ ys) h = cc
bytes_eq-eq (x ∷ xs) [] h = cc
bytes_eq-eq (x ∷ xs) (y ∷ ys) h = elim (Bool-cases (x == y)) [
  | inl e ↦ elim (Bool-cases (bytes_eq xs ys)) [
    | inl r ↦ (let p = bytes_eq-eq xs ys r in let q = (==_iff x y).0 e in cc)
    | inr r ↦ absurd (ground (arith, h, e, r))
  ]
  | inr e ↦ absurd (ground (arith, h, e))
]

bytes_eq_refl : (xs : List ℕ) → bytes_eq xs xs ≡ true
bytes_eq_refl [] = refl
bytes_eq_refl (x ∷ xs) = ground (arith, bytes_eq_refl xs)

-- The walk along a chain changes marks only.
module _ (white : ℕ) (str : List ℕ) where
  revive-id : (p : TString) → (revive white p).id ≡ p.id
  unfolding revive
  revive-id p = ground arith

  revive-bytes : (p : TString) → (revive white p).bytes ≡ p.bytes
  unfolding revive
  revive-bytes p = elim (Bool-cases (isdead white p.marked)) [
    | inl e ↦ rw e refl
    | inr e ↦ rw e refl
  ]

  revive-hash : (p : TString) → (revive white p).hash ≡ p.hash
  unfolding revive
  revive-hash p = ground arith

  pub find_in-id : (os : List TString) → (find_in white str os).1 ≡ first (named os str)
  unfolding find_in named
  find_in-id [] = refl
  find_in-id (o ∷ os) = ground (arith, find_in-id os)

  pub find_in-named :
      (os : List TString) (b : List ℕ) → named (find_in white str os).0 b ≡ named os b
  unfolding find_in named
  find_in-named [] b = refl
  find_in-named (o ∷ os) b = elim (Bool-cases (bytes_eq str o.bytes)) [
    | inl e ↦ rw e (rw (revive-id o, revive-bytes o))
    | inr e ↦ rw e (rw (find_in-named os b))
  ]

  pub find_in-Hashed : (os : List TString) → Hashed os → Hashed (find_in white str os).0
  unfolding find_in Hashed
  find_in-Hashed [] h = tt
  find_in-Hashed (o ∷ os) h = elim (Bool-cases (bytes_eq str o.bytes)) [
    | inl e ↦ rw e (rw (revive-hash o, revive-bytes o) h.0, h.1)
    | inr e ↦ rw e (h.0, find_in-Hashed os h.1)
  ]

pub store_self : (f : ℕ → List TString) (k : ℕ) (c : List TString) → store f k c k ≡ c
unfolding store
store_self f k c = ground arith

pub store-other :
    (f : ℕ → List TString) (k j : ℕ) (c : List TString) → (j == k) ≡ false → store f k c j ≡ f j
unfolding store
store-other f k j c h = rw h refl

==_sym : (a b : ℕ) → (a == b) ≡ (b == a)
==_sym a b = ground arith

-- a string in front of its slot
pub named-push :
    (f : ℕ → List TString) (k j : ℕ) (p : TString) (b : List ℕ)
    → named (store f k (p ∷ f k) j) b
      ≡ (if k == j && bytes_eq b p.bytes then p.id ∷ named (f j) b else named (f j) b)
unfolding store named
named-push f k j p b = elim (Bool-cases (k == j)) [
  | inl e ↦ let at : f k ≡ f j = ap f ((==_iff k j).0 e) in rw (==_sym j k) (rw e (rw at refl))
  | inr e ↦ rw (==_sym j k) (rw e refl)
]
