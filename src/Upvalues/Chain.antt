-- ===== src/Upvalues/Chain.antt =====
-- lfunc.cpp: luaF_findupval on the chain of open upvalues.
use cpplua.Prelude.{
  ℕ, ◌≤◌, ◌<◌, ◌≡◌, refl, Option, none, some, List, [], ◌∷◌, All, leb, ◌==◌, if◌then◌else◌, arith,
  Bool-cases, inl, inr,
}
use cpplua.Upvalues.{UpVal, State, resurrect, walk, findupval, link}

-- levels fall strictly
abbrev pub IsSorted : List UpVal → Type 0
IsSorted [] = Unit
IsSorted (p ∷ ps) = All (λ q. q.level < p.level) ps × IsSorted ps

-- the upvalue of a level
unfoldable pub at_level : List UpVal → ℕ → Option ℕ
at_level [] k = none
at_level (p ∷ ps) k = if p.level == k then some p.id else at_level ps k

abbrev pub or_else : Option ℕ → ℕ → ℕ
or_else none d = d
or_else (some i) d = i

module _ (white level id : ℕ) where
  walk-All :
      (ps : List UpVal) (b : ℕ)
      → level < b
      → All (λ q. q.level < b) ps
      → All (λ q. q.level < b) (walk white level id ps).0
  unfolding walk resurrect
  walk-All [] b h a = (h, tt)
  walk-All (p ∷ ps) b h a = ground (arith, walk-All ps b h a.1)

  All_below :
      (ps : List UpVal) (b c : ℕ) → b ≤ c → All (λ q. q.level < b) ps → All (λ q. q.level < c) ps
  All_below [] b c h a = tt
  All_below (p ∷ ps) b c h a = (omega (arith, a.0), All_below ps b c h a.1)

  resurrect-level : (p : UpVal) → (resurrect white p).level ≡ p.level
  unfolding resurrect
  resurrect-level p = ground arith

  walk-IsSorted : (ps : List UpVal) → IsSorted ps → IsSorted (walk white level id ps).0
  unfolding walk
  walk-IsSorted [] s = (tt, tt)
  walk-IsSorted (p ∷ ps) s = elim (Bool-cases (leb level p.level)) [
    | inl up ↦ elim (Bool-cases (p.level == level)) [
      | inl here ↦ rw (up, here) (rw (resurrect-level p) s.0, s.1)
      | inr above ↦
          rw (up, above) (walk-All ps p.level (ground (arith, up, above)) s.0, walk-IsSorted ps s.1)
    ]
    | inr below ↦
        let less : p.level < level = ground (arith, below) in
        rw below ((less, All_below ps p.level level (omega arith) s.0), s)
  ]

  pub at_level-none :
      (ps : List UpVal) (b k : ℕ) → b ≤ k → All (λ q. q.level < b) ps → at_level ps k ≡ none
  unfolding at_level
  at_level-none [] b k h a = refl
  at_level-none (p ∷ ps) b k h a = ground (arith, at_level-none ps b k h a.1, a.0)

  walk-at_level :
      (ps : List UpVal) (k : ℕ)
      → IsSorted ps
      → at_level (walk white level id ps).0 k
        ≡ (if level == k then some (walk white level id ps).1 else at_level ps k)
  unfolding walk resurrect at_level
  walk-at_level [] k s = refl
  walk-at_level (p ∷ ps) k s =
      ground (arith, walk-at_level ps k s.1, at_level-none ps p.level level)

  walk-id :
      (ps : List UpVal) → IsSorted ps → (walk white level id ps).1 ≡ or_else (at_level ps level) id
  unfolding walk resurrect at_level
  walk-id [] s = refl
  walk-id (p ∷ ps) s = ground (arith, walk-id ps s.1, at_level-none ps p.level level)

module _ {V : Type 0} where
  -- On a sorted chain luaF_findupval gives the upvalue that the level has, or a new one. After it that
  -- upvalue is the level's, every other level has the upvalue it had, and the chain is sorted.
  pub findupval-at_level :
      (s : State V) (level k : ℕ)
      → IsSorted s.openupval
      → ((findupval level s).1 ≡ or_else (at_level s.openupval level) s.fresh)
        × (at_level (findupval level s).0.openupval k
            ≡ (if level == k then some (findupval level s).1 else at_level s.openupval k))
        × IsSorted (findupval level s).0.openupval
  unfolding findupval link
  findupval-at_level s level k h =
      let same = walk-id s.currentwhite level s.fresh s.openupval h in
      let there = walk-at_level s.currentwhite level s.fresh s.openupval k h in
      let sorted = walk-IsSorted s.currentwhite level s.fresh s.openupval h in
      elim (Bool-cases (walk s.currentwhite level s.fresh s.openupval).2) [
        | inl new ↦ rw new (same, there, sorted)
        | inr old ↦ rw old (same, there, sorted)
      ]
