-- ===== src/Table/Sizes.antt =====
-- The size that computesizes chooses for the array part.
use cpplua.Prelude.{ℕ, suc, ◌+◌, ◌/◌, ◌^◌, ◌≤◌, ◌<◌, ◌≡◌, some, List, [], ◌∷◌, get_elem?, take, ◌⊎◌}

abbrev pub total : List ℕ → ℕ
total [] = 0
total (x ∷ xs) = x + total xs

module _ (nums : List ℕ) where
  -- the slice up to 2 ^ j has a key of its own and holds more than half as many keys as slots
  abbrev pub Qualifies : ℕ → Type 0
  Qualifies j =
      (c : ℕ) × (get_elem? nums j ≡ some c) × (0 < c) × (2 ^ j / 2 < total (take (suc j) nums))

  -- `n` is the largest qualifying size below slice `i`, or 0, and `na` the number of keys up to it
  pub record Best (i n na : ℕ) : Type 0 where
    pub chosen :
        ((n ≡ 0) × (na ≡ 0))
        ⊎ ((k : ℕ) × (n ≡ 2 ^ k) × (na ≡ total (take (suc k) nums)) × Qualifies k)
    pub largest : (j : ℕ) → j < i → Qualifies j → 2 ^ j ≤ n

  -- what computesizes promises of its result
  pub record Sized (n na : ℕ) : Type 0 where
    pub chosen :
        ((n ≡ 0) × (na ≡ 0))
        ⊎ ((k : ℕ) × (n ≡ 2 ^ k) × (na ≡ total (take (suc k) nums)) × Qualifies k)
    pub largest : (j : ℕ) → Qualifies j → 2 ^ j ≤ n
