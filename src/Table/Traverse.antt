-- ===== src/Table/Traverse.antt =====
-- ltable.cpp: luaH_next and luaH_getn.
use cpplua.Prelude.{
  ℕ, zero, suc, ◌+◌, ◌-◌, ◌*◌, ◌/◌, ◌%◌, ◌^◌, Bool, true, false, ◌||◌, Option, none, some, List, [],
  ◌∷◌, ltb, ◌==◌, if◌then◌else◌, length, get_elem?, drop,
}
use cpplua.Prelude.Int.{ℤ, pos, negsuc}
use cpplua.Prelude.Text.{codes}
use cpplua.Prelude.Limits.{max_int}
use cpplua.Prelude.Outcome.{ok, fault, Proc, ◌>>=◌, pure, raise, stucks, get_state}
use cpplua.Table.{
  Value, is_nil, Key, tnil, tnumber, tstring, tobject, tdeadkey, Node, Table, Slot, nilobject,
  in_array, in_node, Numbers, sizenode, Run, getnum, mainposition, rawequal, walk,
}
use cpplua.Table.Rehash.{arrayindex}

-- `cast(int, j)` of an unsigned number
abbrev pub as_int : ℕ → ℤ
as_int j = if ltb j (2 ^ 31) then pos j else negsuc (2 ^ 32 - 1 - j)

-- the value that a `const TValue *` points to
unfoldable pub value_at : Slot → Proc (List ℕ) Table Value
value_at nilobject = pure none
value_at (in_array i) = λ t. elim (get_elem? t.array i) [ none ↦ fault | some v ↦ ok (v, t) ]
value_at (in_node i) = λ t. elim (get_elem? t.node i) [ none ↦ fault | some n ↦ ok (n.i_val, t) ]

abbrev pub nil_in : List Value → ℕ → Proc (List ℕ) Table Bool
nil_in array i = λ t. elim (get_elem? array i) [ none ↦ fault | some v ↦ ok (is_nil v, t) ]

-- the binary search between `i` and `j`, with `absent` as its test
unfoldable pub between : (ℕ → Proc (List ℕ) Table Bool) → ℕ → ℕ → ℕ → Proc (List ℕ) Table ℕ
between absent zero i j = if ltb 1 ((j + 2 ^ 32 - i) % 2 ^ 32) then stucks else pure i
between absent (suc fuel) i j = elim (ltb 1 ((j + 2 ^ 32 - i) % 2 ^ 32)) [
  | false ↦ pure i
  | true ↦ do
    b ← absent ((i + j) % 2 ^ 32 / 2)
    elim b [
      | true ↦ between absent fuel i ((i + j) % 2 ^ 32 / 2)
      | false ↦ between absent fuel ((i + j) % 2 ^ 32 / 2) j
    ]
]

-- the linear search of unbound_search
unfoldable pub linear : (ℕ → Proc (List ℕ) Table Bool) → ℕ → ℕ → Proc (List ℕ) Table ℕ
linear absent zero i = stucks
linear absent (suc fuel) i = do
  b ← absent i
  elim b [ true ↦ pure (i - 1) | false ↦ linear absent fuel ((i + 1) % 2 ^ 32) ]

-- the first loop of unbound_search and what follows it; a distance of 2 ^ 31 is halved 31 times
unfoldable pub doubling : (ℕ → Proc (List ℕ) Table Bool) → ℕ → ℕ → ℕ → ℕ → Proc (List ℕ) Table ℕ
unfolding between linear
doubling absent far zero i j = stucks
doubling absent far (suc fuel) i j = do
  b ← absent j
  elim b [
    | true ↦ between absent 31 i j
    | false ↦ elim (ltb max_int (j * 2 % 2 ^ 32)) [
      | true ↦ linear absent far 1
      | false ↦ doubling absent far fuel j (j * 2 % 2 ^ 32)
    ]
  ]

module _ (num : Numbers) where
  -- `luaH_getnum(t, j)->isnil()`
  unfoldable pub absent : ℕ → Run num Bool
  unfolding value_at
  absent j = do p ← getnum num (as_int j); v ← value_at p; pure (is_nil v)

  -- unbound_search; `far` is the fuel of the linear search, and the doubling passes 2 ^ 31 in 32 rounds
  unfoldable pub unbound_search : ℕ → ℕ → Run num ℕ
  unfolding doubling absent
  unbound_search far j = doubling absent far 32 j ((j + 1) % 2 ^ 32)

  -- the first test of luaH_getn
  unfoldable pub last_is_nil : Run num Bool
  last_is_nil t =
      let j = length t.array in (if ltb 0 j then nil_in t.array (j - 1) else pure false) t

  -- luaH_getn
  unfoldable pub getn : ℕ → Run num ℕ
  unfolding unbound_search between last_is_nil
  getn far = do
    t ← get_state
    let j = length t.array
    full ← last_is_nil
    elim full [
      | true ↦ between (λ m. nil_in t.array (m - 1)) 31 0 j
      | false ↦ elim t.dummy [ true ↦ pure j | false ↦ unbound_search far j ]
    ]

  -- findindex: a dead key is still found by its address
  abbrev is_key : Key → Node → Bool
  is_key key n = rawequal num n.i_key key || elim n.i_key [
    | tdeadkey p ↦ elim key [ tobject ty q ↦ p == q | tstring s h ↦ p == s | _ ↦ false ]
    | _ ↦ false
  ]

  unfoldable pub findindex : Key → Run num ℤ
  unfolding mainposition walk rawequal
  findindex tnil = pure (negsuc 0)
  findindex key = do
    t ← get_state
    let in_hash : Run num ℤ = (do
      r ← walk num (is_key key) (sizenode t) (mainposition num t key)
      elim r [
        | none ↦ raise (codes "invalid key to 'next'")
        | some i ↦ pure (pos (i + length t.array))
      ])
    elim (arrayindex num key) [
      | pos (suc i) ↦ if ltb i (length t.array) then pure (pos i) else in_hash
      | _ ↦ in_hash
    ]

  -- the first value from index `i` on that is not nil
  unfoldable pub next_value : List Value → ℕ → Option (ℕ × ℕ)
  next_value [] i = none
  next_value (none ∷ vs) i = next_value vs (suc i)
  next_value (some v ∷ vs) i = some (i, v)

  unfoldable pub next_node : List Node → Option (Key × ℕ)
  next_node [] = none
  next_node (n ∷ ns) =
      let rest = next_node ns in elim n.i_val [ none ↦ rest | some v ↦ some (n.i_key, v) ]

  -- luaH_next: the key and the value behind `key`, or none
  unfoldable pub next : Key → Run num (Option (Key × ℕ))
  unfolding findindex next_value next_node
  next key = do
    found ← findindex key
    t ← get_state
    let i : ℕ = elim found [ pos k ↦ suc k | negsuc _ ↦ 0 ]
    elim (next_value (drop i t.array) i) [
      | some (k, v) ↦ pure (some (tnumber (num.of_int (pos (k + 1))), v))
      | none ↦ pure (next_node (drop (i - length t.array) t.node))
    ]
