-- ===== src/Table.antt =====
-- ltable.cpp: tables with an array part and a hash part. A value is nil (`none`) or a handle; a node is
-- known by its index in `node`, and a place that a lookup returns is a `Slot`.
pub mod Rehash
pub mod Traverse
pub mod Sizes
pub mod Border
pub mod Free
use cpplua.Prelude.{
  ℕ, zero, suc, ◌+◌, ◌-◌, ◌*◌, ◌/◌, ◌%◌, ◌^◌, Bool, true, false, ◌&&◌, ◌||◌, Option, none, some,
  List, [], ◌∷◌, ltb, leb, ◌==◌, if◌then◌else◌, length, get_elem?, set,
}
use mathlib.Core.Bool.{not}
use cpplua.Prelude.Int.{ℤ, pos, negsuc, ◌+ℤ◌}
use cpplua.Prelude.Text.{codes}
use cpplua.Prelude.Outcome.{
  Outcome, ok, fault, Proc, ◌>>=◌, ◌>>◌, pure, raise, faults, stucks, get_state, put_state, modify,
}

abbrev pub Value : Type 0
Value = Option ℕ

abbrev pub is_nil : Value → Bool
is_nil none = true
is_nil (some v) = false

-- the keys, by type: numbers are bit patterns, objects are addresses, a string has its hash
pub data Key : Type 0 where
  tnil : Key
  tboolean : ℕ → Key
  tlightuserdata : ℕ → Key
  tnumber : ℕ → Key
  tstring : ℕ → ℕ → Key
  tobject : ℕ → ℕ → Key
  tdeadkey : ℕ → Key

-- struct Node
pub record Node : Type 0 where
  pub i_val : Value
  pub i_key : Key
  pub next : Option ℕ

-- struct Table; `dummy` says that `node` is the shared dummynode
pub record Table : Type 0 where
  pub array : List Value
  pub node : List Node
  pub dummy : Bool
  pub lastfree : ℤ
  pub flags : ℕ

-- what a `const TValue *` of a lookup points to
pub data Slot : Type 0 where
  nilobject : Slot
  in_array : ℕ → Slot
  in_node : ℕ → Slot

abbrev pub empty_node : Node
empty_node = record { i_val = none; i_key = tnil; next = none }

abbrev pub key_is_nil : Key → Bool
key_is_nil tnil = true
key_is_nil _ = false

-- the arithmetic of lua_Number that tables use, on bit patterns
pub record Numbers : Type 0 where
  pub of_int : ℤ → ℕ
  pub to_int : ℕ → ℤ
  pub same : ℕ → ℕ → Bool
  pub plus_one : ℕ → ℕ
  pub is_nan : ℕ → Bool

abbrev pub sizenode : Table → ℕ
sizenode t = length t.node

-- macro hashpow2
unfoldable pub hashpow2 : Table → ℕ → ℕ
hashpow2 t n = n % sizenode t

-- macro hashmod: `(sizenode(t) - 1) | 1` sets the low bit
unfoldable pub hashmod : Table → ℕ → ℕ
hashmod t n = n % ((sizenode t - 1) / 2 * 2 + 1)

module _ (num : Numbers) where
  abbrev pub Run : Type 0 → Type 0
  Run = Proc (List ℕ) Table

  -- hashnum: the sum of the two words of the number plus one
  unfoldable pub hashnum : Table → ℕ → ℕ
  unfolding hashmod
  hashnum t n = let m = num.plus_one n in hashmod t ((m % 2 ^ 32 + m / 2 ^ 32) % 2 ^ 32)

  -- mainposition
  unfoldable pub mainposition : Table → Key → ℕ
  unfolding hashnum hashpow2 hashmod
  mainposition t (tnumber n) = hashnum t n
  mainposition t (tstring s hash) = hashpow2 t hash
  mainposition t (tboolean b) = hashpow2 t b
  mainposition t (tlightuserdata p) = hashmod t (p % 2 ^ 32)
  mainposition t (tobject tt_ p) = hashmod t (p % 2 ^ 32)
  mainposition t (tdeadkey p) = hashmod t (p % 2 ^ 32)
  mainposition t tnil = hashmod t 0

  -- luaO_rawequalObj
  unfoldable pub rawequal : Key → Key → Bool
  rawequal tnil tnil = true
  rawequal (tboolean b) (tboolean c) = b == c
  rawequal (tlightuserdata p) (tlightuserdata q) = p == q
  rawequal (tnumber n) (tnumber m) = num.same n m
  rawequal (tstring s h) (tstring s' h') = s == s'
  rawequal (tobject a p) (tobject b q) = a == b && p == q
  rawequal (tdeadkey p) (tdeadkey q) = p == q
  rawequal _ _ = false

  abbrev pub node_at : ℕ → Run Node
  node_at i t = elim (get_elem? t.node i) [ none ↦ fault | some n ↦ ok (n, t) ]

  abbrev pub change : ℕ → (Node → Node) → Run (Unit {0})
  change i f = do n ← node_at i; modify (λ t. record t { node = set t.node i (f n) })

  -- the loop of every search: along the chain from node `i` to the first that `found` accepts
  unfoldable pub walk : (Node → Bool) → ℕ → ℕ → Run (Option ℕ)
  walk found zero i = stucks
  walk found (suc fuel) i = do
    n ← node_at i
    if found n then pure (some i) else elim n.next [ none ↦ pure none | some j ↦ walk found fuel j ]

  abbrev pub slot_of : Option ℕ → Slot
  slot_of none = nilobject
  slot_of (some i) = in_node i

  unfoldable pub search : (Node → Bool) → ℕ → Run Slot
  unfolding walk
  search found i = do t ← get_state; r ← walk found (sizenode t) i; pure (slot_of r)

  abbrev pub has_number : ℕ → Node → Bool
  has_number n node = elim node.i_key [ tnumber m ↦ num.same m n | _ ↦ false ]

  abbrev pub has_string : ℕ → Node → Bool
  has_string s node = elim node.i_key [ tstring s' h ↦ s' == s | _ ↦ false ]

  -- luaH_getnum
  unfoldable pub getnum : ℤ → Run Slot
  unfolding search hashnum
  getnum key = do
    t ← get_state
    let in_hash = search (has_number (num.of_int key)) (hashnum t (num.of_int key))
    elim key [
      | pos (suc k) ↦ if ltb k (length t.array) then pure (in_array k) else in_hash
      | _ ↦ in_hash
    ]

  -- luaH_getstr
  unfoldable pub getstr : ℕ → ℕ → Run Slot
  unfolding search hashpow2
  getstr s hash = do t ← get_state; search (has_string s) (hashpow2 t hash)

  unfoldable pub get_any : Key → Run Slot
  unfolding search mainposition rawequal
  get_any key = do t ← get_state; search (λ n. rawequal n.i_key key) (mainposition t key)

  -- luaH_get
  unfoldable pub get : Key → Run Slot
  unfolding getstr getnum get_any
  get tnil = pure nilobject
  get (tstring s hash) = getstr s hash
  get (tnumber n) =
      if num.same (num.of_int (num.to_int n)) n then getnum (num.to_int n) else get_any (tnumber n)
  get key = get_any key

  -- the loop of getfreepos, with `lastfree` at `k`
  unfoldable pub free_below : List Node → ℕ → Outcome (List ℕ) (Option ℕ × ℤ)
  free_below nodes zero = ok (none, negsuc 0)
  free_below nodes (suc k) =
      let rest = free_below nodes k in
      elim (get_elem? nodes k) [
        | none ↦ fault
        | some n ↦ if key_is_nil n.i_key then ok (some k, pos k) else rest
      ]

  -- getfreepos: `lastfree` is lowered also by the test that fails
  unfoldable pub getfreepos : Run (Option ℕ)
  unfolding free_below
  getfreepos t = elim t.lastfree [
    | pos k ↦ elim (free_below t.node k) [
      | ok (r, lastfree) ↦ ok (r, record t { lastfree = lastfree })
      | _ ↦ fault
    ]
    | negsuc k ↦ ok (none, record t { lastfree = negsuc (suc k) })
  ]

  -- the loop that finds the node in front of `mp` in a chain
  unfoldable pub previous : ℕ → ℕ → ℕ → Run ℕ
  previous zero i mp = stucks
  previous (suc fuel) i mp = do
    n ← node_at i
    elim n.next [ none ↦ faults | some j ↦ if j == mp then pure i else previous fuel j mp ]

  -- the colliding node moves to the free node `n`, and `mp` is free
  unfoldable pub move_colliding : ℕ → ℕ → ℕ → Run (Unit {0})
  unfolding previous
  move_colliding othern mp n = do
    t ← get_state
    before ← previous (sizenode t) othern mp
    change before (λ x. record x { next = some n })
    node ← node_at mp
    change n (λ _. node)
    change mp (λ x. record x { next = none; i_val = none })

  -- the new node goes behind `mp` in its chain
  unfoldable pub chain_behind : ℕ → ℕ → Run (Unit {0})
  chain_behind mp n = do
    node ← node_at mp
    change n (λ x. record x { next = node.next })
    change mp (λ x. record x { next = some n })

  -- the end of newkey: the key goes into its node
  abbrev pub settle : Key → ℕ → Run (Option ℕ)
  settle key i = change i (λ x. record x { i_key = key }) >> pure (some i)

  -- newkey, but for a table that is full: then `none`
  unfoldable pub place : Key → Run (Option ℕ)
  unfolding mainposition getfreepos move_colliding chain_behind
  place key = do
    t ← get_state
    let mp = mainposition t key
    node ← node_at mp
    if not (is_nil node.i_val) || t.dummy
        then (do
          free ← getfreepos
          elim free [
            | none ↦ pure none
            | some n ↦
                if mainposition t node.i_key == mp
                then (chain_behind mp n >> settle key n)
                else (move_colliding (mainposition t node.i_key) mp n >> settle key mp)
          ])
        else settle key mp
