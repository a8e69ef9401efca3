-- ===== src/Table/Rehash.antt =====
-- ltable.cpp: counting the keys, choosing the sizes, and building a table anew. Memory is taken to
-- suffice. `nums` is the array of counters, one for each slice between powers of two.
use cpplua.Prelude.{
  ℕ, zero, suc, ◌+◌, ◌-◌, ◌*◌, ◌/◌, ◌^◌, true, false, ◌&&◌, none, some, List, [], ◌∷◌, ◌++◌, ltb,
  leb, ◌==◌, if◌then◌else◌, length, get_elem?, set, take, drop, replicate,
}
use cpplua.Prelude.Int.{ℤ, pos, negsuc}
use cpplua.Prelude.Text.{codes}
use cpplua.Prelude.Outcome.{
  Outcome, ok, err, fault, stuck, Proc, ◌>>=◌, ◌>>◌, pure, raise, faults, stucks, get_state,
  put_state, modify,
}
use cpplua.Object.{ceillog2}
use cpplua.Table.{
  Value, is_nil, Key, tnil, tnumber, Node, Table, Slot, nilobject, in_array, in_node, empty_node,
  Numbers, sizenode, Run, getnum, get, place,
}

abbrev pub maxbits : ℕ
maxbits = 26

abbrev pub maxasize : ℕ
maxasize = 2 ^ maxbits

-- the loop of computesizes: the size and the number of elements that go to the array part
unfoldable pub sizes_loop : List ℕ → ℕ → ℕ → ℕ → ℕ → ℕ → ℕ → ℕ → Outcome (List ℕ) (ℕ × ℕ)
sizes_loop nums narray zero i twotoi a na n = stuck
sizes_loop nums narray (suc fuel) i twotoi a na n = elim (ltb (twotoi / 2) narray) [
  | false ↦ ok (n, na)
  | true ↦ elim (get_elem? nums i) [
    | none ↦ fault
    | some c ↦
        let best = ltb 0 c && ltb (twotoi / 2) (a + c) in
        let n' = if best then twotoi else n in
        let na' = if best then a + c else na in
        elim (a + c == narray) [
          | true ↦ ok (n', na')
          | false ↦ sizes_loop nums narray fuel (suc i) (twotoi * 2) (a + c) na' n'
        ]
  ]
]

-- computesizes: `nums` has 27 counters, so 28 rounds are enough
unfoldable pub computesizes : List ℕ → ℕ → Outcome (List ℕ) (ℕ × ℕ)
unfolding sizes_loop
computesizes nums narray = sizes_loop nums narray 28 0 1 0 0 0

abbrev pub Counting : Type 0 → Type 0
Counting = Proc (List ℕ) (List ℕ)

-- `nums[i] += c`
abbrev pub add_count : ℕ → ℕ → Counting (Unit {0})
add_count i c nums = elim (get_elem? nums i) [ none ↦ fault | some x ↦ ok (tt, set nums i (x + c)) ]

-- the values that are not nil
abbrev pub used : List Value → ℕ
used [] = 0
used (none ∷ vs) = used vs
used (some v ∷ vs) = suc (used vs)

-- the loop of numusearray: `i - 1` values are counted
unfoldable pub array_loop : List Value → ℕ → ℕ → ℕ → ℕ → ℕ → Counting ℕ
array_loop array zero lg ttlg i ause = pure ause
array_loop array (suc fuel) lg ttlg i ause =
    let lim = if ltb (length array) ttlg then length array else ttlg in
    let lc = used (take (lim + 1 - i) (drop (i - 1) array)) in
    if ltb (length array) ttlg && ltb lim i
    then pure ause
    else (add_count lg lc
        >> array_loop array fuel (suc lg) (ttlg * 2) (if leb i lim then lim + 1 else i) (ause + lc))

-- numusearray
unfoldable pub numusearray : Table → Counting ℕ
unfolding array_loop
numusearray t = array_loop t.array (maxbits + 1) 0 1 1 0

-- setarrayvector
abbrev pub setarrayvector : Table → ℕ → Table
setarrayvector t size = record t {
  array = take size t.array ++ replicate (size - length t.array) none;
}

-- setnodevector
unfoldable pub setnodevector : ℕ → Proc (List ℕ) Table (Unit {0})
setnodevector zero =
    modify (λ t. record t { node = empty_node ∷ []; dummy = true; lastfree = pos 0 })
setnodevector (suc size) = elim (ceillog2 (suc size)) [
  | some (pos lsize) ↦
      if ltb maxbits lsize
      then raise (codes "table overflow")
      else modify (λ t. record t {
        node = replicate (2 ^ lsize) empty_node;
        dummy = false;
        lastfree = pos (2 ^ lsize);
      })
  | _ ↦ stucks
]

-- `setobjt2t`: a value goes where a lookup or an insertion points
unfoldable pub store : Slot → Value → Proc (List ℕ) Table (Unit {0})
store nilobject v = faults
store (in_array i) v = modify (λ t. record t { array = set t.array i v })
store (in_node i) v = λ t. elim (get_elem? t.node i) [
  | none ↦ fault
  | some n ↦ ok (tt, record t { node = set t.node i (record n { i_val = v }) })
]

module _ (num : Numbers) where
  -- arrayindex
  unfoldable pub arrayindex : Key → ℤ
  arrayindex (tnumber n) = if num.same (num.of_int (num.to_int n)) n then num.to_int n else negsuc 0
  arrayindex _ = negsuc 0

  -- countint
  unfoldable pub countint : Key → Counting ℕ
  unfolding arrayindex
  countint key = elim (arrayindex key) [
    | pos k ↦
        if ltb 0 k && leb k maxasize
        then elim (ceillog2 k) [ some (pos lg) ↦ (add_count lg 1 >> pure 1) | _ ↦ stucks ]
        else pure 0
    | negsuc _ ↦ pure 0
  ]

  -- the loop of numusehash, over the nodes from the last to the first
  unfoldable pub hash_loop : List Node → ℕ → ℕ → ℕ → Counting (ℕ × ℕ)
  unfolding countint
  hash_loop nodes zero totaluse ause = pure (totaluse, ause)
  hash_loop nodes (suc i) totaluse ause = elim (get_elem? nodes i) [
    | none ↦ faults
    | some n ↦
        if is_nil n.i_val
        then hash_loop nodes i totaluse ause
        else (do c ← countint n.i_key; hash_loop nodes i (suc totaluse) (ause + c))
  ]

  -- numusehash: the number of elements, and the new `*pnasize`
  unfoldable pub numusehash : Table → ℕ → Counting (ℕ × ℕ)
  unfolding hash_loop
  numusehash t nasize = do
    (total, ause) ← hash_loop t.node (sizenode t) 0 0
    pure (total, nasize + ause)

  -- the tests of luaH_set on the key of a new element
  unfoldable pub check_key : Key → Run num (Unit {0})
  check_key tnil = raise (codes "table index is nil")
  check_key (tnumber n) = if num.is_nan n then raise (codes "table index is NaN") else pure tt
  check_key _ = pure tt

  -- an insertion during a resize. The sizes leave room for it; that it should need a rehash of its own
  -- is not modelled.
  unfoldable pub reinsert : Slot → Key → Run num Slot
  reinsert (in_array i) key = pure (in_array i)
  reinsert (in_node i) key = pure (in_node i)
  reinsert nilobject key = do
    r ← place num key
    elim r [ none ↦ stucks | some i ↦ pure (in_node i) ]

  -- the first loop of resize: the values of the vanishing slice, from index `i` on
  unfoldable pub reinsert_slice : ℕ → List Value → Run num (Unit {0})
  unfolding reinsert store
  reinsert_slice i [] = pure tt
  reinsert_slice i (none ∷ vs) = reinsert_slice (suc i) vs
  reinsert_slice i (some v ∷ vs) = do
    p ← getnum num (pos (i + 1))
    slot ← reinsert p (tnumber (num.of_int (pos (i + 1))))
    store slot (some v)
    reinsert_slice (suc i) vs

  -- the second loop of resize, over the old nodes from the last to the first
  unfoldable pub reinsert_nodes : List Node → ℕ → Run num (Unit {0})
  unfolding reinsert store check_key
  reinsert_nodes nold zero = pure tt
  reinsert_nodes nold (suc i) = elim (get_elem? nold i) [
    | none ↦ faults
    | some old ↦ if is_nil old.i_val then reinsert_nodes nold i else (do
      p ← get num old.i_key
      modify (λ t. record t { flags = 0 })
      elim p [ nilobject ↦ check_key old.i_key | _ ↦ pure tt ]
      slot ← reinsert p old.i_key
      store slot old.i_val
      reinsert_nodes nold i)
  ]

  -- resize
  unfoldable pub resize : ℕ → ℕ → Run num (Unit {0})
  unfolding setnodevector reinsert_slice reinsert_nodes
  resize nasize nhsize = do
    t ← get_state
    put_state (if ltb (length t.array) nasize then setarrayvector t nasize else t)
    setnodevector nhsize
    modify (λ u. record u { array = take nasize u.array })
    reinsert_slice nasize (drop nasize t.array)
    reinsert_nodes t.node (sizenode t)

  -- luaH_resizearray
  unfoldable pub resizearray : ℕ → Run num (Unit {0})
  unfolding resize
  resizearray nasize = do t ← get_state; resize nasize (if t.dummy then 0 else sizenode t)

  -- what rehash counts and chooses: the sizes of the array part and of the hash part
  unfoldable pub new_sizes : Table → Key → Outcome (List ℕ) (ℕ × ℕ)
  unfolding numusearray numusehash countint computesizes
  new_sizes t ek =
      let counted : Counting (ℕ × ℕ) = (do
        inarray ← numusearray t
        (inhash, nasize) ← numusehash t inarray
        c ← countint ek
        pure (inarray + inhash + 1, nasize + c)) in
      elim (counted (replicate (maxbits + 1) 0)) [
        | ok ((totaluse, nasize), nums) ↦ elim (computesizes nums nasize) [
          | ok (n, na) ↦ ok (n, totaluse - na)
          | err e ↦ err e
          | fault ↦ fault
          | stuck ↦ stuck
        ]
        | err e ↦ err e
        | fault ↦ fault
        | stuck ↦ stuck
      ]

  -- rehash
  unfoldable pub rehash : Key → Run num (Unit {0})
  unfolding new_sizes resize
  rehash ek t = elim (new_sizes t ek) [
    | ok (nasize, nhsize) ↦ resize nasize nhsize t
    | err e ↦ err e
    | fault ↦ fault
    | stuck ↦ stuck
  ]

  -- luaH_set; the fuel counts the rehashes
  unfoldable pub set_key : ℕ → Key → Run num Slot
  unfolding check_key rehash
  set_key zero key = stucks
  set_key (suc fuel) key = do
    p ← get num key
    modify (λ t. record t { flags = 0 })
    elim p [
      | in_array i ↦ pure (in_array i)
      | in_node i ↦ pure (in_node i)
      | nilobject ↦ do
        check_key key
        r ← place num key
        elim r [ some i ↦ pure (in_node i) | none ↦ do rehash key; set_key fuel key ]
    ]
