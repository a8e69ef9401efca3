-- ===== src/Upvalues.antt =====
-- lfunc.cpp: the open upvalues of a thread. `V` is the type of values. An upvalue is named by an id; the
-- chain `openupval` is the list of those that are open, in its order.
pub mod Chain
pub mod Close
use cpplua.Prelude.{
  ℕ, zero, suc, ◌+◌, ◌-◌, Bool, true, false, Option, none, some, List, [], ◌∷◌, leb, ◌==◌,
  if◌then◌else◌,
}
use Prim.Native.Nat.{bit_and, bit_xor}

-- an open upvalue: `v` points to the stack at `level`
pub record UpVal : Type 0 where
  pub id : ℕ
  pub level : ℕ
  pub marked : ℕ

-- The links of `uvhead` go by ids, with 0 for `uvhead` itself. `closed` has the upvalues that keep their
-- own value, on the list of collectable objects.
pub record State (V : Type 0) : Type 0 where
  pub openupval : List UpVal
  pub closed : List (ℕ × V)
  pub next_link : ℕ → ℕ
  pub prev_link : ℕ → ℕ
  pub stack : ℕ → V
  pub currentwhite : ℕ
  pub fresh : ℕ

-- WHITEBITS
abbrev pub whitebits : ℕ
whitebits = 3

-- `marked & otherwhite(g) & WHITEBITS`
unfoldable pub isdead : ℕ → ℕ → Bool
isdead currentwhite marked =
    if bit_and (bit_and marked (bit_xor currentwhite whitebits)) whitebits == 0 then false else true

unfoldable pub changewhite : ℕ → ℕ
changewhite marked = bit_xor marked whitebits

unfoldable pub luac_white : ℕ → ℕ
luac_white currentwhite = bit_and currentwhite whitebits

-- an upvalue that is found is resurrected if it is dead
unfoldable pub resurrect : ℕ → UpVal → UpVal
unfolding isdead changewhite
resurrect white p = if isdead white p.marked then record p { marked = changewhite p.marked } else p

-- The walk of luaF_findupval: the chain after it, the upvalue, and whether it is new.
unfoldable pub walk : ℕ → ℕ → ℕ → List UpVal → List UpVal × ℕ × Bool
unfolding resurrect luac_white
walk white level id [] =
    (record { id = id; level = level; marked = luac_white white } ∷ [], id, true)
walk white level id (p ∷ ps) =
    let rest = walk white level id ps in
    if leb level p.level
    then (if p.level == level
        then (resurrect white p ∷ ps, p.id, false)
        else (p ∷ rest.0, rest.1, rest.2))
    else (record { id = id; level = level; marked = luac_white white } ∷ p ∷ ps, id, true)

abbrev pub put : (ℕ → ℕ) → ℕ → ℕ → ℕ → ℕ
put f k v i = if i == k then v else f i

module _ {V : Type 0} where
  -- into the double list, behind `uvhead`
  unfoldable pub link : ℕ → State V → State V
  link uv s =
      let next = put s.next_link uv (s.next_link 0) in
      let prev = put (put s.prev_link uv 0) (next uv) uv in
      record s { next_link = put next 0 uv; prev_link = prev }

  unfoldable pub unlinkupval : ℕ → State V → State V
  unlinkupval uv s =
      let prev = put s.prev_link (s.next_link uv) (s.prev_link uv) in
      record s { prev_link = prev; next_link = put s.next_link (prev uv) (s.next_link uv) }

  unfoldable pub findupval : ℕ → State V → State V × ℕ
  unfolding walk link
  findupval level s =
      let found = walk s.currentwhite level s.fresh s.openupval in
      let s' = record s { openupval = found.0 } in
      if found.2 then (link found.1 (record s' { fresh = s.fresh + 1 }), found.1) else (s', found.1)

  -- luaF_freeupval on an open upvalue
  unfoldable pub freeupval : UpVal → State V → State V
  unfolding unlinkupval
  freeupval uv s = unlinkupval uv.id s

  -- The body of the loop of luaF_close. The colours that luaC_linkupval sets are left to the collector.
  unfoldable pub close_one : UpVal → State V → State V
  unfolding isdead freeupval unlinkupval
  close_one uv s =
      if isdead s.currentwhite uv.marked
      then freeupval uv s
      else (let s' = unlinkupval uv.id s in
          record s' { closed = (uv.id, s'.stack uv.level) ∷ s'.closed })

  unfoldable pub close_from : ℕ → List UpVal → State V → State V
  unfolding close_one
  close_from level [] s = s
  close_from level (uv ∷ rest) s =
      let after = close_from level rest (close_one uv (record s { openupval = rest })) in
      if leb level uv.level then after else s

  unfoldable pub close : ℕ → State V → State V
  unfolding close_from
  close level s = close_from level s.openupval s
