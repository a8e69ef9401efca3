-- ===== src/Zio.antt =====
-- lzio.cpp and lzio.h: a buffered byte stream over a reader that the host gives. The reader is the
-- list of the blocks that its calls return from now on; an empty block, or no block, ends the stream.
pub mod Flat
use cpplua.Prelude.{
  ℕ, zero, suc, ◌+◌, ◌-◌, ◌%◌, ◌^◌, Bool, true, false, Option, none, some, List, [], ◌∷◌, ◌++◌, leb,
  ltb, ◌==◌, if◌then◌else◌, length, take, drop,
}
use cpplua.Prelude.Outcome.{
  Outcome, ok, err, fault, stuck, Proc, ◌>>=◌, ◌>>◌, pure, faults, stucks, get_state, put_state,
}

abbrev pub min_buffer : ℕ
min_buffer = 32

-- `n` bytes are unread, from `p` on
pub record Zio : Type 0 where
  pub n : ℕ
  pub p : List ℕ
  pub reader : List (List ℕ)

-- luaZ_init
unfoldable pub init : List (List ℕ) → Zio
init reader = record { n = 0; p = []; reader = reader }

-- luaZ_fill; `none` is EOZ
unfoldable pub fill : Zio → Option ℕ × Zio
fill z = elim z.reader [
  | [] ↦ (none, z)
  | buff ∷ more ↦ elim buff [
    | [] ↦ (none, record z { reader = more })
    | c ∷ rest ↦ (some c, record { n = length rest; p = rest; reader = more })
  ]
]

-- `*z->p++`: the byte at `p`, and `p` moved behind it
peek :
    {E : Type 0} → List ℕ → (ℕ → List ℕ → Outcome E (Option ℕ × Zio)) → Outcome E (Option ℕ × Zio)
peek [] k = fault
peek (c ∷ rest) k = k c rest

-- macro zgetc: `n` is decremented before the test is known, and so wraps at the end of a block
unfoldable pub zgetc : {E : Type 0} → Proc E Zio (Option ℕ)
unfolding fill peek
zgetc z =
    let n = (z.n + 2 ^ 64 - 1) % 2 ^ 64 in
    if ltb 0 z.n
    then peek z.p (λ c rest. ok (some c, record z { n = n; p = rest }))
    else ok (fill (record z { n = n }))

-- `z->n++; z->p--` after a fill that read a byte
put_back : Option ℕ × Zio → Option ℕ × Zio
put_back (none, z) = (none, z)
put_back (some c, z) = (some c, record z { n = z.n + 1; p = c ∷ z.p })

-- luaZ_lookahead
unfoldable pub lookahead : {E : Type 0} → Proc E Zio (Option ℕ)
unfolding fill peek put_back
lookahead z = if z.n == 0 then ok (put_back (fill z)) else peek z.p (λ c rest. ok (some c, z))

-- `memcpy(b, p, m)` and `p += m`
copy : {E : Type 0} → ℕ → Proc E Zio (List ℕ)
copy m z =
    if leb m (length z.p) then ok (take m z.p, record z { n = z.n - m; p = drop m z.p }) else fault

-- the loop of luaZ_read: the bytes that were copied, and the number that is missing
read_loop : {E : Type 0} → ℕ → ℕ → Proc E Zio (List ℕ × ℕ)
unfolding lookahead copy
read_loop zero n = if n == 0 then pure ([], 0) else stucks
read_loop (suc fuel) n = elim (n == 0) [
  | true ↦ pure ([], 0)
  | false ↦ do
    c ← lookahead
    elim c [
      | none ↦ pure ([], n)
      | some _ ↦ do
        z ← get_state
        let m = if leb n z.n then n else z.n
        b ← copy m
        (rest, missing) ← read_loop fuel (n - m)
        pure (b ++ rest, missing)
    ]
]

-- luaZ_read: every round copies a byte at least, so `n` rounds are enough
unfoldable pub read : {E : Type 0} → ℕ → Proc E Zio (List ℕ × ℕ)
unfolding read_loop
read n = read_loop n n

-- luaZ_openspace: the size of the buffer afterwards
unfoldable pub openspace : ℕ → ℕ → ℕ
openspace buffsize n =
    if ltb buffsize n then if ltb n min_buffer then min_buffer else n else buffsize
