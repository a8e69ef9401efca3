-- ===== src/Memory.antt =====
-- lmem.cpp and lmem.h: the allocation routines. `frealloc`, the allocator that the host gives, is a
-- parameter: it says for each request whether it succeeds. Blocks are known by their sizes.
pub mod Laws
use cpplua.Prelude.{
  ℕ, ◌+◌, ◌-◌, ◌*◌, ◌/◌, ◌%◌, ◌^◌, Bool, true, false, ◌&&◌, List, leb, ltb, if◌then◌else◌,
}
use mathlib.Core.Bool.{not}
use cpplua.Prelude.Limits.{max_sizet}
use cpplua.Prelude.Outcome.{Outcome, ok, err, Proc, ◌>>=◌, ◌>>◌, pure, raise, get_state, put_state}

pub data MemError : Type 0 where
  not_enough : MemError
  too_big : MemError
  overflow : List ℕ → MemError

-- the fields of global_State that allocation uses: `totalbytes` is a 64-bit unsigned number
pub record Allocator : Type 0 where
  pub frealloc : ℕ → Bool
  pub totalbytes : ℕ

-- luaM_realloc_
unfoldable pub realloc : ℕ → ℕ → Proc MemError Allocator (Unit {0})
realloc osize nsize = do
  g ← get_state
  if not (g.frealloc nsize) && ltb 0 nsize
      then raise not_enough
      else put_state
          (record g { totalbytes = ((g.totalbytes + 2 ^ 64 - osize) % 2 ^ 64 + nsize) % 2 ^ 64 })

-- macro luaM_reallocv: `on` and `n` elements of `e` bytes
unfoldable pub reallocv : ℕ → ℕ → ℕ → Proc MemError Allocator (Unit {0})
unfolding realloc
reallocv on n e =
    if leb ((n + 1) % 2 ^ 64) (max_sizet / e)
    then realloc (on * e % 2 ^ 64) (n * e % 2 ^ 64)
    else raise too_big

abbrev pub minsizearray : ℕ
minsizearray = 4

abbrev at_least_min : ℕ → ℕ
at_least_min n = if ltb n minsizearray then minsizearray else n

-- luaM_growaux_: the new number of elements
unfoldable pub growaux : ℕ → ℕ → ℕ → List ℕ → Proc MemError Allocator ℕ
unfolding reallocv
growaux size size_elems limit errormsg =
    if leb (limit / 2) size
    then if leb limit size
      then raise (overflow errormsg)
      else (reallocv size limit size_elems >> pure limit)
    else let newsize = at_least_min (size * 2) in (reallocv size newsize size_elems >> pure newsize)

-- luaM_growvector
unfoldable pub growvector : ℕ → ℕ → ℕ → ℕ → List ℕ → Proc MemError Allocator ℕ
unfolding growaux
growvector nelems size size_elems limit errormsg =
    if ltb size (nelems + 1) then growaux size size_elems limit errormsg else pure size
