-- ===== src/Memory/Laws.antt =====
-- Growth of vectors: room for one more element, within the limit.
use cpplua.Prelude.{ℕ, ◌+◌, ◌-◌, ◌%◌, ◌^◌, ◌≤◌, ◌<◌, ◌≡◌, refl, true, List, arith, ◌⊎◌, inl, inr}
use cpplua.Prelude.Outcome.{ok}
use cpplua.Memory.{Allocator, realloc, growvector}

-- With at most `size` elements in use, a vector that luaM_growvector grew, or left alone, without an
-- error has room for one more, is not shorter than before and keeps to the limit, where the limit is
-- at least 4.
pub growvector_room :
    (nelems size e limit : ℕ) (msg : List ℕ) (g : Allocator) {n : ℕ} {g' : Allocator}
    → nelems ≤ size
    → size ≤ limit
    → 4 ≤ limit
    → growvector nelems size e limit msg g ≡ ok (n, g')
    → (nelems < n) × (size ≤ n) × (n ≤ limit)
unfolding growvector
growvector_room nelems size e limit msg g hn hs hl h = ground arith

-- A reallocation to size 0, or one that the allocator grants, of a block that was counted and to a
-- size that the counter can hold, succeeds, keeps the allocator, and exchanges the block's old size
-- for the new one in `totalbytes`.
pub realloc_accounts :
    (osize nsize : ℕ) (g : Allocator)
    → osize ≤ g.totalbytes
    → g.totalbytes + nsize < 2 ^ 64
    → (nsize ≡ 0) ⊎ (g.frealloc nsize ≡ true)
    → (g' : Allocator) × (realloc osize nsize g ≡ ok (tt, g'))
      × (g'.frealloc ≡ g.frealloc)
      × (g'.totalbytes + osize ≡ g.totalbytes + nsize)
unfolding realloc
realloc_accounts osize nsize g h k granted =
    let g' : Allocator = record g {
      totalbytes = ((g.totalbytes + 2 ^ 64 - osize) % 2 ^ 64 + nsize) % 2 ^ 64;
    } in
    elim granted [
      | inl z ↦ (g', ground arith, refl, omega arith)
      | inr allowed ↦ (g', ground arith, refl, omega arith)
    ]
