-- ===== src/Tests/Formats.antt =====
-- lopcodes.h, lobject.cpp, lmem.cpp and lzio.cpp on concrete inputs.
use cpplua.Prelude.{
  ℕ, ◌-◌, ◌*◌, ◌^◌, ◌<◌, ◌≤◌, ◌≡◌, refl, true, false, none, some, List, [], ◌∷◌, arith, length, leb,
  take, drop,
}
use cpplua.Prelude.Int.{negsuc}
use cpplua.Prelude.Text.{codes}
use cpplua.Prelude.Outcome.{ok, fault}
use cpplua.Opcodes.{
  op_add, get_opcode, getarg_a, getarg_b, getarg_c, getarg_sbx, setarg_a, setarg_b, setarg_c,
  setarg_sbx, create_abc, is_k, index_k, rk_as_k, maxarg_b,
}
use cpplua.Opcodes.Fields.{getarg-create_abc, getarg_sbx-setarg_sbx, setarg_frame, rk_as_k_lem}
use cpplua.Object.{int2fb, fb2int, chunkid}
use cpplua.Object.Sizes.{fb2int-int2fb}
use cpplua.Object.Chunkid.{chunkid-fits}
use cpplua.Memory
use cpplua.Memory.{Allocator, realloc, growvector}
use cpplua.Memory.Laws.{growvector_room}
use cpplua.Zio.{Zio, read, zgetc}
use cpplua.Zio.Flat.{flat, IsValid, read_full, read_short, zgetc_at_end}

getarg-create_abc_example :
    let i = create_abc op_add 1 2 259 in
    (i < 2 ^ 32)
    × (get_opcode i ≡ some op_add)
    × (getarg_a i ≡ 1)
    × (getarg_b i ≡ 2)
    × (getarg_c i ≡ 259)
getarg-create_abc_example =
    getarg-create_abc op_add 1 2 259 (omega arith) (omega arith) (omega arith)

getarg_sbx-setarg_sbx_example :
    (getarg_sbx (setarg_sbx 22 (negsuc 9)) ≡ negsuc 9)
    × (get_opcode (setarg_sbx 22 (negsuc 9)) ≡ get_opcode 22)
    × (getarg_a (setarg_sbx 22 (negsuc 9)) ≡ getarg_a 22)
    × (setarg_sbx 22 (negsuc 9) < 2 ^ 32)
getarg_sbx-setarg_sbx_example =
    getarg_sbx-setarg_sbx 22 (negsuc 9) (omega arith) (omega arith) (omega arith)

setarg_frame_example :
    ((get_opcode (setarg_a 77 3) ≡ get_opcode 77)
      × (getarg_a (setarg_a 77 3) ≡ 3)
      × (getarg_b (setarg_a 77 3) ≡ getarg_b 77)
      × (getarg_c (setarg_a 77 3) ≡ getarg_c 77))
    × ((get_opcode (setarg_b 77 3) ≡ get_opcode 77)
        × (getarg_a (setarg_b 77 3) ≡ getarg_a 77)
        × (getarg_b (setarg_b 77 3) ≡ 3)
        × (getarg_c (setarg_b 77 3) ≡ getarg_c 77))
    × ((get_opcode (setarg_c 77 3) ≡ get_opcode 77)
        × (getarg_a (setarg_c 77 3) ≡ getarg_a 77)
        × (getarg_b (setarg_c 77 3) ≡ getarg_b 77)
        × (getarg_c (setarg_c 77 3) ≡ 3))
setarg_frame_example = setarg_frame 77 3

rk_as_k_lem_example :
    (rk_as_k 5 ≤ maxarg_b)
    × (is_k (rk_as_k 5) ≡ true)
    × (index_k (rk_as_k 5) ≡ 5)
    × (is_k 5 ≡ false)
    × (index_k 5 ≡ 5)
rk_as_k_lem_example = rk_as_k_lem 5 (omega arith)

fb2int-int2fb_example :
    (v : ℕ) × (int2fb 1000 ≡ some v)
    × (v < 2 ^ 8)
    × (1000 ≤ fb2int v)
    × (8 * (fb2int v - 1000) ≤ 1000)
fb2int-int2fb_example = fb2int-int2fb 1000 (omega arith)

chunkid-fits_example : length (chunkid (codes "print(1)") 60) < 60
chunkid-fits_example = chunkid-fits (codes "print(1)") 60 (omega arith) (omega arith)

-- an allocator that refuses more than a thousand bytes
abbrev thousand : Allocator
thousand = record { frealloc = λ n. leb n 1000; totalbytes = 40 }

grown :
    growvector 4 4 4 100 (codes "too many") thousand
    ≡ ok (8, record { frealloc = λ n. leb n 1000; totalbytes = 56 })
unfolding growvector Memory.growaux Memory.reallocv realloc
grown = refl

growvector_room_example : (4 < 8) × (4 ≤ 8) × (8 ≤ 100)
growvector_room_example =
    growvector_room 4 4 4 100 (codes "too many") thousand (omega arith) (omega arith) (omega arith)
      grown

-- a stream that the reader gives in three blocks, with two bytes of the first still to read
abbrev stream : Zio
stream = record { n = 2; p = 1 ∷ 2 ∷ []; reader = (3 ∷ []) ∷ (4 ∷ 5 ∷ []) ∷ [] }

abbrev over : Zio
over = record { n = 0; p = []; reader = [] ∷ [] }

read_full_example :
    (z : Zio) × IsValid z
    × (read {E = List ℕ} 4 stream ≡ ok ((take 4 (flat stream), 0), z))
    × (flat z ≡ drop 4 (flat stream))
unfolding flat
read_full_example = read_full (List ℕ) 4 stream (record { counted = refl }) (omega arith)

read_short_example :
    (z : Zio) × IsValid z
    × (read {E = List ℕ} 9 stream ≡ ok ((flat stream, 9 - length (flat stream)), z))
unfolding flat
read_short_example = read_short (List ℕ) 9 stream (record { counted = refl }) (omega arith)

zgetc_at_end_example :
    (z : Zio) × (zgetc {E = List ℕ} over ≡ ok (none, z)) × (zgetc {E = List ℕ} z ≡ fault)
unfolding flat
zgetc_at_end_example = zgetc_at_end (List ℕ) over (record { counted = refl }) (omega arith) refl
