-- ===== src/Opcodes/Fields.antt =====
-- The fields of an instruction word: written ones read back, the others stay.
use Prim.Native.Nat.{bit_or}
use cpplua.Prelude.{ℕ, ◌+◌, ◌*◌, ◌/◌, ◌%◌, ◌^◌, ◌<◌, ◌≤◌, ◌≡◌, refl, ap, arith, some, true, false}
use cpplua.Prelude.Int.{ℤ, pos, negsuc, ◌≤ℤ◌}
use cpplua.Prelude.Bits.{bit_or-disjoint, bit_or-split, bit_or_comm}
use cpplua.Opcodes.{
  OpCode, op_num, opcode_of, create_abc, create_abx, get_opcode, getarg_a, getarg_b, getarg_c,
  getarg_bx, getarg_sbx, setarg_a, setarg_b, setarg_c, setarg_sbx, op_move, maxindex_rk, maxarg_b,
  rk_as_k, is_k, index_k,
}

op_num-lt : (o : OpCode) → op_num o < 38
unfolding op_num
op_num-lt op_move = omega arith
op_num-lt _ = omega arith

pub opcode_of-op_num : (o : OpCode) → opcode_of (op_num o) ≡ some o
unfolding op_num opcode_of
opcode_of-op_num op_move = refl
opcode_of-op_num _ = refl

or_fields :
    (o a b c : ℕ)
    → o < 2 ^ 6
    → a < 2 ^ 8
    → c < 2 ^ 9
    → bit_or (bit_or (bit_or o (a * 2 ^ 6)) (b * 2 ^ 23)) (c * 2 ^ 14)
      ≡ o + a * 2 ^ 6 + c * 2 ^ 14 + b * 2 ^ 23
or_fields o a b c ho ha hc =
    let e1 = bit_or-disjoint 6 a o ho in
    let e2 = bit_or-disjoint 23 b (o + a * 2 ^ 6) (omega arith) in
    let e3 : o + a * 2 ^ 6 + b * 2 ^ 23 ≡ o + a * 2 ^ 6 + b * 2 ^ 9 * 2 ^ 14 = omega arith in
    let e4 = bit_or-split 14 (o + a * 2 ^ 6) (b * 2 ^ 9) c (omega arith) in
    let e5 = bit_or-disjoint 9 b c hc in
    rw (e1, e2, e3, e4, bit_or_comm (b * 2 ^ 9) c, e5) (omega arith)

-- The OR of the shifted fields is their sum: no two overlap.
pub create_abc-eq :
    (o : OpCode) (a b c : ℕ)
    → a < 2 ^ 8
    → b < 2 ^ 9
    → c < 2 ^ 9
    → create_abc o a b c ≡ op_num o + a * 2 ^ 6 + c * 2 ^ 14 + b * 2 ^ 23
unfolding create_abc
create_abc-eq o a b c ha hb hc =
    let ho = op_num-lt o in
    let e0 : op_num o * 2 ^ 0 % 2 ^ 32 ≡ op_num o = omega arith in
    let e1 : a * 2 ^ 6 % 2 ^ 32 ≡ a * 2 ^ 6 = omega arith in
    let e2 : b * 2 ^ 23 % 2 ^ 32 ≡ b * 2 ^ 23 = omega arith in
    let e3 : c * 2 ^ 14 % 2 ^ 32 ≡ c * 2 ^ 14 = omega arith in
    rw (e0, e1, e2, e3) (or_fields (op_num o) a b c (omega arith) ha hc)

pub create_abx-eq :
    (o : OpCode) (a bx : ℕ)
    → a < 2 ^ 8
    → bx < 2 ^ 18
    → create_abx o a bx ≡ op_num o + a * 2 ^ 6 + bx * 2 ^ 14
unfolding create_abx
create_abx-eq o a bx ha hb =
    let ho = op_num-lt o in
    let e0 : op_num o * 2 ^ 0 % 2 ^ 32 ≡ op_num o = omega arith in
    let e1 : a * 2 ^ 6 % 2 ^ 32 ≡ a * 2 ^ 6 = omega arith in
    let e2 : bx * 2 ^ 14 % 2 ^ 32 ≡ bx * 2 ^ 14 = omega arith in
    rw (e0, e1, e2, bit_or-disjoint 6 a (op_num o) (omega arith))
      (bit_or-disjoint 14 bx (op_num o + a * 2 ^ 6) (omega arith))

-- An instruction in the ABC format, with every argument within its limit, fits 32 bits, and its
-- opcode and its arguments read back.
pub getarg-create_abc :
    (o : OpCode) (a b c : ℕ)
    → a < 2 ^ 8
    → b < 2 ^ 9
    → c < 2 ^ 9
    → let i = create_abc o a b c in
      (i < 2 ^ 32)
      × (get_opcode i ≡ some o)
      × (getarg_a i ≡ a)
      × (getarg_b i ≡ b)
      × (getarg_c i ≡ c)
unfolding get_opcode getarg_a getarg_b getarg_c
getarg-create_abc o a b c ha hb hc =
    let ho = op_num-lt o in
    let e : (op_num o + a * 2 ^ 6 + c * 2 ^ 14 + b * 2 ^ 23) / 2 ^ 0 % 2 ^ 6 ≡ op_num o =
      omega arith in
    rw (create_abc-eq o a b c ha hb hc)
      (omega arith, rw e (opcode_of-op_num o), omega arith, omega arith, omega arith)

-- An instruction in the ABx format, with every argument within its limit, fits 32 bits, and its
-- opcode and its arguments read back.
pub getarg-create_abx :
    (o : OpCode) (a bx : ℕ)
    → a < 2 ^ 8
    → bx < 2 ^ 18
    → let i = create_abx o a bx in
      (i < 2 ^ 32) × (get_opcode i ≡ some o) × (getarg_a i ≡ a) × (getarg_bx i ≡ bx)
unfolding get_opcode getarg_a getarg_bx
getarg-create_abx o a bx ha hb =
    let ho = op_num-lt o in
    let e : (op_num o + a * 2 ^ 6 + bx * 2 ^ 14) / 2 ^ 0 % 2 ^ 6 ≡ op_num o = omega arith in
    rw (create_abx-eq o a bx ha hb)
      (omega arith, rw e (opcode_of-op_num o), omega arith, omega arith)

-- Writing a signed offset between -131071 and 131072 into an instruction word and reading it gives
-- it back, and leaves the opcode and argument A as they were; the word still fits 32 bits.
pub getarg_sbx-setarg_sbx :
    (i : ℕ) (s : ℤ)
    → i < 2 ^ 32
    → negsuc 131070 ≤ℤ s
    → s ≤ℤ pos 131072
    → (getarg_sbx (setarg_sbx i s) ≡ s)
      × (get_opcode (setarg_sbx i s) ≡ get_opcode i)
      × (getarg_a (setarg_sbx i s) ≡ getarg_a i)
      × (setarg_sbx i s < 2 ^ 32)
unfolding getarg_sbx setarg_sbx get_opcode getarg_a
getarg_sbx-setarg_sbx i (pos n) hi lo up =
    (ground arith, ap opcode_of (ground arith), ground arith, ground arith)
getarg_sbx-setarg_sbx i (negsuc n) hi lo up =
    (ground arith, ap opcode_of (ground arith), ground arith, ground arith)

-- SETARG_A, SETARG_B and SETARG_C on any word and any value: the field then holds the value's low
-- bits, and the opcode and the other two arguments are what they were.
pub setarg_frame :
    (i u : ℕ)
    → ((get_opcode (setarg_a i u) ≡ get_opcode i)
        × (getarg_a (setarg_a i u) ≡ u % 2 ^ 8)
        × (getarg_b (setarg_a i u) ≡ getarg_b i)
        × (getarg_c (setarg_a i u) ≡ getarg_c i))
      × ((get_opcode (setarg_b i u) ≡ get_opcode i)
          × (getarg_a (setarg_b i u) ≡ getarg_a i)
          × (getarg_b (setarg_b i u) ≡ u % 2 ^ 9)
          × (getarg_c (setarg_b i u) ≡ getarg_c i))
      × ((get_opcode (setarg_c i u) ≡ get_opcode i)
          × (getarg_a (setarg_c i u) ≡ getarg_a i)
          × (getarg_b (setarg_c i u) ≡ getarg_b i)
          × (getarg_c (setarg_c i u) ≡ u % 2 ^ 9))
unfolding get_opcode getarg_a getarg_b getarg_c setarg_a setarg_b setarg_c
setarg_frame i u = (
  (ap opcode_of (omega arith), omega arith, omega arith, omega arith),
  (ap opcode_of (omega arith), omega arith, omega arith, omega arith),
  (ap opcode_of (omega arith), omega arith, omega arith, omega arith),
)

-- A constant index up to 255, coded as an RK operand, fits the 9 bits of an argument, is told from a
-- register by ISK, and INDEXK gives it back; a register below 256 is no constant, and INDEXK leaves
-- it as it is.
pub rk_as_k_lem :
    (x : ℕ)
    → x ≤ maxindex_rk
    → (rk_as_k x ≤ maxarg_b)
      × (is_k (rk_as_k x) ≡ true)
      × (index_k (rk_as_k x) ≡ x)
      × (is_k x ≡ false)
      × (index_k x ≡ x)
unfolding rk_as_k is_k index_k
rk_as_k_lem x h = (omega arith, ground arith, omega arith, ground arith, omega arith)
