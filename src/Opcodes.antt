-- ===== src/Opcodes.antt =====
-- lopcodes.h and lopcodes.cpp: the opcodes with their property table, and the 32-bit instruction
-- words. `x >> k` is `x / 2 ^ k`, and `x & MASK1(n, 0)` is `x % 2 ^ n`.
pub mod Fields
use Prim.Native.Nat.{bit_or}
use cpplua.Prelude.{
  ℕ, ◌+◌, ◌-◌, ◌*◌, ◌/◌, ◌%◌, ◌^◌, Bool, true, false, Option, none, some, List, [], ◌∷◌, ◌==◌, ltb,
  get_elem?, if◌then◌else◌,
}
use cpplua.Prelude.Int.{ℤ, pos, negsuc, ◌-ℤ◌, ◌+ℤ◌, pos_part, neg_part}

-- enum OpMode
pub data OpMode : Type 0 where
  abc abx asbx : OpMode

-- enum OpArgMask
pub data OpArgMask : Type 0 where
  arg_n arg_u arg_r arg_k : OpArgMask

-- enum OpCode
pub data OpCode : Type 0 where
  op_move op_loadk op_loadbool op_loadnil op_getupval op_getglobal op_gettable op_setglobal : OpCode
  op_setupval op_settable op_newtable op_self op_add op_sub op_mul op_div op_mod op_pow : OpCode
  op_unm op_not op_len op_concat op_jmp op_eq op_lt op_le op_test op_testset op_call : OpCode
  op_tailcall op_return op_forloop op_forprep op_tforloop op_setlist op_close op_closure : OpCode
  op_vararg : OpCode

-- the number of an opcode
unfoldable pub op_num : OpCode → ℕ
op_num op_move = 0
op_num op_loadk = 1
op_num op_loadbool = 2
op_num op_loadnil = 3
op_num op_getupval = 4
op_num op_getglobal = 5
op_num op_gettable = 6
op_num op_setglobal = 7
op_num op_setupval = 8
op_num op_settable = 9
op_num op_newtable = 10
op_num op_self = 11
op_num op_add = 12
op_num op_sub = 13
op_num op_mul = 14
op_num op_div = 15
op_num op_mod = 16
op_num op_pow = 17
op_num op_unm = 18
op_num op_not = 19
op_num op_len = 20
op_num op_concat = 21
op_num op_jmp = 22
op_num op_eq = 23
op_num op_lt = 24
op_num op_le = 25
op_num op_test = 26
op_num op_testset = 27
op_num op_call = 28
op_num op_tailcall = 29
op_num op_return = 30
op_num op_forloop = 31
op_num op_forprep = 32
op_num op_tforloop = 33
op_num op_setlist = 34
op_num op_close = 35
op_num op_closure = 36
op_num op_vararg = 37

abbrev pub num_opcodes : ℕ
num_opcodes = 38

abbrev pub opcodes : List OpCode
opcodes =
    op_move ∷ op_loadk ∷ op_loadbool ∷ op_loadnil ∷ op_getupval ∷ op_getglobal ∷ op_gettable
    ∷ op_setglobal ∷ op_setupval ∷ op_settable ∷ op_newtable ∷ op_self ∷ op_add ∷ op_sub ∷ op_mul
    ∷ op_div ∷ op_mod ∷ op_pow ∷ op_unm ∷ op_not ∷ op_len ∷ op_concat ∷ op_jmp ∷ op_eq ∷ op_lt
    ∷ op_le ∷ op_test ∷ op_testset ∷ op_call ∷ op_tailcall ∷ op_return ∷ op_forloop ∷ op_forprep
    ∷ op_tforloop ∷ op_setlist ∷ op_close ∷ op_closure ∷ op_vararg ∷ []

-- `cast(OpCode, n)`: `none` for a number that names no opcode
unfoldable pub opcode_of : ℕ → Option OpCode
opcode_of n = get_elem? opcodes n

abbrev mask_num : OpArgMask → ℕ
mask_num arg_n = 0
mask_num arg_u = 1
mask_num arg_r = 2
mask_num arg_k = 3

abbrev mode_num : OpMode → ℕ
mode_num abc = 0
mode_num abx = 1
mode_num asbx = 2

-- macro opmode: one byte of the property table
unfoldable pub opmode : ℕ → ℕ → OpArgMask → OpArgMask → OpMode → ℕ
opmode t a b c m = t * 2 ^ 7 + a * 2 ^ 6 + mask_num b * 2 ^ 4 + mask_num c * 2 ^ 2 + mode_num m

-- luaP_opmodes
unfoldable pub opmodes : OpCode → ℕ
unfolding opmode
opmodes op_move = opmode 0 1 arg_r arg_n abc
opmodes op_loadk = opmode 0 1 arg_k arg_n abx
opmodes op_loadbool = opmode 0 1 arg_u arg_u abc
opmodes op_loadnil = opmode 0 1 arg_r arg_n abc
opmodes op_getupval = opmode 0 1 arg_u arg_n abc
opmodes op_getglobal = opmode 0 1 arg_k arg_n abx
opmodes op_gettable = opmode 0 1 arg_r arg_k abc
opmodes op_setglobal = opmode 0 0 arg_k arg_n abx
opmodes op_setupval = opmode 0 0 arg_u arg_n abc
opmodes op_settable = opmode 0 0 arg_k arg_k abc
opmodes op_newtable = opmode 0 1 arg_u arg_u abc
opmodes op_self = opmode 0 1 arg_r arg_k abc
opmodes op_add = opmode 0 1 arg_k arg_k abc
opmodes op_sub = opmode 0 1 arg_k arg_k abc
opmodes op_mul = opmode 0 1 arg_k arg_k abc
opmodes op_div = opmode 0 1 arg_k arg_k abc
opmodes op_mod = opmode 0 1 arg_k arg_k abc
opmodes op_pow = opmode 0 1 arg_k arg_k abc
opmodes op_unm = opmode 0 1 arg_r arg_n abc
opmodes op_not = opmode 0 1 arg_r arg_n abc
opmodes op_len = opmode 0 1 arg_r arg_n abc
opmodes op_concat = opmode 0 1 arg_r arg_r abc
opmodes op_jmp = opmode 0 0 arg_r arg_n asbx
opmodes op_eq = opmode 1 0 arg_k arg_k abc
opmodes op_lt = opmode 1 0 arg_k arg_k abc
opmodes op_le = opmode 1 0 arg_k arg_k abc
opmodes op_test = opmode 1 1 arg_r arg_u abc
opmodes op_testset = opmode 1 1 arg_r arg_u abc
opmodes op_call = opmode 0 1 arg_u arg_u abc
opmodes op_tailcall = opmode 0 1 arg_u arg_u abc
opmodes op_return = opmode 0 0 arg_u arg_n abc
opmodes op_forloop = opmode 0 1 arg_r arg_n asbx
opmodes op_forprep = opmode 0 1 arg_r arg_n asbx
opmodes op_tforloop = opmode 1 0 arg_n arg_u abc
opmodes op_setlist = opmode 0 0 arg_u arg_u abc
opmodes op_close = opmode 0 0 arg_n arg_n abc
opmodes op_closure = opmode 0 1 arg_u arg_n abx
opmodes op_vararg = opmode 0 1 arg_u arg_n abc

abbrev mode_of : ℕ → OpMode
mode_of n = if n == 0 then abc else if n == 1 then abx else asbx

abbrev mask_of : ℕ → OpArgMask
mask_of n = if n == 0 then arg_n else if n == 1 then arg_u else if n == 2 then arg_r else arg_k

unfoldable pub get_op_mode : OpCode → OpMode
unfolding opmodes
get_op_mode m = mode_of (opmodes m % 4)

unfoldable pub get_b_mode : OpCode → OpArgMask
unfolding opmodes
get_b_mode m = mask_of (opmodes m / 2 ^ 4 % 4)

unfoldable pub get_c_mode : OpCode → OpArgMask
unfolding opmodes
get_c_mode m = mask_of (opmodes m / 2 ^ 2 % 4)

unfoldable pub test_a_mode : OpCode → Bool
unfolding opmodes
test_a_mode m = opmodes m / 2 ^ 6 % 2 == 1

unfoldable pub test_t_mode : OpCode → Bool
unfolding opmodes
test_t_mode m = opmodes m / 2 ^ 7 % 2 == 1

abbrev pub maxarg_bx : ℕ
maxarg_bx = 2 ^ 18 - 1

abbrev pub maxarg_sbx : ℕ
maxarg_sbx = maxarg_bx / 2

abbrev pub maxarg_a : ℕ
maxarg_a = 2 ^ 8 - 1

abbrev pub maxarg_b : ℕ
maxarg_b = 2 ^ 9 - 1

abbrev pub maxarg_c : ℕ
maxarg_c = 2 ^ 9 - 1

-- `(i >> at) & MASK1(size, 0)`
abbrev get_field : ℕ → ℕ → ℕ → ℕ
get_field size at i = i / 2 ^ at % 2 ^ size

-- `(i & MASK0(size, at)) | ((u << at) & MASK1(size, at))`
abbrev set_field : ℕ → ℕ → ℕ → ℕ → ℕ
set_field size at i u = i / 2 ^ (at + size) * 2 ^ (at + size) + u % 2 ^ size * 2 ^ at + i % 2 ^ at

unfoldable pub get_opcode_num : ℕ → ℕ
get_opcode_num i = get_field 6 0 i

unfoldable pub get_opcode : ℕ → Option OpCode
unfolding get_opcode_num
get_opcode i = opcode_of (get_opcode_num i)

unfoldable pub getarg_a : ℕ → ℕ
getarg_a i = get_field 8 6 i

unfoldable pub setarg_a : ℕ → ℕ → ℕ
setarg_a i u = set_field 8 6 i u

unfoldable pub getarg_b : ℕ → ℕ
getarg_b i = get_field 9 23 i

unfoldable pub setarg_b : ℕ → ℕ → ℕ
setarg_b i u = set_field 9 23 i u

unfoldable pub getarg_c : ℕ → ℕ
getarg_c i = get_field 9 14 i

unfoldable pub setarg_c : ℕ → ℕ → ℕ
setarg_c i u = set_field 9 14 i u

unfoldable pub getarg_bx : ℕ → ℕ
getarg_bx i = get_field 18 14 i

unfoldable pub setarg_bx : ℕ → ℕ → ℕ
setarg_bx i u = set_field 18 14 i u

unfoldable pub getarg_sbx : ℕ → ℤ
unfolding getarg_bx ◌-ℤ◌
getarg_sbx i = pos (getarg_bx i) -ℤ pos maxarg_sbx

-- `cast(unsigned int, n)` of a signed number
abbrev pub to_unsigned : ℤ → ℕ
to_unsigned (pos n) = n % 2 ^ 32
to_unsigned (negsuc n) = 2 ^ 32 - 1 - n % 2 ^ 32

unfoldable pub setarg_sbx : ℕ → ℤ → ℕ
unfolding setarg_bx ◌+ℤ◌
setarg_sbx i b = setarg_bx i (to_unsigned (b +ℤ pos maxarg_sbx))

-- `cast(Instruction, x) << k`
abbrev shl : ℕ → ℕ → ℕ
shl x k = x * 2 ^ k % 2 ^ 32

unfoldable pub create_abc : OpCode → ℕ → ℕ → ℕ → ℕ
unfolding op_num
create_abc o a b c = bit_or (bit_or (bit_or (shl (op_num o) 0) (shl a 6)) (shl b 23)) (shl c 14)

unfoldable pub create_abx : OpCode → ℕ → ℕ → ℕ
unfolding op_num
create_abx o a bc = bit_or (bit_or (shl (op_num o) 0) (shl a 6)) (shl bc 14)

abbrev pub bitrk : ℕ
bitrk = 2 ^ 8

-- macro ISK
unfoldable pub is_k : ℕ → Bool
is_k x = x / 2 ^ 8 % 2 == 1

-- macro INDEXK: clears the bit
unfoldable pub index_k : ℕ → ℕ
index_k r = r / 2 ^ 9 * 2 ^ 9 + r % 2 ^ 8

abbrev pub maxindex_rk : ℕ
maxindex_rk = bitrk - 1

-- macro RKASK: sets the bit
unfoldable pub rk_as_k : ℕ → ℕ
rk_as_k x = x / 2 ^ 9 * 2 ^ 9 + 2 ^ 8 + x % 2 ^ 8

abbrev pub no_reg : ℕ
no_reg = maxarg_a

abbrev pub lfields_per_flush : ℕ
lfields_per_flush = 50
