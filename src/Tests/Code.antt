-- ===== src/Tests/Code.antt =====
-- luaG_checkcode on concrete functions.
use cpplua.Prelude.{
  ℕ, ◌+◌, ◌<◌, ◌≡◌, refl, true, Option, none, some, List, [], ◌∷◌, arith, get_elem?, ◌≢◌,
}
use cpplua.Prelude.Int
use cpplua.Prelude.Int.{ℤ, pos, negsuc, ◌+ℤ◌}
use cpplua.Prelude.Outcome.{ok, fault, stuck}
use cpplua.Opcodes
use cpplua.Opcodes.{
  OpCode, abc, asbx, get_op_mode, test_t_mode, get_opcode, getarg_a, getarg_b, getarg_c, getarg_sbx,
  get_b_mode, get_c_mode, op_jmp, op_move, op_eq, no_reg,
}
use cpplua.Proto.{number, header, Proto, proto, none_left}
use cpplua.CheckCode
use cpplua.CheckCode.{checkcode, symbexec, sizecode}
use cpplua.CheckCode.Starts.{Starts, first, next, width}
use cpplua.CheckCode.Accepted.{checked_jumps, checked_tests}
use cpplua.CheckCode.Ends.{symbexec_safe}

-- a function of two registers with the given source and code
abbrev pub two_registers : Option (List ℕ) → List ℕ → Proto
two_registers source code =
    proto
      (record {
        k = number 7 ∷ [];
        code = code;
        lineinfo = [];
        locvars = [];
        upvalues = [];
        source = source;
        linedefined = 0;
        lastlinedefined = 0;
        nups = 0;
        numparams = 0;
        is_vararg = 0;
        maxstacksize = 2;
      })
      none_left

-- MOVE 1 0; EQ 0 0 1; JMP -3; RETURN 0 1
abbrev pub looping_of : Option (List ℕ) → Proto
looping_of source = two_registers source (0x00000040 ∷ 0x00004017 ∷ 0x7fff0016 ∷ 0x0080001e ∷ [])

abbrev pub looping : Proto
looping = looping_of none

pub looping_accepted : (source : Option (List ℕ)) → checkcode (looping_of source) ≡ ok true
unfolding checkcode symbexec CheckCode.precheck CheckCode.last_code CheckCode.symb_loop
    CheckCode.check_instr CheckCode.check_op CheckCode.check_skip CheckCode.check_operands
    CheckCode.check_arg_mode CheckCode.check_dest CheckCode.check_target CheckCode.moves
    CheckCode.follow CheckCode.last_change CheckCode.writes Opcodes.opmodes Opcodes.opmode
    Opcodes.get_op_mode Opcodes.get_b_mode Opcodes.get_c_mode Opcodes.test_t_mode
    Opcodes.test_a_mode get_opcode Opcodes.get_opcode_num Opcodes.opcode_of Opcodes.op_num getarg_a
    getarg_b getarg_c getarg_sbx Opcodes.getarg_bx Opcodes.is_k Opcodes.index_k ◌+ℤ◌ Int.◌-ℤ◌
looping_accepted source = refl

-- where its test, its jump and its last instruction start
test_starts : Starts looping 1
unfolding width get_opcode Opcodes.get_opcode_num Opcodes.opcode_of Opcodes.op_num getarg_c
test_starts = next first refl refl

jump_starts : Starts looping 2
unfolding width get_opcode Opcodes.get_opcode_num Opcodes.opcode_of Opcodes.op_num getarg_c
jump_starts = next test_starts refl refl

decodes_eq : get_opcode 0x00004017 ≡ some op_eq
unfolding get_opcode Opcodes.get_opcode_num Opcodes.opcode_of Opcodes.op_num
decodes_eq = refl

decodes_jmp : get_opcode 0x7fff0016 ≡ some op_jmp
unfolding get_opcode Opcodes.get_opcode_num Opcodes.opcode_of Opcodes.op_num
decodes_jmp = refl

eq_is_abc : get_op_mode op_eq ≡ abc
unfolding get_op_mode Opcodes.opmodes Opcodes.opmode
eq_is_abc = refl

jmp_is_asbx : get_op_mode op_jmp ≡ asbx
unfolding get_op_mode Opcodes.opmodes Opcodes.opmode
jmp_is_asbx = refl

eq_is_test : test_t_mode op_eq ≡ true
unfolding test_t_mode Opcodes.opmodes Opcodes.opmode
eq_is_test = refl

checked_jumps_example :
    (d : ℕ) × (pos (2 + 1) +ℤ getarg_sbx 0x7fff0016 ≡ pos d)
    × (d < sizecode looping)
    × Starts looping d
checked_jumps_example =
    checked_jumps looping (looping_accepted none) jump_starts refl op_jmp decodes_jmp jmp_is_asbx

checked_tests_example :
    (1 + 2 < sizecode looping)
    × ((j : ℕ) × (get_elem? (header looping).code (1 + 1) ≡ some j) × (get_opcode j ≡ some op_jmp))
checked_tests_example =
    checked_tests looping (looping_accepted none) test_starts refl op_eq decodes_eq eq_is_test

symbexec_safe_example : (symbexec looping 3 1 ≢ fault) × (symbexec looping 3 1 ≢ stuck)
symbexec_safe_example = symbexec_safe looping 3 1 (omega arith) (omega arith)
