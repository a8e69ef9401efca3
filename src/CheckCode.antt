-- ===== src/CheckCode.antt =====
-- ldebug.cpp: the checker of byte code. `check(x)` that fails returns 0 from the C function; here
-- it is the error `tt`. A read outside an array is a fault.
pub mod Starts
pub mod Operands
pub mod Accepted
pub mod Ends
use cpplua.Prelude.{
  ℕ, zero, suc, ◌+◌, ◌-◌, ◌/◌, ◌%◌, Bool, true, false, ◌&&◌, ◌||◌, Option, none, some, List, leb,
  ltb, ◌==◌, if◌then◌else◌, length, get_elem?, ◌≡◌, refl,
}
use mathlib.Core.Bool.{not}
use cpplua.Prelude.Int.{ℤ, pos, negsuc, ◌+ℤ◌}
use cpplua.Prelude.Outcome.{Outcome, ok, err, fault, stuck}
use cpplua.Opcodes.{
  OpCode, OpMode, abc, abx, asbx, OpArgMask, arg_n, arg_u, arg_r, arg_k, op_num, get_opcode,
  get_op_mode, get_b_mode, get_c_mode, test_a_mode, test_t_mode, getarg_a, getarg_b, getarg_c,
  getarg_bx, getarg_sbx, is_k, index_k, no_reg,
}
use cpplua.Opcodes.{
  op_loadbool, op_loadnil, op_getupval, op_setupval, op_getglobal, op_setglobal, op_self, op_concat,
  op_tforloop, op_forloop, op_forprep, op_jmp, op_call, op_tailcall, op_return, op_setlist,
  op_closure, op_vararg, op_move,
}
use cpplua.Proto.{Constant, string, Header, Proto, Protos, header, nested, sizep, proto_at}

abbrev pub Check : Type 0 → Type 0
Check A = Outcome (Unit {0}) A

infixl 5 ◌>>=◌ ◌>>◌
abbrev pub ◌>>=◌ : {A B : Type 0} → Check A → (A → Check B) → Check B
m >>= f = elim m [ ok a ↦ f a | err e ↦ err e | fault ↦ fault | stuck ↦ stuck ]

abbrev pub ◌>>◌ : {B : Type 0} → Check (Unit {0}) → Check B → Check B
m >> k = m >>= λ _. k

pub bind-ok :
    {A B : Type 0} (m : Check A) (f : A → Check B) {b : B}
    → (m >>= f) ≡ ok b
    → (a : A) × (m ≡ ok a) × (f a ≡ ok b)
bind-ok (ok a) f e = (a, refl, e)
bind-ok (err x) f e = cc
bind-ok fault f e = cc
bind-ok stuck f e = cc

abbrev pub check : Bool → Check (Unit {0})
check true = ok tt
check false = err tt

-- `if (x) check…`
abbrev pub when : Bool → Check (Unit {0}) → Check (Unit {0})
when true m = m
when false m = ok tt

abbrev pub maxstack : ℕ
maxstack = 250

abbrev pub vararg_isvararg : ℕ
vararg_isvararg = 2

abbrev pub vararg_needsarg : ℕ
vararg_needsarg = 4

abbrev pub is_op : OpCode → Option OpCode → Bool
is_op o none = false
is_op o (some o') = op_num o == op_num o'

abbrev pub at : {A : Type 0} → Option A → Check A
at none = fault
at (some x) = ok x

module _ (pt : Proto) where
  abbrev pub h : Header
  h = header pt

  -- `pt->code[i]`
  abbrev pub code_at : ℕ → Check ℕ
  code_at i = at (get_elem? h.code i)

  abbrev pub sizecode : ℕ
  sizecode = length h.code

  -- macro checkreg
  abbrev pub check_reg : ℕ → Check (Unit {0})
  check_reg reg = check (ltb reg h.maxstacksize)

  -- `pt->code[pt->sizecode - 1]`, in front of the array if that is empty
  unfoldable pub last_code : Check ℕ
  last_code = if sizecode == 0 then fault else code_at (sizecode - 1)

  -- precheck
  unfoldable pub precheck : Check (Unit {0})
  unfolding last_code
  precheck = do
    check (leb h.maxstacksize maxstack)
    check (leb (length h.upvalues) h.nups)
    check (length h.lineinfo == sizecode || length h.lineinfo == 0)
    i ← last_code
    check (is_op op_return (get_opcode i))

  -- luaG_checkopenop
  unfoldable pub check_open_op : ℕ → Check (Unit {0})
  check_open_op i = check (
      (is_op op_call (get_opcode i)
        || is_op op_tailcall (get_opcode i)
        || is_op op_return (get_opcode i)
        || is_op op_setlist (get_opcode i))
      && getarg_b i == 0)

  -- checkArgMode
  unfoldable pub check_arg_mode : ℕ → OpArgMask → Check (Unit {0})
  check_arg_mode r arg_n = check (r == 0)
  check_arg_mode r arg_u = ok tt
  check_arg_mode r arg_r = check_reg r
  check_arg_mode r arg_k =
      check (if is_k r then ltb (index_k r) (length h.k) else ltb r h.maxstacksize)

  -- the instruction is a SETLIST whose count is the word behind it
  abbrev pub has_count : ℕ → Bool
  has_count i = is_op op_setlist (get_opcode i) && getarg_c i == 0

  -- the destination of a jump, and what it lands behind
  unfoldable pub check_target : ℤ → Check (Unit {0})
  check_target (negsuc n) = err tt
  check_target (pos dest) = do
    check (ltb dest sizecode)
    if ltb 0 dest then (do d ← code_at (dest - 1); check (not (has_count d))) else ok tt

  unfoldable pub check_dest : ℕ → ℤ → Check (Unit {0})
  unfolding check_target
  check_dest pc b = check_target (pos (pc + 1) +ℤ b)

  -- the first `switch`: the operands, by the instruction's format
  unfoldable pub check_operands : OpMode → OpCode → ℕ → ℕ → Check (Unit {0})
  check_operands abc op pc i = do
    check_arg_mode (getarg_b i) (get_b_mode op)
    check_arg_mode (getarg_c i) (get_c_mode op)
  check_operands abx op pc i = elim (get_b_mode op) [
    | arg_k ↦ check (ltb (getarg_bx i) (length h.k))
    | _ ↦ ok tt
  ]
  check_operands asbx op pc i = elim (get_b_mode op) [
    | arg_r ↦ check_dest pc (getarg_sbx i)
    | _ ↦ ok tt
  ]

  -- a test is followed by a jump
  unfoldable pub check_skip : OpCode → ℕ → Check (Unit {0})
  check_skip op pc =
      if test_t_mode op
      then (do
        check (ltb (pc + 2) sizecode)
        i ← code_at (pc + 1)
        check (is_op op_jmp (get_opcode i)))
      else ok tt

  -- the `nup` pseudo-instructions behind a CLOSURE
  unfoldable pub check_upvalues : ℕ → ℕ → Check (Unit {0})
  check_upvalues zero pc = ok tt
  check_upvalues (suc nup) pc = do
    i ← code_at (pc + suc nup)
    check (is_op op_getupval (get_opcode i) || is_op op_move (get_opcode i))
    check_upvalues nup pc

  unfoldable pub check_string : ℕ → Check (Unit {0})
  check_string b = do o ← at (get_elem? h.k b); elim o [ string s ↦ ok tt | _ ↦ err tt ]

  unfoldable pub check_open : ℕ → Check (Unit {0})
  unfolding check_open_op
  check_open pc = do i ← code_at (pc + 1); check_open_op i

  unfoldable pub check_call : ℕ → ℕ → ℕ → ℕ → Check (Unit {0})
  unfolding check_open
  check_call a b c pc = do
    when (not (b == 0)) (check_reg (a + b - 1))
    if c == 0 then check_open pc else when (not (c == 1)) (check_reg (a + (c - 1) - 1))

  unfoldable pub check_closure : ℕ → ℕ → Check (Unit {0})
  unfolding check_upvalues
  check_closure b pc = do
    check (ltb b (sizep (nested pt)))
    p ← at (proto_at (nested pt) b)
    check (ltb (pc + (header p).nups) sizecode)
    check_upvalues (header p).nups pc

  -- `a + b - 2 < maxstacksize` on signed numbers
  unfoldable pub check_vararg : ℕ → ℕ → ℕ → Check (Unit {0})
  unfolding check_open
  check_vararg a b pc = do
    check (h.is_vararg / 2 % 2 == 1 && not (h.is_vararg / 4 % 2 == 1))
    when (b == 0) (check_open pc)
    check (ltb (a + b) (h.maxstacksize + 2))

  -- the checks of the second `switch`
  unfoldable pub check_op : OpCode → ℕ → ℕ → Check (Unit {0})
  check_op op_loadbool pc i = check (getarg_c i == 0 || ltb (pc + 2) sizecode)
  check_op op_getupval pc i = check (ltb (getarg_b i) h.nups)
  check_op op_setupval pc i = check (ltb (getarg_b i) h.nups)
  check_op op_getglobal pc i = check_string (getarg_bx i)
  check_op op_setglobal pc i = check_string (getarg_bx i)
  check_op op_self pc i = check_reg (getarg_a i + 1)
  check_op op_concat pc i = check (ltb (getarg_b i) (getarg_c i))
  check_op op_tforloop pc i = do check (leb 1 (getarg_c i)); check_reg (getarg_a i + 2 + getarg_c i)
  check_op op_forloop pc i = check_reg (getarg_a i + 3)
  check_op op_forprep pc i = check_reg (getarg_a i + 3)
  check_op op_call pc i = check_call (getarg_a i) (getarg_b i) (getarg_c i) pc
  check_op op_tailcall pc i = check_call (getarg_a i) (getarg_b i) (getarg_c i) pc
  check_op op_return pc i =
      when (ltb 1 (getarg_b i)) (check_reg (getarg_a i + (getarg_b i - 1) - 1))
  check_op op_setlist pc i = when (ltb 0 (getarg_b i)) (check_reg (getarg_a i + getarg_b i))
  check_op op_closure pc i = check_closure (getarg_bx i) pc
  check_op op_vararg pc i = check_vararg (getarg_a i) (getarg_b i) pc
  check_op _ pc i = ok tt

  -- the instruction writes `reg`, by its own case of the second `switch`
  unfoldable pub writes : OpCode → ℕ → ℕ → Bool
  writes op_loadnil reg i = leb (getarg_a i) reg && leb reg (getarg_b i)
  writes op_self reg i = reg == getarg_a i + 1
  writes op_tforloop reg i = leb (getarg_a i + 2) reg
  writes op_call reg i = leb (getarg_a i) reg
  writes op_tailcall reg i = leb (getarg_a i) reg
  writes _ reg i = false

  -- a forward jump that is followed: `pc += b` leaves `pc` in front of the destination
  unfoldable pub follow : ℕ → ℕ → ℕ → ℤ → ℕ
  follow lastpc reg pc b = elim (pos (pc + 1) +ℤ b) [
    | pos dest ↦ if not (reg == no_reg) && (ltb pc dest && leb dest lastpc) then dest - 1 else pc
    | negsuc _ ↦ pc
  ]

  -- `pc` at the end of the second `switch`
  unfoldable pub moves : OpCode → ℕ → ℕ → ℕ → ℕ → ℕ
  unfolding follow
  moves op_forloop lastpc reg pc i = follow lastpc reg pc (getarg_sbx i)
  moves op_forprep lastpc reg pc i = follow lastpc reg pc (getarg_sbx i)
  moves op_jmp lastpc reg pc i = follow lastpc reg pc (getarg_sbx i)
  moves op_setlist lastpc reg pc i = if getarg_c i == 0 then pc + 1 else pc
  moves _ lastpc reg pc i = pc

  -- every check that symbexec makes of the instruction `i` at `pc`
  unfoldable pub check_instr : ℕ → ℕ → OpCode → Check (Unit {0})
  check_instr pc i op = do
    check_reg (getarg_a i)
    check_operands (get_op_mode op) op pc i
    check_skip op pc
    check_op op pc i

  -- the position of the last change of `reg` after the instruction at `pc`
  unfoldable pub last_change : OpCode → ℕ → ℕ → ℕ → ℕ → ℕ
  last_change op reg pc last i =
      if test_a_mode op && getarg_a i == reg || writes op reg i then pc else last

  -- the loop of symbexec
  unfoldable pub symb_loop : ℕ → ℕ → ℕ → ℕ → ℕ → Check ℕ
  symb_loop zero lastpc reg pc last = if ltb pc lastpc then stuck else ok last
  symb_loop (suc fuel) lastpc reg pc last = elim (ltb pc lastpc) [
    | false ↦ ok last
    | true ↦ do
      i ← code_at pc
      op ← elim (get_opcode i) [ none ↦ err tt | some op ↦ ok op ]
      check_instr pc i op
      symb_loop fuel lastpc reg (moves op lastpc reg pc i + 1) (last_change op reg pc last i)
  ]

  -- symbexec: `pc` grows in every round, so `lastpc` rounds are enough
  unfoldable pub symbexec : ℕ → ℕ → Check ℕ
  symbexec lastpc reg = do
    precheck
    last ← symb_loop lastpc lastpc reg 0 (sizecode - 1)
    code_at last

  -- luaG_checkcode
  unfoldable pub checkcode : Check Bool
  checkcode = elim (symbexec sizecode no_reg) [
    | ok i ↦ ok (not (i == 0))
    | err e ↦ ok false
    | fault ↦ fault
    | stuck ↦ stuck
  ]
