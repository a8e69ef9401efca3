-- ===== src/Codegen.antt =====
-- lcode.cpp: the code of one function, as it is generated: instructions, jump lists and registers. A
-- patch list is the position of its first jump, -1 if it is empty; each jump holds, as its offset, the
-- way to the next. Errors are the messages that the lexer reports. Memory is taken to suffice.
pub mod Jumps
pub mod Lists
pub mod Registers
pub mod Patch
pub mod Constants
pub mod Expr
pub mod Operators
use cpplua.Prelude.{
  ℕ, zero, suc, ◌+◌, ◌-◌, ◌*◌, ◌/◌, ◌%◌, ◌^◌, Bool, true, false, ◌&&◌, ◌||◌, Option, none, some,
  List, [], ◌∷◌, ◌++◌, ltb, leb, ◌==◌, if◌then◌else◌, length, get_elem?, set,
}
use mathlib.Core.Bool.{not}
use cpplua.Prelude.Int.{ℤ, pos, negsuc, ◌+ℤ◌, ◌-ℤ◌}
use cpplua.Prelude.Limits.{max_int}
use cpplua.Prelude.Text.{codes}
use cpplua.Prelude.Outcome.{
  Outcome, ok, fault, Proc, ◌>>=◌, ◌>>◌, pure, raise, faults, stucks, get_state, put_state, modify,
}
use cpplua.Opcodes.{
  OpCode, op_num, op_move, op_loadk, op_loadbool, op_loadnil, op_getupval, op_getglobal,
  op_gettable, op_jmp, op_test, op_testset, op_return, op_setlist, get_opcode, getarg_a, getarg_b,
  getarg_c, getarg_sbx, setarg_a, setarg_b, setarg_sbx, setarg_c, create_abc, create_abx,
  maxarg_sbx, maxarg_c, no_reg, is_k, test_t_mode, lfields_per_flush,
}
use cpplua.Proto.{Constant}
use cpplua.CheckCode.{is_op, maxstack}

-- struct FuncState, with the fields of its Proto that the generator writes, and the lexer's last line;
-- `h`, the table of the constants, is the list of its entries
pub record FuncState : Type 0 where
  pub code : List ℕ
  pub lineinfo : List ℕ
  pub pc : ℕ
  pub lasttarget : ℤ
  pub jpc : ℤ
  pub freereg : ℕ
  pub nactvar : ℕ
  pub maxstacksize : ℕ
  pub lastline : ℕ
  pub k : List Constant
  pub h : List (Constant × ℕ)

abbrev pub Gen : Type 0 → Type 0
Gen = Proc (List ℕ) FuncState

-- NO_JUMP
abbrev pub no_jump : ℤ
no_jump = negsuc 0

abbrev pub is_no_jump : ℤ → Bool
is_no_jump (negsuc zero) = true
is_no_jump _ = false

-- `fs->f->code[pc]`
abbrev pub code_at : ℕ → Gen ℕ
code_at pc fs = elim (get_elem? fs.code pc) [ none ↦ fault | some i ↦ ok (i, fs) ]

abbrev pub set_code : ℕ → ℕ → Gen (Unit {0})
set_code pc i = modify (λ fs. record fs { code = set fs.code pc i })

-- the position of a jump of a list; the end of the list is none
abbrev pub jump_at : ℤ → Gen ℕ
jump_at (pos pc) = pure pc
jump_at (negsuc n) = faults

-- `abs(offset) > MAXARG_sBx`
abbrev pub too_far : ℤ → Bool
too_far (pos n) = ltb maxarg_sbx n
too_far (negsuc n) = leb maxarg_sbx n

-- fixjump
unfoldable pub fixjump : ℕ → ℤ → Gen (Unit {0})
fixjump pc dest = do
  jmp ← code_at pc
  let offset = dest -ℤ pos (pc + 1)
  if too_far offset
      then raise (codes "control structure too long")
      else set_code pc (setarg_sbx jmp offset)

-- luaK_getlabel
unfoldable pub getlabel : Gen ℕ
getlabel fs = ok (fs.pc, record fs { lasttarget = pos fs.pc })

-- getjump
unfoldable pub getjump : ℕ → Gen ℤ
getjump pc = do
  i ← code_at pc
  if is_no_jump (getarg_sbx i) then pure no_jump else pure (pos (pc + 1) +ℤ getarg_sbx i)

-- getjumpcontrol: the position of the instruction that controls a jump
unfoldable pub getjumpcontrol : ℕ → Gen ℕ
getjumpcontrol zero = pure 0
getjumpcontrol (suc pc) = do
  before ← code_at pc
  let tests : Bool = elim (get_opcode before) [ none ↦ false | some op ↦ test_t_mode op ]
  if tests then pure pc else pure (suc pc)

-- need_value; the fuel bounds the jumps of a list
unfoldable pub need_value : ℕ → ℤ → Gen Bool
unfolding getjump getjumpcontrol
need_value zero list = stucks
need_value (suc fuel) list = elim (is_no_jump list) [
  | true ↦ pure false
  | false ↦ do
    l ← jump_at list
    control ← getjumpcontrol l
    i ← code_at control
    elim (is_op op_testset (get_opcode i)) [
      | false ↦ pure true
      | true ↦ do next ← getjump l; need_value fuel next
    ]
]

-- the part of patchtestreg behind the search for the controlling instruction `i`
unfoldable pub retest : ℕ → ℕ → ℕ → Gen Bool
retest control reg i =
    if not (is_op op_testset (get_opcode i))
    then pure false
    else if not (reg == no_reg) && not (reg == getarg_b i)
    then (set_code control (setarg_a i reg) >> pure true)
    else (set_code control (create_abc op_test (getarg_b i) 0 (getarg_c i)) >> pure true)

-- patchtestreg
unfoldable pub patchtestreg : ℕ → ℕ → Gen Bool
unfolding getjumpcontrol retest
patchtestreg node reg = do control ← getjumpcontrol node; i ← code_at control; retest control reg i

-- removevalues
unfoldable pub removevalues : ℕ → ℤ → Gen (Unit {0})
unfolding patchtestreg getjump
removevalues zero list = stucks
removevalues (suc fuel) list = elim (is_no_jump list) [
  | true ↦ pure tt
  | false ↦ do l ← jump_at list; _ ← patchtestreg l no_reg; next ← getjump l; removevalues fuel next
]

-- patchlistaux
unfoldable pub patchlistaux : ℕ → ℤ → ℤ → ℕ → ℤ → Gen (Unit {0})
unfolding patchtestreg getjump fixjump
patchlistaux zero list vtarget reg dtarget = stucks
patchlistaux (suc fuel) list vtarget reg dtarget = elim (is_no_jump list) [
  | true ↦ pure tt
  | false ↦ do
    l ← jump_at list
    next ← getjump l
    patched ← patchtestreg l reg
    fixjump l (if patched then vtarget else dtarget)
    patchlistaux fuel next vtarget reg dtarget
]

-- a list has no more jumps than there are instructions
abbrev pub jumps_fuel : FuncState → ℕ
jumps_fuel fs = suc (length fs.code)

-- dischargejpc
unfoldable pub dischargejpc : Gen (Unit {0})
unfolding patchlistaux
dischargejpc = do
  fs ← get_state
  patchlistaux (jumps_fuel fs) fs.jpc (pos fs.pc) no_reg (pos fs.pc)
  modify (λ fs. record fs { jpc = no_jump })

-- the loop of luaK_concat: the last jump of a list
unfoldable pub last_jump : ℕ → ℕ → Gen ℕ
unfolding getjump
last_jump zero l = stucks
last_jump (suc fuel) l = do
  next ← getjump l
  elim (is_no_jump next) [ true ↦ pure l | false ↦ do n ← jump_at next; last_jump fuel n ]

-- luaK_concat: the new value of `*l1`
unfoldable pub concat : ℤ → ℤ → Gen ℤ
unfolding last_jump fixjump
concat l1 l2 = elim (is_no_jump l2) [
  | true ↦ pure l1
  | false ↦ elim (is_no_jump l1) [
    | true ↦ pure l2
    | false ↦ do
      first ← jump_at l1
      fs ← get_state
      last ← last_jump (jumps_fuel fs) first
      fixjump last l2
      pure l1
  ]
]

-- luaK_patchtohere
unfoldable pub patchtohere : ℤ → Gen (Unit {0})
unfolding getlabel concat
patchtohere list = do
  _ ← getlabel
  fs ← get_state
  l ← concat fs.jpc list
  modify (λ fs. record fs { jpc = l })

-- luaK_patchlist
unfoldable pub patchlist : ℤ → ℕ → Gen (Unit {0})
unfolding patchtohere patchlistaux
patchlist list target = do
  fs ← get_state
  if target == fs.pc
      then patchtohere list
      else patchlistaux (jumps_fuel fs) list (pos target) no_reg (pos target)

-- an array that luaM_growvector has given room at index `pc`
abbrev pub put : List ℕ → ℕ → ℕ → List ℕ
put [] pc i = i ∷ []
put (x ∷ xs) zero i = i ∷ xs
put (x ∷ xs) (suc pc) i = x ∷ put xs pc i

-- luaK_code
unfoldable pub code : ℕ → ℕ → Gen ℕ
unfolding dischargejpc
code i line = do
  dischargejpc
  fs ← get_state
  if leb max_int fs.pc
      then raise (codes "code size overflow")
      else (put_state (record fs {
        code = put fs.code fs.pc i;
        lineinfo = put fs.lineinfo fs.pc line;
        pc = suc fs.pc;
      })
          >> pure fs.pc)

-- luaK_codeABC
unfoldable pub code_abc : OpCode → ℕ → ℕ → ℕ → Gen ℕ
unfolding code
code_abc o a b c = do fs ← get_state; code (create_abc o a b c) fs.lastline

-- luaK_codeABx
unfoldable pub code_abx : OpCode → ℕ → ℕ → Gen ℕ
unfolding code
code_abx o a bc = do fs ← get_state; code (create_abx o a bc) fs.lastline

-- luaK_jump
unfoldable pub jump : Gen ℤ
unfolding code_abx concat
jump = do
  fs ← get_state
  put_state (record fs { jpc = no_jump })
  j ← code_abx op_jmp 0 (maxarg_sbx - 1)
  concat (pos j) fs.jpc

-- luaK_ret
unfoldable pub ret : ℕ → ℕ → Gen (Unit {0})
unfolding code_abc
ret first nret = do _ ← code_abc op_return first (nret + 1) 0; pure tt

-- condjump
unfoldable pub condjump : OpCode → ℕ → ℕ → ℕ → Gen ℤ
unfolding code_abc jump
condjump op a b c = do _ ← code_abc op a b c; jump

-- luaK_checkstack
unfoldable pub checkstack : ℕ → Gen (Unit {0})
checkstack n = do
  fs ← get_state
  if ltb fs.maxstacksize (fs.freereg + n)
      then if leb maxstack (fs.freereg + n)
        then raise (codes "function or expression too complex")
        else put_state (record fs { maxstacksize = fs.freereg + n })
      else pure tt

-- luaK_reserveregs
unfoldable pub reserveregs : ℕ → Gen (Unit {0})
unfolding checkstack
reserveregs n = do checkstack n; modify (λ fs. record fs { freereg = fs.freereg + n })

-- freereg; the register that is freed was reserved
unfoldable pub free_register : ℕ → Gen (Unit {0})
free_register reg = modify (λ fs.
    if not (is_k reg) && leb fs.nactvar reg then record fs { freereg = fs.freereg - 1 } else fs)

-- luaK_nil
unfoldable pub code_nil : ℕ → ℕ → Gen (Unit {0})
unfolding code_abc
code_nil from n = do
  fs ← get_state
  let fresh : Gen (Unit {0}) = (do _ ← code_abc op_loadnil from (from + n - 1) 0; pure tt)
  let untargeted : Bool = elim fs.lasttarget [ negsuc _ ↦ true | pos t ↦ ltb t fs.pc ]
  if not untargeted then fresh else if fs.pc == 0 then pure tt else (do
    previous ← code_at (fs.pc - 1)
    let pfrom = getarg_a previous
    let pto = getarg_b previous
    if is_op op_loadnil (get_opcode previous) && leb pfrom from && leb from (pto + 1)
        then (if ltb pto (from + n - 1)
            then set_code (fs.pc - 1) (setarg_b previous (from + n - 1))
            else pure tt)
        else fresh)

-- luaK_setlist; LUA_MULTRET is none
unfoldable pub setlist : ℕ → ℕ → Option ℕ → Gen (Unit {0})
unfolding code_abc code
setlist base nelems tostore = do
  let c = (nelems - 1) / lfields_per_flush + 1
  let b : ℕ = elim tostore [ none ↦ 0 | some n ↦ n ]
  if leb c maxarg_c
      then (do _ ← code_abc op_setlist base b c; pure tt)
      else (do _ ← code_abc op_setlist base b 0; fs ← get_state; _ ← code c fs.lastline; pure tt)
  modify (λ fs. record fs { freereg = base + 1 })
