-- ===== src/Codegen/Expr.antt =====
-- lcode.cpp: constants and expressions. The union of an ExpDesc is two fields, as no kind reads both.
use cpplua.Prelude.{
  ℕ, ◌-◌, Bool, true, false, ◌&&◌, Option, none, some, List, [], ◌∷◌, ◌++◌, leb, ◌==◌,
  if◌then◌else◌, length,
}
use mathlib.Core.Bool.{not}
use cpplua.Prelude.Int.{ℤ, pos, negsuc}
use cpplua.Prelude.Text.{codes}
use cpplua.Prelude.Outcome.{◌>>=◌, ◌>>◌, pure, raise, get_state, put_state, modify}
use cpplua.Opcodes.{
  op_move, op_loadk, op_loadbool, op_getupval, op_getglobal, op_gettable, op_setglobal, op_setupval,
  op_settable, op_self, op_not, op_test, op_testset, get_opcode, getarg_a, getarg_b, setarg_a,
  setarg_b, setarg_c, no_reg, rk_as_k, maxindex_rk, maxarg_bx,
}
use cpplua.Proto.{Constant, nil, boolean, number, string}
use cpplua.CheckCode.{is_op}
use cpplua.Chunk.Dump.{same_string}
use cpplua.Table.{Numbers}
use cpplua.Codegen.{
  Gen, no_jump, is_no_jump, code_at, set_code, getlabel, getjumpcontrol, need_value, patchlistaux,
  jumps_fuel, concat, patchtohere, code_abc, code_abx, jump, condjump, reserveregs, free_register,
  code_nil,
}

-- enum expkind
pub data ExpKind : Type 0 where
  vvoid vnil vtrue vfalse vk vknum vlocal vupval vglobal vindexed vjmp vrelocable vnonreloc vcall
        vvararg :
      ExpKind

-- struct expdesc
pub record ExpDesc : Type 0 where
  pub kind : ExpKind
  pub info : ℕ
  pub aux : ℕ
  pub nval : ℕ
  pub t : ℤ
  pub f : ℤ

abbrev pub same_list : ℤ → ℤ → Bool
same_list (pos m) (pos n) = m == n
same_list (negsuc m) (negsuc n) = m == n
same_list _ _ = false

-- macro hasjumps
abbrev pub hasjumps : ExpDesc → Bool
hasjumps e = not (same_list e.t e.f)

abbrev pub is_nonreloc : ExpKind → Bool
is_nonreloc vnonreloc = true
is_nonreloc _ = false

abbrev pub is_jmp : ExpKind → Bool
is_jmp vjmp = true
is_jmp _ = false

-- isnumeral
unfoldable pub isnumeral : ExpDesc → Bool
isnumeral e = elim e.kind [ vknum ↦ is_no_jump e.t && is_no_jump e.f | _ ↦ false ]

-- freeexp
unfoldable pub freeexp : ExpDesc → Gen (Unit {0})
unfolding free_register
freeexp e = elim e.kind [ vnonreloc ↦ free_register e.info | _ ↦ pure tt ]

-- luaK_setreturns; the argument is `nresults + 1`, 0 for LUA_MULTRET
unfoldable pub setreturns : ExpDesc → ℕ → Gen (Unit {0})
unfolding reserveregs
setreturns e n = elim e.kind [
  | vcall ↦ do i ← code_at e.info; set_code e.info (setarg_c i n)
  | vvararg ↦ do
    i ← code_at e.info
    fs ← get_state
    set_code e.info (setarg_a (setarg_b i n) fs.freereg)
    reserveregs 1
  | _ ↦ pure tt
]

-- luaK_setoneret
unfoldable pub setoneret : ExpDesc → Gen ExpDesc
setoneret e = elim e.kind [
  | vcall ↦ do i ← code_at e.info; pure (record e { kind = vnonreloc; info = getarg_a i })
  | vvararg ↦ do
    i ← code_at e.info
    set_code e.info (setarg_b i 2)
    pure (record e { kind = vrelocable })
  | _ ↦ pure e
]

-- luaK_dischargevars
unfoldable pub dischargevars : ExpDesc → Gen ExpDesc
unfolding code_abc code_abx free_register setoneret
dischargevars e = elim e.kind [
  | vlocal ↦ pure (record e { kind = vnonreloc })
  | vupval ↦ do i ← code_abc op_getupval 0 e.info 0; pure (record e { kind = vrelocable; info = i })
  | vglobal ↦ do i ← code_abx op_getglobal 0 e.info; pure (record e { kind = vrelocable; info = i })
  | vindexed ↦ do
    free_register e.aux
    free_register e.info
    i ← code_abc op_gettable 0 e.info e.aux
    pure (record e { kind = vrelocable; info = i })
  | vvararg ↦ setoneret e
  | vcall ↦ setoneret e
  | _ ↦ pure e
]

-- code_label
unfoldable pub code_label : ℕ → ℕ → ℕ → Gen ℕ
unfolding getlabel code_abc
code_label a b skip = do _ ← getlabel; code_abc op_loadbool a b skip

module _ (num : Numbers) where
  -- the constants as keys: nil is the table itself
  unfoldable pub same_constant : Constant → Constant → Bool
  unfolding same_string
  same_constant nil nil = true
  same_constant (boolean b) (boolean c) = b == c
  same_constant (number n) (number m) = num.same n m
  same_constant (string s) (string s') = same_string s s'
  same_constant _ _ = false

  unfoldable pub index_of : Constant → List (Constant × ℕ) → Option ℕ
  unfolding same_constant
  index_of c [] = none
  index_of c ((c', i) ∷ h) = let rest = index_of c h in if same_constant c' c then some i else rest

  -- addk
  unfoldable pub addk : Constant → Gen ℕ
  unfolding index_of
  addk v = do
    fs ← get_state
    elim (index_of v fs.h) [
      | some i ↦ pure i
      | none ↦
          if leb maxarg_bx (length fs.k)
          then raise (codes "constant table overflow")
          else (put_state (record fs { k = fs.k ++ v ∷ []; h = (v, length fs.k) ∷ fs.h })
              >> pure (length fs.k))
    ]

  -- luaK_numberK: NaN is no key of a table
  unfoldable pub number_k : ℕ → Gen ℕ
  unfolding addk
  number_k n = if num.is_nan n then raise (codes "table index is NaN") else addk (number n)

  abbrev vtrue_bit : ExpKind → ℕ
  vtrue_bit vtrue = 1
  vtrue_bit _ = 0

  -- discharge2reg; a kind without a value is left as it is
  unfoldable pub discharge2reg : ExpDesc → ℕ → Gen ExpDesc
  unfolding dischargevars code_nil number_k
  discharge2reg e0 reg = do
    e ← dischargevars e0
    let done : Gen ExpDesc = pure (record e { kind = vnonreloc; info = reg })
    elim e.kind [
      | vnil ↦ (code_nil reg 1 >> done)
      | vfalse ↦ (code_abc op_loadbool reg 0 0 >>= λ _. done)
      | vtrue ↦ (code_abc op_loadbool reg 1 0 >>= λ _. done)
      | vk ↦ (code_abx op_loadk reg e.info >>= λ _. done)
      | vknum ↦ (number_k e.nval >>= λ n. code_abx op_loadk reg n >>= λ _. done)
      | vrelocable ↦ (code_at e.info >>= λ i. set_code e.info (setarg_a i reg) >> done)
      | vnonreloc ↦ if reg == e.info then done else (code_abc op_move reg e.info 0 >>= λ _. done)
      | _ ↦ pure e
    ]

  -- discharge2anyreg
  unfoldable pub discharge2anyreg : ExpDesc → Gen ExpDesc
  unfolding discharge2reg reserveregs
  discharge2anyreg e =
      if is_nonreloc e.kind
      then pure e
      else (do reserveregs 1; fs ← get_state; discharge2reg e (fs.freereg - 1))

  -- the part of exp2reg for an expression with jumps
  unfoldable pub close_jumps : ExpDesc → ℕ → Gen (Unit {0})
  unfolding need_value jump code_label patchtohere getlabel patchlistaux
  close_jumps e reg = do
    fs ← get_state
    bt ← need_value (jumps_fuel fs) e.t
    bf ← (if bt then pure true else need_value (jumps_fuel fs) e.f)
    (p_f, p_t) ←
        (if bf
          then (do
            fj ← (if is_jmp e.kind then pure no_jump else jump)
            p_f ← code_label reg 0 1
            p_t ← code_label reg 1 0
            patchtohere fj
            pure (pos p_f, pos p_t))
          else pure (no_jump, no_jump))
    final ← getlabel
    fs' ← get_state
    patchlistaux (jumps_fuel fs') e.f (pos final) reg p_f
    patchlistaux (jumps_fuel fs') e.t (pos final) reg p_t

  -- exp2reg
  unfoldable pub exp2reg : ExpDesc → ℕ → Gen ExpDesc
  unfolding discharge2reg concat close_jumps
  exp2reg e0 reg = do
    e1 ← discharge2reg e0 reg
    t ← (if is_jmp e1.kind then concat e1.t (pos e1.info) else pure e1.t)
    let e : ExpDesc = record e1 { t = t }
    if hasjumps e then close_jumps e reg else pure tt
    pure (record e { kind = vnonreloc; info = reg; t = no_jump; f = no_jump })

  -- luaK_exp2nextreg
  unfoldable pub exp2nextreg : ExpDesc → Gen ExpDesc
  unfolding dischargevars freeexp reserveregs exp2reg
  exp2nextreg e0 = do
    e ← dischargevars e0
    freeexp e
    reserveregs 1
    fs ← get_state
    exp2reg e (fs.freereg - 1)

  -- luaK_exp2anyreg: the register is the `info` of the result
  unfoldable pub exp2anyreg : ExpDesc → Gen ExpDesc
  unfolding dischargevars exp2reg exp2nextreg
  exp2anyreg e0 = do
    e ← dischargevars e0
    fs ← get_state
    if is_nonreloc e.kind
        then (if not (hasjumps e)
            then pure e
            else if leb fs.nactvar e.info
            then exp2reg e e.info
            else exp2nextreg e)
        else exp2nextreg e

  -- luaK_exp2val
  unfoldable pub exp2val : ExpDesc → Gen ExpDesc
  unfolding exp2anyreg dischargevars
  exp2val e = if hasjumps e then exp2anyreg e else dischargevars e

  -- a constant that an RK operand can hold, or else a register
  abbrev as_constant : ExpDesc → Gen ℕ → Gen (ExpDesc × ℕ)
  as_constant e c = do
    fs ← get_state
    if leb (length fs.k) maxindex_rk
        then (do i ← c; pure (record e { kind = vk; info = i }, rk_as_k i))
        else (do e' ← exp2anyreg e; pure (e', e'.info))

  -- luaK_exp2RK: the expression and the operand
  unfoldable pub exp2rk : ExpDesc → Gen (ExpDesc × ℕ)
  unfolding exp2val exp2anyreg number_k addk
  exp2rk e0 = do
    e ← exp2val e0
    let in_register : Gen (ExpDesc × ℕ) = (exp2anyreg e >>= λ e'. pure (e', e'.info))
    elim e.kind [
      | vknum ↦ as_constant e (number_k e.nval)
      | vtrue ↦ as_constant e (addk (boolean 1))
      | vfalse ↦ as_constant e (addk (boolean 0))
      | vnil ↦ as_constant e (addk nil)
      | vk ↦ if leb e.info maxindex_rk then pure (e, rk_as_k e.info) else in_register
      | _ ↦ in_register
    ]

  -- luaK_storevar
  unfoldable pub storevar : ExpDesc → ExpDesc → Gen (Unit {0})
  unfolding freeexp exp2reg exp2anyreg exp2rk code_abc code_abx
  storevar var ex = elim var.kind [
    | vlocal ↦ do freeexp ex; _ ← exp2reg ex var.info; pure tt
    | vupval ↦ do e ← exp2anyreg ex; _ ← code_abc op_setupval e.info var.info 0; freeexp e
    | vglobal ↦ do e ← exp2anyreg ex; _ ← code_abx op_setglobal e.info var.info; freeexp e
    | vindexed ↦ do (e, rk) ← exp2rk ex; _ ← code_abc op_settable var.info var.aux rk; freeexp e
    | _ ↦ freeexp ex
  ]

  -- luaK_self
  unfoldable pub self : ExpDesc → ExpDesc → Gen ExpDesc
  unfolding exp2anyreg freeexp reserveregs exp2rk code_abc
  self e0 key0 = do
    e ← exp2anyreg e0
    freeexp e
    fs ← get_state
    reserveregs 2
    (key, rk) ← exp2rk key0
    _ ← code_abc op_self fs.freereg e.info rk
    freeexp key
    pure (record e { kind = vnonreloc; info = fs.freereg })

  -- invertjump
  unfoldable pub invertjump : ExpDesc → Gen (Unit {0})
  unfolding getjumpcontrol
  invertjump e = do
    control ← getjumpcontrol e.info
    i ← code_at control
    set_code control (setarg_a i (if getarg_a i == 0 then 1 else 0))

  -- jumponcond; a removed OP_NOT stays in the array behind `pc`
  unfoldable pub jumponcond : ExpDesc → ℕ → Gen ℤ
  unfolding discharge2anyreg freeexp condjump
  jumponcond e cond = do
    let through : Gen ℤ = (do
      e' ← discharge2anyreg e
      freeexp e'
      condjump op_testset no_reg e'.info cond)
    elim e.kind [
      | vrelocable ↦ do
        ie ← code_at e.info
        elim (is_op op_not (get_opcode ie)) [
          | true ↦ do
            modify (λ fs. record fs { pc = fs.pc - 1 })
            condjump op_test (getarg_b ie) 0 (1 - cond)
          | false ↦ through
        ]
      | _ ↦ through
    ]

  -- luaK_goiftrue
  unfoldable pub goiftrue : ExpDesc → Gen ExpDesc
  unfolding dischargevars jump invertjump jumponcond concat patchtohere
  goiftrue e0 = do
    e ← dischargevars e0
    let pc : Gen ℤ = elim e.kind [
      | vk ↦ pure no_jump
      | vknum ↦ pure no_jump
      | vtrue ↦ pure no_jump
      | vfalse ↦ jump
      | vjmp ↦ (invertjump e >> pure (pos e.info))
      | _ ↦ jumponcond e 0
    ]
    l ← pc
    f ← concat e.f l
    patchtohere e.t
    pure (record e { f = f; t = no_jump })

  -- luaK_goiffalse
  unfoldable pub goiffalse : ExpDesc → Gen ExpDesc
  unfolding dischargevars jump jumponcond concat patchtohere
  goiffalse e0 = do
    e ← dischargevars e0
    let pc : Gen ℤ = elim e.kind [
      | vnil ↦ pure no_jump
      | vfalse ↦ pure no_jump
      | vtrue ↦ jump
      | vjmp ↦ pure (pos e.info)
      | _ ↦ jumponcond e 1
    ]
    l ← pc
    t ← concat e.t l
    patchtohere e.f
    pure (record e { t = t; f = no_jump })
