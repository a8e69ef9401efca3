-- ===== src/Codegen/Operators.antt =====
-- lcode.cpp: operators. `numbers` is the arithmetic of lua_Number on its bit patterns.
pub mod Emit
pub mod Compares
use cpplua.Prelude.{
  List, set, ◌-◌, ℕ, Bool, true, false, ◌&&◌, ◌||◌, Option, none, some, ◌==◌, if◌then◌else◌,
}
use mathlib.Core.Bool.{not}
use cpplua.Prelude.Int.{ℤ, pos}
use cpplua.Prelude.Outcome.{faults, put_state, ◌>>=◌, ◌>>◌, pure, get_state}
use cpplua.Opcodes.{
  OpCode, op_add, op_sub, op_mul, op_div, op_mod, op_pow, op_unm, op_not, op_len, op_concat, op_eq,
  op_lt, op_le, get_opcode, setarg_b,
}
use cpplua.Proto.{string}
use cpplua.CheckCode.{is_op}
use cpplua.Table.{Numbers}
use cpplua.Codegen.{
  Gen, no_jump, code_at, set_code, removevalues, jumps_fuel, concat, code_abc, condjump,
}
use cpplua.Codegen.Expr.{
  addk, ExpKind, vvoid, vnil, vtrue, vfalse, vk, vknum, vlocal, vjmp, vrelocable, vnonreloc,
  vindexed, ExpDesc, isnumeral, freeexp, dischargevars, discharge2anyreg, exp2nextreg, exp2anyreg,
  exp2val, exp2rk, invertjump, goiftrue, goiffalse,
}

-- enum BinOpr and enum UnOpr
pub data BinOpr : Type 0 where
  opr_add opr_sub opr_mul opr_div opr_mod opr_pow opr_concat : BinOpr
  opr_ne opr_eq opr_lt opr_le opr_gt opr_ge opr_and opr_or opr_nobinopr : BinOpr

pub data UnOpr : Type 0 where
  opr_minus opr_not opr_len opr_nounopr : UnOpr

-- luai_numadd and the other macros of lua.h
pub record Arithmetic : Type 0 where
  pub numadd : ℕ → ℕ → ℕ
  pub numsub : ℕ → ℕ → ℕ
  pub nummul : ℕ → ℕ → ℕ
  pub numdiv : ℕ → ℕ → ℕ
  pub nummod : ℕ → ℕ → ℕ
  pub numpow : ℕ → ℕ → ℕ
  pub numunm : ℕ → ℕ
  pub is_zero : ℕ → Bool
  pub zero_num : ℕ

module _ (num : Numbers) (ar : Arithmetic) where
  -- codenot: a constant changes its truth value, a jump its condition
  unfoldable pub codenot : ExpDesc → Gen ExpDesc
  unfolding dischargevars invertjump discharge2anyreg freeexp code_abc removevalues
  codenot e0 = do
    e ← dischargevars e0
    let in_register : Gen ExpDesc = (do
      e' ← discharge2anyreg num e
      freeexp e'
      i ← code_abc op_not 0 e'.info 0
      pure (record e' { kind = vrelocable; info = i }))
    n ← (elim e.kind [
      | vnil ↦ pure (record e { kind = vtrue })
      | vfalse ↦ pure (record e { kind = vtrue })
      | vk ↦ pure (record e { kind = vfalse })
      | vknum ↦ pure (record e { kind = vfalse })
      | vtrue ↦ pure (record e { kind = vfalse })
      | vjmp ↦ (invertjump num e >> pure e)
      | vrelocable ↦ in_register
      | vnonreloc ↦ in_register
      | _ ↦ pure e
    ])
    fs ← get_state
    removevalues (jumps_fuel fs) n.t
    removevalues (jumps_fuel fs) n.f
    pure (record n { t = n.f; f = n.t })

  -- luaK_indexed
  unfoldable pub indexed : ExpDesc → ExpDesc → Gen ExpDesc
  unfolding exp2rk
  indexed t k = do (_, rk) ← exp2rk num k; pure (record t { aux = rk; kind = vindexed })

  -- the value of an operator on two numbers, where there is one to fold
  unfoldable pub fold : OpCode → ℕ → ℕ → Option ℕ
  fold op v1 v2 = elim op [
    | op_add ↦ some (ar.numadd v1 v2)
    | op_sub ↦ some (ar.numsub v1 v2)
    | op_mul ↦ some (ar.nummul v1 v2)
    | op_div ↦ if ar.is_zero v2 then none else some (ar.numdiv v1 v2)
    | op_mod ↦ if ar.is_zero v2 then none else some (ar.nummod v1 v2)
    | op_pow ↦ some (ar.numpow v1 v2)
    | op_unm ↦ some (ar.numunm v1)
    | op_len ↦ none
    | _ ↦ some ar.zero_num
  ]

  -- the folded expression, or none where the source returns 0
  unfoldable pub constfolding : OpCode → ExpDesc → ExpDesc → Option ExpDesc
  unfolding isnumeral fold
  constfolding op e1 e2 =
      if isnumeral e1 && isnumeral e2
      then elim (fold op e1.nval e2.nval) [
        | none ↦ none
        | some r ↦ if num.is_nan r then none else some (record e1 { nval = r })
      ]
      else none

  unfoldable pub codearith : OpCode → ExpDesc → ExpDesc → Gen ExpDesc
  unfolding constfolding exp2rk freeexp code_abc
  codearith op e1 e2 = elim (constfolding op e1 e2) [
    | some e ↦ pure e
    | none ↦ do
      (e1', o1) ← exp2rk num e1
      (e2', o2) ←
          (if is_op op_unm (some op) || is_op op_len (some op) then pure (e2, 0) else exp2rk num e2)
      freeexp e2'
      freeexp e1'
      i ← code_abc op 0 o1 o2
      pure (record e1' { kind = vrelocable; info = i })
  ]

  -- "exchange args to replace by `<' or `<='": the fields A, B and C of the instruction
  unfoldable pub exchange : OpCode → ℕ → ℕ → ℕ → ℕ × ℕ × ℕ
  exchange op cond o1 o2 =
      if cond == 0 && not (is_op op_eq (some op)) then (1, o2, o1) else (cond, o1, o2)

  unfoldable pub codecomp : OpCode → ℕ → ExpDesc → ExpDesc → Gen ExpDesc
  unfolding exp2rk freeexp exchange condjump
  codecomp op cond e1 e2 = do
    (e1', o1) ← exp2rk num e1
    (e2', o2) ← exp2rk num e2
    freeexp e2'
    freeexp e1'
    let abc = exchange op cond o1 o2
    j ← condjump op abc.0 abc.1 abc.2
    elim j [ pos i ↦ pure (record e1' { kind = vjmp; info = i }) | _ ↦ pure e1' ]

  -- luaK_prefix
  unfoldable pub prefix_op : UnOpr → ExpDesc → Gen ExpDesc
  unfolding exp2anyreg codearith codenot
  prefix_op op e =
      let e2 : ExpDesc = record {
        kind = vknum;
        info = 0;
        aux = 0;
        nval = ar.zero_num;
        t = no_jump;
        f = no_jump;
      } in
      elim op [
        | opr_minus ↦ elim e.kind [
          | vk ↦ do e' ← exp2anyreg num e; codearith op_unm e' e2
          | _ ↦ codearith op_unm e e2
        ]
        | opr_not ↦ codenot e
        | opr_len ↦ do e' ← exp2anyreg num e; codearith op_len e' e2
        | opr_nounopr ↦ pure e
      ]

  -- luaK_infix
  unfoldable pub infix_op : BinOpr → ExpDesc → Gen ExpDesc
  unfolding goiftrue goiffalse exp2nextreg exp2rk isnumeral
  infix_op op v =
      let operand : Gen ExpDesc =
        (if isnumeral v then pure v else (exp2rk num v >>= λ r. pure r.0)) in
      elim op [
        | opr_and ↦ goiftrue num v
        | opr_or ↦ goiffalse num v
        | opr_concat ↦ exp2nextreg num v
        | _ ↦ operand
      ]

  -- the case OPR_CONCAT of luaK_posfix, once the second operand is discharged: `a .. (b .. c)` is one
  -- instruction over the registers from `a` on
  unfoldable pub join : ExpDesc → ExpDesc → Gen ExpDesc
  unfolding freeexp exp2nextreg codearith
  join e1 e2 = do
    let two : Gen ExpDesc = (exp2nextreg num e2 >>= λ e. codearith op_concat e1 e)
    elim e2.kind [
      | vrelocable ↦ do
        i ← code_at e2.info
        if is_op op_concat (get_opcode i)
            then (do
              freeexp e1
              set_code e2.info (setarg_b i e1.info)
              pure (record e1 { kind = e2.kind; info = e2.info }))
            else two
      | _ ↦ two
    ]

  -- luaK_posfix
  unfoldable pub posfix : BinOpr → ExpDesc → ExpDesc → Gen ExpDesc
  unfolding dischargevars concat exp2val join codearith codecomp
  posfix op e1 e2 = elim op [
    | opr_and ↦ do e ← dischargevars e2; f ← concat e1.f e.f; pure (record e { f = f })
    | opr_or ↦ do e ← dischargevars e2; t ← concat e1.t e.t; pure (record e { t = t })
    | opr_concat ↦ do e ← exp2val num e2; join e1 e
    | opr_add ↦ codearith op_add e1 e2
    | opr_sub ↦ codearith op_sub e1 e2
    | opr_mul ↦ codearith op_mul e1 e2
    | opr_div ↦ codearith op_div e1 e2
    | opr_mod ↦ codearith op_mod e1 e2
    | opr_pow ↦ codearith op_pow e1 e2
    | opr_eq ↦ codecomp op_eq 1 e1 e2
    | opr_ne ↦ codecomp op_eq 0 e1 e2
    | opr_lt ↦ codecomp op_lt 1 e1 e2
    | opr_le ↦ codecomp op_le 1 e1 e2
    | opr_gt ↦ codecomp op_lt 0 e1 e2
    | opr_ge ↦ codecomp op_le 0 e1 e2
    | opr_nobinopr ↦ pure e1
  ]

-- luaK_stringK
unfoldable pub string_k : Numbers → Option (List ℕ) → Gen ℕ
unfolding addk
string_k num s = addk num (string s)

-- luaK_fixline
unfoldable pub fixline : ℕ → Gen (Unit {0})
fixline line = do
  fs ← get_state
  if fs.pc == 0
      then faults
      else put_state (record fs { lineinfo = set fs.lineinfo (fs.pc - 1) line })
