-- ===== src/Codegen/Operators/Compares.antt =====
-- What a comparison that luaK_posfix emits decides.
use cpplua.Prelude.{
  ℕ, suc, ◌^◌, ◌<◌, ◌≡◌, refl, ◌∙◌, Bool, false, Option, none, some, get_elem?, ◌==◌, if◌then◌else◌,
  arith,
}
use mathlib.Core.Bool.{not}
use cpplua.Prelude.Outcome.{ok}
use cpplua.Opcodes.{
  op_num, OpCode, op_eq, op_lt, op_le, get_opcode, getarg_a, getarg_b, getarg_c, create_abc,
}
use cpplua.Opcodes.Fields.{getarg-create_abc}
use cpplua.Table.{Numbers}
use cpplua.Codegen.{FuncState}
use cpplua.Codegen.Expr.{vjmp, ExpDesc}
use cpplua.Codegen.Operators.{
  BinOpr, opr_eq, opr_ne, opr_lt, opr_le, opr_gt, opr_ge, Arithmetic, exchange, codecomp, posfix,
}
use cpplua.Codegen.Operators.Emit.{Settled, IsReady, codecomp-emits, Settled-small}

pub data IsComparison : BinOpr → Type 0 where
  eq_compares : IsComparison opr_eq
  ne_compares : IsComparison opr_ne
  lt_compares : IsComparison opr_lt
  le_compares : IsComparison opr_le
  gt_compares : IsComparison opr_gt
  ge_compares : IsComparison opr_ge

module _ (same less le : ℕ → ℕ → Bool) where
  -- what the operator says of two operands
  unfoldable pub means : BinOpr → ℕ → ℕ → Bool
  means op x y = elim op [
    | opr_eq ↦ same x y
    | opr_ne ↦ not (same x y)
    | opr_lt ↦ less x y
    | opr_le ↦ le x y
    | opr_gt ↦ less y x
    | opr_ge ↦ le y x
    | _ ↦ false
  ]

  -- Whether the machine takes the jump behind the instruction: it does if the test of the operands B and
  -- C comes out as A.
  unfoldable pub takes_jump : ℕ → Option Bool
  takes_jump i =
      let out = λ (r : Bool). if getarg_a i == 0 then not r else r in
      elim (get_opcode i) [
        | some op_eq ↦ some (out (same (getarg_b i) (getarg_c i)))
        | some op_lt ↦ some (out (less (getarg_b i) (getarg_c i)))
        | some op_le ↦ some (out (le (getarg_b i) (getarg_c i)))
        | _ ↦ none
      ]

module _ (same less le : ℕ → ℕ → Bool) where
  takes_jump-eq :
      (a b c : ℕ)
      → a < 2 ^ 8
      → b < 2 ^ 9
      → c < 2 ^ 9
      → takes_jump same less le (create_abc op_eq a b c)
        ≡ some (if a == 0 then not (same b c) else same b c)
  unfolding takes_jump
  takes_jump-eq a b c ha hb hc =
      let d = getarg-create_abc op_eq a b c ha hb hc in rw (takes_jump, d.1, d.2, d.3, d.4) refl

  takes_jump-lt :
      (a b c : ℕ)
      → a < 2 ^ 8
      → b < 2 ^ 9
      → c < 2 ^ 9
      → takes_jump same less le (create_abc op_lt a b c)
        ≡ some (if a == 0 then not (less b c) else less b c)
  unfolding takes_jump
  takes_jump-lt a b c ha hb hc =
      let d = getarg-create_abc op_lt a b c ha hb hc in rw (takes_jump, d.1, d.2, d.3, d.4) refl

  takes_jump-le :
      (a b c : ℕ)
      → a < 2 ^ 8
      → b < 2 ^ 9
      → c < 2 ^ 9
      → takes_jump same less le (create_abc op_le a b c)
        ≡ some (if a == 0 then not (le b c) else le b c)
  unfolding takes_jump
  takes_jump-le a b c ha hb hc =
      let d = getarg-create_abc op_le a b c ha hb hc in rw (takes_jump, d.1, d.2, d.3, d.4) refl

module _ (num : Numbers) (ar : Arithmetic) (same less le : ℕ → ℕ → Bool) where
  takes_jump-create_abc :
      (op : BinOpr) (o1 o2 : ℕ)
      → IsComparison op
      → o1 < 2 ^ 9
      → o2 < 2 ^ 9
      → (o : OpCode) × (cond : ℕ) × ((e1 e2 : ExpDesc) (fs : FuncState)
          → posfix num ar op e1 e2 fs ≡ codecomp num ar o cond e1 e2 fs)
        × (takes_jump same less le (
              create_abc o
                (exchange num ar o cond o1 o2).0
                (exchange num ar o cond o1 o2).1
                (exchange num ar o cond o1 o2).2)
            ≡ some (means same less le op o1 o2))
  unfolding means posfix exchange op_num
  takes_jump-create_abc _ o1 o2 eq_compares h1 h2 =
      (op_eq, 1, (λ e1 e2 fs. refl), takes_jump-eq same less le 1 o1 o2 (omega arith) h1 h2)
  takes_jump-create_abc _ o1 o2 ne_compares h1 h2 =
      (op_eq, 0, (λ e1 e2 fs. refl), takes_jump-eq same less le 0 o1 o2 (omega arith) h1 h2)
  takes_jump-create_abc _ o1 o2 lt_compares h1 h2 =
      (op_lt, 1, (λ e1 e2 fs. refl), takes_jump-lt same less le 1 o1 o2 (omega arith) h1 h2)
  takes_jump-create_abc _ o1 o2 le_compares h1 h2 =
      (op_le, 1, (λ e1 e2 fs. refl), takes_jump-le same less le 1 o1 o2 (omega arith) h1 h2)
  takes_jump-create_abc _ o1 o2 gt_compares h1 h2 =
      (op_lt, 0, (λ e1 e2 fs. refl), takes_jump-lt same less le 1 o2 o1 (omega arith) h2 h1)
  takes_jump-create_abc _ o1 o2 ge_compares h1 h2 =
      (op_le, 0, (λ e1 e2 fs. refl), takes_jump-le same less le 1 o2 o1 (omega arith) h2 h1)

  -- A comparison of two operands that are in registers or among the first 256 constants, with no jump
  -- pending and room in the code array, ends without an error: the expression is a jump, and the instruction
  -- in front of the jump takes it just if the operator holds of the operands, whatever the three tests of
  -- the machine are.
  pub posfix-compares :
      (op : BinOpr) (e1 e2 : ExpDesc) (o1 o2 : ℕ) (fs : FuncState)
      → IsComparison op
      → Settled e1 o1
      → Settled e2 o2
      → IsReady fs
      → (e : ExpDesc) × (t : FuncState) × (i : ℕ) × (posfix num ar op e1 e2 fs ≡ ok (e, t))
        × (e.kind ≡ vjmp)
        × (e.info ≡ suc fs.pc)
        × (get_elem? t.code fs.pc ≡ some i)
        × (takes_jump same less le i ≡ some (means same less le op o1 o2))
  posfix-compares op e1 e2 o1 o2 fs c s1 s2 r =
      let (o, cond, run, taken) =
        takes_jump-create_abc op o1 o2 c (Settled-small e1 o1 s1) (Settled-small e2 o2 s2) in
      let (t, emits, there) = codecomp-emits num ar o cond e1 e2 o1 o2 fs s1 s2 r in
      (
        record e1 { kind = vjmp; info = suc fs.pc },
        t,
        _,
        run e1 e2 fs ∙ emits,
        refl,
        refl,
        there,
        taken,
      )
