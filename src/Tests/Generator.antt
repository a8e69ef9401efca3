-- ===== src/Tests/Generator.antt =====
-- Generated code on concrete inputs.
use cpplua.Prelude.{
  leb, ltb, ◌==◌, ◌*◌, ◌-◌, ◌/◌, ◌%◌, ℕ, zero, suc, ◌+◌, ◌^◌, ◌≤◌, ◌<◌, ◌≡◌, refl, sym, ap, true,
  false, Bool-cases, inl, inr, some, [], ◌∷◌, arith, get_elem?, set, ◌⊎◌, ◌≢◌,
}
use cpplua.Prelude.Int
use cpplua.Prelude.Int.{ℤ, pos, negsuc}
use cpplua.Prelude.Text.{codes}
use cpplua.Prelude.Outcome.{ok, err}
use cpplua.Opcodes
use cpplua.Opcodes.{maxarg_bx, setarg_sbx, op_testset, get_opcode}
use cpplua.CheckCode.{maxstack, is_op}
use cpplua.Proto.{Constant, number}
use cpplua.Tests.Tables.{naturals}
use cpplua.Codegen.Expr.{same_constant, index_of, addk}
use cpplua.Codegen.Constants.{IsAt, InTable, Added, addk-Added}
use cpplua.Codegen
use cpplua.Codegen.Patch.{patchlist-leads}
use cpplua.Codegen.{patchlist, FuncState, no_jump, fixjump, getjump, concat, reserveregs}
use cpplua.Codegen.Jumps.{Fixed, getjump-fixjump}
use cpplua.Codegen.Lists.{Jumps, concat-Jumps}
use cpplua.Codegen.Expr.{ExpDesc, vk, vjmp, vnonreloc}
use cpplua.Codegen.Operators.{Arithmetic, opr_ge, posfix}
use cpplua.Codegen.Operators.Emit.{in_register, constant}
use cpplua.Codegen.Operators.Compares.{ge_compares, means, takes_jump, posfix-compares}
use cpplua.Codegen.Registers.{InFrame, reserveregs-InFrame}

-- two jumps that end their lists, and a RETURN
abbrev two_jumps : FuncState
two_jumps = record {
  code = 0x7fff8016 ∷ 0x7fff8016 ∷ 0x0080001e ∷ [];
  lineinfo = 1 ∷ 1 ∷ 2 ∷ [];
  pc = 3;
  lasttarget = no_jump;
  jpc = no_jump;
  freereg = 3;
  nactvar = 1;
  maxstacksize = 4;
  lastline = 2;
  k = [];
  h = [];
}

abbrev first_fixed : FuncState
first_fixed = record two_jumps { code = set two_jumps.code 0 (setarg_sbx 0x7fff8016 (pos 1)) }

fixes : fixjump 0 (pos 2) two_jumps ≡ ok (tt, first_fixed)
unfolding fixjump Int.◌-ℤ◌
fixes = refl

some-injective : (m n : ℕ) → some m ≡ some n → m ≡ n
some-injective m n e = cc

two_jumps_words : (i x : ℕ) → get_elem? two_jumps.code i ≡ some x → x < 2 ^ 32
two_jumps_words zero x e = omega (arith, some-injective 0x7fff8016 x e)
two_jumps_words (suc zero) x e = omega (arith, some-injective 0x7fff8016 x e)
two_jumps_words (suc (suc zero)) x e = omega (arith, some-injective 0x0080001e x e)
two_jumps_words (suc (suc (suc i))) x e = cc

two_ne_zero : pos 2 ≢ pos 0
two_ne_zero e = cc

getjump-fixjump_example : Fixed two_jumps first_fixed 0 (pos 2)
getjump-fixjump_example =
    getjump-fixjump two_jumps first_fixed 0 (pos 2) fixes (two_jumps_words 0) two_ne_zero

first_list : Jumps two_jumps (pos 0) (0 ∷ [])
unfolding getjump Opcodes.getarg_sbx Opcodes.getarg_bx Int.◌-ℤ◌
first_list = (refl, (no_jump, refl, refl))

second_list : Jumps two_jumps (pos 1) (1 ∷ [])
unfolding getjump Opcodes.getarg_sbx Opcodes.getarg_bx Int.◌-ℤ◌
second_list = (refl, (no_jump, refl, refl))

zero_ne_one : ◌≢◌ {A = ℕ} 0 1
zero_ne_one e = absurd (omega (arith, e))

concat-Jumps_example :
    (concat (pos 0) (pos 1) two_jumps ≡ err (codes "control structure too long"))
    ⊎ ((l : ℤ) × (fs : FuncState) × (concat (pos 0) (pos 1) two_jumps ≡ ok (l, fs))
        × Jumps fs l (0 ∷ 1 ∷ []))
concat-Jumps_example =
    concat-Jumps two_jumps (pos 0) (pos 1) 0 1 [] [] first_list second_list (zero_ne_one, tt)
      (omega arith) two_jumps_words

reserveregs-InFrame_example :
    ((maxstack ≤ 3 + 5)
      × (reserveregs 5 two_jumps ≡ err (codes "function or expression too complex")))
    ⊎ ((fs : FuncState) × (reserveregs 5 two_jumps ≡ ok (tt, fs))
        × (fs.freereg ≡ 3 + 5)
        × (4 ≤ fs.maxstacksize)
        × (fs.code ≡ two_jumps.code)
        × InFrame fs)
reserveregs-InFrame_example =
    reserveregs-InFrame 5 two_jumps (record { inside = omega arith; limited = omega arith })

patched : patchlist (pos 0) 2 two_jumps ≡ ok (tt, first_fixed)
unfolding patchlist Codegen.patchlistaux Codegen.patchtestreg Codegen.getjumpcontrol Codegen.retest
    fixjump getjump Opcodes.getarg_sbx Opcodes.getarg_bx Opcodes.get_opcode Opcodes.get_opcode_num
    Opcodes.opcode_of Opcodes.op_num Int.◌-ℤ◌ Int.◌+ℤ◌
patched = refl

jump_is_plain : is_op op_testset (get_opcode 0x7fff8016) ≡ false
unfolding Opcodes.get_opcode Opcodes.get_opcode_num Opcodes.opcode_of Opcodes.op_num
jump_is_plain = refl

two_ne_three : ◌≢◌ {A = ℕ} 2 3
two_ne_three e = absurd (omega (arith, e))

patchlist-leads_example :
    ((getjump 0 first_fixed ≡ ok (pos 2, first_fixed)) × Unit {0})
    × ((q w : ℕ)
        → get_elem? two_jumps.code q ≡ some w
        → is_op op_testset (get_opcode w) ≡ false
        → (0 ≢ q) × Unit {0}
        → get_elem? first_fixed.code q ≡ some w)
patchlist-leads_example =
    patchlist-leads two_jumps first_fixed (pos 0) 2 (0 ∷ []) two_ne_three first_list
      ((0x7fff8016, refl, omega arith, jump_is_plain), tt) (tt, tt) (two_ne_zero, tt) patched

-- the constants of `two_jumps`, with the number 7 among them
abbrev with_seven : FuncState
with_seven = record two_jumps { k = number 7 ∷ []; h = (number 7, 0) ∷ [] }

with_seven_table : InTable naturals with_seven
unfolding index_of
with_seven_table = record { entries = entries }
  where
    entries :
        (c : Constant) (i : ℕ)
        → index_of naturals c with_seven.h ≡ some i
        → IsAt naturals with_seven i c
    entries c i e = elim (Bool-cases (same_constant naturals (number 7) c)) [
      | inl same ↦
          let k = rw (index_of, same) at e in
          let i' : 0 ≡ i = cc in (number 7, ap (λ (x : ℕ). get_elem? with_seven.k x) (sym i'), same)
      | inr other ↦ cc (rw (index_of, other) at e)
    ]

eight_is_itself : same_constant naturals (number 8) (number 8) ≡ true
unfolding same_constant
eight_is_itself = refl

addk-Added_example :
    ((maxarg_bx ≤ 1)
      × (addk naturals (number 8) with_seven ≡ err (codes "constant table overflow")))
    ⊎ ((i : ℕ) × (fs : FuncState) × (addk naturals (number 8) with_seven ≡ ok (i, fs))
        × Added naturals with_seven fs (number 8) i)
addk-Added_example = addk-Added naturals (number 8) with_seven with_seven_table eight_is_itself

-- the arithmetic of natural numbers
abbrev natural_arithmetic : Arithmetic
natural_arithmetic = record {
  numadd = λ a b. a + b;
  numsub = λ a b. a - b;
  nummul = λ a b. a * b;
  numdiv = λ a b. a / b;
  nummod = λ a b. a % b;
  numpow = λ a b. a ^ b;
  numunm = λ a. 0 - a;
  is_zero = λ a. a == 0;
  zero_num = 0;
}

-- register 2 and constant 1
abbrev second_register : ExpDesc
second_register = record { kind = vnonreloc; info = 2; aux = 0; nval = 0; t = no_jump; f = no_jump }

abbrev first_constant : ExpDesc
first_constant = record { kind = vk; info = 1; aux = 0; nval = 0; t = no_jump; f = no_jump }

posfix-compares_example :
    (e : ExpDesc) × (t : FuncState) × (i : ℕ) × (posfix naturals natural_arithmetic opr_ge
        second_register first_constant two_jumps
      ≡ ok (e, t))
    × (e.kind ≡ vjmp)
    × (e.info ≡ 4)
    × (get_elem? t.code 3 ≡ some i)
    × (takes_jump (λ x y. x == y) (λ x y. ltb x y) (λ x y. leb x y) i
        ≡ some (means (λ x y. x == y) (λ x y. ltb x y) (λ x y. leb x y) opr_ge 2 257))
unfolding Opcodes.rk_as_k
posfix-compares_example =
    posfix-compares naturals natural_arithmetic (λ x y. x == y) (λ x y. ltb x y) (λ x y. leb x y)
      opr_ge second_register first_constant 2 257 two_jumps ge_compares
      (in_register 2 0 0 (omega arith)) (constant 1 0 0 (omega arith))
      (record { no_pending = refl; room = omega arith; filled = omega arith })
