-- ===== src/Codegen/Operators/Emit.antt =====
-- The code that a comparison of two settled operands emits.
use cpplua.Prelude.{
  ℕ, zero, suc, ◌+◌, ◌-◌, ◌^◌, ◌≤◌, ◌<◌, ◌≡◌, refl, true, false, ◌&&◌, some, List, [], ◌∷◌, length,
  get_elem?, leb, arith, Bool-cases, inl, inr,
}
use mathlib.Core.Bool.{not}
use cpplua.Prelude.Int.{pos}
use cpplua.Prelude.Limits.{max_int}
use cpplua.Prelude.Outcome.{ok, ◌>>=◌, ◌>>◌}
use cpplua.Opcodes.{is_k, OpCode, op_jmp, create_abc, create_abx, maxarg_sbx, rk_as_k, maxindex_rk}
use cpplua.Table.{Numbers}
use cpplua.Codegen.{
  FuncState, no_jump, put, code, code_abc, code_abx, jump, condjump, concat, free_register,
  dischargejpc, patchlistaux,
}
use cpplua.Codegen.Expr.{
  vk, vjmp, vnonreloc, ExpDesc, freeexp, exp2rk, exp2val, exp2anyreg, dischargevars,
}
use cpplua.Codegen.Operators.{Arithmetic, exchange, codecomp}

-- an operand in a register or among the constants, with no jumps, and how an instruction names it
pub data Settled : ExpDesc → ℕ → Type 0 where
  in_register :
      (r aux nval : ℕ)
      → r < 256
      → Settled
          (record { kind = vnonreloc; info = r; aux = aux; nval = nval; t = no_jump; f = no_jump })
          r
  constant :
      (i aux nval : ℕ)
      → i < 256
      → Settled
          (record { kind = vk; info = i; aux = aux; nval = nval; t = no_jump; f = no_jump })
          (rk_as_k i)

module _ (num : Numbers) where
  exp2rk-Settled :
      (e : ExpDesc) (o : ℕ) (fs : FuncState) → Settled e o → exp2rk num e fs ≡ ok ((e, o), fs)
  unfolding exp2rk exp2val exp2anyreg dischargevars
  exp2rk-Settled _ _ fs (in_register r aux nval h) = refl
  exp2rk-Settled _ _ fs (constant i aux nval h) =
      (let small : leb i maxindex_rk ≡ true = ground (arith, h) in rw (exp2rk, small) refl)

freeexp-Settled :
    (e : ExpDesc) (o : ℕ) (fs : FuncState)
    → Settled e o
    → (n : ℕ) × (freeexp e fs ≡ ok (tt, record fs { freereg = n }))
unfolding freeexp free_register
freeexp-Settled _ _ fs (in_register r aux nval h) =
    elim (Bool-cases (not (is_k r) && leb fs.nactvar r)) [
      | inl e ↦ (fs.freereg - 1, rw (free_register, e) refl)
      | inr e ↦ (fs.freereg, rw (free_register, e) refl)
    ]
freeexp-Settled _ _ fs (constant i aux nval h) = (fs.freereg, refl)

pub Settled-small : (e : ExpDesc) (o : ℕ) → Settled e o → o < 2 ^ 9
unfolding rk_as_k
Settled-small _ _ (in_register r aux nval h) = omega (arith, h)
Settled-small _ _ (constant i aux nval h) = omega (arith, h)

get_elem?-put_self : (xs : List ℕ) (n v : ℕ) → n ≤ length xs → get_elem? (put xs n v) n ≡ some v
get_elem?-put_self [] zero v h = refl
get_elem?-put_self [] (suc n) v h = absurd (omega (arith, h))
get_elem?-put_self (x ∷ xs) zero v h = refl
get_elem?-put_self (x ∷ xs) (suc n) v h = get_elem?-put_self xs n v (omega (arith, h))

get_elem?-put_before :
    (xs : List ℕ) (n v w : ℕ) → get_elem? xs n ≡ some w → get_elem? (put xs (suc n) v) n ≡ some w
get_elem?-put_before [] n v w h = cc
get_elem?-put_before (x ∷ xs) zero v w h = h
get_elem?-put_before (x ∷ xs) (suc n) v w h = get_elem?-put_before xs n v w h

-- a function in the midst of its code, with no jump pending
pub record IsReady (fs : FuncState) : Type 0 where
  pub no_pending : fs.jpc ≡ no_jump
  pub room : fs.pc + 1 < max_int
  pub filled : fs.pc ≤ length fs.code

abbrev pub emitted : ℕ → FuncState → FuncState
emitted i fs = record fs {
  code = put fs.code fs.pc i;
  lineinfo = put fs.lineinfo fs.pc fs.lastline;
  pc = suc fs.pc;
  jpc = no_jump;
}

dischargejpc-none :
    (fs : FuncState) → fs.jpc ≡ no_jump → dischargejpc fs ≡ ok (tt, record fs { jpc = no_jump })
unfolding dischargejpc patchlistaux
dischargejpc-none fs h = rw (dischargejpc, h) refl

code-emits :
    (i : ℕ) (fs : FuncState)
    → fs.jpc ≡ no_jump
    → fs.pc < max_int
    → code i fs.lastline fs ≡ ok (fs.pc, emitted i fs)
unfolding code
code-emits i fs none_pending room =
    let small : leb max_int fs.pc ≡ false = ground (arith, room) in
    rw (code, ◌>>◌, ◌>>=◌, dischargejpc-none fs none_pending) (rw (◌>>=◌, small) refl)

abbrev jump_code : ℕ
jump_code = create_abx op_jmp 0 (maxarg_sbx - 1)

jump-emits :
    (fs : FuncState)
    → fs.jpc ≡ no_jump
    → fs.pc < max_int
    → jump fs ≡ ok (pos fs.pc, emitted jump_code fs)
unfolding jump code_abx concat
jump-emits fs none_pending room =
    rw (jump, ◌>>◌, ◌>>=◌, code_abx, code-emits jump_code (record fs { jpc = no_jump }) refl room)
      (rw none_pending refl)

condjump-emits :
    (o : OpCode) (a b c : ℕ) (fs : FuncState)
    → IsReady fs
    → condjump o a b c fs
      ≡ ok (pos (suc fs.pc), emitted jump_code (emitted (create_abc o a b c) fs))
unfolding condjump code_abc
condjump-emits o a b c fs r =
    rw
      (
        condjump,
        code_abc,
        ◌>>=◌,
        code-emits (create_abc o a b c) fs r.no_pending (omega (arith, r.room)),
      )
      (jump-emits (emitted (create_abc o a b c) fs) refl (omega (arith, r.room)))

emitted-code :
    (i : ℕ) (fs : FuncState)
    → fs.pc ≤ length fs.code
    → get_elem? (emitted jump_code (emitted i fs)).code fs.pc ≡ some i
emitted-code i fs h =
    get_elem?-put_before (put fs.code fs.pc i) fs.pc jump_code i
      (get_elem?-put_self fs.code fs.pc i h)

module _ (num : Numbers) (ar : Arithmetic) where
  pub codecomp-emits :
      (o : OpCode) (cond : ℕ) (e1 e2 : ExpDesc) (o1 o2 : ℕ) (fs : FuncState)
      → Settled e1 o1
      → Settled e2 o2
      → IsReady fs
      → let abc = exchange num ar o cond o1 o2 in
        (t : FuncState) × (codecomp num ar o cond e1 e2 fs
          ≡ ok (record e1 { kind = vjmp; info = suc fs.pc }, t))
        × (get_elem? t.code fs.pc ≡ some (create_abc o abc.0 abc.1 abc.2))
  unfolding codecomp
  codecomp-emits o cond e1 e2 o1 o2 fs s1 s2 r =
      let abc = exchange num ar o cond o1 o2 in
      let f2 = freeexp-Settled e2 o2 fs s2 in
      let fs2 : FuncState = record fs { freereg = f2.0 } in
      let f1 = freeexp-Settled e1 o1 fs2 s1 in
      let fs1 : FuncState = record fs2 { freereg = f1.0 } in
      let ready : IsReady fs1 = record {
        no_pending = r.no_pending;
        room = r.room;
        filled = r.filled;
      } in
      let i = create_abc o abc.0 abc.1 abc.2 in
      (
        emitted jump_code (emitted i fs1),
        rw (codecomp, ◌>>=◌, exp2rk-Settled num e1 o1 fs s1)
            (rw (◌>>=◌, exp2rk-Settled num e2 o2 fs s2)
              (rw (◌>>◌, ◌>>=◌, f2.1)
                (rw (◌>>◌, ◌>>=◌, f1.1)
                  (rw (◌>>=◌, condjump-emits o abc.0 abc.1 abc.2 fs1 ready) refl)))),
        emitted-code i fs1 r.filled,
      )
