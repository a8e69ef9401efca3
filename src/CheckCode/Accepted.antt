-- ===== src/CheckCode/Accepted.antt =====
-- What the checker promises of the code that it accepts.
use cpplua.Prelude.{
  ℕ, ◌+◌, ◌-◌, ◌<◌, ◌≡◌, refl, sym, ap, ◌∙◌, true, false, Option, none, some, arith, ltb, get_elem?,
  inl, inr, get_elem?-lt, get_elem?-some,
}
use cpplua.Prelude.Int.{ℤ, pos, negsuc, ◌+ℤ◌}
use cpplua.Prelude.Outcome.{ok, err, fault, stuck}
use cpplua.Opcodes.{
  OpCode, asbx, arg_r, get_opcode, getarg_a, getarg_sbx, no_reg, get_op_mode, get_b_mode,
  test_t_mode, op_jmp, op_forloop, op_forprep,
}
use cpplua.Opcodes.{op_num, opcode_of}
use cpplua.Opcodes.Fields.{opcode_of-op_num}
use cpplua.Proto.{Proto, header}
use cpplua.CheckCode.{
  Check, is_op, has_count, sizecode, check, check_operands, check_dest, check_skip, check_op,
  check_instr, symb_loop, symbexec, precheck, checkcode, ◌>>=◌, bind-ok, h,
}
use cpplua.CheckCode.Starts.{Starts, Passes, Checked, Starts_passes, symb_step, covered}

asbx_mode : (op : OpCode) → get_op_mode op ≡ asbx → get_b_mode op ≡ arg_r
unfolding get_op_mode get_b_mode
asbx_mode op_jmp e = refl
asbx_mode op_forloop e = refl
asbx_mode op_forprep e = refl
asbx_mode _ e = cc

pub is_op-eq : (o : OpCode) (x : Option OpCode) → is_op o x ≡ true → x ≡ some o
is_op-eq o none e = cc
is_op-eq o (some o') e =
    let same : op_num o ≡ op_num o' = ground arith in
    sym (opcode_of-op_num o') ∙ ap opcode_of (sym same) ∙ opcode_of-op_num o

module _ (pt : Proto) where
  operands_asbx :
      (p i : ℕ) (op : OpCode)
      → get_b_mode op ≡ arg_r
      → check_operands pt asbx op p i ≡ check_dest pt p (getarg_sbx i)
  unfolding check_operands
  operands_asbx p i op e = rw (e, check_operands)

  skips_lem :
      (p : ℕ) (op : OpCode) {u : Unit {0}}
      → test_t_mode op ≡ true
      → check_skip pt op p ≡ ok u
      → (p + 2 < sizecode pt)
        × ((j : ℕ) → get_elem? (h pt).code (p + 1) ≡ some j → is_op op_jmp (get_opcode j) ≡ true)
  unfolding check_skip
  skips_lem p op t e = (ground arith, λ j ej. ground arith)

  landing :
      (p : ℕ) (b : ℤ) {u : Unit {0}}
      → check_dest pt p b ≡ ok u
      → (d : ℕ) × (pos (p + 1) +ℤ b ≡ pos d)
        × (d < sizecode pt)
        × (0 < d → (x : ℕ) × (get_elem? (h pt).code (d - 1) ≡ some x) × (has_count pt x ≡ false))
  unfolding check_dest
  landing p b e = from (pos (p + 1) +ℤ b) refl
    where
      from :
          (z : ℤ)
          → pos (p + 1) +ℤ b ≡ z
          → (d : ℕ) × (z ≡ pos d)
            × (d < sizecode pt)
            × (0 < d
                → (x : ℕ) × (get_elem? (h pt).code (d - 1) ≡ some x) × (has_count pt x ≡ false))
      from (negsuc n) k = absurd (ground arith)
      from (pos d) k =
          let inside : d < sizecode pt = ground arith in
          (
            d,
            refl,
            inside,
            λ above.
                let (x, ex) = get_elem?-lt (h pt).code (d - 1) (omega arith) in
                (x, ex, ground arith),
          )

  module _ (accepted : checkcode pt ≡ ok true) where
    runs : (i : ℕ) × (symbexec pt (sizecode pt) no_reg ≡ ok i)
    unfolding checkcode
    runs = from (symbexec pt (sizecode pt) no_reg) refl
      where
        from :
            (r : Check ℕ)
            → symbexec pt (sizecode pt) no_reg ≡ r
            → (i : ℕ) × (symbexec pt (sizecode pt) no_reg ≡ ok i)
        from (ok i) e = (i, e)
        from (err x) e = cc
        from fault e = cc
        from stuck e = cc

    whole : Passes pt 0
    unfolding symbexec
    whole =
        let (i, e) = runs in
        let (_, _, e1) = bind-ok (precheck pt) _ e in
        let (last, e2, _) =
          bind-ok (symb_loop pt (sizecode pt) (sizecode pt) no_reg 0 (sizecode pt - 1)) _ e1 in
        record { fuel = sizecode pt; last = sizecode pt - 1; result = last; run = e2 }

    checked : {p i : ℕ} → Starts pt p → get_elem? (header pt).code p ≡ some i → Checked pt p i
    checked {p} {i} s e =
        let from = Starts_passes pt whole s in
        symb_step pt from.fuel p from.last from.result i (get_elem?-some _ p e) e from.run

    -- the parts of one instruction's checks
    module _ (p i : ℕ) (op : OpCode) (passed : check_instr pt p i op ≡ ok tt) where
      rest1 :
          (check_operands pt (get_op_mode op) op p i >>= λ _.
          check_skip pt op p >>= λ _. check_op pt op p i)
          ≡ ok tt
      unfolding check_instr
      rest1 = let (_, _, e) = bind-ok (check (ltb (getarg_a i) (h pt).maxstacksize)) _ passed in e

      operands : check_operands pt (get_op_mode op) op p i ≡ ok tt
      operands = let (_, e, _) = bind-ok (check_operands pt (get_op_mode op) op p i) _ rest1 in e

      skips : check_skip pt op p ≡ ok tt
      skips =
          let (_, _, e) = bind-ok (check_operands pt (get_op_mode op) op p i) _ rest1 in
          let (_, e', _) = bind-ok (check_skip pt op p) _ e in e'

      lands : get_op_mode op ≡ asbx → check_dest pt p (getarg_sbx i) ≡ ok tt
      lands m = sym (operands_asbx p i op (asbx_mode op m)) ∙ rw m at operands

      followed :
          test_t_mode op ≡ true
          → (p + 2 < sizecode pt)
            × ((j : ℕ) → get_elem? (h pt).code (p + 1) ≡ some j → get_opcode j ≡ some op_jmp)
      followed t =
          let (fits, jump) = skips_lem p op t skips in
          (fits, λ j e. is_op-eq op_jmp (get_opcode j) (jump j e))

module _ (pt : Proto) (accepted : checkcode pt ≡ ok true) {p i : ℕ} (s : Starts pt p)
    (e : get_elem? (header pt).code p ≡ some i) where
  -- In code that luaG_checkcode accepts, every instruction has an opcode.
  pub checked_opcode : (op : OpCode) × (get_opcode i ≡ some op)
  checked_opcode = let c = checked pt accepted s e in (c.op, c.decodes)

  -- In code that luaG_checkcode accepts, every jump lands inside the code, on the start of an
  -- instruction and never on the count behind a SETLIST.
  pub checked_jumps :
      (op : OpCode)
      → get_opcode i ≡ some op
      → get_op_mode op ≡ asbx
      → (d : ℕ) × (pos (p + 1) +ℤ getarg_sbx i ≡ pos d) × (d < sizecode pt) × Starts pt d
  checked_jumps op o m =
      let c = checked pt accepted s e in
      let same : c.op ≡ op = cc (c.decodes, o) in
      let (d, lands_at, inside, behind) =
        landing pt p _ (lands pt accepted p i c.op c.passed (rw same m)) in
      elim (covered pt d (omega arith)) [
        | inl start ↦ (d, lands_at, inside, start)
        | inr (q, x, k, _, ex, counted) ↦
            let (x', ex', plain) = behind (omega arith) in
            let k' : d - 1 ≡ q = omega arith in
            absurd (ground (arith, rw k' at ex', ex, counted, plain))
      ]

  -- In code that luaG_checkcode accepts, every test is followed by a jump, and by a further instruction
  -- behind that, so that `pc++` after a test stays inside the code.
  pub checked_tests :
      (op : OpCode)
      → get_opcode i ≡ some op
      → test_t_mode op ≡ true
      → (p + 2 < sizecode pt)
        × ((j : ℕ) × (get_elem? (header pt).code (p + 1) ≡ some j) × (get_opcode j ≡ some op_jmp))
  checked_tests op o t =
      let c = checked pt accepted s e in
      let same : c.op ≡ op = cc (c.decodes, o) in
      let (fits, jump) = followed pt accepted p i c.op c.passed (rw same t) in
      let (j, ej) = get_elem?-lt (header pt).code (p + 1) (omega arith) in
      (fits, (j, ej, jump j ej))
