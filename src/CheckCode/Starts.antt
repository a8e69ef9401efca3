-- ===== src/CheckCode/Starts.antt =====
-- Where instructions start, and how the loop of symbexec goes through them.
use cpplua.Prelude.{
  ℕ, zero, suc, ◌+◌, ◌≤◌, ◌<◌, ◌≡◌, refl, sym, ◌∙◌, true, ◌&&◌, none, some, arith, ◌==◌,
  if◌then◌else◌, get_elem?, ◌⊎◌, inl, inr, Bool-cases, Option-cases, lt→ltb, get_elem?-lt,
  get_elem?-some, ◌≢◌,
}
use cpplua.Prelude.Int.{ℤ}
use cpplua.Prelude.Outcome.{ok}
use cpplua.Opcodes.{
  OpCode, get_opcode, getarg_c, no_reg, op_forloop, op_forprep, op_jmp, op_setlist, op_num,
}
use cpplua.Proto.{Proto, header}
use cpplua.CheckCode.{
  has_count, sizecode, check_instr, follow, moves, symb_loop, is_op, ◌>>=◌, last_change, bind-ok,
}

-- the words of an instruction: a SETLIST may be followed by its count
unfoldable pub width : ℕ → ℕ
width i = if is_op op_setlist (get_opcode i) && getarg_c i == 0 then 2 else 1

module _ (pt : Proto) where
  -- an instruction starts at `q`
  pub data Starts : ℕ → Type 0 where
    first : Starts 0
    next :
        {p q i : ℕ} → Starts p → get_elem? (header pt).code p ≡ some i → q ≡ p + width i → Starts q

  follow-no_reg : (lastpc pc : ℕ) (b : ℤ) → follow pt lastpc no_reg pc b ≡ pc
  unfolding follow
  follow-no_reg lastpc pc b = ground arith

  moves-no_reg :
      (op : OpCode) (lastpc pc i : ℕ)
      → get_opcode i ≡ some op
      → moves pt op lastpc no_reg pc i + 1 ≡ pc + width i
  unfolding moves width op_num
  moves-no_reg op_forloop lastpc pc i e = rw (follow-no_reg, e) (omega arith)
  moves-no_reg op_forprep lastpc pc i e = rw (follow-no_reg, e) (omega arith)
  moves-no_reg op_jmp lastpc pc i e = rw (follow-no_reg, e) (omega arith)
  moves-no_reg op_setlist lastpc pc i e = rw e (ground arith)
  moves-no_reg _ lastpc pc i e = rw e (omega arith)

  -- the full check goes on from `p` and succeeds
  pub record Passes (p : ℕ) : Type 0 where
    pub fuel : ℕ
    pub last : ℕ
    pub result : ℕ
    pub run : symb_loop pt fuel (sizecode pt) no_reg p last ≡ ok result

  pub record Checked (p i : ℕ) : Type 0 where
    pub op : OpCode
    pub decodes : get_opcode i ≡ some op
    pub passed : check_instr pt p i op ≡ ok tt
    pub onward : Passes (p + width i)

  -- what one round of the loop does, where there is an instruction
  symb_round :
      (fuel p last i : ℕ) (op : OpCode)
      → p < sizecode pt
      → get_elem? (header pt).code p ≡ some i
      → get_opcode i ≡ some op
      → symb_loop pt (suc fuel) (sizecode pt) no_reg p last ≡ (
          check_instr pt p i op >>= λ _.
          symb_loop pt fuel
            (sizecode pt)
            no_reg
            (moves pt op (sizecode pt) no_reg p i + 1)
            (last_change pt op no_reg p last i))
  unfolding symb_loop
  symb_round fuel p last i op h e d =
      let t = lt→ltb p (sizecode pt) h in rw (t, e, d, symb_loop) refl

  no_opcode :
      (fuel p last result i : ℕ)
      → p < sizecode pt
      → get_elem? (header pt).code p ≡ some i
      → get_opcode i ≡ none
      → symb_loop pt (suc fuel) (sizecode pt) no_reg p last ≢ ok result
  unfolding symb_loop
  no_opcode fuel p last result i h e d = ground arith

  pub symb_step :
      (fuel p last result i : ℕ)
      → p < sizecode pt
      → get_elem? (header pt).code p ≡ some i
      → symb_loop pt fuel (sizecode pt) no_reg p last ≡ ok result
      → Checked p i
  symb_step zero p last result i h e run = unfold symb_loop in ground arith
  symb_step (suc fuel) p last result i h e run = elim (Option-cases (get_opcode i)) [
    | inl none_such ↦ absurd (no_opcode fuel p last result i h e none_such run)
    | inr (op, d) ↦
        let (_, passed, rest) =
          bind-ok (check_instr pt p i op) _ (sym (symb_round fuel p last i op h e d) ∙ run) in
        record {
          op = op;
          decodes = d;
          passed = passed;
          onward = record {
            fuel = fuel;
            last = _;
            result = result;
            run = rw (moves-no_reg op (sizecode pt) p i d) at rest;
          };
        }
  ]

  pub some_code : (p : ℕ) → p < sizecode pt → (i : ℕ) × (get_elem? (header pt).code p ≡ some i)
  some_code p h = get_elem?-lt (header pt).code p h

  pub Starts_passes : {q : ℕ} → Passes 0 → Starts q → Passes q
  Starts_passes whole first = whole
  Starts_passes whole (next {p = p} {i = i} s e k) =
      let from = Starts_passes whole s in
      rw k (symb_step from.fuel p from.last from.result i (get_elem?-some _ p e) e from.run).onward

  -- every position is the start of an instruction, or the count behind a SETLIST
  pub covered :
      (q : ℕ)
      → q ≤ sizecode pt
      → Starts q
        ⊎ ((p : ℕ) × (i : ℕ) × (q ≡ p + 1)
            × Starts p
            × (get_elem? (header pt).code p ≡ some i)
            × (has_count pt i ≡ true))
  covered zero h = inl first
  covered (suc q) h = elim (covered q (omega arith)) [
    | inl s ↦
        let (i, e) = some_code q h in
        elim (Bool-cases (has_count pt i)) [
          | inl counted ↦ inr (q, i, omega arith, s, e, counted)
          | inr plain ↦ inl (next {q = suc q} s e (unfold width in rw plain (omega arith)))
        ]
    | inr (p, i, e, s, at_p, counted) ↦
        inl (next {q = suc q} s at_p (unfold width in rw counted (omega arith)))
  ]
