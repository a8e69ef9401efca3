-- ===== src/CheckCode/Ends.antt =====
-- The checker reads no array out of bounds and ends, on any code that is not empty.
use cpplua.Prelude.{
  ℕ, zero, suc, ◌+◌, ◌-◌, ◌/◌, ◌%◌, ◌≤◌, ◌<◌, ◌≡◌, refl, Bool, true, false, ◌&&◌, ◌||◌, Option,
  none, some, List, arith, leb, ltb, ◌==◌, if◌then◌else◌, length, [], ◌∷◌, get_elem?, inl, inr,
  Bool-cases, ltb→lt, ◌≢◌, get_elem?-some, dec_lt,
}
use mathlib.Core.Bool.{not}
use cpplua.Prelude.Int.{ℤ, pos, negsuc}
use cpplua.Prelude.Outcome.{ok, err, fault, stuck}
use cpplua.Opcodes.{
  OpCode, OpMode, abc, abx, asbx, OpArgMask, arg_u, arg_r, arg_k, get_opcode, getarg_a, getarg_c,
  getarg_bx, getarg_sbx, get_op_mode, get_b_mode, test_t_mode, test_a_mode,
}
use cpplua.Opcodes.{
  op_loadbool, op_getupval, op_setupval, op_getglobal, op_setglobal, op_self, op_concat,
  op_tforloop, op_forloop, op_forprep, op_jmp, op_call, op_tailcall, op_return, op_setlist,
  op_closure, op_vararg,
}
use cpplua.Proto.{Constant, string, Proto, header, nested, sizep, proto_at, Protos, none_left, more}
use cpplua.CheckCode.{
  Check, is_op, sizecode, code_at, at, check, check_reg, check_arg_mode, check_operands, check_dest,
  check_target, check_skip, check_op, check_string, check_call, check_closure, check_vararg,
  check_open, check_open_op, check_upvalues, check_instr, symb_loop, symbexec, precheck, ◌>>=◌,
  bind-ok, last_code, when, follow, moves, last_change, writes, maxstack,
}
use cpplua.CheckCode.Accepted.{is_op-eq}
use cpplua.CheckCode.Operands.{check-ok}

-- a check that returns or fails
data Ends {A : Type 0} : Check A → Type 0 where
  returns : (a : A) → Ends (ok a)
  fails : (e : Unit {0}) → Ends (err e)

Ends-ne_fault : {A : Type 0} {m : Check A} → Ends m → (m ≢ fault) × (m ≢ stuck)
Ends-ne_fault (returns a) = (λ e. cc, λ e. cc)
Ends-ne_fault (fails x) = (λ e. cc, λ e. cc)

Ends-bind :
    {A B : Type 0} {m : Check A} {f : A → Check B}
    → Ends m
    → ((a : A) → m ≡ ok a → Ends (f a))
    → Ends (m >>= f)
Ends-bind (returns a) k = k a refl
Ends-bind (fails x) k = fails x

Ends-check : (b : Bool) → Ends (check b)
Ends-check true = returns tt
Ends-check false = fails tt

Ends-when : (b : Bool) {m : Check (Unit {0})} → Ends m → Ends (when b m)
Ends-when true e = e
Ends-when false e = returns tt

Ends-if :
    {A : Type 0} (b : Bool) {m n : Check A}
    → (b ≡ true → Ends m)
    → (b ≡ false → Ends n)
    → Ends (if b then m else n)
Ends-if true e k = e refl
Ends-if false e k = k refl

Ends-at : {A : Type 0} (xs : List A) (i : ℕ) → i < length xs → Ends (at (get_elem? xs i))
Ends-at [] i h = absurd (omega arith)
Ends-at (x ∷ xs) zero h = returns x
Ends-at (x ∷ xs) (suc i) h = Ends-at xs i (omega arith)

Ends-proto_at : (ps : Protos) (i : ℕ) → i < sizep ps → Ends (at (proto_at ps i))
Ends-proto_at none_left i h = absurd (omega arith)
Ends-proto_at (more p ps) zero h = returns p
Ends-proto_at (more p ps) (suc i) h = Ends-proto_at ps i (omega arith)

decoded : Option OpCode → Check OpCode
decoded x = elim x [ none ↦ err tt | some op ↦ ok op ]

module _ (pt : Proto) where
  -- `h` fixes the position as inside the code
  Ends-code_at : (i : ℕ) → i < sizecode pt → Ends (code_at pt i)
  Ends-code_at i h = Ends-at (header pt).code i h

  check_target-Ends : (z : ℤ) → Ends (check_target pt z)
  unfolding check_target
  check_target-Ends (negsuc n) = fails tt
  check_target-Ends (pos d) = Ends-bind (Ends-check _) λ u e.
      Ends-if (ltb 0 d)
        (λ t.
          Ends-bind (Ends-code_at (d - 1) (omega (arith, ltb→lt d (sizecode pt) (check-ok _ e))))
            (λ x _. Ends-check _))
        (λ t. returns tt)

  check_dest-Ends : (p : ℕ) (b : ℤ) → Ends (check_dest pt p b)
  unfolding check_dest
  check_dest-Ends p b = check_target-Ends _

  check_arg_mode-Ends : (r : ℕ) (m : OpArgMask) → Ends (check_arg_mode pt r m)
  unfolding check_arg_mode
  check_arg_mode-Ends r arg_u = returns tt
  check_arg_mode-Ends r _ = Ends-check _

  check_operands-Ends : (m : OpMode) (op : OpCode) (p i : ℕ) → Ends (check_operands pt m op p i)
  unfolding check_operands
  check_operands-Ends abc op p i =
      Ends-bind (check_arg_mode-Ends _ _) λ u e. check_arg_mode-Ends _ _
  check_operands-Ends abx op p i = by_mask (get_b_mode op)
    where
      by_mask :
          (m : OpArgMask)
          → Ends (elim m [ arg_k ↦ check (ltb (getarg_bx i) (length (header pt).k)) | _ ↦ ok tt ])
      by_mask arg_k = Ends-check _
      by_mask _ = returns tt
  check_operands-Ends asbx op p i = by_mask (get_b_mode op)
    where
      by_mask :
          (m : OpArgMask) → Ends (elim m [ arg_r ↦ check_dest pt p (getarg_sbx i) | _ ↦ ok tt ])
      by_mask arg_r = check_dest-Ends _ _
      by_mask _ = returns tt

  check_skip-Ends : (op : OpCode) (p : ℕ) → Ends (check_skip pt op p)
  unfolding check_skip
  check_skip-Ends op p =
      Ends-if (test_t_mode op)
        (λ t. Ends-bind (Ends-check _) λ u e.
          Ends-bind
            (Ends-code_at (p + 1) (omega (arith, ltb→lt (p + 2) (sizecode pt) (check-ok _ e))))
            (λ x _. Ends-check _))
        (λ t. returns tt)

  check_open-Ends : (p : ℕ) → p + 1 < sizecode pt → Ends (check_open pt p)
  unfolding check_open check_open_op
  check_open-Ends p h = Ends-bind (Ends-code_at (p + 1) h) λ x _. Ends-check _

  check_call-Ends : (a b c p : ℕ) → p + 1 < sizecode pt → Ends (check_call pt a b c p)
  unfolding check_call
  check_call-Ends a b c p h =
      Ends-bind {m = when (not (b == 0)) (check_reg pt (a + b - 1))}
        {f = λ _.
          if c == 0 then check_open pt p else when (not (c == 1)) (check_reg pt (a + (c - 1) - 1))}
        (Ends-when (not (b == 0)) (Ends-check (ltb (a + b - 1) (header pt).maxstacksize)))
        λ u _.
          Ends-if (c == 0) (λ _. check_open-Ends p h)
            (λ _.
              Ends-when (not (c == 1))
                (Ends-check (ltb (a + (c - 1) - 1) (header pt).maxstacksize)))

  check_vararg-Ends : (a b p : ℕ) → p + 1 < sizecode pt → Ends (check_vararg pt a b p)
  unfolding check_vararg
  check_vararg-Ends a b p h =
      let flags = (header pt).is_vararg / 2 % 2 == 1 && not ((header pt).is_vararg / 4 % 2 == 1) in
      let fits = ltb (a + b) ((header pt).maxstacksize + 2) in
      Ends-bind {m = check flags} {f = λ _. when (b == 0) (check_open pt p) >>= λ _. check fits}
        (Ends-check flags)
        λ u _.
          Ends-bind {m = when (b == 0) (check_open pt p)} {f = λ _. check fits}
            (Ends-when (b == 0) (check_open-Ends p h)) (λ u _. Ends-check fits)

  check_upvalues-Ends : (nup p : ℕ) → p + nup < sizecode pt → Ends (check_upvalues pt nup p)
  unfolding check_upvalues
  check_upvalues-Ends zero p h = returns tt
  check_upvalues-Ends (suc nup) p h =
      Ends-bind (Ends-code_at (p + suc nup) h)
        λ x _. Ends-bind (Ends-check _) λ u _. check_upvalues-Ends nup p (omega arith)

  check_closure-Ends : (b p : ℕ) → Ends (check_closure pt b p)
  unfolding check_closure
  check_closure-Ends b p = Ends-bind (Ends-check _) λ u e.
      Ends-bind (Ends-proto_at (nested pt) b (ltb→lt b _ (check-ok _ e))) λ q _.
        Ends-bind (Ends-check _)
          λ u e'. check_upvalues-Ends (header q).nups p (ltb→lt _ _ (check-ok _ e'))

  string_or_not-Ends : (o : Constant) → Ends (elim o [ string s ↦ ok tt | _ ↦ err tt ])
  string_or_not-Ends (string s) = returns tt
  string_or_not-Ends _ = fails tt

  check_string-Ends : (b : ℕ) → b < length (header pt).k → Ends (check_string pt b)
  unfolding check_string
  check_string-Ends b h = Ends-bind (Ends-at (header pt).k b h) λ o _. string_or_not-Ends o

  getglobal_fits :
      (p i : ℕ)
      → check_operands pt (get_op_mode op_getglobal) op_getglobal p i ≡ ok tt
      → getarg_bx i < length (header pt).k
  unfolding check_operands get_op_mode get_b_mode
  getglobal_fits p i e = ltb→lt _ _ (check-ok _ e)

  setglobal_fits :
      (p i : ℕ)
      → check_operands pt (get_op_mode op_setglobal) op_setglobal p i ≡ ok tt
      → getarg_bx i < length (header pt).k
  unfolding check_operands get_op_mode get_b_mode
  setglobal_fits p i e = ltb→lt _ _ (check-ok _ e)

  check_op-Ends :
      (op : OpCode) (p i : ℕ)
      → check_operands pt (get_op_mode op) op p i ≡ ok tt
      → (op ≢ op_return → p + 1 < sizecode pt)
      → Ends (check_op pt op p i)
  unfolding check_op
  check_op-Ends op_getglobal p i e h = check_string-Ends _ (getglobal_fits p i e)
  check_op-Ends op_setglobal p i e h = check_string-Ends _ (setglobal_fits p i e)
  check_op-Ends op_tforloop p i e h =
      let room = ltb (getarg_a i + 2 + getarg_c i) (header pt).maxstacksize in
      Ends-bind {m = check (leb 1 (getarg_c i))} {f = λ _. check room}
        (Ends-check (leb 1 (getarg_c i))) λ u _. Ends-check room
  check_op-Ends op_call p i e h = check_call-Ends _ _ _ p (h (λ k. cc))
  check_op-Ends op_tailcall p i e h = check_call-Ends _ _ _ p (h (λ k. cc))
  check_op-Ends op_return p i e h = Ends-when _ (Ends-check _)
  check_op-Ends op_setlist p i e h = Ends-when _ (Ends-check _)
  check_op-Ends op_closure p i e h = check_closure-Ends _ p
  check_op-Ends op_vararg p i e h = check_vararg-Ends _ _ p (h (λ k. cc))
  check_op-Ends op_loadbool p i e h = Ends-check _
  check_op-Ends op_getupval p i e h = Ends-check _
  check_op-Ends op_setupval p i e h = Ends-check _
  check_op-Ends op_self p i e h = Ends-check _
  check_op-Ends op_concat p i e h = Ends-check _
  check_op-Ends op_forloop p i e h = Ends-check _
  check_op-Ends op_forprep p i e h = Ends-check _
  check_op-Ends _ p i e h = returns tt

  check_instr-Ends :
      (p i : ℕ) (op : OpCode)
      → (op ≢ op_return → p + 1 < sizecode pt)
      → Ends (check_instr pt p i op)
  unfolding check_instr
  check_instr-Ends p i op h =
      Ends-bind {m = check_reg pt (getarg_a i)}
        (Ends-check (ltb (getarg_a i) (header pt).maxstacksize))
        λ u _.
          Ends-bind (check_operands-Ends (get_op_mode op) op p i)
            λ u e. Ends-bind (check_skip-Ends op p) λ u' _. check_op-Ends op p i e h

  follow-le : (lastpc reg pc : ℕ) (b : ℤ) → pc ≤ follow pt lastpc reg pc b
  unfolding follow
  follow-le lastpc reg pc b = ground arith

  moves-le : (op : OpCode) (lastpc reg pc i : ℕ) → pc ≤ moves pt op lastpc reg pc i
  unfolding moves
  moves-le op_forloop lastpc reg pc i = follow-le lastpc reg pc (getarg_sbx i)
  moves-le op_forprep lastpc reg pc i = follow-le lastpc reg pc (getarg_sbx i)
  moves-le op_jmp lastpc reg pc i = follow-le lastpc reg pc (getarg_sbx i)
  moves-le op_setlist lastpc reg pc i = ground arith
  moves-le _ lastpc reg pc i = omega arith

  last_change-lt :
      (op : OpCode) (reg pc last i : ℕ)
      → pc < sizecode pt
      → last < sizecode pt
      → last_change pt op reg pc last i < sizecode pt
  unfolding last_change
  last_change-lt op reg pc last i h k =
      elim (Bool-cases (test_a_mode op && getarg_a i == reg || writes pt op reg i)) [
        | inl t ↦ rw t h
        | inr t ↦ rw t k
      ]

  -- the code ends in a RETURN
  EndsInReturn : Type 0
  EndsInReturn =
      (i : ℕ)
      → get_elem? (header pt).code (sizecode pt - 1) ≡ some i
      → get_opcode i ≡ some op_return

  -- a result that is a position in the code
  data Bounded : Check ℕ → Type 0 where
    at_last : (last : ℕ) → last < sizecode pt → Bounded (ok last)
    failed : (e : Unit {0}) → Bounded (err e)

  Bounded-bind :
      {A : Type 0} {m : Check A} {f : A → Check ℕ}
      → Ends m
      → ((a : A) → m ≡ ok a → Bounded (f a))
      → Bounded (m >>= f)
  Bounded-bind (returns a) k = k a refl
  Bounded-bind (fails x) k = failed x

  Ends-decoded : (x : Option OpCode) → Ends (decoded x)
  unfolding decoded
  Ends-decoded none = fails tt
  Ends-decoded (some op) = returns op

  decoded-ok : (x : Option OpCode) {op : OpCode} → decoded x ≡ ok op → x ≡ some op
  unfolding decoded
  decoded-ok none e = cc
  decoded-ok (some op) e = cc

  at-ok : {A : Type 0} (x : Option A) {a : A} → at x ≡ ok a → x ≡ some a
  at-ok none e = cc
  at-ok (some a) e = cc

  not_last :
      (pc i : ℕ) (op : OpCode)
      → EndsInReturn
      → pc < sizecode pt
      → get_elem? (header pt).code pc ≡ some i
      → get_opcode i ≡ some op
      → op ≢ op_return
      → pc + 1 < sizecode pt
  unfolding EndsInReturn
  not_last pc i op ret h e d other = elim (dec_lt (pc + 1) (sizecode pt)) [
    | yes k ↦ k
    | no k ↦
        let here : sizecode pt - 1 ≡ pc = omega arith in
        let r = ret i (rw here e) in absurd (other (cc (r, d)))
  ]

  symb_loop-Bounded :
      (fuel lastpc reg pc last : ℕ)
      → EndsInReturn
      → lastpc ≤ sizecode pt
      → lastpc ≤ pc + fuel
      → last < sizecode pt
      → Bounded (symb_loop pt fuel lastpc reg pc last)
  unfolding symb_loop decoded
  symb_loop-Bounded zero lastpc reg pc last ret fits long inside =
      let t : ltb pc lastpc ≡ false = ground arith in rw t (at_last last inside)
  symb_loop-Bounded (suc fuel) lastpc reg pc last ret fits long inside =
      elim (Bool-cases (ltb pc lastpc)) [
        | inr t ↦ rw (t, symb_loop) (at_last last inside)
        | inl t ↦
            let here : pc < sizecode pt = ground arith in
            rw (t, symb_loop)
              (Bounded-bind (Ends-code_at pc here) λ i ei.
                Bounded-bind (Ends-decoded (get_opcode i)) λ op eo.
                  Bounded-bind
                    (check_instr-Ends pc i op
                      (not_last pc i op ret here (at-ok _ ei) (decoded-ok _ eo)))
                    λ u _.
                      symb_loop-Bounded fuel lastpc reg (moves pt op lastpc reg pc i + 1)
                        (last_change pt op reg pc last i) ret fits
                        (omega (arith, moves-le op lastpc reg pc i))
                        (last_change-lt op reg pc last i here inside))
      ]

  Bounded-Ends : {m : Check ℕ} → Bounded m → Ends (m >>= code_at pt)
  Bounded-Ends (at_last last h) = Ends-code_at last h
  Bounded-Ends (failed x) = fails x

  precheck-Ends : 0 < sizecode pt → Ends (precheck pt)
  unfolding precheck last_code
  precheck-Ends h =
      let t : (sizecode pt == 0) ≡ false = ground arith in
      Ends-bind (Ends-check (leb (header pt).maxstacksize maxstack)) λ u _.
        Ends-bind (Ends-check (leb (length (header pt).upvalues) (header pt).nups)) λ u _.
          Ends-bind
            (Ends-check
              (length (header pt).lineinfo == sizecode pt || length (header pt).lineinfo == 0))
            λ u _.
              Ends-bind (rw t (Ends-code_at (sizecode pt - 1) (omega arith)))
                λ i _. Ends-check (is_op op_return (get_opcode i))

  precheck-EndsInReturn : precheck pt ≡ ok tt → EndsInReturn
  unfolding precheck last_code EndsInReturn
  precheck-EndsInReturn e i ei =
      let h = get_elem?-some (header pt).code (sizecode pt - 1) ei in
      let t : (sizecode pt == 0) ≡ false = ground arith in
      let (_, _, e1) = bind-ok (check (leb (header pt).maxstacksize maxstack)) _ e in
      let (_, _, e2) = bind-ok (check (leb (length (header pt).upvalues) (header pt).nups)) _ e1 in
      let (_, _, e3) =
        bind-ok
          (check (length (header pt).lineinfo == sizecode pt || length (header pt).lineinfo == 0)) _
          e2 in
      let (x, ex, e4) = bind-ok (last_code pt) _ e3 in
      let same : x ≡ i = cc (ei, at-ok _ (rw t at ex)) in
      is_op-eq op_return _ (rw same at (check-ok (is_op op_return (get_opcode x)) e4))

-- On a function with at least one instruction, symbexec reads nothing outside the code, the constants
-- and the nested functions, and its loop ends, for any register and any last position in the code.
pub symbexec_safe :
    (pt : Proto) (lastpc reg : ℕ)
    → 0 < sizecode pt
    → lastpc ≤ sizecode pt
    → (symbexec pt lastpc reg ≢ fault) × (symbexec pt lastpc reg ≢ stuck)
unfolding symbexec
symbexec_safe pt lastpc reg h fits = Ends-ne_fault (
    Ends-bind (precheck-Ends pt h) λ u e.
      let b =
        symb_loop-Bounded pt lastpc lastpc reg 0 (sizecode pt - 1) (precheck-EndsInReturn pt e) fits
          (omega arith) (omega arith) in
      Bounded-Ends pt b)
