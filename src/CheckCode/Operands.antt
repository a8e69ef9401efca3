-- ===== src/CheckCode/Operands.antt =====
-- ldebug.cpp: the checks that symbexec makes of the operands of one instruction.
use cpplua.Prelude.{
  ℕ, ◌+◌, ◌-◌, ◌≤◌, ◌<◌, ◌≡◌, ◌≢◌, List, ◌==◌, ◌/◌, ◌%◌, ◌&&◌, refl, ap, ◌∙◌, Bool, true, false,
  Option, none, some, arith, leb, ltb, length, get_elem?, ◌⊎◌, inl, inr, Bool-cases, ltb→lt, leb→le,
}
use cpplua.Prelude.Outcome.{ok, err}
use cpplua.Opcodes.{
  OpMode, getarg_bx, abx, op_getupval, op_setupval, op_getglobal, op_setglobal, op_self, op_concat,
  op_tforloop, op_return, op_setlist, op_call, op_tailcall, op_closure, op_vararg, op_loadbool,
  OpCode, abc, asbx, OpArgMask, arg_n, arg_u, arg_r, arg_k, getarg_a, getarg_b, getarg_c,
  get_b_mode, get_c_mode, is_k, index_k, op_forloop, op_forprep,
}
use cpplua.Proto.{Proto, header}
use cpplua.Proto.{Constant, string, sizep, proto_at, nested}
use mathlib.Core.Bool.{not}
use cpplua.CheckCode.{
  at, check_open, when, check_reg, check_string, check_call, check_closure, check_vararg, Check,
  sizecode, check, check_arg_mode, check_operands, check_op, bind-ok, h,
}

pub check-ok : (b : Bool) {u : Unit {0}} → check b ≡ ok u → b ≡ true
check-ok b e = ground arith

at-ok : {A : Type 0} (o : Option A) {x : A} → at o ≡ ok x → o ≡ some x
at-ok none e = cc
at-ok (some y) e = cc

when-ok :
    (b : Bool) (c : Check (Unit {0})) {u : Unit {0}} → when b c ≡ ok u → (b ≡ false) ⊎ (c ≡ ok u)
when-ok true c e = inr e
when-ok false c e = inl refl

module _ (pt : Proto) where
  -- a register operand is inside the frame, and a constant operand is inside the constant table
  abbrev pub ArgFits : ℕ → OpArgMask → Type 0
  ArgFits r arg_n = r ≡ 0
  ArgFits r arg_u = Unit
  ArgFits r arg_r = r < (h pt).maxstacksize
  ArgFits r arg_k =
      ((is_k r ≡ true) × (index_k r < length (h pt).k))
      ⊎ ((is_k r ≡ false) × (r < (h pt).maxstacksize))

  -- the operands that the opcode's format and masks name, for an instruction in any format; where a jump
  -- goes is a matter of its own
  abbrev pub OperandsFit : OpMode → OpCode → ℕ → Type 0
  OperandsFit abc op i = ArgFits (getarg_b i) (get_b_mode op) × ArgFits (getarg_c i) (get_c_mode op)
  OperandsFit abx op i = (get_b_mode op ≢ arg_k) ⊎ (getarg_bx i < length (h pt).k)
  OperandsFit asbx op i = Unit

  -- what `op` needs beyond its masks
  abbrev pub CaseFits : OpCode → ℕ → ℕ → Type 0
  CaseFits op_getupval pc i = getarg_b i < (h pt).nups
  CaseFits op_setupval pc i = getarg_b i < (h pt).nups
  CaseFits op_getglobal pc i =
      (s : Option (List ℕ)) × (get_elem? (h pt).k (getarg_bx i) ≡ some (string s))
  CaseFits op_setglobal pc i =
      (s : Option (List ℕ)) × (get_elem? (h pt).k (getarg_bx i) ≡ some (string s))
  CaseFits op_self pc i = getarg_a i + 1 < (h pt).maxstacksize
  CaseFits op_concat pc i = getarg_b i < getarg_c i
  CaseFits op_tforloop pc i = (1 ≤ getarg_c i) × (getarg_a i + 2 + getarg_c i < (h pt).maxstacksize)
  CaseFits op_forloop pc i = getarg_a i + 3 < (h pt).maxstacksize
  CaseFits op_forprep pc i = getarg_a i + 3 < (h pt).maxstacksize
  CaseFits op_return pc i =
      (getarg_b i ≤ 1) ⊎ (getarg_a i + (getarg_b i - 1) - 1 < (h pt).maxstacksize)
  CaseFits op_setlist pc i = (getarg_b i ≡ 0) ⊎ (getarg_a i + getarg_b i < (h pt).maxstacksize)
  CaseFits op_call pc i =
      ((getarg_b i ≡ 0) ⊎ (getarg_a i + getarg_b i - 1 < (h pt).maxstacksize))
      × ((getarg_c i ≤ 1) ⊎ (getarg_a i + (getarg_c i - 1) - 1 < (h pt).maxstacksize))
  CaseFits op_tailcall pc i =
      ((getarg_b i ≡ 0) ⊎ (getarg_a i + getarg_b i - 1 < (h pt).maxstacksize))
      × ((getarg_c i ≤ 1) ⊎ (getarg_a i + (getarg_c i - 1) - 1 < (h pt).maxstacksize))
  CaseFits op_closure pc i =
      (f : Proto) × (proto_at (nested pt) (getarg_bx i) ≡ some f)
      × (pc + (header f).nups < sizecode pt)
  CaseFits op_loadbool pc i = (getarg_c i ≡ 0) ⊎ (pc + 2 < sizecode pt)
  CaseFits op_vararg pc i = getarg_a i + getarg_b i < (h pt).maxstacksize + 2
  CaseFits _ pc i = Unit

  ArgFits-of_check :
      (r : ℕ) (m : OpArgMask) {u : Unit {0}} → check_arg_mode pt r m ≡ ok u → ArgFits r m
  unfolding check_arg_mode
  ArgFits-of_check r arg_n e = ground arith
  ArgFits-of_check r arg_u e = tt
  ArgFits-of_check r arg_r e = ground arith
  ArgFits-of_check r arg_k e = elim (Bool-cases (is_k r)) [
    | inl k ↦ inl (k, ground arith)
    | inr k ↦ inr (k, ground arith)
  ]

  pub OperandsFit-of_check :
      (m : OpMode) (op : OpCode) (p i : ℕ) → check_operands pt m op p i ≡ ok tt → OperandsFit m op i
  unfolding check_operands
  OperandsFit-of_check abc op p i e =
      let (_, eb, ec) = bind-ok (check_arg_mode pt (getarg_b i) (get_b_mode op)) _ e in
      (ArgFits-of_check _ _ eb, ArgFits-of_check _ _ ec)
  OperandsFit-of_check abx op p i e = by_mask (get_b_mode op) e
    where
      by_mask :
          (m : OpArgMask)
          → elim m [ arg_k ↦ check (ltb (getarg_bx i) (length (h pt).k)) | _ ↦ ok tt ] ≡ ok tt
          → (m ≢ arg_k) ⊎ (getarg_bx i < length (h pt).k)
      by_mask arg_k e = inr (ground arith)
      by_mask arg_n e = inl (λ bad. cc)
      by_mask arg_u e = inl (λ bad. cc)
      by_mask arg_r e = inl (λ bad. cc)
  OperandsFit-of_check asbx op p i e = tt

  check_reg-ok : (r : ℕ) {u : Unit {0}} → check_reg pt r ≡ ok u → r < (h pt).maxstacksize
  check_reg-ok r e = ltb→lt _ _ (check-ok _ e)

  string-of_check :
      (b : ℕ) {u : Unit {0}}
      → check_string pt b ≡ ok u
      → (s : Option (List ℕ)) × (get_elem? (h pt).k b ≡ some (string s))
  unfolding check_string
  string-of_check b e =
      let (o, eo, e1) = bind-ok (at (get_elem? (h pt).k b)) _ e in
      let (s, es) = by_kind o e1 in (s, at-ok (get_elem? (h pt).k b) eo ∙ ap some es)
    where
      by_kind :
          (o : Constant) {u : Unit {0}}
          → elim o [ string s ↦ ok tt | _ ↦ err tt ] ≡ ok u
          → (s : Option (List ℕ)) × (o ≡ string s)
      by_kind (string s) e = (s, refl)
      by_kind _ e = cc

  call-of_check :
      (a b c p : ℕ) {u : Unit {0}}
      → check_call pt a b c p ≡ ok u
      → ((b ≡ 0) ⊎ (a + b - 1 < (h pt).maxstacksize))
        × ((c ≤ 1) ⊎ (a + (c - 1) - 1 < (h pt).maxstacksize))
  unfolding check_call
  call-of_check a b c p e =
      let (_, e1, e2) = bind-ok (when (not (b == 0)) (check_reg pt (a + b - 1))) _ e in
      let arguments : (b ≡ 0) ⊎ (a + b - 1 < (h pt).maxstacksize) =
        elim (when-ok (not (b == 0)) (check_reg pt (a + b - 1)) e1) [
          | inl none_named ↦ inl (ground (arith, none_named))
          | inr k ↦ inr (check_reg-ok _ k)
        ] in
      elim (Bool-cases (c == 0)) [
        | inl all ↦ (arguments, inl (ground (arith, all)))
        | inr fixed ↦
            elim (when-ok (not (c == 1)) (check_reg pt (a + (c - 1) - 1)) (rw fixed at e2)) [
              | inl one ↦ (arguments, inl (ground (arith, one, fixed)))
              | inr k ↦ (arguments, inr (check_reg-ok _ k))
            ]
      ]

  vararg-of_check :
      (a b p : ℕ) {u : Unit {0}} → check_vararg pt a b p ≡ ok u → a + b < (h pt).maxstacksize + 2
  unfolding check_vararg
  vararg-of_check a b p e =
      let (_, _, e1) =
        bind-ok (check ((h pt).is_vararg / 2 % 2 == 1 && not ((h pt).is_vararg / 4 % 2 == 1))) _
          e in
      let (_, _, e2) = bind-ok (when (b == 0) (check_open pt p)) _ e1 in ltb→lt _ _ (check-ok _ e2)

  closure-of_check :
      (b p : ℕ) {u : Unit {0}}
      → check_closure pt b p ≡ ok u
      → (f : Proto) × (proto_at (nested pt) b ≡ some f) × (p + (header f).nups < sizecode pt)
  unfolding check_closure
  closure-of_check b p e =
      let (_, _, e1) = bind-ok (check (ltb b (sizep (nested pt)))) _ e in
      let (f, ef, e2) = bind-ok (at (proto_at (nested pt) b)) _ e1 in
      let (_, e3, _) = bind-ok (check (ltb (p + (header f).nups) (sizecode pt))) _ e2 in
      (f, at-ok (proto_at (nested pt) b) ef, ltb→lt _ _ (check-ok _ e3))

  pub CaseFits-of_check : (op : OpCode) (p i : ℕ) → check_op pt op p i ≡ ok tt → CaseFits op p i
  unfolding check_op
  CaseFits-of_check op_getupval p i e = ltb→lt _ _ (check-ok _ e)
  CaseFits-of_check op_setupval p i e = ltb→lt _ _ (check-ok _ e)
  CaseFits-of_check op_getglobal p i e = string-of_check (getarg_bx i) e
  CaseFits-of_check op_setglobal p i e = string-of_check (getarg_bx i) e
  CaseFits-of_check op_self p i e = check_reg-ok _ e
  CaseFits-of_check op_concat p i e = ltb→lt _ _ (check-ok _ e)
  CaseFits-of_check op_tforloop p i e =
      let (_, e1, e2) = bind-ok (check (leb 1 (getarg_c i))) _ e in
      (leb→le _ _ (check-ok _ e1), check_reg-ok _ e2)
  CaseFits-of_check op_forloop p i e = check_reg-ok _ e
  CaseFits-of_check op_forprep p i e = check_reg-ok _ e
  CaseFits-of_check op_return p i e = elim (when-ok (ltb 1 (getarg_b i)) _ e) [
    | inl few ↦ inl (ground (arith, few))
    | inr k ↦ inr (check_reg-ok _ k)
  ]
  CaseFits-of_check op_setlist p i e = elim (when-ok (ltb 0 (getarg_b i)) _ e) [
    | inl few ↦ inl (ground (arith, few))
    | inr k ↦ inr (check_reg-ok _ k)
  ]
  CaseFits-of_check op_call p i e = call-of_check _ _ _ p e
  CaseFits-of_check op_tailcall p i e = call-of_check _ _ _ p e
  CaseFits-of_check op_loadbool p i e = elim (Bool-cases (getarg_c i == 0)) [
    | inl z ↦ inl (ground (arith, z))
    | inr nz ↦ inr (ltb→lt _ _ (check-ok _ (rw nz at e)))
  ]
  CaseFits-of_check op_closure p i e = closure-of_check _ p e
  CaseFits-of_check op_vararg p i e = vararg-of_check _ _ p e
  CaseFits-of_check _ p i e = tt
