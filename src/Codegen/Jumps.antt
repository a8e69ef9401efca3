-- ===== src/Codegen/Jumps.antt =====
-- A jump that is fixed leads where it was fixed to.
use cpplua.Prelude.{
  ℕ, zero, suc, ◌+◌, ◌^◌, ◌<◌, ◌≡◌, refl, sym, ap, ◌∙◌, true, false, some, List, [], ◌∷◌, arith,
  get_elem?, set, inl, inr, Bool-cases, Option-cases, ◌≢◌,
}
use cpplua.Prelude.Int.{ℤ, pos, negsuc, ◌+ℤ◌, ◌-ℤ◌, ◌≤ℤ◌, int_laws}
use cpplua.Prelude.Outcome.{ok, ◌>>=◌}
use cpplua.Opcodes.{get_opcode, getarg_sbx, setarg_sbx}
use cpplua.Opcodes.Fields.{getarg_sbx-setarg_sbx}
use cpplua.Codegen.{FuncState, fixjump, getjump, is_no_jump, too_far}

get_elem?-set_same :
    (xs : List ℕ) (i : ℕ) {x : ℕ} (y : ℕ)
    → get_elem? xs i ≡ some x
    → get_elem? (set xs i y) i ≡ some y
get_elem?-set_same [] i y e = cc
get_elem?-set_same (x ∷ xs) zero y e = refl
get_elem?-set_same (x ∷ xs) (suc i) y e = get_elem?-set_same xs i y e

pub get_elem?-set_other :
    (xs : List ℕ) (i j : ℕ) (y : ℕ) → i ≢ j → get_elem? (set xs i y) j ≡ get_elem? xs j
get_elem?-set_other [] i j y h = refl
get_elem?-set_other (x ∷ xs) zero zero y h = absurd (h refl)
get_elem?-set_other (x ∷ xs) zero (suc j) y h = refl
get_elem?-set_other (x ∷ xs) (suc i) zero y h = refl
get_elem?-set_other (x ∷ xs) (suc i) (suc j) y h = get_elem?-set_other xs i j y (λ e. h (ap suc e))

near-bounds : (o : ℤ) → too_far o ≡ false → (negsuc 131070 ≤ℤ o) × (o ≤ℤ pos 131072)
near-bounds (pos n) e = (omega arith, ground (arith, e))
near-bounds (negsuc n) e = (ground (arith, e), omega arith)

offset-back : (p : ℕ) (d : ℤ) → pos (p + 1) +ℤ (d -ℤ pos (p + 1)) ≡ d
offset-back p d = omega int_laws

not_self : (p : ℕ) (d : ℤ) → d ≢ pos p → is_no_jump (d -ℤ pos (p + 1)) ≡ false
not_self p d h = elim (Bool-cases (is_no_jump (d -ℤ pos (p + 1)))) [
  | inr other ↦ other
  | inl same ↦ absurd (h (at_self (d -ℤ pos (p + 1)) same (offset-back p d)))
]
  where
    at_self : (o : ℤ) → is_no_jump o ≡ true → pos (p + 1) +ℤ o ≡ d → d ≡ pos p
    at_self (pos n) e f = cc
    at_self (negsuc (suc n)) e f = cc
    at_self (negsuc zero) e f =
        let back : pos (p + 1) +ℤ negsuc 0 ≡ pos p = omega int_laws in sym f ∙ back

-- what a successful fixjump does to the code
pub record Fixed (fs fs' : FuncState) (p : ℕ) (dest : ℤ) : Type 0 where
  pub leads : getjump p fs' ≡ ok (dest, fs')
  pub others : (q : ℕ) → p ≢ q → get_elem? fs'.code q ≡ get_elem? fs.code q
  pub word :
      (i : ℕ)
      → get_elem? fs.code p ≡ some i
      → (w : ℕ) × (get_elem? fs'.code p ≡ some w) × (get_opcode w ≡ get_opcode i)

fixjump-inv :
    (fs : FuncState) (p : ℕ) (dest : ℤ) {fs' : FuncState}
    → fixjump p dest fs ≡ ok (tt, fs')
    → (i : ℕ) × (get_elem? fs.code p ≡ some i)
      × (too_far (dest -ℤ pos (p + 1)) ≡ false)
      × (fs' ≡ record fs { code = set fs.code p (setarg_sbx i (dest -ℤ pos (p + 1))) })
unfolding fixjump
fixjump-inv fs p dest h = elim (Option-cases (get_elem? fs.code p)) [
  | inl gone ↦ cc (rw (◌>>=◌, gone) at h)
  | inr (i, e) ↦ elim (Bool-cases (too_far (dest -ℤ pos (p + 1)))) [
    | inl far ↦ cc (rw (◌>>=◌, e, far) at h)
    | inr near ↦ let k = rw (◌>>=◌, e, near) at h in (i, e, near, cc)
  ]
]

getjump-of :
    (fs : FuncState) (p w : ℕ) (o dest : ℤ)
    → get_elem? fs.code p ≡ some w
    → getarg_sbx w ≡ o
    → is_no_jump o ≡ false
    → pos (p + 1) +ℤ o ≡ dest
    → getjump p fs ≡ ok (dest, fs)
unfolding getjump
getjump-of fs p w o dest e a n b = rw (◌>>=◌, e, a, n, b) refl

-- fixjump, when it succeeds, on a jump within 32 bits and to a destination other than the jump
-- itself: getjump then gives that destination, the jump keeps its opcode, and every other instruction
-- is what it was.
pub getjump-fixjump :
    (fs fs' : FuncState) (p : ℕ) (dest : ℤ)
    → fixjump p dest fs ≡ ok (tt, fs')
    → ((i : ℕ) → get_elem? fs.code p ≡ some i → i < 2 ^ 32)
    → dest ≢ pos p
    → Fixed fs fs' p dest
getjump-fixjump fs fs' p dest h words apart =
    let (i, e, near, after) = fixjump-inv fs p dest h in
    let o = dest -ℤ pos (p + 1) in
    let (low, high) = near-bounds o near in
    let (back, op, _, _) = getarg_sbx-setarg_sbx i o (words i e) low high in
    let w = setarg_sbx i o in
    let codes : fs'.code ≡ set fs.code p w = ap (λ (x : FuncState). x.code) after in
    let here : get_elem? fs'.code p ≡ some w = rw codes (get_elem?-set_same fs.code p w e) in
    record {
      leads = getjump-of fs' p w o dest here back (not_self p dest apart) (offset-back p dest);
      others = λ q n. rw codes (get_elem?-set_other fs.code p q w n);
      word = λ j ej. (let same : i ≡ j = cc (e, ej) in (w, here, op ∙ ap get_opcode same));
    }
