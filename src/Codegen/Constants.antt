-- ===== src/Codegen/Constants.antt =====
-- The constants of a function.
use cpplua.Prelude.{
  ℕ, zero, suc, ◌≤◌, ◌≡◌, refl, sym, ap, ◌∙◌, true, some, List, [], ◌∷◌, ◌++◌, arith, leb, length,
  get_elem?, ◌⊎◌, inl, inr, Bool-cases, Option-cases,
}
use cpplua.Prelude.Text.{codes}
use cpplua.Prelude.Outcome.{ok, err, ◌>>=◌}
use cpplua.Opcodes.{maxarg_bx}
use cpplua.Proto.{Constant}
use cpplua.Table.{Numbers}
use cpplua.Codegen.{FuncState}
use cpplua.Codegen.Expr.{same_constant, index_of, addk}

get_elem?-append :
    (xs ys : List Constant) (i : ℕ) {x : Constant}
    → get_elem? xs i ≡ some x
    → get_elem? (xs ++ ys) i ≡ some x
get_elem?-append [] ys i e = cc
get_elem?-append (x ∷ xs) ys zero e = e
get_elem?-append (x ∷ xs) ys (suc i) e = get_elem?-append xs ys i e

get_elem?-append_last :
    (xs : List Constant) (v : Constant) → get_elem? (xs ++ v ∷ []) (length xs) ≡ some v
get_elem?-append_last [] v = refl
get_elem?-append_last (x ∷ xs) v = get_elem?-append_last xs v

module _ (num : Numbers) where
  -- the constant at index `i` is `c`, up to the equality of keys
  abbrev pub IsAt : FuncState → ℕ → Constant → Type 0
  IsAt fs i c = (c' : Constant) × (get_elem? fs.k i ≡ some c') × (same_constant num c' c ≡ true)

  -- the table of constants gives each key an index at which it stands
  pub record InTable (fs : FuncState) : Type 0 where
    pub entries : (c : Constant) (i : ℕ) → index_of num c fs.h ≡ some i → IsAt fs i c

  -- what addk does when it succeeds
  pub record Added (fs fs' : FuncState) (v : Constant) (i : ℕ) : Type 0 where
    pub stands : IsAt fs' i v
    pub table : InTable fs'
    pub others : (j : ℕ) (c : Constant) → get_elem? fs.k j ≡ some c → get_elem? fs'.k j ≡ some c

  -- addk, when the table of constants is right and the constant equals itself as a key (as all but NaN
  -- do): it fails with "constant table overflow", only if there are 262143 constants, or it returns an
  -- index at which the constant stands; the table is right afterwards, and every constant that was
  -- there has kept its index.
  pub addk-Added :
      (v : Constant) (fs : FuncState)
      → InTable fs
      → same_constant num v v ≡ true
      → ((maxarg_bx ≤ length fs.k) × (addk num v fs ≡ err (codes "constant table overflow")))
        ⊎ ((i : ℕ) × (fs' : FuncState) × (addk num v fs ≡ ok (i, fs')) × Added fs fs' v i)
  unfolding addk index_of
  addk-Added v fs t self = elim (Option-cases (index_of num v fs.h)) [
    | inr (i, found) ↦ inr (
      i,
      fs,
      rw (◌>>=◌, found) refl,
      record { stands = t.entries v i found; table = t; others = λ j c e. e },
    )
    | inl new ↦ elim (Bool-cases (leb maxarg_bx (length fs.k))) [
      | inl full ↦ inl (ground (arith, full), rw (◌>>=◌, new, full) refl)
      | inr room ↦
          let n = length fs.k in
          let fs' : FuncState = record fs { k = fs.k ++ v ∷ []; h = (v, n) ∷ fs.h } in
          let here = get_elem?-append_last fs.k v in
          inr (
            n,
            fs',
            rw (◌>>=◌, new, room) refl,
            record {
              stands = (v, here, self);
              table = record { entries = entries here };
              others = λ j c e. get_elem?-append fs.k (v ∷ []) j e;
            },
          )
    ]
  ]
    where
      entries :
          get_elem? (fs.k ++ v ∷ []) (length fs.k) ≡ some v
          → (c : Constant) (i : ℕ) → index_of num c ((v, length fs.k) ∷ fs.h) ≡ some i
          → (c' : Constant) × (get_elem? (fs.k ++ v ∷ []) i ≡ some c')
            × (same_constant num c' c ≡ true)
      entries here c i e = elim (Bool-cases (same_constant num v c)) [
        | inl same ↦
            let k = rw same at e in
            let i' : length fs.k ≡ i = cc in
            (v, ap (λ (x : ℕ). get_elem? (fs.k ++ v ∷ []) x) (sym i') ∙ here, same)
        | inr other ↦
            let (c', e', s) = t.entries c i (rw other at e) in
            (c', get_elem?-append fs.k (v ∷ []) i e', s)
      ]
