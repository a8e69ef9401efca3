-- ===== src/Codegen/Lists.antt =====
-- Patch lists, and luaK_concat as the append of them.
use cpplua.Prelude.{
  ℕ, zero, suc, ◌+◌, ◌^◌, ◌≤◌, ◌<◌, ◌≡◌, refl, sym, ap, ◌∙◌, some, List, [], ◌∷◌, ◌++◌, arith,
  length, get_elem?, set, ◌⊎◌, inl, inr, Bool-cases, Option-cases, ◌≢◌, All,
}
use cpplua.Prelude.Int.{ℤ, pos, ◌+ℤ◌, ◌-ℤ◌}
use cpplua.Prelude.Text.{codes}
use cpplua.Prelude.Outcome.{ok, err, ◌>>=◌, ◌>>◌, pure}
use cpplua.Opcodes.{getarg_sbx, setarg_sbx}
use cpplua.Codegen.{
  FuncState, fixjump, getjump, no_jump, is_no_jump, too_far, last_jump, concat, jumps_fuel,
}
use cpplua.Codegen.Jumps.{Fixed, getjump-fixjump}

-- the list at `l` has the jumps at the given positions
abbrev pub Jumps : FuncState → ℤ → List ℕ → Type 0
Jumps fs l [] = l ≡ no_jump
Jumps fs l (p ∷ ps) = (l ≡ pos p) × ((next : ℤ) × (getjump p fs ≡ ok (next, fs)) × Jumps fs next ps)

-- the last of the positions `p ∷ ps`
abbrev pub last : ℕ → List ℕ → ℕ
last p [] = p
last p (q ∷ ps) = last q ps

pub getjump-frame :
    (fs fs' : FuncState) (p : ℕ) (n : ℤ)
    → get_elem? fs'.code p ≡ get_elem? fs.code p
    → getjump p fs ≡ ok (n, fs)
    → getjump p fs' ≡ ok (n, fs')
unfolding getjump
getjump-frame fs fs' p n same h = elim (Option-cases (get_elem? fs.code p)) [
  | inl gone ↦ cc (rw (◌>>=◌, gone) at h)
  | inr (i, e) ↦ elim (Bool-cases (is_no_jump (getarg_sbx i))) [
    | inl end ↦
        let k = rw (◌>>=◌, e, end) at h in
        let n' : no_jump ≡ n = cc in rw (◌>>=◌, same, e, end) (ap (λ (x : ℤ). ok (x, fs')) n')
    | inr more ↦
        let k = rw (◌>>=◌, e, more) at h in
        let n' : pos (p + 1) +ℤ getarg_sbx i ≡ n = cc in
        rw (◌>>=◌, same, e, more) (ap (λ (x : ℤ). ok (x, fs')) n')
  ]
]

pub Jumps-frame :
    (fs fs' : FuncState) (l : ℤ) (ps : List ℕ)
    → All (λ q. get_elem? fs'.code q ≡ get_elem? fs.code q) ps
    → Jumps fs l ps
    → Jumps fs' l ps
Jumps-frame fs fs' l [] h js = js
Jumps-frame fs fs' l (p ∷ ps) (h, hs) (a, (next, e, js)) =
    (a, (next, getjump-frame fs fs' p next h e, Jumps-frame fs fs' next ps hs js))

last-ends :
    (fs : FuncState) (l : ℤ) (p : ℕ) (ps : List ℕ)
    → Jumps fs l (p ∷ ps)
    → getjump (last p ps) fs ≡ ok (no_jump, fs)
last-ends fs l p [] (a, (next, e, end)) = e ∙ ap (λ (x : ℤ). ok (x, fs)) end
last-ends fs l p (q ∷ ps) (a, (next, e, js)) = last-ends fs next q ps js

last_jump-last :
    (fs : FuncState) (fuel p : ℕ) (l : ℤ) (ps : List ℕ)
    → length ps < fuel
    → Jumps fs l (p ∷ ps)
    → last_jump fuel p fs ≡ ok (last p ps, fs)
unfolding last_jump
last_jump-last fs zero p l ps h js = absurd (omega arith)
last_jump-last fs (suc fuel) p l [] h (a, (next, e, end)) =
    let e' : getjump p fs ≡ ok (no_jump, fs) = e ∙ ap (λ (x : ℤ). ok (x, fs)) end in
    rw (last_jump, ◌>>=◌, e') refl
last_jump-last fs (suc fuel) p l (q ∷ ps) h (a, (next, e, (a', js))) =
    let e' : getjump p fs ≡ ok (pos q, fs) = e ∙ ap (λ (x : ℤ). ok (x, fs)) a' in
    let step : last_jump (suc fuel) p fs ≡ last_jump fuel q fs = rw (last_jump, ◌>>=◌, e') refl in
    step ∙ last_jump-last fs fuel q next ps (omega arith) (a', js)

relink :
    (fs fs' : FuncState) (l : ℤ) (p : ℕ) (ps qs : List ℕ) (l2 : ℤ)
    → Jumps fs l (p ∷ ps)
    → Fixed fs fs' (last p ps) l2
    → Jumps fs' l2 qs
    → Jumps fs' l (p ∷ (ps ++ qs))
relink fs fs' l p [] qs l2 (a, js) fixed after = (a, (l2, fixed.leads, after))
relink fs fs' l p (q ∷ ps) qs l2 (a, (next, e, (a', js))) fixed after =
    let end = last-ends fs next q ps (a', js) in
    let apart : last q ps ≢ p =
      λ s. (let s' = ap (λ (x : ℕ). getjump x fs) s in cc (s', end, e, a')) in
    (
      a,
      (
        next,
        getjump-frame fs fs' p next (fixed.others p apart) e,
        relink fs fs' next q ps qs l2 (a', js) fixed after,
      ),
    )

fixjump-cases :
    (fs : FuncState) (p : ℕ) (dest n : ℤ)
    → getjump p fs ≡ ok (n, fs)
    → (fixjump p dest fs ≡ err (codes "control structure too long"))
      ⊎ ((fs' : FuncState) × (fixjump p dest fs ≡ ok (tt, fs')))
unfolding fixjump getjump
fixjump-cases fs p dest n h = elim (Option-cases (get_elem? fs.code p)) [
  | inl gone ↦ cc (rw (◌>>=◌, gone) at h)
  | inr (i, e) ↦ elim (Bool-cases (too_far (dest -ℤ pos (p + 1)))) [
    | inl far ↦ inl (rw (◌>>=◌, e, far) refl)
    | inr near ↦ inr (
      record fs { code = set fs.code p (setarg_sbx i (dest -ℤ pos (p + 1))) },
      rw (◌>>=◌, e, near) refl,
    )
  ]
]

concat-step :
    (fs : FuncState) (l1 l2 : ℤ) (p q end : ℕ)
    → l1 ≡ pos p
    → l2 ≡ pos q
    → last_jump (jumps_fuel fs) p fs ≡ ok (end, fs)
    → concat l1 l2 fs ≡ (fixjump end l2 >> pure l1) fs
unfolding concat
concat-step fs l1 l2 p q end a a' found = rw (a, a') (rw (◌>>=◌, found) refl)

then_pure :
    (fs : FuncState) (end : ℕ) (l1 l2 : ℤ) {fs' : FuncState}
    → fixjump end l2 fs ≡ ok (tt, fs')
    → (fixjump end l2 >> pure l1) fs ≡ ok (l1, fs')
then_pure fs end l1 l2 e = rw (◌>>◌, ◌>>=◌, e) refl

then_err :
    (fs : FuncState) (end : ℕ) (l1 l2 : ℤ) {x : List ℕ}
    → fixjump end l2 fs ≡ err x
    → (fixjump end l2 >> pure l1) fs ≡ err x
then_err fs end l1 l2 e = rw (◌>>◌, ◌>>=◌, e) refl

pos-injective : (m n : ℕ) → pos m ≡ pos n → m ≡ n
pos-injective m n e = cc

untouched :
    (fs fs' : FuncState) (end : ℕ) (l2 : ℤ) (xs : List ℕ)
    → Fixed fs fs' end l2
    → All (λ x. end ≢ x) xs
    → All (λ x. get_elem? fs'.code x ≡ get_elem? fs.code x) xs
untouched fs fs' end l2 [] f h = tt
untouched fs fs' end l2 (x ∷ xs) f (h, hs) = (f.others x h, untouched fs fs' end l2 xs f hs)

-- luaK_concat of two patch lists, the first no longer than the code, and the second not empty and
-- without the last jump of the first, in code of 32-bit words: it fails with "control structure too
-- long" or it succeeds, and then the list it returns has the jumps of the first and behind them those
-- of the second, in order.
pub concat-Jumps :
    (fs : FuncState) (l1 l2 : ℤ) (p q : ℕ) (ps qs : List ℕ)
    → Jumps fs l1 (p ∷ ps)
    → Jumps fs l2 (q ∷ qs)
    → All (λ x. last p ps ≢ x) (q ∷ qs)
    → length ps ≤ length fs.code
    → ((i x : ℕ) → get_elem? fs.code i ≡ some x → x < 2 ^ 32)
    → (concat l1 l2 fs ≡ err (codes "control structure too long"))
      ⊎ ((l : ℤ) × (fs' : FuncState) × (concat l1 l2 fs ≡ ok (l, fs'))
          × Jumps fs' l ((p ∷ ps) ++ (q ∷ qs)))
concat-Jumps fs l1 l2 p q ps qs (a, js) (a', js') (apart, aparts) few words =
    let end = last p ps in
    let found = last_jump-last fs (jumps_fuel fs) p l1 ps (omega arith) (a, js) in
    let ends = last-ends fs l1 p ps (a, js) in
    let step = concat-step fs l1 l2 p q end a a' found in
    elim (fixjump-cases fs end l2 no_jump ends) [
      | inl long ↦ inl (step ∙ then_err fs end l1 l2 long)
      | inr (fs', done) ↦
          let elsewhere : l2 ≢ pos end =
            λ s. (let s' : pos q ≡ pos end = sym a' ∙ s in apart (sym (pos-injective q end s'))) in
          let fixed = getjump-fixjump fs fs' end l2 done (words end) elsewhere in
          let same = untouched fs fs' end l2 (q ∷ qs) fixed (apart, aparts) in
          let js2 = Jumps-frame fs fs' l2 (q ∷ qs) same (a', js') in
          inr (
            l1,
            fs',
            step ∙ then_pure fs end l1 l2 done,
            relink fs fs' l1 p ps (q ∷ qs) l2 (a, js) fixed js2,
          )
    ]
