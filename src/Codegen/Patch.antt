-- ===== src/Codegen/Patch.antt =====
-- patchlistaux leads every jump of a list to its target.
use cpplua.Prelude.{
  ℕ, zero, suc, ◌^◌, ◌<◌, ◌≡◌, refl, sym, ap, ◌∙◌, Bool, true, false, some, List, [], ◌∷◌, arith,
  get_elem?, set, ◌⊎◌, inl, inr, Bool-cases, Option-cases, ◌≢◌, All, if◌then◌else◌, ◌==◌, ◌&&◌,
}
use mathlib.Core.Bool.{not}
use cpplua.Prelude.Int.{ℤ, pos}
use cpplua.Prelude.Outcome.{Outcome, ok, ◌>>=◌, >>=-eq-ok}
use cpplua.Opcodes.{
  op_testset, op_test, get_opcode, getarg_b, getarg_c, setarg_a, create_abc, no_reg,
}
use cpplua.CheckCode.{is_op}
use cpplua.Codegen.{
  FuncState, fixjump, getjump, getjumpcontrol, patchtestreg, patchlistaux, code_at, retest,
  patchlist, jumps_fuel,
}
use cpplua.Codegen.Jumps.{getjump-fixjump, get_elem?-set_other}
use cpplua.Codegen.Lists.{Jumps, Jumps-frame, getjump-frame}

getjumpcontrol-keeps :
    (fs : FuncState) (p c : ℕ) {fs' : FuncState} → getjumpcontrol p fs ≡ ok (c, fs') → fs' ≡ fs
unfolding getjumpcontrol
getjumpcontrol-keeps fs zero c h = cc
getjumpcontrol-keeps fs (suc p) c h = ground (arith, h)

retest-cases :
    (fs : FuncState) (c reg i : ℕ) {b : Bool} {fs' : FuncState}
    → retest c reg i fs ≡ ok (b, fs')
    → (fs' ≡ fs)
      ⊎ ((is_op op_testset (get_opcode i) ≡ true) × ((x : ℕ) × (fs'.code ≡ set fs.code c x)))
unfolding retest
retest-cases fs c reg i {b} {fs'} h = elim (Bool-cases (is_op op_testset (get_opcode i))) [
  | inr other ↦ inl (let k = rw other at h in cc)
  | inl test ↦ elim (Bool-cases (not (reg == no_reg) && not (reg == getarg_b i))) [
    | inl other ↦ inr (test, (setarg_a i reg, let k = rw (test, other) at h in state_code k))
    | inr other ↦ inr (
      test,
      (
        create_abc op_test (getarg_b i) 0 (getarg_c i),
        let k = rw (test, other) at h in state_code k,
      ),
    )
  ]
]
  where
    state_code :
        {s t : FuncState} {a b : Bool}
        → ◌≡◌ {A = Outcome (List ℕ) (Bool × FuncState)} (ok (a, s)) (ok (b, t))
        → t.code ≡ s.code
    state_code {s} {t} e = let same : t ≡ s = cc in ap (λ (x : FuncState). x.code) same

code_at-inv :
    (fs fs' : FuncState) (c i : ℕ)
    → code_at c fs ≡ ok (i, fs')
    → (fs' ≡ fs) × (get_elem? fs.code c ≡ some i)
code_at-inv fs fs' c i h = elim (Option-cases (get_elem? fs.code c)) [
  | inl gone ↦ cc (rw (code_at, gone) at h)
  | inr (x, e) ↦ let k = rw (code_at, e) at h in let same : x ≡ i = cc in (cc, e ∙ ap some same)
]

-- an instruction other than a TESTSET keeps its place
patchtestreg-frame :
    (fs : FuncState) (p reg : ℕ) {b : Bool} {fs' : FuncState}
    → patchtestreg p reg fs ≡ ok (b, fs')
    → (q w : ℕ) → get_elem? fs.code q ≡ some w
    → is_op op_testset (get_opcode w) ≡ false
    → get_elem? fs'.code q ≡ some w
unfolding patchtestreg
patchtestreg-frame fs p reg {fs' = fs'} h q w e plain =
    let (c, fs1, ctl, h1) = >>=-eq-ok (getjumpcontrol p) _ fs h in
    let (i, fs2, ei, h2) = >>=-eq-ok (code_at c) _ fs1 h1 in
    let same1 = getjumpcontrol-keeps fs p c ctl in
    let (same2, at_c) = code_at-inv fs1 fs2 c i ei in
    let codes : fs2.code ≡ fs.code = ap (λ (x : FuncState). x.code) (same2 ∙ same1) in
    let codes1 : fs1.code ≡ fs.code = ap (λ (x : FuncState). x.code) same1 in
    elim (retest-cases fs2 c reg i h2) [
      | inl kept ↦
          let all : fs'.code ≡ fs.code = ap (λ (x : FuncState). x.code) kept ∙ codes in rw all e
      | inr (test, (x, changed)) ↦
          let apart : c ≢ q = λ s.
            (let here : get_elem? fs.code c ≡ some w = ap (λ (y : ℕ). get_elem? fs.code y) s ∙ e in
              let there : get_elem? fs.code c ≡ some i =
                sym (ap (λ (y : List ℕ). get_elem? y c) codes1) ∙ at_c in
              cc (here, there, test, plain)) in
          rw changed (
            get_elem?-set_other fs2.code c q x apart ∙ ap (λ (y : List ℕ). get_elem? y q) codes ∙ e)
    ]

-- a jump of 32 bits stands at `p`, and no TESTSET
abbrev pub Ready : FuncState → ℕ → Type 0
Ready fs p =
    (w : ℕ) × (get_elem? fs.code p ≡ some w)
    × (w < 2 ^ 32)
    × (is_op op_testset (get_opcode w) ≡ false)

abbrev pub Distinct : List ℕ → Type 0
Distinct [] = Unit
Distinct (p ∷ ps) = All (λ q. p ≢ q) ps × Distinct ps

-- what a part of the code generator keeps, but for the jump at `p`
abbrev Keeps : FuncState → FuncState → (ℕ → Type 0) → Type 0
Keeps fs fs' Other =
    (q w : ℕ)
    → get_elem? fs.code q ≡ some w
    → is_op op_testset (get_opcode w) ≡ false
    → Other q
    → get_elem? fs'.code q ≡ some w

Ready-Keeps :
    (fs fs' : FuncState) (p : ℕ) (ps : List ℕ)
    → Keeps fs fs' (λ q. p ≢ q)
    → All (λ q. p ≢ q) ps
    → All (Ready fs) ps
    → All (Ready fs') ps × All (λ q. get_elem? fs'.code q ≡ get_elem? fs.code q) ps
Ready-Keeps fs fs' p [] k h r = (tt, tt)
Ready-Keeps fs fs' p (q ∷ ps) k (h, hs) ((w, e, b, plain), rs) =
    let e' = k q w e plain h in
    let (rest, same) = Ready-Keeps fs fs' p ps k hs rs in
    (((w, e', b, plain), rest), (e' ∙ sym e, same))

-- one round of patchlistaux
record Round (fs fs' : FuncState) (p : ℕ) (target : ℤ) : Type 0 where
  keeps : Keeps fs fs' (λ q. p ≢ q)
  leads : getjump p fs' ≡ ok (target, fs')
  word : (w : ℕ) × (get_elem? fs'.code p ≡ some w) × (is_op op_testset (get_opcode w) ≡ false)

fix-Round :
    (fs s2 s3 : FuncState) (p reg : ℕ) (target : ℤ) {b : Bool}
    → Ready fs p
    → target ≢ pos p
    → patchtestreg p reg fs ≡ ok (b, s2)
    → fixjump p target s2 ≡ ok (tt, s3)
    → Round fs s3 p target
fix-Round fs s2 s3 p reg target (w, e, small, plain) apart patched fixed =
    let frame = patchtestreg-frame fs p reg patched in
    let e2 = frame p w e plain in
    let words : (i : ℕ) → get_elem? s2.code p ≡ some i → i < 2 ^ 32 =
      λ i ei. (let same : w ≡ i = cc (e2, ei) in omega (arith, same, small)) in
    let f = getjump-fixjump s2 s3 p target fixed words apart in
    let (w', ew, op) = f.word w e2 in
    record {
      keeps = λ q x ex px n. f.others q n ∙ frame q x ex px;
      leads = f.leads;
      word = (w', ew, ap (is_op op_testset) op ∙ plain);
    }

both_branches : (b : Bool) (t : ℤ) → (if b then t else t) ≡ t
both_branches true t = refl
both_branches false t = refl

-- patchlistaux on a list that is not empty: its first round, and the rest
first_round :
    (fuel reg p : ℕ) (fs fs' : FuncState) (list next target : ℤ)
    → list ≡ pos p
    → getjump p fs ≡ ok (next, fs)
    → patchlistaux (suc fuel) list target reg target fs ≡ ok (tt, fs')
    → (b : Bool) × (s2 : FuncState) × (s3 : FuncState) × (patchtestreg p reg fs ≡ ok (b, s2))
      × (fixjump p target s2 ≡ ok (tt, s3))
      × (patchlistaux fuel next target reg target s3 ≡ ok (tt, fs'))
unfolding patchlistaux
first_round fuel reg p fs fs' list next target a e h =
    let h' = rw (a, ◌>>=◌, e) at h in
    let (b, s2, e2, h2) = >>=-eq-ok (patchtestreg p reg) _ fs h' in
    let (u, s3, e3, h3) = >>=-eq-ok (fixjump p (if b then target else target)) _ s2 h2 in
    (b, s2, s3, e2, rw (both_branches b target) at e3, h3)

patchlistaux-leads :
    (fuel reg : ℕ) (fs fs' : FuncState) (list target : ℤ) (ps : List ℕ)
    → Jumps fs list ps
    → All (Ready fs) ps
    → Distinct ps
    → All (λ p. target ≢ pos p) ps
    → patchlistaux fuel list target reg target fs ≡ ok (tt, fs')
    → All (λ p. getjump p fs' ≡ ok (target, fs')) ps × Keeps fs fs' (λ q. All (λ p. p ≢ q) ps)
unfolding patchlistaux
patchlistaux-leads zero reg fs fs' list target ps js rs ds ts h = cc
patchlistaux-leads (suc fuel) reg fs fs' list target [] a rs ds ts h =
    let h' = rw a at h in
    let same : fs' ≡ fs = cc in
    let codes : fs'.code ≡ fs.code = ap (λ (x : FuncState). x.code) same in
    (tt, λ q w e plain o. rw codes e)
patchlistaux-leads (suc fuel) reg fs fs' list target (p ∷ ps) (a, (next, e, js)) (r, rs) (d, ds)
      (t, ts) h =
    let (b, s2, s3, e2, e3, h3) = first_round fuel reg p fs fs' list next target a e h in
    let round = fix-Round fs s2 s3 p reg target r t e2 e3 in
    let (rs', same) = Ready-Keeps fs s3 p ps round.keeps d rs in
    let (leads, keeps) =
      patchlistaux-leads fuel reg s3 fs' next target ps (Jumps-frame fs s3 next ps same js) rs' ds
        ts h3 in
    let (w, ew, plain) = round.word in
    let stays = keeps p w ew plain (differ p ps d) in
    (
      (getjump-frame s3 fs' p target (stays ∙ sym ew) round.leads, leads),
      λ q x ex px o. keeps q x (round.keeps q x ex px o.0) px o.1,
    )
  where
    differ : (p : ℕ) (ps : List ℕ) → All (λ q. p ≢ q) ps → All (λ q. q ≢ p) ps
    differ p [] h = tt
    differ p (q ∷ ps) (h, hs) = ((λ e. h (sym e)), differ p ps hs)

-- luaK_patchlist, when it succeeds, to a target other than the current position, on a list of distinct
-- jumps of 32 bits, none of them a TESTSET or at the target: every jump of the list then leads to the
-- target, and every other instruction that is no TESTSET is what it was.
pub patchlist-leads :
    (fs fs' : FuncState) (list : ℤ) (target : ℕ) (ps : List ℕ)
    → target ≢ fs.pc
    → Jumps fs list ps
    → All (Ready fs) ps
    → Distinct ps
    → All (λ p. pos target ≢ pos p) ps
    → patchlist list target fs ≡ ok (tt, fs')
    → All (λ p. getjump p fs' ≡ ok (pos target, fs')) ps
      × ((q w : ℕ)
          → get_elem? fs.code q ≡ some w
          → is_op op_testset (get_opcode w) ≡ false
          → All (λ p. p ≢ q) ps
          → get_elem? fs'.code q ≡ some w)
unfolding patchlist
patchlist-leads fs fs' list target ps n js rs ds ts h =
    let elsewhere : (target == fs.pc) ≡ false = ground (arith, n) in
    patchlistaux-leads (jumps_fuel fs) no_reg fs fs' list (pos target) ps js rs ds ts
      (rw (◌>>=◌, elsewhere) at h)
