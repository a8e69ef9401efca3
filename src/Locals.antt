-- ===== src/Locals.antt =====
-- lfunc.cpp: luaF_getlocalname, which finds the name of a local variable for messages and debugging.
use cpplua.Prelude.{
  ℕ, ◌-◌, ◌≤◌, ◌≡◌, refl, false, Option, none, some, List, [], ◌∷◌, All, ltb, leb, ◌==◌,
  if◌then◌else◌, arith, Bool-cases, inl, inr,
}
use cpplua.Proto.{LocVar}

-- The loop over the variables. The number counts the active ones down to the one that is wanted; from
-- nothing or below it never comes to that one.
unfoldable pub getlocalname : List LocVar → ℕ → ℕ → Option (Option (List ℕ))
getlocalname [] local_number pc = none
getlocalname (v ∷ vs) local_number pc =
    let this_one = getlocalname vs (local_number - 1) pc in
    let skipped = getlocalname vs local_number pc in
    if leb v.startpc pc
    then (if ltb pc v.endpc
        then (if local_number == 1 then some v.varname else this_one)
        else skipped)
    else none

-- the variables whose scope contains `pc`, in order
unfoldable pub active : List LocVar → ℕ → List (Option (List ℕ))
active [] pc = []
active (v ∷ vs) pc =
    let rest = active vs pc in
    if leb v.startpc pc then (if ltb pc v.endpc then v.varname ∷ rest else rest) else rest

-- the entry `n`, counted from 1
unfoldable pub entry : List (Option (List ℕ)) → ℕ → Option (Option (List ℕ))
entry [] n = none
entry (x ∷ xs) n = if n == 1 then some x else entry xs (n - 1)

-- scopes are listed by their start
abbrev pub IsOrdered : List LocVar → Type 0
IsOrdered [] = Unit
IsOrdered (v ∷ vs) = All (λ w. v.startpc ≤ w.startpc) vs × IsOrdered vs

active-none :
    (vs : List LocVar) (b pc : ℕ)
    → leb b pc ≡ false
    → All (λ w. b ≤ w.startpc) vs
    → active vs pc ≡ []
unfolding active
active-none [] b pc h a = refl
active-none (v ∷ vs) b pc h a = ground (arith, active-none vs b pc h a.1, a.0, h)

-- For variables that are listed by the start of their scope, luaF_getlocalname gives the name of the
-- n-th variable whose scope contains the instruction: ending the loop at the first scope that starts
-- later misses none.
pub getlocalname-active :
    (vs : List LocVar) (n pc : ℕ) → IsOrdered vs → getlocalname vs n pc ≡ entry (active vs pc) n
unfolding getlocalname active entry
getlocalname-active [] n pc o = refl
getlocalname-active (v ∷ vs) n pc o = elim (Bool-cases (leb v.startpc pc)) [
  | inr late ↦ rw late (rw (active-none vs v.startpc pc late o.0) refl)
  | inl begun ↦ elim (Bool-cases (ltb pc v.endpc)) [
    | inl inside ↦ rw (begun, inside) (rw (getlocalname-active vs (n - 1) pc o.1) refl)
    | inr over ↦ rw (begun, over) (getlocalname-active vs n pc o.1)
  ]
]
