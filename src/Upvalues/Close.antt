-- ===== src/Upvalues/Close.antt =====
-- lfunc.cpp: luaF_close, and the values that upvalues read.
use cpplua.Prelude.{
  ℕ, ◌≤◌, ◌<◌, ◌≡◌, ◌≢◌, refl, sym, ==_iff, ◌∙◌, false, Option, none, some, List, [], ◌∷◌, All, leb,
  ◌==◌, if◌then◌else◌, arith, Bool-cases, inl, inr,
}
use cpplua.Upvalues.{UpVal, State, isdead, freeupval, unlinkupval, close_one, close_from, close}
use cpplua.Upvalues.Chain.{IsSorted, at_level}

-- no upvalue is on the chain twice
abbrev pub IsDistinct : List UpVal → Type 0
IsDistinct [] = Unit
IsDistinct (p ∷ ps) = All (λ q. q.id ≢ p.id) ps × IsDistinct ps

-- the upvalue `id`, where it is open, is not dead
abbrev pub Live : ℕ → ℕ → List UpVal → Type 0
Live white id [] = Unit
Live white id (p ∷ ps) = (p.id ≡ id → isdead white p.marked ≡ false) × Live white id ps

absent :
    (p : UpVal) (id : ℕ) (ps : List UpVal)
    → p.id ≡ id
    → All (λ q. q.id ≢ p.id) ps
    → All (λ q. q.id ≢ id) ps
absent p id [] e h = tt
absent p id (q ∷ qs) e h = (λ bad. h.0 (bad ∙ sym e), absent p id qs e h.1)

module _ {V : Type 0} where
  abbrev pub lookup : List (ℕ × V) → ℕ → Option V
  lookup [] id = none
  lookup ((i, v) ∷ vs) id = if i == id then some v else lookup vs id

  -- what `*uv->v` is: the stack's value at its level while open, its own once closed
  pub reads : (ℕ → V) → List UpVal → List (ℕ × V) → ℕ → Option V
  reads stack [] closed id = lookup closed id
  reads stack (p ∷ ps) closed id =
      if p.id == id then some (stack p.level) else reads stack ps closed id

  reads_absent :
      (stack : ℕ → V) (ps : List UpVal) (closed : List (ℕ × V)) (id : ℕ)
      → All (λ q. q.id ≢ id) ps
      → reads stack ps closed id ≡ lookup closed id
  unfolding reads
  reads_absent stack [] closed id h = refl
  reads_absent stack (p ∷ ps) closed id h = ground (arith, h.0, reads_absent stack ps closed id h.1)

  reads-lookup :
      (stack : ℕ → V) (ps : List UpVal) (c d : List (ℕ × V)) (id : ℕ)
      → lookup c id ≡ lookup d id
      → reads stack ps c id ≡ reads stack ps d id
  unfolding reads
  reads-lookup stack [] c d id h = h
  reads-lookup stack (p ∷ ps) c d id h = ground (arith, reads-lookup stack ps c d id h)

  close_one-eq :
      (p : UpVal) (s : State V) (ps : List UpVal)
      → ((close_one p (record s { openupval = ps })).openupval ≡ ps)
        × ((close_one p (record s { openupval = ps })).stack ≡ s.stack)
        × ((close_one p (record s { openupval = ps })).currentwhite ≡ s.currentwhite)
        × ((close_one p (record s { openupval = ps })).closed ≡ (
            if isdead s.currentwhite p.marked
            then s.closed
            else (p.id, s.stack p.level) ∷ s.closed))
  unfolding close_one freeupval unlinkupval
  close_one-eq p s ps = elim (Bool-cases (isdead s.currentwhite p.marked)) [
    | inl dead ↦ rw dead (refl, refl, refl, refl)
    | inr live ↦ rw live (refl, refl, refl, refl)
  ]

  -- The value of the upvalue is copied before its link to the stack is cut.
  one_reads :
      (white id : ℕ) (stack : ℕ → V) (p : UpVal) (ps : List UpVal) (closed : List (ℕ × V))
      → All (λ q. q.id ≢ p.id) ps
      → (p.id ≡ id → isdead white p.marked ≡ false)
      → reads stack ps (if isdead white p.marked then closed else (p.id, stack p.level) ∷ closed) id
        ≡ reads stack (p ∷ ps) closed id
  unfolding reads
  one_reads white id stack p ps closed others live = elim (Bool-cases (p.id == id)) [
    | inl same ↦
        let e = (==_iff p.id id).0 same in
        rw (live e, same)
          (reads_absent stack ps ((p.id, stack p.level) ∷ closed) id (absent p id ps e others)
            ∙ rw same)
    | inr differs ↦ elim (Bool-cases (isdead white p.marked)) [
      | inl dead ↦ rw (dead, differs)
      | inr alive ↦ rw (alive, differs) (reads-lookup stack ps _ closed id (rw differs))
    ]
  ]

  module _ (level id : ℕ) where
    close_from-reads :
        (ps : List UpVal) (s : State V)
        → s.openupval ≡ ps
        → IsDistinct ps
        → Live s.currentwhite id ps
        → reads
            (close_from level ps s).stack
            (close_from level ps s).openupval
            (close_from level ps s).closed
            id
          ≡ reads s.stack ps s.closed id
    unfolding close_from
    close_from-reads [] s e d live = rw e
    close_from-reads (p ∷ ps) s e d live = elim (Bool-cases (leb level p.level)) [
      | inr below ↦ rw (below, e)
      | inl up ↦
          let (opened, stack, white, closed) = close_one-eq p s ps in
          let ih =
            close_from-reads ps (close_one p (record s { openupval = ps })) opened d.1
              (rw white live.1) in
          rw up
            (ih ∙ rw (stack, closed) (one_reads s.currentwhite id s.stack p ps s.closed d.0 live.0))
    ]

    close_from-below :
        (ps : List UpVal) (s : State V)
        → s.openupval ≡ ps
        → IsSorted ps
        → All (λ q. q.level < level) (close_from level ps s).openupval
          × (id < level → at_level (close_from level ps s).openupval id ≡ at_level ps id)
    unfolding close_from at_level
    close_from-below [] s e d = rw e (tt, λ _. refl)
    close_from-below (p ∷ ps) s e d = elim (Bool-cases (leb level p.level)) [
      | inr below ↦
          let less : p.level < level = ground (arith, below) in
          rw (below, e) ((less, lower p ps (omega arith) d.0), λ _. refl)
      | inl up ↦
          let (opened, _, _, _) = close_one-eq p s ps in
          let (under, kept) =
            close_from-below ps (close_one p (record s { openupval = ps })) opened d.1 in
          rw up (under, λ h. kept h ∙ ground (arith, up, h))
    ]
      where
        lower :
            (p : UpVal) (qs : List UpVal)
            → p.level ≤ level
            → All (λ q. q.level < p.level) qs
            → All (λ q. q.level < level) qs
        lower p [] h a = tt
        lower p (q ∷ qs) h a = (omega (arith, a.0), lower p qs h a.1)

  -- luaF_close on a sorted chain without repetitions leaves open just the upvalues below `level`, each at
  -- its level, and changes no value that an upvalue reads, unless the upvalue is dead.
  pub close-reads :
      (s : State V) (level id k : ℕ)
      → IsSorted s.openupval
      → IsDistinct s.openupval
      → Live s.currentwhite id s.openupval
      → k < level
      → All (λ q. q.level < level) (close level s).openupval
        × (at_level (close level s).openupval k ≡ at_level s.openupval k)
        × (reads (close level s).stack (close level s).openupval (close level s).closed id
            ≡ reads s.stack s.openupval s.closed id)
  unfolding close
  close-reads s level id k sorted distinct live h =
      let (under, kept) = close_from-below level k s.openupval s refl sorted in
      (under, kept h, close_from-reads level id s.openupval s refl distinct live)
