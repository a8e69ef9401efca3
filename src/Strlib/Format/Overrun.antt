-- ===== src/Strlib/Format/Overrun.antt =====
-- lstrlib.cpp: scanformat on a format that ends within its flags.
use cpplua.Prelude.{
  ℕ, zero, suc, ◌+◌, ◌≤◌, ◌<◌, ◌≡◌, refl, true, List, [], ◌∷◌, length, drop, get_or, All, leb,
  arith, Bool-cases, inl, inr,
}
use cpplua.Prelude.Outcome.{fault, ◌>>=◌}
use cpplua.Strlib.Pattern.{MatchState, char_at}
use cpplua.Strlib.Format.{is_flag, skip_flags, scanformat}

All-get_or :
    (xs : List ℕ) (p : ℕ) → All (λ c. is_flag c ≡ true) (drop p xs) → is_flag (get_or xs p 0) ≡ true
unfolding is_flag
All-get_or [] p h = refl
All-get_or (x ∷ xs) zero h = h.0
All-get_or (x ∷ xs) (suc p) h = All-get_or xs p h

All-drop :
    (xs : List ℕ) (p : ℕ)
    → All (λ c. is_flag c ≡ true) (drop p xs)
    → All (λ c. is_flag c ≡ true) (drop (p + 1) xs)
All-drop [] zero h = tt
All-drop [] (suc p) h = let e : suc p + 1 ≡ suc (p + 1) = omega arith in rw e tt
All-drop (x ∷ xs) zero h = h.1
All-drop (x ∷ xs) (suc p) h =
    let e : suc p + 1 ≡ suc (p + 1) = omega arith in rw e (All-drop xs p h)

skip_flags_overrun :
    (fmt : List ℕ) (fuel p : ℕ) (ms : MatchState)
    → All (λ c. is_flag c ≡ true) (drop p fmt)
    → p ≤ length fmt + 1
    → length fmt + 1 < p + fuel
    → skip_flags fmt fuel p ms ≡ fault
unfolding skip_flags char_at
skip_flags_overrun fmt zero p ms h k room = absurd (omega arith)
skip_flags_overrun fmt (suc fuel) p ms h k room = elim (Bool-cases (leb p (length fmt))) [
  | inl inside ↦
      rw (inside, char_at, ◌>>=◌, All-get_or fmt p h)
        (skip_flags_overrun fmt fuel (p + 1) ms (All-drop fmt p h) (ground (arith, inside))
          (omega arith))
  | inr past ↦ rw (past, char_at, ◌>>=◌)
]

-- The flags are looked for with strchr, which finds the 0 at the end of the format as well. A format that
-- ends in a % with nothing but flags behind is read past its end.
pub scanformat_overrun :
    (fmt : List ℕ) (start : ℕ) (ms : MatchState)
    → All (λ c. is_flag c ≡ true) (drop start fmt)
    → start ≤ length fmt
    → scanformat fmt start ms ≡ fault
unfolding scanformat
scanformat_overrun fmt start ms h k =
    rw (skip_flags_overrun fmt (length fmt + 2) start ms h (omega arith) (omega arith), ◌>>=◌)
