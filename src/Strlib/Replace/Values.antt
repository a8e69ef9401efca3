-- ===== src/Strlib/Replace/Values.antt =====
-- lstrlib.cpp: the replacement of one match by add_value.
use cpplua.Prelude.{
  ℕ, zero, suc, ◌+◌, ◌-◌, ◌≤◌, ◌<◌, ◌≡◌, refl, true, List, [], ◌∷◌, length, take, drop, get_or,
  ◌==◌, arith, le→leb,
}
use cpplua.Prelude.Ctype.{isdigit}
use cpplua.Prelude.Post.{
  returns, ends, Ends, Reads, Ends-read, Ends-if, Ends-pure, Ends-raise, Ends_mono,
}
use cpplua.Strlib.Pattern.{MatchState, char_at}
use cpplua.Strlib.Pattern.Captures.{Fits}
use cpplua.Strlib.Find.{Value, slice}
use cpplua.Strlib.Find.Ends.{Gives, push_onecapture-Gives, push_captures-Gives}
use cpplua.Strlib.Replace.{
  Answer, falsy, text, other, Replacement, template, table, function, unusable, add_escape, add_s,
  add_answer, add_value,
}

-- the replacements that a table or a function leaves out
abbrev pub Declines : Replacement → Type 0
Declines (template news) = ⊥
Declines (table g) = (v : Value) → g v ≡ falsy
Declines (function g) = (vs : List Value) → g vs ≡ falsy
Declines unusable = ⊥

module _ (number_text : ℕ → List ℕ) (src : List ℕ) where
  pub slice-take :
      (s e : ℕ) (ms : MatchState)
      → s ≤ e
      → e ≤ length src
      → Ends (Reads (λ xs. xs ≡ take (e - s) (drop s src)) ms) (slice src s (e - s)) ms
  unfolding slice
  slice-take s e ms h k =
      let inside : s + (e - s) ≤ length src = omega arith in
      ends (rw (le→leb _ _ inside) (returns (refl, refl)))

  module _ (ms : MatchState) (s e : ℕ) (lo : s ≤ e) (hi : e ≤ length src) (f : Fits e ms) where
    add_escape-Gives : (d : ℕ) → Gives src ms (add_escape number_text src d s e)
    unfolding add_escape
    add_escape-Gives d =
        Ends-if (isdigit d)
          (λ _.
            Ends-if (d == b'0') (λ _. Ends_mono (slice-take s e ms lo hi) (λ xs t (_, k). (tt, k)))
              (λ _.
                Ends-read (push_onecapture-Gives src ms e f hi (d - b'1') s e (omega arith) hi)
                  (λ v _. Ends-pure (tt, refl))))
          (λ _. Ends-pure (tt, refl))

    add_s-Gives : (news : List ℕ) → Gives src ms (add_s number_text src news s e)
    unfolding add_s
    add_s-Gives [] = Ends-pure (tt, refl)
    add_s-Gives (c ∷ []) = Ends-if (c == b'%') (λ _. add_escape-Gives 0) (λ _. Ends-pure (tt, refl))
    add_s-Gives (c ∷ d ∷ news) =
        Ends-if (c == b'%')
          (λ _.
            Ends-read (add_escape-Gives d)
              (λ x _. Ends-read (add_s-Gives news) (λ xs _. Ends-pure (tt, refl))))
          (λ _. Ends-read (add_s-Gives (d ∷ news)) (λ xs _. Ends-pure (tt, refl)))

    -- an answer that is nil or false keeps the text of the match
    abbrev Kind : Answer → List ℕ → Type 0
    Kind a xs = a ≡ falsy → xs ≡ take (e - s) (drop s src)

    add_answer-Kind : (a : Answer) → Ends (Reads (Kind a) ms) (add_answer number_text src a s e) ms
    unfolding add_answer
    add_answer-Kind falsy = Ends_mono (slice-take s e ms lo hi) (λ xs t (h, k). (λ _. h, k))
    add_answer-Kind (text xs) = Ends-pure (λ bad. cc, refl)
    add_answer-Kind other = Ends-raise

    pub add_value-Ends :
        (r : Replacement)
        → Ends
            (Reads (λ xs. Declines r → xs ≡ take (e - s) (drop s src)) ms)
            (add_value number_text src r s e)
            ms
    unfolding add_value
    add_value-Ends (template news) =
        Ends_mono (add_s-Gives news) (λ xs t (_, k). (λ bad. absurd bad, k))
    add_value-Ends (table g) =
        Ends-read (push_onecapture-Gives src ms e f hi 0 s e (omega arith) hi)
          (λ v _. Ends_mono (add_answer-Kind (g v)) (λ xs t (h, k). (λ all. h (all v), k)))
    add_value-Ends (function g) =
        Ends-read (push_captures-Gives src ms e f hi true s e (omega arith) hi)
          (λ vs _. Ends_mono (add_answer-Kind (g vs)) (λ xs t (h, k). (λ all. h (all vs), k)))
    add_value-Ends unusable = Ends-raise

pub char_at-get_or :
    (xs : List ℕ) (i : ℕ) (ms : MatchState)
    → i ≤ length xs
    → Ends (Reads (λ c. c ≡ get_or xs i 0) ms) (char_at xs i) ms
unfolding char_at
char_at-get_or xs i ms h = ends (rw (le→leb _ _ h) (returns (refl, refl)))

pub get_or-drop :
    (xs : List ℕ) (i : ℕ) → i < length xs → get_or xs i 0 ∷ drop (i + 1) xs ≡ drop i xs
get_or-drop [] i h = absurd (omega arith)
get_or-drop (x ∷ xs) zero h = refl
get_or-drop (x ∷ xs) (suc i) h =
    let next : suc i + 1 ≡ suc (i + 1) = omega arith in rw next (get_or-drop xs i (omega arith))
