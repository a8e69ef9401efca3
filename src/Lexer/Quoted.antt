-- ===== src/Lexer/Quoted.antt =====
-- addquoted of lstrlib.cpp against read_string of llex.cpp.
use cpplua.Prelude.{
  ℕ, zero, suc, ◌+◌, ◌-◌, ◌/◌, ◌<◌, ◌≡◌, ◌≢◌, inl, inr, refl, sym, ap, ◌∙◌, List, [], ◌∷◌, ◌++◌,
  length, take, drop, All, ◌==◌, ==_iff, if◌then◌else◌, arith, length-append, Bool-cases,
}
use mathlib.Core.List.{append_assoc, append-nil}
use cpplua.Prelude.Outcome.{ok}
use cpplua.Prelude.Post.{Runs, Runs-ok, Ends-bind, Ends-read, Ends-if, Ends-pure, Ends_mono}
use cpplua.Prelude.Slices.{take-append}
use cpplua.Strlib.Format.{quote_char, quote_chars, addquoted}
use cpplua.Prelude.Limits.{max_int, max_sizet}
use cpplua.Lexer.{LexState, Lexer, string, is_newline}
use cpplua.Lexer.Strings.{read_escape, string_step, string_loop, read_string}
use cpplua.Lexer.Steps.{ahead, Good, buffered-Reads}
use cpplua.Lexer.Escapes.{
  Sees, current-Sees, escape-backslash, escape-mark, escape-newline, escape-zero, next-Sees,
  save_and_next-Sees,
}

abbrev pub lines : List ℕ → ℕ
lines [] = 0
lines (c ∷ cs) = (if c == 10 then 1 else 0) + lines cs

-- how a character is written
data Quoting (c : ℕ) (q : List ℕ) : Type 0 where
  mark : c ≡ b'"' → q ≡ b'\\' ∷ b'"' ∷ [] → Quoting c q
  backslash : c ≡ b'\\' → q ≡ b'\\' ∷ b'\\' ∷ [] → Quoting c q
  newline : c ≡ 10 → q ≡ b'\\' ∷ 10 ∷ [] → Quoting c q
  nul : c ≡ 0 → q ≡ b'\\' ∷ b'0' ∷ b'0' ∷ b'0' ∷ [] → Quoting c q
  plain : c ≢ b'"' → c ≢ b'\\' → c ≢ 10 → q ≡ c ∷ [] → Quoting c q

quoting : (c : ℕ) → Quoting c (quote_char c)
unfolding quote_char
quoting c = elim (Bool-cases (c == b'"')) [
  | inl e ↦ mark ((==_iff c b'"').0 e) (ground (arith, e))
  | inr n1 ↦ elim (Bool-cases (c == b'\\')) [
    | inl e ↦ backslash ((==_iff c b'\\').0 e) (ground (arith, e))
    | inr n2 ↦ elim (Bool-cases (c == 10)) [
      | inl e ↦ newline ((==_iff c 10).0 e) (ground (arith, e))
      | inr n3 ↦ elim (Bool-cases (c == 0)) [
        | inl e ↦ nul ((==_iff c 0).0 e) (ground (arith, e))
        | inr n4 ↦
            plain (λ e. absurd (ground (arith, n1, e))) (λ e. absurd (ground (arith, n2, e)))
              (λ e. absurd (ground (arith, n3, e))) (ground (arith, n1, n2, n3, n4))
      ]
    ]
  ]
]

-- `quote_chars` puts no carriage return in front where there is none.
quote-first :
    (s rest : List ℕ)
    → All (λ c. c ≢ 13) s
    → (c : ℕ) × (t : List ℕ) × (quote_chars s ++ b'"' ∷ rest ≡ c ∷ t) × (c ≢ 13)
unfolding quote_chars
quote-first [] rest h = (b'"', rest, refl, λ bad. absurd (omega (arith, bad)))
quote-first (c ∷ s) rest h = elim (quoting c) [
  | mark e q ↦ (b'\\', _, ap onto q, λ bad. absurd (omega (arith, bad)))
  | backslash e q ↦ (b'\\', _, ap onto q, λ bad. absurd (omega (arith, bad)))
  | newline e q ↦ (b'\\', _, ap onto q, λ bad. absurd (omega (arith, bad)))
  | nul e q ↦ (b'\\', _, ap onto q, λ bad. absurd (omega (arith, bad)))
  | plain n1 n2 n3 q ↦ (c, _, ap onto q, h.0)
]
  where
    onto : List ℕ → List ℕ
    onto x = (x ++ quote_chars s) ++ b'"' ∷ rest

module _ {Num : Type 0} where
  module _ (again : Lexer Num (Unit {0})) (Q : Unit {0} → LexState Num → Type 0) (s b : List ℕ)
      (l : ℕ) (ls : LexState Num) (room : length b < max_sizet / 2) where
    step-plain :
        (c : ℕ)
        → c ≢ b'"'
        → c ≢ b'\\'
        → c ≢ 10
        → c ≢ 13
        → Sees (c ∷ s) b l ls
        → ((t : LexState Num) → Sees s (b ++ c ∷ []) l t → Runs Q again t)
        → Runs Q (string_step again b'"') ls
    unfolding string_step
    step-plain c h1 h2 h3 h4 h k = current-Sees c _ ls h (
        Ends-if (c == b'"') (λ e. absurd (ground (arith, h1)))
          (λ _.
            Ends-if (is_newline c) (λ e. absurd (ground (arith, h3, h4)))
              (λ _.
                Ends-if (c == b'\\') (λ e. absurd (ground (arith, h2)))
                  (λ _. Ends-bind (save_and_next-Sees c ls room h) (λ _ t v. k t v)))))

    step-escape :
        (s' b' : List ℕ) (l' : ℕ)
        → Sees (b'\\' ∷ s) b l ls
        → ((t : LexState Num) → Sees s b l t → Runs (λ _ u. Sees s' b' l' u) read_escape t)
        → ((t : LexState Num) → Sees s' b' l' t → Runs Q again t)
        → Runs Q (string_step again b'"') ls
    unfolding string_step
    step-escape s' b' l' h esc k =
        current-Sees b'\\' _ ls h
          (Ends-bind (next-Sees b'\\' ls h) (λ _ t v. Ends-bind (esc t v) (λ _ u w. k u w)))

  Sees-eq : {s u b : List ℕ} {l : ℕ} {ls : LexState Num} → Sees s b l ls → s ≡ u → Sees u b l ls
  Sees-eq h e = record { good = h.good; left = h.left ∙ e; buffer = h.buffer; line = h.line }

  -- The loop reads what quote_chars wrote, and stops before the mark.
  string_loop-quoted :
      (fuel : ℕ) (s rest b b' : List ℕ) (l l' : ℕ) (ls : LexState Num)
      → length s < fuel
      → All (λ c. c ≢ 13) s
      → length b + length s < max_sizet / 2
      → l + length s < max_int
      → b ++ s ≡ b'
      → l + lines s ≡ l'
      → Sees (quote_chars s ++ b'"' ∷ rest) b l ls
      → Runs (λ _ t. Sees (b'"' ∷ rest) b' l' t) (string_loop fuel b'"') ls
  unfolding string_loop quote_chars
  string_loop-quoted zero s rest b b' l l' ls h no13 room few eb el g = absurd (omega arith)
  string_loop-quoted (suc fuel) [] rest b b' l l' ls h no13 room few eb el g =
      current-Sees b'"' _ ls g (
        Ends-pure (record {
          good = g.good;
          left = g.left;
          buffer = g.buffer ∙ sym (append-nil b) ∙ eb;
          line = omega (arith, g.line, el);
        }))
  string_loop-quoted (suc fuel) (c ∷ s) rest b b' l l' ls h no13 room few eb el g =
      by_quoting (quoting c) (quote-first s rest no13.1) (λ k t small ek.
        string_loop-quoted fuel s rest (b ++ c ∷ []) b' k l' t (omega arith) no13.1
          (omega (arith, length-append b (c ∷ []))) small (append_assoc b (c ∷ []) s ∙ eb) ek)
    where
      next_is : List ℕ
      next_is = quote_chars s ++ b'"' ∷ rest

      small_buffer : length b < max_sizet / 2
      small_buffer = omega arith

      by_quoting :
          Quoting c (quote_char c)
          → (d : ℕ) × (t : List ℕ) × (next_is ≡ d ∷ t) × (d ≢ 13)
          → ((k : ℕ) (t : LexState Num)
              → k + length s < max_int
              → k + lines s ≡ l'
              → Sees next_is (b ++ c ∷ []) k t
              → Runs (λ _ t. Sees (b'"' ∷ rest) b' l' t) (string_loop fuel b'"') t)
          → Runs (λ _ t. Sees (b'"' ∷ rest) b' l' t) (string_step (string_loop fuel b'"') b'"') ls
      by_quoting (mark e q) first on =
          step-escape (string_loop fuel b'"') _ (b'"' ∷ next_is) b l ls small_buffer next_is
            (b ++ b'"' ∷ []) l
            (Sees-eq g (ap (λ (x : List ℕ). (x ++ quote_chars s) ++ b'"' ∷ rest) q))
            (λ t v. escape-mark next_is b l t small_buffer v)
            (λ t v. on l t (omega arith) (ground (arith, e)) (rw e v))
      by_quoting (backslash e q) first on =
          step-escape (string_loop fuel b'"') _ (b'\\' ∷ next_is) b l ls small_buffer next_is
            (b ++ b'\\' ∷ []) l
            (Sees-eq g (ap (λ (x : List ℕ). (x ++ quote_chars s) ++ b'"' ∷ rest) q))
            (λ t v. escape-backslash next_is b l t small_buffer v)
            (λ t v. on l t (omega arith) (ground (arith, e)) (rw e v))
      by_quoting (nul e q) first on =
          step-escape (string_loop fuel b'"') _ (b'0' ∷ b'0' ∷ b'0' ∷ next_is) b l ls small_buffer
            next_is (b ++ 0 ∷ []) l
            (Sees-eq g (ap (λ (x : List ℕ). (x ++ quote_chars s) ++ b'"' ∷ rest) q))
            (λ t v. escape-zero next_is b l t small_buffer v)
            (λ t v. on l t (omega arith) (ground (arith, e)) (rw e v))
      by_quoting (newline e q) (d, u, front, no_return) on =
          step-escape (string_loop fuel b'"') _ (10 ∷ next_is) b l ls small_buffer next_is
            (b ++ 10 ∷ []) (l + 1)
            (Sees-eq g (ap (λ (x : List ℕ). (x ++ quote_chars s) ++ b'"' ∷ rest) q))
            (λ t v.
              Ends_mono
                (escape-newline u b l t small_buffer d (omega arith) no_return
                  (Sees-eq v (ap (λ (x : List ℕ). 10 ∷ x) front)))
                (λ _ w z. Sees-eq z (sym front)))
            (λ t v. on (l + 1) t (omega arith) (ground (arith, e)) (rw e v))
      by_quoting (plain n1 n2 n3 q) first on =
          step-plain (string_loop fuel b'"') _ next_is b l ls small_buffer c n1 n2 n3 no13.0
            (Sees-eq g (ap (λ (x : List ℕ). (x ++ quote_chars s) ++ b'"' ∷ rest) q))
            (λ t v. on l t (omega arith) (ground (arith, n3)) v)

  read_string-quoted :
      (fuel : ℕ) (s rest : List ℕ) (l : ℕ) (ls : LexState Num)
      → length s < fuel
      → All (λ c. c ≢ 13) s
      → length s + 2 < max_sizet / 2
      → l + length s < max_int
      → Sees (b'"' ∷ quote_chars s ++ b'"' ∷ rest) [] l ls
      → Runs
          (λ r t. (r ≡ string s) × Sees rest (b'"' ∷ s ++ b'"' ∷ []) (l + lines s) t)
          (read_string fuel b'"')
          ls
  unfolding read_string
  read_string-quoted fuel s rest l ls h no13 room few g =
      Ends-bind (save_and_next-Sees b'"' ls (omega arith) g) (λ _ t k.
        Ends-bind
          (string_loop-quoted fuel s rest (b'"' ∷ []) (b'"' ∷ s) l (l + lines s) t h no13
            (omega arith) few refl refl k)
          (λ _ u k'. Ends-bind (save_and_next-Sees b'"' u (omega arith) k') (λ _ v k''.
            Ends-read (buffered-Reads v)
              (λ b e. Ends-pure (ap string (contents b (e ∙ k''.buffer)), k'')))))
    where
      contents : (b : List ℕ) → b ≡ b'"' ∷ s ++ b'"' ∷ [] → take (length b - 2) (drop 1 b) ≡ s
      contents b e =
          let size : length (b'"' ∷ s ++ b'"' ∷ []) - 2 ≡ length s =
            omega (arith, length-append s (b'"' ∷ [])) in
          rw (e, size) (take-append s (b'"' ∷ []))

  -- What string.format writes for %q the lexer reads back: with the quoted text in front, an empty buffer,
  -- and bounds on the length and on the lines that no error is raised for, read_string returns the string
  -- that was quoted, with the rest of the input ahead. The string must hold no carriage return.
  pub read_string-addquoted :
      (fuel : ℕ) (s rest : List ℕ) (ls : LexState Num)
      → length s < fuel
      → All (λ c. c ≢ 13) s
      → length s + 2 < max_sizet / 2
      → ls.linenumber + length s < max_int
      → Good ls
      → ls.buffer ≡ []
      → ahead ls ≡ addquoted s ++ rest
      → (t : LexState Num) × (read_string fuel b'"' ls ≡ ok (string s, t)) × (ahead t ≡ rest)
  unfolding addquoted
  read_string-addquoted fuel s rest ls h no13 room few g clean front =
      let sees : Sees (b'"' ∷ quote_chars s ++ b'"' ∷ rest) [] ls.linenumber ls = record {
        good = g;
        left =
            front ∙ ap (λ (x : List ℕ). b'"' ∷ x) (append_assoc (quote_chars s) (b'"' ∷ []) rest);
        buffer = clean;
        line = refl;
      } in
      let (r, t, run, (is, k)) =
        Runs-ok (read_string-quoted fuel s rest ls.linenumber ls h no13 room few sees) in
      (t, run ∙ rw is, k.left)
