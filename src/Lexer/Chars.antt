-- ===== src/Lexer/Chars.antt =====
-- llex.cpp: procedures that keep a lexical state in order, with a bound on the characters left.
use cpplua.Prelude.{
  ℕ, suc, ◌+◌, ◌-◌, ◌≤◌, ◌<◌, ◌≡◌, refl, sym, ap, ◌∙◌, Bool, true, false, ◌&&◌, ◌||◌, Option, none,
  some, List, length, ◌==◌, if◌then◌else◌, arith, inl,
}
use cpplua.Prelude.Post.{returns, ends, Ends, Ends-bind, Ends-read, Ends-if, Ends-pure, Ends_mono}
use cpplua.Zio.Flat.{flat}
use cpplua.Strlib.Find.{member}
use cpplua.Lexer.{
  LexState, Lexer, holds, is_newline, same, to_char, next, resetbuffer, save, save_and_next,
  count_line, inclinenumber, check_next,
}
use cpplua.Lexer.Steps.{
  Good, ahead, ahead_of, count_line-Counted, current-Reads, next-Moved, save-Saved,
}

module _ {Num : Type 0} where
  -- in order, with at most `n` characters left
  pub record Within (n : ℕ) (ls : LexState Num) : Type 0 where
    pub good : Good ls
    pub few : length (ahead ls) ≤ n

  abbrev pub Keeps : {A : Type 0} → ℕ → Lexer Num A → LexState Num → Type 0
  Keeps n m ls = Ends (λ _ t. Within n t) m ls

  pub Within_mono : {n k : ℕ} {ls : LexState Num} → Within n ls → n ≤ k → Within k ls
  Within_mono w h = record { good = w.good; few = omega (arith, w.few) }

  pub Keeps_mono :
      {A : Type 0} {n : ℕ} {m : Lexer Num A} {ls : LexState Num}
      → Keeps n m ls
      → (k : ℕ) → n ≤ k
      → Keeps k m ls
  Keeps_mono h k l = Ends_mono h (λ _ t w. Within_mono w l)

  -- A character `c` is there, so `next` leaves fewer.
  pub record Here (n c : ℕ) (ls : LexState Num) : Type 0 where
    pub within : Within (n + 1) ls
    pub char : ls.current ≡ some c

  pub next-Keeps : (n c : ℕ) (ls : LexState Num) → Here n c ls → Keeps n next ls
  next-Keeps n c ls h =
      let size : length (ahead ls) ≡ suc (length (flat ls.z)) =
        ap (λ (o : Option ℕ). length (ahead_of o (flat ls.z))) h.char in
      Ends_mono
        (next-Moved ls c (flat ls.z) h.within.good
          (ap (λ (o : Option ℕ). ahead_of o (flat ls.z)) h.char))
        (λ _ t m. record {
          good = m.good;
          few = omega (arith, h.within.few, size, ap (length {A = ℕ}) m.left);
        })

  -- `save` leaves the stream alone
  pub save-Within :
      (n c : ℕ) (ls : LexState Num)
      → Within n ls
      → Ends (λ _ t. Within n t × (t.current ≡ ls.current)) (save c) ls
  save-Within n c ls w = Ends_mono (save-Saved ls c (inl (λ _. tt)) w.good) (λ _ t m. (
    record {
      good = m.good;
      few = omega (arith, w.few, ap (λ (x : LexState Num). length (ahead x)) m.rest);
    },
    ap (λ (x : LexState Num). x.current) m.rest,
  ))

  pub save-Keeps : (n c : ℕ) (ls : LexState Num) → Within n ls → Keeps n (save c) ls
  save-Keeps n c ls w = Ends_mono (save-Within n c ls w) (λ _ t h. h.0)

  pub save-Here :
      (n c d : ℕ) (ls : LexState Num) → Here n d ls → Ends (λ _ t. Here n d t) (save c) ls
  save-Here n c d ls h =
      Ends_mono (save-Within (n + 1) c ls h.within)
        (λ _ t (w, e). record { within = w; char = e ∙ h.char })

  pub save_and_next-Keeps : (n c : ℕ) (ls : LexState Num) → Here n c ls → Keeps n save_and_next ls
  unfolding save_and_next
  save_and_next-Keeps n c ls h =
      Ends-read (current-Reads ls)
        (λ x _. Ends-bind (save-Here n (to_char x) c ls h) (λ _ t k. next-Keeps n c t k))

  -- the character that stands at the front
  pub Here-current :
      (n x : ℕ) (ls : LexState Num)
      → Within n ls
      → ls.current ≡ some x
      → (0 < n) × Here (n - 1) x ls
  Here-current n x ls w e =
      let size : length (ahead ls) ≡ suc (length (flat ls.z)) =
        ap (λ (o : Option ℕ). length (ahead_of o (flat ls.z))) e in
      (
        omega (arith, w.few),
        record { within = record { good = w.good; few = omega (arith, w.few) }; char = e },
      )

  -- A split on the character, as the source does it by a switch.
  pub Ends-char :
      {B : Type 0} {Q : B → LexState Num → Type 0} (n : ℕ) (m : Lexer Num B) (k : ℕ → Lexer Num B)
      (ls : LexState Num) (c : Option ℕ)
      → Within n ls
      → c ≡ ls.current
      → Ends Q m ls
      → ((x : ℕ) → 0 < n → Here (n - 1) x ls → Ends Q (k x) ls)
      → Ends Q (elim c [ none ↦ m | some x ↦ k x ]) ls
  Ends-char n m k ls none w e at_end at_char = at_end
  Ends-char n m k ls (some x) w e at_end at_char =
      let (pos, h) = Here-current n x ls w (sym e) in at_char x pos h

  -- A test of the character that fails at the end of the stream, alone and beside another test.
  pub Ends-holds :
      {B : Type 0} {Q : B → LexState Num → Type 0} (n : ℕ) (p : ℕ → Bool) {m k : Lexer Num B}
      (ls : LexState Num) (c : Option ℕ)
      → Within n ls
      → c ≡ ls.current
      → ((x : ℕ) → 0 < n → Here (n - 1) x ls → Ends Q m ls)
      → Ends Q k ls
      → Ends Q (if holds p c then m else k) ls
  Ends-holds n p ls none w e yes_case no_case = no_case
  Ends-holds n p ls (some x) w e yes_case no_case =
      let (pos, h) = Here-current n x ls w (sym e) in
      Ends-if (p x) (λ t. yes_case x pos h) (λ _. no_case)

  Ends-holds_and :
      {B : Type 0} {Q : B → LexState Num → Type 0} (n : ℕ) (p : ℕ → Bool) {m k : Lexer Num B}
      (ls : LexState Num) (c : Option ℕ) (extra : Bool)
      → Within n ls
      → c ≡ ls.current
      → ((x : ℕ) → 0 < n → Here (n - 1) x ls → Ends Q m ls)
      → Ends Q k ls
      → Ends Q (if holds p c && extra then m else k) ls
  Ends-holds_and n p ls none extra w e yes_case no_case = no_case
  Ends-holds_and n p ls (some x) extra w e yes_case no_case =
      let (pos, h) = Here-current n x ls w (sym e) in
      Ends-if (p x && extra) (λ t. yes_case x pos h) (λ _. no_case)

  pub resetbuffer-Within :
      (n : ℕ) (ls : LexState Num)
      → Within n ls
      → Ends (λ _ t. Within n t × (t.current ≡ ls.current)) resetbuffer ls
  unfolding resetbuffer
  resetbuffer-Within n ls w = ends (
      returns (
        record {
          good = record { stream = w.good.stream; room = w.good.room; fits = omega arith };
          few = w.few;
        },
        refl,
      ))

  pub resetbuffer-Keeps : (n : ℕ) (ls : LexState Num) → Within n ls → Keeps n resetbuffer ls
  resetbuffer-Keeps n ls w = Ends_mono (resetbuffer-Within n ls w) (λ _ t h. h.0)

  count_line-Keeps : (n : ℕ) (ls : LexState Num) → Within n ls → Keeps n count_line ls
  count_line-Keeps n ls w = Ends_mono (count_line-Counted ls (inl (λ _. tt))) (λ _ t e.
      rw e (record {
        good = record { stream = w.good.stream; room = w.good.room; fits = w.good.fits };
        few = w.few;
      }))

  -- `inclinenumber` takes the newline, and a second one that is another character.
  pub inclinenumber-Keeps : (n c : ℕ) (ls : LexState Num) → Here n c ls → Keeps n inclinenumber ls
  unfolding inclinenumber
  inclinenumber-Keeps n c ls h = Ends-read (current-Reads ls) (λ old _.
      Ends-bind (next-Keeps n c ls h) (λ _ t w. Ends-read (current-Reads t) (λ d e.
        Ends-bind
          (Ends-holds_and n is_newline t d (if same d old then false else true) w e
            (λ x pos k. Keeps_mono (next-Keeps (n - 1) x t k) n (omega arith)) (Ends-pure w))
          (λ _ u v. count_line-Keeps n u v))))

  pub check_next-Keeps :
      (n : ℕ) (set : List ℕ) (ls : LexState Num) → Within n ls → Keeps n (check_next set) ls
  unfolding check_next
  check_next-Keeps n set ls w = Ends-read (current-Reads ls) (λ c e.
      Ends-holds n (λ x. x == 0 || member x set) ls c w e
        (λ x pos h.
          Ends-bind (save_and_next-Keeps (n - 1) x ls h)
            (λ _ t v. Ends-pure (Within_mono v (omega arith))))
        (Ends-pure w))
