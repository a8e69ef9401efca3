-- ===== src/Strlib/Find/Ends.antt =====
-- lstrlib.cpp: str_find_aux and gmatch_aux, and the values they report.
use cpplua.Prelude.{
  ℕ, zero, suc, ◌+◌, ◌-◌, ◌≤◌, ◌<◌, ◌≡◌, refl, Bool, true, false, ◌&&◌, ◌||◌, Option, none, some,
  List, [], ◌∷◌, length, take, drop, get_or, ltb, leb, ◌==◌, if◌then◌else◌, arith, length-drop,
  length-take, le→leb,
}
use cpplua.Prelude.Int.{ℤ}
use cpplua.Prelude.Outcome.{◌>>=◌, pure, raise}
use cpplua.Prelude.Post.{
  returns, ends, Ends, Reads, Ends-bind, Ends-read, Ends-if, Ends-pure, Ends-raise, Ends_mono,
  Ends-get, Ends-modify,
}
use cpplua.Strlib.Pattern.{
  CaptureLen, unfinished, position, len, MatchState, Matcher, PatternError, invalid_capture_index,
  unfinished_capture,
}
use cpplua.Strlib.Pattern.Classes.{not}
use cpplua.Strlib.Pattern.Match.{match}
use cpplua.Strlib.Pattern.Captures.{Fits, Tried, width, capture_at-Reads}
use cpplua.Strlib.Pattern.Sound.{match-Tries}
use cpplua.Strlib.Find.{
  Value, nil, num, str, slice, push_capture, push_onecapture, push_from, push_captures, match_at,
  find_from, start_of, find_plain, report, find_pattern, str_find_aux, gmatch_from, gmatch_aux,
  has_special,
}
use cpplua.Strlib.Find.Plain.{naive, lmemfind-naive, bytes_eq-length}

naive_bounds :
    (s2 xs : List ℕ) (base i : ℕ)
    → naive s2 xs base ≡ some i
    → (base ≤ i) × (i + length s2 ≤ base + length xs)
unfolding naive
naive_bounds [] [] base i e = ground arith
naive_bounds (c ∷ s2) [] base i e = cc
naive_bounds s2 (x ∷ xs) base i e = ground (
  arith,
  bytes_eq-length (take (length s2) (x ∷ xs)) s2,
  length-take (length s2) (x ∷ xs),
  naive_bounds s2 xs (base + 1) i,
)

module _ (src : List ℕ) where
  slice-Ends :
      (a n : ℕ) {ms : MatchState}
      → a + n ≤ length src
      → Ends (Reads (λ _. Unit {0}) ms) (slice src a n) ms
  unfolding slice
  slice-Ends a n h = ends (rw (le→leb _ _ h) (returns (tt, refl)))

  abbrev pub Gives : {A : Type 0} → MatchState → Matcher A → Type 0
  Gives ms m = Ends (Reads (λ _. Unit {0}) ms) m ms

  module _ (ms : MatchState) (k : ℕ) (f : Fits k ms) (room : k ≤ length src) where
    push_capture-Gives : (i : ℕ) → i < ms.level → Gives ms (push_capture src i)
    unfolding push_capture
    push_capture-Gives i h =
        Ends-read (capture_at-Reads i (omega (arith, f.few)))
          (λ c same. by_extent c.extent c.init (rw same (f.within i h)))
      where
        by_extent :
            (x : CaptureLen) (init : ℕ)
            → init + width x ≤ k
            → Gives {A = Value} ms (elim x [
              | unfinished ↦ raise unfinished_capture
              | position ↦ pure (num (init + 1))
              | len n ↦ (slice src init n >>= λ xs. pure (str xs))
            ])
        by_extent unfinished init w = Ends-raise
        by_extent position init w = Ends-pure (tt, refl)
        by_extent (len n) init w =
            Ends-read (slice-Ends init n (omega arith)) (λ xs _. Ends-pure (tt, refl))

    pub push_onecapture-Gives :
        (i s e : ℕ) → s ≤ length src → e ≤ length src → Gives ms (push_onecapture src i s e)
    unfolding push_onecapture
    push_onecapture-Gives i s e hs he =
        Ends-get
          (λ t.
            if leb t.level i
            then (if i == 0
                then (slice src s (e - s) >>= λ xs. pure (str xs))
                else raise invalid_capture_index)
            else push_capture src i)
          (Ends-if (leb ms.level i)
            (λ _.
              Ends-if (i == 0)
                (λ _. Ends-read (slice-Ends s (e - s) (omega arith)) (λ xs _. Ends-pure (tt, refl)))
                (λ _. Ends-raise))
            (λ below. push_capture-Gives i (ground arith)))

    push_from-Gives :
        (n i s e : ℕ) → s ≤ length src → e ≤ length src → Gives ms (push_from src n i s e)
    unfolding push_from
    push_from-Gives zero i s e hs he = Ends-pure (tt, refl)
    push_from-Gives (suc n) i s e hs he =
        Ends-read (push_onecapture-Gives i s e hs he)
          (λ v _. Ends-read (push_from-Gives n (i + 1) s e hs he) (λ vs _. Ends-pure (tt, refl)))

    pub push_captures-Gives :
        (whole : Bool) (s e : ℕ)
        → s ≤ length src
        → e ≤ length src
        → Gives ms (push_captures src whole s e)
    unfolding push_captures
    push_captures-Gives whole s e hs he =
        Ends-get (λ t. push_from src (if t.level == 0 && whole then 1 else t.level) 0 s e)
          (push_from-Gives (if ms.level == 0 && whole then 1 else ms.level) 0 s e hs he)

  -- no match, or one from `s` to a place in the subject, with the captures before its end
  abbrev pub Hits : ℕ → Option ℕ → MatchState → Type 0
  Hits s none t = Unit
  Hits s (some e) t = (s ≤ e) × (e ≤ length src) × Fits e t

  pub match_at-Hits :
      (pat : List ℕ) (s p : ℕ) (ms : MatchState)
      → s ≤ length src
      → p ≤ length pat
      → Ends (Hits s) (match_at src pat s p) ms
  unfolding match_at
  match_at-Hits pat s p ms h k =
      Ends-modify (λ _. match src pat (length pat + 1) s p)
        (Ends_mono
          (match-Tries src pat (length pat + 1) s p (record ms { level = 0 }) (omega arith) h k
            (record { few = omega arith; within = λ i l. absurd (omega arith) }))
          to_hits)
    where
      to_hits :
          (r : Option ℕ) (t : MatchState) → Tried src s (record ms { level = 0 }) r t → Hits s r t
      to_hits none t q = tt
      to_hits (some e) t q = q

  module _ (pat : List ℕ) where
    abbrev Found : Option (ℕ × ℕ) → MatchState → Type 0
    Found none t = Unit
    Found (some (a, e)) t = (a ≤ e) × (e ≤ length src) × Fits e t

    find_from-Found :
        (rounds : ℕ) (anchor : Bool) (p s : ℕ) (ms : MatchState)
        → s ≤ length src
        → length src < s + rounds
        → p ≤ length pat
        → Ends Found (find_from src rounds pat anchor p s) ms
    unfolding find_from
    find_from-Found zero anchor p s ms h room k = absurd (omega arith)
    find_from-Found (suc rounds) anchor p s ms h room k =
        Ends-bind (match_at-Hits pat s p ms h k) (λ r t.
          go_on r t
            (λ more. find_from-Found rounds anchor p (s + 1) t (ground arith) (omega arith) k))
      where
        go_on :
            (r : Option ℕ) (t : MatchState)
            → (ltb s (length src) && not anchor ≡ true
                → Ends Found (find_from src rounds pat anchor p (s + 1)) t)
            → Hits s r t
            → Ends Found
                (elim r [
                  | some e ↦ pure (some (s, e))
                  | none ↦
                      if ltb s (length src) && not anchor
                      then find_from src rounds pat anchor p (s + 1)
                      else pure none
                ])
                t
        go_on none t next q = Ends-if (ltb s (length src) && not anchor) next (λ _. Ends-pure tt)
        go_on (some e) t next q = Ends-pure q

    -- the results of string.find
    pub data Located : List Value → Type 0 where
      absent : Located (nil ∷ [])
      at : (a e : ℕ) (vs : List Value) → a ≤ e → e ≤ length src → Located (num (a + 1) ∷ num e ∷ vs)

    abbrev pub Reported : Bool → List Value → Type 0
    Reported true vs = Located vs
    Reported false vs = Unit

    report-Ends :
        (find : Bool) (r : Option (ℕ × ℕ)) (t : MatchState)
        → Found r t
        → Ends (λ vs _. Reported find vs) (report src find r) t
    unfolding report
    report-Ends true none t f = Ends-pure absent
    report-Ends false none t f = Ends-pure tt
    report-Ends true (some (a, e)) t (lo, hi, f) =
        Ends-read (push_captures-Gives t e f hi false 0 0 (omega arith) (omega arith))
          (λ vs _. Ends-pure (at a e vs lo hi))
    report-Ends false (some (a, e)) t (lo, hi, f) =
        Ends_mono (push_captures-Gives t e f hi true a e (omega arith) hi) (λ vs u _. tt)

    find_pattern-Ends :
        (find : Bool) (init : ℕ) (ms : MatchState)
        → init ≤ length src
        → Ends (λ vs _. Reported find vs) (find_pattern src find pat init) ms
    unfolding find_pattern
    find_pattern-Ends find init ms h =
        Ends-bind
          (find_from-Found (length src + 1) (get_or pat 0 0 == b'^')
            (if get_or pat 0 0 == b'^' then 1 else 0) init ms h (omega arith) (anchor_room pat))
          (report-Ends find)
      where
        anchor_room : (xs : List ℕ) → (if get_or xs 0 0 == b'^' then 1 else 0) ≤ length xs
        anchor_room [] = omega arith
        anchor_room (x ∷ xs) = ground arith

    find_plain-Ends :
        (init : ℕ) (ms : MatchState)
        → init ≤ length src
        → Ends (λ vs _. Located vs) (find_plain src pat init) ms
    unfolding find_plain
    find_plain-Ends init ms h =
        rw (find_plain, lmemfind-naive (drop init src) pat)
          (by_case (naive pat (drop init src) 0) refl)
      where
        by_case :
            (r : Option ℕ)
            → naive pat (drop init src) 0 ≡ r
            → Ends {E = PatternError} {S = MatchState} {A = List Value}
                (λ vs _. Located vs)
                (elim r [
                  | none ↦ pure (nil ∷ [])
                  | some i ↦ pure (num (init + i + 1) ∷ num (init + i + length pat) ∷ [])
                ])
                ms
        by_case none e = Ends-pure absent
        by_case (some i) e =
            let (_, hi) = naive_bounds pat (drop init src) 0 i e in
            Ends-pure (
              at (init + i) (init + i + length pat) [] (omega arith)
                (omega (arith, length-drop init src)))

  start_of-le : (init : ℤ) → start_of src init ≤ length src
  unfolding start_of
  start_of-le init = ground arith

  -- Whatever the arguments, string.find and string.match return or raise one of their errors, with no
  -- read out of bounds. Where string.find reports a match, the places lie in the subject.
  pub str_find_aux-Ends :
      (find : Bool) (pat : List ℕ) (init : ℤ) (plain : Bool) (ms : MatchState)
      → Ends (λ vs _. Reported pat find vs) (str_find_aux src find pat init plain) ms
  unfolding str_find_aux
  str_find_aux-Ends true pat init plain ms =
      Ends-if (plain || not (has_special pat))
        (λ _. find_plain-Ends pat (start_of src init) ms (start_of-le init))
        (λ _. find_pattern-Ends pat true (start_of src init) ms (start_of-le init))
  str_find_aux-Ends false pat init plain ms =
      find_pattern-Ends pat false (start_of src init) ms (start_of-le init)

  module _ (pat : List ℕ) where
    -- A result moves the start on.
    abbrev pub Moves : ℕ → Option (ℕ × List Value) → MatchState → Type 0
    Moves s none t = Unit
    Moves s (some (start, vs)) t = (s < start) × (start ≤ length src + 1)

    gmatch_from-Moves :
        (rounds s lo : ℕ) (ms : MatchState)
        → lo ≤ s
        → s + rounds ≤ length src + 1
        → Ends (Moves lo) (gmatch_from src rounds pat s) ms
    unfolding gmatch_from
    gmatch_from-Moves zero s lo ms l h = Ends-pure tt
    gmatch_from-Moves (suc rounds) s lo ms l h =
        Ends-bind (match_at-Hits pat s 0 ms (omega arith) (omega arith))
          (λ r t. go_on r t (gmatch_from-Moves rounds (s + 1) lo t (omega arith) (omega arith)))
      where
        go_on :
            (r : Option ℕ) (t : MatchState)
            → Ends (Moves lo) (gmatch_from src rounds pat (s + 1)) t
            → Hits s r t
            → Ends
                (Moves lo)
                (elim r [
                  | some e ↦ push_captures src true s e >>= λ vs.
                      pure (some (if e == s then e + 1 else e, vs))
                  | none ↦ gmatch_from src rounds pat (s + 1)
                ])
                t
        go_on none t next q = next
        go_on (some e) t next (lo', hi, f) =
            Ends-read (push_captures-Gives t e f hi true s e (omega arith) hi)
              (λ vs _. Ends-pure (ground arith))

    -- A call of the iterator of string.gmatch returns or raises an error. When it gives values, the next
    -- call starts further on, at most one place past the end of the subject: the iteration ends.
    pub gmatch_aux-Moves :
        (start : ℕ) (ms : MatchState)
        → start ≤ length src + 1
        → Ends (Moves start) (gmatch_aux src pat start) ms
    unfolding gmatch_aux
    gmatch_aux-Moves start ms h =
        gmatch_from-Moves (length src + 1 - start) start start ms (omega arith) (omega arith)
