-- ===== src/Strings/Intern.antt =====
-- lstring.cpp: luaS_newlstr, and the table that it leaves.
use cpplua.Prelude.{
  ℕ, ◌+◌, ◌-◌, ◌*◌, ◌/◌, ◌≤◌, ◌<◌, ◌≡◌, refl, ap, ◌∙◌, false, ◌&&◌, none, some, List, [], ◌∷◌,
  length, ltb, leb, ◌==◌, ==_iff, if◌then◌else◌, Bool-cases, Option-cases, inl, inr, arith,
}
use cpplua.Prelude.Outcome.{ok}
use cpplua.Prelude.Limits.{max_int, max_sizet}
use cpplua.Strlib.Pattern.Match.{bytes_eq}
use cpplua.Upvalues.Chain.{or_else}
use cpplua.Strings.{
  TString, StringTable, Global, hash_of, store, resize, chain_new, grow, newlstr, find_in, intern,
}
use cpplua.Strings.Chain.{
  IsInterned, named, first, home, lookup, Hashed, bytes_eq-eq, find_in-id, find_in-named,
  find_in-Hashed, store_self, store-other, named-push,
}
use cpplua.Strings.Rehash.{store-Hashed, resized-IsInterned, resized-lookup}

module _ (g : Global) (inv : IsInterned g.strt) where
  resize-IsInterned : (n : ℕ) → 0 < n → IsInterned (resize n g).strt
  unfolding resize
  resize-IsInterned n room = elim (Bool-cases g.sweepstring) [
    | inl e ↦ rw e inv
    | inr e ↦ rw e (resized-IsInterned n g.strt inv room)
  ]

  resize-lookup : (n : ℕ) (b : List ℕ) → 0 < n → lookup (resize n g).strt b ≡ lookup g.strt b
  unfolding resize
  resize-lookup n b room = elim (Bool-cases g.sweepstring) [
    | inl e ↦ rw e refl
    | inr e ↦ rw e (resized-lookup n g.strt inv room b)
  ]

  grow-IsInterned : IsInterned (grow g).strt
  unfolding grow
  grow-IsInterned =
      elim (Bool-cases (ltb g.strt.size g.strt.nuse && leb g.strt.size (max_int / 2))) [
        | inl e ↦ rw e (resize-IsInterned (g.strt.size * 2) (omega (arith, inv.room)))
        | inr e ↦ rw e inv
      ]

  grow-lookup : (b : List ℕ) → lookup (grow g).strt b ≡ lookup g.strt b
  unfolding grow
  grow-lookup b = elim (Bool-cases (ltb g.strt.size g.strt.nuse && leb g.strt.size (max_int / 2))) [
    | inl e ↦ rw e (resize-lookup (g.strt.size * 2) b (omega (arith, inv.room)))
    | inr e ↦ rw e refl
  ]

  -- marks that changed change nothing else
  marked-IsInterned :
      (f : ℕ → List TString)
      → ((i : ℕ) (b : List ℕ) → named (f i) b ≡ named (g.strt.hash i) b)
      → ((i : ℕ) → Hashed (f i))
      → IsInterned (record { hash = f; nuse = g.strt.nuse; size = g.strt.size })
  marked-IsInterned f same h = record {
    room = inv.room;
    hashed = h;
    placed = λ i b e. same i b ∙ inv.placed i b e;
    once = λ b. rw (same (home g.strt b) b) (inv.once b);
  }

first-none : (xs : List ℕ) → first xs ≡ none → xs ≡ []
first-none [] h = refl
first-none (x ∷ xs) h = cc

module _ (str : List ℕ) (g : Global) (inv : IsInterned g.strt) where
  chain_new-named :
      (i : ℕ) (b : List ℕ)
      → named ((chain_new str (hash_of str) g).strt.hash i) b ≡ (
          if home g.strt str == i && bytes_eq b str
          then g.fresh ∷ named (g.strt.hash i) b
          else named (g.strt.hash i) b)
  unfolding chain_new
  chain_new-named i b = named-push g.strt.hash (home g.strt str) i _ b

  chain_new-lookup :
      (b : List ℕ)
      → lookup (chain_new str (hash_of str) g).strt b
        ≡ (if bytes_eq b str then some g.fresh else lookup g.strt b)
  unfolding lookup chain_new
  chain_new-lookup b = elim (Bool-cases (bytes_eq b str)) [
    | inl e ↦
        rw (chain_new-named (home g.strt b) b) (rw e (rw (bytes_eq-eq b str e) (ground arith)))
    | inr e ↦ rw (chain_new-named (home g.strt b) b) (rw e (ground arith))
  ]

  pub chain_new-IsInterned :
      lookup g.strt str ≡ none → IsInterned (chain_new str (hash_of str) g).strt
  unfolding lookup chain_new Hashed
  chain_new-IsInterned new = record {
    room = inv.room;
    hashed = λ i.
        store-Hashed g.strt.hash (home g.strt str) _ i (refl, inv.hashed (home g.strt str))
          (inv.hashed i);
    placed = λ i b e. elim (Bool-cases (bytes_eq b str)) [
      | inl q ↦
          chain_new-named i b
          ∙ rw q (ground (arith, ap (home g.strt) (bytes_eq-eq b str q), inv.placed i b e))
      | inr q ↦ chain_new-named i b ∙ rw q (ground (arith, inv.placed i b e))
    ];
    once = λ b. elim (Bool-cases (bytes_eq b str)) [
      | inl q ↦ rw (chain_new-named (home g.strt b) b) (
          rw q (
            rw (bytes_eq-eq b str q)
              (rw (first-none (named (g.strt.hash (home g.strt str)) str) new) (ground arith))))
      | inr q ↦ rw (chain_new-named (home g.strt b) b) (rw q (ground (arith, inv.once b)))
    ];
  }

-- the state after a string was found
abbrev revived : List ℕ → Global → Global
revived str g = record g {
  strt = record {
    hash =
        store g.strt.hash (home g.strt str)
          (find_in g.currentwhite str (g.strt.hash (home g.strt str))).0;
    nuse = g.strt.nuse;
    size = g.strt.size;
  };
}

module _ (str : List ℕ) (g : Global) where
  found-lookup : (find_in g.currentwhite str (g.strt.hash (home g.strt str))).1 ≡ lookup g.strt str
  unfolding lookup
  found-lookup = find_in-id g.currentwhite str (g.strt.hash (home g.strt str))

  intern-none :
      lookup g.strt str ≡ none
      → length str + 1 ≤ max_sizet - 24
      → intern str g ≡ ok (g.fresh, grow (chain_new str (hash_of str) g))
  unfolding intern newlstr
  intern-none e room =
      let short : ltb (max_sizet - 24) (length str + 1) ≡ false = ground (arith, room) in
      rw (intern, found-lookup ∙ e) (rw (newlstr, short) refl)

  intern-some : (id : ℕ) → lookup g.strt str ≡ some id → intern str g ≡ ok (id, revived str g)
  unfolding intern
  intern-some id e = rw (intern, found-lookup ∙ e) refl

  revived-named :
      (i : ℕ) (b : List ℕ) → named ((revived str g).strt.hash i) b ≡ named (g.strt.hash i) b
  revived-named i b = elim (Bool-cases (i == home g.strt str)) [
    | inl e ↦
        let at : i ≡ home g.strt str = (==_iff i (home g.strt str)).0 e in
        let chain = g.strt.hash (home g.strt str) in
        rw at (
          ap (λ c. named c b)
            (store_self g.strt.hash (home g.strt str) (find_in g.currentwhite str chain).0)
          ∙ find_in-named g.currentwhite str chain b)
    | inr e ↦ ap (λ c. named c b) (store-other g.strt.hash (home g.strt str) i _ e)
  ]

  revived-IsInterned : IsInterned g.strt → IsInterned (revived str g).strt
  revived-IsInterned inv = marked-IsInterned g inv (revived str g).strt.hash revived-named (λ i.
      store-Hashed g.strt.hash (home g.strt str) _ i
        (find_in-Hashed g.currentwhite str _ (inv.hashed (home g.strt str))) (inv.hashed i))

  revived-lookup : (b : List ℕ) → lookup (revived str g).strt b ≡ lookup g.strt b
  unfolding lookup
  revived-lookup b = ap first (revived-named (home g.strt b) b)

-- two equal strings stand for the same one
lookup-bytes :
    (tb : StringTable) (str b : List ℕ) (id : ℕ)
    → lookup tb str ≡ some id
    → lookup tb b ≡ (if bytes_eq b str then some id else lookup tb b)
lookup-bytes tb str b id e = elim (Bool-cases (bytes_eq b str)) [
  | inl q ↦ rw q (rw (bytes_eq-eq b str q) e)
  | inr q ↦ rw q refl
]

-- luaS_newlstr gives the string that stands for the bytes, or a new one. After it these bytes stand for
-- that string, all others for the string they had, and the table is in order: each string stands once,
-- in the slot of its hash, also after the table was resized.
pub intern-lookup :
    (str b : List ℕ) (g : Global)
    → IsInterned g.strt
    → length str + 1 ≤ max_sizet - 24
    → (t : Global) × (intern str g ≡ ok (or_else (lookup g.strt str) g.fresh, t))
      × (lookup t.strt b ≡ (
          if bytes_eq b str then some (or_else (lookup g.strt str) g.fresh) else lookup g.strt b))
      × IsInterned t.strt
intern-lookup str b g inv room = elim (Option-cases (lookup g.strt str)) [
  | inl e ↦
      let ready = chain_new-IsInterned str g inv e in
      (
        grow (chain_new str (hash_of str) g),
        rw e (intern-none str g e room),
        rw e (grow-lookup (chain_new str (hash_of str) g) ready b ∙ chain_new-lookup str g inv b),
        grow-IsInterned (chain_new str (hash_of str) g) ready,
      )
  | inr (id, e) ↦ (
    revived str g,
    rw e (intern-some str g id e),
    rw e (revived-lookup str g b ∙ lookup-bytes g.strt str b id e),
    revived-IsInterned str g inv,
  )
]

pub empty-IsInterned :
    (size : ℕ) → 0 < size → IsInterned (record { hash = λ _. []; nuse = 0; size = size })
unfolding Hashed named
empty-IsInterned size h = record {
  room = h;
  hashed = λ _. tt;
  placed = λ i b e. refl;
  once = λ b. omega arith;
}
