-- ===== src/Prelude/Post.antt =====
-- Total postconditions of programs: a run from `s` returns a result of which `Q` holds, or raises an
-- error of which `F` holds. It neither faults nor runs out of fuel.
use mathlib.Core.Path.{subst}
use cpplua.Prelude.{◌≡◌, refl, sym, Bool, true, false, if◌then◌else◌}
use cpplua.Prelude.Outcome.{
  Outcome, ok, err, fault, stuck, Proc, ◌>>=◌, pure, raise, get_state, modify,
}

pub data Post {E S A : Type 0} (F : E → Type 0) (Q : A → S → Type 0)
    : Outcome E (A × S) → Type 0 where
  returns : {a : A} {t : S} → Q a t → Post F Q (ok (a, t))
  raises : {e : E} → F e → Post F Q (err e)

-- The program stays an argument, so that the rules below find the parts of a bind.
pub data Meets {E S A : Type 0} (F : E → Type 0) (Q : A → S → Type 0) (m : Proc E S A) (s : S)
    : Type 0 where
  ends : Post F Q (m s) → Meets F Q m s

-- every error is allowed
abbrev pub Ends : {E S A : Type 0} → (A → S → Type 0) → Proc E S A → S → Type 0
Ends Q m s = Meets (λ _. Unit {0}) Q m s

-- no error is
abbrev pub Runs : {E S A : Type 0} → (A → S → Type 0) → Proc E S A → S → Type 0
Runs Q m s = Meets (λ _. ⊥) Q m s

-- a result that satisfies `R`, and the state as it was
abbrev pub Reads : {S A : Type 0} → (A → Type 0) → S → A → S → Type 0
Reads R s a t = R a × (t ≡ s)

module _ {E S : Type 0} {F : E → Type 0} where
  pub Ends-Post :
      {A : Type 0} {Q : A → S → Type 0} {m : Proc E S A} {s : S} → Meets F Q m s → Post F Q (m s)
  Ends-Post (ends h) = h

  pub Post-ok :
      {A : Type 0} {Q : A → S → Type 0} {a : A} {t : S} → Post {E = E} F Q (ok (a, t)) → Q a t
  Post-ok (Post.returns q) = q

  pub Post-fault : {A : Type 0} {Q : A → S → Type 0} → ¬ Post {E = E} F Q fault
  Post-fault h = elim h [ ]

  pub Post-stuck : {A : Type 0} {Q : A → S → Type 0} → ¬ Post {E = E} F Q stuck
  Post-stuck h = elim h [ ]

  weaken :
      {A : Type 0} {P Q : A → S → Type 0} {r : Outcome E (A × S)}
      → Post F P r
      → ((a : A) (t : S) → P a t → Q a t)
      → Post F Q r
  weaken (Post.returns p) k = Post.returns (k _ _ p)
  weaken (Post.raises f) k = Post.raises f

  pub Ends_mono :
      {A : Type 0} {P Q : A → S → Type 0} {m : Proc E S A} {s : S}
      → Meets F P m s
      → ((a : A) (t : S) → P a t → Q a t)
      → Meets F Q m s
  Ends_mono (ends h) k = ends (weaken h k)

  after :
      {A B : Type 0} {P : A → S → Type 0} {Q : B → S → Type 0} {r : Outcome E (A × S)}
      (f : A → Proc E S B)
      → Post F P r
      → ((a : A) (t : S) → P a t → Meets F Q (f a) t)
      → Post F Q (elim r [ ok (a, t) ↦ f a t | err e ↦ err e | fault ↦ fault | stuck ↦ stuck ])
  after f (Post.returns p) k = Ends-Post (k _ _ p)
  after f (Post.raises e) k = Post.raises e

  with_run :
      {A : Type 0} {Q : A → S → Type 0} (m : Proc E S A) (s : S) (r : Outcome E (A × S))
      → m s ≡ r
      → Post F Q r
      → Post F (λ a t. Q a t × (m s ≡ ok (a, t))) r
  with_run m s _ e (Post.returns q) = Post.returns (q, e)
  with_run m s _ e (Post.raises f) = Post.raises f

  -- a result is the one that the run gives
  pub Ends_run :
      {A : Type 0} {Q : A → S → Type 0} {m : Proc E S A} {s : S}
      → Meets F Q m s
      → Meets F (λ a t. Q a t × (m s ≡ ok (a, t))) m s
  Ends_run {m} {s} (ends h) = ends (with_run m s (m s) refl h)

  pub Ends-bind :
      {A B : Type 0} {P : A → S → Type 0} {Q : B → S → Type 0} {m : Proc E S A} {f : A → Proc E S B}
      {s : S}
      → Meets F P m s
      → ((a : A) (t : S) → P a t → Meets F Q (f a) t)
      → Meets F Q (m >>= f) s
  Ends-bind {f} h k = ends (after f (Ends-Post h) k)

  pub Ends-read :
      {A B : Type 0} {R : A → Type 0} {Q : B → S → Type 0} {m : Proc E S A} {f : A → Proc E S B}
      {s : S}
      → Meets F (Reads R s) m s
      → ((a : A) → R a → Meets F Q (f a) s)
      → Meets F Q (m >>= f) s
  Ends-read {Q} {f} h k = Ends-bind h (λ a t (r, e). subst (λ u. Meets F Q (f a) u) (sym e) (k a r))

  pub Ends-pure :
      {A : Type 0} {Q : A → S → Type 0} {a : A} {s : S} → Q a s → Meets {E = E} F Q (pure a) s
  Ends-pure q = ends (Post.returns q)

  pub Ends-raise_by :
      {A : Type 0} {Q : A → S → Type 0} {e : E} {s : S} → F e → Meets F Q (raise e) s
  Ends-raise_by f = ends (Post.raises f)

  pub Ends-get :
      {B : Type 0} {Q : B → S → Type 0} (f : S → Proc E S B) {s : S}
      → Meets F Q (f s) s
      → Meets F Q (get_state >>= f) s
  Ends-get f (ends h) = ends h

  pub Ends-modify :
      {B : Type 0} {Q : B → S → Type 0} {g : S → S} (f : Unit {0} → Proc E S B) {s : S}
      → Meets F Q (f tt) (g s)
      → Meets F Q (modify g >>= f) s
  Ends-modify f (ends h) = ends h

  pub Ends-if :
      {A : Type 0} {Q : A → S → Type 0} (b : Bool) {m n : Proc E S A} {s : S}
      → (b ≡ true → Meets F Q m s)
      → (b ≡ false → Meets F Q n s)
      → Meets F Q (if b then m else n) s
  Ends-if true h k = h refl
  Ends-if false h k = k refl

module _ {E S : Type 0} where
  pub Ends-raise : {A : Type 0} {Q : A → S → Type 0} {e : E} {s : S} → Ends Q (raise e) s
  Ends-raise = Ends-raise_by tt

  -- what a run that allows no error comes to
  pub Runs-ok :
      {A : Type 0} {Q : A → S → Type 0} {m : Proc E S A} {s : S}
      → Runs Q m s
      → (a : A) × (t : S) × (m s ≡ ok (a, t)) × Q a t
  Runs-ok {A} {Q} {m} {s} (ends h) = from h refl
    where
      from :
          {r : Outcome E (A × S)}
          → Post (λ _. ⊥) Q r
          → m s ≡ r
          → (a : A) × (t : S) × (m s ≡ ok (a, t)) × Q a t
      from (Post.returns q) e = (_, _, e, q)
      from (Post.raises bad) e = absurd bad
