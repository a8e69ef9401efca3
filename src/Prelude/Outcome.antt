-- ===== src/Prelude/Outcome.antt =====
-- What a call can come to, and programs that pass a state along.
use mathlib.Core.Path.{◌≡◌, refl}

-- `fault` is behaviour that C++ leaves undefined, such as a read out of bounds. `stuck` is no outcome
-- of the program: a loop of the model ran out of fuel.
pub data Outcome (E A : Type 0) : Type 0 where
  ok : A → Outcome E A
  err : E → Outcome E A
  fault : Outcome E A
  stuck : Outcome E A

abbrev pub Proc : Type 0 → Type 0 → Type 0 → Type 0
Proc E S A = S → Outcome E (A × S)

infixl 5 ◌>>=◌ ◌>>◌
abbrev pub ◌>>=◌ : {E S A B : Type 0} → Proc E S A → (A → Proc E S B) → Proc E S B
◌>>=◌ m f s = elim (m s) [ ok (a, t) ↦ f a t | err e ↦ err e | fault ↦ fault | stuck ↦ stuck ]

abbrev pub ◌>>◌ : {E S B : Type 0} → Proc E S (Unit {0}) → Proc E S B → Proc E S B
m >> k = m >>= λ _. k

abbrev pub pure : {E S A : Type 0} → A → Proc E S A
pure a s = ok (a, s)

abbrev pub raise : {E S A : Type 0} → E → Proc E S A
raise e s = err e

abbrev pub faults : {E S A : Type 0} → Proc E S A
faults s = fault

abbrev pub stucks : {E S A : Type 0} → Proc E S A
stucks s = stuck

abbrev pub get_state : {E S : Type 0} → Proc E S S
get_state s = ok (s, s)

abbrev pub put_state : {E S : Type 0} → S → Proc E S (Unit {0})
put_state t s = ok (tt, t)

abbrev pub modify : {E S : Type 0} → (S → S) → Proc E S (Unit {0})
modify f s = ok (tt, f s)

-- inversion of a successful bind
pub >>=-eq-ok :
    {E S A B : Type 0} (m : Proc E S A) (f : A → Proc E S B) (s : S) {b : B} {u : S}
    → (m >>= f) s ≡ ok (b, u)
    → (a : A) × (t : S) × (m s ≡ ok (a, t)) × (f a t ≡ ok (b, u))
>>=-eq-ok {E} {S} {A} {B} m f s {b} {u} h = from (m s) refl h
  where
    from :
        (r : Outcome E (A × S))
        → m s ≡ r
        → elim r [ ok (a, t) ↦ f a t | err e ↦ err e | fault ↦ fault | stuck ↦ stuck ] ≡ ok (b, u)
        → (a : A) × (t : S) × (m s ≡ ok (a, t)) × (f a t ≡ ok (b, u))
    from (ok (a, t)) e k = (a, t, e, k)
    from (err x) e k = cc
    from fault e k = cc
    from stuck e k = cc
