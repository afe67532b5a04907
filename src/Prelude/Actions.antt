-- ===== src/Prelude/Actions.antt =====
-- Code that changes a state `S`, may fail with an error `E`, may panic, and may wait for the other
-- side for ever.
use mathlib.Core.Path.{◌≡◌, refl, ap}
use mathlib.Core.Logic.{◌≢◌}
use mathlib.Core.Bool.{Bool, true, false}
use rdows.Prelude.Tests.{if◌then◌else◌}
use rdows.Prelude.Results.{Result}

-- `waiting`: an `await` that does not return, since nothing more arrives.
pub data Outcome (E A : Type 0) : Type 0 where
  ok : A → Outcome E A
  err : E → Outcome E A
  panic : Outcome E A
  waiting : Outcome E A

abbrev pub Action : Type 0 → Type 0 → Type 0 → Type 0
Action E S A = S → Outcome E A × S

abbrev pub from_result : {E A : Type 0} → Result E A → Outcome E A
from_result (Result.ok a) = ok a
from_result (Result.err e) = err e
from_result Result.panic = panic

-- Ends without a value: by an error, a panic, or a wait.
pub data Stops {E A : Type 0} : Outcome E A → Type 0 where
  by_err : {e : E} → Stops (err e)
  by_panic : Stops panic
  by_waiting : Stops waiting

-- The two end without a value, in the same way.
pub data Halts {E A B : Type 0} : Outcome E A → Outcome E B → Type 0 where
  both_err : {e : E} → Halts (err e) (err e)
  both_panic : Halts panic panic
  both_waiting : Halts waiting waiting

pub err-ne-ok : {E A : Type 0} {e : E} {a : A} → err e ≢ ok a
err-ne-ok h = cc h

pub waiting-ne-ok : {E A : Type 0} {o : Outcome E A} {a : A} → o ≡ waiting → o ≢ ok a
waiting-ne-ok h k = cc (h, k)

module _ {E S : Type 0} where
  unfoldable pub pure : {A : Type 0} → A → Action E S A
  pure a s = (ok a, s)

  unfoldable pub fail : {A : Type 0} → E → Action E S A
  fail e s = (err e, s)

  -- A computation that does not change the state.
  unfoldable pub lift : {A : Type 0} → Result E A → Action E S A
  lift r s = (from_result r, s)

  unfoldable pub this : Action E S S
  this s = (ok s, s)

  unfoldable pub modify : (S → S) → Action E S (Unit {0})
  modify f s = (ok tt, f s)

  infixl 5 ◌>>=◌ ◌>>◌
  unfoldable pub ◌>>=◌ : {A B : Type 0} → Action E S A → (A → Action E S B) → Action E S B
  ◌>>=◌ m f s =
      let (r, t) = m s in
      elim r [ ok a ↦ f a t | err e ↦ (err e, t) | panic ↦ (panic, t) | waiting ↦ (waiting, t) ]

  unfoldable pub ◌>>◌ : {A B : Type 0} → Action E S A → Action E S B → Action E S B
  unfolding ◌>>=◌
  m >> k = m >>= λ _. k

  -- What `m >>= f` makes of the end of `m`.
  pub bind-to :
      {A B : Type 0} (m : Action E S A) (f : A → Action E S B) {o : Outcome E A} {s t : S}
      → m s ≡ (o, t)
      → (m >>= f) s ≡ (elim o [
        | ok a ↦ f a t
        | err c ↦ (err c, t)
        | panic ↦ (panic, t)
        | waiting ↦ (waiting, t)
      ])
  unfolding ◌>>=◌
  bind-to m f e =
      ap
        (λ o. elim o.0 [
          | ok a ↦ f a o.1
          | err c ↦ (err c, o.1)
          | panic ↦ (panic, o.1)
          | waiting ↦ (waiting, o.1)
        ])
        e

  pub bind-ok :
      {A B : Type 0} (m : Action E S A) (f : A → Action E S B) {a : A} {s t : S}
      → m s ≡ (ok a, t)
      → (m >>= f) s ≡ f a t
  bind-ok m f e = bind-to m f e

  pub bind-err :
      {A B : Type 0} (m : Action E S A) (f : A → Action E S B) {e : E} {s t : S}
      → m s ≡ (err e, t)
      → (m >>= f) s ≡ (err e, t)
  bind-err m f e = bind-to m f e

  pub bind-panic :
      {A B : Type 0} (m : Action E S A) (f : A → Action E S B) {s t : S}
      → m s ≡ (panic, t)
      → (m >>= f) s ≡ (panic, t)
  bind-panic m f e = bind-to m f e

  pub bind-waiting :
      {A B : Type 0} (m : Action E S A) (f : A → Action E S B) {s t : S}
      → m s ≡ (waiting, t)
      → (m >>= f) s ≡ (waiting, t)
  bind-waiting m f e = bind-to m f e

  -- The end of `m >>= f` is that of `f` on the value of `m`, or that of `m`.
  pub bind-cases :
      {A B : Type 0} (Q : Outcome E B × S → Type 0) (m : Action E S A) (f : A → Action E S B)
      (s : S)
      → ((a : A) (t : S) → m s ≡ (ok a, t) → Q (f a t))
      → ((o : Outcome E B) → Stops o → Q (o, (m s).1))
      → Q ((m >>= f) s)
  unfolding ◌>>=◌
  bind-cases {A = A} {B} Q m f s goes stops = go (m s) goes stops
    where
      go :
          (p : Outcome E A × S)
          → ((a : A) (t : S) → p ≡ (ok a, t) → Q (f a t))
          → ((o : Outcome E B) → Stops o → Q (o, p.1))
          → Q (elim p.0 [
            | ok a ↦ f a p.1
            | err c ↦ (err c, p.1)
            | panic ↦ (panic, p.1)
            | waiting ↦ (waiting, p.1)
          ])
      go (ok a, t) g st = g a t refl
      go (err c, t) g st = st (err c) by_err
      go (panic, t) g st = st panic by_panic
      go (waiting, t) g st = st waiting by_waiting

  -- The same of two actions that begin with `m`.
  pub bind-both :
      {A B C : Type 0} (Q : Outcome E B × S → Outcome E C × S → Type 0) (m : Action E S A)
      (f : A → Action E S B) (g : A → Action E S C) (s : S)
      → ((a : A) (t : S) → m s ≡ (ok a, t) → Q (f a t) (g a t))
      → ((o : Outcome E A) (b : Outcome E B) (c : Outcome E C) (t : S)
          → m s ≡ (o, t)
          → Halts o b
          → Halts b c
          → Q (b, t) (c, t))
      → Q ((m >>= f) s) ((m >>= g) s)
  unfolding ◌>>=◌
  bind-both {A = A} {B} {C} Q m f g s goes stops = go (m s) goes stops
    where
      go :
          (p : Outcome E A × S)
          → ((a : A) (t : S) → p ≡ (ok a, t) → Q (f a t) (g a t))
          → ((o : Outcome E A) (b : Outcome E B) (c : Outcome E C) (t : S)
              → p ≡ (o, t)
              → Halts o b
              → Halts b c
              → Q (b, t) (c, t))
          → Q
              (elim p.0 [
                | ok a ↦ f a p.1
                | err x ↦ (err x, p.1)
                | panic ↦ (panic, p.1)
                | waiting ↦ (waiting, p.1)
              ])
              (elim p.0 [
                | ok a ↦ g a p.1
                | err x ↦ (err x, p.1)
                | panic ↦ (panic, p.1)
                | waiting ↦ (waiting, p.1)
              ])
      go (ok a, t) h st = h a t refl
      go (err x, t) h st = st (err x) (err x) (err x) t refl both_err both_err
      go (panic, t) h st = st panic panic panic t refl both_panic both_panic
      go (waiting, t) h st = st waiting waiting waiting t refl both_waiting both_waiting

  pub bind-halts :
      {A B : Type 0} (Q : Outcome E B × S → Type 0) (m : Action E S A) (f : A → Action E S B)
      (s : S)
      → ((a : A) (t : S) → m s ≡ (ok a, t) → Q (f a t))
      → ((o : Outcome E A) (b : Outcome E B) (t : S) → m s ≡ (o, t) → Halts o b → Q (b, t))
      → Q ((m >>= f) s)
  bind-halts Q m f s goes stops =
      bind-both (λ p _. Q p) m f f s goes (λ o b c t e h _. stops o b t e h)

  pub if-true :
      {A : Type 0} {b : Bool} (x y : Action E S A) (s : S) → b ≡ true → (if b then x else y) s ≡ x s
  if-true x y s e = ap (λ b. (if b then x else y) s) e

  pub if-false :
      {A : Type 0} {b : Bool} (x y : Action E S A) (s : S)
      → b ≡ false
      → (if b then x else y) s ≡ y s
  if-false x y s e = ap (λ b. (if b then x else y) s) e

-- A method of a part of the state.
unfoldable pub zoom : {E S T A : Type 0} → (T → S) → (S → T → T) → Action E S A → Action E T A
zoom get put m t = let (r, s) = m (get t) in (r, put s t)

-- `map_err`
unfoldable pub with_error : {E F S A : Type 0} → (E → F) → Action E S A → Action F S A
with_error f m s =
    let (r, t) = m s in
    elim r [
      | ok a ↦ (ok a, t)
      | err e ↦ (err (f e), t)
      | panic ↦ (panic, t)
      | waiting ↦ (waiting, t)
    ]
