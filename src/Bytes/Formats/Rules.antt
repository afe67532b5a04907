-- ===== src/Bytes/Formats/Rules.antt =====
-- The rules of the judgements.
use rdows.Prelude.{
  ℕ, ◌-◌, ◌≤◌, ◌<◌, ◌^◌, ◌≡◌, ◌≢◌, refl, sym, ap, ◌∙◌, List, [], ◌++◌, append-nil, append_assoc, ok,
  err, panic, some, Option, length, take, drop, length-take, length-drop, take-append-drop, arith,
  Result,
}
use mathlib.Core.Path.{subst}
use rdows.Bytes.Order.{to_be, from_be, from_be-to_be, length-to_be}
use rdows.Bytes.Api.{Reads}
use rdows.Bytes.Formats.Defs.{
  Encoder, ◌⨟◌, skip, Decoder, pure, fail, read, ◌>>=◌, ◌>>◌, lift, jump, Writes, Decodes, Safe,
}

pub Writes-⨟ :
    {e f : Encoder} {bs cs : List ℕ} → Writes e bs → Writes f cs → Writes (e ⨟ f) (bs ++ cs)
unfolding ◌⨟◌
Writes-⨟ {e} {f} {bs} {cs} we wf = record {
  run = λ buf. rw (we.run buf, wf.run (buf ++ bs), append_assoc);
}

pub Writes-skip : Writes skip []
unfolding skip
Writes-skip = record { run = λ buf. sym (append-nil buf) }

module _ {E A : Type 0} where
  pub Decodes-pure : {a : A} → Decodes {E = E} (pure a) [] a
  unfolding pure
  Decodes-pure = record { run = λ rest. refl }

  pub Decodes-lift : {r : Result E A} {a : A} → r ≡ ok a → Decodes (lift r) [] a
  unfolding lift
  Decodes-lift h = record { run = λ rest. rw h }

  pub Decodes->>= :
      {B : Type 0} {m : Decoder E A} (f : A → Decoder E B) {bs cs : List ℕ} {a : A} {b : B}
      → Decodes m bs a
      → Decodes (f a) cs b
      → Decodes (m >>= f) (bs ++ cs) b
  unfolding ◌>>=◌
  Decodes->>= f {bs} {cs} hm hf = record {
    run = λ rest. rw (append_assoc bs cs rest) (rw (hm.run (cs ++ rest), ◌>>=◌) (hf.run rest));
  }

  pub Decodes-result :
      {d : Decoder E A} {bs : List ℕ} {a b : A} → a ≡ b → Decodes d bs a → Decodes d bs b
  Decodes-result {d} {bs} e h = subst (Decodes d bs) e h

  -- The last step of a decoder that returns what it has read.
  pub Decodes-last :
      {B : Type 0} {m : Decoder E A} (g : A → B) {bs : List ℕ} {a : A}
      → Decodes m bs a
      → Decodes (m >>= λ v. pure (g v)) bs (g a)
  unfolding ◌>>=◌ pure
  Decodes-last g hm = record { run = λ rest. rw (hm.run rest, ◌>>=◌) }

  pub Decodes->>_pure :
      {B : Type 0} {m : Decoder E A} {b : B} {bs : List ℕ} {a : A}
      → Decodes m bs a
      → Decodes (m >> pure b) bs b
  unfolding ◌>>◌ ◌>>=◌ pure
  Decodes->>_pure hm = record { run = λ rest. rw (hm.run rest, ◌>>◌, ◌>>=◌) }

  pub Decodes-lift->>= :
      {B : Type 0} {r : Result E A} (f : A → Decoder E B) {bs : List ℕ} {a : A} {b : B}
      → r ≡ ok a
      → Decodes (f a) bs b
      → Decodes (lift r >>= f) bs b
  unfolding ◌>>=◌ lift
  Decodes-lift->>= f e h = record { run = λ rest. rw (e, lift, ◌>>=◌) (h.run rest) }

  pub Decodes->> :
      {B : Type 0} {m : Decoder E A} {k : Decoder E B} {bs cs : List ℕ} {a : A} {b : B}
      → Decodes m bs a
      → Decodes k cs b
      → Decodes (m >> k) (bs ++ cs) b
  unfolding ◌>>◌
  Decodes->> {k} hm hk = Decodes->>= (λ _. k) hm hk

pub Decodes-jump :
    {E : Type 0} (adv : List ℕ → Option (List ℕ)) {bs : List ℕ}
    → ((rest : List ℕ) → adv (bs ++ rest) ≡ some rest)
    → Decodes {E = E} (jump adv) bs tt
unfolding jump
Decodes-jump adv h = record { run = λ rest. rw (h rest, jump) }

pub Decodes-copy :
    {E A : Type 0} (get : List ℕ → Option (A × List ℕ)) {bs : List ℕ} {a : A}
    → ((rest : List ℕ) → get (bs ++ rest) ≡ some (a, rest))
    → Decodes {E = E} (read get) bs a
unfolding read
Decodes-copy get h = record { run = λ rest. rw (h rest, read) }

pub Decodes-read :
    {E : Type 0} (w : ℕ) {get : List ℕ → Option (ℕ × List ℕ)} {v : ℕ}
    → Reads w get
    → v < 256 ^ w
    → Decodes {E = E} (read get) (to_be w v) v
unfolding read
Decodes-read w {get} {v} r h = record {
  run = λ rest. rw (r.full (to_be w v) rest (length-to_be w v), read) (rw (from_be-to_be w v h));
}

module _ {E A : Type 0} where
  Safe_bind_at :
      {B : Type 0} (m : Decoder E A) (f : A → Decoder E B) (buf : List ℕ)
      (r : Result E (A × List ℕ))
      → m buf ≡ r
      → m buf ≢ panic
      → ((a : A) (rest : List ℕ) → f a rest ≢ panic)
      → (m >>= f) buf ≢ panic
  unfolding ◌>>=◌
  Safe_bind_at m f buf (ok (a, rest)) e hm hf = rw (e, ◌>>=◌) (hf a rest)
  Safe_bind_at m f buf (err x) e hm hf = rw (e, ◌>>=◌) (λ p. cc)
  Safe_bind_at m f buf panic e hm hf = absurd (hm e)

  pub Safe-pure : {n : ℕ} (a : A) → Safe {E = E} n (pure a)
  unfolding pure
  Safe-pure a = record { run = λ buf h e. cc }

  pub Safe-fail : {n : ℕ} (e : E) → Safe {A = A} n (fail e)
  unfolding fail
  Safe-fail x = record { run = λ buf h e. cc }

  pub Safe-lift : {n : ℕ} {r : Result E A} → r ≢ panic → Safe n (lift r)
  unfolding lift
  Safe-lift {r = ok a} h = record { run = λ buf k e. cc }
  Safe-lift {r = err x} h = record { run = λ buf k e. cc }
  Safe-lift {r = panic} h = absurd (h refl)

  pub Safe-lift->>= :
      {B : Type 0} {n : ℕ} {r : Result E A} {f : A → Decoder E B}
      → r ≢ panic
      → ((a : A) → Safe n (f a))
      → Safe n (lift r >>= f)
  unfolding ◌>>=◌ lift
  Safe-lift->>= {r = ok a} h s = s a
  Safe-lift->>= {r = err x} h s = record { run = λ buf k e. cc }
  Safe-lift->>= {r = panic} h s = absurd (h refl)

  -- A part that needs no bytes may stand behind one that leaves an unknown number.
  pub Safe->>= :
      {B : Type 0} {n : ℕ} {m : Decoder E A} {f : A → Decoder E B}
      → Safe n m
      → ((a : A) → Safe 0 (f a))
      → Safe n (m >>= f)
  unfolding ◌>>=◌
  Safe->>= {m} {f} hm hf = record {
    run = λ buf h.
        Safe_bind_at m f buf (m buf) refl (hm.run buf h) (λ a rest. (hf a).run rest (omega arith));
  }

  pub Safe-weaken : {m n : ℕ} {d : Decoder E A} → m ≤ n → Safe m d → Safe n d
  Safe-weaken h s = record { run = λ buf k. s.run buf (omega arith) }

-- A read of `w` bytes leaves `n - w` of `n`.
pub Safe-read :
    {E B : Type 0} (w : ℕ) {n : ℕ} {get : List ℕ → Option (ℕ × List ℕ)} {f : ℕ → Decoder E B}
    → Reads w get
    → w ≤ n
    → ((v : ℕ) → Safe (n - w) (f v))
    → Safe n (read get >>= f)
unfolding ◌>>=◌ read
Safe-read w {n} {get} {f} r fits s = record {
  run = λ buf h.
      let bs : List ℕ = take w buf in
      let rest : List ℕ = drop w buf in
      let e : get buf ≡ some (from_be bs, rest) =
        ap get (sym (take-append-drop w buf))
        ∙ r.full bs rest (omega (arith, length-take {0} w buf)) in
      rw (e, read, ◌>>=◌) ((s (from_be bs)).run rest (omega (arith, length-drop {0} w buf)));
}

pub Safe-jump :
    {E B : Type 0} (w : ℕ) {n : ℕ} (adv : ℕ → List ℕ → Option (List ℕ)) {d : Decoder E B}
    → ((bs rest : List ℕ) → adv (length bs) (bs ++ rest) ≡ some rest)
    → w ≤ n
    → Safe (n - w) d
    → Safe n (jump (adv w) >> d)
unfolding ◌>>◌ jump
Safe-jump w {n} adv r fits s = record {
  run = λ buf h.
      let bs : List ℕ = take w buf in
      let rest : List ℕ = drop w buf in
      let e : adv w buf ≡ some rest =
        ap (adv w) (sym (take-append-drop w buf))
        ∙ ap (λ (k : ℕ). adv k (bs ++ rest)) (omega (arith, length-take {0} w buf))
        ∙ r bs rest in
      rw (e, jump, ◌>>=◌) (s.run rest (omega (arith, length-drop {0} w buf)));
}

-- What a step returns where enough bytes are there.
pub run-read :
    {E B : Type 0} (w : ℕ) {get : List ℕ → Option (ℕ × List ℕ)} (f : ℕ → Decoder E B) (buf : List ℕ)
    → Reads w get
    → w ≤ length buf
    → (read get >>= f) buf ≡ f (from_be (take w buf)) (drop w buf)
unfolding ◌>>=◌ read
run-read w {get} f buf r h =
    let e : get buf ≡ some (from_be (take w buf), drop w buf) =
      ap get (sym (take-append-drop w buf))
      ∙ r.full (take w buf) (drop w buf) (omega (arith, length-take {0} w buf)) in
    rw (e, read, ◌>>=◌)

pub panic-lift :
    {E A B : Type 0} {r : Result E A} (f : A → Decoder E B) (buf : List ℕ)
    → r ≡ panic
    → (lift r >>= f) buf ≡ panic
unfolding ◌>>=◌ lift
panic-lift f buf e = rw (e, lift, ◌>>=◌)
