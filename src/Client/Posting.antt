-- ===== src/Client/Posting.antt =====
-- How the parts of a work request end (crates/rdows-client/src/verbs.rs).
use rdows.Prelude.{
  ℕ, ◌≡◌, refl, sym, ap, ◌∙◌, List, false, Option, none, some, Bool-cases, inl, inr,
}
use rdows.Prelude.Actions.{
  ok, Action, pure, fail, this, ◌>>=◌, ◌>>◌, modify, bind-both, bind-halts, bind-ok, if-true,
  err-ne-ok,
}
use mathlib.Core.Path.{subst}
use rdows.Core.Error
use rdows.Core.Error.{ErrorCode, RdowsError, protocol, unexpected_message, err_cq_overflow}
use rdows.Core.Opcode.{Opcode}
use rdows.Core.Message.{RdowsMessage, header}
use rdows.Client.Ending.{
  Queued, error_of, Ends, unanswered, refused, unexpected_answer, unfinished, completed,
}
use rdows.Client.CompletionQueue.{CompletionQueue, is_full, push}
use rdows.Client.Wire.{Env}
use rdows.Client.Connection.{Client, update}
use rdows.Client.Verbs.{Verb, complete, complete_error, require_room}
use rdows.Client.QueueKept.{
  KeepsQueue, KeepsQueue->>=, KeepsQueue-this, KeepsQueue-if, KeepsQueue-fail, KeepsQueue-pure,
}

module _ {N A : Type 0} (wrid : ℕ) (opcode : Opcode)
    (finish : RdowsMessage → Option (Action RdowsError (Client N) A)) (q : CompletionQueue) where
  -- A work request, and its part up to the answer, wherever the queue is `q`.
  pub record Posts (request : Action RdowsError (Client N) RdowsMessage)
      (verb : Action RdowsError (Client N) A) : Type 0 where
    pub run : (c : Client N) → c.conn.cq ≡ q → Ends wrid opcode finish q (request c) (verb c)

  -- What follows the answer `m`.
  pub record Answers (m : RdowsMessage) (k : Action RdowsError (Client N) A) : Type 0 where
    pub run : (d : Client N) → d.conn.cq ≡ q → Ends wrid opcode finish q (ok m, d) (k d)

module _ {N A : Type 0} {wrid : ℕ} {opcode : Opcode}
    {finish : RdowsMessage → Option (Action RdowsError (Client N) A)} {q : CompletionQueue} where
  pub Posts->>= :
      {B : Type 0} {m : Action RdowsError (Client N) B}
      {g : B → Action RdowsError (Client N) RdowsMessage} {f : B → Action RdowsError (Client N) A}
      → KeepsQueue m
      → ((b : B) → Posts wrid opcode finish q (g b) (f b))
      → Posts wrid opcode finish q (m >>= g) (m >>= f)
  Posts->>= {m = m} {g} {f} hm hf = record {
    run = λ c same.
        bind-both (Ends wrid opcode finish q) m g f c
          (λ b t e. (hf b).run t (sym (ap (λ p. p.1.conn.cq) e) ∙ hm.run c ∙ same))
          (λ o x y t e _ halts.
            unanswered x y t halts (sym (ap (λ p. p.1.conn.cq) e) ∙ hm.run c ∙ same));
  }

  pub Posts->> :
      {B : Type 0} {m : Action RdowsError (Client N) B}
      {g : Action RdowsError (Client N) RdowsMessage} {k : Action RdowsError (Client N) A}
      → KeepsQueue m
      → Posts wrid opcode finish q g k
      → Posts wrid opcode finish q (m >> g) (m >> k)
  unfolding ◌>>◌
  Posts->> hm hk = Posts->>= hm (λ _. hk)

  -- The last call of the first part receives the answer.
  pub Posts-answer :
      {m : Action RdowsError (Client N) RdowsMessage}
      {f : RdowsMessage → Action RdowsError (Client N) A}
      → KeepsQueue m
      → ((a : RdowsMessage) → Answers wrid opcode finish q a (f a))
      → Posts wrid opcode finish q m (m >>= f)
  Posts-answer {m = m} {f} hm hf = record {
    run = λ c same.
        bind-halts (Ends wrid opcode finish q (m c)) m f c
          (λ a t e.
            subst (λ p. Ends wrid opcode finish q p (f a t)) (sym e)
              ((hf a).run t (sym (ap (λ p. p.1.conn.cq) e) ∙ hm.run c ∙ same)))
          (λ o out t e halts.
            subst (λ p. Ends wrid opcode finish q p (out, t)) (sym e)
              (unanswered o out t halts (sym (ap (λ p. p.1.conn.cq) e) ∙ hm.run c ∙ same)));
  }

  pub Answers-unexpected :
      (m : RdowsMessage) (expected : List ℕ)
      → error_of m ≡ none
      → finish m ≡ none
      → Answers wrid opcode finish q m (fail (unexpected_message expected (header m).opcode))
  unfolding fail
  Answers-unexpected m expected e f = record {
    run = λ d same. unexpected_answer m expected d e f same;
  }

module _ {N : Type 0} (env : Env N) where
  require_room-ok :
      (c d : Client N) (u : Unit {0}) → require_room env c ≡ (ok u, d) → is_full c.conn.cq ≡ false
  unfolding require_room ◌>>=◌ this fail
  require_room-ok c d u e = elim (Bool-cases (is_full c.conn.cq)) [
    | inl full ↦ absurd (
        err-ne-ok
          (ap (λ p. p.0) (sym (if-true (fail (protocol err_cq_overflow)) (pure tt) c full) ∙ e)))
    | inr room ↦ room
  ]

  require_room-KeepsQueue : KeepsQueue (require_room env)
  unfolding require_room
  require_room-KeepsQueue =
      KeepsQueue->>= KeepsQueue-this (λ c. KeepsQueue-if _ (KeepsQueue-fail _) (KeepsQueue-pure _))

module _ {N : Type 0} (env : Env N) {q : CompletionQueue} where
  complete-Queued :
      (wrid status byte_count : ℕ) (opcode : Opcode) (c : Client N)
      → c.conn.cq ≡ q
      → is_full q ≡ false
      → (d : Client N) × (complete env wrid status opcode byte_count c ≡ (ok tt, d))
        × Queued wrid status opcode q d.conn.cq
  unfolding complete update modify push is_full
  complete-Queued wrid status byte_count opcode c e room = (
    _,
    refl,
    record {
      had_room = room;
      entry = record {
        wrid = wrid;
        status = status;
        opcode = opcode;
        vendor_error = 0;
        byte_count = byte_count;
        qp_number = c.conn.session_id;
      };
      appended = rw (e, room) refl;
      same_wrid = refl;
      same_status = refl;
      same_opcode = refl;
    },
  )

  module _ {A : Type 0} {wrid : ℕ} {opcode : Opcode} {finish : RdowsMessage → Option (Verb env A)}
      (room : is_full q ≡ false) where
    pub complete_error-Answers :
        (m : RdowsMessage) (code : ErrorCode)
        → error_of m ≡ some code
        → Answers wrid opcode finish q m (complete_error env wrid opcode code)
    unfolding complete_error ◌>>◌ fail
    complete_error-Answers m code e = record {
      run = λ d same.
          let (t, out, queued) = complete-Queued wrid (Error.to_u16 code) 0 opcode d same room in
          subst (Ends wrid opcode finish q (ok m, d))
            (sym (
              bind-ok (complete env wrid (Error.to_u16 code) opcode 0) (λ _. fail (protocol code))
                out))
            (refused m code d t e queued);
    }

    completed-Answers :
        (m : RdowsMessage) (byte_count : ℕ) (a : A) (k : Verb env A)
        → finish m ≡ some (pure a)
        → ((d f : Client N)
            → complete env wrid 0 opcode byte_count d ≡ (ok tt, f)
            → k d ≡ (ok a, f))
        → Answers wrid opcode finish q m k
    unfolding pure
    completed-Answers m byte_count a k due out = record {
      run = λ d same.
          let (f, e, queued) = complete-Queued wrid 0 byte_count opcode d same room in
          subst (Ends wrid opcode finish q (ok m, d)) (sym (out d f e))
            (completed m (pure a) a d d f due refl queued);
    }

    pub complete-Answers_value :
        (m : RdowsMessage) (byte_count : ℕ) (a : A)
        → finish m ≡ some (pure a)
        → Answers wrid opcode finish q m (complete env wrid 0 opcode byte_count >> pure a)
    unfolding ◌>>◌ pure
    complete-Answers_value m byte_count a due =
        completed-Answers m byte_count a _ due
          (λ d f e. bind-ok (complete env wrid 0 opcode byte_count) (λ _. pure a) e)

  module _ {wrid : ℕ} {opcode : Opcode} {finish : RdowsMessage → Option (Verb env (Unit {0}))}
      (room : is_full q ≡ false) where
    pub complete-Answers :
        (m : RdowsMessage) (byte_count : ℕ)
        → finish m ≡ some (pure tt)
        → Answers wrid opcode finish q m (complete env wrid 0 opcode byte_count)
    complete-Answers m byte_count due = completed-Answers room m byte_count tt _ due (λ d f e. e)

    -- What is left to do, and the completion with status 0.
    pub complete-Answers_after :
        (m : RdowsMessage) (byte_count : ℕ) {rest : Verb env (Unit {0})}
        → KeepsQueue rest
        → finish m ≡ some rest
        → Answers wrid opcode finish q m (rest >> complete env wrid 0 opcode byte_count)
    unfolding ◌>>◌
    complete-Answers_after m byte_count {rest} keeps due = record {
      run = λ d same.
          bind-halts (Ends wrid opcode finish q (ok m, d)) rest
            (λ _. complete env wrid 0 opcode byte_count) d
            (λ u t e.
              let kept = sym (ap (λ p. p.1.conn.cq) e) ∙ keeps.run d ∙ same in
              let (f, out, queued) = complete-Queued wrid 0 byte_count opcode t kept room in
              subst (Ends wrid opcode finish q (ok m, d)) (sym out)
                (completed m rest u d t f due e queued))
            (λ o out t e halts.
              unfinished m rest o out d t due e halts
                (sym (ap (λ p. p.1.conn.cq) e) ∙ keeps.run d ∙ same));
    }

  pub Posts-require_room :
      {A : Type 0} {wrid : ℕ} {opcode : Opcode} {finish : RdowsMessage → Option (Verb env A)}
      {g : Verb env RdowsMessage} {k : Verb env A}
      → (is_full q ≡ false → Posts wrid opcode finish q g k)
      → Posts wrid opcode finish q (require_room env >> g) (require_room env >> k)
  unfolding ◌>>◌
  Posts-require_room {wrid = wrid} {opcode} {finish} {g} {k} h = record {
    run = λ c same.
        let kept = (require_room-KeepsQueue env).run c in
        bind-both (Ends wrid opcode finish q) (require_room env) (λ _. g) (λ _. k) c
          (λ u t e.
            (h (sym (ap is_full same) ∙ require_room-ok env c t u e)).run t
              (sym (ap (λ p. p.1.conn.cq) e) ∙ kept ∙ same))
          (λ o x y t e _ halts.
            unanswered x y t halts (sym (ap (λ p. p.1.conn.cq) e) ∙ kept ∙ same));
  }
