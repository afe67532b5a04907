-- ===== src/Server/Session/Numbering.antt =====
-- The sequence numbers of the messages of a session.
use rdows.Prelude.{
  ℕ, suc, ◌+◌, ◌%◌, ◌^◌, ◌≡◌, refl, ◌∙◌, List, [], ◌∷◌, ◌++◌, Bool, true, false, Result, length,
  length-append, arith, if◌then◌else◌, Result-cases, Option-cases, inl, inr,
}
use rdows.Core.Error.{ErrorCode, RdowsError}
use rdows.Core.Opcode.{Opcode}
use rdows.Core.Frame.{RdowsHeader, new_header}
use rdows.Core.Message.{RdowsMessage, header, encode}
use rdows.Server.Store.{MemoryStore}
use rdows.Server.Session.Defs.{
  Session, World, Env, Action, pure, fail, ◌>>=◌, ◌>>◌, lift, this, modify, next_header,
  send_message, reply, send_error,
}
use rdows.Server.Session.Handlers.{on_store}

-- The messages carry the numbers from `n` on, in a `u32`.
abbrev pub AreNumbered : ℕ → List RdowsMessage → Type 0
AreNumbered n [] = Unit
AreNumbered n (m ∷ ms) = ((header m).sequence ≡ n % 2 ^ 32) × AreNumbered (suc n) ms

-- All messages so far are numbered from 0 on, and the next number is due next.
pub record IsNumbered (w : World) : Type 0 where
  pub all : AreNumbered 0 w.sent
  pub next : w.session.next_seq ≡ length w.sent % 2 ^ 32

AreNumbered-append :
    (n : ℕ) (ms : List RdowsMessage) (m : RdowsMessage)
    → AreNumbered n ms
    → (header m).sequence ≡ (n + length ms) % 2 ^ 32
    → AreNumbered n (ms ++ (m ∷ []))
AreNumbered-append n [] m h e = (omega (arith, e), tt)
AreNumbered-append n (x ∷ ms) m h e = (h.0, AreNumbered-append (suc n) ms m h.1 (omega (arith, e)))

-- An action that keeps the numbering, however it ends.
pub record Keeps {A : Type 0} (m : Action A) : Type 0 where
  pub run : (w : World) → IsNumbered w → IsNumbered (m w).1

module _ {A : Type 0} where
  pub Keeps-pure : (a : A) → Keeps (pure a)
  unfolding pure
  Keeps-pure a = record { run = λ w h. h }

  pub Keeps-fail : (e : RdowsError) → Keeps {A = A} (fail e)
  unfolding fail
  Keeps-fail e = record { run = λ w h. h }

  pub Keeps-lift : (r : Result RdowsError A) → Keeps (lift r)
  unfolding lift
  Keeps-lift r = record { run = λ w h. h }

  pub Keeps->>= :
      {B : Type 0} {m : Action A} {f : A → Action B}
      → Keeps m
      → ((a : A) → Keeps (f a))
      → Keeps (m >>= f)
  unfolding ◌>>=◌
  Keeps->>= {m = m} {f} hm hf = record {
    run = λ w h. elim (Result-cases (m w).0) [
      | inl (a, e) ↦ rw (e, ◌>>=◌) ((hf a).run (m w).1 (hm.run w h))
      | inr (inl (code, e)) ↦ rw (e, ◌>>=◌) (hm.run w h)
      | inr (inr e) ↦ rw (e, ◌>>=◌) (hm.run w h)
    ];
  }

  pub Keeps->> : {B : Type 0} {m : Action A} {k : Action B} → Keeps m → Keeps k → Keeps (m >> k)
  unfolding ◌>>◌
  Keeps->> hm hk = Keeps->>= hm (λ _. hk)

  pub Keeps-if : (b : Bool) {m k : Action A} → Keeps m → Keeps k → Keeps (if b then m else k)
  Keeps-if true hm hk = hm
  Keeps-if false hm hk = hk

  pub Keeps-on_store :
      (method : MemoryStore → Result ErrorCode A × MemoryStore) → Keeps (on_store method)
  unfolding on_store
  Keeps-on_store method = record {
    run = λ w h. elim (Result-cases (method w.session.memory_store).0) [
      | inl (a, e) ↦ rw (e, on_store) (record { all = h.all; next = h.next })
      | inr (inl (code, e)) ↦ rw (e, on_store) (record { all = h.all; next = h.next })
      | inr (inr e) ↦ rw (e, on_store) (record { all = h.all; next = h.next })
    ];
  }

pub Keeps-this : Keeps this
unfolding this
Keeps-this = record { run = λ w h. h }

pub Keeps-modify :
    (f : Session → Session) → ((s : Session) → (f s).next_seq ≡ s.next_seq) → Keeps (modify f)
unfolding modify
Keeps-modify f e = record { run = λ w h. record { all = h.all; next = e w.session ∙ h.next } }

new_header-sequence :
    (opcode : Opcode) (session_id seq wrid : ℕ)
    → (new_header opcode session_id seq wrid).sequence ≡ seq
unfolding new_header
new_header-sequence opcode session_id seq wrid = refl

pub Keeps-reply :
    (env : Env) (opcode : Opcode) (wrid : ℕ) (build : RdowsHeader → RdowsMessage)
    → ((h : RdowsHeader) → (header (build h)).sequence ≡ h.sequence)
    → Keeps (reply env opcode wrid build)
unfolding reply ◌>>=◌ next_header send_message
Keeps-reply env opcode wrid build e = record {
  run = λ w h.
      let m : RdowsMessage =
        build (new_header opcode w.session.session_id w.session.next_seq wrid) in
      let grown : IsNumbered (record w {
        session = record w.session { next_seq = (w.session.next_seq + 1) % 2 ^ 32 };
        sent = w.sent ++ (m ∷ []);
      }) =
        record {
          all = AreNumbered-append 0 w.sent m h.all (
              e _
              ∙ new_header-sequence opcode w.session.session_id w.session.next_seq wrid
              ∙ h.next
              ∙ omega arith);
          next = omega (arith, h.next, length-append w.sent (m ∷ []));
        } in
      elim (Option-cases (env.link (length w.sent) (encode env.api m))) [
        | inl sent ↦ rw (sent, reply, ◌>>=◌, next_header, send_message) grown
        | inr (text, failed) ↦ rw (failed, reply, ◌>>=◌, next_header, send_message) grown
      ];
}

pub Keeps-send_error :
    (env : Env) (code : ErrorCode) (seq : ℕ) (text : List ℕ) → Keeps (send_error env code seq text)
unfolding send_error header
Keeps-send_error env code seq text = Keeps-reply env Opcode.error 0 _ (λ h. refl)
