-- ===== src/Client/QueueKept.antt =====
-- Actions of a connection that leave its completion queue as it is.
use rdows.Prelude.{
  ℕ, zero, suc, ◌≡◌, refl, sym, ap, ◌∙◌, List, length, Bool, true, false, Option, none, some,
  Result, if◌then◌else◌,
}
use rdows.Prelude.Actions.{
  Outcome, Action, pure, fail, lift, this, ◌>>=◌, ◌>>◌, modify, zoom, bind-cases,
}
use rdows.Core.Error.{RdowsError}
use rdows.Core.Opcode.{Opcode}
use rdows.Core.Frame.{RdowsHeader}
use rdows.Core.Message.{RdowsMessage}
use rdows.Core.Queue.Entry.{ScatterGatherEntry}
use rdows.Client.Wire.{Env, Wire}
use rdows.Client.Connection.{
  Connection, Client, credits_of, on_wire, update, next_header, validate_remote_seq, add_credits,
  recv_loop, recv_app_message,
}
use rdows.Client.Verbs.{submit, gather_sg_data, use_credit, require_credit, store_read}

pub record KeepsQueue {N A : Type 0} (m : Action RdowsError (Client N) A) : Type 0 where
  pub run : (c : Client N) → (m c).1.conn.cq ≡ c.conn.cq

module _ {N A : Type 0} where
  pub KeepsQueue-pure : (a : A) → KeepsQueue {N = N} (pure a)
  unfolding pure
  KeepsQueue-pure a = record { run = λ c. refl }

  pub KeepsQueue-fail : (e : RdowsError) → KeepsQueue {N = N} {A = A} (fail e)
  unfolding fail
  KeepsQueue-fail e = record { run = λ c. refl }

  KeepsQueue-lift : (r : Result RdowsError A) → KeepsQueue {N = N} (lift r)
  unfolding lift
  KeepsQueue-lift r = record { run = λ c. refl }

  pub KeepsQueue->>= :
      {B : Type 0} {m : Action RdowsError (Client N) A} {f : A → Action RdowsError (Client N) B}
      → KeepsQueue m
      → ((a : A) → KeepsQueue (f a))
      → KeepsQueue (m >>= f)
  KeepsQueue->>= {B = B} {m} {f} hm hf = record {
    run = λ c.
        bind-cases (λ (p : Outcome RdowsError B × Client N). p.1.conn.cq ≡ c.conn.cq) m f c
          (λ a t e. (hf a).run t ∙ sym (ap (λ p. p.1.conn.cq) e) ∙ hm.run c) (λ o st. hm.run c);
  }

  KeepsQueue->> :
      {B : Type 0} {m : Action RdowsError (Client N) A} {k : Action RdowsError (Client N) B}
      → KeepsQueue m
      → KeepsQueue k
      → KeepsQueue (m >> k)
  unfolding ◌>>◌
  KeepsQueue->> hm hk = KeepsQueue->>= hm (λ _. hk)

  pub KeepsQueue-if :
      (b : Bool) {m k : Action RdowsError (Client N) A}
      → KeepsQueue m
      → KeepsQueue k
      → KeepsQueue (if b then m else k)
  KeepsQueue-if true hm hk = hm
  KeepsQueue-if false hm hk = hk

  KeepsQueue-on_wire : (m : Action RdowsError (Wire N) A) → KeepsQueue (on_wire m)
  unfolding on_wire zoom
  KeepsQueue-on_wire m = record { run = λ c. refl }

module _ {N : Type 0} where
  pub KeepsQueue-this : KeepsQueue {N = N} this
  unfolding this
  KeepsQueue-this = record { run = λ c. refl }

  KeepsQueue-update :
      (f : Connection → Connection)
      → ((k : Connection) → (f k).cq ≡ k.cq)
      → KeepsQueue {N = N} (update f)
  unfolding update modify
  KeepsQueue-update f h = record { run = λ c. h c.conn }

  KeepsQueue-next_header :
      (opcode : Opcode) (wrid : ℕ) → KeepsQueue {N = N} (next_header opcode wrid)
  unfolding next_header
  KeepsQueue-next_header opcode wrid = record { run = λ c. refl }

ruleset queue_kept = (
  KeepsQueue-pure, KeepsQueue-fail, KeepsQueue-lift, KeepsQueue->>=, KeepsQueue->>, KeepsQueue-if,
  KeepsQueue-on_wire, KeepsQueue-this, KeepsQueue-update, KeepsQueue-next_header,
)

module _ {N : Type 0} (env : Env N) where
  pub submit-KeepsQueue :
      (opcode : Opcode) (wrid : ℕ) (build : RdowsHeader → RdowsMessage)
      → KeepsQueue (submit env opcode wrid build)
  unfolding submit
  submit-KeepsQueue opcode wrid build = search queue_kept depth 8

  pub gather_sg_data-KeepsQueue :
      (sg_list : List ScatterGatherEntry) → KeepsQueue (gather_sg_data env sg_list)
  unfolding gather_sg_data
  gather_sg_data-KeepsQueue sg_list = search queue_kept depth 8

  pub use_credit-KeepsQueue : KeepsQueue (use_credit env)
  unfolding use_credit
  use_credit-KeepsQueue =
      KeepsQueue->>= KeepsQueue-this
        (λ c. KeepsQueue->>= (KeepsQueue-lift _) (λ n. KeepsQueue-update _ (λ k. refl)))

  pub require_credit-KeepsQueue : KeepsQueue (require_credit env)
  unfolding require_credit
  require_credit-KeepsQueue = search queue_kept depth 8

  pub store_read-KeepsQueue :
      (lkey va : ℕ) (content : List ℕ) → KeepsQueue (store_read env lkey va content)
  unfolding store_read
  store_read-KeepsQueue lkey va content =
      KeepsQueue->>= KeepsQueue-this
        (λ c. KeepsQueue->>= (KeepsQueue-lift _) (λ n. KeepsQueue-update _ (λ k. refl)))

  validate_remote_seq-KeepsQueue : (m : RdowsMessage) → KeepsQueue {N = N} (validate_remote_seq m)
  unfolding validate_remote_seq
  validate_remote_seq-KeepsQueue m =
      KeepsQueue->>= KeepsQueue-this
        (λ c. KeepsQueue-if _ (KeepsQueue-fail _) (KeepsQueue-update _ (λ k. refl)))

  add_credits-KeepsQueue : (n : ℕ) → KeepsQueue (add_credits env n)
  unfolding add_credits
  add_credits-KeepsQueue n =
      KeepsQueue->>= KeepsQueue-this
        (λ c. KeepsQueue->>= (KeepsQueue-lift _) (λ n. KeepsQueue-update _ (λ k. refl)))

  option_KeepsQueue :
      (o : Option ℕ) (m : RdowsMessage) {next : Action RdowsError (Client N) RdowsMessage}
      → KeepsQueue next
      → KeepsQueue {N = N} (elim o [ some n ↦ (add_credits env n >> next) | none ↦ pure m ])
  option_KeepsQueue none m h = KeepsQueue-pure {N = N} m
  option_KeepsQueue (some n) m h = KeepsQueue->> (add_credits-KeepsQueue n) h

  recv_loop-KeepsQueue : (fuel : ℕ) → KeepsQueue (recv_loop env fuel)
  unfolding recv_loop
  recv_loop-KeepsQueue zero = record { run = λ c. refl }
  recv_loop-KeepsQueue (suc fuel) = KeepsQueue->>= (KeepsQueue-on_wire _) (λ m.
      KeepsQueue->> (validate_remote_seq-KeepsQueue m)
        (option_KeepsQueue (credits_of m) m (recv_loop-KeepsQueue fuel)))

  pub recv_app_message-KeepsQueue : KeepsQueue (recv_app_message env)
  unfolding recv_app_message
  recv_app_message-KeepsQueue = record {
    run = λ c. (recv_loop-KeepsQueue (suc (length c.wire.inbox))).run c;
  }
