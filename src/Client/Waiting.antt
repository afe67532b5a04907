-- ===== src/Client/Waiting.antt =====
-- The loop of `recv_app_message` as the source has it, without fuel (crates/rdows-client/src/lib.rs).
use rdows.Prelude.{
  ℕ, zero, suc, ◌≤◌, ◌≡◌, refl, ap, sym, ◌∙◌, Option, none, some, Result, length, arith, add_uint,
  Bool-cases, inl, inr,
}
use rdows.Prelude.Actions.{
  Outcome, ok, err-ne-ok, waiting-ne-ok, Halts, bind-halts, ◌>>=◌, ◌>>◌, pure, lift, modify,
}
use rdows.Core.Error.{RdowsError}
use rdows.Core.Message.{RdowsMessage, header}
use rdows.Client.Wire.{Env, recv_message}
use rdows.Client.Connection.{
  Client, is_gap, credits_of, on_wire, update, validate_remote_seq, add_credits, recv_loop,
  recv_app_message,
}
use rdows.Client.Rounds.{
  nothing, message, over, receive-Received, recv_message-taken, validate_remote_seq-gap,
  validate_remote_seq-numbered, add_credits-sum, by_credits,
}

module _ {N : Type 0} (env : Env N) where
  -- A run of the loop from a client: its rounds, and how it ends. A round receives a message, tests its
  -- number, and gives it back; if it is a CREDIT_UPDATE, the credits are added and a round follows. What
  -- halts a call inside a round ends the loop in the same way.
  pub data LoopRun : Client N → ℕ → Outcome RdowsError RdowsMessage × Client N → Type 0 where
    not_received :
        {c d : Client N} {o p : Outcome RdowsError RdowsMessage}
        → on_wire (recv_message env) c ≡ (o, d)
        → Halts o p
        → LoopRun c 1 (p, d)
    not_validated :
        {c d e : Client N} {m : RdowsMessage} {o : Outcome RdowsError (Unit {0})}
        {p : Outcome RdowsError RdowsMessage}
        → on_wire (recv_message env) c ≡ (ok m, d)
        → validate_remote_seq m d ≡ (o, e)
        → Halts o p
        → LoopRun c 1 (p, e)
    not_credited :
        {c d e f : Client N} {m : RdowsMessage} {n : ℕ} {o : Outcome RdowsError (Unit {0})}
        {p : Outcome RdowsError RdowsMessage}
        → on_wire (recv_message env) c ≡ (ok m, d)
        → validate_remote_seq m d ≡ (ok tt, e)
        → credits_of m ≡ some n
        → add_credits env n e ≡ (o, f)
        → Halts o p
        → LoopRun c 1 (p, f)
    answered :
        {c d e : Client N} {m : RdowsMessage}
        → on_wire (recv_message env) c ≡ (ok m, d)
        → validate_remote_seq m d ≡ (ok tt, e)
        → credits_of m ≡ none
        → LoopRun c 1 (ok m, e)
    credited :
        {c d e f : Client N} {m : RdowsMessage} {n k : ℕ}
        {out : Outcome RdowsError RdowsMessage × Client N}
        → on_wire (recv_message env) c ≡ (ok m, d)
        → validate_remote_seq m d ≡ (ok tt, e)
        → credits_of m ≡ some n
        → add_credits env n e ≡ (ok tt, f)
        → LoopRun f k out
        → LoopRun c (suc k) out

  recv_message-short :
      (c d : Client N) (m : RdowsMessage)
      → on_wire (recv_message env) c ≡ (ok m, d)
      → suc (length d.wire.inbox) ≤ length c.wire.inbox
  recv_message-short c d m e = elim (receive-Received env c.wire.inbox) [
    | nothing r _ ↦
        absurd (waiting-ne-ok (ap (λ p. p.0) (recv_message-taken env c _ _ r)) (ap (λ p. p.0) e))
    | message r rest h short _ ↦
        let same : length d.wire.inbox ≡ length rest =
          ap (λ p. length p.1.wire.inbox) (sym e ∙ recv_message-taken env c _ rest h) in
        omega (arith, short, same)
    | over x rest h ↦
        absurd (err-ne-ok (ap (λ p. p.0) (sym (recv_message-taken env c _ rest h) ∙ e)))
  ]

  validate_remote_seq-wire :
      (m : RdowsMessage) (d e : Client N) (o : Outcome RdowsError (Unit {0}))
      → validate_remote_seq m d ≡ (o, e)
      → length e.wire.inbox ≡ length d.wire.inbox
  validate_remote_seq-wire m d e o h =
      elim (Bool-cases (is_gap d.conn.expected_remote_seq (header m).sequence)) [
        | inl gap ↦ ap (λ p. length p.1.wire.inbox) (sym h ∙ validate_remote_seq-gap env m d gap)
        | inr due ↦
            ap (λ p. length p.1.wire.inbox) (sym h ∙ validate_remote_seq-numbered env m d due)
      ]

  credit_step-wire :
      (r : Result RdowsError ℕ) (e : Client N)
      → length ((lift r >>= λ sum. update (λ k. record k { send_credits = sum })) e).1.wire.inbox
        ≡ length e.wire.inbox
  unfolding ◌>>=◌ lift update modify
  credit_step-wire (Result.ok sum) e = refl
  credit_step-wire (Result.err x) e = refl
  credit_step-wire Result.panic e = refl

  add_credits-wire :
      (n : ℕ) (e f : Client N) (o : Outcome RdowsError (Unit {0}))
      → add_credits env n e ≡ (o, f)
      → length f.wire.inbox ≡ length e.wire.inbox
  add_credits-wire n e f o h =
      ap (λ p. length p.1.wire.inbox) (sym h ∙ add_credits-sum env n e _ refl)
      ∙ credit_step-wire (add_uint env.prof 32 e.conn.send_credits n) e

  -- The loop ends so from `c`, in as many rounds as things have arrived, and one more, at most.
  abbrev EndsInTime : Client N → Outcome RdowsError RdowsMessage × Client N → Type 0
  EndsInTime c out = (k : ℕ) × (k ≤ suc (length c.wire.inbox)) × LoopRun c k out

  by_credits-EndsInTime :
      (fuel : ℕ) (c d e : Client N) (m : RdowsMessage) (o : Option ℕ)
      → on_wire (recv_message env) c ≡ (ok m, d)
      → validate_remote_seq m d ≡ (ok tt, e)
      → credits_of m ≡ o
      → suc (length e.wire.inbox) ≤ length c.wire.inbox
      → ((f : Client N)
          → length f.wire.inbox ≡ length e.wire.inbox
          → EndsInTime f (recv_loop env fuel f))
      → EndsInTime c (by_credits env fuel m o e)
  unfolding by_credits ◌>>◌ pure
  by_credits-EndsInTime fuel c d e m none got due free short again =
      (1, omega arith, answered got due free)
  by_credits-EndsInTime fuel c d e m (some n) got due paid short again =
      bind-halts (EndsInTime c) (add_credits env n) (λ _. recv_loop env fuel) e
        (λ u f sum.
          let same = add_credits-wire n e f (ok u) sum in
          let (k, few, run) = again f same in
          (suc k, omega (arith, few, same, short), credited got due paid sum run))
        (λ o p f sum halts. (1, omega arith, not_credited got due paid sum halts))

  recv_loop-EndsInTime :
      (fuel : ℕ) (c : Client N)
      → suc (length c.wire.inbox) ≤ fuel
      → EndsInTime c (recv_loop env fuel c)
  unfolding recv_loop ◌>>◌ by_credits
  recv_loop-EndsInTime zero c h = absurd (omega arith)
  recv_loop-EndsInTime (suc fuel) c h =
      bind-halts (EndsInTime c) (on_wire (recv_message env))
        (λ m. validate_remote_seq m >>= λ _. by_credits env fuel m (credits_of m)) c
        (λ m d got.
          bind-halts (EndsInTime c) (validate_remote_seq m)
            (λ _. by_credits env fuel m (credits_of m)) d
            (λ u e due.
              let short = recv_message-short c d m got in
              let same = validate_remote_seq-wire m d e (ok u) due in
              by_credits-EndsInTime fuel c d e m (credits_of m) got due refl
                (omega (arith, short, same))
                (λ f kept. recv_loop-EndsInTime fuel f (omega (arith, short, same, kept))))
            (λ o p e due halts. (1, omega arith, not_validated got due halts)))
        (λ o p d got halts. (1, omega arith, not_received got halts))

-- The loop in which the client waits for a message takes finitely many rounds, at most one more
-- than things have arrived, and `recv_app_message` is what it comes to: a round receives a
-- message, tests its number and gives it back, or adds the credits of a CREDIT_UPDATE and goes
-- round again; an error, a panic or a receive that waits for good ends it.
pub recv_app_message-LoopRun :
    {N : Type 0} (env : Env N) (c : Client N)
    → (k : ℕ) × (k ≤ suc (length c.wire.inbox)) × LoopRun env c k (recv_app_message env c)
unfolding recv_app_message
recv_app_message-LoopRun env c =
    recv_loop-EndsInTime env (suc (length c.wire.inbox)) c (omega arith)
