-- ===== src/Client/Receiving.antt =====
-- How the client waits for a message (crates/rdows-client/src/lib.rs, connection.rs).
use rdows.Prelude.{ℕ, zero, suc, ◌≤◌, ◌≡◌, ap, sym, [], ◌∙◌, false, length, arith}
use rdows.Prelude.Actions.{waiting}
use rdows.Client.Wire.{Env}
use rdows.Client.Connection.{Client, recv_loop, recv_app_message}
use rdows.Client.Rounds.{is_over, stops, goes_on, every-Round}

module _ {N : Type 0} (env : Env N) where
  recv_loop-waiting :
      (fuel : ℕ) (c : Client N)
      → suc (length c.wire.inbox) ≤ fuel
      → (recv_loop env fuel c).0 ≡ waiting
      → ((recv_loop env fuel c).1.wire.inbox ≡ []) × (is_over c.wire.inbox ≡ false)
  recv_loop-waiting zero c h w = absurd (omega arith)
  recv_loop-waiting (suc fuel) c h w = elim (every-Round env c) [
    | stops o d e at_end ↦
        let (empty, going) = at_end (sym (ap (λ p. p.0) (e fuel)) ∙ w) in
        (ap (λ p. p.1.wire.inbox) (e fuel) ∙ empty, going)
    | goes_on d e short same ↦
        let (empty, going) =
          recv_loop-waiting fuel d (omega (arith, short)) (sym (ap (λ p. p.0) (e fuel)) ∙ w) in
        (ap (λ p. p.1.wire.inbox) (e fuel) ∙ empty, sym same ∙ going)
  ]

-- The client goes on waiting for a message only when it has taken all that has arrived, and that
-- holds no close, no error of the stream and no end of it: when the stream is over, the wait ends.
pub recv_app_message-waiting :
    {N : Type 0} (env : Env N) (c : Client N)
    → (recv_app_message env c).0 ≡ waiting
    → ((recv_app_message env c).1.wire.inbox ≡ []) × (is_over c.wire.inbox ≡ false)
unfolding recv_app_message
recv_app_message-waiting env c = recv_loop-waiting env (suc (length c.wire.inbox)) c (omega arith)
