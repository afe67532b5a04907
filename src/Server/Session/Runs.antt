-- ===== src/Server/Session/Runs.antt =====
-- The sequence numbers over a whole session.
use rdows.Prelude.{ℕ, refl, List, [], ◌∷◌, Option, none, some, Result-cases, Bool-cases, inl, inr}
use rdows.Core.Frame.{RdowsHeader}
use rdows.Core.Message.Connect.{ConnectPayload}
use rdows.Core.Message
use rdows.Core.Message.{RdowsMessage, header, decode}
use rdows.Server.Session.Defs.{
  SessionState, awaiting_connect, ready, closed, World, Env, ServerConfig, new_session,
}
use rdows.Server.Session.Handlers.{dispatch}
use rdows.Server.Session.Messages.{
  refuse_version, accept_connect, handle_connect, handle_ready, refuse_gap, handle_in_order,
  by_state, handle_message, Event, failed, binary, close, other, goes_on, run_session,
}
use rdows.Server.Session.Numbering.{
  IsNumbered, AreNumbered, Keeps, Keeps-pure, Keeps-fail, Keeps-if, Keeps-modify, Keeps-send_error,
}
use rdows.Server.Session.Replies.{
  numbering, handle_mr_reg-Keeps, handle_mr_dereg-Keeps, handle_send-Keeps, handle_send_data-Keeps,
  handle_write-Keeps, handle_write_data-Keeps, handle_read_req-Keeps, handle_atomic_req-Keeps,
}

module _ (env : Env) where
  dispatch-Keeps : (m : RdowsMessage) → Keeps (dispatch env m)
  unfolding dispatch
  dispatch-Keeps (Message.connect h p) = Keeps-send_error env _ _ _
  dispatch-Keeps (Message.connect_ack h p) = Keeps-send_error env _ _ _
  dispatch-Keeps (Message.disconnect h) = Keeps-send_error env _ _ _
  dispatch-Keeps (Message.mr_reg h p) = handle_mr_reg-Keeps env h.wrid p
  dispatch-Keeps (Message.mr_reg_ack h p) = Keeps-send_error env _ _ _
  dispatch-Keeps (Message.mr_dereg h p) = handle_mr_dereg-Keeps env h.wrid p
  dispatch-Keeps (Message.mr_dereg_ack h p) = Keeps-send_error env _ _ _
  dispatch-Keeps (Message.send h p) = handle_send-Keeps env h
  dispatch-Keeps (Message.send_data h p) = handle_send_data-Keeps env
  dispatch-Keeps (Message.recv_comp h) = Keeps-send_error env _ _ _
  dispatch-Keeps (Message.write h p) = handle_write-Keeps env h p
  dispatch-Keeps (Message.write_data h p) = handle_write_data-Keeps env p
  dispatch-Keeps (Message.write_comp h) = Keeps-send_error env _ _ _
  dispatch-Keeps (Message.read_req h p) = handle_read_req-Keeps env h p
  dispatch-Keeps (Message.read_resp h p) = Keeps-send_error env _ _ _
  dispatch-Keeps (Message.atomic_req h p) = handle_atomic_req-Keeps env h p
  dispatch-Keeps (Message.atomic_resp h p) = Keeps-send_error env _ _ _
  dispatch-Keeps (Message.ack h) = Keeps-pure tt
  dispatch-Keeps (Message.credit_update h p) = Keeps-send_error env _ _ _
  dispatch-Keeps (Message.error h p) = Keeps-send_error env _ _ _

  handle_ready-Keeps : (m : RdowsMessage) → Keeps (handle_ready env m)
  unfolding handle_ready
  handle_ready-Keeps (Message.connect h p) = dispatch-Keeps _
  handle_ready-Keeps (Message.connect_ack h p) = dispatch-Keeps _
  handle_ready-Keeps (Message.disconnect h) = Keeps-modify _ (λ s. refl)
  handle_ready-Keeps (Message.mr_reg h p) = dispatch-Keeps _
  handle_ready-Keeps (Message.mr_reg_ack h p) = dispatch-Keeps _
  handle_ready-Keeps (Message.mr_dereg h p) = dispatch-Keeps _
  handle_ready-Keeps (Message.mr_dereg_ack h p) = dispatch-Keeps _
  handle_ready-Keeps (Message.send h p) = dispatch-Keeps _
  handle_ready-Keeps (Message.send_data h p) = dispatch-Keeps _
  handle_ready-Keeps (Message.recv_comp h) = dispatch-Keeps _
  handle_ready-Keeps (Message.write h p) = dispatch-Keeps _
  handle_ready-Keeps (Message.write_data h p) = dispatch-Keeps _
  handle_ready-Keeps (Message.write_comp h) = dispatch-Keeps _
  handle_ready-Keeps (Message.read_req h p) = dispatch-Keeps _
  handle_ready-Keeps (Message.read_resp h p) = dispatch-Keeps _
  handle_ready-Keeps (Message.atomic_req h p) = dispatch-Keeps _
  handle_ready-Keeps (Message.atomic_resp h p) = dispatch-Keeps _
  handle_ready-Keeps (Message.ack h) = dispatch-Keeps _
  handle_ready-Keeps (Message.credit_update h p) = Keeps-pure tt
  handle_ready-Keeps (Message.error h p) = dispatch-Keeps _

  refuse_version-Keeps : (h : RdowsHeader) → Keeps (refuse_version env h)
  unfolding refuse_version
  refuse_version-Keeps h = search numbering depth 6

  accept_connect-Keeps : (h : RdowsHeader) (p : ConnectPayload) → Keeps (accept_connect env h p)
  unfolding accept_connect header
  accept_connect-Keeps h p = search numbering depth 12

  handle_connect-Keeps : (m : RdowsMessage) → Keeps (handle_connect env m)
  unfolding handle_connect
  handle_connect-Keeps (Message.connect h p) =
      Keeps-if _ (refuse_version-Keeps h) (accept_connect-Keeps h p)
  handle_connect-Keeps (Message.connect_ack h p) = Keeps-fail _
  handle_connect-Keeps (Message.disconnect h) = Keeps-fail _
  handle_connect-Keeps (Message.mr_reg h p) = Keeps-fail _
  handle_connect-Keeps (Message.mr_reg_ack h p) = Keeps-fail _
  handle_connect-Keeps (Message.mr_dereg h p) = Keeps-fail _
  handle_connect-Keeps (Message.mr_dereg_ack h p) = Keeps-fail _
  handle_connect-Keeps (Message.send h p) = Keeps-fail _
  handle_connect-Keeps (Message.send_data h p) = Keeps-fail _
  handle_connect-Keeps (Message.recv_comp h) = Keeps-fail _
  handle_connect-Keeps (Message.write h p) = Keeps-fail _
  handle_connect-Keeps (Message.write_data h p) = Keeps-fail _
  handle_connect-Keeps (Message.write_comp h) = Keeps-fail _
  handle_connect-Keeps (Message.read_req h p) = Keeps-fail _
  handle_connect-Keeps (Message.read_resp h p) = Keeps-fail _
  handle_connect-Keeps (Message.atomic_req h p) = Keeps-fail _
  handle_connect-Keeps (Message.atomic_resp h p) = Keeps-fail _
  handle_connect-Keeps (Message.ack h) = Keeps-fail _
  handle_connect-Keeps (Message.credit_update h p) = Keeps-fail _
  handle_connect-Keeps (Message.error h p) = Keeps-fail _

  refuse_gap-Keeps : (due : Option ℕ) (actual : ℕ) → Keeps (refuse_gap env due actual)
  unfolding refuse_gap
  refuse_gap-Keeps none actual = Keeps-pure tt
  refuse_gap-Keeps (some expected) actual = Keeps-send_error env _ _ _

  handle_in_order-Keeps : (m : RdowsMessage) → Keeps (handle_in_order env m)
  unfolding handle_in_order
  handle_in_order-Keeps m = search (numbering, refuse_gap-Keeps, handle_ready-Keeps) depth 10

  by_state-Keeps : (m : RdowsMessage) (state : SessionState) → Keeps (by_state env m state)
  unfolding by_state
  by_state-Keeps m awaiting_connect = handle_connect-Keeps m
  by_state-Keeps m ready = handle_in_order-Keeps m
  by_state-Keeps m closed = Keeps-pure tt

  -- Whatever message arrives, in whatever state of the session, the numbering is kept.
  pub handle_message-Keeps : (m : RdowsMessage) → Keeps (handle_message env m)
  unfolding handle_message
  handle_message-Keeps m = search (numbering, by_state-Keeps) depth 10

run_session-numbered :
    (events : List Event) (w : World) → IsNumbered w → IsNumbered (run_session events w).1
unfolding run_session
run_session-numbered [] w h = h
run_session-numbered (failed ∷ events) w h = h
run_session-numbered (close ∷ events) w h = h
run_session-numbered (other ∷ events) w h = run_session-numbered events w h
run_session-numbered (binary env bytes ∷ events) w h =
    elim (Result-cases (decode env.prof env.api bytes)) [
      | inr (inl (e, decoded)) ↦ rw (decoded, run_session) h
      | inr (inr decoded) ↦ rw (decoded, run_session) h
      | inl (m, decoded) ↦
          let v : World = (handle_message env m w).1 in
          let kept : IsNumbered v = (handle_message-Keeps env m).run w h in
          elim (Result-cases (handle_message env m w).0) [
            | inr (inl (e, out)) ↦ rw (decoded, run_session, out) kept
            | inr (inr out) ↦ rw (decoded, run_session, out) kept
            | inl (a, out) ↦ elim (Bool-cases (goes_on v.session.state)) [
              | inl on ↦ rw (decoded, run_session, out, on) (run_session-numbered events v kept)
              | inr off ↦ rw (decoded, run_session, out, off) kept
            ]
          ]
    ]

-- Whatever a session receives, whatever sends fail, and however the session ends, the messages that
-- it sent carry the sequence numbers 0, 1, 2 and so on, modulo 2 ^ 32, without a gap.
pub run_session-AreNumbered :
    (config : ServerConfig) (now : ℕ) (events : List Event)
    → AreNumbered 0
        (run_session events (record { session = new_session config now; sent = [] })).1.sent
unfolding new_session
run_session-AreNumbered config now events =
    (run_session-numbered events (record { session = new_session config now; sent = [] })
      (record { all = tt; next = refl })).all
