-- ===== src/Server/Session/Messages.antt =====
-- What a session does with the messages that arrive (crates/rdows-server/src/session.rs).
use rdows.Prelude.{
  ℕ, ◌+◌, ◌%◌, ◌^◌, List, [], ◌∷◌, Bool, true, false, not, ◌&&◌, Option, none, some, ok, err, panic,
  ltb, ◌==◌, if◌then◌else◌, min,
}
use rdows.Core.Error.{unexpected_message, err_proto_version, err_payload_size, err_seq_gap}
use rdows.Core.Opcode
use rdows.Core.Frame.{RdowsHeader, rdows_version}
use rdows.Core.Message.Connect.{ConnectPayload}
use rdows.Core.Message
use rdows.Core.Message.{RdowsMessage, header, decode}
use rdows.Server.Texts.{gap_text}
use rdows.Bytes.Texts.{text}
use rdows.Server.Session.Defs.{
  SessionState, awaiting_connect, ready, closed, World, Env, default_max_msg_size, default_icc,
  Action, pure, fail, ◌>>=◌, ◌>>◌, this, modify, reply, send_error,
}
use rdows.Server.Session.Handlers.{dispatch}

module _ (env : Env) where
  -- A CONNECT of another version is answered by an error, and closes the session.
  unfoldable pub refuse_version : RdowsHeader → Action (Unit {0})
  refuse_version h = do
    send_error env err_proto_version h.sequence (text "unsupported protocol version")
    modify (λ s. record s { state = closed })

  unfoldable pub accept_connect : RdowsHeader → ConnectPayload → Action (Unit {0})
  accept_connect h p = do
    modify (λ s. record s {
      session_id = h.session_id;
      pd = p.pd;
      max_msg_size = min p.max_msg_size default_max_msg_size;
    })
    s ← this
    reply env Opcode.connect_ack 0 (λ a. Message.connect_ack a (record {
      pd = s.pd;
      capability_flags = 0;
      max_msg_size = s.max_msg_size;
      icc = default_icc;
    }))
    modify (λ s. record s { expected_remote_seq = some ((h.sequence + 1) % 2 ^ 32); state = ready })

  unfoldable pub handle_connect : RdowsMessage → Action (Unit {0})
  handle_connect (Message.connect h p) =
      if not (h.version == rdows_version) then refuse_version h else accept_connect h p
  handle_connect m = fail (unexpected_message (text "CONNECT") (header m).opcode)

  unfoldable pub handle_ready : RdowsMessage → Action (Unit {0})
  handle_ready (Message.disconnect h) = modify (λ s. record s { state = closed })
  handle_ready (Message.credit_update h p) = pure tt
  handle_ready m = dispatch env m

  -- Whether the message has another sequence number than the one that is due.
  unfoldable pub is_gap : Option ℕ → ℕ → Bool
  is_gap none actual = false
  is_gap (some expected) actual = not (actual == expected)

  unfoldable pub refuse_gap : Option ℕ → ℕ → Action (Unit {0})
  refuse_gap none actual = pure tt
  refuse_gap (some expected) actual = send_error env err_seq_gap actual (gap_text expected actual)

  unfoldable pub handle_in_order : RdowsMessage → Action (Unit {0})
  handle_in_order m = do
    s ← this
    if is_gap s.expected_remote_seq (header m).sequence
        then refuse_gap s.expected_remote_seq (header m).sequence
        else (do
          modify (λ s. record s { expected_remote_seq = some (((header m).sequence + 1) % 2 ^ 32) })
          handle_ready m)

  unfoldable pub by_state : RdowsMessage → SessionState → Action (Unit {0})
  by_state m awaiting_connect = handle_connect m
  by_state m ready = handle_in_order m
  by_state m closed = pure tt

  unfoldable pub is_ready : SessionState → Bool
  is_ready ready = true
  is_ready _ = false

  unfoldable pub handle_message : RdowsMessage → Action (Unit {0})
  handle_message m = do
    s ← this
    if is_ready s.state && ltb s.max_msg_size (header m).payload_length
        then send_error env err_payload_size (header m).sequence
            (text "payload exceeds negotiated maximum message size")
        else by_state m s.state

-- What the stream yields. Pings and pongs are answered by the crate `tungstenite`.
pub data Event : Type 0 where
  failed : Event
  binary : Env → List ℕ → Event
  close : Event
  other : Event

-- How the loop of `run_session` ends: the stream is at its end, or it was left, or a handler or the
-- decoder has panicked.
pub data Ended : Type 0 where
  exhausted left panicked : Ended

-- After a message: the loop goes on unless there was an error or the session is closed.
unfoldable pub goes_on : SessionState → Bool
goes_on closed = false
goes_on _ = true

unfoldable pub run_session : List Event → World → Ended × World
run_session [] w = (exhausted, w)
run_session (failed ∷ events) w = (left, w)
run_session (close ∷ events) w = (left, w)
run_session (other ∷ events) w = run_session events w
run_session (binary env bytes ∷ events) w = elim (decode env.prof env.api bytes) [
  | ok m ↦
      let (r, v) = handle_message env m w in
      let rest = run_session events v in
      elim r [
        | ok _ ↦ if goes_on v.session.state then rest else (left, v)
        | err e ↦ (left, v)
        | panic ↦ (panicked, v)
      ]
  | err e ↦ (left, w)
  | panic ↦ (panicked, w)
]
