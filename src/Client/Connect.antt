-- ===== src/Client/Connect.antt =====
-- How a connection is opened (crates/rdows-client/src/connection.rs).
use rdows.Prelude.{
  ℕ, ◌+◌, ◌%◌, ◌^◌, List, [], ◌∷◌, Bool, true, false, ◌&&◌, not, Option, none, some, Result, ◌==◌,
  if◌then◌else◌, min,
}
use rdows.Prelude.Actions.{Action, pure, fail, lift, ◌>>=◌, ◌>>◌}
use rdows.Bytes.{from_be}
use rdows.Bytes.Texts.{text}
use rdows.Core.Error.{RdowsError, protocol, connection_rejected, unexpected_message}
use rdows.Core.Opcode
use rdows.Core.Frame.{new_header}
use rdows.Core.Message
use rdows.Core.Message.{RdowsMessage, header}
use rdows.Core.Subprotocol.{HeaderValue, value_has_rdows}
use rdows.Server.Session.{default_max_msg_size, default_icc}
use rdows.Client.Wire.{Env, Wire, send_message, recv_message}
use rdows.Client.Connection.{ConnectionParams, Connection, new_connection}

abbrev pub default_cq_capacity : ℕ
default_cq_capacity = 65536

-- `url.starts_with(…)`
unfoldable pub starts_with : List ℕ → List ℕ → Bool
starts_with [] url = true
starts_with (p ∷ prefix) [] = false
starts_with (p ∷ prefix) (b ∷ url) = p == b && starts_with prefix url

module _ {N : Type 0} (env : Env N) where
  -- The answer to CONNECT.
  unfoldable pub after_connect : ℕ → RdowsMessage → Action RdowsError (Wire N) ConnectionParams
  after_connect session_id (Message.connect_ack h p) = pure (record {
    session_id = session_id;
    pd = p.pd;
    max_msg_size = min p.max_msg_size default_max_msg_size;
    initial_remote_seq = (h.sequence + 1) % 2 ^ 32;
    icc = p.icc;
  })
  after_connect session_id (Message.error h p) = fail (protocol p.error_code)
  after_connect session_id m = fail (unexpected_message (text "CONNECT_ACK") (header m).opcode)

  -- CONNECT and its answer, under a session ID of four random bytes.
  unfoldable pub open_session : List ℕ → Action RdowsError (Wire N) ConnectionParams
  open_session random = do
    let session_id : ℕ = from_be random
    send_message env (
        Message.connect (new_header Opcode.connect session_id 0 0) (record {
          pd = 1;
          capability_flags = 0;
          max_msg_size = default_max_msg_size;
          icc = default_icc;
        }))
    m ← recv_message env
    after_connect session_id m

  -- `connect`: `dialed` is how the request, TCP, TLS and the upgrade end, with the response's header
  -- `Sec-WebSocket-Protocol`, if it has one.
  unfoldable pub connect :
      List ℕ
      → Result RdowsError (Option HeaderValue)
      → List ℕ
      → Action RdowsError (Wire N) ConnectionParams
  connect url dialed random =
      if starts_with (text "ws://") url
      then fail (connection_rejected (text "TLS required: use wss:// not ws://"))
      else (do
        response ← lift dialed
        let echoed : Bool = elim response [ none ↦ false | some value ↦ value_has_rdows value ]
        if not echoed
            then fail (connection_rejected (text "server did not echo rdows.v1 subprotocol"))
            else open_session random)

  -- `connect_with_config`
  unfoldable pub connect_with_config :
      ℕ
      → List ℕ
      → Result RdowsError (Option HeaderValue)
      → List ℕ
      → Action RdowsError (Wire N) Connection
  connect_with_config cq_capacity url dialed random = do
    params ← connect url dialed random
    lift (new_connection cq_capacity params)

  -- `RdowsConnection::connect`
  unfoldable pub connect_default :
      List ℕ
      → Result RdowsError (Option HeaderValue)
      → List ℕ
      → Action RdowsError (Wire N) Connection
  connect_default url dialed random = connect_with_config default_cq_capacity url dialed random
