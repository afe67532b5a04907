-- ===== src/Client/Wire.antt =====
-- The two halves of the client's WebSocket stream (crates/rdows-client/src/connection.rs).
use rdows.Prelude.{ℕ, List, [], ◌∷◌, ◌++◌, Option, none, some, Profile}
use rdows.Prelude.Actions.{Outcome, ok, err, waiting, from_result, Action}
use rdows.Bytes.{BufApi}
use rdows.Core.Error.{RdowsError, web_socket, session_closed}
use rdows.Core.Message.{RdowsMessage, encode, decode}

-- What `stream.next()` yields: a binary message, a close, a text, ping or pong, an error, or the
-- end of the stream.
pub data Arrival : Type 0 where
  binary : List ℕ → Arrival
  close : Arrival
  other : Arrival
  failed : List ℕ → Arrival
  ended : Arrival

-- The other side, with a state `N`: to each frame that is sent it answers by the error of the send,
-- if it fails, and by what arrives next.
pub record Peer (N : Type 0) : Type 0 where
  pub react : List ℕ → N → Option (List ℕ) × N × List Arrival

-- The build, the crate `bytes`, and the other side.
pub record Env (N : Type 0) : Type 0 where
  pub prof : Profile
  pub api : BufApi
  pub peer : Peer N

-- The state of the other side, and what has arrived and was not yet taken.
pub record Wire (N : Type 0) : Type 0 where
  pub net : N
  pub inbox : List Arrival

module _ {N : Type 0} (env : Env N) where
  unfoldable pub send_message : RdowsMessage → Action RdowsError (Wire N) (Unit {0})
  send_message m w =
      let (failure, net, arrivals) = env.peer.react (encode env.api m) w.net in
      let later : Wire N = record { net = net; inbox = w.inbox ++ arrivals } in
      elim failure [ none ↦ (ok tt, later) | some e ↦ (err (web_socket e), later) ]

  -- The loop of `recv_message`, which passes over all that is not binary.
  unfoldable pub receive : List Arrival → Outcome RdowsError RdowsMessage × List Arrival
  receive [] = (waiting, [])
  receive (binary bytes ∷ rest) = (from_result (decode env.prof env.api bytes), rest)
  receive (close ∷ rest) = (err session_closed, rest)
  receive (other ∷ rest) = receive rest
  receive (failed e ∷ rest) = (err (web_socket e), rest)
  receive (ended ∷ rest) = (err session_closed, rest)

  unfoldable pub recv_message : Action RdowsError (Wire N) RdowsMessage
  recv_message w = let (r, rest) = receive w.inbox in (r, record w { inbox = rest })
