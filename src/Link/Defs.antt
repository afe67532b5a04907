-- ===== src/Link/Defs.antt =====
-- A session of the server as the other side of a client's connection, over a stream that delivers
-- every frame, in order (crates/rdows-server/src/session.rs, crates/rdows-client/src/connection.rs).
use rdows.Prelude.{
  ℕ, List, [], ◌∷◌, ◌++◌, map, Bool, true, false, Option, none, some, Profile, length, drop,
  if◌then◌else◌,
}
use rdows.Bytes.{BufApi}
use rdows.Bytes.Texts.{text}
use rdows.Core.Message.{RdowsMessage, encode}
use rdows.Client.Wire
use rdows.Client.Wire.{Arrival, binary, ended}
use rdows.Server.Session
use rdows.Server.Session.{World}
use rdows.Server.Session.Messages
use rdows.Server.Session.Messages.{Ended, exhausted, left, panicked, run_session}

-- The session, and whether its task still runs.
pub record Served : Type 0 where
  pub world : World
  pub runs : Bool

abbrev pub online : World → Served
online w = record { world = w; runs = true }

unfoldable pub goes_on : Ended → Bool
goes_on exhausted = true
goes_on left = false
goes_on panicked = false

-- The frames of the messages.
unfoldable pub frames : BufApi → List RdowsMessage → List Arrival
frames api messages = map (λ m. binary (encode api m)) messages

-- A frame is taken by a round of `run_session`; what the session then sends arrives, and the end of
-- the stream when the session has ended.
unfoldable pub session_reacts :
    Session.Env → List ℕ → Served → Option (List ℕ) × Served × List Arrival
session_reacts env frame s =
    if s.runs
    then (let (end, w) = run_session (Messages.binary env frame ∷ []) s.world in
        let sent : List Arrival = frames env.api (drop (length s.world.sent) w.sent) in
        (
          none,
          record { world = w; runs = goes_on end },
          (if goes_on end then sent else (sent ++ (ended ∷ []))),
        ))
    else (some (text "connection closed"), s, [])

-- What a client of that build finds around it.
abbrev pub joined : Profile → Session.Env → Wire.Env Served
joined prof env = record {
  prof = prof;
  api = env.api;
  peer = record { react = session_reacts env };
}
