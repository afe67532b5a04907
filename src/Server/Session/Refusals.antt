-- ===== src/Server/Session/Refusals.antt =====
-- Messages that an established session refuses before a handler sees them
-- (crates/rdows-server/src/session.rs, `handle_message` and `run_session`).
use rdows.Prelude.{ℕ, ◌≤◌, ◌<◌, ◌≡◌, ◌≢◌, List, [], ◌∷◌, ok}
use rdows.Core.Error.{err_payload_size, err_seq_gap}
use rdows.Core.Opcode
use rdows.Core.Message.ErrorReply.{ErrorPayload}
use rdows.Core.Message
use rdows.Core.Message.{RdowsMessage, header, decode}
use rdows.Bytes.Texts.{text}
use rdows.Server.Texts.{gap_text}
use rdows.Server.Session.Defs.{World, Env}
use rdows.Server.Session.Messages.{Event, binary}
use rdows.Server.Session.Steps.{replied}

-- Why a message is refused, where messages of `max` bytes are allowed and the number `expected` is
-- due, and the answer to it.
pub data Refusal (max expected : ℕ) (m : RdowsMessage) : ErrorPayload → Type 0 where
  oversize :
      max < (header m).payload_length
      → Refusal max expected m (record {
        error_code = err_payload_size;
        failing_seq = (header m).sequence;
        description = text "payload exceeds negotiated maximum message size";
      })
  out_of_turn :
      (header m).payload_length ≤ max
      → (header m).sequence ≢ expected
      → Refusal max expected m (record {
        error_code = err_seq_gap;
        failing_seq = (header m).sequence;
        description = gap_text expected (header m).sequence;
      })

-- Frames that hold refused messages, and the answers to them.
pub data AllRefused (env : Env) (max expected : ℕ) : List Event → List ErrorPayload → Type 0 where
  no_more : AllRefused env max expected [] []
  refused :
      {bytes : List ℕ} {m : RdowsMessage} {p : ErrorPayload} {events : List Event}
      {answers : List ErrorPayload}
      → decode env.prof env.api bytes ≡ ok m
      → Refusal max expected m p
      → AllRefused env max expected events answers
      → AllRefused env max expected (binary env bytes ∷ events) (p ∷ answers)

-- The world when these answers have been sent, one after the other.
abbrev pub answered : List ErrorPayload → World → World
answered [] w = w
answered (p ∷ answers) w = answered answers (replied Opcode.error 0 (λ h. Message.error h p) w)
