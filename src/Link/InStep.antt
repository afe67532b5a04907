-- ===== src/Link/InStep.antt =====
-- A client and a session between two requests.
use rdows.Prelude.{ℕ, ◌≡◌, refl, [], some, arith}
use rdows.Core.Need.{IsU32, IsU64}
use rdows.Core.Opcode.{Opcode}
use rdows.Core.Frame
use rdows.Core.Frame.{RdowsHeader, new_header}
use rdows.Client.Connection.{Client}
use rdows.Server.Session
use rdows.Server.Session.{World}
use rdows.Link.Defs.{Served, online}

-- Nothing is under way, the session is established, and each side waits for the number that the other
-- side gives its next message. The numbers fit their fields.
pub record InStep (c : Client Served) (w : World) : Type 0 where
  pub other_side : c.wire.net ≡ online w
  pub quiet : c.wire.inbox ≡ []
  pub established : w.session.state ≡ Session.ready
  pub request_due : w.session.expected_remote_seq ≡ some c.conn.next_seq
  pub reply_due : c.conn.expected_remote_seq ≡ some w.session.next_seq
  pub client_id_fits : IsU32 c.conn.session_id
  pub client_seq_fits : IsU32 c.conn.next_seq
  pub server_id_fits : IsU32 w.session.session_id
  pub server_seq_fits : IsU32 w.session.next_seq

pub new_header-Fits :
    (opcode : Opcode) (session_id seq wrid n : ℕ)
    → IsU32 session_id
    → IsU32 seq
    → IsU64 wrid
    → IsU32 n
    → Frame.Fits (record (new_header opcode session_id seq wrid) { payload_length = n })
unfolding new_header
new_header-Fits opcode session_id seq wrid n hs hq hw hn = record {
  is_version = refl;
  flags_fit = omega arith;
  session_id_fits = hs;
  sequence_fits = hq;
  wrid_fits = hw;
  payload_length_fits = hn;
}
