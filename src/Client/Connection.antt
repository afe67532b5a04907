-- ===== src/Client/Connection.antt =====
-- A connection of the client (crates/rdows-client/src/lib.rs).
use rdows.Prelude.{
  ℕ, zero, suc, ◌+◌, ◌%◌, ◌^◌, List, [], Bool, false, not, Option, none, some, Result, add_uint,
  length, ◌==◌, if◌then◌else◌,
}
use rdows.Prelude.Dict.{Dict}
use rdows.Prelude.Actions.{ok, waiting, Action, pure, fail, lift, this, modify, zoom, ◌>>=◌, ◌>>◌}
use rdows.Core.Error.{RdowsError, protocol, err_seq_gap}
use rdows.Core.Opcode
use rdows.Core.Frame.{RdowsHeader, new_header}
use rdows.Core.Message
use rdows.Core.Message.{RdowsMessage, header}
use rdows.Core.Queue.Completion.{CompletionQueueEntry}
use rdows.Client.CompletionQueue.{CompletionQueue, new_queue, poll_cq}
use rdows.Client.LocalMemory.{MemoryRegionHandle}
use rdows.Client.Wire.{Env, Wire, send_message, recv_message}

-- `RdowsConnection` without the halves of its stream.
pub record Connection : Type 0 where
  pub session_id : ℕ
  pub pd : ℕ
  pub max_msg_size : ℕ
  pub next_seq : ℕ
  pub expected_remote_seq : Option ℕ
  pub send_credits : ℕ
  pub cq : CompletionQueue
  pub local_mrs : Dict MemoryRegionHandle

-- The whole connection.
pub record Client (N : Type 0) : Type 0 where
  pub conn : Connection
  pub wire : Wire N

-- `ConnectionParams`
pub record ConnectionParams : Type 0 where
  pub session_id : ℕ
  pub pd : ℕ
  pub max_msg_size : ℕ
  pub initial_remote_seq : ℕ
  pub icc : ℕ

-- `connect_with_config`, from the parameters on.
unfoldable pub new_connection : {E : Type 0} → ℕ → ConnectionParams → Result E Connection
new_connection {E} cq_capacity params = elim (new_queue {E = E} cq_capacity) [
  | Result.ok cq ↦ Result.ok (record {
    session_id = params.session_id;
    pd = params.pd;
    max_msg_size = params.max_msg_size;
    next_seq = 1;
    expected_remote_seq = some params.initial_remote_seq;
    send_credits = params.icc;
    cq = cq;
    local_mrs = [];
  })
  | _ ↦ Result.panic
]

-- Whether a message has another sequence number than the one that is due.
abbrev pub is_gap : Option ℕ → ℕ → Bool
is_gap none seq = false
is_gap (some expected) seq = not (seq == expected)

-- The credits of a CREDIT_UPDATE are added, and the loop goes on; other messages end it.
unfoldable pub credits_of : RdowsMessage → Option ℕ
credits_of (Message.credit_update h p) = some p.credit_increment
credits_of m = none

module _ {N : Type 0} where
  unfoldable pub on_wire :
      {A : Type 0} → Action RdowsError (Wire N) A → Action RdowsError (Client N) A
  on_wire = zoom (λ c. c.wire) (λ w c. record c { wire = w })

  unfoldable pub update : (Connection → Connection) → Action RdowsError (Client N) (Unit {0})
  update f = modify (λ c. record c { conn = f c.conn })

  -- `RdowsConnection::next_header`
  unfoldable pub next_header : Opcode.Opcode → ℕ → Action RdowsError (Client N) RdowsHeader
  next_header opcode wrid c =
      let k : Connection = c.conn in
      (
        ok (new_header opcode k.session_id k.next_seq wrid),
        record c { conn = record k { next_seq = (k.next_seq + 1) % 2 ^ 32 } },
      )

  -- `RdowsConnection::poll_cq`
  unfoldable pub poll_completions : ℕ → Action RdowsError (Client N) (List CompletionQueueEntry)
  poll_completions max c =
      let (entries, cq) = poll_cq max c.conn.cq in
      (ok entries, record c { conn = record c.conn { cq = cq } })

  unfoldable pub set_send_credits : ℕ → Action RdowsError (Client N) (Unit {0})
  set_send_credits credits = update (λ k. record k { send_credits = credits })

  unfoldable pub validate_remote_seq : RdowsMessage → Action RdowsError (Client N) (Unit {0})
  validate_remote_seq m = do
    c ← this
    if is_gap c.conn.expected_remote_seq (header m).sequence
        then fail (protocol err_seq_gap)
        else update
            (λ k. record k { expected_remote_seq = some (((header m).sequence + 1) % 2 ^ 32) })

  module _ (env : Env N) where
    unfoldable pub add_credits : ℕ → Action RdowsError (Client N) (Unit {0})
    add_credits n = do
      c ← this
      credits ← lift (add_uint env.prof 32 c.conn.send_credits n)
      update (λ k. record k { send_credits = credits })

    -- The loop of `recv_app_message`, on fuel.
    unfoldable pub recv_loop : ℕ → Action RdowsError (Client N) RdowsMessage
    recv_loop zero = λ c. (waiting, c)
    recv_loop (suc fuel) = do
      m ← on_wire (recv_message env)
      validate_remote_seq m
      elim (credits_of m) [ some n ↦ (add_credits n >> recv_loop fuel) | none ↦ pure m ]

    -- Each round takes an arrival.
    unfoldable pub recv_app_message : Action RdowsError (Client N) RdowsMessage
    recv_app_message c = recv_loop (suc (length c.wire.inbox)) c

    unfoldable pub send_and_recv : RdowsMessage → Action RdowsError (Client N) RdowsMessage
    send_and_recv m = do on_wire (send_message env m); recv_app_message

    unfoldable pub disconnect : Action RdowsError (Client N) (Unit {0})
    disconnect = do
      h ← next_header Opcode.disconnect 0
      on_wire (send_message env (Message.disconnect h))
