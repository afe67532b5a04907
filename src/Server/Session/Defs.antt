-- ===== src/Server/Session/Defs.antt =====
-- The state of a session, and code that changes it and sends messages.
use rdows.Prelude.{
  ℕ, ◌+◌, ◌*◌, ◌%◌, ◌^◌, List, [], ◌∷◌, ◌++◌, Option, none, some, Result, ok, err, panic, Profile,
  length,
}
use rdows.Bytes.{BufApi}
use rdows.Core.Error.{ErrorCode, RdowsError, web_socket}
use rdows.Core.Opcode.{Opcode}
use rdows.Core.Frame.{RdowsHeader, new_header}
use rdows.Core.Message.{RdowsMessage, error, encode}
use rdows.Server.Store.{MemoryStore, Rng, new_store}

pub data SessionState : Type 0 where
  awaiting_connect ready closed : SessionState

-- `PendingOp`
pub data PendingOp : Type 0 where
  no_op : PendingOp
  awaiting_send_data : (wrid : ℕ) → PendingOp
  awaiting_write_data : (wrid rkey remote_va expected_len : ℕ) → PendingOp
  discarding_send_data : PendingOp

-- `ServerConfig`
pub record ServerConfig : Type 0 where
  pub recv_queue_depth : ℕ
  pub max_regions_per_session : ℕ
  pub max_total_bytes_per_session : ℕ
  pub max_outstanding_reads : ℕ
  pub max_sessions_per_ip : ℕ
  pub mr_reg_rate_limit : ℕ

-- Instants are nanoseconds since some start.
pub record Session : Type 0 where
  pub state : SessionState
  pub session_id : ℕ
  pub pd : ℕ
  pub max_msg_size : ℕ
  pub next_seq : ℕ
  pub memory_store : MemoryStore
  pub pending_op : PendingOp
  pub recv_queue_depth : ℕ
  pub expected_remote_seq : Option ℕ
  pub sends_since_last_credit : ℕ
  pub icc : ℕ
  pub outstanding_reads : ℕ
  pub max_outstanding_reads : ℕ
  pub mr_reg_count : ℕ
  pub mr_reg_window_start : ℕ
  pub mr_reg_rate_limit : ℕ

abbrev pub default_max_msg_size : ℕ
default_max_msg_size = 16 * 1024 * 1024

abbrev pub default_icc : ℕ
default_icc = 65535

-- `Session::new`
unfoldable pub new_session : ServerConfig → ℕ → Session
new_session config now = record {
  state = awaiting_connect;
  session_id = 0;
  pd = 0;
  max_msg_size = default_max_msg_size;
  next_seq = 0;
  memory_store = new_store config.max_regions_per_session config.max_total_bytes_per_session;
  pending_op = no_op;
  recv_queue_depth = config.recv_queue_depth;
  expected_remote_seq = none;
  sends_since_last_credit = 0;
  icc = default_icc;
  outstanding_reads = 0;
  max_outstanding_reads = config.max_outstanding_reads;
  mr_reg_count = 0;
  mr_reg_window_start = now;
  mr_reg_rate_limit = config.mr_reg_rate_limit;
}

-- The session and the messages that it has handed to the sink, in their order.
pub record World : Type 0 where
  pub session : Session
  pub sent : List RdowsMessage

-- What the code finds around it: the build, the crate `bytes`, the connection, the random source
-- and the clock. `link n frame` is the error of the n-th send, if it fails.
pub record Env : Type 0 where
  pub prof : Profile
  pub api : BufApi
  pub link : ℕ → List ℕ → Option (List ℕ)
  pub rng : Rng
  pub now : ℕ

abbrev pub Action : Type 0 → Type 0
Action A = World → Result RdowsError A × World

module _ {A : Type 0} where
  unfoldable pub pure : A → Action A
  pure a w = (ok a, w)

  unfoldable pub fail : RdowsError → Action A
  fail e w = (err e, w)

  infixl 5 ◌>>=◌ ◌>>◌
  unfoldable pub ◌>>=◌ : {B : Type 0} → Action A → (A → Action B) → Action B
  ◌>>=◌ m f w =
      let (r, v) = m w in elim r [ ok a ↦ f a v | err e ↦ (err e, v) | panic ↦ (panic, v) ]

  unfoldable pub ◌>>◌ : {B : Type 0} → Action A → Action B → Action B
  unfolding ◌>>=◌
  m >> k = m >>= λ _. k

  -- Arithmetic that may panic.
  unfoldable pub lift : Result RdowsError A → Action A
  lift r w = (r, w)

-- The fields of the session, read.
unfoldable pub this : Action Session
this w = (ok w.session, w)

-- An assignment to fields of the session.
unfoldable pub modify : (Session → Session) → Action (Unit {0})
modify f w = (ok tt, record w { session = f w.session })

-- `Session::next_header`
unfoldable pub next_header : Opcode → ℕ → Action RdowsHeader
next_header opcode wrid w =
    let s : Session = w.session in
    (
      ok (new_header opcode s.session_id s.next_seq wrid),
      record w { session = record s { next_seq = (s.next_seq + 1) % 2 ^ 32 } },
    )

-- `send_message`
unfoldable pub send_message : Env → RdowsMessage → Action (Unit {0})
send_message env m w =
    let later : World = record w { sent = w.sent ++ (m ∷ []) } in
    elim (env.link (length w.sent) (encode env.api m)) [
      | none ↦ (ok tt, later)
      | some e ↦ (err (web_socket e), later)
    ]

-- A header, the message built with it, and its send: the end of most handlers.
unfoldable pub reply : Env → Opcode → ℕ → (RdowsHeader → RdowsMessage) → Action (Unit {0})
reply env opcode wrid build = do h ← next_header opcode wrid; send_message env (build h)

-- `send_error`
unfoldable pub send_error : Env → ErrorCode → ℕ → List ℕ → Action (Unit {0})
send_error env error_code failing_seq description = reply env Opcode.error 0 (λ h.
    error h
      (record { error_code = error_code; failing_seq = failing_seq; description = description }))
