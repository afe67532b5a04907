-- ===== src/Client/Examples.antt =====
-- The theorems on the client at concrete connections.
use rdows.Prelude.{
  ℕ, ◌+◌, ◌≤◌, ◌≡◌, refl, List, [], ◌∷◌, none, some, Result, checked, false, arith, replicate, ◌==◌,
  ◌⊎◌,
}
use rdows.Prelude.Actions.{waiting, ◌>>=◌, zoom}
use rdows.Prelude.Dict.{Dict, lookup}
use rdows.Bytes.ListApi.{list_api}
use rdows.Core.Error.{err_invalid_mkey}
use rdows.Core.Opcode
use rdows.Core.Frame.{RdowsHeader}
use rdows.Core.Message
use rdows.Core.Message.{encode}
use rdows.Core.Queue.Entry.{ScatterGatherEntry}
use rdows.Client.LocalMemory.{MemoryRegionHandle, read_local, write_local}
use rdows.Client.Wire.{Arrival, binary, close, other, Env, receive, recv_message}
use rdows.Client.Connection.{Connection, Client, on_wire, recv_loop, recv_app_message}
use rdows.Client.Verbs.{post_send, rdma_write, rdma_read, post_atomic}
use rdows.Client.Rounds.{is_over}
use rdows.Client.Receiving.{recv_app_message-waiting}
use rdows.Client.Waiting.{LoopRun, recv_app_message-LoopRun}
use rdows.Client.Ending.{
  Ends, send_request, write_request, read_request, atomic_request, send_finish, write_finish,
  read_finish, atomic_finish,
}
use rdows.Client.Completions.{post-Ends}
use rdows.Client.Buffers.{read_local-write_local}

-- Another side that closes the stream when something is sent to it.
abbrev closing : Env (Unit {0})
closing = record {
  prof = checked;
  api = list_api;
  peer = record { react = λ frame n. (none, n, close ∷ []) };
}

abbrev region : MemoryRegionHandle
region = record { lkey = 1; rkey = 77; len = 16; local_buf = replicate 16 0 }

abbrev connection : Connection
connection = record {
  session_id = 7;
  pd = 1;
  max_msg_size = 65536;
  next_seq = 1;
  expected_remote_seq = some 1;
  send_credits = 4;
  cq = record { entries = []; capacity = 2 };
  local_mrs = (1, region) ∷ [];
}

abbrev client : List Arrival → Client (Unit {0})
client inbox = record { conn = connection; wire = record { net = tt; inbox = inbox } }

abbrev head : Opcode.Opcode → ℕ → RdowsHeader
head opcode sequence = record {
  version = 1;
  opcode = opcode;
  flags = 0;
  session_id = 7;
  sequence = sequence;
  wrid = 0;
  payload_length = 0;
}

-- A CREDIT_UPDATE comes before the ACK.
abbrev credit_frame : List ℕ
credit_frame =
    encode list_api
      (Message.credit_update (head Opcode.credit_update 1) (record { credit_increment = 8 }))

abbrev ack_frame : List ℕ
ack_frame = encode list_api (Message.ack (head Opcode.ack 2))

recv_app_message-LoopRun_example :
    (k : ℕ) × (k ≤ 4)
    × LoopRun closing
        (client (other ∷ binary credit_frame ∷ binary ack_frame ∷ []))
        k
        (recv_app_message closing (client (other ∷ binary credit_frame ∷ binary ack_frame ∷ [])))
recv_app_message-LoopRun_example =
    recv_app_message-LoopRun closing (client (other ∷ binary credit_frame ∷ binary ack_frame ∷ []))

waits : (recv_app_message closing (client (other ∷ []))).0 ≡ waiting
unfolding recv_app_message recv_loop ◌>>=◌ on_wire zoom recv_message receive
waits = refl

recv_app_message-waiting_example :
    ((recv_app_message closing (client (other ∷ []))).1.wire.inbox ≡ [])
    × (is_over (other ∷ []) ≡ false)
recv_app_message-waiting_example = recv_app_message-waiting closing (client (other ∷ [])) waits

-- Another side that answers whatever is sent to it with an ERROR.
abbrev refusing : Env (Unit {0})
refusing = record {
  prof = checked;
  api = list_api;
  peer = record {
    react = λ frame n. (
      none,
      n,
      binary (
            encode list_api (
              Message.error (head Opcode.error 1)
                (record { error_code = err_invalid_mkey; failing_seq = 1; description = [] })))
          ∷ [],
    );
  };
}

post-Ends_example :
    ((sg_list : List ScatterGatherEntry)
      → Ends 9 Opcode.send
          (send_finish refusing)
          (record { entries = []; capacity = 2 })
          (send_request refusing 9 sg_list (client []))
          (post_send refusing 9 sg_list (client [])))
    × ((rkey remote_va : ℕ) (sg_list : List ScatterGatherEntry)
        → Ends 9 Opcode.write
            (write_finish refusing)
            (record { entries = []; capacity = 2 })
            (write_request refusing 9 rkey remote_va sg_list (client []))
            (rdma_write refusing 9 rkey remote_va sg_list (client [])))
    × ((rkey remote_va len lkey va : ℕ)
        → Ends 9 Opcode.read_req
            (read_finish refusing lkey va)
            (record { entries = []; capacity = 2 })
            (read_request refusing 9 rkey remote_va len lkey va (client []))
            (rdma_read refusing 9 rkey remote_va len lkey va (client [])))
    × ((rkey remote_va kind a b : ℕ)
        → Ends 9 Opcode.atomic_req
            (atomic_finish refusing)
            (record { entries = []; capacity = 2 })
            (atomic_request refusing 9 rkey remote_va kind a b (client []))
            (post_atomic refusing 9 rkey remote_va kind a b (client [])))
post-Ends_example = post-Ends refusing 9 (client [])

region_at_1 : lookup 1 ((1, region) ∷ []) ≡ some region
unfolding lookup
region_at_1 = refl

read_local-write_local_example :
    (later : Dict MemoryRegionHandle) × (write_local checked 1 4 (10 ∷ 20 ∷ []) ((1, region) ∷ [])
      ≡ Result.ok later)
    × (read_local checked 1 4 2 later ≡ Result.ok (10 ∷ 20 ∷ []))
    × ((other off len : ℕ)
        → (1 == other) ≡ false
        → read_local checked other off len later
          ≡ read_local checked other off len ((1, region) ∷ []))
    × ((off len : ℕ)
        → (off + len ≤ 4) ⊎ (6 ≤ off)
        → off + len ≤ 16
        → read_local checked 1 off len later ≡ read_local checked 1 off len ((1, region) ∷ []))
read_local-write_local_example =
    read_local-write_local checked 1 4 (10 ∷ 20 ∷ []) ((1, region) ∷ []) region region_at_1
      (omega arith) (omega arith)
