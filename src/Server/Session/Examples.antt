-- ===== src/Server/Session/Examples.antt =====
-- The theorems on sessions at concrete messages.
use rdows.Prelude.{ℕ, ◌≡◌, refl, List, [], ◌∷◌, ◌++◌, none, some, ok, checked, arith, replicate}
use rdows.Bytes.ListApi.{list_api}
use rdows.Core.Error.{err_seq_gap}
use rdows.Core.Opcode
use rdows.Core.Frame.{RdowsHeader}
use rdows.Core.Memory.{remote_write}
use rdows.Core.Message.Write.{WritePayload}
use rdows.Core.Message.ErrorReply.{ErrorPayload}
use rdows.Core.Message.RoundTrip
use rdows.Core.Message
use rdows.Core.Message.{RdowsMessage, encode}
use rdows.Server.Texts.{gap_text}
use rdows.Server.Store.Access.{Target}
use rdows.Bytes.Ranges.{split}
use rdows.Server.Store.Examples.{keys, one_region, one_region-IsValid, seen_77, grants_14}
use rdows.Server.Session.Defs.{no_op, ready, ServerConfig, World, Env, new_session}
use rdows.Server.Session.Handlers.{handle_send, handle_send_data, handle_write, handle_write_data}
use rdows.Server.Session.Messages.{Event, binary, close, run_session}
use rdows.Server.Session.Numbering.{AreNumbered}
use rdows.Server.Session.Runs.{run_session-AreNumbered}
use rdows.Server.Session.Steps.{replied}
use rdows.Server.Session.Exchanges.{
  written, handle_write_data-handle_write, handle_send_data-handle_send, not_ready,
}

-- A connection that takes whatever is sent.
abbrev pub env : Env
env = record { prof = checked; api = list_api; link = λ n frame. none; rng = keys; now = 0 }

abbrev config : ServerConfig
config = record {
  recv_queue_depth = 128;
  max_regions_per_session = 4096;
  max_total_bytes_per_session = 1048576;
  max_outstanding_reads = 128;
  max_sessions_per_ip = 256;
  mr_reg_rate_limit = 1000;
}

abbrev head : Opcode.Opcode → ℕ → RdowsHeader
head opcode sequence = record {
  version = 1;
  opcode = opcode;
  flags = 0;
  session_id = 7;
  sequence = sequence;
  wrid = 3;
  payload_length = 0;
}

abbrev hello : RdowsMessage
hello =
    Message.connect (head Opcode.connect 0)
      (record { pd = 5; capability_flags = 0; max_msg_size = 65536; icc = 16 })

abbrev arrivals : List Event
arrivals =
    binary env (encode list_api hello)
    ∷ binary env (encode list_api (Message.ack (head Opcode.ack 9)))
    ∷ close
    ∷ []

run_session-AreNumbered_example :
    AreNumbered 0
      (run_session arrivals (record { session = new_session config 0; sent = [] })).1.sent
run_session-AreNumbered_example = run_session-AreNumbered config 0 arrivals

-- An established session with a region.
abbrev pub established : World
established = record {
  session = record {
    state = ready;
    session_id = 7;
    pd = 5;
    max_msg_size = 65536;
    next_seq = 1;
    memory_store = one_region;
    pending_op = no_op;
    recv_queue_depth = 128;
    expected_remote_seq = some 4;
    sends_since_last_credit = 0;
    icc = 65535;
    outstanding_reads = 0;
    max_outstanding_reads = 128;
    mr_reg_count = 1;
    mr_reg_window_start = 0;
    mr_reg_rate_limit = 1000;
  };
  sent = [];
}

abbrev request : WritePayload
request = record { rkey = 77; remote_va = 14; total = 2; sg_list = [] }

pub target : Target 77 remote_write 14 2 one_region
target = record {
  flags = 14;
  content = replicate 16 0;
  sees = seen_77;
  allowed = grants_14.0;
  range = split 14 2 (replicate 16 0) (omega arith);
}

handle_write_data-handle_write_example :
    handle_write_data env
      (record { content = 1 ∷ 2 ∷ [] })
      (handle_write env (head Opcode.write 4) request established).1
    ≡ (
      ok tt,
      replied Opcode.write_comp 3 Message.write_comp
          (written env (λ n frame. refl) (head Opcode.write 4) request (1 ∷ 2 ∷ []) established),
    )
handle_write_data-handle_write_example =
    handle_write_data-handle_write env (λ n frame. refl) (head Opcode.write 4) request (1 ∷ 2 ∷ [])
      established one_region-IsValid target

-- An ACK out of turn, of an established session.
abbrev stray : RdowsMessage
stray = Message.ack (head Opcode.ack 9)

abbrev frame : List ℕ
frame = encode list_api stray ++ []

abbrev stray_answer : ErrorPayload
stray_answer = record { error_code = err_seq_gap; failing_seq = 9; description = gap_text 4 9 }

-- The same session with a full receive queue.
abbrev full : World
full = record established { session = record established.session { recv_queue_depth = 0 } }

handle_send_data-handle_send_example :
    handle_send_data env (handle_send env (head Opcode.send 4) full).1 ≡ (
      ok tt,
      (let w : World = not_ready env (λ n frame. refl) (head Opcode.send 4) full in
          record w { session = record w.session { pending_op = no_op } }),
    )
handle_send_data-handle_send_example =
    handle_send_data-handle_send env (λ n frame. refl) (head Opcode.send 4) full refl
