-- ===== src/Link/Examples.antt =====
-- A READ and a WRITE at a concrete client and session.
use rdows.Prelude.{
  ℕ, ◌==◌, ◌≡◌, refl, List, [], ◌∷◌, some, false, wrapping, arith, replicate, length,
}
use rdows.Prelude
use rdows.Prelude.Actions.{ok}
use rdows.Prelude.Dict.{lookup, insert}
use rdows.Bytes.ListApi.{list_api-IsBufApi}
use rdows.Bytes.Ranges.{slice, splice}
use rdows.Core.Memory.{contains}
use rdows.Core.Message.ReadReq.{ReadReqPayload}
use rdows.Core.Message.Write.{WritePayload}
use rdows.Client.CompletionQueue.{is_full}
use rdows.Client.LocalMemory.{
  MemoryRegionHandle, gather, read_local, find_local, read_range, range_end, range,
}
use rdows.Client.Connection.{Client}
use rdows.Client.Verbs.{rdma_read, rdma_write}
use rdows.Server.Store.{read_region, write_region, find_granted, find_region}
use rdows.Server.Store.Examples.{one_region, one_region-IsValid}
use rdows.Server.Session.{World}
use rdows.Server.Session.Examples.{env, established, target}
use rdows.Link.Defs.{Served, online, joined}
use rdows.Link.InStep.{InStep}
use rdows.Link.Read.{rdma_read-read_region}
use rdows.Link.Write.{rdma_write-write_region}

abbrev buffer : MemoryRegionHandle
buffer = record { lkey = 1; rkey = 77; len = 4; local_buf = 5 ∷ 6 ∷ 7 ∷ 8 ∷ [] }

abbrev client : Client Served
client = record {
  conn = record {
    session_id = 7;
    pd = 5;
    max_msg_size = 65536;
    next_seq = 4;
    expected_remote_seq = some 1;
    send_credits = 65535;
    cq = record { entries = []; capacity = 8 };
    local_mrs = (1, buffer) ∷ [];
  };
  wire = record { net = online established; inbox = [] };
}

client-InStep : InStep client established
client-InStep = record {
  other_side = refl;
  quiet = refl;
  established = refl;
  request_due = refl;
  reply_due = refl;
  client_id_fits = omega arith;
  client_seq_fits = omega arith;
  server_id_fits = omega arith;
  server_seq_fits = omega arith;
}

abbrev read_request : ReadReqPayload
read_request = record { rkey = 77; remote_va = 14; read_len = 2; local_lkey = 1; local_va = 0 }

reads_zeroes : read_region 77 14 2 one_region ≡ Prelude.ok (0 ∷ 0 ∷ [])
unfolding read_region find_granted find_region lookup slice contains insert
reads_zeroes = refl

buffer_at_1 : lookup 1 ((1, buffer) ∷ []) ≡ some buffer
unfolding lookup
buffer_at_1 = refl

has_room : is_full (record { entries = []; capacity = 8 }) ≡ false
unfolding is_full
has_room = refl

rdma_read-read_region_example :
    (d : Client Served) × (v : World) × (rdma_read (joined wrapping env) 9 77 14 2 1 0 client
      ≡ (ok tt, d))
    × InStep d v
    × (v.session.memory_store ≡ one_region)
    × (d.conn.local_mrs
        ≡ insert 1
            (record buffer { local_buf = splice 0 (0 ∷ 0 ∷ []) (5 ∷ 6 ∷ 7 ∷ 8 ∷ []) })
            ((1, buffer) ∷ []))
rdma_read-read_region_example =
    rdma_read-read_region env list_api-IsBufApi (λ n frame. refl) wrapping client established 9
      read_request (0 ∷ 0 ∷ []) buffer client-InStep (omega arith)
      (omega arith, omega arith, omega arith, omega arith, omega arith) (omega arith) (omega arith)
      (omega arith) (omega arith) reads_zeroes has_room buffer_at_1 (omega arith) (omega arith)

abbrev write_request : WritePayload
write_request = record {
  rkey = 77;
  remote_va = 14;
  total = 2;
  sg_list = record { lkey = 1; offset = 2; length = 2 } ∷ [];
}

gathers : gather wrapping ((1, buffer) ∷ []) write_request.sg_list [] ≡ Prelude.ok (7 ∷ 8 ∷ [])
unfolding gather read_local find_local read_range range_end range lookup slice
gathers = refl

rdma_write-write_region_example :
    (d : Client Served) × (v : World) × (rdma_write
        (joined wrapping env)
        9
        77
        14
        (record { lkey = 1; offset = 2; length = 2 } ∷ [])
        client
      ≡ (ok tt, d))
    × InStep d v
    × (v.session.memory_store ≡ (write_region 77 14 (7 ∷ 8 ∷ []) one_region).1)
    × (d.conn.local_mrs ≡ (1, buffer) ∷ [])
rdma_write-write_region_example =
    rdma_write-write_region env list_api-IsBufApi (λ n frame. refl) wrapping client established 9
      write_request (7 ∷ 8 ∷ []) client-InStep (omega arith)
      (record {
        rkey_fits = omega arith;
        remote_va_fits = omega arith;
        total_fits = omega arith;
        entries_fit = ((omega arith, omega arith, omega arith), tt);
      })
      refl (omega arith) (omega arith) (omega arith) (omega arith) one_region-IsValid target
      has_room gathers
