-- ===== src/Kv/ReadSlot.antt =====
-- Reading a slot of a table that a session holds (crates/rdows-kv/src/kv.rs).
use rdows.Prelude.{
  ℕ, ◌==◌, suc, ◌+◌, ◌*◌, ◌%◌, ◌^◌, ◌<◌, ◌≡◌, refl, ap, sym, ◌∙◌, List, [], ◌∷◌, true, some,
  Profile, length, if◌then◌else◌, arith,
}
use rdows.Prelude.Actions.{ok, from_result, bind-ok, this, lift, modify, ◌>>=◌, ◌>>◌}
use rdows.Prelude.Dict.{lookup, insert, lookup-insert}
use rdows.Bytes.{IsBufApi}
use rdows.Bytes.Ranges.{slice, splice, split}
use rdows.Core.Opcode
use rdows.Core.Need.{IsU64}
use rdows.Core.Message.ReadReq
use rdows.Core.Message.ReadReq.{ReadReqPayload}
use rdows.Core.Queue.Completion.{CompletionQueueEntry}
use rdows.Client.LocalMemory.{MemoryRegionHandle, read_local}
use rdows.Client.Wire
use rdows.Client.Connection.{Client, update, poll_completions}
use rdows.Client.Verbs.{complete, rdma_read, read_local_mr}
use rdows.Server.Session
use rdows.Server.Session.{World}
use rdows.Server.Session.Steps.{IsUp}
use rdows.Link.Defs.{Served, joined}
use rdows.Link.InStep.{InStep}
use rdows.Link.Read
use rdows.Kv.Slot.{slot_count, slot_size, mr_size}
use rdows.Kv.Store.{KvStore, KvAction, on_conn, take_wrid, as_slot, read_slot}
use rdows.Kv.Remote.{slice-mid, length-splice, read_region-slice}
use rdows.Kv.Table.{
  InTable, queue_of, is_full-empty, push-empty, read_local-splice, on_conn-ok, take_wrid-ok,
  poll_completions-one, as_slot-ok,
}

-- A slot of the table.
abbrev pub slot_of : ℕ → List ℕ → List ℕ
slot_of i content = slice (i * slot_size) slot_size content

pub length-slot_of :
    (i : ℕ) (content : List ℕ)
    → i < slot_count
    → length content ≡ mr_size
    → length (slot_of i content) ≡ slot_size
length-slot_of i content h whole =
    let cut = split (i * slot_size) slot_size content (omega arith) in
    ap length (slice-mid cut) ∙ cut.length_mid

module _ (env : Session.Env) (laws : IsBufApi env.api) (up : IsUp env) (prof : Profile) where
  module _ (n : ℕ) (s : KvStore Served) (w : World) (content : List ℕ) (i : ℕ)
      (a : InTable (suc n) s w content) (inside : i < slot_count) where
    abbrev bytes : List ℕ
    bytes = slot_of i content

    abbrev request : ReadReqPayload
    request = record {
      rkey = s.remote_rkey;
      remote_va = i * slot_size;
      read_len = slot_size;
      local_lkey = s.local_lkey;
      local_va = 0;
    }

    sized : length bytes ≡ slot_size
    sized = length-slot_of i content inside a.whole

    wrid_fits : IsU64 s.next_wrid
    wrid_fits = omega (arith, a.wrids)

    fits : ReadReq.Fits request
    fits = (a.rkey_fits, omega arith, omega arith, a.lkey_fits, omega arith)

    short : 8 + length bytes < 2 ^ 32
    short = omega (arith, sized)

    -- The client with the completion of the READ, and without it.
    abbrev read_client : Client Served
    read_client =
        Read.done_client env laws up prof s.conn w s.next_wrid request bytes a.step wrid_fits fits
          short a.mr

    abbrev polled_client : Client Served
    polled_client = record read_client {
      conn = record read_client.conn { cq = queue_of [] s.conn.conn.cq.capacity };
    }

    abbrev read_store : KvStore Served
    read_store = record s { next_wrid = s.next_wrid + 1; conn = polled_client }

    abbrev read_world : World
    read_world = Read.served env laws up prof s.conn w s.next_wrid request bytes

    abbrev entry : CompletionQueueEntry
    entry = record {
      wrid = s.next_wrid;
      status = 0;
      opcode = Opcode.read_req;
      vendor_error = 0;
      byte_count = length bytes % 2 ^ 32;
      qp_number = s.conn.conn.session_id;
    }

    read_client-cq : read_client.conn.cq ≡ queue_of (entry ∷ []) s.conn.conn.cq.capacity
    unfolding complete update modify
    read_client-cq = push-empty entry s.conn.conn.cq a.polled a.capacity

    rdma_read-slot :
        rdma_read
          (joined prof env)
          s.next_wrid
          s.remote_rkey
          (i * slot_size)
          slot_size
          s.local_lkey
          0
          s.conn
        ≡ (ok tt, read_client)
    rdma_read-slot =
        Read.rdma_read-done env laws up prof s.conn w s.next_wrid request bytes a.step wrid_fits
          fits short a.mr (is_full-empty s.conn.conn.cq a.polled a.capacity)
          (Read.request-served env laws up prof s.conn w s.next_wrid request bytes a.step wrid_fits
            fits short (omega (arith, a.sized)) a.reads a.few_reads
            (read_region-slice s.remote_rkey a.flags content w.session.memory_store a.valid a.sees
              (i * slot_size) slot_size a.readable (omega (arith, a.whole))))
          (Read.after_read-done env laws up prof s.conn w s.next_wrid request bytes a.step wrid_fits
            fits short a.mr a.held (omega (arith, sized, a.wide)) a.bounded)

    read_local_mr-slot :
        read_local_mr (joined prof env) s.local_lkey 0 slot_size polled_client
        ≡ (ok bytes, polled_client)
    unfolding read_local_mr this lift ◌>>=◌ complete update modify
    read_local_mr-slot =
        ap (λ r. (from_result r, polled_client))
          (ap
              (λ k. read_local prof s.local_lkey 0 k (
                insert s.local_lkey (record a.mr { local_buf = splice 0 bytes a.mr.local_buf })
                  s.conn.conn.local_mrs))
              (sym sized)
            ∙ read_local-splice prof s.local_lkey 0 bytes s.conn.conn.local_mrs a.mr a.held
                (omega (arith, sized, a.wide)) a.bounded)

    read_slot-slot_of : read_slot (joined prof env) i s ≡ (ok bytes, read_store)
    unfolding read_slot this ◌>>=◌ ◌>>◌
    read_slot-slot_of =
        let e : Wire.Env Served = joined prof env in
        let counted : KvStore Served = record s { next_wrid = s.next_wrid + 1 } in
        let last : KvAction e (List ℕ) =
          on_conn e (read_local_mr e s.local_lkey 0 slot_size) >>= as_slot e in
        bind-ok (take_wrid e)
          (λ wrid. this >>= λ (k : KvStore Served).
            on_conn e (rdma_read e wrid k.remote_rkey (i * slot_size) slot_size k.local_lkey 0)
            >> (on_conn e (poll_completions 1)
                >> (on_conn e (read_local_mr e k.local_lkey 0 slot_size) >>= as_slot e)))
          (take_wrid-ok e s (omega (arith, a.wrids)))
        ∙ bind-ok
            (on_conn e
              (rdma_read e s.next_wrid s.remote_rkey (i * slot_size) slot_size s.local_lkey 0))
            (λ _. on_conn e (poll_completions 1) >> last)
            (on_conn-ok e
              (rdma_read e s.next_wrid s.remote_rkey (i * slot_size) slot_size s.local_lkey 0)
              counted rdma_read-slot)
        ∙ bind-ok (on_conn e (poll_completions 1)) (λ _. last)
            (on_conn-ok e (poll_completions 1) (record counted { conn = read_client })
              (poll_completions-one e read_client entry s.conn.conn.cq.capacity read_client-cq))
        ∙ bind-ok (on_conn e (read_local_mr e s.local_lkey 0 slot_size)) (as_slot e)
            (on_conn-ok e (read_local_mr e s.local_lkey 0 slot_size) read_store read_local_mr-slot)
        ∙ as_slot-ok e bytes read_store sized

    read_slot-InTable : InTable n read_store read_world content
    unfolding complete update modify
    read_slot-InTable =
        let st : InStep read_client read_world =
          Read.done-InStep env laws up prof s.conn w s.next_wrid request bytes a.step wrid_fits fits
            short a.mr in
        let mr : MemoryRegionHandle = record a.mr { local_buf = splice 0 bytes a.mr.local_buf } in
        let same : length mr.local_buf ≡ length a.mr.local_buf =
          length-splice 0 bytes a.mr.local_buf (omega (arith, sized, a.wide)) in
        let there : (s.local_lkey == s.local_lkey) ≡ true = ground arith in
        record {
          step = record {
            other_side = st.other_side;
            quiet = st.quiet;
            established = st.established;
            request_due = st.request_due;
            reply_due = st.reply_due;
            client_id_fits = st.client_id_fits;
            client_seq_fits = st.client_seq_fits;
            server_id_fits = st.server_id_fits;
            server_seq_fits = st.server_seq_fits;
          };
          valid = a.valid;
          flags = a.flags;
          sees = a.sees;
          readable = a.readable;
          writable = a.writable;
          whole = a.whole;
          mr = mr;
          held =
              lookup-insert s.local_lkey s.local_lkey mr s.conn.conn.local_mrs
              ∙ ap (λ b. if b then some mr else lookup s.local_lkey s.conn.conn.local_mrs) there;
          wide = omega (arith, same, a.wide);
          bounded = omega (arith, same, a.bounded);
          polled = refl;
          capacity = a.capacity;
          wrids = omega (arith, a.wrids);
          rkey_fits = a.rkey_fits;
          lkey_fits = a.lkey_fits;
          sized = a.sized;
          reads = a.reads;
          few_reads = a.few_reads;
        }

-- A slot that is read is that of the table, which is left as it is.
pub read_slot-read :
    (env : Session.Env) (laws : IsBufApi env.api) (up : IsUp env) (prof : Profile) (n : ℕ)
    (s : KvStore Served) (w : World) (content : List ℕ) (i : ℕ)
    → InTable (suc n) s w content
    → i < slot_count
    → (t : KvStore Served) × (v : World) × (read_slot (joined prof env) i s
        ≡ (ok (slot_of i content), t))
      × InTable n t v content
read_slot-read env laws up prof n s w content i a inside = (
  read_store env laws up prof n s w content i a inside,
  read_world env laws up prof n s w content i a inside,
  read_slot-slot_of env laws up prof n s w content i a inside,
  read_slot-InTable env laws up prof n s w content i a inside,
)
