-- ===== src/Kv/WriteSlot.antt =====
-- Writing a slot of a table that a session holds (crates/rdows-kv/src/kv.rs).
use rdows.Prelude.{
  ℕ, ◌==◌, zero, suc, ◌+◌, ◌*◌, ◌%◌, ◌^◌, ◌≤◌, ◌<◌, ◌≡◌, refl, ap, sym, ◌∙◌, List, [], ◌∷◌, Bool,
  true, false, Option, none, some, Profile, length, if◌then◌else◌, arith,
}
use rdows.Prelude
use rdows.Prelude.Actions.{ok, bind-ok, this, modify, pure, ◌>>=◌, ◌>>◌}
use rdows.Prelude.Dict.{lookup, lookup-insert}
use rdows.Bytes.{IsBufApi}
use rdows.Bytes.Ranges.{splice}
use rdows.Core.Need.{IsU64}
use rdows.Core.Opcode
use rdows.Core.Memory.{remote_write}
use rdows.Core.Message.Write
use rdows.Core.Message.Write.{WritePayload}
use rdows.Core.Queue.Entry.{ScatterGatherEntry}
use rdows.Core.Queue.Completion.{CompletionQueueEntry}
use rdows.Client.LocalMemory.{MemoryRegionHandle, read_local, gather}
use rdows.Client.Wire
use rdows.Client.Connection.{Client, update, poll_completions}
use rdows.Client.Verbs.{complete, rdma_write, write_local_mr}
use rdows.Client.Exchange.{stored, store_read-stored}
use rdows.Server.Session
use rdows.Server.Session.{World}
use rdows.Server.Session.Steps.{IsUp}
use rdows.Link.Defs.{Served, joined}
use rdows.Link.InStep.{InStep}
use rdows.Link.Write as Joined
use rdows.Kv.Slot.{slot_count, slot_size}
use rdows.Kv.Store.{KvStore, KvAction, on_conn, take_wrid, write_slot}
use rdows.Kv.Remote.{length-splice, target, write_region-splice}
use rdows.Kv.Table.{
  InTable, queue_of, is_full-empty, push-empty, read_local-splice, on_conn-ok, take_wrid-ok,
  poll_completions-one,
}

module _ (env : Session.Env) (laws : IsBufApi env.api) (up : IsUp env) (prof : Profile) where
  module _ (n : ℕ) (s : KvStore Served) (w : World) (content : List ℕ) (i : ℕ) (slot : List ℕ)
      (a : InTable (suc n) s w content) (inside : i < slot_count)
      (sized : length slot ≡ slot_size) where
    abbrev entries : List ScatterGatherEntry
    entries = record { lkey = s.local_lkey; offset = 0; length = slot_size } ∷ []

    abbrev request : WritePayload
    request = record {
      rkey = s.remote_rkey;
      remote_va = i * slot_size;
      total = slot_size;
      sg_list = entries;
    }

    -- The client with the slot in its buffer.
    abbrev filled_client : Client Served
    filled_client = stored (joined prof env) s.local_lkey 0 slot a.mr s.conn

    filled_client-InStep : InStep filled_client w
    filled_client-InStep =
        let st : InStep s.conn w = a.step in
        record {
          other_side = st.other_side;
          quiet = st.quiet;
          established = st.established;
          request_due = st.request_due;
          reply_due = st.reply_due;
          client_id_fits = st.client_id_fits;
          client_seq_fits = st.client_seq_fits;
          server_id_fits = st.server_id_fits;
          server_seq_fits = st.server_seq_fits;
        }

    wrid_fits : IsU64 s.next_wrid
    wrid_fits = omega (arith, a.wrids)

    fits : Write.Fits request
    fits = record {
      rkey_fits = a.rkey_fits;
      remote_va_fits = omega arith;
      total_fits = omega arith;
      entries_fit = ((a.lkey_fits, omega arith, omega arith), tt);
    }

    few : length slot < 2 ^ 32
    few = omega (arith, sized)

    abbrev written_client : Client Served
    written_client =
        Joined.done_client env laws up prof filled_client w s.next_wrid request slot
          filled_client-InStep wrid_fits fits (omega arith) few

    abbrev polled_client : Client Served
    polled_client = record written_client {
      conn = record written_client.conn { cq = queue_of [] s.conn.conn.cq.capacity };
    }

    abbrev written_store : KvStore Served
    written_store = record s { next_wrid = s.next_wrid + 1; conn = polled_client }

    abbrev written_world : World
    written_world = Joined.settled env laws up prof filled_client w s.next_wrid request slot

    abbrev entry : CompletionQueueEntry
    entry = record {
      wrid = s.next_wrid;
      status = 0;
      opcode = Opcode.write;
      vendor_error = 0;
      byte_count = length slot % 2 ^ 32;
      qp_number = s.conn.conn.session_id;
    }

    written_client-cq : written_client.conn.cq ≡ queue_of (entry ∷ []) s.conn.conn.cq.capacity
    unfolding complete update modify
    written_client-cq = push-empty entry s.conn.conn.cq a.polled a.capacity

    gathered : gather prof filled_client.conn.local_mrs entries [] ≡ Prelude.ok slot
    unfolding gather
    gathered =
        let got : read_local prof s.local_lkey 0 slot_size filled_client.conn.local_mrs
            ≡ Prelude.ok slot =
          ap (λ k. read_local prof s.local_lkey 0 k filled_client.conn.local_mrs) (sym sized)
          ∙ read_local-splice prof s.local_lkey 0 slot s.conn.conn.local_mrs a.mr a.held
              (omega (arith, sized, a.wide)) a.bounded in
        ap
          (λ r. elim r [
            | Prelude.ok bytes ↦ Prelude.ok bytes
            | Prelude.err e ↦ Prelude.err e
            | Prelude.panic ↦ Prelude.panic
          ])
          got

    in_range : i * slot_size + length slot ≤ length content
    in_range = omega (arith, sized, a.whole)

    rdma_write-slot :
        rdma_write (joined prof env) s.next_wrid s.remote_rkey (i * slot_size) entries filled_client
        ≡ (ok tt, written_client)
    rdma_write-slot =
        let allowed =
          target s.remote_rkey a.flags content w.session.memory_store a.valid a.sees remote_write
            (i * slot_size) (length slot) a.writable in_range in
        Joined.rdma_write-done env laws up prof filled_client w s.next_wrid request slot
          filled_client-InStep wrid_fits fits (omega arith) few (sym sized)
          (is_full-empty s.conn.conn.cq a.polled a.capacity) gathered
          (Joined.request-reacts env laws up prof filled_client w s.next_wrid request slot
            filled_client-InStep wrid_fits fits (omega arith) few (omega (arith, a.sized))
            (omega (arith, sized, a.sized)) a.valid allowed)
          (Joined.data_message-reacts env laws up prof filled_client w s.next_wrid request slot
            filled_client-InStep wrid_fits fits (omega arith) few (omega (arith, a.sized))
            (omega (arith, sized, a.sized)) a.valid allowed)

    write_slot-done : write_slot (joined prof env) i slot s ≡ (ok tt, written_store)
    unfolding write_slot this ◌>>=◌ ◌>>◌ pure write_local_mr
    write_slot-done =
        let e : Wire.Env Served = joined prof env in
        let full : KvStore Served = record s { conn = filled_client } in
        let counted : KvStore Served = record full { next_wrid = s.next_wrid + 1 } in
        let last : KvAction e (Unit {0}) = on_conn e (poll_completions 1) >> pure tt in
        bind-ok (on_conn e (write_local_mr e s.local_lkey 0 slot))
          (λ _. take_wrid e >>= λ wrid.
            on_conn e (rdma_write e wrid s.remote_rkey (i * slot_size) entries) >> last)
          (on_conn-ok e (write_local_mr e s.local_lkey 0 slot) s (
            store_read-stored e s.local_lkey 0 slot a.mr s.conn a.held
              (omega (arith, sized, a.wide)) a.bounded))
        ∙ bind-ok (take_wrid e)
            (λ wrid. on_conn e (rdma_write e wrid s.remote_rkey (i * slot_size) entries) >> last)
            (take_wrid-ok e full (omega (arith, a.wrids)))
        ∙ bind-ok (on_conn e (rdma_write e s.next_wrid s.remote_rkey (i * slot_size) entries))
            (λ _. last)
            (on_conn-ok e (rdma_write e s.next_wrid s.remote_rkey (i * slot_size) entries) counted
              rdma_write-slot)
        ∙ bind-ok (on_conn e (poll_completions 1)) (λ _. pure tt)
            (on_conn-ok e (poll_completions 1) (record counted { conn = written_client })
              (poll_completions-one e written_client entry s.conn.conn.cq.capacity
                written_client-cq))

    write_slot-InTable : InTable n written_store written_world (splice (i * slot_size) slot content)
    unfolding complete update modify
    write_slot-InTable =
        let st : InStep written_client written_world =
          Joined.done-InStep env laws up prof filled_client w s.next_wrid request slot
            filled_client-InStep wrid_fits fits (omega arith) few in
        let mr : MemoryRegionHandle = record a.mr { local_buf = splice 0 slot a.mr.local_buf } in
        let same : length mr.local_buf ≡ length a.mr.local_buf =
          length-splice 0 slot a.mr.local_buf (omega (arith, sized, a.wide)) in
        let there : (s.local_lkey == s.local_lkey) ≡ true = ground arith in
        let (valid, sees) =
          write_region-splice s.remote_rkey a.flags content w.session.memory_store a.valid a.sees
            (i * slot_size) slot a.writable in_range in
        record {
          step = record {
            other_side = st.other_side;
            quiet = st.quiet;
            established = st.established;
            request_due = st.request_due;
            reply_due = st.reply_due;
            client_id_fits = st.client_id_fits;
            client_seq_fits = st.client_seq_fits;
            server_id_fits = st.server_id_fits;
            server_seq_fits = st.server_seq_fits;
          };
          valid = valid;
          flags = a.flags;
          sees = sees;
          readable = a.readable;
          writable = a.writable;
          whole = length-splice (i * slot_size) slot content in_range ∙ a.whole;
          mr = mr;
          held =
              lookup-insert s.local_lkey s.local_lkey mr s.conn.conn.local_mrs
              ∙ ap (λ b. if b then some mr else lookup s.local_lkey s.conn.conn.local_mrs) there;
          wide = omega (arith, same, a.wide);
          bounded = omega (arith, same, a.bounded);
          polled = refl;
          capacity = a.capacity;
          wrids = omega (arith, a.wrids);
          rkey_fits = a.rkey_fits;
          lkey_fits = a.lkey_fits;
          sized = a.sized;
          reads = a.reads;
          few_reads = a.few_reads;
        }

-- A slot that is written into the table is spliced into its bytes.
pub write_slot-splice :
    (env : Session.Env) (laws : IsBufApi env.api) (up : IsUp env) (prof : Profile) (n : ℕ)
    (s : KvStore Served) (w : World) (content : List ℕ) (i : ℕ) (slot : List ℕ)
    → InTable (suc n) s w content
    → i < slot_count
    → length slot ≡ slot_size
    → (t : KvStore Served) × (v : World) × (write_slot (joined prof env) i slot s ≡ (ok tt, t))
      × InTable n t v (splice (i * slot_size) slot content)
write_slot-splice env laws up prof n s w content i slot a inside sized = (
  written_store env laws up prof n s w content i slot a inside sized,
  written_world env laws up prof n s w content i slot a inside sized,
  write_slot-done env laws up prof n s w content i slot a inside sized,
  write_slot-InTable env laws up prof n s w content i slot a inside sized,
)
