-- ===== src/Kv/Table.antt =====
-- A store over a connection that is joined to a session, and the table in the session's region.
use rdows.Prelude.{
  ℕ, ◌==◌, zero, suc, ◌+◌, ◌*◌, ◌-◌, ◌%◌, ◌^◌, ◌≤◌, ◌<◌, ◌≡◌, refl, ap, sym, ◌∙◌, List, [], ◌∷◌,
  ◌++◌, Bool, true, false, Option, none, some, Profile, Result, length, leb, add_uint, add_uint-ok,
  if◌then◌else◌, arith,
}
use rdows.Prelude
use mathlib.Core.Path.{subst}
use rdows.Prelude.Actions.{
  Outcome, ok, Action, from_result, bind-ok, this, lift, modify, pure, ◌>>=◌, ◌>>◌, zoom,
  with_error, if-true,
}
use rdows.Prelude.Dict.{Dict, lookup, insert}
use rdows.Bytes.Ranges.{splice}
use rdows.Core.Need.{IsU32}
use rdows.Core.Error.{RdowsError}
use rdows.Core.Memory.{contains, remote_read, remote_write}
use rdows.Core.Queue.Completion.{CompletionQueueEntry}
use rdows.Client.CompletionQueue.{CompletionQueue, is_full, push, poll_cq}
use rdows.Client.LocalMemory.{MemoryRegionHandle, read_local}
use rdows.Client.Buffers.{read_local-write_local, write_local-found}
use rdows.Client.Wire
use rdows.Client.Connection.{Client, poll_completions}
use rdows.Server.Store.Invariant
use rdows.Server.Store.View.{view}
use rdows.Server.Session.{World}
use rdows.Link.Defs.{Served}
use rdows.Link.InStep.{InStep}
use rdows.Kv.Slot.{KvError, slot_size, mr_size}
use rdows.Kv.Store.{KvStore, on_conn, take_wrid, as_slot}

-- The session holds a table for the store, with these bytes, and both are ready for `n` requests.
pub record InTable (n : ℕ) (s : KvStore Served) (w : World) (content : List ℕ) : Type 0 where
  pub step : InStep s.conn w
  pub valid : Invariant.IsValid w.session.memory_store
  pub flags : ℕ
  pub sees : view w.session.memory_store s.remote_rkey ≡ some (flags, content)
  pub readable : contains flags remote_read ≡ true
  pub writable : contains flags remote_write ≡ true
  pub whole : length content ≡ mr_size
  pub mr : MemoryRegionHandle
  pub held : lookup s.local_lkey s.conn.conn.local_mrs ≡ some mr
  pub wide : slot_size ≤ length mr.local_buf
  pub bounded : length mr.local_buf < 2 ^ 64
  pub polled : s.conn.conn.cq.entries ≡ []
  pub capacity : 1 ≤ s.conn.conn.cq.capacity
  pub wrids : s.next_wrid + n < 2 ^ 64
  pub rkey_fits : IsU32 s.remote_rkey
  pub lkey_fits : IsU32 s.local_lkey
  pub sized : slot_size ≤ w.session.max_msg_size
  pub reads : w.session.outstanding_reads < w.session.max_outstanding_reads
  pub few_reads : w.session.max_outstanding_reads < 2 ^ 32

-- A queue without entries, and one with an entry.
abbrev pub queue_of : List CompletionQueueEntry → ℕ → CompletionQueue
queue_of entries k = record { entries = entries; capacity = k }

pub is_full-empty : (q : CompletionQueue) → q.entries ≡ [] → 1 ≤ q.capacity → is_full q ≡ false
unfolding is_full
is_full-empty q e h = ap (λ es. leb q.capacity (length es)) e ∙ ground arith

pub push-empty :
    (entry : CompletionQueueEntry) (q : CompletionQueue)
    → q.entries ≡ []
    → 1 ≤ q.capacity
    → (push entry q).1 ≡ queue_of (entry ∷ []) q.capacity
unfolding push
push-empty entry q e h =
    let free : leb q.capacity 0 ≡ false = ground arith in
    ap (λ es. (push entry (queue_of es q.capacity)).1) e
    ∙ ap
        (λ b.
          (if◌then◌else◌ {A = Bool × CompletionQueue} b (false, queue_of [] q.capacity)
            (true, queue_of (entry ∷ []) q.capacity)).1)
        free

ok-injective :
    {A : Type 0} {a b : A} → ◌≡◌ {A = Result RdowsError A} (Prelude.ok a) (Prelude.ok b) → a ≡ b
ok-injective e = cc e

-- What has been stored in a local buffer is read from it.
pub read_local-splice :
    (prof : Profile) (lkey offset : ℕ) (bytes : List ℕ) (mrs : Dict MemoryRegionHandle)
    (mr : MemoryRegionHandle)
    → lookup lkey mrs ≡ some mr
    → offset + length bytes ≤ length mr.local_buf
    → length mr.local_buf < 2 ^ 64
    → read_local prof lkey offset
        (length bytes)
        (insert lkey (record mr { local_buf = splice offset bytes mr.local_buf }) mrs)
      ≡ Prelude.ok bytes
read_local-splice prof lkey offset bytes mrs mr e h small =
    let (later, wrote, reads, others, apart) =
      read_local-write_local prof lkey offset bytes mrs mr e h small in
    subst (λ l. read_local prof lkey offset (length bytes) l ≡ Prelude.ok bytes)
      (ok-injective (sym wrote ∙ write_local-found prof lkey offset bytes mrs mr e h small)) reads

module _ (env : Wire.Env Served) where
  pub on_conn-ok :
      {A : Type 0} (m : Action RdowsError (Client Served) A) (s : KvStore Served) {a : A}
      {d : Client Served}
      → m s.conn ≡ (ok a, d)
      → on_conn env m s ≡ (ok a, record s { conn = d })
  unfolding on_conn with_error zoom
  on_conn-ok m s e =
      ap
        (λ p. (elim p.0 [
          | ok a ↦ (ok a, record s { conn = p.1 })
          | Prelude.Actions.err x ↦ (Prelude.Actions.err (KvError.rdma x), record s { conn = p.1 })
          | Prelude.Actions.panic ↦ (Prelude.Actions.panic, record s { conn = p.1 })
          | Prelude.Actions.waiting ↦ (Prelude.Actions.waiting, record s { conn = p.1 })
        ]))
        e

  pub take_wrid-ok :
      (s : KvStore Served)
      → s.next_wrid + 1 < 2 ^ 64
      → take_wrid env s ≡ (ok s.next_wrid, record s { next_wrid = s.next_wrid + 1 })
  unfolding take_wrid ◌>>=◌ ◌>>◌ this lift modify pure
  take_wrid-ok s h =
      ap
        (λ r.
          (lift r >>= λ next.
          (modify (λ (s : KvStore Served). record s { next_wrid = next }) >> pure s.next_wrid))
            s)
        (add_uint-ok {E = KvError} env.prof 64 s.next_wrid 1 h)

  pub poll_completions-one :
      (d : Client Served) (entry : CompletionQueueEntry) (k : ℕ)
      → d.conn.cq ≡ queue_of (entry ∷ []) k
      → poll_completions 1 d
        ≡ (ok (entry ∷ []), record d { conn = record d.conn { cq = queue_of [] k } })
  unfolding poll_completions poll_cq
  poll_completions-one d entry k e =
      ap (λ q. (ok (poll_cq 1 q).0, record d { conn = record d.conn { cq = (poll_cq 1 q).1 } })) e

  pub as_slot-ok :
      (bytes : List ℕ) (s : KvStore Served)
      → length bytes ≡ slot_size
      → as_slot env bytes s ≡ (ok bytes, s)
  unfolding as_slot pure
  as_slot-ok bytes s h =
      let same : (length bytes == slot_size) ≡ true = ground (arith, h) in
      if-true (pure bytes) _ s same
