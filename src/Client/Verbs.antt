-- ===== src/Client/Verbs.antt =====
-- The verbs of the client (crates/rdows-client/src/verbs.rs).
use rdows.Prelude.{
  ℕ, ◌%◌, ◌^◌, List, [], none, Result, sub_uint, with_capacity, length, ◌==◌, if◌then◌else◌,
  replicate,
}
use rdows.Prelude.Dict.{insert, remove}
use rdows.Prelude.Actions.{Action, pure, fail, lift, this, ◌>>=◌, ◌>>◌}
use rdows.Core.Error
use rdows.Core.Error.{
  ErrorCode, RdowsError, protocol, unexpected_message, send_credits_exhausted, err_internal,
  err_cq_overflow, err_invalid_lkey, err_bounds,
}
use rdows.Core.Opcode.{Opcode}
use rdows.Core.Frame.{RdowsHeader}
use rdows.Core.Message
use rdows.Core.Message.{RdowsMessage, header}
use rdows.Core.Queue.Entry.{ScatterGatherEntry}
use rdows.Bytes.Texts.{text}
use rdows.Client.CompletionQueue.{is_full, push}
use rdows.Client.LocalMemory.{MemoryRegionHandle, read_local, write_local, gather}
use rdows.Client.Wire.{Env, send_message}
use rdows.Client.Connection.{Client, on_wire, update, next_header, recv_app_message, send_and_recv}

-- `ErrorCode::try_from(status).unwrap_or(ErrInternal)`
unfoldable pub code_of : ℕ → ErrorCode
code_of status = elim (Error.try_from status) [ Result.ok code ↦ code | _ ↦ err_internal ]

module _ {N : Type 0} (env : Env N) where
  abbrev pub Verb : Type 0 → Type 0
  Verb A = Action RdowsError (Client N) A

  -- A completion is pushed; the result of `push` is dropped.
  unfoldable pub complete : ℕ → ℕ → Opcode → ℕ → Verb (Unit {0})
  complete wrid status opcode byte_count = update (λ k. record k {
    cq =
        (push
          (record {
            wrid = wrid;
            status = status;
            opcode = opcode;
            vendor_error = 0;
            byte_count = byte_count;
            qp_number = k.session_id;
          })
          k.cq).1;
  })

  -- An ERROR completes the work request with its code.
  unfoldable pub complete_error : {A : Type 0} → ℕ → Opcode → ErrorCode → Verb A
  complete_error wrid opcode code = do
    complete wrid (Error.to_u16 code) opcode 0
    fail (protocol code)

  unfoldable pub unexpected : {A : Type 0} → List ℕ → RdowsMessage → Verb A
  unexpected expected m = fail (unexpected_message expected (header m).opcode)

  unfoldable pub require_room : Verb (Unit {0})
  require_room = do c ← this; if is_full c.conn.cq then fail (protocol err_cq_overflow) else pure tt

  -- A header, and the message built with it, which is sent.
  unfoldable pub submit : Opcode → ℕ → (RdowsHeader → RdowsMessage) → Verb (Unit {0})
  submit opcode wrid build = do h ← next_header opcode wrid; on_wire (send_message env (build h))

  -- The handle of a region that the server has registered, in the table too.
  unfoldable pub keep_handle : ℕ → ℕ → ℕ → Verb MemoryRegionHandle
  keep_handle lkey rkey region_len = do
    lift (with_capacity region_len 1)
    let handle : MemoryRegionHandle = record {
      lkey = lkey;
      rkey = rkey;
      len = region_len;
      local_buf = replicate region_len 0;
    }
    update (λ k. record k { local_mrs = insert lkey handle k.local_mrs })
    pure handle

  unfoldable pub after_reg : ℕ → RdowsMessage → Verb MemoryRegionHandle
  after_reg region_len (Message.mr_reg_ack h ack) =
      if ack.status == 0
      then keep_handle ack.lkey ack.rkey region_len
      else fail (protocol (code_of ack.status))
  after_reg region_len (Message.error h p) = fail (protocol p.error_code)
  after_reg region_len m = unexpected (text "MR_REG_ACK") m

  unfoldable pub reg_mr : ℕ → ℕ → Verb MemoryRegionHandle
  reg_mr access_flags region_len = do
    h ← next_header Opcode.mr_reg 0
    c ← this
    m ← send_and_recv env (
        Message.mr_reg h (record {
          pd = c.conn.pd;
          access_flags = access_flags;
          region_len = region_len;
          suggested_lkey = none;
        }))
    after_reg region_len m

  unfoldable pub after_dereg : ℕ → RdowsMessage → Verb (Unit {0})
  after_dereg lkey (Message.mr_dereg_ack h ack) =
      if ack.status == 0
      then update (λ k. record k { local_mrs = remove lkey k.local_mrs })
      else fail (protocol (code_of ack.status))
  after_dereg lkey (Message.error h p) = fail (protocol p.error_code)
  after_dereg lkey m = unexpected (text "MR_DEREG_ACK") m

  unfoldable pub dereg_mr : ℕ → Verb (Unit {0})
  dereg_mr lkey = do
    h ← next_header Opcode.mr_dereg 0
    c ← this
    m ← send_and_recv env (Message.mr_dereg h (record { pd = c.conn.pd; lkey = lkey }))
    after_dereg lkey m

  unfoldable pub gather_sg_data : List ScatterGatherEntry → Verb (List ℕ)
  gather_sg_data sg_list = do c ← this; lift (gather env.prof c.conn.local_mrs sg_list [])

  unfoldable pub use_credit : Verb (Unit {0})
  use_credit = do
    c ← this
    credits ← lift (sub_uint env.prof 32 c.conn.send_credits 1)
    update (λ k. record k { send_credits = credits })

  unfoldable pub require_credit : Verb (Unit {0})
  require_credit = do
    c ← this
    if c.conn.send_credits == 0 then fail send_credits_exhausted else pure tt

  unfoldable pub after_send : ℕ → ℕ → RdowsMessage → Verb (Unit {0})
  after_send wrid total_len (Message.recv_comp h) = do
    use_credit
    complete wrid 0 Opcode.send total_len
  after_send wrid total_len (Message.error h p) = complete_error wrid Opcode.send p.error_code
  after_send wrid total_len m = unexpected (text "RECV_COMP") m

  unfoldable pub post_send : ℕ → List ScatterGatherEntry → Verb (Unit {0})
  post_send wrid sg_list = do
    require_room
    require_credit
    content ← gather_sg_data sg_list
    submit Opcode.send wrid (λ h. Message.send h (record { sg_list = sg_list }))
    submit Opcode.send_data wrid (λ h. Message.send_data h (record { content = content }))
    m ← recv_app_message env
    after_send wrid (length content % 2 ^ 32) m

  unfoldable pub after_write : ℕ → ℕ → RdowsMessage → Verb (Unit {0})
  after_write wrid total_len (Message.write_comp h) = complete wrid 0 Opcode.write total_len
  after_write wrid total_len (Message.error h p) = complete_error wrid Opcode.write p.error_code
  after_write wrid total_len m = unexpected (text "WRITE_COMP") m

  unfoldable pub rdma_write : ℕ → ℕ → ℕ → List ScatterGatherEntry → Verb (Unit {0})
  rdma_write wrid rkey remote_va sg_list = do
    require_room
    content ← gather_sg_data sg_list
    submit Opcode.write wrid (λ h.
        Message.write h (record {
          rkey = rkey;
          remote_va = remote_va;
          total = length content;
          sg_list = sg_list;
        }))
    submit Opcode.write_data wrid (λ h. Message.write_data h (record { content = content }))
    m ← recv_app_message env
    after_write wrid (length content % 2 ^ 32) m

  -- The bytes that a READ_RESP brings go into the local region.
  unfoldable pub store_read : ℕ → ℕ → List ℕ → Verb (Unit {0})
  store_read local_lkey local_va content = do
    c ← this
    mrs ← lift (write_local env.prof local_lkey local_va content c.conn.local_mrs)
    update (λ k. record k { local_mrs = mrs })

  unfoldable pub after_read : ℕ → ℕ → ℕ → RdowsMessage → Verb (Unit {0})
  after_read wrid local_lkey local_va (Message.read_resp h p) = do
    store_read local_lkey local_va p.content
    complete wrid 0 Opcode.read_req (length p.content % 2 ^ 32)
  after_read wrid local_lkey local_va (Message.error h p) =
      complete_error wrid Opcode.read_req p.error_code
  after_read wrid local_lkey local_va m = unexpected (text "READ_RESP") m

  unfoldable pub rdma_read : ℕ → ℕ → ℕ → ℕ → ℕ → ℕ → Verb (Unit {0})
  rdma_read wrid rkey remote_va read_len local_lkey local_va = do
    require_room
    submit Opcode.read_req wrid (λ h. Message.read_req h (record {
      rkey = rkey;
      remote_va = remote_va;
      read_len = read_len;
      local_lkey = local_lkey;
      local_va = local_va;
    }))
    m ← recv_app_message env
    after_read wrid local_lkey local_va m

  unfoldable pub after_atomic : ℕ → RdowsMessage → Verb ℕ
  after_atomic wrid (Message.atomic_resp h p) = do
    complete wrid 0 Opcode.atomic_req 8
    pure p.original_value
  after_atomic wrid (Message.error h p) = complete_error wrid Opcode.atomic_req p.error_code
  after_atomic wrid m = unexpected (text "ATOMIC_RESP") m

  unfoldable pub post_atomic : ℕ → ℕ → ℕ → ℕ → ℕ → ℕ → Verb ℕ
  post_atomic wrid rkey remote_va atomic_type operand1 operand2 = do
    require_room
    submit Opcode.atomic_req wrid (λ h. Message.atomic_req h (record {
      rkey = rkey;
      atomic_type = atomic_type;
      remote_va = remote_va;
      operand1 = operand1;
      operand2 = operand2;
    }))
    m ← recv_app_message env
    after_atomic wrid m

  unfoldable pub atomic_cas : ℕ → ℕ → ℕ → ℕ → ℕ → Verb ℕ
  atomic_cas wrid rkey remote_va compare swap = post_atomic wrid rkey remote_va 0x01 compare swap

  unfoldable pub atomic_faa : ℕ → ℕ → ℕ → ℕ → Verb ℕ
  atomic_faa wrid rkey remote_va addend = post_atomic wrid rkey remote_va 0x02 addend 0

  unfoldable pub write_local_mr : ℕ → ℕ → List ℕ → Verb (Unit {0})
  write_local_mr lkey offset bytes = store_read lkey offset bytes

  unfoldable pub read_local_mr : ℕ → ℕ → ℕ → Verb (List ℕ)
  read_local_mr lkey offset len = do
    c ← this
    lift (read_local env.prof lkey offset len c.conn.local_mrs)
