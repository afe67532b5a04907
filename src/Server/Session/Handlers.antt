-- ===== src/Server/Session/Handlers.antt =====
-- The handlers of requests in an established session (crates/rdows-server/src/handler.rs).
use rdows.Prelude.{
  ℕ, ◌-◌, ◌/◌, List, [], not, ◌&&◌, Result, ok, err, panic, add_uint, sub_uint, leb, ◌==◌,
  if◌then◌else◌,
}
use rdows.Core.Error
use rdows.Core.Error.{ErrorCode, RdowsError, err_rnr, err_unknown_opcode, err_internal}
use rdows.Core.Opcode
use rdows.Core.Frame.{RdowsHeader}
use rdows.Core.Memory.{remote_write}
use rdows.Core.Message.MrReg.{MrRegPayload}
use rdows.Core.Message.MrDereg.{MrDeregPayload}
use rdows.Core.Message.DataBytes.{DataPayload}
use rdows.Core.Message.Write.{WritePayload}
use rdows.Core.Message.ReadReq.{ReadReqPayload}
use rdows.Core.Message.AtomicReq.{AtomicReqPayload}
use rdows.Core.Message
use rdows.Core.Message.{RdowsMessage, header}
use rdows.Server.Store.{
  MemoryStore, register, deregister, validate_rkey, write_region, read_region, atomic_op,
}
use rdows.Bytes.Texts.{text}
use rdows.Server.Session.Defs.{
  PendingOp, no_op, awaiting_send_data, awaiting_write_data, discarding_send_data, World, Env,
  Action, pure, ◌>>=◌, ◌>>◌, lift, this, modify, reply, send_error,
}

-- A method of the store that changes it: the error code is a value for the handler to look at.
unfoldable pub on_store :
    {A : Type 0} → (MemoryStore → Result ErrorCode A × MemoryStore) → Action (Result ErrorCode A)
on_store method w =
    let (r, store) = method w.session.memory_store in
    let after : World = record w { session = record w.session { memory_store = store } } in
    elim r [
      | ok a ↦ (ok (ok a), after)
      | err code ↦ (ok (err code), after)
      | panic ↦ (panic, after)
    ]

module _ (env : Env) where
  -- The window of the rate limit starts anew after a second.
  unfoldable pub roll_window : Action (Unit {0})
  roll_window = do
    s ← this
    if leb 1000000000 (env.now - s.mr_reg_window_start)
        then modify (λ s. record s { mr_reg_count = 0; mr_reg_window_start = env.now })
        else pure tt

  unfoldable pub mr_reg_ack : ℕ → ℕ → ℕ → ℕ → ℕ → Action (Unit {0})
  mr_reg_ack wrid pd lkey rkey status =
      reply env Opcode.mr_reg_ack wrid
        (λ h. Message.mr_reg_ack h (record { pd = pd; lkey = lkey; rkey = rkey; status = status }))

  -- The acknowledgement of a registration, by how it ended.
  unfoldable pub answer_mr_reg : ℕ → ℕ → Result ErrorCode (ℕ × ℕ) → Action (Unit {0})
  answer_mr_reg wrid pd (ok (lkey, rkey)) = mr_reg_ack wrid pd lkey rkey 0
  answer_mr_reg wrid pd (err code) = mr_reg_ack wrid pd 0 0 (Error.to_u16 code)
  answer_mr_reg wrid pd panic = lift panic

  unfoldable pub handle_mr_reg : ℕ → MrRegPayload → Action (Unit {0})
  handle_mr_reg wrid p = do
    roll_window
    s ← this
    if leb s.mr_reg_rate_limit s.mr_reg_count
        then mr_reg_ack wrid p.pd 0 0 (Error.to_u16 err_internal)
        else (do
          count ← lift (add_uint env.prof 32 s.mr_reg_count 1)
          modify (λ s. record s { mr_reg_count = count })
          r ← on_store (register env.prof env.rng p.pd p.access_flags p.region_len)
          answer_mr_reg wrid p.pd r)

  unfoldable pub status_of : Result ErrorCode (Unit {0}) → ℕ
  status_of (err code) = Error.to_u16 code
  status_of _ = 0

  unfoldable pub handle_mr_dereg : ℕ → MrDeregPayload → Action (Unit {0})
  handle_mr_dereg wrid p = do
    r ← on_store (deregister env.prof p.pd p.lkey)
    reply env Opcode.mr_dereg_ack wrid
        (λ h. Message.mr_dereg_ack h (record { status = status_of r }))

  unfoldable pub handle_send : RdowsHeader → Action (Unit {0})
  handle_send h = do
    s ← this
    if s.recv_queue_depth == 0
        then (do
          send_error env err_rnr h.sequence (text "receiver not ready")
          modify (λ s. record s { pending_op = discarding_send_data }))
        else (do
          depth ← lift (sub_uint env.prof 32 s.recv_queue_depth 1)
          modify
              (λ s. record s { recv_queue_depth = depth; pending_op = awaiting_send_data h.wrid }))

  -- Credits are given back after a quarter of the initial ones is used.
  unfoldable pub give_credit : Action (Unit {0})
  give_credit = do
    s ← this
    if leb (s.icc / 4) s.sends_since_last_credit
        then (do
          reply env Opcode.credit_update 0 (λ h.
              Message.credit_update h (record { credit_increment = s.sends_since_last_credit }))
          modify (λ s. record s { sends_since_last_credit = 0 }))
        else pure tt

  -- `RECV_COMP` for the data of a SEND, and credits.
  unfoldable pub complete_send : ℕ → Action (Unit {0})
  complete_send wrid = do
    reply env Opcode.recv_comp wrid Message.recv_comp
    s ← this
    count ← lift (add_uint env.prof 32 s.sends_since_last_credit 1)
    modify (λ s. record s { sends_since_last_credit = count })
    give_credit

  -- `std::mem::replace(&mut session.pending_op, PendingOp::None)`
  unfoldable pub take_pending : Action PendingOp
  take_pending = do s ← this; modify (λ s. record s { pending_op = no_op }); pure s.pending_op

  -- The message of SEND_DATA is not kept.
  unfoldable pub after_send_data : PendingOp → Action (Unit {0})
  after_send_data (awaiting_send_data wrid) = complete_send wrid
  after_send_data discarding_send_data = pure tt
  after_send_data _ =
      send_error env err_unknown_opcode 0 (text "unexpected SEND_DATA without preceding SEND")

  unfoldable pub handle_send_data : Action (Unit {0})
  handle_send_data = take_pending >>= after_send_data

  -- `if let Err(code) = … { return send_error(…) }`, and what follows otherwise.
  unfoldable pub unless_err :
      {A : Type 0} → ℕ → (A → Action (Unit {0})) → Result ErrorCode A → Action (Unit {0})
  unless_err failing_seq next (ok a) = next a
  unless_err failing_seq next (err code) = send_error env code failing_seq []
  unless_err failing_seq next panic = lift panic

  unfoldable pub handle_write : RdowsHeader → WritePayload → Action (Unit {0})
  handle_write h p = do
    s ← this
    unless_err h.sequence
        (λ _.
          modify
            (λ s. record s { pending_op = awaiting_write_data h.wrid p.rkey p.remote_va p.total }))
        (validate_rkey p.rkey remote_write s.memory_store)

  unfoldable pub after_write_data : List ℕ → PendingOp → Action (Unit {0})
  after_write_data content (awaiting_write_data wrid rkey remote_va expected_len) = do
    r ← on_store (write_region rkey remote_va content)
    unless_err 0 (λ _. reply env Opcode.write_comp wrid Message.write_comp) r
  after_write_data content _ =
      send_error env err_unknown_opcode 0 (text "unexpected WRITE_DATA without preceding WRITE")

  unfoldable pub handle_write_data : DataPayload → Action (Unit {0})
  handle_write_data p = take_pending >>= after_write_data p.content

  -- `session.outstanding_reads -= 1`
  unfoldable pub read_ends : Action (Unit {0})
  read_ends = do
    s ← this
    n ← lift (sub_uint env.prof 32 s.outstanding_reads 1)
    modify (λ s. record s { outstanding_reads = n })

  -- An error of the action is returned after the count of reads has been put back.
  unfoldable pub finish_read : Action (Unit {0}) → Action (Unit {0})
  finish_read m w =
      let (r, v) = m w in
      elim r [ ok _ ↦ read_ends v | err e ↦ (read_ends >> lift (err e)) v | panic ↦ (panic, v) ]

  unfoldable pub answer_read : RdowsHeader → Result ErrorCode (List ℕ) → Action (Unit {0})
  answer_read h (ok content) = finish_read (
      reply env Opcode.read_resp h.wrid
        (λ r. Message.read_resp r (record { fragment_offset = 0; content = content })))
  answer_read h (err code) = read_ends >> send_error env code h.sequence []
  answer_read h panic = lift panic

  unfoldable pub handle_read_req : RdowsHeader → ReadReqPayload → Action (Unit {0})
  handle_read_req h p = do
    s ← this
    if leb s.max_outstanding_reads s.outstanding_reads
        then send_error env err_rnr h.sequence (text "too many outstanding reads")
        else (do
          n ← lift (add_uint env.prof 32 s.outstanding_reads 1)
          modify (λ s. record s { outstanding_reads = n })
          answer_read h (read_region p.rkey p.remote_va p.read_len s.memory_store))

  unfoldable pub handle_atomic_req : RdowsHeader → AtomicReqPayload → Action (Unit {0})
  handle_atomic_req h p =
      if not (p.atomic_type == 0x01) && not (p.atomic_type == 0x02)
      then send_error env err_unknown_opcode h.sequence (text "invalid atomic type")
      else (do
        r ← on_store (atomic_op p.rkey p.remote_va p.atomic_type p.operand1 p.operand2)
        unless_err h.sequence
            (λ original.
              reply env Opcode.atomic_resp h.wrid
                (λ a. Message.atomic_resp a (record { original_value = original; status = 0 })))
            r)

  unfoldable pub dispatch : RdowsMessage → Action (Unit {0})
  dispatch (Message.mr_reg h p) = handle_mr_reg h.wrid p
  dispatch (Message.mr_dereg h p) = handle_mr_dereg h.wrid p
  dispatch (Message.send h p) = handle_send h
  dispatch (Message.send_data h p) = handle_send_data
  dispatch (Message.write h p) = handle_write h p
  dispatch (Message.write_data h p) = handle_write_data p
  dispatch (Message.read_req h p) = handle_read_req h p
  dispatch (Message.atomic_req h p) = handle_atomic_req h p
  dispatch (Message.ack h) = pure tt
  dispatch m = send_error env err_unknown_opcode (header m).sequence (text "unsupported opcode")
