-- ===== src/Server/Session/Replies.antt =====
-- The sequence numbers of what the handlers send.
use rdows.Prelude.{ℕ, refl, List, [], Result, ok, err, panic, Result-cases, inl, inr}
use rdows.Core.Error.{ErrorCode}
use rdows.Core.Frame.{RdowsHeader}
use rdows.Core.Message.MrReg.{MrRegPayload}
use rdows.Core.Message.MrDereg.{MrDeregPayload}
use rdows.Core.Message.DataBytes.{DataPayload}
use rdows.Core.Message.Write.{WritePayload}
use rdows.Core.Message.ReadReq.{ReadReqPayload}
use rdows.Core.Message.AtomicReq.{AtomicReqPayload}
use rdows.Core.Message.{header}
use rdows.Server.Session.Defs.{
  PendingOp, no_op, awaiting_send_data, awaiting_write_data, discarding_send_data, Env, Action,
}
use rdows.Server.Session.Handlers.{
  roll_window, mr_reg_ack, answer_mr_reg, handle_mr_reg, handle_mr_dereg, handle_send, give_credit,
  complete_send, take_pending, after_send_data, handle_send_data, unless_err, handle_write,
  after_write_data, handle_write_data, read_ends, finish_read, answer_read, handle_read_req,
  handle_atomic_req,
}
use rdows.Server.Session.Numbering.{
  IsNumbered, AreNumbered, Keeps, Keeps-pure, Keeps-fail, Keeps-lift, Keeps->>=, Keeps->>, Keeps-if,
  Keeps-on_store, Keeps-this, Keeps-modify, Keeps-reply, Keeps-send_error,
}

pub ruleset numbering = (
  Keeps-pure, Keeps-fail, Keeps-lift, Keeps->>=, Keeps->>, Keeps-if, Keeps-on_store, Keeps-this,
  Keeps-modify, Keeps-reply, Keeps-send_error,
)

module _ (env : Env) where
  pub roll_window-Keeps : Keeps (roll_window env)
  unfolding roll_window
  roll_window-Keeps = search numbering depth 8

  pub mr_reg_ack-Keeps :
      (wrid pd lkey rkey status : ℕ) → Keeps (mr_reg_ack env wrid pd lkey rkey status)
  unfolding mr_reg_ack header
  mr_reg_ack-Keeps wrid pd lkey rkey status = Keeps-reply env _ wrid _ (λ h. refl)

  pub answer_mr_reg-Keeps :
      (wrid pd : ℕ) (r : Result ErrorCode (ℕ × ℕ)) → Keeps (answer_mr_reg env wrid pd r)
  unfolding answer_mr_reg
  answer_mr_reg-Keeps wrid pd (ok (lkey, rkey)) = mr_reg_ack-Keeps wrid pd lkey rkey 0
  answer_mr_reg-Keeps wrid pd (err code) = mr_reg_ack-Keeps wrid pd 0 0 _
  answer_mr_reg-Keeps wrid pd panic = Keeps-lift panic

  pub handle_mr_reg-Keeps : (wrid : ℕ) (p : MrRegPayload) → Keeps (handle_mr_reg env wrid p)
  unfolding handle_mr_reg
  handle_mr_reg-Keeps wrid p =
      search (numbering, roll_window-Keeps, mr_reg_ack-Keeps, answer_mr_reg-Keeps) depth 12

  pub handle_mr_dereg-Keeps : (wrid : ℕ) (p : MrDeregPayload) → Keeps (handle_mr_dereg env wrid p)
  unfolding handle_mr_dereg header
  handle_mr_dereg-Keeps wrid p = search numbering depth 8

  pub handle_send-Keeps : (h : RdowsHeader) → Keeps (handle_send env h)
  unfolding handle_send
  handle_send-Keeps h = search numbering depth 10

  pub give_credit-Keeps : Keeps (give_credit env)
  unfolding give_credit header
  give_credit-Keeps = search numbering depth 10

  pub complete_send-Keeps : (wrid : ℕ) → Keeps (complete_send env wrid)
  unfolding complete_send header
  complete_send-Keeps wrid = search (numbering, give_credit-Keeps) depth 12

  pub after_send_data-Keeps : (op : PendingOp) → Keeps (after_send_data env op)
  unfolding after_send_data
  after_send_data-Keeps no_op = search numbering depth 3
  after_send_data-Keeps (awaiting_send_data wrid) = complete_send-Keeps wrid
  after_send_data-Keeps (awaiting_write_data wrid rkey remote_va expected_len) =
      search numbering depth 3
  after_send_data-Keeps discarding_send_data = search numbering depth 3

  pub take_pending-Keeps : Keeps (take_pending env)
  unfolding take_pending
  take_pending-Keeps = search numbering depth 8

  pub handle_send_data-Keeps : Keeps (handle_send_data env)
  unfolding handle_send_data
  handle_send_data-Keeps = Keeps->>= take_pending-Keeps after_send_data-Keeps

  pub unless_err-Keeps :
      {A : Type 0} (seq : ℕ) (next : A → Action (Unit {0})) (r : Result ErrorCode A)
      → ((a : A) → Keeps (next a))
      → Keeps (unless_err env seq next r)
  unfolding unless_err
  unless_err-Keeps seq next (ok a) h = h a
  unless_err-Keeps seq next (err code) h = Keeps-send_error env code seq []
  unless_err-Keeps seq next panic h = Keeps-lift panic

  pub handle_write-Keeps : (h : RdowsHeader) (p : WritePayload) → Keeps (handle_write env h p)
  unfolding handle_write
  handle_write-Keeps h p = search (numbering, unless_err-Keeps) depth 8

  pub after_write_data-Keeps :
      (content : List ℕ) (op : PendingOp) → Keeps (after_write_data env content op)
  unfolding after_write_data header
  after_write_data-Keeps content no_op = search numbering depth 3
  after_write_data-Keeps content (awaiting_send_data wrid) = search numbering depth 3
  after_write_data-Keeps content (awaiting_write_data wrid rkey remote_va expected_len) =
      search (numbering, unless_err-Keeps) depth 8
  after_write_data-Keeps content discarding_send_data = search numbering depth 3

  pub handle_write_data-Keeps : (p : DataPayload) → Keeps (handle_write_data env p)
  unfolding handle_write_data
  handle_write_data-Keeps p = Keeps->>= take_pending-Keeps (after_write_data-Keeps p.content)

  pub read_ends-Keeps : Keeps (read_ends env)
  unfolding read_ends
  read_ends-Keeps = search numbering depth 8

  pub finish_read-Keeps : {m : Action (Unit {0})} → Keeps m → Keeps (finish_read env m)
  unfolding finish_read
  finish_read-Keeps {m} hm = record {
    run = λ w h. elim (Result-cases (m w).0) [
      | inl (a, e) ↦ rw (e, finish_read) (read_ends-Keeps.run (m w).1 (hm.run w h))
      | inr (inl (code, e)) ↦
          rw (e, finish_read)
            ((Keeps->> read_ends-Keeps (Keeps-lift (err code))).run (m w).1 (hm.run w h))
      | inr (inr e) ↦ rw (e, finish_read) (hm.run w h)
    ];
  }

  pub answer_read-Keeps :
      (h : RdowsHeader) (r : Result ErrorCode (List ℕ)) → Keeps (answer_read env h r)
  unfolding answer_read header
  answer_read-Keeps h (ok content) = finish_read-Keeps (search numbering depth 3)
  answer_read-Keeps h (err code) = search (numbering, read_ends-Keeps) depth 5
  answer_read-Keeps h panic = Keeps-lift panic

  pub handle_read_req-Keeps :
      (h : RdowsHeader) (p : ReadReqPayload) → Keeps (handle_read_req env h p)
  unfolding handle_read_req
  handle_read_req-Keeps h p = search (numbering, answer_read-Keeps) depth 12

  pub handle_atomic_req-Keeps :
      (h : RdowsHeader) (p : AtomicReqPayload) → Keeps (handle_atomic_req env h p)
  unfolding handle_atomic_req header
  handle_atomic_req-Keeps h p = search (numbering, unless_err-Keeps) depth 10
