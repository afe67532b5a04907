-- ===== src/Client/Answers.antt =====
-- How a work request ends by the answer of the server (crates/rdows-client/src/verbs.rs).
use rdows.Prelude.{ℕ, ◌≡◌, refl, false}
use rdows.Core.Opcode.{Opcode}
use rdows.Core.Message
use rdows.Core.Message.{RdowsMessage}
use rdows.Client.CompletionQueue.{CompletionQueue, is_full}
use rdows.Client.Wire.{Env}
use rdows.Client.Verbs.{unexpected, after_send, after_write, after_read, after_atomic}
use rdows.Client.QueueKept.{use_credit-KeepsQueue, store_read-KeepsQueue}
use rdows.Client.Ending.{error_of, send_finish, write_finish, read_finish, atomic_finish}
use rdows.Client.Posting.{
  Answers, Answers-unexpected, complete_error-Answers, complete-Answers, complete-Answers_after,
  complete-Answers_value,
}

module _ {N : Type 0} (env : Env N) {q : CompletionQueue} (wrid : ℕ)
    (room : is_full q ≡ false) where
  pub after_send-Answers :
      (len : ℕ) (m : RdowsMessage)
      → Answers wrid Opcode.send (send_finish env) q m (after_send env wrid len m)
  unfolding after_send unexpected error_of send_finish
  after_send-Answers len (Message.recv_comp h) =
      complete-Answers_after env room (Message.recv_comp h) len (use_credit-KeepsQueue env) refl
  after_send-Answers len (Message.error h p) =
      complete_error-Answers env room (Message.error h p) p.error_code refl
  after_send-Answers len (Message.connect h p) =
      Answers-unexpected (Message.connect h p) _ refl refl
  after_send-Answers len (Message.connect_ack h p) =
      Answers-unexpected (Message.connect_ack h p) _ refl refl
  after_send-Answers len (Message.disconnect h) =
      Answers-unexpected (Message.disconnect h) _ refl refl
  after_send-Answers len (Message.mr_reg h p) = Answers-unexpected (Message.mr_reg h p) _ refl refl
  after_send-Answers len (Message.mr_reg_ack h p) =
      Answers-unexpected (Message.mr_reg_ack h p) _ refl refl
  after_send-Answers len (Message.mr_dereg h p) =
      Answers-unexpected (Message.mr_dereg h p) _ refl refl
  after_send-Answers len (Message.mr_dereg_ack h p) =
      Answers-unexpected (Message.mr_dereg_ack h p) _ refl refl
  after_send-Answers len (Message.send h p) = Answers-unexpected (Message.send h p) _ refl refl
  after_send-Answers len (Message.send_data h p) =
      Answers-unexpected (Message.send_data h p) _ refl refl
  after_send-Answers len (Message.write h p) = Answers-unexpected (Message.write h p) _ refl refl
  after_send-Answers len (Message.write_data h p) =
      Answers-unexpected (Message.write_data h p) _ refl refl
  after_send-Answers len (Message.write_comp h) =
      Answers-unexpected (Message.write_comp h) _ refl refl
  after_send-Answers len (Message.read_req h p) =
      Answers-unexpected (Message.read_req h p) _ refl refl
  after_send-Answers len (Message.read_resp h p) =
      Answers-unexpected (Message.read_resp h p) _ refl refl
  after_send-Answers len (Message.atomic_req h p) =
      Answers-unexpected (Message.atomic_req h p) _ refl refl
  after_send-Answers len (Message.atomic_resp h p) =
      Answers-unexpected (Message.atomic_resp h p) _ refl refl
  after_send-Answers len (Message.ack h) = Answers-unexpected (Message.ack h) _ refl refl
  after_send-Answers len (Message.credit_update h p) =
      Answers-unexpected (Message.credit_update h p) _ refl refl

  pub after_write-Answers :
      (len : ℕ) (m : RdowsMessage)
      → Answers wrid Opcode.write (write_finish env) q m (after_write env wrid len m)
  unfolding after_write unexpected error_of write_finish
  after_write-Answers len (Message.write_comp h) =
      complete-Answers env room (Message.write_comp h) len refl
  after_write-Answers len (Message.error h p) =
      complete_error-Answers env room (Message.error h p) p.error_code refl
  after_write-Answers len (Message.recv_comp h) =
      Answers-unexpected (Message.recv_comp h) _ refl refl
  after_write-Answers len (Message.connect h p) =
      Answers-unexpected (Message.connect h p) _ refl refl
  after_write-Answers len (Message.connect_ack h p) =
      Answers-unexpected (Message.connect_ack h p) _ refl refl
  after_write-Answers len (Message.disconnect h) =
      Answers-unexpected (Message.disconnect h) _ refl refl
  after_write-Answers len (Message.mr_reg h p) = Answers-unexpected (Message.mr_reg h p) _ refl refl
  after_write-Answers len (Message.mr_reg_ack h p) =
      Answers-unexpected (Message.mr_reg_ack h p) _ refl refl
  after_write-Answers len (Message.mr_dereg h p) =
      Answers-unexpected (Message.mr_dereg h p) _ refl refl
  after_write-Answers len (Message.mr_dereg_ack h p) =
      Answers-unexpected (Message.mr_dereg_ack h p) _ refl refl
  after_write-Answers len (Message.send h p) = Answers-unexpected (Message.send h p) _ refl refl
  after_write-Answers len (Message.send_data h p) =
      Answers-unexpected (Message.send_data h p) _ refl refl
  after_write-Answers len (Message.write h p) = Answers-unexpected (Message.write h p) _ refl refl
  after_write-Answers len (Message.write_data h p) =
      Answers-unexpected (Message.write_data h p) _ refl refl
  after_write-Answers len (Message.read_req h p) =
      Answers-unexpected (Message.read_req h p) _ refl refl
  after_write-Answers len (Message.read_resp h p) =
      Answers-unexpected (Message.read_resp h p) _ refl refl
  after_write-Answers len (Message.atomic_req h p) =
      Answers-unexpected (Message.atomic_req h p) _ refl refl
  after_write-Answers len (Message.atomic_resp h p) =
      Answers-unexpected (Message.atomic_resp h p) _ refl refl
  after_write-Answers len (Message.ack h) = Answers-unexpected (Message.ack h) _ refl refl
  after_write-Answers len (Message.credit_update h p) =
      Answers-unexpected (Message.credit_update h p) _ refl refl

  pub after_read-Answers :
      (lkey va : ℕ) (m : RdowsMessage)
      → Answers wrid Opcode.read_req (read_finish env lkey va) q m (after_read env wrid lkey va m)
  unfolding after_read unexpected error_of read_finish
  after_read-Answers lkey va (Message.read_resp h p) =
      complete-Answers_after env room (Message.read_resp h p) _
        (store_read-KeepsQueue env lkey va p.content) refl
  after_read-Answers lkey va (Message.error h p) =
      complete_error-Answers env room (Message.error h p) p.error_code refl
  after_read-Answers lkey va (Message.recv_comp h) =
      Answers-unexpected (Message.recv_comp h) _ refl refl
  after_read-Answers lkey va (Message.connect h p) =
      Answers-unexpected (Message.connect h p) _ refl refl
  after_read-Answers lkey va (Message.connect_ack h p) =
      Answers-unexpected (Message.connect_ack h p) _ refl refl
  after_read-Answers lkey va (Message.disconnect h) =
      Answers-unexpected (Message.disconnect h) _ refl refl
  after_read-Answers lkey va (Message.mr_reg h p) =
      Answers-unexpected (Message.mr_reg h p) _ refl refl
  after_read-Answers lkey va (Message.mr_reg_ack h p) =
      Answers-unexpected (Message.mr_reg_ack h p) _ refl refl
  after_read-Answers lkey va (Message.mr_dereg h p) =
      Answers-unexpected (Message.mr_dereg h p) _ refl refl
  after_read-Answers lkey va (Message.mr_dereg_ack h p) =
      Answers-unexpected (Message.mr_dereg_ack h p) _ refl refl
  after_read-Answers lkey va (Message.send h p) = Answers-unexpected (Message.send h p) _ refl refl
  after_read-Answers lkey va (Message.send_data h p) =
      Answers-unexpected (Message.send_data h p) _ refl refl
  after_read-Answers lkey va (Message.write h p) =
      Answers-unexpected (Message.write h p) _ refl refl
  after_read-Answers lkey va (Message.write_data h p) =
      Answers-unexpected (Message.write_data h p) _ refl refl
  after_read-Answers lkey va (Message.write_comp h) =
      Answers-unexpected (Message.write_comp h) _ refl refl
  after_read-Answers lkey va (Message.read_req h p) =
      Answers-unexpected (Message.read_req h p) _ refl refl
  after_read-Answers lkey va (Message.atomic_req h p) =
      Answers-unexpected (Message.atomic_req h p) _ refl refl
  after_read-Answers lkey va (Message.atomic_resp h p) =
      Answers-unexpected (Message.atomic_resp h p) _ refl refl
  after_read-Answers lkey va (Message.ack h) = Answers-unexpected (Message.ack h) _ refl refl
  after_read-Answers lkey va (Message.credit_update h p) =
      Answers-unexpected (Message.credit_update h p) _ refl refl

  pub after_atomic-Answers :
      (m : RdowsMessage)
      → Answers wrid Opcode.atomic_req (atomic_finish env) q m (after_atomic env wrid m)
  unfolding after_atomic unexpected error_of atomic_finish
  after_atomic-Answers (Message.atomic_resp h p) =
      complete-Answers_value env room (Message.atomic_resp h p) 8 p.original_value refl
  after_atomic-Answers (Message.error h p) =
      complete_error-Answers env room (Message.error h p) p.error_code refl
  after_atomic-Answers (Message.recv_comp h) = Answers-unexpected (Message.recv_comp h) _ refl refl
  after_atomic-Answers (Message.connect h p) = Answers-unexpected (Message.connect h p) _ refl refl
  after_atomic-Answers (Message.connect_ack h p) =
      Answers-unexpected (Message.connect_ack h p) _ refl refl
  after_atomic-Answers (Message.disconnect h) =
      Answers-unexpected (Message.disconnect h) _ refl refl
  after_atomic-Answers (Message.mr_reg h p) = Answers-unexpected (Message.mr_reg h p) _ refl refl
  after_atomic-Answers (Message.mr_reg_ack h p) =
      Answers-unexpected (Message.mr_reg_ack h p) _ refl refl
  after_atomic-Answers (Message.mr_dereg h p) =
      Answers-unexpected (Message.mr_dereg h p) _ refl refl
  after_atomic-Answers (Message.mr_dereg_ack h p) =
      Answers-unexpected (Message.mr_dereg_ack h p) _ refl refl
  after_atomic-Answers (Message.send h p) = Answers-unexpected (Message.send h p) _ refl refl
  after_atomic-Answers (Message.send_data h p) =
      Answers-unexpected (Message.send_data h p) _ refl refl
  after_atomic-Answers (Message.write h p) = Answers-unexpected (Message.write h p) _ refl refl
  after_atomic-Answers (Message.write_data h p) =
      Answers-unexpected (Message.write_data h p) _ refl refl
  after_atomic-Answers (Message.write_comp h) =
      Answers-unexpected (Message.write_comp h) _ refl refl
  after_atomic-Answers (Message.read_req h p) =
      Answers-unexpected (Message.read_req h p) _ refl refl
  after_atomic-Answers (Message.read_resp h p) =
      Answers-unexpected (Message.read_resp h p) _ refl refl
  after_atomic-Answers (Message.atomic_req h p) =
      Answers-unexpected (Message.atomic_req h p) _ refl refl
  after_atomic-Answers (Message.ack h) = Answers-unexpected (Message.ack h) _ refl refl
  after_atomic-Answers (Message.credit_update h p) =
      Answers-unexpected (Message.credit_update h p) _ refl refl
