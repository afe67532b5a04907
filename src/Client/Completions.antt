-- ===== src/Client/Completions.antt =====
-- The completions of work requests (crates/rdows-client/src/verbs.rs, completion.rs).
use rdows.Prelude.{ℕ, refl, List}
use rdows.Core.Opcode
use rdows.Core.Queue.Entry.{ScatterGatherEntry}
use rdows.Client.CompletionQueue.{CompletionQueue}
use rdows.Client.Wire.{Env}
use rdows.Client.Connection.{Client}
use rdows.Client.Verbs.{post_send, rdma_write, rdma_read, post_atomic}
use rdows.Client.QueueKept.{
  submit-KeepsQueue, gather_sg_data-KeepsQueue, require_credit-KeepsQueue,
  recv_app_message-KeepsQueue,
}
use rdows.Client.Ending.{
  Ends, send_request, write_request, read_request, atomic_request, send_finish, write_finish,
  read_finish, atomic_finish,
}
use rdows.Client.Posting.{Posts, Posts->>=, Posts->>, Posts-answer, Posts-require_room}
use rdows.Client.Answers.{
  after_send-Answers, after_write-Answers, after_read-Answers, after_atomic-Answers,
}

module _ {N : Type 0} (env : Env N) {q : CompletionQueue} (wrid : ℕ) where
  post_send-Posts :
      (sg_list : List ScatterGatherEntry)
      → Posts wrid Opcode.send
          (send_finish env)
          q
          (send_request env wrid sg_list)
          (post_send env wrid sg_list)
  unfolding post_send send_request
  post_send-Posts sg_list = Posts-require_room env (λ room.
      Posts->> (require_credit-KeepsQueue env) (
        Posts->>= (gather_sg_data-KeepsQueue env sg_list) (λ content.
          Posts->> (submit-KeepsQueue env _ _ _) (
            Posts->> (submit-KeepsQueue env _ _ _) (
              Posts-answer (recv_app_message-KeepsQueue env)
                (after_send-Answers env wrid room _))))))

  rdma_write-Posts :
      (rkey remote_va : ℕ) (sg_list : List ScatterGatherEntry)
      → Posts wrid Opcode.write
          (write_finish env)
          q
          (write_request env wrid rkey remote_va sg_list)
          (rdma_write env wrid rkey remote_va sg_list)
  unfolding rdma_write write_request
  rdma_write-Posts rkey remote_va sg_list = Posts-require_room env (λ room.
      Posts->>= (gather_sg_data-KeepsQueue env sg_list) (λ content.
        Posts->> (submit-KeepsQueue env _ _ _) (
          Posts->> (submit-KeepsQueue env _ _ _) (
            Posts-answer (recv_app_message-KeepsQueue env) (after_write-Answers env wrid room _)))))

  rdma_read-Posts :
      (rkey remote_va len lkey va : ℕ)
      → Posts wrid Opcode.read_req
          (read_finish env lkey va)
          q
          (read_request env wrid rkey remote_va len lkey va)
          (rdma_read env wrid rkey remote_va len lkey va)
  unfolding rdma_read read_request
  rdma_read-Posts rkey remote_va len lkey va = Posts-require_room env (λ room.
      Posts->> (submit-KeepsQueue env _ _ _)
        (Posts-answer (recv_app_message-KeepsQueue env) (after_read-Answers env wrid room lkey va)))

  post_atomic-Posts :
      (rkey remote_va kind a b : ℕ)
      → Posts wrid Opcode.atomic_req
          (atomic_finish env)
          q
          (atomic_request env wrid rkey remote_va kind a b)
          (post_atomic env wrid rkey remote_va kind a b)
  unfolding post_atomic atomic_request
  post_atomic-Posts rkey remote_va kind a b = Posts-require_room env (λ room.
      Posts->> (submit-KeepsQueue env _ _ _)
        (Posts-answer (recv_app_message-KeepsQueue env) (after_atomic-Answers env wrid room)))

-- Each of the four work requests ends by what the server answers. When no answer comes, the
-- request ends as its part up to the answer does, and the completion queue is what it was. An
-- ERROR ends it with the error's code, and with one completion of that status behind the others.
-- The answer that is due ends it, when what is left to do is done, with one completion of status 0
-- behind the others, and otherwise as that fails, with the queue as it was; any other message,
-- with the error that it was not expected, and the queue as it was. A completion has the WRID and
-- the opcode of its request, and the queue had room for it.
pub post-Ends :
    {N : Type 0} (env : Env N) (wrid : ℕ) (c : Client N)
    → ((sg_list : List ScatterGatherEntry)
        → Ends wrid Opcode.send
            (send_finish env)
            c.conn.cq
            (send_request env wrid sg_list c)
            (post_send env wrid sg_list c))
      × ((rkey remote_va : ℕ) (sg_list : List ScatterGatherEntry)
          → Ends wrid Opcode.write
              (write_finish env)
              c.conn.cq
              (write_request env wrid rkey remote_va sg_list c)
              (rdma_write env wrid rkey remote_va sg_list c))
      × ((rkey remote_va len lkey va : ℕ)
          → Ends wrid Opcode.read_req
              (read_finish env lkey va)
              c.conn.cq
              (read_request env wrid rkey remote_va len lkey va c)
              (rdma_read env wrid rkey remote_va len lkey va c))
      × ((rkey remote_va kind a b : ℕ)
          → Ends wrid Opcode.atomic_req
              (atomic_finish env)
              c.conn.cq
              (atomic_request env wrid rkey remote_va kind a b c)
              (post_atomic env wrid rkey remote_va kind a b c))
post-Ends env wrid c = (
  λ sg_list. (post_send-Posts env wrid sg_list).run c refl,
  λ rkey remote_va sg_list. (rdma_write-Posts env wrid rkey remote_va sg_list).run c refl,
  λ rkey remote_va len lkey va. (rdma_read-Posts env wrid rkey remote_va len lkey va).run c refl,
  λ rkey remote_va kind a b. (post_atomic-Posts env wrid rkey remote_va kind a b).run c refl,
)
