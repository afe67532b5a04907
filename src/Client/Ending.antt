-- ===== src/Client/Ending.antt =====
-- How work requests end, by what the server answers (crates/rdows-client/src/verbs.rs).
use rdows.Prelude.{ℕ, ◌≡◌, List, [], ◌∷◌, ◌++◌, false, Option, none, some, length}
use rdows.Prelude.Actions.{Outcome, ok, err, Halts, Action, pure, ◌>>=◌, ◌>>◌}
use rdows.Core.Error
use rdows.Core.Error.{ErrorCode, RdowsError, protocol, unexpected_message}
use rdows.Core.Opcode.{Opcode}
use rdows.Core.Message
use rdows.Core.Message.{RdowsMessage, header}
use rdows.Core.Queue.Completion.{CompletionQueueEntry}
use rdows.Core.Queue.Entry.{ScatterGatherEntry}
use rdows.Client.CompletionQueue.{CompletionQueue, is_full}
use rdows.Client.Wire.{Env}
use rdows.Client.Connection.{Client, recv_app_message}
use rdows.Client.Verbs.{
  Verb, require_room, require_credit, gather_sg_data, submit, use_credit, store_read,
}

-- One entry more, behind the others, in a queue that was not full.
pub record Queued (wrid status : ℕ) (opcode : Opcode) (q p : CompletionQueue) : Type 0 where
  pub had_room : is_full q ≡ false
  pub entry : CompletionQueueEntry
  pub appended : p ≡ record q { entries = q.entries ++ (entry ∷ []) }
  pub same_wrid : entry.wrid ≡ wrid
  pub same_status : entry.status ≡ status
  pub same_opcode : entry.opcode ≡ opcode

-- The code in an ERROR.
unfoldable pub error_of : RdowsMessage → Option ErrorCode
error_of (Message.error h p) = some p.error_code
error_of m = none

-- How a work request ends, by how its part up to the answer ends; `finish` is what is left to do before
-- the completion when the answer is the one that is due.
pub data Ends {N A : Type 0} (wrid : ℕ) (opcode : Opcode)
    (finish : RdowsMessage → Option (Action RdowsError (Client N) A)) (q : CompletionQueue)
    : Outcome RdowsError RdowsMessage × Client N → Outcome RdowsError A × Client N → Type 0 where
  -- No answer came: the request ends as its first part did.
  unanswered :
      (o : Outcome RdowsError RdowsMessage) (out : Outcome RdowsError A) (d : Client N)
      → Halts o out
      → d.conn.cq ≡ q
      → Ends wrid opcode finish q (o, d) (out, d)
  refused :
      (m : RdowsMessage) (code : ErrorCode) (d e : Client N)
      → error_of m ≡ some code
      → Queued wrid (Error.to_u16 code) opcode q e.conn.cq
      → Ends wrid opcode finish q (ok m, d) (err (protocol code), e)
  unexpected_answer :
      (m : RdowsMessage) (expected : List ℕ) (d : Client N)
      → error_of m ≡ none
      → finish m ≡ none
      → d.conn.cq ≡ q
      → Ends wrid opcode finish q (ok m, d) (err (unexpected_message expected (header m).opcode), d)
  -- The answer is the one that is due, and what is left to do fails.
  unfinished :
      (m : RdowsMessage) (rest : Action RdowsError (Client N) A) (o out : Outcome RdowsError A)
      (d e : Client N)
      → finish m ≡ some rest
      → rest d ≡ (o, e)
      → Halts o out
      → e.conn.cq ≡ q
      → Ends wrid opcode finish q (ok m, d) (out, e)
  completed :
      (m : RdowsMessage) (rest : Action RdowsError (Client N) A) (a : A) (d e f : Client N)
      → finish m ≡ some rest
      → rest d ≡ (ok a, e)
      → Queued wrid 0 opcode q f.conn.cq
      → Ends wrid opcode finish q (ok m, d) (ok a, f)

module _ {N : Type 0} (env : Env N) where
  -- `post_send`, `rdma_write`, `rdma_read` and `post_atomic` up to the answer of the server.
  unfoldable pub send_request : ℕ → List ScatterGatherEntry → Verb env RdowsMessage
  send_request wrid sg_list = do
    require_room env
    require_credit env
    content ← gather_sg_data env sg_list
    submit env Opcode.send wrid (λ h. Message.send h (record { sg_list = sg_list }))
    submit env Opcode.send_data wrid (λ h. Message.send_data h (record { content = content }))
    recv_app_message env

  unfoldable pub write_request : ℕ → ℕ → ℕ → List ScatterGatherEntry → Verb env RdowsMessage
  write_request wrid rkey remote_va sg_list = do
    require_room env
    content ← gather_sg_data env sg_list
    submit env Opcode.write wrid (λ h.
        Message.write h (record {
          rkey = rkey;
          remote_va = remote_va;
          total = length content;
          sg_list = sg_list;
        }))
    submit env Opcode.write_data wrid (λ h. Message.write_data h (record { content = content }))
    recv_app_message env

  unfoldable pub read_request : ℕ → ℕ → ℕ → ℕ → ℕ → ℕ → Verb env RdowsMessage
  read_request wrid rkey remote_va read_len local_lkey local_va = do
    require_room env
    submit env Opcode.read_req wrid (λ h. Message.read_req h (record {
      rkey = rkey;
      remote_va = remote_va;
      read_len = read_len;
      local_lkey = local_lkey;
      local_va = local_va;
    }))
    recv_app_message env

  unfoldable pub atomic_request : ℕ → ℕ → ℕ → ℕ → ℕ → ℕ → Verb env RdowsMessage
  atomic_request wrid rkey remote_va atomic_type operand1 operand2 = do
    require_room env
    submit env Opcode.atomic_req wrid (λ h. Message.atomic_req h (record {
      rkey = rkey;
      atomic_type = atomic_type;
      remote_va = remote_va;
      operand1 = operand1;
      operand2 = operand2;
    }))
    recv_app_message env

  -- What is left to do before the completion, when the answer is the one that is due: a credit is
  -- taken, the bytes that were read are stored, or nothing; with the value of the request.
  unfoldable pub send_finish : RdowsMessage → Option (Verb env (Unit {0}))
  send_finish (Message.recv_comp h) = some (use_credit env)
  send_finish m = none

  unfoldable pub write_finish : RdowsMessage → Option (Verb env (Unit {0}))
  write_finish (Message.write_comp h) = some (pure tt)
  write_finish m = none

  unfoldable pub read_finish : ℕ → ℕ → RdowsMessage → Option (Verb env (Unit {0}))
  read_finish local_lkey local_va (Message.read_resp h p) =
      some (store_read env local_lkey local_va p.content)
  read_finish local_lkey local_va m = none

  unfoldable pub atomic_finish : RdowsMessage → Option (Verb env ℕ)
  atomic_finish (Message.atomic_resp h p) = some (pure p.original_value)
  atomic_finish m = none
