-- ===== src/Server/Session/Exchanges.antt =====
-- Requests and their answers: a WRITE or a SEND with its data, and a message out of order.
use rdows.Prelude.{
  ◌==◌, ℕ, ◌≤◌, ◌≡◌, ◌≢◌, refl, ap, ◌∙◌, List, true, false, ◌&&◌, some, ok, length, arith, ltb,
}
use rdows.Core.Error.{err_seq_gap, err_rnr}
use rdows.Core.Opcode
use rdows.Core.Frame.{RdowsHeader}
use rdows.Core.Memory.{remote_write}
use rdows.Core.Message.Write.{WritePayload}
use rdows.Core.Message
use rdows.Core.Message.{RdowsMessage, header, encode}
use rdows.Server.Texts.{gap_text}
use rdows.Bytes.Texts.{text}
use rdows.Server.Store.{MemoryRegionEntry, validate_rkey, write_region}
use rdows.Server.Store.Invariant.{IsValid}
use rdows.Server.Store.Access
use rdows.Server.Store.Access.{
  Target, Target-not_refused, refuses, grants, find_granted-Looked, Written, write_region-Written,
}
use rdows.Server.Session.Defs.{
  no_op, discarding_send_data, awaiting_write_data, ready, World, Env, Action, pure, ◌>>=◌, ◌>>◌,
  this, modify, reply, send_error,
}
use rdows.Server.Session.Handlers.{
  on_store, handle_send, after_send_data, handle_send_data, take_pending, unless_err, handle_write,
  after_write_data, handle_write_data,
}
use rdows.Server.Session.Messages.{
  is_ready, is_gap, refuse_gap, handle_in_order, by_state, handle_message,
}
use rdows.Server.Session.Steps.{
  replied, bind-ok, on_store-ok, if-true, if-false, IsUp, reply-replied,
}

module _ (env : Env) (up : IsUp env) where
  module _ (h : RdowsHeader) (p : WritePayload) (content : List ℕ) (w : World) where
    write_ok :
        IsValid w.session.memory_store
        → Target p.rkey remote_write p.remote_va (length content) w.session.memory_store
        → (write_region p.rkey p.remote_va content w.session.memory_store).0 ≡ ok tt
    write_ok v t = elim (write_region-Written p.rkey p.remote_va content w.session.memory_store v) [
      | Access.Written.refused e why out ↦ absurd (Target-not_refused _ _ _ _ _ t why)
      | Access.Written.done t' out shows valid kept ↦ out
    ]

    granted :
        Target p.rkey remote_write p.remote_va (length content) w.session.memory_store
        → (e : MemoryRegionEntry) × (validate_rkey p.rkey remote_write w.session.memory_store
            ≡ ok e)
    unfolding validate_rkey
    granted t =
        elim (find_granted-Looked p.rkey remote_write p.remote_va (length content)
          w.session.memory_store) [
            | refuses e why out ↦ absurd (Target-not_refused _ _ _ _ _ t why)
            | grants lkey entry leads found sees held out ↦ (entry, rw (out, validate_rkey))
          ]

    -- The world between a WRITE and its data.
    abbrev pub awaiting : World
    awaiting = record w {
      session = record w.session {
        pending_op = awaiting_write_data h.wrid p.rkey p.remote_va p.total;
      };
    }

    pub handle_write-awaiting :
        Target p.rkey remote_write p.remote_va (length content) w.session.memory_store
        → handle_write env h p w ≡ (ok tt, awaiting)
    unfolding handle_write this ◌>>=◌ unless_err modify
    handle_write-awaiting t = rw (handle_write, this, ◌>>=◌, (granted t).1, unless_err, modify)

    -- The world when the data has been written, before the answer.
    abbrev pub written : World
    written = record w {
      session = record w.session {
        memory_store = (write_region p.rkey p.remote_va content w.session.memory_store).1;
        pending_op = no_op;
      };
    }

    -- On a valid store, and over a connection that takes what is sent, a WRITE of a range of a region
    -- with the right to write, followed by a WRITE_DATA of as many bytes, performs `write_region` with
    -- that data at the address of the WRITE, leaves nothing pending, and answers by one WRITE_COMP
    -- with the WRID of the WRITE.
    pub handle_write_data-handle_write :
        IsValid w.session.memory_store
        → Target p.rkey remote_write p.remote_va (length content) w.session.memory_store
        → handle_write_data env (record { content = content }) (handle_write env h p w).1
          ≡ (ok tt, replied Opcode.write_comp h.wrid Message.write_comp written)
    unfolding handle_write_data take_pending after_write_data on_store this ◌>>=◌ ◌>>◌ pure
        unless_err modify
    handle_write_data-handle_write v t =
        ap (λ o. handle_write_data env (record { content = content }) o.1) (handle_write-awaiting t)
        ∙ bind-ok (take_pending env) (after_write_data env content)
            {a = awaiting_write_data h.wrid p.rkey p.remote_va p.total} {v = idle} refl
        ∙ bind-ok (on_store (write_region p.rkey p.remote_va content))
            (unless_err env 0 (λ _. reply env Opcode.write_comp h.wrid Message.write_comp))
            (on_store-ok (write_region p.rkey p.remote_va content) idle (write_ok v t))
        ∙ reply-replied env up Opcode.write_comp h.wrid Message.write_comp written
      where
        idle : World
        idle = record w { session = record w.session { pending_op = no_op } }

  module _ (m : RdowsMessage) (w : World) (expected : ℕ) where
    -- In an established session, over a connection that takes what is sent, a message of an allowed
    -- size whose sequence number is not the one that is due is answered by one ERROR with the code
    -- for a gap and that number, and changes nothing else but the session's own next number.
    pub handle_message-refuse_gap :
        w.session.state ≡ ready
        → w.session.expected_remote_seq ≡ some expected
        → (header m).sequence ≢ expected
        → (header m).payload_length ≤ w.session.max_msg_size
        → handle_message env m w ≡ (
          ok tt,
          replied Opcode.error 0
              (λ h. Message.error h (record {
                error_code = err_seq_gap;
                failing_seq = (header m).sequence;
                description = gap_text expected (header m).sequence;
              }))
              w,
        )
    unfolding handle_message handle_in_order by_state is_ready is_gap refuse_gap send_error this
        ◌>>=◌
    handle_message-refuse_gap at due gap fits =
        let seq : ℕ = (header m).sequence in
        let small : is_ready env w.session.state
              && ltb w.session.max_msg_size (header m).payload_length
            ≡ false =
          ap (λ s. is_ready env s && ltb w.session.max_msg_size (header m).payload_length) at
          ∙ ground arith in
        let differs : is_gap env w.session.expected_remote_seq seq ≡ true =
          ap (λ d. is_gap env d seq) due ∙ ground arith in
        if-false _ (by_state env m w.session.state) w small
        ∙ ap (λ s. by_state env m s w) at
        ∙ if-true (refuse_gap env w.session.expected_remote_seq seq) _ w differs
        ∙ ap (λ d. refuse_gap env d seq w) due
        ∙ (reply-replied env up Opcode.error 0
            (λ h. Message.error h (record {
              error_code = err_seq_gap;
              failing_seq = (header m).sequence;
              description = gap_text expected (header m).sequence;
            }))
            w)

  module _ (h : RdowsHeader) (w : World) where
    -- The world when a SEND has been refused.
    abbrev pub not_ready : World
    not_ready =
        replied Opcode.error 0
          (λ e. Message.error e (record {
            error_code = err_rnr;
            failing_seq = h.sequence;
            description = text "receiver not ready";
          }))
          w

    handle_send-not_ready :
        w.session.recv_queue_depth ≡ 0
        → handle_send env h w ≡ (
          ok tt,
          record not_ready {
            session = record not_ready.session { pending_op = discarding_send_data };
          },
        )
    unfolding handle_send this ◌>>=◌ ◌>>◌ send_error modify
    handle_send-not_ready empty =
        let refusal : Action (Unit {0}) =
          send_error env err_rnr h.sequence (text "receiver not ready") in
        let discard : Action (Unit {0}) =
          modify (λ s. record s { pending_op = discarding_send_data }) in
        let none_left : w.session.recv_queue_depth == 0 ≡ true = ground arith in
        if-true (refusal >> discard) _ w none_left
        ∙ bind-ok refusal (λ _. discard) (reply-replied env up Opcode.error 0 _ w)

    -- Over a connection that takes what is sent, a SEND to a full receive queue and the SEND_DATA that
    -- follows are answered together by one ERROR that the receiver is not ready, with the number of
    -- the SEND; nothing stays pending, and nothing else changes but the session's own next number.
    pub handle_send_data-handle_send :
        w.session.recv_queue_depth ≡ 0
        → handle_send_data env (handle_send env h w).1
          ≡ (ok tt, record not_ready { session = record not_ready.session { pending_op = no_op } })
    unfolding handle_send_data take_pending after_send_data this ◌>>=◌ ◌>>◌ pure modify
    handle_send_data-handle_send empty =
        ap (λ o. handle_send_data env o.1) (handle_send-not_ready empty)
        ∙ bind-ok (take_pending env) (after_send_data env) {a = discarding_send_data}
            {v = record not_ready { session = record not_ready.session { pending_op = no_op } }}
            refl
