-- ===== src/Server/Session/Accepted.antt =====
-- What a session does with a request that is in order: a READ, a WRITE and its data.
use rdows.Prelude.{
  ℕ, ◌+◌, ◌-◌, ◌%◌, ◌^◌, ◌≤◌, ◌<◌, ◌≡◌, refl, ap, ◌∙◌, List, false, ◌&&◌, some, ok, err, panic,
  arith, ltb, leb, add_uint, add_uint-ok, sub_uint-ok,
}
use rdows.Core.Error.{RdowsError}
use rdows.Core.Opcode
use rdows.Core.Frame.{RdowsHeader}
use rdows.Core.Message.ReadReq.{ReadReqPayload}
use rdows.Core.Message
use rdows.Core.Message.{RdowsMessage, header}
use rdows.Server.Store.{read_region}
use rdows.Server.Session.Defs.{ready, World, Env, Action, ◌>>=◌, ◌>>◌, lift, this, modify, reply}
use rdows.Server.Session.Handlers.{read_ends, finish_read, answer_read, handle_read_req}
use rdows.Server.Session.Messages.{
  is_ready, is_gap, handle_in_order, by_state, handle_message, handle_ready,
}
use rdows.Server.Session.Steps.{replied, bind-ok, if-false, IsUp, reply-replied}

-- The world when a message with the number that was due has arrived.
abbrev pub arrived : RdowsMessage → World → World
arrived m w = record w {
  session = record w.session { expected_remote_seq = some (((header m).sequence + 1) % 2 ^ 32) };
}

module _ (env : Env) where
  pub handle_message-handle_ready :
      (m : RdowsMessage) (w : World)
      → w.session.state ≡ ready
      → w.session.expected_remote_seq ≡ some (header m).sequence
      → (header m).payload_length ≤ w.session.max_msg_size
      → handle_message env m w ≡ handle_ready env m (arrived m w)
  unfolding handle_message handle_in_order by_state is_ready is_gap this modify ◌>>=◌ ◌>>◌
  handle_message-handle_ready m w at due fits =
      let seq : ℕ = (header m).sequence in
      let small : is_ready env w.session.state
            && ltb w.session.max_msg_size (header m).payload_length
          ≡ false =
        ap (λ s. is_ready env s && ltb w.session.max_msg_size (header m).payload_length) at
        ∙ ground arith in
      let same : is_gap env w.session.expected_remote_seq seq ≡ false =
        ap (λ d. is_gap env d seq) due ∙ ground arith in
      if-false _ (by_state env m w.session.state) w small
      ∙ ap (λ s. by_state env m s w) at
      ∙ if-false _ _ w same

  module _ (up : IsUp env) where
    abbrev counting : ℕ → World → World
    counting n w = record w { session = record w.session { outstanding_reads = n } }

    read_ends-counting :
        (w : World) (n : ℕ)
        → w.session.outstanding_reads ≡ n + 1
        → n + 1 < 2 ^ 32
        → read_ends env w ≡ (ok tt, counting n w)
    unfolding read_ends this lift modify ◌>>=◌
    read_ends-counting w n e small =
        let back : n + 1 - 1 ≡ n = omega arith in
        rw
          (
            read_ends,
            this,
            ◌>>=◌,
            lift,
            modify,
            e,
            sub_uint-ok {E = RdowsError} env.prof 32 (n + 1) 1 (omega arith) small,
            back,
          )
          refl

    finish_read-ok :
        (m : Action (Unit {0})) (w v : World)
        → m w ≡ (ok tt, v)
        → finish_read env m w ≡ read_ends env v
    unfolding finish_read
    finish_read-ok m w v e =
        ap
          (λ o. elim o.0 [
            | ok _ ↦ read_ends env o.1
            | err x ↦ (read_ends env >> lift (err x)) o.1
            | panic ↦ (panic, o.1)
          ])
          e

    -- A READ that the store allows is answered by its bytes.
    pub handle_read_req-replied :
        (h : RdowsHeader) (p : ReadReqPayload) (w : World) (content : List ℕ)
        → w.session.outstanding_reads < w.session.max_outstanding_reads
        → w.session.max_outstanding_reads < 2 ^ 32
        → read_region p.rkey p.remote_va p.read_len w.session.memory_store ≡ ok content
        → handle_read_req env h p w ≡ (
          ok tt,
          replied Opcode.read_resp h.wrid
              (λ r. Message.read_resp r (record { fragment_offset = 0; content = content }))
              w,
        )
    unfolding handle_read_req answer_read finish_read this lift modify ◌>>=◌ ◌>>◌
    handle_read_req-replied h p w content room small out =
        let n : ℕ = w.session.outstanding_reads in
        let allowed : leb w.session.max_outstanding_reads n ≡ false = ground arith in
        let build : RdowsHeader → RdowsMessage =
          λ r. Message.read_resp r (record { fragment_offset = 0; content = content }) in
        if-false _ _ w allowed
        ∙ bind-ok (lift (add_uint env.prof 32 n 1))
            (λ k.
              modify (λ s. record s { outstanding_reads = k })
              >> answer_read env h
                  (read_region p.rkey p.remote_va p.read_len w.session.memory_store))
            {a = n + 1} {w = w} {v = w}
            (ap (λ r. (r, w)) (add_uint-ok {E = RdowsError} env.prof 32 n 1 (omega arith)))
        ∙ ap (λ r. answer_read env h r (counting (n + 1) w)) out
        ∙ finish_read-ok (reply env Opcode.read_resp h.wrid build) (counting (n + 1) w) _
            (reply-replied env up Opcode.read_resp h.wrid build (counting (n + 1) w))
        ∙ read_ends-counting (replied Opcode.read_resp h.wrid build (counting (n + 1) w)) n refl
            (omega arith)
