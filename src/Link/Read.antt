-- ===== src/Link/Read.antt =====
-- A READ, from the client's call to its return.
use rdows.Prelude.{
  ℕ, ◌==◌, ◌+◌, ◌%◌, ◌^◌, ◌≤◌, ◌<◌, ◌≡◌, refl, ap, sym, ◌∙◌, List, [], ◌∷◌, ◌++◌, Bool, true, false,
  Option, none, some, Profile, length, arith,
}
use rdows.Prelude
use rdows.Prelude.Actions.{ok, Action, bind-ok, ◌>>=◌, ◌>>◌, modify}
use rdows.Prelude.Dict.{lookup, insert}
use rdows.Bytes.{IsBufApi}
use rdows.Bytes.Ranges.{splice}
use rdows.Core.Need.{IsU64}
use rdows.Core.Error.{RdowsError}
use rdows.Core.Opcode
use rdows.Core.Frame.{RdowsHeader, new_header}
use rdows.Core.Message
use rdows.Core.Message.ReadReq
use rdows.Core.Message.ReadReq.{ReadReqPayload}
use rdows.Core.Message.ReadResp
use rdows.Core.Message.{RdowsMessage, header, encode, decode}
use rdows.Core.Message.RoundTrip.{IsValid, kind, payload, stamped, with_header}
use rdows.Client.CompletionQueue.{is_full}
use rdows.Client.LocalMemory.{MemoryRegionHandle}
use rdows.Client.Connection.{Client, is_gap, credits_of, update, recv_app_message}
use rdows.Client.Verbs.{complete, require_room, submit, store_read, after_read, rdma_read}
use rdows.Client.Rounds.{taken, numbered}
use rdows.Client.Exchange.{
  submitted, submit-submitted, recv_app_message-numbered, require_room-room, stored,
  store_read-stored,
}
use rdows.Server.Store.{read_region}
use rdows.Server.Session
use rdows.Server.Session.{World}
use rdows.Server.Session.Handlers.{dispatch}
use rdows.Server.Session.Messages.{handle_message, handle_ready}
use rdows.Server.Session.Steps.{replied, IsUp}
use rdows.Server.Session.Accepted.{arrived, handle_message-handle_ready, handle_read_req-replied}
use rdows.Link.Defs.{Served, online, frames, session_reacts, joined}
use rdows.Link.Steps.{decode-encode_alone, session_reacts-online}
use rdows.Link.InStep.{InStep, new_header-Fits}

module _ (env : Session.Env) (laws : IsBufApi env.api) (up : IsUp env) (prof : Profile) where
  module _ (c : Client Served) (w : World) (wrid : ℕ) (p : ReadReqPayload) (content : List ℕ) where
    abbrev pub request : RdowsMessage
    request = Message.read_req (new_header Opcode.read_req c.conn.session_id c.conn.next_seq wrid) p

    abbrev pub answer : RdowsHeader → RdowsMessage
    answer r = Message.read_resp r (record { fragment_offset = 0; content = content })

    abbrev pub response : RdowsMessage
    response = answer (new_header Opcode.read_resp w.session.session_id w.session.next_seq wrid)

    abbrev pub served : World
    served = replied Opcode.read_resp wrid answer (arrived (stamped request) w)

    module _ (step : InStep c w) (wrid_fits : IsU64 wrid) (fits : ReadReq.Fits p)
        (short : 8 + length content < 2 ^ 32) where
      request-IsValid : IsValid request
      unfolding header payload kind new_header
      request-IsValid = record {
        header_fits =
            new_header-Fits Opcode.read_req c.conn.session_id c.conn.next_seq wrid
              (length (ReadReq.layout p)) step.client_id_fits step.client_seq_fits wrid_fits
              (omega (arith, ReadReq.length-layout p));
        has_kind = refl;
        payload_fits = fits;
      }

      response-IsValid : IsValid response
      unfolding header payload kind new_header ReadResp.encoded_len
      response-IsValid =
          let rp : ReadResp.ReadRespPayload = record { fragment_offset = 0; content = content } in
          record {
            header_fits =
                new_header-Fits Opcode.read_resp w.session.session_id w.session.next_seq wrid
                  (length (ReadResp.layout rp)) step.server_id_fits step.server_seq_fits wrid_fits
                  (omega (arith, ReadResp.length-layout rp));
            has_kind = refl;
            payload_fits = omega arith;
          }

      pub request-served :
          40 ≤ w.session.max_msg_size
          → w.session.outstanding_reads < w.session.max_outstanding_reads
          → w.session.max_outstanding_reads < 2 ^ 32
          → read_region p.rkey p.remote_va p.read_len w.session.memory_store ≡ Prelude.ok content
          → handle_message env (stamped request) w ≡ (Prelude.ok tt, served)
      unfolding stamped with_header header payload new_header handle_ready dispatch
      request-served size room small out =
          handle_message-handle_ready env (stamped request) w step.established step.request_due
            (omega (arith, ReadReq.length-layout p))
          ∙ handle_read_req-replied env up _ p (arrived (stamped request) w) content room small out

      pub request-reacts :
          handle_message env (stamped request) w ≡ (Prelude.ok tt, served)
          → session_reacts env (encode env.api request) c.wire.net
            ≡ (none, online served, frames env.api (response ∷ []))
      request-reacts took =
          ap (session_reacts env (encode env.api request)) step.other_side
          ∙ session_reacts-online env prof (encode env.api request) (stamped request) w served
              (response ∷ []) (decode-encode_alone laws env.prof request request-IsValid) took
              step.established refl

      -- The client when the request has been sent, when the answer has been taken, and when its bytes are
      -- in the local buffer.
      abbrev pub waiting_client : Client Served
      waiting_client =
          submitted (joined prof env) (online served) (frames env.api (response ∷ [])) c

      abbrev pub answered_client : Client Served
      answered_client =
          numbered (joined prof env) (stamped response) (taken (joined prof env) [] waiting_client)

      response-taken :
          recv_app_message (joined prof env) waiting_client
          ≡ (ok (stamped response), answered_client)
      unfolding frames stamped with_header header new_header credits_of
      response-taken =
          let same : is_gap (some w.session.next_seq) w.session.next_seq ≡ false = ground arith in
          recv_app_message-numbered (joined prof env) waiting_client (encode env.api response)
            (stamped response) (ap (λ inbox. inbox ++ frames env.api (response ∷ [])) step.quiet)
            (decode-encode_alone laws prof response response-IsValid)
            (ap (λ due. is_gap due w.session.next_seq) step.reply_due ∙ same) refl

      module _ (mr : MemoryRegionHandle) where
        abbrev pub filled_client : Client Served
        filled_client = stored (joined prof env) p.local_lkey p.local_va content mr answered_client

        abbrev pub done_client : Client Served
        done_client =
            (complete (joined prof env) wrid 0 Opcode.read_req (length content % 2 ^ 32)
              filled_client).1

        pub after_read-done :
            lookup p.local_lkey c.conn.local_mrs ≡ some mr
            → p.local_va + length content ≤ length mr.local_buf
            → length mr.local_buf < 2 ^ 64
            → after_read
                (joined prof env)
                wrid
                p.local_lkey
                p.local_va
                (stamped response)
                answered_client
              ≡ (ok tt, done_client)
        unfolding after_read stamped with_header complete update modify ◌>>◌
        after_read-done held inside small =
            bind-ok (store_read (joined prof env) p.local_lkey p.local_va content)
              (λ _. complete (joined prof env) wrid 0 Opcode.read_req (length content % 2 ^ 32))
              (store_read-stored (joined prof env) p.local_lkey p.local_va content mr
                answered_client held inside small)

        pub rdma_read-done :
            is_full c.conn.cq ≡ false
            → handle_message env (stamped request) w ≡ (Prelude.ok tt, served)
            → after_read
                (joined prof env)
                wrid
                p.local_lkey
                p.local_va
                (stamped response)
                answered_client
              ≡ (ok tt, done_client)
            → rdma_read
                (joined prof env)
                wrid
                p.rkey
                p.remote_va
                p.read_len
                p.local_lkey
                p.local_va
                c
              ≡ (ok tt, done_client)
        unfolding rdma_read ◌>>◌
        rdma_read-done room took ends =
            let answered : Action RdowsError (Client Served) (Unit {0}) =
              recv_app_message (joined prof env)
              >>= after_read (joined prof env) wrid p.local_lkey p.local_va in
            bind-ok (require_room (joined prof env))
              (λ _.
                submit (joined prof env) Opcode.read_req wrid (λ h. Message.read_req h p)
                >> answered)
              (require_room-room (joined prof env) c room)
            ∙ bind-ok (submit (joined prof env) Opcode.read_req wrid (λ h. Message.read_req h p))
                (λ _. answered)
                (submit-submitted (joined prof env) Opcode.read_req wrid (λ h. Message.read_req h p)
                  c (online served) (frames env.api (response ∷ [])) (request-reacts took))
            ∙ bind-ok (recv_app_message (joined prof env))
                (after_read (joined prof env) wrid p.local_lkey p.local_va) response-taken
            ∙ ends

        pub done-InStep : InStep done_client served
        unfolding complete update modify stamped with_header header new_header
        done-InStep = record {
          other_side = refl;
          quiet = refl;
          established = step.established;
          request_due = refl;
          reply_due = refl;
          client_id_fits = step.client_id_fits;
          client_seq_fits = omega arith;
          server_id_fits = step.server_id_fits;
          server_seq_fits = omega arith;
        }

-- With buffer functions that behave as documented, a client and a session are in step, over a
-- connection that loses nothing, and all numbers and lengths fit their fields. A READ of bytes that
-- the session's store gives for that R_Key and range, into a range of a local buffer that holds
-- them, while the completion queue has room and fewer reads are under way than the session allows,
-- returns without an error. The local buffer then holds those bytes in that range, and all other
-- local buffers and the session's store are what they were; the two are in step again.
pub rdma_read-read_region :
    (env : Session.Env) (laws : IsBufApi env.api) (up : IsUp env) (prof : Profile)
    (c : Client Served) (w : World) (wrid : ℕ) (p : ReadReqPayload) (content : List ℕ)
    (mr : MemoryRegionHandle)
    → InStep c w
    → IsU64 wrid
    → ReadReq.Fits p
    → 8 + length content < 2 ^ 32
    → 40 ≤ w.session.max_msg_size
    → w.session.outstanding_reads < w.session.max_outstanding_reads
    → w.session.max_outstanding_reads < 2 ^ 32
    → read_region p.rkey p.remote_va p.read_len w.session.memory_store ≡ Prelude.ok content
    → is_full c.conn.cq ≡ false
    → lookup p.local_lkey c.conn.local_mrs ≡ some mr
    → p.local_va + length content ≤ length mr.local_buf
    → length mr.local_buf < 2 ^ 64
    → (d : Client Served) × (v : World) × (rdma_read
          (joined prof env)
          wrid
          p.rkey
          p.remote_va
          p.read_len
          p.local_lkey
          p.local_va
          c
        ≡ (ok tt, d))
      × InStep d v
      × (v.session.memory_store ≡ w.session.memory_store)
      × (d.conn.local_mrs
          ≡ insert p.local_lkey
              (record mr { local_buf = splice p.local_va content mr.local_buf })
              c.conn.local_mrs)
unfolding complete update modify
rdma_read-read_region env laws up prof c w wrid p content mr step wrid_fits fits short size room
      small out free held inside bounded =
    let took =
      request-served env laws up prof c w wrid p content step wrid_fits fits short size room small
        out in
    (
      done_client env laws up prof c w wrid p content step wrid_fits fits short mr,
      served env laws up prof c w wrid p content,
      rdma_read-done env laws up prof c w wrid p content step wrid_fits fits short mr free took (
          after_read-done env laws up prof c w wrid p content step wrid_fits fits short mr held
            inside bounded),
      done-InStep env laws up prof c w wrid p content step wrid_fits fits short mr,
      refl,
      refl,
    )
