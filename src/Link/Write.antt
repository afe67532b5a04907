-- ===== src/Link/Write.antt =====
-- A WRITE, from the client's call to its return.
use rdows.Prelude.{
  ℕ, ◌==◌, ◌+◌, ◌*◌, ◌%◌, ◌^◌, ◌≤◌, ◌<◌, ◌≡◌, refl, ap, sym, ◌∙◌, List, [], ◌∷◌, ◌++◌, append-nil,
  Bool, true, false, Option, none, some, Profile, length, arith,
}
use rdows.Prelude
use rdows.Prelude.Actions.{ok, Action, from_result, bind-ok, this, lift, ◌>>=◌, ◌>>◌, modify}
use rdows.Bytes.{IsBufApi}
use rdows.Core.Need.{IsU64}
use rdows.Core.Error.{RdowsError}
use rdows.Core.Opcode
use rdows.Core.Frame.{RdowsHeader, new_header}
use rdows.Core.Memory.{remote_write}
use rdows.Core.Message
use rdows.Core.Message.Write
use rdows.Core.Message.Write.{WritePayload}
use rdows.Core.Message.{RdowsMessage, header, encode, decode}
use rdows.Core.Message.RoundTrip.{IsValid, kind, payload, stamped, with_header}
use rdows.Client.CompletionQueue.{is_full}
use rdows.Client.LocalMemory.{gather}
use rdows.Client.Connection.{Client, is_gap, credits_of, update, recv_app_message}
use rdows.Client.Verbs.{complete, require_room, submit, gather_sg_data, after_write, rdma_write}
use rdows.Client.Wire
use rdows.Client.Rounds.{taken, numbered}
use rdows.Client.Exchange.{
  submitted, submit-submitted, recv_app_message-numbered, require_room-room,
}
use rdows.Server.Store.{write_region}
use rdows.Server.Store.Invariant
use rdows.Server.Store.Access.{Target}
use rdows.Server.Session
use rdows.Server.Session.{World}
use rdows.Server.Session.Handlers.{dispatch, handle_write_data}
use rdows.Server.Session.Messages.{handle_message, handle_ready}
use rdows.Server.Session.Steps.{replied, IsUp}
use rdows.Server.Session.Exchanges.{
  awaiting, handle_write-awaiting, written, handle_write_data-handle_write,
}
use rdows.Server.Session.Accepted.{arrived, handle_message-handle_ready}
use rdows.Link.Defs.{Served, online, frames, session_reacts, joined}
use rdows.Link.Steps.{decode-encode_alone, session_reacts-online}
use rdows.Link.InStep.{InStep, new_header-Fits}

module _ (env : Session.Env) (laws : IsBufApi env.api) (up : IsUp env) (prof : Profile) where
  module _ (c : Client Served) (w : World) (wrid : ℕ) (p : WritePayload) (content : List ℕ) where
    abbrev pub request : RdowsMessage
    request = Message.write (new_header Opcode.write c.conn.session_id c.conn.next_seq wrid) p

    abbrev pub data_message : RdowsMessage
    data_message =
        Message.write_data
          (new_header Opcode.write_data c.conn.session_id ((c.conn.next_seq + 1) % 2 ^ 32) wrid)
          (record { content = content })

    abbrev pub response : RdowsMessage
    response =
        Message.write_comp
          (new_header Opcode.write_comp w.session.session_id w.session.next_seq wrid)

    -- The session between the two messages, and behind them.
    abbrev pub half_way : World
    half_way = awaiting env up (header (stamped request)) p content (arrived (stamped request) w)

    abbrev pub settled : World
    settled = replied Opcode.write_comp wrid Message.write_comp (
        written env up (header (stamped request)) p content
          (arrived (stamped data_message) (arrived (stamped request) w)))

    module _ (step : InStep c w) (wrid_fits : IsU64 wrid) (fits : Write.Fits p)
        (short : 24 + length p.sg_list * 16 < 2 ^ 32) (few : length content < 2 ^ 32) where
      request-IsValid : IsValid request
      unfolding header payload kind new_header Write.encoded_len
      request-IsValid = record {
        header_fits =
            new_header-Fits Opcode.write c.conn.session_id c.conn.next_seq wrid
              (length (Write.layout p)) step.client_id_fits step.client_seq_fits wrid_fits
              (omega (arith, Write.length-layout p));
        has_kind = refl;
        payload_fits = fits;
      }

      data_message-IsValid : IsValid data_message
      unfolding header payload kind new_header
      data_message-IsValid = record {
        header_fits =
            new_header-Fits Opcode.write_data c.conn.session_id ((c.conn.next_seq + 1) % 2 ^ 32)
              wrid (length content) step.client_id_fits (omega arith) wrid_fits few;
        has_kind = refl;
        payload_fits = tt;
      }

      response-IsValid : IsValid response
      unfolding header payload kind new_header
      response-IsValid = record {
        header_fits =
            new_header-Fits Opcode.write_comp w.session.session_id w.session.next_seq wrid 0
              step.server_id_fits step.server_seq_fits wrid_fits (omega arith);
        has_kind = refl;
        payload_fits = tt;
      }

      module _ (sized : 24 + length p.sg_list * 16 ≤ w.session.max_msg_size)
          (data_sized : length content ≤ w.session.max_msg_size)
          (valid : Invariant.IsValid w.session.memory_store)
          (target : Target p.rkey remote_write p.remote_va
            (length content)
            w.session.memory_store) where
        pub request-half_way : handle_message env (stamped request) w ≡ (Prelude.ok tt, half_way)
        unfolding stamped with_header header payload new_header handle_ready dispatch
            Write.encoded_len
        request-half_way =
            handle_message-handle_ready env (stamped request) w step.established step.request_due
              (omega (arith, Write.length-layout p))
            ∙ handle_write-awaiting env up (header (stamped request)) p content
                (arrived (stamped request) w) target

        pub data_message-settled :
            handle_message env (stamped data_message) half_way ≡ (Prelude.ok tt, settled)
        unfolding stamped with_header header payload new_header handle_ready dispatch
        data_message-settled =
            let before : World = arrived (stamped data_message) (arrived (stamped request) w) in
            handle_message-handle_ready env (stamped data_message) half_way step.established refl
              data_sized
            ∙ sym (
                ap (λ o. handle_write_data env (record { content = content }) o.1)
                  (handle_write-awaiting env up (header (stamped request)) p content before target))
            ∙ handle_write_data-handle_write env up (header (stamped request)) p content before
                valid target

        pub request-reacts :
            session_reacts env (encode env.api request) c.wire.net
            ≡ (none, online half_way, frames env.api [])
        request-reacts =
            ap (session_reacts env (encode env.api request)) step.other_side
            ∙ session_reacts-online env prof (encode env.api request) (stamped request) w half_way
                [] (decode-encode_alone laws env.prof request request-IsValid) request-half_way
                step.established (sym (append-nil w.sent))

        pub data_message-reacts :
            session_reacts env (encode env.api data_message) (online half_way)
            ≡ (none, online settled, frames env.api (response ∷ []))
        data_message-reacts =
            session_reacts-online env prof (encode env.api data_message) (stamped data_message)
              half_way settled (response ∷ [])
              (decode-encode_alone laws env.prof data_message data_message-IsValid)
              data_message-settled step.established refl

      -- The client when the request has been sent, when its data has been sent, and when the answer has been
      -- taken.
      abbrev pub asking_client : Client Served
      asking_client = submitted (joined prof env) (online half_way) (frames env.api []) c

      abbrev pub waiting_client : Client Served
      waiting_client =
          submitted (joined prof env) (online settled) (frames env.api (response ∷ []))
            asking_client

      abbrev pub answered_client : Client Served
      answered_client =
          numbered (joined prof env) (stamped response) (taken (joined prof env) [] waiting_client)

      abbrev pub done_client : Client Served
      done_client =
          (complete (joined prof env) wrid 0 Opcode.write (length content % 2 ^ 32)
            answered_client).1

      response-taken :
          recv_app_message (joined prof env) waiting_client
          ≡ (ok (stamped response), answered_client)
      unfolding frames stamped with_header header new_header credits_of
      response-taken =
          let same : is_gap (some w.session.next_seq) w.session.next_seq ≡ false = ground arith in
          recv_app_message-numbered (joined prof env) waiting_client (encode env.api response)
            (stamped response)
            (ap (λ inbox. (inbox ++ []) ++ frames env.api (response ∷ [])) step.quiet)
            (decode-encode_alone laws prof response response-IsValid)
            (ap (λ due. is_gap due w.session.next_seq) step.reply_due ∙ same) refl

      after_write-done :
          after_write
            (joined prof env)
            wrid
            (length content % 2 ^ 32)
            (stamped response)
            answered_client
          ≡ (ok tt, done_client)
      unfolding after_write stamped with_header complete update modify
      after_write-done = refl

      gathered :
          gather prof c.conn.local_mrs p.sg_list [] ≡ Prelude.ok content
          → gather_sg_data (joined prof env) p.sg_list c ≡ (ok content, c)
      unfolding gather_sg_data ◌>>=◌ this lift
      gathered e = ap (λ r. (from_result r, c)) e

      pub done-InStep : InStep done_client settled
      unfolding complete update modify stamped with_header header new_header
      done-InStep = record {
        other_side = refl;
        quiet = refl;
        established = step.established;
        request_due = refl;
        reply_due = refl;
        client_id_fits = step.client_id_fits;
        client_seq_fits = omega arith;
        server_id_fits = step.server_id_fits;
        server_seq_fits = omega arith;
      }

      pub rdma_write-done :
          p.total ≡ length content
          → is_full c.conn.cq ≡ false
          → gather prof c.conn.local_mrs p.sg_list [] ≡ Prelude.ok content
          → session_reacts env (encode env.api request) c.wire.net
            ≡ (none, online half_way, frames env.api [])
          → session_reacts env (encode env.api data_message) (online half_way)
            ≡ (none, online settled, frames env.api (response ∷ []))
          → rdma_write (joined prof env) wrid p.rkey p.remote_va p.sg_list c ≡ (ok tt, done_client)
      unfolding rdma_write ◌>>◌
      rdma_write-done total room held first second =
          let e : Wire.Env Served = joined prof env in
          let build : ℕ → RdowsHeader → RdowsMessage = λ n h.
            Message.write h
              (record { rkey = p.rkey; remote_va = p.remote_va; total = n; sg_list = p.sg_list }) in
          let build_data : List ℕ → RdowsHeader → RdowsMessage =
            λ bytes h. Message.write_data h (record { content = bytes }) in
          let answered : Action RdowsError (Client Served) (Unit {0}) =
            recv_app_message e >>= after_write e wrid (length content % 2 ^ 32) in
          let with_data : List ℕ → Action RdowsError (Client Served) (Unit {0}) = λ bytes.
            submit e Opcode.write wrid (build (length bytes))
            >> (submit e Opcode.write_data wrid (build_data bytes)
                >> (recv_app_message e >>= after_write e wrid (length bytes % 2 ^ 32))) in
          bind-ok (require_room e) (λ _. gather_sg_data e p.sg_list >>= with_data)
            (require_room-room e c room)
          ∙ bind-ok (gather_sg_data e p.sg_list) with_data (gathered held)
          ∙ bind-ok (submit e Opcode.write wrid (build (length content)))
              (λ _. submit e Opcode.write_data wrid (build_data content) >> answered)
              (submit-submitted e Opcode.write wrid (build (length content)) c (online half_way)
                (frames env.api [])
                (ap
                    (λ n.
                      session_reacts env
                        (encode env.api (
                          build n (new_header Opcode.write c.conn.session_id c.conn.next_seq wrid)))
                        c.wire.net)
                    (sym total)
                  ∙ first))
          ∙ bind-ok (submit e Opcode.write_data wrid (build_data content)) (λ _. answered)
              (submit-submitted e Opcode.write_data wrid (build_data content) asking_client
                (online settled) (frames env.api (response ∷ [])) second)
          ∙ bind-ok (recv_app_message e) (after_write e wrid (length content % 2 ^ 32))
              response-taken
          ∙ after_write-done

-- With buffer functions that behave as documented, a client and a session are in step, over a
-- connection that loses nothing, and all numbers and lengths fit their fields. A WRITE of what the
-- local buffers hold under its scatter/gather list, to a range of a region of a valid store with
-- the right to write, in messages of an allowed size, while the completion queue has room, returns
-- without an error. The session's store is then what `write_region` makes of it with those bytes,
-- and the client's local buffers are what they were; the two are in step again.
pub rdma_write-write_region :
    (env : Session.Env) (laws : IsBufApi env.api) (up : IsUp env) (prof : Profile)
    (c : Client Served) (w : World) (wrid : ℕ) (p : WritePayload) (content : List ℕ)
    → InStep c w
    → IsU64 wrid
    → Write.Fits p
    → p.total ≡ length content
    → 24 + length p.sg_list * 16 < 2 ^ 32
    → length content < 2 ^ 32
    → 24 + length p.sg_list * 16 ≤ w.session.max_msg_size
    → length content ≤ w.session.max_msg_size
    → Invariant.IsValid w.session.memory_store
    → Target p.rkey remote_write p.remote_va (length content) w.session.memory_store
    → is_full c.conn.cq ≡ false
    → gather prof c.conn.local_mrs p.sg_list [] ≡ Prelude.ok content
    → (d : Client Served) × (v : World) × (rdma_write
          (joined prof env)
          wrid
          p.rkey
          p.remote_va
          p.sg_list
          c
        ≡ (ok tt, d))
      × InStep d v
      × (v.session.memory_store
          ≡ (write_region p.rkey p.remote_va content w.session.memory_store).1)
      × (d.conn.local_mrs ≡ c.conn.local_mrs)
unfolding complete update modify
rdma_write-write_region env laws up prof c w wrid p content step wrid_fits fits total short few
      sized data_sized valid target free held =
    (
      done_client env laws up prof c w wrid p content step wrid_fits fits short few,
      settled env laws up prof c w wrid p content,
      rdma_write-done env laws up prof c w wrid p content step wrid_fits fits short few total free
          held
          (request-reacts env laws up prof c w wrid p content step wrid_fits fits short few sized
            data_sized valid target)
          (data_message-reacts env laws up prof c w wrid p content step wrid_fits fits short few
            sized data_sized valid target),
      done-InStep env laws up prof c w wrid p content step wrid_fits fits short few,
      refl,
      refl,
    )
