-- ===== src/Client/Exchange.antt =====
-- A request that is sent, and a reply that has arrived (crates/rdows-client/src/lib.rs, connection.rs).
use rdows.Prelude.{
  ℕ, suc, ◌+◌, ◌%◌, ◌^◌, ◌≤◌, ◌<◌, ◌≡◌, refl, ap, sym, ◌∙◌, List, [], ◌∷◌, ◌++◌, Bool, true, false,
  Option, none, some, length, if◌then◌else◌,
}
use rdows.Prelude
use rdows.Prelude.Actions.{ok, err, from_result, pure, if-false, this, lift, modify, ◌>>=◌, zoom}
use rdows.Core.Error.{web_socket}
use rdows.Core.Opcode.{Opcode}
use rdows.Core.Frame.{RdowsHeader, new_header}
use rdows.Core.Message.{RdowsMessage, header, encode, decode}
use rdows.Client.Wire.{Arrival, binary, Env, Wire, send_message, receive}
use rdows.Client.Connection.{
  Client, is_gap, credits_of, on_wire, update, next_header, recv_app_message,
}
use rdows.Prelude.Dict.{lookup, insert}
use rdows.Bytes.Ranges.{splice}
use rdows.Client.CompletionQueue.{is_full}
use rdows.Client.LocalMemory.{MemoryRegionHandle}
use rdows.Client.Buffers.{write_local-found}
use rdows.Client.Verbs.{submit, require_room, store_read}
use rdows.Client.Rounds.{
  taken, numbered, by_credits, recv_message-taken, recv_loop-rest_of, rest_of-by_credits,
}

module _ {N : Type 0} (env : Env N) where
  -- The client when a message has been numbered and sent.
  abbrev pub submitted : N → List Arrival → Client N → Client N
  submitted net arrivals c = record {
    conn = record c.conn { next_seq = (c.conn.next_seq + 1) % 2 ^ 32 };
    wire = record { net = net; inbox = c.wire.inbox ++ arrivals };
  }

  send_message-sent :
      (m : RdowsMessage) (w : Wire N) (net : N) (arrivals : List Arrival)
      → env.peer.react (encode env.api m) w.net ≡ (none, net, arrivals)
      → send_message env m w ≡ (ok tt, record { net = net; inbox = w.inbox ++ arrivals })
  unfolding send_message
  send_message-sent m w net arrivals e =
      ap
        (λ r. elim r.0 [
          | none ↦ (ok tt, record { net = r.1; inbox = w.inbox ++ r.2 })
          | some x ↦ (err (web_socket x), record { net = r.1; inbox = w.inbox ++ r.2 })
        ])
        e

  pub submit-submitted :
      (opcode : Opcode) (wrid : ℕ) (build : RdowsHeader → RdowsMessage) (c : Client N) (net : N)
      (arrivals : List Arrival)
      → env.peer.react
          (encode env.api (build (new_header opcode c.conn.session_id c.conn.next_seq wrid)))
          c.wire.net
        ≡ (none, net, arrivals)
      → submit env opcode wrid build c ≡ (ok tt, submitted net arrivals c)
  unfolding submit ◌>>=◌ next_header on_wire zoom
  submit-submitted opcode wrid build c net arrivals e =
      ap
        (λ p. (
          p.0,
          record c {
            conn = record c.conn { next_seq = (c.conn.next_seq + 1) % 2 ^ 32 };
            wire = p.1;
          },
        ))
        (send_message-sent (build (new_header opcode c.conn.session_id c.conn.next_seq wrid)) c.wire
          net arrivals e)

  pub recv_app_message-numbered :
      (c : Client N) (bytes : List ℕ) (m : RdowsMessage)
      → c.wire.inbox ≡ binary bytes ∷ []
      → decode env.prof env.api bytes ≡ Prelude.ok m
      → is_gap c.conn.expected_remote_seq (header m).sequence ≡ false
      → credits_of m ≡ none
      → recv_app_message env c ≡ (ok m, numbered env m (taken env [] c))
  unfolding recv_app_message receive by_credits pure
  recv_app_message-numbered c bytes m arrived read due plain =
      recv_loop-rest_of env (length c.wire.inbox) c (taken env [] c) m
        (recv_message-taken env c (ok m) [] (got ∙ ap (λ r. (from_result r, [])) read))
      ∙ rest_of-by_credits env (length c.wire.inbox) m (taken env [] c) due plain
    where
      got : receive env c.wire.inbox ≡ (from_result (decode env.prof env.api bytes), [])
      got = rw (arrived) refl

  pub require_room-room :
      (c : Client N) → is_full c.conn.cq ≡ false → require_room env c ≡ (ok tt, c)
  unfolding require_room ◌>>=◌ this pure
  require_room-room c room = if-false _ _ c room

  -- The client when bytes have been put into the local buffer of a region.
  abbrev pub stored : ℕ → ℕ → List ℕ → MemoryRegionHandle → Client N → Client N
  stored lkey offset bytes mr c = record c {
    conn = record c.conn {
      local_mrs =
          insert lkey (record mr { local_buf = splice offset bytes mr.local_buf }) c.conn.local_mrs;
    };
  }

  pub store_read-stored :
      (lkey offset : ℕ) (bytes : List ℕ) (mr : MemoryRegionHandle) (c : Client N)
      → lookup lkey c.conn.local_mrs ≡ some mr
      → offset + length bytes ≤ length mr.local_buf
      → length mr.local_buf < 2 ^ 64
      → store_read env lkey offset bytes c ≡ (ok tt, stored lkey offset bytes mr c)
  unfolding store_read ◌>>=◌ this lift update modify
  store_read-stored lkey offset bytes mr c e h small =
      ap (λ r. (lift r >>= λ mrs. update (λ k. record k { local_mrs = mrs })) c)
        (write_local-found env.prof lkey offset bytes c.conn.local_mrs mr e h small)
