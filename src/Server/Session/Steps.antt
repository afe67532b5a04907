-- ===== src/Server/Session/Steps.antt =====
-- Single steps of actions over a connection that takes what is sent.
use rdows.Prelude.{
  ℕ, ◌+◌, ◌%◌, ◌^◌, ◌≡◌, ap, List, [], ◌∷◌, ◌++◌, Bool, true, false, none, Result, ok, err, panic,
  if◌then◌else◌, length,
}
use rdows.Core.Error.{ErrorCode}
use rdows.Core.Opcode
use rdows.Core.Frame.{RdowsHeader, new_header}
use rdows.Core.Message.{RdowsMessage, encode}
use rdows.Server.Store.{MemoryStore}
use rdows.Server.Session.Defs.{World, Env, Action, ◌>>=◌, next_header, send_message, reply}
use rdows.Server.Session.Handlers.{on_store}

-- The world when a message has been numbered and handed to the sink.
abbrev pub replied : Opcode.Opcode → ℕ → (RdowsHeader → RdowsMessage) → World → World
replied opcode wrid build w = record {
  session = record w.session { next_seq = (w.session.next_seq + 1) % 2 ^ 32 };
  sent = w.sent ++ (build (new_header opcode w.session.session_id w.session.next_seq wrid) ∷ []);
}

pub bind-ok :
    {A B : Type 0} (m : Action A) (f : A → Action B) {a : A} {w v : World}
    → m w ≡ (ok a, v)
    → (m >>= f) w ≡ f a v
unfolding ◌>>=◌
bind-ok m f e =
    ap (λ o. elim o.0 [ ok a ↦ f a o.1 | err c ↦ (err c, o.1) | panic ↦ (panic, o.1) ]) e

pub if-true :
    {A : Type 0} {b : Bool} (x y : Action A) (w : World) → b ≡ true → (if b then x else y) w ≡ x w
if-true x y w e = ap (λ b. (if b then x else y) w) e

pub if-false :
    {A : Type 0} {b : Bool} (x y : Action A) (w : World) → b ≡ false → (if b then x else y) w ≡ y w
if-false x y w e = ap (λ b. (if b then x else y) w) e

pub on_store-ok :
    {A : Type 0} (method : MemoryStore → Result ErrorCode A × MemoryStore) (w : World) {a : A}
    → (method w.session.memory_store).0 ≡ ok a
    → on_store method w ≡ (
      ok (ok a),
      record w { session = record w.session { memory_store = (method w.session.memory_store).1 } },
    )
unfolding on_store
on_store-ok method w e = rw (on_store, e)

-- The connection takes whatever is sent.
abbrev pub IsUp : Env → Type 0
IsUp env = (n : ℕ) (frame : List ℕ) → env.link n frame ≡ none

module _ (env : Env) (up : IsUp env) where
  pub reply-replied :
      (opcode : Opcode.Opcode) (wrid : ℕ) (build : RdowsHeader → RdowsMessage) (w : World)
      → reply env opcode wrid build w ≡ (ok tt, replied opcode wrid build w)
  unfolding reply ◌>>=◌ next_header send_message
  reply-replied opcode wrid build w = rw (
    reply,
    ◌>>=◌,
    next_header,
    send_message,
    up (length w.sent)
        (encode env.api (build (new_header opcode w.session.session_id w.session.next_seq wrid))),
  )
