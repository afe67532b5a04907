-- ===== src/Link/Steps.antt =====
-- A message from the client to the session and back.
use rdows.Prelude.{
  ℕ, suc, ◌+◌, ◌%◌, ◌^◌, ◌≤◌, ◌<◌, ◌≡◌, refl, ap, sym, ◌∙◌, List, [], ◌∷◌, ◌++◌, append-nil, Bool,
  true, false, Option, none, some, Profile, length, drop, drop-append, if◌then◌else◌, arith,
}
use rdows.Prelude
use rdows.Bytes.{BufApi, IsBufApi}
use rdows.Core.Message.{RdowsMessage, encode, decode}
use rdows.Core.Message.RoundTrip.{IsValid, stamped, decode-encode}
use rdows.Server.Session
use rdows.Server.Session.{World}
use rdows.Server.Session.Messages
use rdows.Server.Session.Messages.{handle_message, run_session}
use rdows.Link.Defs.{online, frames, goes_on, session_reacts}

pub decode-encode_alone :
    {api : BufApi} (laws : IsBufApi api) (prof : Profile) (m : RdowsMessage)
    → IsValid m
    → decode prof api (encode api m) ≡ Prelude.ok (stamped m)
decode-encode_alone {api} laws prof m v =
    ap (decode prof api) (sym (append-nil (encode api m))) ∙ decode-encode laws prof m [] v

module _ (env : Session.Env) (prof : Profile) where
  run_session-one :
      (bytes : List ℕ) (m : RdowsMessage) (w v : World)
      → decode env.prof env.api bytes ≡ Prelude.ok m
      → handle_message env m w ≡ (Prelude.ok tt, v)
      → v.session.state ≡ Session.ready
      → run_session (Messages.binary env bytes ∷ []) w ≡ (Messages.exhausted, v)
  unfolding run_session Messages.goes_on
  run_session-one bytes m w v read took at =
      decoded
      ∙ ap
          (λ o. elim o.0 [
            | Prelude.ok _ ↦
                if Messages.goes_on o.1.session.state
                then (Messages.exhausted, o.1)
                else (Messages.left, o.1)
            | Prelude.err e ↦ (Messages.left, o.1)
            | Prelude.panic ↦ (Messages.panicked, o.1)
          ])
          took
      ∙ ap (λ s. if Messages.goes_on s then (Messages.exhausted, v) else (Messages.left, v)) at
    where
      decoded : run_session (Messages.binary env bytes ∷ []) w ≡ (elim (handle_message env m w).0 [
        | Prelude.ok _ ↦
            if Messages.goes_on (handle_message env m w).1.session.state
            then (Messages.exhausted, (handle_message env m w).1)
            else (Messages.left, (handle_message env m w).1)
        | Prelude.err e ↦ (Messages.left, (handle_message env m w).1)
        | Prelude.panic ↦ (Messages.panicked, (handle_message env m w).1)
      ])
      decoded = rw (run_session, read) refl

  -- A frame that the session takes, and answers without ending.
  pub session_reacts-online :
      (bytes : List ℕ) (m : RdowsMessage) (w v : World) (replies : List RdowsMessage)
      → decode env.prof env.api bytes ≡ Prelude.ok m
      → handle_message env m w ≡ (Prelude.ok tt, v)
      → v.session.state ≡ Session.ready
      → v.sent ≡ w.sent ++ replies
      → session_reacts env bytes (online w) ≡ (none, online v, frames env.api replies)
  unfolding session_reacts goes_on
  session_reacts-online bytes m w v replies read took at sent =
      rw
        (
          session_reacts,
          run_session-one bytes m w v read took at,
          goes_on,
          sent,
          drop-append (length w.sent) w.sent replies refl,
        )
        refl
