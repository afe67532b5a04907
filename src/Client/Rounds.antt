-- ===== src/Client/Rounds.antt =====
-- The rounds of the loop in which the client waits for a message (crates/rdows-client/src/lib.rs, connection.rs).
use rdows.Prelude.{
  ℕ, suc, ◌+◌, ◌%◌, ◌^◌, ◌≤◌, ◌≡◌, refl, ap, ◌∙◌, List, [], ◌∷◌, Bool, true, false, Option, none,
  some, Result, add_uint, length, Bool-cases, inl, inr, arith,
}
use rdows.Prelude.Actions
use rdows.Prelude.Actions.{
  Outcome, ok, err, panic, waiting, from_result, if-true, if-false, bind-ok, bind-err, bind-panic,
  bind-waiting, this, ◌>>=◌, ◌>>◌, zoom, modify, pure, fail, lift,
}
use rdows.Core.Error.{RdowsError, protocol, err_seq_gap}
use rdows.Core.Message.{RdowsMessage, header, decode}
use rdows.Client.Wire.{Arrival, binary, close, other, failed, ended, Env, receive, recv_message}
use rdows.Client.Connection.{
  Client, is_gap, credits_of, on_wire, update, validate_remote_seq, add_credits, recv_loop,
}

-- Whether the stream is over: a close, an error, or its end has arrived.
pub is_over : List Arrival → Bool
is_over [] = false
is_over (binary bytes ∷ rest) = is_over rest
is_over (other ∷ rest) = is_over rest
is_over (close ∷ rest) = true
is_over (failed e ∷ rest) = true
is_over (ended ∷ rest) = true

module _ {N : Type 0} (env : Env N) where
  -- What `recv_message` makes of what has arrived.
  pub data Received (inbox : List Arrival) : Type 0 where
    nothing : receive env inbox ≡ (waiting, []) → is_over inbox ≡ false → Received inbox
    message :
        (r : Result RdowsError RdowsMessage) (rest : List Arrival)
        → receive env inbox ≡ (from_result r, rest)
        → suc (length rest) ≤ length inbox
        → is_over rest ≡ is_over inbox
        → Received inbox
    over :
        (e : RdowsError) (rest : List Arrival) → receive env inbox ≡ (err e, rest) → Received inbox

  pub receive-Received : (inbox : List Arrival) → Received inbox
  unfolding receive is_over
  receive-Received [] = nothing refl refl
  receive-Received (binary bytes ∷ rest) =
      message (decode env.prof env.api bytes) rest refl (omega arith) refl
  receive-Received (close ∷ rest) = over _ rest refl
  receive-Received (other ∷ rest) = elim (receive-Received rest) [
    | nothing e h ↦ nothing e h
    | message r later e short same ↦ message r later e (omega (arith, short)) same
    | over e later h ↦ over e later h
  ]
  receive-Received (failed e ∷ rest) = over _ rest refl
  receive-Received (ended ∷ rest) = over _ rest refl

  -- A round of `recv_loop`: it ends the loop, or takes an arrival.
  pub data Round (c : Client N) : Type 0 where
    stops :
        (o : Outcome RdowsError RdowsMessage) (d : Client N)
        → ((fuel : ℕ) → recv_loop env (suc fuel) c ≡ (o, d))
        → (o ≡ waiting → (d.wire.inbox ≡ []) × (is_over c.wire.inbox ≡ false))
        → Round c
    goes_on :
        (d : Client N)
        → ((fuel : ℕ) → recv_loop env (suc fuel) c ≡ recv_loop env fuel d)
        → suc (length d.wire.inbox) ≤ length c.wire.inbox
        → is_over d.wire.inbox ≡ is_over c.wire.inbox
        → Round c

  abbrev pub taken : List Arrival → Client N → Client N
  taken rest c = record c { wire = record c.wire { inbox = rest } }

  pub recv_message-taken :
      (c : Client N) (o : Outcome RdowsError RdowsMessage) (rest : List Arrival)
      → receive env c.wire.inbox ≡ (o, rest)
      → on_wire (recv_message env) c ≡ (o, taken rest c)
  unfolding on_wire zoom recv_message
  recv_message-taken c o rest e = rw (on_wire, zoom, recv_message, e) refl

  -- The rest of a round, when a message is there.
  pub rest_of : ℕ → RdowsMessage → Actions.Action RdowsError (Client N) RdowsMessage
  rest_of fuel m = do
    validate_remote_seq m
    elim (credits_of m) [ some n ↦ (add_credits env n >> recv_loop env fuel) | none ↦ pure m ]

  -- The client when the number of the message was the one that is due.
  abbrev pub numbered : RdowsMessage → Client N → Client N
  numbered m c = record c {
    conn = record c.conn { expected_remote_seq = some (((header m).sequence + 1) % 2 ^ 32) };
  }

  credited : ℕ → Client N → Client N
  credited n c = record c { conn = record c.conn { send_credits = n } }

  pub recv_loop-rest_of :
      (fuel : ℕ) (c d : Client N) (m : RdowsMessage)
      → on_wire (recv_message env) c ≡ (ok m, d)
      → recv_loop env (suc fuel) c ≡ rest_of fuel m d
  unfolding recv_loop rest_of
  recv_loop-rest_of fuel c d m e = bind-ok (on_wire (recv_message env)) _ e

  pub validate_remote_seq-gap :
      (m : RdowsMessage) (d : Client N)
      → is_gap d.conn.expected_remote_seq (header m).sequence ≡ true
      → validate_remote_seq m d ≡ (err (protocol err_seq_gap), d)
  unfolding validate_remote_seq ◌>>=◌ this fail
  validate_remote_seq-gap m d e = if-true _ _ d e

  pub validate_remote_seq-numbered :
      (m : RdowsMessage) (d : Client N)
      → is_gap d.conn.expected_remote_seq (header m).sequence ≡ false
      → validate_remote_seq m d ≡ (ok tt, numbered m d)
  unfolding validate_remote_seq ◌>>=◌ this update modify
  validate_remote_seq-numbered m d e = if-false _ _ d e

  pub add_credits-sum :
      (n : ℕ) (d : Client N) (r : Result RdowsError ℕ)
      → add_uint env.prof 32 d.conn.send_credits n ≡ r
      → add_credits env n d ≡ (lift r >>= λ sum. update (λ k. record k { send_credits = sum })) d
  unfolding add_credits ◌>>=◌ this
  add_credits-sum n d r e =
      ap (λ r. (lift r >>= λ sum. update (λ k. record k { send_credits = sum })) d) e

  -- What follows a message with the right number.
  unfoldable pub by_credits :
      ℕ → RdowsMessage → Option ℕ → Actions.Action RdowsError (Client N) RdowsMessage
  by_credits fuel m o = elim o [
    | some n ↦ (add_credits env n >> recv_loop env fuel)
    | none ↦ pure m
  ]

  pub rest_of-by_credits :
      (fuel : ℕ) (m : RdowsMessage) (d : Client N) {o : Option ℕ}
      → is_gap d.conn.expected_remote_seq (header m).sequence ≡ false
      → credits_of m ≡ o
      → rest_of fuel m d ≡ by_credits fuel m o (numbered m d)
  unfolding rest_of ◌>>◌ by_credits
  rest_of-by_credits fuel m d e e' =
      bind-ok (validate_remote_seq m) (λ _. by_credits fuel m (credits_of m))
        (validate_remote_seq-numbered m d e)
      ∙ ap (λ o. by_credits fuel m o (numbered m d)) e'

  rest_of-gap :
      (fuel : ℕ) (m : RdowsMessage) (d : Client N)
      → is_gap d.conn.expected_remote_seq (header m).sequence ≡ true
      → rest_of fuel m d ≡ (err (protocol err_seq_gap), d)
  unfolding rest_of ◌>>◌ by_credits
  rest_of-gap fuel m d e =
      bind-err (validate_remote_seq m) (λ _. by_credits fuel m (credits_of m))
        (validate_remote_seq-gap m d e)

  by_credits-ok :
      (fuel : ℕ) (m : RdowsMessage) (d : Client N) (n sum : ℕ)
      → add_uint {E = RdowsError} env.prof 32 d.conn.send_credits n ≡ Result.ok sum
      → by_credits fuel m (some n) d ≡ recv_loop env fuel (credited sum d)
  unfolding by_credits ◌>>◌ ◌>>=◌ lift update modify credited
  by_credits-ok fuel m d n sum e =
      bind-ok (add_credits env n) (λ _. recv_loop env fuel) (add_credits-sum n d (Result.ok sum) e)

  by_credits-err :
      (fuel : ℕ) (m : RdowsMessage) (d : Client N) (n : ℕ) (x : RdowsError)
      → add_uint {E = RdowsError} env.prof 32 d.conn.send_credits n ≡ Result.err x
      → by_credits fuel m (some n) d ≡ (err x, d)
  unfolding by_credits ◌>>◌ ◌>>=◌ lift
  by_credits-err fuel m d n x e =
      bind-err (add_credits env n) (λ _. recv_loop env fuel) (add_credits-sum n d (Result.err x) e)

  by_credits-panic :
      (fuel : ℕ) (m : RdowsMessage) (d : Client N) (n : ℕ)
      → add_uint {E = RdowsError} env.prof 32 d.conn.send_credits n ≡ Result.panic
      → by_credits fuel m (some n) d ≡ (panic, d)
  unfolding by_credits ◌>>◌ ◌>>=◌ lift
  by_credits-panic fuel m d n e =
      bind-panic (add_credits env n) (λ _. recv_loop env fuel) (add_credits-sum n d Result.panic e)

  credits-Round :
      (c d : Client N) (m : RdowsMessage) (n : ℕ) (r : Result RdowsError ℕ)
      → ((fuel : ℕ) → recv_loop env (suc fuel) c ≡ by_credits fuel m (some n) d)
      → add_uint env.prof 32 d.conn.send_credits n ≡ r
      → suc (length d.wire.inbox) ≤ length c.wire.inbox
      → is_over d.wire.inbox ≡ is_over c.wire.inbox
      → Round c
  unfolding credited
  credits-Round c d m n (Result.ok sum) h e short same =
      goes_on (credited sum d) (λ fuel. h fuel ∙ by_credits-ok fuel m d n sum e) short same
  credits-Round c d m n (Result.err x) h e short same =
      stops (err x) d (λ fuel. h fuel ∙ by_credits-err fuel m d n x e) (λ ends. cc ends)
  credits-Round c d m n Result.panic h e short same =
      stops panic d (λ fuel. h fuel ∙ by_credits-panic fuel m d n e) (λ ends. cc ends)

  option-Round :
      (c d : Client N) (m : RdowsMessage) (o : Option ℕ)
      → ((fuel : ℕ) → recv_loop env (suc fuel) c ≡ by_credits fuel m o d)
      → suc (length d.wire.inbox) ≤ length c.wire.inbox
      → is_over d.wire.inbox ≡ is_over c.wire.inbox
      → Round c
  unfolding by_credits pure
  option-Round c d m none h short same = stops (ok m) d h (λ ends. cc ends)
  option-Round c d m (some n) h short same = credits-Round c d m n _ h refl short same

  message-Round :
      (c d : Client N) (m : RdowsMessage)
      → on_wire (recv_message env) c ≡ (ok m, d)
      → suc (length d.wire.inbox) ≤ length c.wire.inbox
      → is_over d.wire.inbox ≡ is_over c.wire.inbox
      → Round c
  message-Round c d m e short same =
      elim (Bool-cases (is_gap d.conn.expected_remote_seq (header m).sequence)) [
        | inl gap ↦
            stops (err (protocol err_seq_gap)) d
              (λ fuel. recv_loop-rest_of fuel c d m e ∙ rest_of-gap fuel m d gap) (λ ends. cc ends)
        | inr due ↦
            option-Round c (numbered m d) m (credits_of m)
              (λ fuel. recv_loop-rest_of fuel c d m e ∙ rest_of-by_credits fuel m d due refl) short
              same
      ]

  recv_loop-err :
      (fuel : ℕ) (c d : Client N) (x : RdowsError)
      → on_wire (recv_message env) c ≡ (err x, d)
      → recv_loop env (suc fuel) c ≡ (err x, d)
  unfolding recv_loop
  recv_loop-err fuel c d x e = bind-err (on_wire (recv_message env)) _ e

  recv_loop-panic :
      (fuel : ℕ) (c d : Client N)
      → on_wire (recv_message env) c ≡ (panic, d)
      → recv_loop env (suc fuel) c ≡ (panic, d)
  unfolding recv_loop
  recv_loop-panic fuel c d e = bind-panic (on_wire (recv_message env)) _ e

  recv_loop-waits :
      (fuel : ℕ) (c d : Client N)
      → on_wire (recv_message env) c ≡ (waiting, d)
      → recv_loop env (suc fuel) c ≡ (waiting, d)
  unfolding recv_loop
  recv_loop-waits fuel c d e = bind-waiting (on_wire (recv_message env)) _ e

  pub every-Round : (c : Client N) → Round c
  every-Round c = elim (receive-Received c.wire.inbox) [
    | nothing e none_left ↦
        stops waiting (taken [] c)
          (λ fuel. recv_loop-waits fuel c (taken [] c) (recv_message-taken c waiting [] e))
          (λ _. (refl, none_left))
    | message (Result.ok m) rest e short same ↦
        message-Round c (taken rest c) m (recv_message-taken c (ok m) rest e) short same
    | message (Result.err x) rest e short same ↦
        stops (err x) (taken rest c)
          (λ fuel. recv_loop-err fuel c (taken rest c) x (recv_message-taken c (err x) rest e))
          (λ ends. cc ends)
    | message Result.panic rest e short same ↦
        stops panic (taken rest c)
          (λ fuel. recv_loop-panic fuel c (taken rest c) (recv_message-taken c panic rest e))
          (λ ends. cc ends)
    | over x rest e ↦
        stops (err x) (taken rest c)
          (λ fuel. recv_loop-err fuel c (taken rest c) x (recv_message-taken c (err x) rest e))
          (λ ends. cc ends)
  ]
