-- ===== src/Core/Need.antt =====
-- The test with which each `decode` of a payload begins, and the widths of the integers.
use rdows.Prelude.{
  ℕ, ◌≤◌, ◌<◌, ◌^◌, ◌≡◌, List, ◌++◌, length, length-append, ok, err, arith, ltb, if◌then◌else◌,
  le→ltb_false, lt→ltb, Bool-cases, inl, inr,
}
use rdows.Bytes.{BufApi, IsBufApi}
use rdows.Bytes.Formats.{Decoder, ◌>>◌, ◌>>=◌, Decodes, Safe}
use rdows.Core.Error.{RdowsError, payload_too_short}

abbrev pub IsU8 : ℕ → Type 0
IsU8 v = v < 2 ^ 8

abbrev pub IsU16 : ℕ → Type 0
IsU16 v = v < 2 ^ 16

abbrev pub IsU32 : ℕ → Type 0
IsU32 v = v < 2 ^ 32

abbrev pub IsU64 : ℕ → Type 0
IsU64 v = v < 2 ^ 64

-- `if buf.remaining() < n { return Err(e(buf.remaining())) }`
unfoldable pub need_or : BufApi → ℕ → (ℕ → RdowsError) → Decoder RdowsError (Unit {0})
need_or api n e buf =
    if ltb (api.remaining buf) n then err (e (api.remaining buf)) else ok (tt, buf)

unfoldable pub need : BufApi → ℕ → Decoder RdowsError (Unit {0})
need api n = need_or api n (payload_too_short n)

module _ {api : BufApi} (laws : IsBufApi api) where
  need_or_enough :
      (n : ℕ) (e : ℕ → RdowsError) (buf : List ℕ)
      → n ≤ length buf
      → need_or api n e buf ≡ ok (tt, buf)
  unfolding need_or
  need_or_enough n e buf h = rw (laws.counts buf) (rw (le→ltb_false (length buf) n h))

  pub need_or_short :
      (n : ℕ) (e : ℕ → RdowsError) (buf : List ℕ)
      → length buf < n
      → need_or api n e buf ≡ err (e (length buf))
  unfolding need_or
  need_or_short n e buf h = rw (laws.counts buf) (rw (lt→ltb (length buf) n h))

module _ {api : BufApi} (laws : IsBufApi api) {A : Type 0} where
  pub Decodes-need_or :
      (n : ℕ) (e : ℕ → RdowsError) {k : Decoder RdowsError A} {bs : List ℕ} {a : A}
      → n ≤ length bs
      → Decodes k bs a
      → Decodes (need_or api n e >> k) bs a
  unfolding ◌>>◌
  Decodes-need_or n e {k} {bs} h d = record {
    run = λ rest.
        rw (need_or_enough laws n e (bs ++ rest) (omega (arith, length-append {0} bs rest)), ◌>>=◌)
          (d.run rest);
  }

  pub Decodes-need :
      (n : ℕ) {k : Decoder RdowsError A} {bs : List ℕ} {a : A}
      → n ≤ length bs
      → Decodes k bs a
      → Decodes (need api n >> k) bs a
  unfolding need
  Decodes-need n = Decodes-need_or n (payload_too_short n)

  -- After the test `n` bytes are there.
  pub Safe-need_or :
      (n : ℕ) (e : ℕ → RdowsError) {k : Decoder RdowsError A}
      → Safe n k
      → Safe 0 (need_or api n e >> k)
  unfolding ◌>>◌
  Safe-need_or n e s = record {
    run = λ buf h. elim (Bool-cases (ltb (length buf) n)) [
      | inl few ↦ rw (need_or_short laws n e buf (ground arith), ◌>>=◌) (λ p. cc)
      | inr enough ↦
          let room : n ≤ length buf = ground arith in
          rw (need_or_enough laws n e buf room, ◌>>=◌) (s.run buf room)
    ];
  }

  pub Safe-need : (n : ℕ) {k : Decoder RdowsError A} → Safe n k → Safe 0 (need api n >> k)
  unfolding need
  Safe-need n = Safe-need_or n (payload_too_short n)

  -- A buffer that is too short is refused, with both lengths in the error.
  pub need_short :
      (n : ℕ) (k : Decoder RdowsError A) (buf : List ℕ)
      → length buf < n
      → (need api n >> k) buf ≡ err (payload_too_short n (length buf))
  unfolding need ◌>>◌
  need_short n k buf h = rw (need_or_short laws n (payload_too_short n) buf h, ◌>>=◌)

  pub run-need :
      (n : ℕ) (k : Decoder RdowsError A) (buf : List ℕ)
      → n ≤ length buf
      → (need api n >> k) buf ≡ k buf
  unfolding need ◌>>◌
  run-need n k buf h = rw (need_or_enough laws n (payload_too_short n) buf h, ◌>>=◌)
