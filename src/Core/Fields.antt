-- ===== src/Core/Fields.antt =====
-- The judgements of Bytes.Formats for one integer field, by its width.
use rdows.Prelude.{ℕ, ◌++◌, ap, ◌∙◌, sym, replicate, length-replicate}
use rdows.Bytes.{BufApi, IsBufApi, to_be, from_be}
use rdows.Bytes.Formats.{
  Decoder, read, jump, ◌>>=◌, ◌>>◌, Decodes-jump, Safe-jump, run-read, Writes, Decodes, Safe,
  Decodes-read, Safe-read,
}
use rdows.Prelude.{
  List, ◌≤◌, some, length, take, drop, length-take, length-drop, take-append-drop, ◌-◌, leb, ◌≡◌,
  true, arith,
}
use rdows.Core.Need.{IsU8, IsU16, IsU32, IsU64}
use rdows.Core.Error.{RdowsError}

module _ {api : BufApi} (laws : IsBufApi api) where
  pub writes8 : (v : ℕ) → Writes (api.put_u8 v) (to_be 1 v)
  writes8 v = record { run = laws.u8_writes v }

  pub writes16 : (v : ℕ) → Writes (api.put_u16 v) (to_be 2 v)
  writes16 v = record { run = laws.u16_writes v }

  pub writes32 : (v : ℕ) → Writes (api.put_u32 v) (to_be 4 v)
  writes32 v = record { run = laws.u32_writes v }

  pub writes64 : (v : ℕ) → Writes (api.put_u64 v) (to_be 8 v)
  writes64 v = record { run = laws.u64_writes v }

  pub decodes8 : {v : ℕ} → IsU8 v → Decodes {E = RdowsError} (read api.get_u8) (to_be 1 v) v
  decodes8 = Decodes-read 1 laws.u8_reads

  pub decodes16 : {v : ℕ} → IsU16 v → Decodes {E = RdowsError} (read api.get_u16) (to_be 2 v) v
  decodes16 = Decodes-read 2 laws.u16_reads

  pub decodes32 : {v : ℕ} → IsU32 v → Decodes {E = RdowsError} (read api.get_u32) (to_be 4 v) v
  decodes32 = Decodes-read 4 laws.u32_reads

  pub decodes64 : {v : ℕ} → IsU64 v → Decodes {E = RdowsError} (read api.get_u64) (to_be 8 v) v
  decodes64 = Decodes-read 8 laws.u64_reads

  pub Writes-slice : (bs : List ℕ) → Writes (api.put_slice bs) bs
  Writes-slice bs = record { run = laws.slice_writes bs }

  pub copy_run :
      (n : ℕ) (buf : List ℕ)
      → n ≤ length buf
      → api.copy_to_bytes n buf ≡ some (take n buf, drop n buf)
  copy_run n buf h =
      ap (api.copy_to_bytes n) (sym (take-append-drop n buf))
      ∙ ap (λ (k : ℕ). api.copy_to_bytes k (take n buf ++ drop n buf))
          (omega (arith, length-take {0} n buf))
      ∙ laws.copies (take n buf) (drop n buf)

  pub Safe-copy :
      {A : Type 0} {k : ℕ} (n : ℕ) {f : List ℕ → Decoder RdowsError A}
      → n ≤ k
      → ((bs : List ℕ) → Safe (k - n) (f bs))
      → Safe k (read (api.copy_to_bytes n) >>= f)
  unfolding ◌>>=◌ read
  Safe-copy n fits s = record {
    run = λ buf h.
        rw (copy_run n buf (omega arith), read, ◌>>=◌)
          ((s (take n buf)).run (drop n buf) (omega (arith, length-drop {0} n buf)));
  }

  -- Reserved bytes: written as zeros, and skipped.
  pub zeros : (n : ℕ) → Writes (api.put_bytes 0 n) (replicate n 0)
  zeros n = record { run = laws.bytes_writes 0 n }

  pub pad : (n : ℕ) → Decodes {E = RdowsError} (jump (api.advance n)) (replicate n 0) tt
  pad n = Decodes-jump (api.advance n) λ rest.
      ap (λ (m : ℕ). api.advance m (replicate n 0 ++ rest)) (sym (length-replicate {0} n 0))
      ∙ laws.advances (replicate n 0) rest

  pub Safe-pad :
      {A : Type 0} {k : ℕ} (n : ℕ) {d : Decoder RdowsError A}
      → leb n k ≡ true
      → Safe (k - n) d
      → Safe k (jump (api.advance n) >> d)
  Safe-pad n h s = Safe-jump n api.advance laws.advances (ground arith) s

  module _ {A : Type 0} {n : ℕ} {f : ℕ → Decoder RdowsError A} where
    pub safe8 : leb 1 n ≡ true → ((v : ℕ) → Safe (n - 1) (f v)) → Safe n (read api.get_u8 >>= f)
    safe8 h = Safe-read 1 laws.u8_reads (ground arith)

    pub safe16 : leb 2 n ≡ true → ((v : ℕ) → Safe (n - 2) (f v)) → Safe n (read api.get_u16 >>= f)
    safe16 h = Safe-read 2 laws.u16_reads (ground arith)

    pub safe32 : leb 4 n ≡ true → ((v : ℕ) → Safe (n - 4) (f v)) → Safe n (read api.get_u32 >>= f)
    safe32 h = Safe-read 4 laws.u32_reads (ground arith)

    pub safe64 : leb 8 n ≡ true → ((v : ℕ) → Safe (n - 8) (f v)) → Safe n (read api.get_u64 >>= f)
    safe64 h = Safe-read 8 laws.u64_reads (ground arith)

  module _ {A : Type 0} (f : ℕ → Decoder RdowsError A) (buf : List ℕ) where
    pub run32 :
        4 ≤ length buf → (read api.get_u32 >>= f) buf ≡ f (from_be (take 4 buf)) (drop 4 buf)
    run32 = run-read 4 f buf laws.u32_reads

    pub run64 :
        8 ≤ length buf → (read api.get_u64 >>= f) buf ≡ f (from_be (take 8 buf)) (drop 8 buf)
    run64 = run-read 8 f buf laws.u64_reads
