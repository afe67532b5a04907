-- ===== src/Core/Message/AtomicReq.antt =====
-- ATOMIC_REQ payloads (crates/rdows-core/src/message.rs).
use rdows.Prelude.{ℕ, ◌≡◌, List, ◌++◌, length, arith, length-append, replicate}
use rdows.Bytes.{BufApi, IsBufApi, to_be, length-to_be}
use rdows.Bytes.Formats.{
  Encoder, Decoder, ◌⨟◌, ◌>>=◌, ◌>>◌, pure, read, Writes, Decodes, Safe, Writes-⨟, Safe-pure, jump,
  Decodes->>=, Decodes-last, Decodes->>,
}
use rdows.Core.Need.{IsU32, IsU64, IsU8, need, Decodes-need, Safe-need}
use rdows.Core.Fields.{
  writes8, decodes8, safe8, writes32, decodes32, safe32, writes64, decodes64, safe64, zeros, pad,
  Safe-pad,
}
use rdows.Core.Error.{RdowsError}

pub record AtomicReqPayload : Type 0 where
  pub rkey : ℕ
  pub atomic_type : ℕ
  pub remote_va : ℕ
  pub operand1 : ℕ
  pub operand2 : ℕ

abbrev pub atomic_req_size : ℕ
atomic_req_size = 32

pub encode : BufApi → AtomicReqPayload → Encoder
encode api p =
    api.put_u32 p.rkey
    ⨟ api.put_u8 p.atomic_type
    ⨟ api.put_bytes 0 3
    ⨟ api.put_u64 p.remote_va
    ⨟ api.put_u64 p.operand1
    ⨟ api.put_u64 p.operand2

pub decode : BufApi → Decoder RdowsError AtomicReqPayload
decode api = do
  need api atomic_req_size
  rkey ← read api.get_u32
  atomic_type ← read api.get_u8
  jump (api.advance 3)
  remote_va ← read api.get_u64
  operand1 ← read api.get_u64
  operand2 ← read api.get_u64
  pure (record {
    rkey = rkey;
    atomic_type = atomic_type;
    remote_va = remote_va;
    operand1 = operand1;
    operand2 = operand2;
  })

-- The bytes of a payload.
unfoldable pub layout : AtomicReqPayload → List ℕ
layout p =
    to_be 4 p.rkey
    ++ (to_be 1 p.atomic_type
        ++ (replicate 3 0 ++ (to_be 8 p.remote_va ++ (to_be 8 p.operand1 ++ to_be 8 p.operand2))))

abbrev pub Fits : AtomicReqPayload → Type 0
Fits p = IsU32 p.rkey × IsU8 p.atomic_type × IsU64 p.remote_va × IsU64 p.operand1 × IsU64 p.operand2

pub length-layout : (p : AtomicReqPayload) → length (layout p) ≡ 32
unfolding layout
length-layout p = simp (length-append, length-to_be)

module _ {api : BufApi} (laws : IsBufApi api) where
  pub encode-Writes : (p : AtomicReqPayload) → Writes (encode api p) (layout p)
  unfolding encode layout
  encode-Writes p =
      search (Writes-⨟, writes8 laws, writes32 laws, writes64 laws, zeros laws) depth 8

  pub decode-Decodes : (p : AtomicReqPayload) → Fits p → Decodes (decode api) (layout p) p
  unfolding decode layout
  decode-Decodes p h = Decodes-need laws 32 (omega (arith, length-layout p)) (
      Decodes->>= _ (decodes32 laws h.0) (
        Decodes->>= _ (decodes8 laws h.1) (
          Decodes->> (pad laws 3) (
            Decodes->>= _ (decodes64 laws h.2)
              (Decodes->>= _ (decodes64 laws h.3) (Decodes-last _ (decodes64 laws h.4)))))))

  pub decode-Safe : Safe 0 (decode api)
  unfolding decode
  decode-Safe =
      search (Safe-need laws, safe8 laws, safe32 laws, safe64 laws, Safe-pad laws, Safe-pure) depth
        15
