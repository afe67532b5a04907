-- ===== src/Core/Message/ReadReq.antt =====
-- READ_REQ payloads (crates/rdows-core/src/message.rs).
use rdows.Prelude.{ℕ, ◌≡◌, List, ◌++◌, length, arith, length-append}
use rdows.Bytes.{BufApi, IsBufApi, to_be, length-to_be}
use rdows.Bytes.Formats.{
  Encoder, Decoder, ◌⨟◌, ◌>>=◌, ◌>>◌, pure, read, Writes, Decodes, Safe, Writes-⨟, Safe-pure,
  Decodes->>=, Decodes-last,
}
use rdows.Core.Need.{IsU32, IsU64, need, Decodes-need, Safe-need}
use rdows.Core.Fields.{writes32, decodes32, safe32, writes64, decodes64, safe64}
use rdows.Core.Error.{RdowsError}

pub record ReadReqPayload : Type 0 where
  pub rkey : ℕ
  pub remote_va : ℕ
  pub read_len : ℕ
  pub local_lkey : ℕ
  pub local_va : ℕ

abbrev pub read_req_size : ℕ
read_req_size = 40

pub encode : BufApi → ReadReqPayload → Encoder
encode api p =
    api.put_u32 p.rkey
    ⨟ api.put_u32 0
    ⨟ api.put_u64 p.remote_va
    ⨟ api.put_u64 p.read_len
    ⨟ api.put_u32 p.local_lkey
    ⨟ api.put_u32 0
    ⨟ api.put_u64 p.local_va

pub decode : BufApi → Decoder RdowsError ReadReqPayload
decode api = do
  need api read_req_size
  rkey ← read api.get_u32
  reserved ← read api.get_u32
  remote_va ← read api.get_u64
  read_len ← read api.get_u64
  local_lkey ← read api.get_u32
  reserved2 ← read api.get_u32
  local_va ← read api.get_u64
  pure (record {
    rkey = rkey;
    remote_va = remote_va;
    read_len = read_len;
    local_lkey = local_lkey;
    local_va = local_va;
  })

-- The bytes of a payload.
unfoldable pub layout : ReadReqPayload → List ℕ
layout p =
    to_be 4 p.rkey
    ++ (to_be 4 0
        ++ (to_be 8 p.remote_va
            ++ (to_be 8 p.read_len ++ (to_be 4 p.local_lkey ++ (to_be 4 0 ++ to_be 8 p.local_va)))))

abbrev pub Fits : ReadReqPayload → Type 0
Fits p = IsU32 p.rkey × IsU64 p.remote_va × IsU64 p.read_len × IsU32 p.local_lkey × IsU64 p.local_va

pub length-layout : (p : ReadReqPayload) → length (layout p) ≡ 40
unfolding layout
length-layout p = simp (length-append, length-to_be)

module _ {api : BufApi} (laws : IsBufApi api) where
  pub encode-Writes : (p : ReadReqPayload) → Writes (encode api p) (layout p)
  unfolding encode layout
  encode-Writes p = search (Writes-⨟, writes32 laws, writes64 laws) depth 9

  pub decode-Decodes : (p : ReadReqPayload) → Fits p → Decodes (decode api) (layout p) p
  unfolding decode layout
  decode-Decodes p h = Decodes-need laws 40 (omega (arith, length-layout p)) (
      Decodes->>= _ (decodes32 laws h.0) (
        Decodes->>= _ (decodes32 laws (omega arith)) (
          Decodes->>= _ (decodes64 laws h.1) (
            Decodes->>= _ (decodes64 laws h.2) (
              Decodes->>= _ (decodes32 laws h.3) (
                Decodes->>= _ (decodes32 laws (omega arith))
                  (Decodes-last _ (decodes64 laws h.4))))))))

  pub decode-Safe : Safe 0 (decode api)
  unfolding decode
  decode-Safe = search (Safe-need laws, safe32 laws, safe64 laws, Safe-pure) depth 17
