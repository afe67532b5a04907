-- ===== src/Bytes/Api.antt =====
-- The functions of the crate `bytes` that the code calls, and what is documented of them.
use rdows.Prelude.{ℕ, ◌<◌, ◌≡◌, List, ◌++◌, Option, none, some, length, replicate}
use rdows.Bytes.Order.{to_be, from_be}

-- `none` is the panic of a read past the end.
pub record BufApi : Type 0 where
  pub put_u8 : ℕ → List ℕ → List ℕ
  pub put_u16 : ℕ → List ℕ → List ℕ
  pub put_u32 : ℕ → List ℕ → List ℕ
  pub put_u64 : ℕ → List ℕ → List ℕ
  pub put_bytes : ℕ → ℕ → List ℕ → List ℕ
  pub put_slice : List ℕ → List ℕ → List ℕ
  pub extend_from_slice : List ℕ → List ℕ → List ℕ
  pub len : List ℕ → ℕ
  pub remaining : List ℕ → ℕ
  pub get_u8 : List ℕ → Option (ℕ × List ℕ)
  pub get_u16 : List ℕ → Option (ℕ × List ℕ)
  pub get_u32 : List ℕ → Option (ℕ × List ℕ)
  pub get_u64 : List ℕ → Option (ℕ × List ℕ)
  pub advance : ℕ → List ℕ → Option (List ℕ)
  pub copy_to_bytes : ℕ → List ℕ → Option (List ℕ × List ℕ)

-- `Reads w get`: `get` takes a big-endian integer of `w` bytes off the front, and panics where
-- fewer are left.
pub record Reads (w : ℕ) (get : List ℕ → Option (ℕ × List ℕ)) : Type 0 where
  pub full : (bs rest : List ℕ) → length bs ≡ w → get (bs ++ rest) ≡ some (from_be bs, rest)
  pub short : (buf : List ℕ) → length buf < w → get buf ≡ none

pub record IsBufApi (api : BufApi) : Type 0 where
  pub u8_writes : (v : ℕ) (buf : List ℕ) → api.put_u8 v buf ≡ buf ++ to_be 1 v
  pub u16_writes : (v : ℕ) (buf : List ℕ) → api.put_u16 v buf ≡ buf ++ to_be 2 v
  pub u32_writes : (v : ℕ) (buf : List ℕ) → api.put_u32 v buf ≡ buf ++ to_be 4 v
  pub u64_writes : (v : ℕ) (buf : List ℕ) → api.put_u64 v buf ≡ buf ++ to_be 8 v
  pub bytes_writes : (v n : ℕ) (buf : List ℕ) → api.put_bytes v n buf ≡ buf ++ replicate n v
  pub slice_writes : (bs buf : List ℕ) → api.put_slice bs buf ≡ buf ++ bs
  pub extends : (bs buf : List ℕ) → api.extend_from_slice bs buf ≡ buf ++ bs
  pub measures : (buf : List ℕ) → api.len buf ≡ length buf
  pub counts : (buf : List ℕ) → api.remaining buf ≡ length buf
  pub u8_reads : Reads 1 api.get_u8
  pub u16_reads : Reads 2 api.get_u16
  pub u32_reads : Reads 4 api.get_u32
  pub u64_reads : Reads 8 api.get_u64
  pub advances : (bs rest : List ℕ) → api.advance (length bs) (bs ++ rest) ≡ some rest
  pub copies : (bs rest : List ℕ) → api.copy_to_bytes (length bs) (bs ++ rest) ≡ some (bs, rest)
  pub advance_short : (n : ℕ) (buf : List ℕ) → length buf < n → api.advance n buf ≡ none
  pub copy_short : (n : ℕ) (buf : List ℕ) → length buf < n → api.copy_to_bytes n buf ≡ none
