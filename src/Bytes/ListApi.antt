-- ===== src/Bytes/ListApi.antt =====
-- The buffer functions written out on lists: the documented behaviour can be met.
use rdows.Prelude.{
  ℕ, ◌<◌, ◌≡◌, refl, List, ◌++◌, Option, none, some, length, take, drop, replicate, arith, ltb,
  if◌then◌else◌, lt→ltb, le→ltb_false, length-append, take-append, drop-append, ap,
}
use rdows.Bytes.Order.{to_be, from_be}
use rdows.Bytes.Api.{BufApi, Reads, IsBufApi}

unfoldable pub split_at : ℕ → List ℕ → Option (List ℕ × List ℕ)
split_at n buf = if ltb (length buf) n then none else some (take n buf, drop n buf)

split_at-append :
    (n : ℕ) (bs rest : List ℕ) → length bs ≡ n → split_at n (bs ++ rest) ≡ some (bs, rest)
unfolding split_at
split_at-append n bs rest h = rw (
  le→ltb_false (length (bs ++ rest)) n (omega (arith, length-append {0} bs rest)),
  take-append n bs rest h,
  drop-append n bs rest h,
)

split_at_short : (n : ℕ) (buf : List ℕ) → length buf < n → split_at n buf ≡ none
unfolding split_at
split_at_short n buf h = rw (lt→ltb _ _ h)

unfoldable pub get_from : Option (List ℕ × List ℕ) → Option (ℕ × List ℕ)
get_from none = none
get_from (some (bs, rest)) = some (from_be bs, rest)

unfoldable pub rest_of : Option (List ℕ × List ℕ) → Option (List ℕ)
rest_of none = none
rest_of (some (bs, rest)) = some rest

abbrev pub list_api : BufApi
list_api = record {
  put_u8 = λ v buf. buf ++ to_be 1 v;
  put_u16 = λ v buf. buf ++ to_be 2 v;
  put_u32 = λ v buf. buf ++ to_be 4 v;
  put_u64 = λ v buf. buf ++ to_be 8 v;
  put_bytes = λ v n buf. buf ++ replicate n v;
  put_slice = λ bs buf. buf ++ bs;
  extend_from_slice = λ bs buf. buf ++ bs;
  len = length;
  remaining = length;
  get_u8 = λ buf. get_from (split_at 1 buf);
  get_u16 = λ buf. get_from (split_at 2 buf);
  get_u32 = λ buf. get_from (split_at 4 buf);
  get_u64 = λ buf. get_from (split_at 8 buf);
  advance = λ n buf. rest_of (split_at n buf);
  copy_to_bytes = split_at;
}

get_from-Reads : (w : ℕ) → Reads w (λ buf. get_from (split_at w buf))
unfolding get_from
get_from-Reads w = record {
  full = λ bs rest h. ap get_from (split_at-append w bs rest h);
  short = λ buf h. ap get_from (split_at_short w buf h);
}

pub list_api-IsBufApi : IsBufApi list_api
unfolding rest_of
list_api-IsBufApi = record {
  u8_writes = λ v buf. refl;
  u16_writes = λ v buf. refl;
  u32_writes = λ v buf. refl;
  u64_writes = λ v buf. refl;
  bytes_writes = λ v n buf. refl;
  slice_writes = λ bs buf. refl;
  extends = λ bs buf. refl;
  measures = λ buf. refl;
  counts = λ buf. refl;
  u8_reads = get_from-Reads 1;
  u16_reads = get_from-Reads 2;
  u32_reads = get_from-Reads 4;
  u64_reads = get_from-Reads 8;
  advances = λ bs rest. ap rest_of (split_at-append (length bs) bs rest refl);
  copies = λ bs rest. split_at-append (length bs) bs rest refl;
  advance_short = λ n buf h. ap rest_of (split_at_short n buf h);
  copy_short = split_at_short;
}
