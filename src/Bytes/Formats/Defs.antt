-- ===== src/Bytes/Formats/Defs.antt =====
-- `buf: &mut BytesMut` of an encoder and `buf: &mut impl Buf` of a decoder as passed state.
use rdows.Prelude.{ℕ, List, ◌++◌, ◌≡◌, ◌≢◌, ◌≤◌, Option, none, some, Result, ok, err, panic, length}

abbrev pub Encoder : Type 0
Encoder = List ℕ → List ℕ

-- One write after the other.
infixr 6 ◌⨟◌
unfoldable pub ◌⨟◌ : Encoder → Encoder → Encoder
(e ⨟ f) buf = f (e buf)

-- Code that writes nothing.
unfoldable pub skip : Encoder
skip buf = buf

abbrev pub Decoder : Type 0 → Type 0 → Type 0
Decoder E A = List ℕ → Result E (A × List ℕ)

module _ {E : Type 0} {A : Type 0} where
  infixl 5 ◌>>=◌ ◌>>◌
  unfoldable pub pure : A → Decoder E A
  pure a buf = ok (a, buf)

  unfoldable pub fail : E → Decoder E A
  fail e buf = err e

  -- A read that panics past the end of the buffer.
  unfoldable pub read : (List ℕ → Option (A × List ℕ)) → Decoder E A
  read get buf = elim (get buf) [ none ↦ panic | some (a, rest) ↦ ok (a, rest) ]

  unfoldable pub ◌>>=◌ : {B : Type 0} → Decoder E A → (A → Decoder E B) → Decoder E B
  ◌>>=◌ m f buf = elim (m buf) [ ok (a, rest) ↦ f a rest | err e ↦ err e | panic ↦ panic ]

  unfoldable pub ◌>>◌ : {B : Type 0} → Decoder E A → Decoder E B → Decoder E B
  unfolding ◌>>=◌
  m >> k = m >>= λ _. k

  -- A length of the buffer that the code looks at before it goes on.
  unfoldable pub peek : (List ℕ → A) → Decoder E A
  peek f buf = ok (f buf, buf)

  -- A computation that reads nothing.
  unfoldable pub lift : Result E A → Decoder E A
  lift r buf = elim r [ ok a ↦ ok (a, buf) | err e ↦ err e | panic ↦ panic ]

-- `advance`, which returns nothing.
unfoldable pub jump : {E : Type 0} → (List ℕ → Option (List ℕ)) → Decoder E (Unit {0})
jump adv buf = elim (adv buf) [ none ↦ panic | some rest ↦ ok (tt, rest) ]

-- `Writes e bs`: the encoder appends the bytes `bs`.
pub record Writes (e : Encoder) (bs : List ℕ) : Type 0 where
  pub run : (buf : List ℕ) → e buf ≡ buf ++ bs

-- `Decodes d bs a`: on `bs` and anything behind it the decoder takes `bs` and returns `a`.
pub record Decodes {E A : Type 0} (d : Decoder E A) (bs : List ℕ) (a : A) : Type 0 where
  pub run : (rest : List ℕ) → d (bs ++ rest) ≡ ok (a, rest)

-- `Safe n d`: the decoder does not panic where `n` bytes are left.
pub record Safe {E A : Type 0} (n : ℕ) (d : Decoder E A) : Type 0 where
  pub run : (buf : List ℕ) → n ≤ length buf → d buf ≢ panic
