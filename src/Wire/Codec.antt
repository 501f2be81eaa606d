-- ===== src/Wire/Codec.antt =====
-- The layout of the messages of include/hft/protocol/wire.h, and reading them back.
use low_latency_trading_pipe.Base.{
  ℕ, ◌+◌, ◌*◌, ◌^◌, ◌<◌, ◌≡◌, refl, List, [], ◌∷◌, ◌++◌, arith, length, take, drop, AllBytes,
  AllBytes-byte, expand, byte,
}
use low_latency_trading_pipe.Wire.{
  WireOrder, WireAck, order_size, ack_size, encode_order, decode_order, encode_ack, le16, le32,
  le64, get16, get32, get64,
}

-- The fields are within their machine types.
pub record IsWireOrder (o : WireOrder) : Type 0 where
  pub msg_type_byte : o.msg_type < 2 ^ 8
  pub side_byte : o.side < 2 ^ 8
  pub symbol_id_word : o.symbol_id < 2 ^ 16
  pub qty_word : o.qty < 2 ^ 32
  pub price_word : o.price < 2 ^ 32
  pub pad0_word : o.pad0 < 2 ^ 32
  pub seq_word : o.seq < 2 ^ 64
  pub ts_word : o.ts < 2 ^ 64
  pub checksum_word : o.checksum < 2 ^ 16
  pub pad1_word : o.pad1 < 2 ^ 16

-- An order with fields in their types is read back from its bytes.
pub decode-encode_order : (o : WireOrder) → IsWireOrder o → decode_order (encode_order o) ≡ o
unfolding decode_order encode_order
decode-encode_order o v = ground arith

pub length-encode_order : (o : WireOrder) → length (encode_order o) ≡ order_size
unfolding encode_order
length-encode_order o = refl

pub length-encode_ack : (a : WireAck) → length (encode_ack a) ≡ ack_size
unfolding encode_ack
length-encode_ack a = refl

pub encode_order-AllBytes : (o : WireOrder) → IsWireOrder o → AllBytes (encode_order o)
unfolding encode_order
encode_order-AllBytes o v = ground arith

pub take-encode_order :
    (o : WireOrder) (rest : List ℕ) → take order_size (encode_order o ++ rest) ≡ encode_order o
unfolding encode_order
take-encode_order o rest = refl

pub drop-encode_order :
    (o : WireOrder) (rest : List ℕ) → drop order_size (encode_order o ++ rest) ≡ rest
unfolding encode_order
drop-encode_order o rest = refl

le16-get16 : (x y : ℕ) → x < 256 → y < 256 → le16 (x + y * 2 ^ 8) ≡ x ∷ y ∷ []
le16-get16 x y h k = ground arith

le32-get32 :
    (a b c d : ℕ)
    → a < 256
    → b < 256
    → c < 256
    → d < 256
    → le32 (a + b * 2 ^ 8 + c * 2 ^ 16 + d * 2 ^ 24) ≡ a ∷ b ∷ c ∷ d ∷ []
le32-get32 a b c d h k l m = ground arith

le64-halves : (lo hi : ℕ) → lo < 2 ^ 32 → hi < 2 ^ 32 → le64 (lo + hi * 2 ^ 32) ≡ le32 lo ++ le32 hi
le64-halves lo hi h k = ground arith

module _ (b : List ℕ) (h : AllBytes b) where
  at : (i : ℕ) → byte b i < 256
  at i = AllBytes-byte b i h

  field16 : (i : ℕ) → le16 (get16 b i) ≡ byte b i ∷ byte b (i + 1) ∷ []
  field16 i = le16-get16 (byte b i) (byte b (i + 1)) (at i) (at (i + 1))

  field32 :
      (i : ℕ) → le32 (get32 b i) ≡ byte b i ∷ byte b (i + 1) ∷ byte b (i + 2) ∷ byte b (i + 3) ∷ []
  field32 i = le32-get32 _ _ _ _ (at i) (at (i + 1)) (at (i + 2)) (at (i + 3))

  field64 : (i : ℕ) → le64 (get64 b i) ≡ le32 (get32 b i) ++ le32 (get32 b (i + 4))
  field64 i =
      le64-halves (get32 b i) (get32 b (i + 4))
        (omega (arith, at i, at (i + 1), at (i + 2), at (i + 3)))
        (omega (arith, at (i + 4), at (i + 4 + 1), at (i + 4 + 2), at (i + 4 + 3)))

  -- The 36 bytes of a received order are those of the order read from them.
  pub encode-decode_order : length b ≡ order_size → encode_order (decode_order b) ≡ b
  unfolding encode_order decode_order
  encode-decode_order l = cc (
    expand b order_size 0 l,
    field16 2,
    field32 4,
    field32 8,
    field32 12,
    field64 16,
    field32 16,
    field32 20,
    field64 24,
    field32 24,
    field32 28,
    field16 32,
    field16 34,
  )
