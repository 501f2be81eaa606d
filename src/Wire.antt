-- ===== src/Wire.antt =====
-- include/hft/protocol/wire.h: the packed order and acknowledgement messages, as they lie in memory
-- on a little-endian machine, and the ones-complement checksum over the bytes of an order.
pub mod Checksum
pub mod Codec
pub mod Integrity
pub mod Tests
use low_latency_trading_pipe.Base.{
  ℕ, ◌+◌, ◌-◌, ◌*◌, ◌/◌, ◌%◌, ◌^◌, Bool, List, [], ◌∷◌, ◌++◌, ltb, ◌==◌, if◌then◌else◌, take, u32,
  byte,
}

pub record WireOrder : Type 0 where
  pub msg_type : ℕ
  pub side : ℕ
  pub symbol_id : ℕ
  pub qty : ℕ
  pub price : ℕ
  pub pad0 : ℕ
  pub seq : ℕ
  pub ts : ℕ
  pub checksum : ℕ
  pub pad1 : ℕ

pub record WireAck : Type 0 where
  pub msg_type : ℕ
  pub flag : ℕ
  pub pad0 : ℕ
  pub pad1 : ℕ
  pub seq : ℕ
  pub recv_ts : ℕ

-- WIRE_MSG_NEW, WIRE_MSG_CANCEL, WIRE_MSG_FLUSH and WIRE_MSG_ACK
abbrev pub msg_new : ℕ
msg_new = b'N'

abbrev pub msg_cancel : ℕ
msg_cancel = b'C'

abbrev pub msg_flush : ℕ
msg_flush = b'F'

abbrev pub msg_ack : ℕ
msg_ack = b'A'

-- WIRE_ACK_OK, WIRE_ACK_BAD_CSUM and WIRE_ACK_SEQ_GAP
abbrev pub ack_ok : ℕ
ack_ok = 0

abbrev pub ack_bad_csum : ℕ
ack_bad_csum = 1

abbrev pub ack_seq_gap : ℕ
ack_seq_gap = 2

-- sizeof(wire_order) and sizeof(wire_ack), as `Codec` shows.
abbrev pub order_size : ℕ
order_size = 36

abbrev pub ack_size : ℕ
ack_size = 24

-- sizeof(wire_order) - sizeof(checksum) - sizeof(_pad1): what the checksum covers.
abbrev pub covered : ℕ
covered = order_size - 2 - 2

-- The little-endian bytes of an integer field.
abbrev pub le16 : ℕ → List ℕ
le16 x = x % 256 ∷ x / 2 ^ 8 % 256 ∷ []

abbrev pub le32 : ℕ → List ℕ
le32 x = x % 256 ∷ x / 2 ^ 8 % 256 ∷ x / 2 ^ 16 % 256 ∷ x / 2 ^ 24 % 256 ∷ []

abbrev pub le64 : ℕ → List ℕ
le64 x =
    x % 256
    ∷ x / 2 ^ 8 % 256
    ∷ x / 2 ^ 16 % 256
    ∷ x / 2 ^ 24 % 256
    ∷ x / 2 ^ 32 % 256
    ∷ x / 2 ^ 40 % 256
    ∷ x / 2 ^ 48 % 256
    ∷ x / 2 ^ 56 % 256
    ∷ []

-- The integer that such bytes hold, at an offset.
abbrev pub get16 : List ℕ → ℕ → ℕ
get16 b i = byte b i + byte b (i + 1) * 2 ^ 8

abbrev pub get32 : List ℕ → ℕ → ℕ
get32 b i = byte b i + byte b (i + 1) * 2 ^ 8 + byte b (i + 2) * 2 ^ 16 + byte b (i + 3) * 2 ^ 24

abbrev pub get64 : List ℕ → ℕ → ℕ
get64 b i = get32 b i + get32 b (i + 4) * 2 ^ 32

-- An order in memory, and what a copy out of a receive buffer reads back.
unfoldable pub encode_order : WireOrder → List ℕ
encode_order o =
    o.msg_type
    ∷ o.side
    ∷ (le16 o.symbol_id
        ++ (le32 o.qty
            ++ (le32 o.price
                ++ (le32 o.pad0
                    ++ (le64 o.seq ++ (le64 o.ts ++ (le16 o.checksum ++ le16 o.pad1)))))))

unfoldable pub decode_order : List ℕ → WireOrder
decode_order b = record {
  msg_type = byte b 0;
  side = byte b 1;
  symbol_id = get16 b 2;
  qty = get32 b 4;
  price = get32 b 8;
  pad0 = get32 b 12;
  seq = get64 b 16;
  ts = get64 b 24;
  checksum = get16 b 32;
  pad1 = get16 b 34;
}

unfoldable pub encode_ack : WireAck → List ℕ
encode_ack a =
    a.msg_type ∷ a.flag ∷ (le16 a.pad0 ++ (le32 a.pad1 ++ (le64 a.seq ++ le64 a.recv_ts)))

unfoldable pub decode_ack : List ℕ → WireAck
decode_ack b = record {
  msg_type = byte b 0;
  flag = byte b 1;
  pad0 = get16 b 2;
  pad1 = get32 b 4;
  seq = get64 b 8;
  recv_ts = get64 b 16;
}

-- One addition of the checksum loop, with the end-around carry.
unfoldable pub add_word : ℕ → ℕ → ℕ
add_word sum w = let s = u32 (sum + w) in if ltb 0xffff s then s % 2 ^ 16 + 1 else s

-- The loop over the pairs of bytes, and the odd byte at the end.
unfoldable pub checksum_loop : ℕ → List ℕ → ℕ
checksum_loop sum [] = sum
checksum_loop sum (b ∷ []) = add_word sum b
checksum_loop sum (b ∷ c ∷ rest) = checksum_loop (add_word sum (b + c * 2 ^ 8)) rest

-- `~sum & 0xffff`, on a uint32_t.
unfoldable pub wire_checksum : List ℕ → ℕ
wire_checksum b = (2 ^ 32 - 1 - checksum_loop 0 b) % 2 ^ 16

-- What a sender stores in the checksum field: the sum over the bytes in front of it.
unfoldable pub stamp : WireOrder → WireOrder
stamp o =
    let z = record o { checksum = 0 } in
    record o { checksum = wire_checksum (take covered (encode_order z)) }

-- The receiver's test: the field is set aside and recomputed.
pub checksum_holds : WireOrder → Bool
checksum_holds o =
    let z = record o { checksum = 0 } in o.checksum == wire_checksum (take covered (encode_order z))
