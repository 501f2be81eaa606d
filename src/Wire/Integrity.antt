-- ===== src/Wire/Integrity.antt =====
-- Stamping an order and testing it (include/hft/protocol/wire.h), with and without damage.
use low_latency_trading_pipe.Base.{
  ℕ, ◌≤◌, ◌<◌, ◌≡◌, refl, sym, ap, ◌∙◌, ◌≢◌, Bool, true, false, List, arith, dec_lt, ℕ_discrete,
  ◌==◌, ==_refl, length, set, take, length-set, get_or-set_self, get_or-set_ne, length-take,
  AllBytes, AllBytes-byte, AllBytes-set, AllBytes-take, take-set, take-set_above, get_or-take, byte,
}
use low_latency_trading_pipe.Wire.{
  WireOrder, order_size, covered, encode_order, decode_order, wire_checksum, stamp, checksum_holds,
  get16,
}
use low_latency_trading_pipe.Wire.Checksum.{wire_checksum_detects, wire_checksum_complements}
use low_latency_trading_pipe.Wire.Codec.{
  IsWireOrder, decode-encode_order, length-encode_order, encode_order-AllBytes, encode-decode_order,
}

-- The bytes that the checksum covers do not depend on the checksum field.
covered-encode :
    (o : WireOrder) (c : ℕ)
    → take covered (encode_order (record o { checksum = c })) ≡ take covered (encode_order o)
unfolding encode_order
covered-encode o c = refl

-- The receiver's test, on the bytes that it reads.
pub checksum_holds-decode :
    (b : List ℕ)
    → AllBytes b
    → length b ≡ order_size
    → checksum_holds (decode_order b) ≡ (get16 b 32 == wire_checksum (take covered b))
unfolding checksum_holds
checksum_holds-decode b h l =
    rw (covered-encode (decode_order b) 0, encode-decode_order b h l) (unfold decode_order in refl)

pub stamp-word : (o : WireOrder) → IsWireOrder o → IsWireOrder (stamp o)
unfolding stamp
stamp-word o v = ground (
  arith,
  wire_checksum_complements (take covered (encode_order (record o { checksum = 0 }))) (
      AllBytes-take covered (encode_order (record o { checksum = 0 }))
        (encode_order-AllBytes (record o { checksum = 0 }) (ground arith))),
)

pub stamp_holds : (o : WireOrder) → checksum_holds (stamp o) ≡ true
unfolding checksum_holds stamp
stamp_holds o = ==_refl (wire_checksum (take covered (encode_order (record o { checksum = 0 }))))

-- An order with fields in their types that is stamped, written and read back passes the receiver's
-- test.
pub stamp-accepted :
    (o : WireOrder) → IsWireOrder o → checksum_holds (decode_order (encode_order (stamp o))) ≡ true
stamp-accepted o v = rw (decode-encode_order (stamp o) (stamp-word o v)) (stamp_holds o)

module _ (b : List ℕ) (h : AllBytes b) (l : length b ≡ order_size) where
  abbrev accepts : List ℕ → Bool
  accepts c = get16 c 32 == wire_checksum (take covered c)

  -- A byte in front of the checksum: the sum changes and the field does not.
  damage_in_front :
      (i x : ℕ)
      → accepts b ≡ true
      → i < covered
      → x < 256
      → x ≢ byte b i
      → accepts (set b i x) ≡ false
  damage_in_front i x ok hi hx d =
      rw
        (
          take-set covered b i x,
          get_or-set_ne b i 32 x 0 (omega arith),
          get_or-set_ne b i 33 x 0 (omega arith),
        )
        (ground (
          arith,
          wire_checksum_detects (take covered b) i x (AllBytes-take covered b h)
              (omega (arith, length-take covered b)) hx (rw (get_or-take covered b i 0 hi) d),
        ))

  -- A byte of the checksum field: the field changes and the sum does not.
  damage_in_field :
      (i x : ℕ)
      → accepts b ≡ true
      → covered ≤ i
      → i < 34
      → x < 256
      → x ≢ byte b i
      → accepts (set b i x) ≡ false
  damage_in_field i x ok lo hi hx d = rw (take-set_above covered b i x lo) (elim (ℕ_discrete i 32) [
    | yes e ↦ ground (
      arith,
      get_or-set_self b 32 x 0 (omega arith),
      get_or-set_ne b 32 33 x 0 (omega arith),
      AllBytes-byte b 32 h,
      AllBytes-byte b 33 h,
    )
    | no e ↦
        let f : i ≡ 33 = omega arith in
        ground (
          arith,
          get_or-set_self b 33 x 0 (omega arith),
          get_or-set_ne b 33 32 x 0 (omega arith),
          AllBytes-byte b 32 h,
          AllBytes-byte b 33 h,
        )
  ])

-- If one byte of the covered part or of the checksum of an order with fields in their types and a
-- right checksum is changed to another byte, the receiver rejects the order.
pub damage_rejected :
    (o : WireOrder) (i x : ℕ)
    → IsWireOrder o
    → checksum_holds o ≡ true
    → i < 34
    → x < 256
    → x ≢ byte (encode_order o) i
    → checksum_holds (decode_order (set (encode_order o) i x)) ≡ false
damage_rejected o i x v ok hi hx d =
    let b = encode_order o in
    let h = encode_order-AllBytes o v in
    let l = length-encode_order o in
    let good : (get16 b 32 == wire_checksum (take covered b)) ≡ true =
      sym (checksum_holds-decode b h l) ∙ ap checksum_holds (decode-encode_order o v) ∙ ok in
    checksum_holds-decode (set b i x) (AllBytes-set b i x h hx) (length-set b i x ∙ l)
    ∙ (elim (dec_lt i covered) [
      | yes p ↦ damage_in_front b h l i x good p hx d
      | no p ↦ damage_in_field b h l i x good (omega arith) hi hx d
    ])

pub seq-stamp : (o : WireOrder) → (stamp o).seq ≡ o.seq
unfolding stamp
seq-stamp o = refl
