-- ===== src/Receiver/Gap/Pins.antt =====
-- How often the ring points at a UMEM frame, and what publish_ref and drain_pending of
-- apps/client/udp_receiver.c change of it.
use low_latency_trading_pipe.Base.{
  ℕ, zero, suc, ◌+◌, ◌≡◌, refl, sym, ap, subst, ◌∙◌, inl, inr, true, false, List, [], ◌∷◌, ◌++◌,
  arith, ◌==◌, if◌then◌else◌, Bool-cases, Option-cases,
}
use low_latency_trading_pipe.Ring.Queue.{
  contents, IsValid, publish-IsValid, publish_done, publish_refused,
}
use low_latency_trading_pipe.Receiver.Pool.{find, reorder_max}
use low_latency_trading_pipe.Receiver.Gap.{
  RefPtr, frame_ref, slot_ref, Receiver, publish_ref, pass_slot, drain_rounds, drain_pending,
  after_publish,
}
use low_latency_trading_pipe.Receiver.Gap.Order.{drain_none, drain_full, drain_next}

-- How often a frame is pointed at.
abbrev pub pins : ℕ → List RefPtr → ℕ
pins a [] = 0
pins a (frame_ref b ∷ ps) = if b == a then suc (pins a ps) else pins a ps
pins a (slot_ref i ∷ ps) = pins a ps

pub pins-append : (a : ℕ) (ps qs : List RefPtr) → pins a (ps ++ qs) ≡ pins a ps + pins a qs
pins-append a [] qs = omega arith
pins-append a (frame_ref b ∷ ps) qs = ground (arith, pins-append a ps qs)
pins-append a (slot_ref i ∷ ps) qs = pins-append a ps qs

-- From one state to another the ring stays valid, and points at frames as often as before and the
-- pointers `ps` say.
pub record Pinned (s t : Receiver) (ps : List RefPtr) : Type 0 where
  pub valid : IsValid t.ring
  pub more : (a : ℕ) → pins a (contents t.ring) ≡ pins a (contents s.ring) + pins a ps
  pub kept : t.overrun ≡ s.overrun

pub same_ring :
    (s t : Receiver) → t.ring ≡ s.ring → t.overrun ≡ s.overrun → IsValid s.ring → Pinned s t []
same_ring s t e k v = record {
  kept = k;
  valid = subst IsValid (sym e) v;
  more = λ a. omega (arith, ap (λ r. pins a (contents r)) e);
}

pub publish_ref-Pinned :
    (s : Receiver) (p : RefPtr)
    → IsValid s.ring
    → (publish_ref s p).0 ≡ true
    → Pinned s (publish_ref s p).1 (p ∷ [])
unfolding publish_ref
publish_ref-Pinned s p v e = record {
  valid = publish-IsValid s.ring p v;
  kept = refl;
  more = λ a. ap (pins a) (publish_done s.ring p v e) ∙ pins-append a (contents s.ring) (p ∷ []);
}

publish_ref_full :
    (s : Receiver) (p : RefPtr) → (publish_ref s p).0 ≡ false → (publish_ref s p).1.ring ≡ s.ring
unfolding publish_ref
publish_ref_full s p e = publish_refused s.ring p e

-- Two steps, the second of which adds no frame.
pub then_none :
    (s t u : Receiver) (ps : List RefPtr) → Pinned s t ps → Pinned t u [] → Pinned s u ps
then_none s t u ps h k = record {
  valid = k.valid;
  more = λ a. omega (arith, h.more a, k.more a);
  kept = k.kept ∙ h.kept;
}

pass_slot-Pinned :
    (s : Receiver) (i : ℕ)
    → IsValid s.ring
    → (publish_ref s (slot_ref i)).0 ≡ true
    → Pinned s (pass_slot s i) []
unfolding pass_slot
pass_slot-Pinned s i v e =
    let p = publish_ref-Pinned s (slot_ref i) v e in
    record { valid = p.valid; more = λ a. p.more a; kept = p.kept }

drain_rounds-Pinned : (n : ℕ) (s : Receiver) → IsValid s.ring → Pinned s (drain_rounds n s) []
unfolding drain_rounds
drain_rounds-Pinned zero s v = same_ring s s refl refl v
drain_rounds-Pinned (suc n) s v = elim (Option-cases (find s.pool s.expected_seq s.expected_seq)) [
  | inl f ↦ subst (λ t. Pinned s t []) (sym (drain_none n s f)) (same_ring s s refl refl v)
  | inr (i, f) ↦ elim (Bool-cases (publish_ref s (slot_ref i)).0) [
    | inl d ↦
        let one = pass_slot-Pinned s i v d in
        subst (λ t. Pinned s t []) (sym (drain_next n s i f d))
          (then_none s (pass_slot s i) (drain_rounds n (pass_slot s i)) [] one
            (drain_rounds-Pinned n (pass_slot s i) one.valid))
    | inr d ↦ subst (λ t. Pinned s t []) (sym (drain_full n s i f d)) (same_ring s s refl refl v)
  ]
]

pub drain_pending-Pinned : (s : Receiver) → IsValid s.ring → Pinned s (drain_pending s) []
unfolding drain_pending
drain_pending-Pinned s v = drain_rounds-Pinned (suc reorder_max) s v

-- A publication, the number that follows it expected, and the drain.
pub published-Pinned :
    (s : Receiver) (p : RefPtr) (payload : List ℕ)
    → IsValid s.ring
    → (publish_ref s p).0 ≡ true
    → Pinned s (drain_pending (after_publish s p payload)) (p ∷ [])
unfolding after_publish
published-Pinned s p payload v d =
    let one = publish_ref-Pinned s p v d in
    let t = after_publish s p payload in
    then_none s t (drain_pending t) (p ∷ [])
      (record { valid = one.valid; more = one.more; kept = one.kept })
      (drain_pending-Pinned t one.valid)
