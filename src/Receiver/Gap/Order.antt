-- ===== src/Receiver/Gap/Order.antt =====
-- drain_pending of apps/client/udp_receiver.c: the order of what is published.
use low_latency_trading_pipe.Base.{
  ℕ, zero, suc, ◌+◌, ◌^◌, ◌<◌, ◌≡◌, refl, sym, ap, subst, subst₂, ◌∙◌, inl, inr, true, false, none,
  some, List, [], ◌∷◌, ◌++◌, append-nil, append_assoc, arith, Bool-cases, Option-cases, set, u64,
}
use low_latency_trading_pipe.Ring.Queue.{contents, publish_done, publish-IsValid}
use low_latency_trading_pipe.Receiver.Pool.{find}
use low_latency_trading_pipe.Receiver.Pool.Scan.{find-some}
use low_latency_trading_pipe.Receiver.Gap.{
  RefPtr, slot_ref, Receiver, is_set, publish_ref, drain_rounds, pass_slot,
}
use low_latency_trading_pipe.Receiver.Gap.Inv.{
  Inv, Held, RingChain, RingTiles, ptr_seq, ptr_count, Chain-snoc, Tiles-append,
}

-- One receiver comes from another by publishing packets that cover the numbers from `e` on.
pub record Extends (s : Receiver) (e : ℕ) (t : Receiver) : Type 0 where
  pub fresh : List RefPtr
  pub grown : contents t.ring ≡ contents s.ring ++ fresh
  pub tiles : RingTiles t.pool t.frames fresh e t.expected_seq
  pub inv : Inv t

-- Fields that the invariant does not mention.
pub relabel :
    (s : Receiver) (l d q f : ℕ) (rs : List (ℕ × ℕ))
    → Inv s
    → Inv (record s {
      last_request_ns = l;
      dropped_packets = d;
      retrans_requests = q;
      retrans_filled = f;
      requests = rs;
    })
relabel s l d q f rs v = record {
  ring_valid = v.ring_valid;
  slots = v.slots;
  chain = v.chain;
  unset = v.unset;
  in_range = v.in_range;
  intact = v.intact;
}

-- A packet whose turn has come, published.
pub advance :
    (s : Receiver) (p : RefPtr) (f : ℕ)
    → Inv s
    → is_set s.session ≡ true
    → Held s.pool s.frames p
    → ptr_seq s.pool s.frames p ≡ s.expected_seq
    → s.expected_seq + ptr_count s.pool s.frames p < 2 ^ 64
    → (publish_ref s p).0 ≡ true
    → Extends s s.expected_seq (record (publish_ref s p).1 {
      expected_seq = u64 (s.expected_seq + ptr_count s.pool s.frames p);
      retrans_filled = f;
    })
unfolding publish_ref
advance s p f v set held now room done =
    let grown = publish_done s.ring p v.ring_valid done in
    record {
      fresh = p ∷ [];
      grown = grown;
      tiles = (now, omega arith);
      inv = record {
        ring_valid = publish-IsValid s.ring p v.ring_valid;
        slots = v.slots;
        chain =
            subst
              (λ c.
                RingChain s.pool s.frames c 0 (u64 (s.expected_seq + ptr_count s.pool s.frames p)))
              (sym grown)
              (Chain-snoc _ _ _ (contents s.ring) p 0 s.expected_seq _ v.chain held (omega arith)
                (omega arith));
        unset = λ e. absurd (cc);
        in_range = omega arith;
        intact = v.intact;
      };
    }

pub Extends-trans :
    (s t u : Receiver) (e : ℕ)
    → Extends s e t
    → Extends t t.expected_seq u
    → t.pool ≡ u.pool
    → t.frames ≡ u.frames
    → Extends s e u
Extends-trans s t u e a b p q = record {
  fresh = a.fresh ++ b.fresh;
  grown = b.grown ∙ ap (λ x. x ++ b.fresh) a.grown ∙ append_assoc (contents s.ring) a.fresh b.fresh;
  tiles =
      Tiles-append _ _ a.fresh b.fresh e t.expected_seq u.expected_seq
        (subst₂ (λ x y. RingTiles x y a.fresh e t.expected_seq) p q a.tiles) b.tiles;
  inv = b.inv;
}

pub Extends-refl : (s : Receiver) → Inv s → Extends s s.expected_seq s
Extends-refl s v = record { fresh = []; grown = sym (append-nil _); tiles = refl; inv = v }

module _ (n : ℕ) (s : Receiver) where
  pub drain_none : find s.pool s.expected_seq s.expected_seq ≡ none → drain_rounds (suc n) s ≡ s
  unfolding drain_rounds
  drain_none e = rw (e, drain_rounds)

  pub drain_full :
      (i : ℕ)
      → find s.pool s.expected_seq s.expected_seq ≡ some i
      → (publish_ref s (slot_ref i)).0 ≡ false
      → drain_rounds (suc n) s ≡ s
  unfolding drain_rounds
  drain_full i e d = rw (e, d, drain_rounds)

  pub drain_next :
      (i : ℕ)
      → find s.pool s.expected_seq s.expected_seq ≡ some i
      → (publish_ref s (slot_ref i)).0 ≡ true
      → drain_rounds (suc n) s ≡ drain_rounds n (pass_slot s i)
  unfolding drain_rounds
  drain_next i e d = rw (e, d, drain_rounds)

pass_slot-store :
    (s : Receiver) (i : ℕ)
    → (s.pool ≡ (pass_slot s i).pool)
      × (s.frames ≡ (pass_slot s i).frames)
      × (s.session ≡ (pass_slot s i).session)
unfolding pass_slot publish_ref
pass_slot-store s i = (refl, refl, refl)

-- The drain touches neither the slots nor the frames, nor the session.
pub drain_rounds-store :
    (n : ℕ) (s : Receiver)
    → (s.pool ≡ (drain_rounds n s).pool)
      × (s.frames ≡ (drain_rounds n s).frames)
      × (s.session ≡ (drain_rounds n s).session)
drain_rounds-store zero s = unfold drain_rounds in (refl, refl, refl)
drain_rounds-store (suc n) s = elim (Option-cases (find s.pool s.expected_seq s.expected_seq)) [
  | inl e ↦ rw (drain_none n s e) (refl, refl, refl)
  | inr (i, e) ↦ elim (Bool-cases (publish_ref s (slot_ref i)).0) [
    | inl d ↦ rw (drain_next n s i e d) (
        let (p, q, x) = drain_rounds-store n (pass_slot s i) in
        let (a, b, c) = pass_slot-store s i in (a ∙ p, b ∙ q, c ∙ x))
    | inr d ↦ rw (drain_full n s i e d) (refl, refl, refl)
  ]
]

pub pass_slot_lem :
    (s : Receiver) (i : ℕ)
    → Inv s
    → is_set s.session ≡ true
    → find s.pool s.expected_seq s.expected_seq ≡ some i
    → (publish_ref s (slot_ref i)).0 ≡ true
    → Extends s s.expected_seq (pass_slot s i)
unfolding pass_slot
pass_slot_lem s i v set e d =
    let (inside, waits, here) = find-some s.pool s.expected_seq s.expected_seq i e in
    let busy : (s.pool i).used ≡ true = ground arith in
    let ok = v.slots i inside busy in
    let step =
      advance s (slot_ref i) (u64 (s.retrans_filled + 1)) v set (inside, busy)
        (ok.seq_copied ∙ here) (omega (arith, ok, here)) d in
    subst
      (λ k. Extends s s.expected_seq (record (publish_ref s (slot_ref i)).1 {
        expected_seq = u64 (s.expected_seq + k);
        retrans_filled = u64 (s.retrans_filled + 1);
      }))
      ok.count_copied step

pub drain_rounds_lem :
    (n : ℕ) (s : Receiver)
    → Inv s
    → is_set s.session ≡ true
    → Extends s s.expected_seq (drain_rounds n s)
drain_rounds_lem zero s v set = unfold drain_rounds in Extends-refl s v
drain_rounds_lem (suc n) s v set = elim (Option-cases (find s.pool s.expected_seq s.expected_seq)) [
  | inl e ↦ rw (drain_none n s e) (Extends-refl s v)
  | inr (i, e) ↦ elim (Bool-cases (publish_ref s (slot_ref i)).0) [
    | inl d ↦
        let one = pass_slot_lem s i v set e d in
        let (p, q, _) = drain_rounds-store n (pass_slot s i) in
        rw (drain_next n s i e d) (
          Extends-trans s (pass_slot s i) (drain_rounds n (pass_slot s i)) s.expected_seq one
            (drain_rounds_lem n (pass_slot s i) one.inv (unfold pass_slot publish_ref in set)) p q)
    | inr d ↦ rw (drain_full n s i e d) (Extends-refl s v)
  ]
]
