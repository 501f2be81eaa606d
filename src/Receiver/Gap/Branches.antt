-- ===== src/Receiver/Gap/Branches.antt =====
-- The branches of handle_payload for a packet in order, each on its own.
use low_latency_trading_pipe.Base.{
  ℕ, suc, ◌+◌, ◌^◌, ◌≤◌, ◌<◌, ◌≡◌, refl, sym, ap, subst, ◌∙◌, inl, inr, Bool, true, false, ◌||◌,
  Option, none, some, List, [], ◌++◌, append-nil, arith, ℕ_discrete, ltb, Bool-cases, Option-cases,
  length, set, update, update_self, update_ne, update-update, u64,
}
use low_latency_trading_pipe.Ring.Queue.{contents}
use low_latency_trading_pipe.Receiver.Pool.{
  PacketRef, Slot, reorder_max, header_seq, header_count, alloc_slot, find, build_slot,
}
use low_latency_trading_pipe.Receiver.Pool.Scan.{alloc_slot-some}
use low_latency_trading_pipe.Receiver.Gap.{
  RefPtr, frame_ref, slot_ref, Receiver, is_set, publish_ref, drain_rounds, drain_pending, drop_one,
  publish_live, publish_copy, after_publish, live_ref, write_slot, write_live, free_slot, slot_size,
}
use low_latency_trading_pipe.Receiver.Gap.Inv.{
  Inv, SlotOk, Held, ptr_seq, ptr_count, chain-update_slot, chain-update_frame, All, Absent,
}
use low_latency_trading_pipe.Receiver.Gap.Order.{
  Extends, relabel, advance, Extends-trans, Extends-refl, drain_rounds-store, drain_rounds_lem,
}

drain_lem :
    (s : Receiver) → Inv s → is_set s.session ≡ true → Extends s s.expected_seq (drain_pending s)
unfolding drain_pending
drain_lem s v set = drain_rounds_lem (suc reorder_max) s v set

-- A step that publishes, then the drain.
pub then_drain :
    (s t : Receiver) (e : ℕ)
    → Extends s e t
    → is_set t.session ≡ true
    → Extends s e (drain_pending t)
unfolding drain_pending
then_drain s t e a set =
    let (p, q, _) = drain_rounds-store (suc reorder_max) t in
    Extends-trans s t (drain_rounds (suc reorder_max) t) e a (drain_lem t a.inv set) p q

-- The store may be written first, where the chain is kept.
pub rebase : (s t u : Receiver) (e : ℕ) → t.ring ≡ s.ring → Extends t e u → Extends s e u
rebase s t u e r a = record {
  fresh = a.fresh;
  grown = a.grown ∙ ap (λ x. contents x ++ a.fresh) r;
  tiles = a.tiles;
  inv = a.inv;
}

pub Extends-drop : (s : Receiver) → Inv s → Extends s s.expected_seq (drop_one s)
Extends-drop s v = record {
  fresh = [];
  grown = sym (append-nil _);
  tiles = refl;
  inv =
      relabel s s.last_request_ns (u64 (s.dropped_packets + 1)) s.retrans_requests s.retrans_filled
        s.requests v;
}

write_frame-Inv :
    (s : Receiver) (addr : ℕ) (ref : PacketRef)
    → Inv s
    → All (Absent addr) (contents s.ring)
    → Inv (record s { frames = update s.frames addr ref })
write_frame-Inv s addr ref v h = record {
  ring_valid = v.ring_valid;
  slots = v.slots;
  chain = chain-update_frame s.pool s.frames addr ref (contents s.ring) 0 s.expected_seq h v.chain;
  unset = v.unset;
  in_range = v.in_range;
  intact = v.intact;
}

write_slot-Inv :
    (s : Receiver) (idx : ℕ) (sl : Slot) (o : Bool)
    → Inv s
    → (s.pool idx).used ≡ false
    → (sl.used ≡ true → SlotOk sl)
    → o ≡ false
    → Inv (record s { pool = update s.pool idx sl; overrun = o })
write_slot-Inv s idx sl o v free ok sound = record {
  ring_valid = v.ring_valid;
  slots = λ i h u. elim (ℕ_discrete i idx) [
    | yes e ↦
        let w = update_self s.pool idx i sl e in
        subst SlotOk (sym w) (ok (sym (ap (λ x. x.used) w) ∙ u))
    | no ne ↦
        let w = update_ne s.pool idx i sl ne in
        subst SlotOk (sym w) (v.slots i h (sym (ap (λ x. x.used) w) ∙ u))
  ];
  chain = chain-update_slot s.pool s.frames idx sl (contents s.ring) 0 s.expected_seq free v.chain;
  unset = v.unset;
  in_range = v.in_range;
  intact = sound;
}

after_publish_lem :
    (s : Receiver) (p : RefPtr) (payload : List ℕ)
    → Inv s
    → is_set s.session ≡ true
    → Held s.pool s.frames p
    → ptr_seq s.pool s.frames p ≡ s.expected_seq
    → ptr_count s.pool s.frames p ≡ header_count payload
    → s.expected_seq + header_count payload < 2 ^ 64
    → (publish_ref s p).0 ≡ true
    → Extends s s.expected_seq (drain_pending (after_publish s p payload))
unfolding after_publish publish_ref
after_publish_lem s p payload v set held here n room done =
    then_drain s _ s.expected_seq
      (subst
        (λ k.
          Extends s s.expected_seq
            (record (publish_ref s p).1 { expected_seq = u64 (s.expected_seq + k) }))
        n (advance s p s.retrans_filled v set held here (omega arith) done))
      set

pub publish_live_lem :
    (s : Receiver) (payload : List ℕ) (addr now : ℕ)
    → Inv s
    → is_set s.session ≡ true
    → All (Absent addr) (contents s.ring)
    → header_seq payload ≡ s.expected_seq
    → header_seq payload + header_count payload < 2 ^ 64
    → Extends s s.expected_seq (publish_live s payload addr now).0
unfolding publish_live
publish_live_lem s payload addr now v set absent here room =
    let ref = live_ref payload addr now in
    let t = write_live s payload addr now in
    let w = write_frame-Inv s addr ref v absent in
    let there = update_self s.frames addr addr ref refl in
    elim (Bool-cases (publish_ref t (frame_ref addr)).0) [
      | inl d ↦ rw d (
          rebase s t _ s.expected_seq refl (
            after_publish_lem t (frame_ref addr) payload w set tt
              (ap (λ x. header_seq x.dat.buf) there ∙ here) (ap (λ x. header_count x.dat.buf) there)
              (omega arith) d))
      | inr d ↦ rw d (rebase s t _ s.expected_seq refl (Extends-drop t w))
    ]

module _ (s : Receiver) (payload : List ℕ) (umem : Option ℕ) (now : ℕ) (v : Inv s)
    (set : is_set s.session ≡ true) (some_messages : 0 < header_count payload)
    (room : header_seq payload + header_count payload < 2 ^ 64)
    (fits : length payload ≤ slot_size) where
  built-SlotOk :
      (idx : ℕ) → SlotOk (build_slot idx (header_seq payload) (header_count payload) payload now)
  unfolding build_slot
  built-SlotOk idx = record {
    seq_copied = refl;
    count_copied = refl;
    some_messages = some_messages;
    no_wrap = room;
  }

  built_used :
      (idx : ℕ)
      → (build_slot idx (header_seq payload) (header_count payload) payload now).used ≡ true
  unfolding build_slot
  built_used idx = refl

  built_seq :
      (idx : ℕ)
      → header_seq
          (build_slot idx (header_seq payload) (header_count payload) payload now).ref.dat.buf
        ≡ header_seq payload
  unfolding build_slot
  built_seq idx = refl

  built_count :
      (idx : ℕ)
      → header_count
          (build_slot idx (header_seq payload) (header_count payload) payload now).ref.dat.buf
        ≡ header_count payload
  unfolding build_slot
  built_count idx = refl

  sound : (s.overrun || ltb slot_size (length payload)) ≡ false
  sound = ground (arith, v.intact, fits)

  pub written-Inv : (idx : ℕ) → alloc_slot s.pool ≡ some idx → Inv (write_slot s idx payload now)
  written-Inv idx e =
      write_slot-Inv s idx _ _ v (alloc_slot-some s.pool idx e).1 (λ _. built-SlotOk idx) sound

  freed-Inv :
      (idx : ℕ) → alloc_slot s.pool ≡ some idx → Inv (free_slot (write_slot s idx payload now) idx)
  freed-Inv idx e =
      let sl = record ((write_slot s idx payload now).pool idx) { used = false } in
      subst (λ p. Inv (record (write_slot s idx payload now) { pool = p }))
        (sym (update-update s.pool idx _ sl))
        (write_slot-Inv s idx sl _ v (alloc_slot-some s.pool idx e).1 (λ u. absurd (cc)) sound)

  copied :
      (idx : ℕ)
      → alloc_slot s.pool ≡ some idx
      → header_seq payload ≡ s.expected_seq
      → (publish_ref (write_slot s idx payload now) (slot_ref idx)).0 ≡ true
      → Extends s s.expected_seq
          (drain_pending (after_publish (write_slot s idx payload now) (slot_ref idx) payload))
  copied idx g here d =
      let t = write_slot s idx payload now in
      let built = build_slot idx (header_seq payload) (header_count payload) payload now in
      let there : t.pool idx ≡ built = update_self s.pool idx idx built refl in
      rebase s t _ s.expected_seq refl (
        after_publish_lem t (slot_ref idx) payload (written-Inv idx g) set
          ((alloc_slot-some s.pool idx g).0, ap (λ x. x.used) there ∙ built_used idx)
          (ap (λ x. header_seq x.ref.dat.buf) there ∙ built_seq idx ∙ here)
          (ap (λ x. header_count x.ref.dat.buf) there ∙ built_count idx) (omega arith) d)

  publish_copy_done :
      (idx : ℕ)
      → find s.pool s.expected_seq (header_seq payload) ≡ none
      → alloc_slot s.pool ≡ some idx
      → (publish_ref (write_slot s idx payload now) (slot_ref idx)).0 ≡ true
      → publish_copy s payload umem now ≡ (
        drain_pending (after_publish (write_slot s idx payload now) (slot_ref idx) payload),
        umem,
      )
  unfolding publish_copy
  publish_copy_done idx f g d = rw (f, g, d, publish_copy)

  publish_copy_full :
      (idx : ℕ)
      → find s.pool s.expected_seq (header_seq payload) ≡ none
      → alloc_slot s.pool ≡ some idx
      → (publish_ref (write_slot s idx payload now) (slot_ref idx)).0 ≡ false
      → publish_copy s payload umem now
        ≡ (drop_one (free_slot (write_slot s idx payload now) idx), umem)
  unfolding publish_copy
  publish_copy_full idx f g d = rw (f, g, d, publish_copy)

  pub publish_copy_lem :
      header_seq payload ≡ s.expected_seq
      → Extends s s.expected_seq (publish_copy s payload umem now).0
  unfolding publish_copy
  publish_copy_lem here = elim (Option-cases (find s.pool s.expected_seq (header_seq payload))) [
    | inr (j, f) ↦ rw (f, publish_copy) (Extends-refl s v)
    | inl f ↦ elim (Option-cases (alloc_slot s.pool)) [
      | inl g ↦ rw (f, g, publish_copy) (Extends-drop s v)
      | inr (idx, g) ↦
          let t = write_slot s idx payload now in
          elim (Bool-cases (publish_ref t (slot_ref idx)).0) [
            | inl d ↦ rw (publish_copy_done idx f g d) (copied idx g here d)
            | inr d ↦ rw (publish_copy_full idx f g d) (
                rebase s (free_slot t idx) _ s.expected_seq refl
                  (Extends-drop (free_slot t idx) (freed-Inv idx g)))
          ]
    ]
  ]
