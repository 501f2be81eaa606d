-- ===== src/Rx/Setup/Ladder.antt =====
-- The attempts of afxdp_init in src/afxdp/afxdp_receiver.c to create a socket.
use low_latency_trading_pipe.Base.{
  ℕ, suc, ◌+◌, ◌≤◌, ◌<◌, ◌≡◌, refl, inl, inr, Bool, true, false, ◌&&◌, not, none, List, [], ◌∷◌,
  arith, ◌==◌, if◌then◌else◌, Bool-cases, length,
}
use low_latency_trading_pipe.Rx.Setup.{
  Attempt, Mode, Host, socket_create, create_skb, CreateAnswers, skb, detach_stale, ebusy,
  create_native, create_any, native,
}

abbrev pub is_skb : Mode → Bool
is_skb native = false
is_skb skb = true

-- SKB mode is never asked for with zero copy.
abbrev pub is_sound : Attempt → Bool
is_sound a = not (is_skb a.mode && a.zerocopy)

unfoldable pub all_sound : List Attempt → Bool
all_sound [] = true
all_sound (a ∷ rest) = is_sound a && all_sound rest

-- A result of attempts that began with so many, of which at most so many more were made: the socket
-- is open if the result is 0.
pub record IsOutcome (before more : ℕ) (r : ℕ × Host) : Type 0 where
  pub opened : r.1.xsk ≡ (r.0 == 0)
  pub sounds : all_sound r.1.attempts ≡ true
  pub few : length r.1.attempts ≤ before + more
  pub made : before < length r.1.attempts

socket_create-IsOutcome :
    (answers : ℕ → CreateAnswers) (mode : Mode) (zerocopy : Bool) (h : Host)
    → all_sound h.attempts ≡ true
    → is_skb mode && zerocopy ≡ false
    → IsOutcome (length h.attempts) 1 (socket_create answers mode zerocopy h)
unfolding socket_create all_sound
socket_create-IsOutcome answers mode zerocopy h s z = ground arith

-- A further attempt after those that an outcome counts.
again-IsOutcome :
    {before more : ℕ} {r r' : ℕ × Host}
    → IsOutcome before more r
    → (n : ℕ) → IsOutcome (length r.1.attempts) n r'
    → IsOutcome before (more + n) r'
again-IsOutcome o n o' = record {
  opened = o'.opened;
  sounds = o'.sounds;
  few = omega (arith, o.few, o'.few);
  made = omega (arith, o.made, o'.made);
}

-- At most so many attempts are at most one more.
more-IsOutcome :
    {before more : ℕ} {r : ℕ × Host}
    → IsOutcome before more r
    → (n : ℕ) → IsOutcome before (more + n) r
more-IsOutcome o n = record {
  opened = o.opened;
  sounds = o.sounds;
  few = omega (arith, o.few);
  made = o.made;
}

create_skb-IsOutcome :
    (answers : ℕ → CreateAnswers) (h : Host)
    → all_sound h.attempts ≡ true
    → IsOutcome (length h.attempts) 2 (create_skb answers h)
unfolding create_skb
create_skb-IsOutcome answers h s =
    let r = socket_create answers skb false h in
    let o = socket_create-IsOutcome answers skb false h s refl in
    let o' = socket_create-IsOutcome answers skb false (detach_stale r.1) o.sounds refl in
    elim (Bool-cases (r.0 == ebusy)) [
      | inl e ↦ rw e (again-IsOutcome o 1 o')
      | inr e ↦ rw e (more-IsOutcome o 1)
    ]

create_native-IsOutcome :
    (answers : ℕ → CreateAnswers) (force_zerocopy : Bool) (h : Host)
    → all_sound h.attempts ≡ true
    → IsOutcome (length h.attempts) 2 (create_native answers force_zerocopy h)
unfolding create_native
create_native-IsOutcome answers force_zerocopy h s =
    let r = socket_create answers native force_zerocopy h in
    let o = socket_create-IsOutcome answers native force_zerocopy h s refl in
    let o' = socket_create-IsOutcome answers native false r.1 o.sounds refl in
    elim (Bool-cases (not (r.0 == 0) && force_zerocopy)) [
      | inl e ↦ rw e (again-IsOutcome o 1 o')
      | inr e ↦ rw e (more-IsOutcome o 1)
    ]

create_first-IsOutcome :
    (answers : ℕ → CreateAnswers) (prefer_skb force_zerocopy : Bool) (h : Host)
    → all_sound h.attempts ≡ true
    → IsOutcome
        (length h.attempts)
        2
        (if prefer_skb then create_skb answers h else create_native answers force_zerocopy h)
create_first-IsOutcome answers true force_zerocopy h s = create_skb-IsOutcome answers h s
create_first-IsOutcome answers false force_zerocopy h s =
    create_native-IsOutcome answers force_zerocopy h s

-- If no attempt so far asked for SKB mode with zero copy, then of the one to four attempts that are
-- made none does, and the socket is open afterwards if and only if the result is 0.
pub create_any-IsOutcome :
    (answers : ℕ → CreateAnswers) (prefer_skb force_zerocopy : Bool) (h : Host)
    → all_sound h.attempts ≡ true
    → IsOutcome (length h.attempts) 4 (create_any answers prefer_skb force_zerocopy h)
unfolding create_any
create_any-IsOutcome answers prefer_skb force_zerocopy h s =
    let r = if prefer_skb then create_skb answers h else create_native answers force_zerocopy h in
    let o = create_first-IsOutcome answers prefer_skb force_zerocopy h s in
    let o' = create_skb-IsOutcome answers r.1 o.sounds in
    elim (Bool-cases (r.0 == 0)) [
      | inl e ↦ rw e (more-IsOutcome o 2)
      | inr e ↦ rw e (again-IsOutcome o 2 o')
    ]

-- If the first attempt in SKB mode is refused as busy and the second succeeds, then the result is a
-- socket that was asked for without a program of its own if the filter had been loaded, while nothing
-- is attached to the interface any more.
pub create_skb-detached :
    (answers : ℕ → CreateAnswers) (h : Host)
    → (answers (length h.attempts)).create ≡ ebusy
    → (answers (suc (length h.attempts))).create ≡ 0
    → (answers (suc (length h.attempts))).map_updated ≡ true
    → let r = create_skb answers h in
      (r.0 ≡ 0) × (r.1.attached ≡ none) × (r.1.xdp_prog ≡ h.xdp_prog)
unfolding create_skb socket_create
create_skb-detached answers h busy ok registered = ground arith
