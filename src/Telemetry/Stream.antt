-- ===== src/Telemetry/Stream.antt =====
-- The lines that control_loop (src/telemetry/telemetry.cpp) takes out of what a client sends.
use low_latency_trading_pipe.Base.{
  ℕ, ◌+◌, ◌≤◌, ◌<◌, ◌≡◌, refl, sym, ap, subst, ◌∙◌, ◌≢◌, inl, inr, List, [], ◌∷◌, ◌++◌, append-nil,
  append_assoc, arith, ◌==◌, Bool-cases, length, take, drop, length-drop, take-append-drop,
}
use low_latency_trading_pipe.Telemetry.{
  MarketMaker, control_client, split_lines, put_byte, c_string, apply_lines, apply_command_line,
  read_size,
}

-- No byte is 0.
abbrev pub NoZero : List ℕ → Type 0
NoZero [] = Unit
NoZero (c ∷ cs) = (c ≢ 0) × NoZero cs

-- Lines of at most n bytes.
abbrev pub AllShort : ℕ → List (List ℕ) → Type 0
AllShort n [] = Unit
AllShort n (l ∷ ls) = (length l ≤ n) × AllShort n ls

abbrev pub AllPositive : List ℕ → Type 0
AllPositive [] = Unit
AllPositive (n ∷ ns) = (0 < n) × AllPositive ns

c_string_id : (b : List ℕ) → NoZero b → c_string b ≡ b
unfolding c_string
c_string_id [] h = refl
c_string_id (c ∷ cs) h = ground (arith, c_string_id cs h.1, h.0)

NoZero-append : (a b : List ℕ) → NoZero a → NoZero b → NoZero (a ++ b)
NoZero-append [] b h k = k
NoZero-append (c ∷ cs) b h k = (h.0, NoZero-append cs b h.1 k)

NoZero-split : (a b : List ℕ) → NoZero (a ++ b) → NoZero a × NoZero b
NoZero-split [] b h = (tt, h)
NoZero-split (c ∷ cs) b h = let r = NoZero-split cs b h.1 in ((h.0, r.0), r.1)

put_byte-append :
    (c : ℕ) (ls : List (List ℕ)) (rest b : List ℕ)
    → let q = split_lines (rest ++ b) in
      let p = put_byte c (ls, rest) in
      let q' = split_lines (p.1 ++ b) in put_byte c (ls ++ q.0, q.1) ≡ (p.0 ++ q'.0, q'.1)
unfolding put_byte split_lines
put_byte-append c [] rest b = elim (Bool-cases (c == 0x0a)) [
  | inl e ↦ rw e refl
  | inr e ↦ rw e (rw e refl)
]
put_byte-append c (l ∷ ls) rest b = elim (Bool-cases (c == 0x0a)) [
  | inl e ↦ rw e refl
  | inr e ↦ rw e refl
]

-- The lines of two texts: those of the first, and those of what is left of it with the second.
split_lines-append :
    (a b : List ℕ)
    → let r = split_lines a in
      let q = split_lines (r.1 ++ b) in split_lines (a ++ b) ≡ (r.0 ++ q.0, q.1)
unfolding split_lines
split_lines-append [] b = refl
split_lines-append (c ∷ cs) b =
    ap (put_byte c) (split_lines-append cs b)
    ∙ put_byte-append c (split_lines cs).0 (split_lines cs).1 b

-- A text without a newline and without a byte that is 0.
abbrev IsPart : List ℕ → Type 0
IsPart [] = Unit
IsPart (c ∷ cs) = (c ≢ 0x0a) × (c ≢ 0) × IsPart cs

put_byte-IsPart :
    (c : ℕ) (ls : List (List ℕ)) (rest : List ℕ)
    → c ≢ 0
    → IsPart rest
    → IsPart (put_byte c (ls, rest)).1
unfolding put_byte
put_byte-IsPart c [] rest n h = elim (Bool-cases (c == 0x0a)) [
  | inl e ↦ rw e h
  | inr e ↦ rw e (ground (arith, e), n, h)
]
put_byte-IsPart c (l ∷ ls) rest n h = elim (Bool-cases (c == 0x0a)) [
  | inl e ↦ rw e h
  | inr e ↦ rw e h
]

split_lines-IsPart : (a : List ℕ) → NoZero a → IsPart (split_lines a).1
unfolding split_lines
split_lines-IsPart [] h = tt
split_lines-IsPart (c ∷ cs) h =
    put_byte-IsPart c (split_lines cs).0 (split_lines cs).1 h.0 (split_lines-IsPart cs h.1)

-- The lines that are found, and what is left, have at most n bytes.
abbrev pub FitIn : ℕ → List (List ℕ) × List ℕ → Type 0
FitIn n r = AllShort n r.0 × (length r.1 ≤ n)

-- How long the first line is, or what is left.
abbrev first_length : List (List ℕ) × List ℕ → ℕ
first_length ([], rest) = length rest
first_length (l ∷ ls, rest) = length l

put_byte-first_length :
    (c : ℕ) (ls : List (List ℕ)) (rest : List ℕ)
    → c ≢ 0x0a
    → first_length (put_byte c (ls, rest)) ≡ first_length (ls, rest) + 1
unfolding put_byte
put_byte-first_length c [] rest e = ground arith
put_byte-first_length c (l ∷ ls) rest e = ground arith

-- A part at the front of a text is within its first line, and so is the byte behind it.
IsPart-first_length :
    (a : List ℕ) (b : List ℕ) → IsPart a → length a ≤ first_length (split_lines (a ++ b))
unfolding split_lines
IsPart-first_length [] b h = omega arith
IsPart-first_length (c ∷ cs) b h = omega (
  arith,
  put_byte-first_length c (split_lines (cs ++ b)).0 (split_lines (cs ++ b)).1 h.0,
  IsPart-first_length cs b h.2,
)

first_length-FitIn :
    (n : ℕ) (ls : List (List ℕ)) (rest : List ℕ) → FitIn n (ls, rest) → first_length (ls, rest) ≤ n
first_length-FitIn n [] rest h = h.1
first_length-FitIn n (l ∷ ls) rest h = h.0.0

IsPart-split_lines : (a : List ℕ) → IsPart a → split_lines a ≡ ([], a)
unfolding split_lines put_byte
IsPart-split_lines [] h = refl
IsPart-split_lines (c ∷ cs) h = ap (put_byte c) (IsPart-split_lines cs h.2) ∙ ground (arith, h.0)

IsPart-NoZero : (a : List ℕ) → IsPart a → NoZero a
IsPart-NoZero [] h = tt
IsPart-NoZero (c ∷ cs) h = (h.1, IsPart-NoZero cs h.2)

AllShort-later : (n : ℕ) (ks ls : List (List ℕ)) → AllShort n (ks ++ ls) → AllShort n ls
AllShort-later n [] ls h = h
AllShort-later n (k ∷ ks) ls h = AllShort-later n ks ls h.1

apply_lines-append :
    {D : Type 0} (ks ls : List (List ℕ)) (m : MarketMaker D)
    → apply_lines (ks ++ ls) m ≡ apply_lines ls (apply_lines ks m)
unfolding apply_lines
apply_lines-append [] ls m = refl
apply_lines-append (k ∷ ks) ls m = apply_lines-append ks ls (apply_command_line k m)

-- The bytes are all in the buffer: none is left, or there is no room for more.
nothing_read :
    (n : ℕ) (buf sent : List ℕ) → 0 < n → length buf ≤ 254 → read_size n buf sent ≡ 0 → sent ≡ []
nothing_read n buf [] p l e = refl
nothing_read n buf (x ∷ xs) p l e = absurd (omega (arith, p, l, e))

-- The texts of a read: what it joins to the buffer, and what is still to be sent.
module _ (buf sent : List ℕ) (rc : ℕ) where
  abbrev joined : List ℕ
  joined = buf ++ take rc sent

  abbrev later : List (List ℕ) × List ℕ
  later = split_lines ((split_lines joined).1 ++ drop rc sent)

  joined-split : split_lines (buf ++ sent) ≡ ((split_lines joined).0 ++ later.0, later.1)
  joined-split =
      ap (λ x. split_lines (buf ++ x)) (sym (take-append-drop rc sent))
      ∙ ap split_lines (sym (append_assoc buf (take rc sent) (drop rc sent)))
      ∙ split_lines-append joined (drop rc sent)

  later-FitIn : FitIn 254 (split_lines (buf ++ sent)) → FitIn 254 later
  later-FitIn f =
      let g = subst (FitIn 254) joined-split f in
      (AllShort-later 254 (split_lines joined).0 later.0 g.0, g.1)

  sent-NoZero : NoZero sent → NoZero (take rc sent) × NoZero (drop rc sent)
  sent-NoZero z =
      NoZero-split (take rc sent) (drop rc sent) (subst NoZero (sym (take-append-drop rc sent)) z)

  joined-NoZero : IsPart buf → NoZero sent → NoZero joined
  joined-NoZero b z = NoZero-append buf (take rc sent) (IsPart-NoZero buf b) (sent-NoZero z).0

-- The lines of what is in the buffer and of what is still to be sent.
client_lines :
    {D : Type 0} (sizes buf sent : List ℕ) (m : MarketMaker D)
    → AllPositive sizes
    → length sent ≤ length sizes
    → IsPart buf
    → NoZero sent
    → FitIn 254 (split_lines (buf ++ sent))
    → control_client sizes buf sent m ≡ apply_lines (split_lines (buf ++ sent)).0 m
unfolding control_client apply_lines
client_lines [] buf [] m p l b z f =
    ap (λ r. apply_lines r.0 m)
      (sym (IsPart-split_lines (buf ++ []) (subst IsPart (sym (append-nil buf)) b)))
client_lines [] buf (x ∷ xs) m p l b z f = absurd (omega (arith, l))
client_lines (n ∷ sizes) buf sent m p l b z f =
    let rc = read_size n buf sent in
    let r = split_lines (joined buf sent rc) in
    let long = IsPart-first_length buf sent b in
    let fits =
      first_length-FitIn 254 (split_lines (buf ++ sent)).0 (split_lines (buf ++ sent)).1 f in
    elim (Bool-cases (rc == 0)) [
      | inl e ↦
          let none_left =
            nothing_read n buf sent p.0 (omega (arith, long, fits)) (ground (arith, e)) in
          let alone =
            ap (λ x. split_lines (buf ++ x)) none_left
            ∙ IsPart-split_lines (buf ++ []) (subst IsPart (sym (append-nil buf)) b) in
          rw e (ap (λ q. apply_lines q.0 m) (sym alone))
      | inr e ↦
          let whole = c_string_id (joined buf sent rc) (joined-NoZero buf sent rc b z) in
          let rest =
            client_lines sizes r.1 (drop rc sent) (apply_lines r.0 m) p.1
              (omega (arith, length-drop rc sent, l))
              (split_lines-IsPart (joined buf sent rc) (joined-NoZero buf sent rc b z))
              (sent-NoZero buf sent rc z).1 (later-FitIn buf sent rc f) in
          rw (e, whole)
            (rest
              ∙ sym (apply_lines-append r.0 (later buf sent rc).0 m)
              ∙ ap (λ q. apply_lines q.0 m) (sym (joined-split buf sent rc)))
    ]

-- A client whose bytes are not 0 and whose lines have at most 254 bytes, in reads that go on until all
-- is read: the commands that are applied are its lines, in order, each once, however the bytes come.
pub control_client-lines :
    {D : Type 0} (sizes sent : List ℕ) (m : MarketMaker D)
    → AllPositive sizes
    → length sent ≤ length sizes
    → NoZero sent
    → FitIn 254 (split_lines sent)
    → control_client sizes [] sent m ≡ apply_lines (split_lines sent).0 m
control_client-lines sizes sent m p l z f = client_lines sizes [] sent m p l tt z f
