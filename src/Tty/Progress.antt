-- ===== src/Tty/Progress.antt =====
-- The decoding of platform/tty_decoder.c uses up bytes or waits for more.
use retrodesk.Prelude.{
  ℕ, ◌+◌, ◌≤◌, ◌<◌, ◌≡◌, refl, Option, none, some, true, false, not, ◌&&◌, ◌||◌, ◌⊎◌, inl, inr,
  ◌==◌, ltb, leb, length, take, drop, length-drop, arith, if_either, Bool-cases, Option-cases,
}
use retrodesk.Event.{Event}
use retrodesk.Tty.Decoder.{
  TtyDecoder, KeyMap, pending_size, consume, byte_at, starts_mouse, search, parse_report,
  is_terminator, is_final, mouse_until, decode_mouse, csi_until, decode_csi_key, decode_key,
  after_mouse, decode,
}

-- A step of the decoding: bytes are used up, or nothing happens and there is room for more bytes.
abbrev pub Advances : TtyDecoder → Option Event × TtyDecoder → Type 0
Advances decoder res =
    (length res.1.pending < length decoder.pending)
    ⊎ ((res ≡ (none, decoder)) × (length decoder.pending < pending_size))

-- What the attempt to read a mouse report leaves to the other sequences.
abbrev Passes : TtyDecoder → Option Event × TtyDecoder → Type 0
Passes decoder res =
    ((res ≡ (none, decoder))
      × (starts_mouse decoder ≡ true → length decoder.pending < pending_size))
    ⊎ (length res.1.pending < length decoder.pending)

-- No more bytes than the buffer holds.
abbrev pub IsBounded : TtyDecoder → Type 0
IsBounded decoder = length decoder.pending ≤ pending_size

consume-lt :
    (n : ℕ) (decoder : TtyDecoder)
    → 0 < n
    → 0 < length decoder.pending
    → length (consume n decoder).pending < length decoder.pending
unfolding consume
consume-lt n decoder h k = omega (arith, length-drop {0} n decoder.pending)

module _ (decoder : TtyDecoder) (bound : IsBounded decoder)
    (full : 0 < length decoder.pending) where
  used : (n : ℕ) (e : Option Event) → 0 < n → Advances decoder (e, consume n decoder)
  used n e h = inl (consume-lt n decoder h full)

  mouse_until-Advances : (found : Option ℕ) → Advances decoder (mouse_until found decoder)
  mouse_until-Advances none =
      if_either (λ d. Advances decoder (none, d)) (length decoder.pending == pending_size)
        (λ _. used 1 none (omega arith)) (λ room. inr (refl, ground arith))
  mouse_until-Advances (some k) =
      elim (Option-cases (parse_report (take k (drop 3 decoder.pending)))) [
        | inl e ↦ rw (e, mouse_until) (used (k + 4) none (omega arith))
        | inr (r, e) ↦ rw (e, mouse_until) (inl (consume-lt (k + 4) decoder (omega arith) full))
      ]

  -- No mouse report was read, or bytes are used up.
  decode_mouse-Advances : Passes decoder (decode_mouse decoder)
  unfolding decode_mouse starts_mouse
  decode_mouse-Advances =
      if_either (Passes decoder) (ltb (length decoder.pending) 6 || not (starts_mouse decoder))
        (λ e. inl (refl, λ starts. ground arith))
        (λ e. elim (mouse_until-Advances (search is_terminator (drop 3 decoder.pending))) [
          | inl less ↦ inr less
          | inr (same, room) ↦ inl (same, λ _. room)
        ])

  csi_until-Advances :
      (keys : KeyMap) (found : Option ℕ) → Advances decoder (csi_until keys found decoder)
  csi_until-Advances keys none =
      if_either (λ d. Advances decoder (none, d)) (length decoder.pending == pending_size)
        (λ _. used (length decoder.pending) none full) (λ room. inr (refl, ground arith))
  csi_until-Advances keys (some k) = used (k + 3) _ (omega arith)

  decode_csi_key-Advances :
      (keys : KeyMap)
      → starts_mouse decoder ≡ false
      → (byte_at 0 decoder == 0x1B) ≡ true
      → (byte_at 1 decoder == 0x5B) ≡ true
      → Advances decoder (decode_csi_key keys decoder)
  unfolding decode_csi_key starts_mouse
  decode_csi_key-Advances keys other first second =
      if_either (Advances decoder)
        (ltb (length decoder.pending) 3
          || not (byte_at 0 decoder == 0x1B)
          || not (byte_at 1 decoder == 0x5B)
          || byte_at 2 decoder == 0x3C)
        (λ short. inr (refl, ground arith))
        (λ _. csi_until-Advances keys (search is_final (drop 2 decoder.pending)))

  decode_key-Advances :
      (keys : KeyMap) → starts_mouse decoder ≡ false → Advances decoder (decode_key keys decoder)
  unfolding decode_key
  decode_key-Advances keys other = elim (Bool-cases (byte_at 0 decoder == 0x1B)) [
    | inr e ↦ rw e (used 1 _ (omega arith))
    | inl e ↦ elim (Bool-cases (leb 2 (length decoder.pending) && byte_at 1 decoder == 0x5B)) [
      | inr f ↦ rw (e, f) (used 1 _ (omega arith))
      | inl f ↦ rw (e, f) (decode_csi_key-Advances keys other e (ground arith))
    ]
  ]

-- The bytes that follow an unsuccessful attempt are fewer than before it.
less_yet :
    (decoder d : TtyDecoder) (res : Option Event × TtyDecoder)
    → length d.pending < length decoder.pending
    → Advances d res
    → Advances decoder res
less_yet decoder d res h (inl less) = inl (omega arith)
less_yet decoder d res h (inr (same, room)) = inl (rw same h)

module _ (keys : KeyMap) (decoder : TtyDecoder) (bound : IsBounded decoder)
    (full : 0 < length decoder.pending) where
  unread-Advances :
      (starts_mouse decoder ≡ true → length decoder.pending < pending_size)
      → Advances decoder (after_mouse keys (none, decoder))
  unread-Advances room =
      if_either (Advances decoder) (length decoder.pending == 0 || starts_mouse decoder)
        (λ e. inr (refl, room (ground arith)))
        (λ e. decode_key-Advances decoder bound full keys (ground arith))

  read-Advances :
      (res : Option Event × TtyDecoder)
      → length res.1.pending < length decoder.pending
      → Advances decoder (after_mouse keys res)
  read-Advances (some e, d) less = inl less
  read-Advances (none, d) less =
      if_either (Advances decoder) (length d.pending == 0 || starts_mouse d) (λ e. inl less)
        (λ e.
          less_yet decoder d _ less
            (decode_key-Advances d (omega arith) (ground arith) keys (ground arith)))

  after_mouse-Advances :
      (res : Option Event × TtyDecoder)
      → Passes decoder res
      → Advances decoder (after_mouse keys res)
  after_mouse-Advances res p = elim p [
    | inl (same, room) ↦ rw same (unread-Advances room)
    | inr less ↦ read-Advances res less
  ]

-- With no more bytes than the buffer holds, decoding either uses up a byte at least, whether it gives
-- an event or not, or it gives no event, changes nothing and the buffer is not full.
pub decode-Advances :
    (keys : KeyMap) (decoder : TtyDecoder)
    → IsBounded decoder
    → Advances decoder (decode keys decoder)
unfolding decode
decode-Advances keys decoder bound = elim (Bool-cases (length decoder.pending == 0)) [
  | inl e ↦ rw e (inr (refl, ground arith))
  | inr e ↦
      let full : 0 < length decoder.pending = ground arith in
      rw e (
        after_mouse-Advances keys decoder bound full (decode_mouse decoder)
          (decode_mouse-Advances decoder bound full))
]
