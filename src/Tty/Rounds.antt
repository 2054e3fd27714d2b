-- ===== src/Tty/Rounds.antt =====
-- The decoding of platform/tty_decoder.c comes to an end, and its buffer keeps its bound.
use retrodesk.Prelude.{
  ℕ, zero, suc, ◌-◌, ◌≤◌, ◌<◌, ◌≡◌, refl, ap, ◌∙◌, none, inl, inr, List, [], ◌∷◌, length, take,
  length-take, length-append, arith,
}
use retrodesk.Tty.Decoder.{TtyDecoder, KeyMap, pending_size, init, append, decode}
use retrodesk.Tty.Progress.{IsBounded, decode-Advances}

-- Decoding again and again.
abbrev pub rounds : ℕ → KeyMap → TtyDecoder → TtyDecoder
rounds zero keys decoder = decoder
rounds (suc n) keys decoder = rounds n keys (decode keys decoder).1

rounds-same :
    (n : ℕ) (keys : KeyMap) (decoder : TtyDecoder)
    → decode keys decoder ≡ (none, decoder)
    → rounds n keys decoder ≡ decoder
rounds-same zero keys decoder e = refl
rounds-same (suc n) keys decoder e = ap (λ r. rounds n keys r.1) e ∙ rounds-same n keys decoder e

-- Decoding again and again comes to an end: after as many rounds as bytes wait, decoding gives no event
-- and changes nothing, and the buffer has room for more bytes.
pub rounds-end :
    (n : ℕ) (keys : KeyMap) (decoder : TtyDecoder)
    → IsBounded decoder
    → length decoder.pending ≤ n
    → (decode keys (rounds n keys decoder) ≡ (none, rounds n keys decoder))
      × (length (rounds n keys decoder).pending < pending_size)
rounds-end zero keys decoder bound h = elim (decode-Advances keys decoder bound) [
  | inl less ↦ absurd (omega arith)
  | inr stop ↦ stop
]
rounds-end (suc n) keys decoder bound h = elim (decode-Advances keys decoder bound) [
  | inl less ↦ rounds-end n keys (decode keys decoder).1 (omega arith) (omega arith)
  | inr (same, room) ↦
      let e : rounds n keys (decode keys decoder).1 ≡ decoder =
        ap (λ r. rounds n keys r.1) same ∙ rounds-same n keys decoder same in
      rw e (same, room)
]

-- The calls of the decoder.
pub data Call : Type 0 where
  appends : List ℕ → Call
  decodes : Call

unfoldable pub perform_all : KeyMap → List Call → TtyDecoder → TtyDecoder
perform_all keys [] decoder = decoder
perform_all keys (appends bytes ∷ calls) decoder = perform_all keys calls (append bytes decoder)
perform_all keys (decodes ∷ calls) decoder = perform_all keys calls (decode keys decoder).1

append-IsBounded :
    (bytes : List ℕ) (decoder : TtyDecoder) → IsBounded decoder → IsBounded (append bytes decoder)
unfolding append
append-IsBounded bytes decoder h = omega (
  arith,
  length-append {0} decoder.pending (take (pending_size - length decoder.pending) bytes),
  length-take {0} (pending_size - length decoder.pending) bytes,
)

decode-IsBounded :
    (keys : KeyMap) (decoder : TtyDecoder) → IsBounded decoder → IsBounded (decode keys decoder).1
decode-IsBounded keys decoder h = elim (decode-Advances keys decoder h) [
  | inl less ↦ omega arith
  | inr (same, room) ↦ rw same h
]

perform_all-IsBounded :
    (keys : KeyMap) (calls : List Call) (decoder : TtyDecoder)
    → IsBounded decoder
    → IsBounded (perform_all keys calls decoder)
unfolding perform_all
perform_all-IsBounded keys [] decoder h = h
perform_all-IsBounded keys (appends bytes ∷ calls) decoder h =
    perform_all-IsBounded keys calls (append bytes decoder) (append-IsBounded bytes decoder h)
perform_all-IsBounded keys (decodes ∷ calls) decoder h =
    perform_all-IsBounded keys calls (decode keys decoder).1 (decode-IsBounded keys decoder h)

-- Whatever bytes come in and however often it decodes, a decoder that has just been initialized never
-- keeps more than the 64 bytes that its buffer holds.
pub perform_all-init-IsBounded :
    (keys : KeyMap) (calls : List Call) → IsBounded (perform_all keys calls init)
perform_all-init-IsBounded keys calls =
    perform_all-IsBounded keys calls init (unfold init in omega arith)
