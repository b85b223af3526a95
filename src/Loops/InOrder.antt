-- ===== src/Loops/InOrder.antt =====
-- What `rxer` hands on of a stream that `MarshalV2` wrote.
use channel.Base.{
  ℕ, zero, suc, ◌+◌, ◌-◌, ◌<◌, ◌≡◌, refl, ap, ◌∙◌, arith, List, [], ◌∷◌, ◌++◌, map, Bool, true,
  false, some, ok, All, if◌then◌else◌, ltb, ltb→lt, ltb→ge, length, take, take-append_le,
  take-append_ge, Bool-cases, inl, inr,
}
use channel.Base.Bytes.{Bytes}
use channel.Io.{Reader, contents}
use channel.Message.{Message}
use channel.Wire.Marshal.{marshal_v2}
use channel.Wire.Read.{read_v2}
use channel.Wire.Decode.{incomplete, observe, decode_v2, read_v2-decode}
use channel.Wire.RoundTrip.{IsSendable, received, decode-marshal_v2}
use channel.Wire.Truncation.{decode-truncated}
use channel.Transport.{UnderlayError, StreamUnderlay}
use channel.Channel.{ChannelImpl}
use channel.Channel.Dispatch.{rx}
use channel.Loops.{RxSetting, RxRun, inject_type, rx_turn, rxer_loop}
use channel.Loops.Turns.{ReadsV2, rx_turn_closed, rx_turn_message, rx_turn_incomplete}

-- The bytes of messages, one after the other.
unfoldable pub frames : List Message → Bytes
frames [] = []
frames (m ∷ ms) = (marshal_v2 m).1 ++ frames ms

-- How many of the messages lie in the first `k` bytes of their frames, whole.
unfoldable pub whole_frames : ℕ → List Message → ℕ
whole_frames k [] = 0
whole_frames k (m ∷ ms) =
    let size = length (marshal_v2 m).1 in
    let rest = whole_frames (k - size) ms in if ltb k size then 0 else suc rest

-- How many turns from turn `n` on, of `limit`, come before one that finds the underlay closed.
unfoldable pub open_turns : (ℕ → Bool) → ℕ → ℕ → ℕ
open_turns closed n zero = 0
open_turns closed n (suc limit) =
    let rest = open_turns closed (n + 1) limit in if closed n then 0 else suc rest

abbrev pub handed_on : RxSetting → List Message → List Message
handed_on s ms = map (λ (m : Message). inject_type s.inject s.underlay_type (received m)) ms

-- The run handed on just the first `k` messages, and came to an end.
abbrev pub HandsOn : RxSetting → List Message → ℕ → RxRun → Type 0
HandsOn s ms k run =
    (run.messages ≡ handed_on s (take k ms)) × ((e : UnderlayError) × (run.ended ≡ some e))

take-none : (k : ℕ) → take {A = ℕ} k [] ≡ []
take-none zero = refl
take-none (suc k) = refl

decode_nothing : decode_v2 [] ≡ incomplete
unfolding decode_v2
decode_nothing = refl

module _ (s : RxSetting) (u : StreamUnderlay) (v2 : ReadsV2 u) where
  stream_ends_early :
      (fuel n : ℕ) (peer : Reader) (c : ChannelImpl) (ms : List Message)
      → s.closed n ≡ false
      → observe (read_v2 peer) ≡ incomplete
      → HandsOn s ms 0 (rxer_loop (suc fuel) n s u peer c)
  unfolding rxer_loop
  stream_ends_early fuel n peer c ms up e =
      let (x, failed) = rx_turn_incomplete s n u peer v2 up e in
      rw (failed, rxer_loop) (refl, (x, refl))

  stopped_by_close :
      (fuel n : ℕ) (peer : Reader) (c : ChannelImpl) (ms : List Message)
      → s.closed n ≡ true
      → HandsOn s ms 0 (rxer_loop (suc fuel) n s u peer c)
  unfolding rxer_loop
  stopped_by_close fuel n peer c ms down =
      rw (rx_turn_closed s n u peer down, rxer_loop) (refl, (_, refl))

  no_turns_closed : (n limit : ℕ) → s.closed n ≡ true → open_turns s.closed n limit ≡ 0
  unfolding open_turns
  no_turns_closed n zero down = refl
  no_turns_closed n (suc limit) down = rw down

  -- A message that is handed on comes in front of what the following turns hand on.
  prepend_turn :
      (fuel n k : ℕ) (peer peer' : Reader) (c : ChannelImpl) (m : Message) (ms : List Message)
      → s.closed n ≡ false
      → ltb k (length (marshal_v2 m).1) ≡ false
      → rx_turn s n u peer ≡ ok (received m, peer')
      → ((c' : ChannelImpl)
          → HandsOn s ms
              (open_turns s.closed (n + 1) (whole_frames (k - length (marshal_v2 m).1) ms))
              (rxer_loop fuel (n + 1) s u peer' c'))
      → HandsOn s
          (m ∷ ms)
          (open_turns s.closed n (whole_frames k (m ∷ ms)))
          (rxer_loop (suc fuel) n s u peer c)
  unfolding rxer_loop open_turns whole_frames
  prepend_turn fuel n k peer peer' c m ms up whole got again =
      let m' = inject_type s.inject s.underlay_type (received m) in
      let r = rx (s.now n) m' c in
      rw (got, rxer_loop, whole, up) (ap (◌∷◌ m') (again r.0).0, (again r.0).1)

  -- The messages that lie whole in the part of the stream that arrives, in order, until the underlay is
  -- closed.
  pub rxer_loop-HandsOn :
      (ms : List Message) (fuel n k : ℕ) (peer : Reader) (c : ChannelImpl)
      → All IsSendable ms
      → length ms < fuel
      → contents peer ≡ take k (frames ms)
      → HandsOn s ms (open_turns s.closed n (whole_frames k ms)) (rxer_loop fuel n s u peer c)
  rxer_loop-HandsOn ms zero n k peer c fit enough e = absurd (omega arith)
  rxer_loop-HandsOn [] (suc fuel) n k peer c fit enough e =
      let nothing : take k (frames []) ≡ [] = unfold frames in take-none k in
      elim (Bool-cases (s.closed n)) [
        | inl down ↦ unfold open_turns whole_frames in stopped_by_close fuel n peer c [] down
        | inr up ↦
            unfold open_turns whole_frames in
            (stream_ends_early fuel n peer c [] up
              (read_v2-decode peer ∙ ap decode_v2 (e ∙ nothing) ∙ decode_nothing))
      ]
  rxer_loop-HandsOn (m ∷ ms) (suc fuel) n k peer c fit enough e =
      let bytes = (marshal_v2 m).1 in
      let size = length bytes in
      let all : frames (m ∷ ms) ≡ bytes ++ frames ms = unfold frames in refl in
      elim (Bool-cases (s.closed n)) [
        | inl down ↦
            let none_left : open_turns s.closed n (whole_frames k (m ∷ ms)) ≡ 0 =
              no_turns_closed n (whole_frames k (m ∷ ms)) down in
            rw none_left (stopped_by_close fuel n peer c (m ∷ ms) down)
        | inr up ↦ elim (Bool-cases (ltb k size)) [
          | inl cut ↦
              let part : contents peer ≡ take k bytes =
                e
                ∙ ap (take k) all
                ∙ take-append_le k bytes (frames ms) (omega (arith, ltb→lt _ _ cut)) in
              let none_whole : whole_frames k (m ∷ ms) ≡ 0 = unfold whole_frames in rw cut in
              let none_left : open_turns s.closed n 0 ≡ 0 = unfold open_turns in refl in
              rw (none_whole, none_left)
                (stream_ends_early fuel n peer c (m ∷ ms) up (
                  read_v2-decode peer
                  ∙ ap decode_v2 part
                  ∙ decode-truncated m k fit.0 (ltb→lt _ _ cut)))
          | inr whole ↦
              let left : Bytes = take (k - size) (frames ms) in
              let part : contents peer ≡ bytes ++ left =
                e ∙ ap (take k) all ∙ take-append_ge k bytes (frames ms) (ltb→ge _ _ whole) in
              let (peer', got, rest) =
                rx_turn_message s n u peer (received m) left v2 up
                  (read_v2-decode peer ∙ ap decode_v2 part ∙ decode-marshal_v2 m left fit.0) in
              prepend_turn fuel n k peer peer' c m ms up whole got (λ c'.
                rxer_loop-HandsOn ms fuel (n + 1) (k - size) peer' c' fit.1 (omega arith) rest)
        ]
      ]
