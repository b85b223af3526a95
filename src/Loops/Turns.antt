-- ===== src/Loops/Turns.antt =====
-- One turn of `rxer` on an underlay that reads with `ReadV2`.
use channel.Base.{ℕ, ◌≡◌, true, false, ok, err}
use channel.Base.Bytes.{Bytes}
use channel.Io.{Reader, contents}
use channel.Message.{Message}
use channel.Wire.Read.{read_v2}
use channel.Wire.Decode.{message, incomplete, observe}
use channel.Wire.Seen.{read_v2_message, read_v2_incomplete}
use channel.Transport.{
  UnderlayError, underlay_closed, wire, StreamUnderlay, stream_read_v2, stream_rx,
}
use channel.Loops.{RxSetting, rx_turn}

abbrev pub ReadsV2 : StreamUnderlay → Type 0
ReadsV2 u = u.read_f ≡ stream_read_v2

module _ (s : RxSetting) (n : ℕ) (u : StreamUnderlay) (peer : Reader) where
  pub rx_turn_closed : s.closed n ≡ true → rx_turn s n u peer ≡ err underlay_closed
  unfolding rx_turn stream_rx
  rx_turn_closed e = rw e

  pub rx_turn_open : ReadsV2 u → s.closed n ≡ false → rx_turn s n u peer ≡ stream_read_v2 peer
  unfolding rx_turn stream_rx
  rx_turn_open v2 e = rw (e, v2)

  pub rx_turn_message :
      (m : Message) (rest : Bytes)
      → ReadsV2 u
      → s.closed n ≡ false
      → observe (read_v2 peer) ≡ message m rest
      → (peer' : Reader) × (rx_turn s n u peer ≡ ok (m, peer')) × (contents peer' ≡ rest)
  rx_turn_message m rest v2 is_open e =
      let (peer', got, left) = read_v2_message peer m rest e in
      (peer', rw (rx_turn_open v2 is_open, got), left)

  pub rx_turn_incomplete :
      ReadsV2 u
      → s.closed n ≡ false
      → observe (read_v2 peer) ≡ incomplete
      → (x : UnderlayError) × (rx_turn s n u peer ≡ err x)
  rx_turn_incomplete v2 is_open e =
      let (x, failed) = read_v2_incomplete peer e in (wire x, rw (rx_turn_open v2 is_open, failed))
