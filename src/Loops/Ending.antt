-- ===== src/Loops/Ending.antt =====
-- `rxer` ends on every stream: each message that it reads takes bytes from the stream.
use channel.Base.{
  ℕ, zero, suc, ◌+◌, ◌*◌, ◌≤◌, ◌<◌, ◌≡◌, refl, arith, Bool, some, ok, err, length, Bool-cases,
  Result-cases, inl, inr, ◌⊎◌,
}
use channel.Io.{Reader, contents}
use channel.Message.{Message}
use channel.Wire.Read.{read_v2}
use channel.Wire.Decode.{message, observe}
use channel.Wire.Limits.{read_v2_bounds}
use channel.Transport.{UnderlayError, underlay_closed, wire, StreamUnderlay}
use channel.Underlays.{Underlay}
use channel.Channel.{ChannelImpl, get_validated_underlay_type}
use channel.Channel.Dispatch.{rx}
use channel.Loops.{RxSetting, RxRun, inject_type, rx_turn, rxer_loop, rxer}
use channel.Loops.Turns.{ReadsV2, rx_turn_closed, rx_turn_open}

abbrev Ends : RxRun → Type 0
Ends run = (e : UnderlayError) × (run.ended ≡ some e)

-- A turn fails, or it reads a message of at least 20 bytes.
turn_reads :
    (s : RxSetting) (n : ℕ) (u : StreamUnderlay) (peer : Reader)
    → ReadsV2 u
    → ((e : UnderlayError) × (rx_turn s n u peer ≡ err e))
      ⊎ ((m : Message) × (peer' : Reader) × (rx_turn s n u peer ≡ ok (m, peer'))
          × (length (contents peer') + 20 + length m.body ≤ length (contents peer)))
turn_reads s n u peer v2 = elim (Bool-cases (s.closed n)) [
  | inl down ↦ inl (underlay_closed, rx_turn_closed s n u peer down)
  | inr up ↦ elim (Result-cases (read_v2 peer)) [
    | inl ((m, peer'), got) ↦
        let seen : observe (read_v2 peer) ≡ message m (contents peer') = rw got in
        inr (
          m,
          peer',
          rw (rx_turn_open s n u peer v2 up, got),
          (read_v2_bounds peer m (contents peer') seen).0,
        )
    | inr (x, failed) ↦ inl (wire x, rw (rx_turn_open s n u peer v2 up, failed))
  ]
]

module _ (s : RxSetting) (u : StreamUnderlay) (v2 : ReadsV2 u) where
  rxer_loop-Ends :
      (fuel n : ℕ) (peer : Reader) (c : ChannelImpl)
      → length (contents peer) < fuel * 20
      → Ends (rxer_loop fuel n s u peer c)
  unfolding rxer_loop
  rxer_loop-Ends zero n peer c enough = absurd (omega arith)
  rxer_loop-Ends (suc fuel) n peer c enough = elim (turn_reads s n u peer v2) [
    | inl (e, failed) ↦ rw (failed, rxer_loop) (e, refl)
    | inr (m, peer', got, shorter) ↦
        let r = rx (s.now n) (inject_type s.inject s.underlay_type m) c in
        rw (got, rxer_loop) (rxer_loop-Ends fuel (n + 1) peer' r.0 (omega (arith, shorter)))
  ]

-- `rxer` comes to an end on every stream that ends or breaks off, whatever its bytes are and whenever
-- the underlay is closed, after at most one turn for every 20 bytes and one more.
pub rxer_ends :
    (inject : Bool) (now : ℕ → ℕ) (closed : ℕ → Bool) (w : Underlay) (u : StreamUnderlay)
    (peer : Reader) (c : ChannelImpl) (fuel : ℕ)
    → ReadsV2 u
    → length (contents peer) < fuel * 20
    → (e : UnderlayError) × ((rxer fuel inject now closed w u peer c).ended ≡ some e)
unfolding rxer
rxer_ends inject now closed w u peer c fuel v2 enough =
    rxer_loop-Ends
      (record {
        inject = inject;
        underlay_type = get_validated_underlay_type c w;
        now = now;
        closed = closed;
      })
      u v2 fuel 0 peer c enough
