-- ===== src/Tests/Transport.antt =====
-- The underlays on concrete messages.
use channel.Base.{◌≤◌, ◌<◌, ◌≡◌, ◌⊎◌, refl, none, some, ok, err, length, min, take}
use channel.Base.Bytes.{Bytes}
use channel.Wire.{WireError}
use channel.Wire.RoundTrip.{received}
use channel.Transport.{
  StreamUnderlay, new_classic_impl, close_stream, was_closed, stream_tx, not_sent, underlay_closed,
  wire, handed, pure_marshal_v2,
}
use channel.Transport.Packets.{
  DatagramUnderlay, new_datagram_underlay, datagram_rx, datagram_tx, datagram_size, packet_read_v2,
}
use channel.Wire.Marshal.{marshal_v2}
use channel.Transport.WholePackets.{packet_whole_or_error}
use channel.Tests.Wire.{sample, sample-IsSendable}

abbrev closed_once : StreamUnderlay
closed_once = (close_stream none (new_classic_impl none 2)).0

closed_twice : close_stream (some 9) closed_once ≡ (closed_once, was_closed)
unfolding close_stream new_classic_impl
closed_twice = refl

closed_tx : (stream_tx none sample closed_once).1 ≡ not_sent underlay_closed
unfolding stream_tx close_stream new_classic_impl
closed_tx = refl

abbrev datagrams : DatagramUnderlay
datagrams = new_datagram_underlay none 2

abbrev packet : Bytes
packet = (marshal_v2 sample).1

packet_sent : (datagram_tx none sample datagrams).1 ≡ handed packet none
unfolding datagram_tx new_datagram_underlay
packet_sent = refl

datagrams_write : datagrams.marshal_f ≡ pure_marshal_v2
unfolding new_datagram_underlay
datagrams_write = refl

datagrams_read : datagrams.read_f ≡ packet_read_v2
unfolding new_datagram_underlay
datagrams_read = refl

packet_whole_or_error_example :
    ((length packet ≤ min 30 datagram_size)
      × (datagram_rx (λ size. ok (take (min 30 size) packet)) datagrams ≡ ok (received sample)))
    ⊎ ((min 30 datagram_size < length packet)
        × ((x : WireError) × (datagram_rx (λ size. ok (take (min 30 size) packet)) datagrams
              ≡ err (wire x))))
packet_whole_or_error_example =
    packet_whole_or_error datagrams datagrams sample packet none 30 datagrams_write datagrams_read
      sample-IsSendable packet_sent
