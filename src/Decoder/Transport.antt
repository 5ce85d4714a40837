-- ===== src/Decoder/Transport.antt =====
-- internal/core/decoder/transport.go.
use otus.Base.{
  ℕ, ◌*◌, ◌/◌, ◌%◌, ◌||◌, Bytes, at, be16, be32, drop, length, ltb, ◌==◌, if◌then◌else◌, u8,
}
use otus.Core.{TransportHeader, no_transport, Result, ok, err, packet_too_short}

abbrev pub udp_header_len : ℕ
udp_header_len = 8

abbrev pub tcp_header_min_len : ℕ
tcp_header_min_len = 20

abbrev pub protocol_tcp : ℕ
protocol_tcp = 6

abbrev pub protocol_udp : ℕ
protocol_udp = 17

unfoldable pub decode_udp : Bytes → Result (TransportHeader × Bytes)
decode_udp bs =
    if ltb (length bs) udp_header_len
    then err packet_too_short
    else ok (
      record no_transport { protocol = protocol_udp; src_port = be16 bs 0; dst_port = be16 bs 2 },
      drop udp_header_len bs,
    )

unfoldable pub decode_tcp : Bytes → Result (TransportHeader × Bytes)
decode_tcp bs =
    if ltb (length bs) tcp_header_min_len
    then err packet_too_short
    else let header_len = u8 (at bs 12 / 16 * 4) in
      if ltb header_len tcp_header_min_len || ltb (length bs) header_len
      then err packet_too_short
      else ok (
        record no_transport {
          protocol = protocol_tcp;
          src_port = be16 bs 0;
          dst_port = be16 bs 2;
          seq_num = be32 bs 4;
          ack_num = be32 bs 8;
          tcp_flags = at bs 13 % 64;
        },
        drop header_len bs,
      )

unfoldable pub decode_transport : Bytes → ℕ → Result (TransportHeader × Bytes)
unfolding decode_udp decode_tcp
decode_transport bs protocol =
    if protocol == protocol_tcp
    then decode_tcp bs
    else if protocol == protocol_udp
    then decode_udp bs
    else ok (record no_transport { protocol = protocol }, bs)
