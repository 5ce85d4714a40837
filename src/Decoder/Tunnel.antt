-- ===== src/Decoder/Tunnel.antt =====
-- internal/core/decoder/tunnel.go. A packet that is no tunnel comes back with the header `no_ip`,
-- whose version is 0, and its bytes unchanged.
use otus.Base.{
  ℕ, ◌+◌, ◌*◌, ◌/◌, ◌%◌, ◌&&◌, not, Bytes, at, be16, drop, length, ltb, ◌==◌, if◌then◌else◌,
}
use otus.Core.{IpHeader, no_ip, Result, ok, err}
use otus.Decoder.Ethernet.{ethernet_header_len, ether_type_ipv4, ether_type_ipv6}
use otus.Decoder.Ip.{decode_ip}
use otus.Decoder.Transport.{protocol_udp}

abbrev pub protocol_gre : ℕ
protocol_gre = 47

abbrev pub protocol_ipip : ℕ
protocol_ipip = 4

abbrev pub vxlan_port : ℕ
vxlan_port = 4789

abbrev pub geneve_port : ℕ
geneve_port = 6081

abbrev pub vxlan_header_len : ℕ
vxlan_header_len = 8

abbrev pub geneve_header_len : ℕ
geneve_header_len = 8

abbrev pub gre_header_min_len : ℕ
gre_header_min_len = 4

abbrev pub Decap : Type 0
Decap = Result (IpHeader × Bytes)

abbrev not_tunnel : Bytes → Decap
not_tunnel bs = ok (no_ip, bs)

-- `if err != nil { return core.IPHeader{}, data, nil }`
abbrev or_not_tunnel : Bytes → Decap → Decap
or_not_tunnel bs (ok r) = ok r
or_not_tunnel bs (err e) = not_tunnel bs

-- The inner Ethernet frame of VXLAN and Geneve: 14 bytes, no VLAN.
unfoldable pub decode_inner_frame : Bytes → Bytes → Decap
decode_inner_frame bs frame =
    if ltb (length frame) ethernet_header_len
    then not_tunnel bs
    else if not (be16 frame 12 == ether_type_ipv4) && not (be16 frame 12 == ether_type_ipv6)
    then not_tunnel bs
    else or_not_tunnel bs (decode_ip (drop ethernet_header_len frame))

unfoldable pub decode_vxlan : Bytes → Decap
unfolding decode_inner_frame
decode_vxlan bs =
    if ltb (length bs) vxlan_header_len
    then not_tunnel bs
    else if at bs 0 / 8 % 2 == 0
    then not_tunnel bs
    else decode_inner_frame bs (drop vxlan_header_len bs)

unfoldable pub decode_geneve : Bytes → Decap
unfolding decode_inner_frame
decode_geneve bs =
    if ltb (length bs) geneve_header_len
    then not_tunnel bs
    else if not (at bs 0 / 64 == 0)
    then not_tunnel bs
    else let header_len = geneve_header_len + at bs 0 % 64 * 4 in
      if ltb (length bs) header_len
      then not_tunnel bs
      else decode_inner_frame bs (drop header_len bs)

-- Four more bytes for each flag that is set.
abbrev pub flag_len : ℕ → ℕ → ℕ
flag_len flags bit = if flags / bit % 2 == 0 then 0 else 4

unfoldable pub gre_header_len : ℕ → ℕ
gre_header_len flags =
    gre_header_min_len + flag_len flags 0x8000 + flag_len flags 0x2000 + flag_len flags 0x1000

unfoldable pub decode_gre : Bytes → Decap
unfolding gre_header_len
decode_gre bs =
    if ltb (length bs) gre_header_min_len
    then not_tunnel bs
    else let header_len = gre_header_len (be16 bs 0) in
      if ltb (length bs) header_len
      then not_tunnel bs
      else if not (be16 bs 2 == 0x0800) && not (be16 bs 2 == 0x86DD)
      then not_tunnel bs
      else or_not_tunnel bs (decode_ip (drop header_len bs))

unfoldable pub decode_ipip : Bytes → Decap
decode_ipip bs = decode_ip bs

unfoldable pub decode_tunnel : Bytes → ℕ → Decap
unfolding decode_gre decode_ipip decode_vxlan decode_geneve
decode_tunnel bs protocol =
    if protocol == protocol_gre
    then decode_gre bs
    else if protocol == protocol_ipip
    then decode_ipip bs
    else if protocol == protocol_udp
    then if ltb (length bs) 8
      then not_tunnel bs
      else if be16 bs 2 == vxlan_port
      then decode_vxlan (drop 8 bs)
      else if be16 bs 2 == geneve_port
      then decode_geneve (drop 8 bs)
      else not_tunnel bs
    else not_tunnel bs
