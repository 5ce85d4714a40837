-- ===== src/Decoder/Ip.antt =====
-- internal/core/decoder/ip.go.
use otus.Base.{
  ℕ, ◌+◌, ◌*◌, ◌/◌, ◌%◌, Bool, false, ◌||◌, not, Bytes, none, some, at, be16, slice, drop, length,
  ltb, ◌==◌, if◌then◌else◌, u8, u16,
}
use otus.Core.{
  Addr, IpHeader, no_ip, addr_from_slice, Result, ok, err, packet_too_short, unsupported_proto,
}

abbrev pub ipv4_header_min_len : ℕ
ipv4_header_min_len = 20

abbrev pub ipv6_header_len : ℕ
ipv6_header_len = 40

-- `netip.AddrFromSlice` with the source's error for a slice of the wrong length.
abbrev with_addr : Bytes → (Addr → Result (IpHeader × Bytes)) → Result (IpHeader × Bytes)
with_addr bs k = elim (addr_from_slice bs) [ none ↦ err packet_too_short | some a ↦ k a ]

unfoldable pub decode_ipv4 : Bytes → Result (IpHeader × Bytes)
decode_ipv4 bs =
    if ltb (length bs) ipv4_header_min_len
    then err packet_too_short
    else let header_len = u8 (at bs 0 % 16 * 4) in
      if ltb header_len ipv4_header_min_len || ltb (length bs) header_len
      then err packet_too_short
      else with_addr (slice bs 12 16) λ src. with_addr (slice bs 16 20) λ dst. ok (
        record no_ip {
          version = 4;
          total_len = be16 bs 2;
          ttl = at bs 8;
          protocol = at bs 9;
          src_ip = src;
          dst_ip = dst;
        },
        drop header_len bs,
      )

unfoldable pub decode_ipv6 : Bytes → Result (IpHeader × Bytes)
decode_ipv6 bs =
    if ltb (length bs) ipv6_header_len
    then err packet_too_short
    else with_addr (slice bs 8 24) λ src. with_addr (slice bs 24 40) λ dst. ok (
      record no_ip {
        version = 6;
        total_len = u16 (ipv6_header_len + be16 bs 4);
        protocol = at bs 6;
        ttl = at bs 7;
        src_ip = src;
        dst_ip = dst;
      },
      drop ipv6_header_len bs,
    )

unfoldable pub decode_ip : Bytes → Result (IpHeader × Bytes)
unfolding decode_ipv4 decode_ipv6
decode_ip bs =
    if ltb (length bs) 1
    then err packet_too_short
    else let version = at bs 0 / 16 in
      if version == 4
      then decode_ipv4 bs
      else if version == 6
      then decode_ipv6 bs
      else err unsupported_proto

-- The flags and the fragment offset, bytes 6 and 7.
abbrev pub more_fragments : Bytes → Bool
more_fragments bs = be16 bs 6 / 8192 % 2 == 1

abbrev pub frag_offset : Bytes → ℕ
frag_offset bs = be16 bs 6 % 8192

unfoldable pub is_ip_fragment : Bytes → ℕ → Bool
is_ip_fragment bs version =
    if version == 4
    then if ltb (length bs) ipv4_header_min_len
      then false
      else more_fragments bs || not (frag_offset bs == 0)
    else false
