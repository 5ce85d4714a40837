-- ===== src/Task/Dispatch/Headers.antt =====
-- internal/task/task.go, `flowHash`, on a header that internal/core/decoder/ip.go reads.
use otus.Decoder.Ip.{decode_ip, decode_ipv4, decode_ipv6}
use otus.Decoder.Transport.{decode_transport, decode_tcp, decode_udp}
use otus.Task.Dispatch.{hash_addrs, hash_ports, hash_ipv4, hash_ipv6}
use otus.Fnv.{write}
use otus.Core.{
  EthernetHeader, IpHeader, Addr, FlowKey, Result, TransportHeader, err, v4, v6, ok, zero_addr,
  addr_from_slice,
}
use otus.Base.{
  ℕ, Bytes, Bool, Option, [], ltb, ◌==◌, ◌≡◌, length, ◌&&◌, none, put16, not, ◌||◌, some,
  if◌then◌else◌, ◌≤◌, be16, arith, suc, zero, length-append, IsBytes, ◌%◌, slice, ◌∷◌, u8, true,
  ◌*◌, le_or_lt, ◌+◌, inl, ◌/◌, inr, at, drop, length-slice,
}
use otus.Decoder.Ethernet.{vlan_loop, Tags, decode_ethernet, next_tag}

-- The frames that `flowHash` can read: at most one tag, and that of 802.1Q.
abbrev pub is_plain : Bytes → EthernetHeader → Bool
is_plain frame eth = ltb (length eth.vlans) 2 && not (be16 frame 12 == 0x88A8)

abbrev pub fits_type : EthernetHeader → IpHeader → Bool
fits_type eth ip =
    (eth.ether_type == 0x0800 && ip.version == 4) || (eth.ether_type == 0x86DD && ip.version == 6)

abbrev pub transport_key : IpHeader → Result (TransportHeader × Bytes) → Option FlowKey
transport_key ip (err e) = none
transport_key ip (ok (t, payload)) = some (record {
  src_ip = ip.src_ip;
  dst_ip = ip.dst_ip;
  src_port = t.src_port;
  dst_port = t.dst_port;
  proto = ip.protocol;
})

abbrev pub ip_key : EthernetHeader → Result (IpHeader × Bytes) → Option FlowKey
ip_key eth (err e) = none
ip_key eth (ok (ip, rest)) =
    if fits_type eth ip && (ip.protocol == 6 || ip.protocol == 17)
    then transport_key ip (decode_transport rest ip.protocol)
    else none

-- The 5-tuple of a TCP or UDP packet, by the decoder's own functions.
unfoldable pub five_tuple : Bytes → Option FlowKey
five_tuple frame = elim (decode_ethernet frame) [
  | err e ↦ none
  | ok (eth, raw) ↦ if is_plain frame eth then ip_key eth (decode_ip raw) else none
]

abbrev pub addr_bytes : Addr → Bytes
addr_bytes zero_addr = []
addr_bytes (v4 bs) = bs
addr_bytes (v6 bs) = bs

abbrev pub key_hash : FlowKey → ℕ
key_hash k =
    write
      (write (hash_addrs (addr_bytes k.src_ip) (addr_bytes k.dst_ip) k.proto) (put16 k.src_port))
      (put16 k.dst_port)

pub vlan_loop-grows :
    (fuel : ℕ) (frame : Bytes) (t u : Tags)
    → vlan_loop fuel frame t ≡ ok u
    → length t.vlans ≤ length u.vlans
unfolding vlan_loop next_tag
vlan_loop-grows zero frame t u e = ground arith
vlan_loop-grows (suc fuel) frame t u e =
    let rest = vlan_loop-grows fuel frame (next_tag frame t) u in
    ground (arith, rest, length-append t.vlans ((be16 frame t.offset % 4096) ∷ []))

pub put16-be16 :
    (bs : Bytes)
    → 4 ≤ length bs
    → IsBytes bs
    → (put16 (be16 bs 0) ≡ slice bs 0 2) × (put16 (be16 bs 2) ≡ slice bs 2 4)
put16-be16 [] n h = absurd (omega arith)
put16-be16 (a ∷ []) n h = absurd (omega arith)
put16-be16 (a ∷ b ∷ []) n h = absurd (omega arith)
put16-be16 (a ∷ b ∷ c ∷ []) n h = absurd (omega arith)
put16-be16 (a ∷ b ∷ c ∷ d ∷ bs) n h =
    let ha : u8 ((a * 256 + b) / 256) ≡ a = omega (arith, h.0, h.1.0) in
    let hb : u8 (a * 256 + b) ≡ b = omega (arith, h.0, h.1.0) in
    let hc : u8 ((c * 256 + d) / 256) ≡ c = omega (arith, h.1.1.0, h.1.1.1.0) in
    let hd : u8 (c * 256 + d) ≡ d = omega (arith, h.1.1.0, h.1.1.1.0) in
    (ground arith, ground arith)

pub hash_ports-transport :
    (h : ℕ) (proto : ℕ) (rest : Bytes) (t : TransportHeader) (payload : Bytes)
    → IsBytes rest
    → (proto == 6 || proto == 17) ≡ true
    → decode_transport rest proto ≡ ok (t, payload)
    → hash_ports h proto rest ≡ write (write h (put16 t.src_port)) (put16 t.dst_port)
unfolding hash_ports decode_transport decode_tcp decode_udp
hash_ports-transport h proto rest t payload b p e = elim (le_or_lt 4 (length rest)) [
  | inl long ↦ ground (arith, put16-be16 rest long b)
  | inr short ↦ absurd (ground arith)
]

pub from_slice-4 : (bs : Bytes) → length bs ≡ 4 → addr_from_slice bs ≡ some (v4 bs)
from_slice-4 bs h = rw h

pub from_slice-16 : (bs : Bytes) → length bs ≡ 16 → addr_from_slice bs ≡ some (v6 bs)
from_slice-16 bs h = rw h

-- What the decoder reads in an IP header that it accepts.
pub decode_ipv4-reads :
    (raw : Bytes) (ip : IpHeader) (rest : Bytes)
    → decode_ipv4 raw ≡ ok (ip, rest)
    → (20 ≤ length raw)
      × (20 ≤ at raw 0 % 16 * 4)
      × (at raw 0 % 16 * 4 ≤ length raw)
      × (ip.src_ip ≡ v4 (slice raw 12 16))
      × (ip.dst_ip ≡ v4 (slice raw 16 20))
      × (ip.protocol ≡ at raw 9)
      × (ip.version ≡ 4)
      × (rest ≡ drop (at raw 0 % 16 * 4) raw)
unfolding decode_ipv4
decode_ipv4-reads raw ip rest e = elim (le_or_lt 20 (length raw)) [
  | inr short ↦ absurd (ground arith)
  | inl long ↦
      let hl : u8 (at raw 0 % 16 * 4) ≡ at raw 0 % 16 * 4 = omega arith in
      let src =
        from_slice-4 (slice raw 12 16) (length-slice raw 12 16 (omega arith) (omega arith)) in
      let dst =
        from_slice-4 (slice raw 16 20) (length-slice raw 16 20 (omega arith) (omega arith)) in
      ground (arith, hl, src, dst)
]

pub decode_ipv6-reads :
    (raw : Bytes) (ip : IpHeader) (rest : Bytes)
    → decode_ipv6 raw ≡ ok (ip, rest)
    → (40 ≤ length raw)
      × (ip.src_ip ≡ v6 (slice raw 8 24))
      × (ip.dst_ip ≡ v6 (slice raw 24 40))
      × (ip.protocol ≡ at raw 6)
      × (ip.version ≡ 6)
      × (rest ≡ drop 40 raw)
unfolding decode_ipv6
decode_ipv6-reads raw ip rest e = elim (le_or_lt 40 (length raw)) [
  | inr short ↦ absurd (ground arith)
  | inl long ↦
      let src =
        from_slice-16 (slice raw 8 24) (length-slice raw 8 24 (omega arith) (omega arith)) in
      let dst =
        from_slice-16 (slice raw 24 40) (length-slice raw 24 40 (omega arith) (omega arith)) in
      ground (arith, src, dst)
]

abbrev pub hash_header : IpHeader → Bytes → ℕ
hash_header ip rest =
    hash_ports (hash_addrs (addr_bytes ip.src_ip) (addr_bytes ip.dst_ip) ip.protocol) ip.protocol
      rest

pub hash_ipv4-decode :
    (frame raw : Bytes) (ip : IpHeader) (rest : Bytes)
    → decode_ipv4 raw ≡ ok (ip, rest)
    → hash_ipv4 frame raw ≡ hash_header ip rest
unfolding hash_ipv4
hash_ipv4-decode frame raw ip rest e = ground (arith, decode_ipv4-reads raw ip rest e)

pub hash_ipv6-decode :
    (frame raw : Bytes) (ip : IpHeader) (rest : Bytes)
    → decode_ipv6 raw ≡ ok (ip, rest)
    → hash_ipv6 frame raw ≡ hash_header ip rest
unfolding hash_ipv6
hash_ipv6-decode frame raw ip rest e = ground (arith, decode_ipv6-reads raw ip rest e)
