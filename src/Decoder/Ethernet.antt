-- ===== src/Decoder/Ethernet.antt =====
-- internal/core/decoder/ethernet.go.
pub mod Frames
use otus.Base.{
  ℕ, suc, zero, ◌+◌, ◌%◌, Bool, ◌||◌, Bytes, List, [], ◌∷◌, ◌++◌, be16, slice, drop, length, ltb,
  ◌==◌, if◌then◌else◌,
}
use otus.Core.{EthernetHeader, Result, ok, err, packet_too_short}

abbrev pub ethernet_header_len : ℕ
ethernet_header_len = 14

abbrev pub vlan_header_len : ℕ
vlan_header_len = 4

abbrev pub ether_type_ipv4 : ℕ
ether_type_ipv4 = 0x0800

abbrev pub ether_type_ipv6 : ℕ
ether_type_ipv6 = 0x86DD

abbrev pub ether_type_vlan : ℕ
ether_type_vlan = 0x8100

abbrev pub ether_type_qinq : ℕ
ether_type_qinq = 0x88A8

-- What the loop over the VLAN tags carries: the EtherType, the offset and the tags so far.
pub record Tags : Type 0 where
  pub ether_type : ℕ
  pub offset : ℕ
  pub vlans : List ℕ

abbrev pub is_vlan : ℕ → Bool
is_vlan t = t == ether_type_vlan || t == ether_type_qinq

-- One round of the loop body, behind its length test.
unfoldable pub next_tag : Bytes → Tags → Tags
next_tag bs t = record {
  ether_type = be16 bs (t.offset + 2);
  offset = t.offset + vlan_header_len;
  vlans = t.vlans ++ (be16 bs t.offset % 4096) ∷ [];
}

-- The loop. Each round that goes on has four more bytes behind it, so `length bs` rounds are enough.
unfoldable pub vlan_loop : ℕ → Bytes → Tags → Result Tags
unfolding next_tag
vlan_loop zero bs t = if is_vlan t.ether_type then err packet_too_short else ok t
vlan_loop (suc fuel) bs t =
    let rest = vlan_loop fuel bs (next_tag bs t) in
    if is_vlan t.ether_type
    then if ltb (length bs) (t.offset + vlan_header_len) then err packet_too_short else rest
    else ok t

abbrev pub first_tag : Bytes → Tags
first_tag bs = record { ether_type = be16 bs 12; offset = ethernet_header_len; vlans = [] }

abbrev finish : Bytes → Result Tags → Result (EthernetHeader × Bytes)
finish bs (err e) = err e
finish bs (ok t) = ok (
  record {
    src_mac = slice bs 6 12;
    dst_mac = slice bs 0 6;
    ether_type = t.ether_type;
    vlans = t.vlans;
  },
  drop t.offset bs,
)

unfoldable pub decode_ethernet : Bytes → Result (EthernetHeader × Bytes)
unfolding vlan_loop
decode_ethernet bs =
    if ltb (length bs) ethernet_header_len
    then err packet_too_short
    else finish bs (vlan_loop (length bs) bs (first_tag bs))
