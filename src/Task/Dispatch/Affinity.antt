-- ===== src/Task/Dispatch/Affinity.antt =====
-- internal/task/task.go, `flowHash`: the hash of a frame against the flow that the decoder reads in it.
use otus.Task.Dispatch.Headers.{
  fits_type, decode_ipv6-reads, vlan_loop-grows, is_plain, five_tuple, hash_header,
  decode_ipv4-reads, key_hash, hash_ipv6-decode, transport_key, hash_ipv4-decode, addr_bytes,
  hash_ports-transport,
}
use mathlib.Core.Path.{subst}
use otus.Decoder.Ip.{decode_ip}
use otus.Decoder.Transport.{decode_transport}
use otus.Task.Dispatch.{hash_addrs, hash_network, flow_hash}
use otus.Fnv.{write}
use otus.Core.{EthernetHeader, IpHeader, FlowKey, TransportHeader, ok, Result-cases}
use otus.Base.{
  ℕ, Bytes, [], ◌==◌, ◌≡◌, length, put16, ◌||◌, some, ◌≤◌, be16, arith, suc, zero, IsBytes, ◌%◌,
  ◌∷◌, true, ◌*◌, le_or_lt, inl, inr, at, drop, ◌⊎◌, sym, ◌≢◌, ◌<◌, ◌∙◌, ap,
}
use otus.Decoder.Ethernet.{vlan_loop, Tags, decode_ethernet, next_tag, first_tag}

hash_network-decode :
    (frame raw : Bytes) (eth : EthernetHeader) (start : ℕ) (ip : IpHeader) (rest : Bytes)
    → drop start frame ≡ raw
    → decode_ip raw ≡ ok (ip, rest)
    → fits_type eth ip ≡ true
    → hash_network frame eth.ether_type start ≡ hash_header ip rest
unfolding hash_network decode_ip
hash_network-decode frame raw eth start ip rest d e f =
    let six = decode_ipv6-reads raw ip rest in
    let four = decode_ipv4-reads raw ip rest in
    let hash6 = hash_ipv6-decode frame raw ip rest in
    let hash4 = hash_ipv4-decode frame raw ip rest in rw d (ground (arith, six, four, hash4, hash6))

IsBytes-drop : (n : ℕ) (bs : Bytes) → IsBytes bs → IsBytes (drop n bs)
IsBytes-drop zero bs h = h
IsBytes-drop (suc n) [] h = tt
IsBytes-drop (suc n) (b ∷ bs) h = IsBytes-drop n bs h.1

decode_ip-rest :
    (raw : Bytes) (ip : IpHeader) (rest : Bytes)
    → decode_ip raw ≡ ok (ip, rest)
    → IsBytes raw
    → IsBytes rest
unfolding decode_ip
decode_ip-rest raw ip rest e b =
    let six = decode_ipv6-reads raw ip rest in
    let four = decode_ipv4-reads raw ip rest in
    let where_from : (rest ≡ drop (at raw 0 % 16 * 4) raw) ⊎ (rest ≡ drop 40 raw) =
      ground (arith, six, four) in
    elim where_from [
      | inl e4 ↦ subst IsBytes (sym e4) (IsBytes-drop (at raw 0 % 16 * 4) raw b)
      | inr e6 ↦ subst IsBytes (sym e6) (IsBytes-drop 40 raw b)
    ]

abbrev PlainTags : Bytes → Tags → Type 0
PlainTags frame u =
    ((be16 frame 12 ≡ 0x8100)
      × (18 ≤ length frame)
      × (u.ether_type ≡ be16 frame 16)
      × (u.offset ≡ 18))
    ⊎ ((be16 frame 12 ≢ 0x8100) × (u.ether_type ≡ be16 frame 12) × (u.offset ≡ 14))

loop-plain :
    (fuel : ℕ) (frame : Bytes) (u : Tags)
    → vlan_loop (suc (suc fuel)) frame (first_tag frame) ≡ ok u
    → length u.vlans < 2
    → be16 frame 12 ≢ 0x88A8
    → PlainTags frame u
unfolding vlan_loop next_tag
loop-plain fuel frame u e n q =
    ground (arith, vlan_loop-grows fuel frame (next_tag frame (next_tag frame (first_tag frame))) u)

loop_start-plain :
    (fuel : ℕ) (frame : Bytes) (u : Tags)
    → vlan_loop fuel frame (first_tag frame) ≡ ok u
    → 2 ≤ fuel
    → length u.vlans < 2
    → be16 frame 12 ≢ 0x88A8
    → PlainTags frame u
loop_start-plain zero frame u e h n q = absurd (omega arith)
loop_start-plain (suc zero) frame u e h n q = absurd (omega arith)
loop_start-plain (suc (suc fuel)) frame u e h n q = loop-plain fuel frame u e n q

flow_hash-plain :
    (frame : Bytes) (u : Tags)
    → 14 ≤ length frame
    → PlainTags frame u
    → flow_hash frame ≡ hash_network frame u.ether_type u.offset
unfolding flow_hash
flow_hash-plain frame u long plain = ground arith

-- `flowHash` finds the IP header where the decoder finds it.
flow_hash-ethernet :
    (frame raw : Bytes) (eth : EthernetHeader)
    → decode_ethernet frame ≡ ok (eth, raw)
    → is_plain frame eth ≡ true
    → (start : ℕ) × (drop start frame ≡ raw)
      × (flow_hash frame ≡ hash_network frame eth.ether_type start)
unfolding decode_ethernet
flow_hash-ethernet frame raw eth e p = elim (le_or_lt 14 (length frame)) [
  | inr short ↦ absurd (ground arith)
  | inl long ↦ elim (Result-cases (vlan_loop (length frame) frame (first_tag frame))) [
    | inl (x, bad) ↦ absurd (ground arith)
    | inr (u, loop) ↦
        let plain =
          loop_start-plain (length frame) frame u loop (omega arith) (ground arith)
            (ground arith) in
        let there : drop u.offset frame ≡ raw = ground arith in
        let hash = flow_hash-plain frame u long plain in
        let type : u.ether_type ≡ eth.ether_type = ground arith in
        (u.offset, there, hash ∙ ap (λ (x : ℕ). hash_network frame x u.offset) type)
  ]
]

-- The hash of a frame is that of the 5-tuple that the decoder reads in it, and of nothing else.
pub flow_hash-five_tuple :
    (frame : Bytes) (k : FlowKey)
    → IsBytes frame
    → five_tuple frame ≡ some k
    → flow_hash frame ≡ key_hash k
unfolding five_tuple
flow_hash-five_tuple frame k b e = elim (Result-cases (decode_ethernet frame)) [
  | inl (x, bad) ↦ absurd (ground arith)
  | inr ((eth, raw), eth_ok) ↦ elim (Result-cases (decode_ip raw)) [
    | inl (x, bad) ↦ absurd (ground arith)
    | inr ((ip, rest), ip_ok) ↦ elim (Result-cases (decode_transport rest ip.protocol)) [
      | inl (x, bad) ↦ absurd (ground arith)
      | inr ((t, payload), t_ok) ↦
          let plain : is_plain frame eth ≡ true = ground arith in
          let fits : fits_type eth ip ≡ true = ground arith in
          let proto : (ip.protocol == 6 || ip.protocol == 17) ≡ true = ground arith in
          let at_ip = flow_hash-ethernet frame raw eth eth_ok plain in
          let raw_bytes = subst IsBytes at_ip.1 (IsBytes-drop at_ip.0 frame b) in
          let key : transport_key ip (ok (t, payload)) ≡ some k = ground arith in
          let from_header = hash_network-decode frame raw eth at_ip.0 ip rest at_ip.1 ip_ok fits in
          let ports =
            hash_ports-transport
              (hash_addrs (addr_bytes ip.src_ip) (addr_bytes ip.dst_ip) ip.protocol) ip.protocol
              rest t payload (decode_ip-rest raw ip rest ip_ok raw_bytes) proto t_ok in
          at_ip.2 ∙ from_header ∙ ports ∙ key_of ip t payload k key
    ]
  ]
]
  where
    key_of :
        (ip : IpHeader) (t : TransportHeader) (payload : Bytes) (k' : FlowKey)
        → transport_key ip (ok (t, payload)) ≡ some k'
        → write
            (write
              (hash_addrs (addr_bytes ip.src_ip) (addr_bytes ip.dst_ip) ip.protocol)
              (put16 t.src_port))
            (put16 t.dst_port)
          ≡ key_hash k'
    key_of ip t payload k' h = ground arith
