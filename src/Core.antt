-- ===== src/Core.antt =====
-- internal/core: addresses, headers, packets, sentinel errors and labels, and the flow key of
-- pkg/plugin/parser.go. A `netip.Addr` is its zero value or a form of 4 or 16 bytes; a `time.Time`
-- is the number of nanoseconds since the zero time.
use otus.Base.{
  nat_eq, list_eq, [], ◌∷◌, ℕ, ◌≡◌, ◌↔◌, Bool, true, false, ◌&&◌, Option, none, some, arith, Bytes,
  Eq, ◌=?◌, ◌==◌, length, if◌then◌else◌, list_beq_iff, List, list_beq, ◌⊎◌, inr, inl, refl,
}

pub data Addr : Type 0 where
  zero_addr : Addr
  v4 : Bytes → Addr
  v6 : Bytes → Addr

abbrev pub addr_beq : Addr → Addr → Bool
addr_beq zero_addr zero_addr = true
addr_beq (v4 a) (v4 b) = list_beq a b
addr_beq (v6 a) (v6 b) = list_beq a b
addr_beq _ _ = false

pub addr_beq_iff : (a b : Addr) → (addr_beq a b ≡ true) ↔ (a ≡ b)
addr_beq_iff zero_addr zero_addr = ground arith
addr_beq_iff zero_addr (v4 b) = ground arith
addr_beq_iff zero_addr (v6 b) = ground arith
addr_beq_iff (v4 a) zero_addr = ground arith
addr_beq_iff (v4 a) (v4 b) = ground (arith, list_beq_iff a b)
addr_beq_iff (v4 a) (v6 b) = ground arith
addr_beq_iff (v6 a) zero_addr = ground arith
addr_beq_iff (v6 a) (v4 b) = ground arith
addr_beq_iff (v6 a) (v6 b) = ground (arith, list_beq_iff a b)

instance abbrev pub addr_eq : Eq Addr
addr_eq = record { beq = addr_beq; beq_iff = addr_beq_iff }

-- `netip.AddrFromSlice`
abbrev pub addr_from_slice : Bytes → Option Addr
addr_from_slice bs =
    if length bs == 4 then some (v4 bs) else if length bs == 16 then some (v6 bs) else none

-- `Addr.IsValid` and `Addr.Is6`
abbrev pub is_valid : Addr → Bool
is_valid zero_addr = false
is_valid _ = true

abbrev pub is6 : Addr → Bool
is6 (v6 bs) = true
is6 _ = false

-- `0` for a field that the source leaves at its zero value.
pub record EthernetHeader : Type 0 where
  pub src_mac : Bytes
  pub dst_mac : Bytes
  pub ether_type : ℕ
  pub vlans : List ℕ

pub record IpHeader : Type 0 where
  pub version : ℕ
  pub src_ip : Addr
  pub dst_ip : Addr
  pub protocol : ℕ
  pub ttl : ℕ
  pub total_len : ℕ
  pub inner_src_ip : Addr
  pub inner_dst_ip : Addr

pub record TransportHeader : Type 0 where
  pub src_port : ℕ
  pub dst_port : ℕ
  pub protocol : ℕ
  pub tcp_flags : ℕ
  pub seq_num : ℕ
  pub ack_num : ℕ

pub record RawPacket : Type 0 where
  pub bytes : Bytes
  pub timestamp : ℕ
  pub capture_len : ℕ
  pub orig_len : ℕ

pub record DecodedPacket : Type 0 where
  pub timestamp : ℕ
  pub ethernet : EthernetHeader
  pub ip : IpHeader
  pub transport : TransportHeader
  pub payload : Bytes
  pub capture_len : ℕ
  pub orig_len : ℕ
  pub reassembled : Bool

abbrev pub no_ethernet : EthernetHeader
no_ethernet = record {
  src_mac = 0 ∷ 0 ∷ 0 ∷ 0 ∷ 0 ∷ 0 ∷ [];
  dst_mac = 0 ∷ 0 ∷ 0 ∷ 0 ∷ 0 ∷ 0 ∷ [];
  ether_type = 0;
  vlans = [];
}

abbrev pub no_ip : IpHeader
no_ip = record {
  version = 0;
  src_ip = zero_addr;
  dst_ip = zero_addr;
  protocol = 0;
  ttl = 0;
  total_len = 0;
  inner_src_ip = zero_addr;
  inner_dst_ip = zero_addr;
}

abbrev pub no_transport : TransportHeader
no_transport = record {
  src_port = 0;
  dst_port = 0;
  protocol = 0;
  tcp_flags = 0;
  seq_num = 0;
  ack_num = 0;
}

-- The errors of the decoder: the sentinels of internal/core/errors.go, and the messages that the
-- decoder makes up.
pub data Error : Type 0 where
  packet_too_short unsupported_proto fragment_incomplete : Error
  ip_too_short invalid_ihl fragment_too_small fragment_offset_too_large : Error
  exceeds_max_ip_size rate_limit_exceeded list_too_long too_many_fragments : Error
  reassembled_too_large empty_packet : Error
  ethernet_failed ip_failed reassembly_failed transport_failed : Error → Error

-- What a decoding step returns: a header and the bytes behind it, or an error.
pub data Result {ℓ} (A : Type ℓ) : Type ℓ where
  ok : A → Result A
  err : Error → Result A

pub Result-cases {ℓ} :
    {A : Type ℓ} (r : Result A) → ((e : Error) × (r ≡ err e)) ⊎ ((a : A) × (r ≡ ok a))
Result-cases (ok a) = inr (a, refl)
Result-cases (err e) = inl (e, refl)

-- pkg/plugin/parser.go, `FlowKey`.
pub record FlowKey : Type 0 where
  pub src_ip : Addr
  pub dst_ip : Addr
  pub src_port : ℕ
  pub dst_port : ℕ
  pub proto : ℕ

abbrev pub flow_key_beq : FlowKey → FlowKey → Bool
flow_key_beq a b =
    (a.src_ip =? b.src_ip)
    && (a.dst_ip =? b.dst_ip)
    && (a.src_port =? b.src_port)
    && (a.dst_port =? b.dst_port)
    && (a.proto =? b.proto)

pub flow_key_beq_iff : (a b : FlowKey) → (flow_key_beq a b ≡ true) ↔ (a ≡ b)
flow_key_beq_iff a b =
    ground (arith, addr_beq_iff a.src_ip b.src_ip, addr_beq_iff a.dst_ip b.dst_ip)

instance abbrev pub flow_key_eq : Eq FlowKey
flow_key_eq = record { beq = flow_key_beq; beq_iff = flow_key_beq_iff }
