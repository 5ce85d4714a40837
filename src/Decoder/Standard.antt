-- ===== src/Decoder/Standard.antt =====
-- internal/core/decoder/decoder.go. `Decode` returns the new reassembler beside its result; the packet
-- that it returns with an error, which no caller reads, is left out.
use otus.Decoder.Ethernet.{decode_ethernet}
use otus.Decoder.Transport.{decode_transport}
use otus.Decoder.Ip.{decode_ip, is_ip_fragment}
use otus.Decoder.Tunnel.{decode_tunnel}
use otus.Decoder.Reassembly.{
  Reassembler, or_default, Outcome, new_reassembler, complete, failed, process, incomplete,
  panicked,
}
use Prim.Native.String.{String}
use otus.Base.{
  List, Option, ℕ, Bool, Bytes, if◌then◌else◌, some, false, ◌==◌, length, ◌∷◌, [], ◌&&◌, ◌||◌, none,
  ◌=?◌, true, string_eq,
}
use otus.Core.{
  Error, DecodedPacket, RawPacket, IpHeader, no_ethernet, Result, no_ip, err, no_transport,
  empty_packet, ok, ip_failed, transport_failed, fragment_incomplete, ethernet_failed,
  reassembly_failed,
}

pub record Config : Type 0 where
  pub tunnels : List String
  pub ip_reassembly : Bool
  pub max_fragments : ℕ
  pub max_reassemble_size : ℕ
  pub reassembly_timeout : ℕ

-- The tunnel map is read only for its keys; `reassembler` is `nil` if reassembly is off.
pub record StandardDecoder : Type 0 where
  pub config : Config
  pub reassembler : Option Reassembler
  pub tunnels : List String

unfoldable pub new_standard_decoder : Config → ℕ → StandardDecoder
new_standard_decoder cfg now =
    let cfg' = record cfg {
      max_fragments = or_default cfg.max_fragments 100;
      max_reassemble_size = or_default cfg.max_reassemble_size 65535;
      reassembly_timeout = or_default cfg.reassembly_timeout 60;
    } in
    record {
      config = cfg';
      tunnels = cfg.tunnels;
      reassembler =
          if cfg.ip_reassembly
          then some (
              new_reassembler
                (record {
                  max_fragments = cfg'.max_fragments;
                  max_reassemble_size = cfg'.max_reassemble_size;
                  timeout = cfg'.reassembly_timeout;
                  max_frags_per_ip = 0;
                  rate_limit_window = 0;
                })
                now)
          else none;
    }

abbrev pub has : List String → String → Bool
has [] t = false
has (x ∷ xs) t = (x =? t) || has xs t

unfoldable pub should_decap_tunnel : StandardDecoder → ℕ → Bool
should_decap_tunnel sd protocol =
    if (protocol == 47) && has sd.tunnels "gre"
    then true
    else if (protocol == 17) && (has sd.tunnels "vxlan" || has sd.tunnels "geneve")
    then true
    else (protocol == 4) && has sd.tunnels "ipip"

pub data Decoded : Type 0 where
  decoded : DecodedPacket → Decoded
  rejected : Error → Decoded
  crashed : Decoded

-- L4, the last step: `bs` is what lies behind the (inner) IP header `ip`.
unfoldable pub decode_l4 : DecodedPacket → IpHeader → Bytes → Decoded
decode_l4 d ip bs =
    if ip.protocol == 6 || ip.protocol == 17
    then elim (decode_transport bs ip.protocol) [
      | err e ↦ rejected (transport_failed e)
      | ok (t, payload) ↦ decoded (record d { transport = t; payload = payload })
    ]
    else decoded (record d { payload = bs })

abbrev pub inner_or_outer : DecodedPacket → IpHeader → Bytes → Result (IpHeader × Bytes) → Decoded
inner_or_outer d ip bs (err e) = decode_l4 d ip bs
inner_or_outer d ip bs (ok (inner, payload)) =
    if inner.version == 0
    then decode_l4 d ip bs
    else decode_l4
        (record d {
          ip = record (d.ip) { inner_src_ip = inner.src_ip; inner_dst_ip = inner.dst_ip };
        })
        inner payload

-- The tunnel, if the configuration has one for the protocol.
unfoldable pub decap : StandardDecoder → DecodedPacket → IpHeader → Bytes → Decoded
decap sd d ip bs =
    if should_decap_tunnel sd ip.protocol
    then inner_or_outer d ip bs (decode_tunnel bs ip.protocol)
    else decode_l4 d ip bs

abbrev pub reassembled_or_not : StandardDecoder → DecodedPacket → IpHeader → Outcome → Decoded
reassembled_or_not sd d ip (complete bs) = decap sd (record d { reassembled = true }) ip bs
reassembled_or_not sd d ip incomplete = rejected fragment_incomplete
reassembled_or_not sd d ip (failed e) = rejected (reassembly_failed e)
reassembled_or_not sd d ip panicked = crashed

-- The reassembly of the outer IP packet: `raw` is the packet with its header, `bs` without.
unfoldable pub reassemble :
    StandardDecoder → DecodedPacket → IpHeader → Bytes → Bytes → StandardDecoder × Decoded
reassemble sd d ip raw bs = elim sd.reassembler [
  | none ↦ (sd, decap sd d ip bs)
  | some r ↦
      if ip.version == 4 && is_ip_fragment raw ip.version
      then (let (r', o) = process r raw d.timestamp in
          (record sd { reassembler = some r' }, reassembled_or_not sd d ip o))
      else (sd, decap sd d ip bs)
]

unfoldable pub decode_ip_packet :
    StandardDecoder → DecodedPacket → Bytes → StandardDecoder × Decoded
decode_ip_packet sd d raw = elim (decode_ip raw) [
  | err e ↦ (sd, rejected (ip_failed e))
  | ok (ip, bs) ↦ reassemble sd (record d { ip = ip }) ip raw bs
]

abbrev pub start : RawPacket → DecodedPacket
start raw = record {
  timestamp = raw.timestamp;
  ethernet = no_ethernet;
  ip = no_ip;
  transport = no_transport;
  payload = [];
  capture_len = raw.capture_len;
  orig_len = raw.orig_len;
  reassembled = false;
}

abbrev pub is_ip_type : ℕ → Bool
is_ip_type t = t == 0x0800 || t == 0x86DD

unfoldable pub decode : StandardDecoder → RawPacket → StandardDecoder × Decoded
decode sd raw =
    if length raw.bytes == 0
    then (sd, rejected empty_packet)
    else elim (decode_ethernet raw.bytes) [
      | err e ↦ (sd, rejected (ethernet_failed e))
      | ok (eth, bs) ↦
          let d = record (start raw) { ethernet = eth } in
          if is_ip_type eth.ether_type
          then decode_ip_packet sd d bs
          else (sd, decoded (record d { payload = bs }))
    ]
