-- ===== src/Task/Dispatch.antt =====
-- internal/task/dispatch_strategy.go, and `flowHash` and `dispatchLoop` of internal/task/task.go.
pub mod Headers
pub mod Affinity
use Prim.Native.String.{String}
use otus.Task.Flows.{bump}
use otus.Base.{
  ℕ, Bool, Bytes, List, ◌==◌, if◌then◌else◌, ◌∷◌, ◌%◌, [], ◌||◌, ◌&&◌, ltb, drop, ◌=?◌, u32, length,
  leb, at, slice, take, be16, string_eq, ◌++◌, ◌*◌, suc, zero,
}
use otus.Fnv.{write, sum32, offset_basis}

abbrev pub has_ports : ℕ → Bool
has_ports proto = proto == 6 || proto == 17 || proto == 132

unfoldable pub hash_ports : ℕ → ℕ → Bytes → ℕ
hash_ports h proto trans_hdr =
    if has_ports proto && leb 4 (length trans_hdr)
    then write (write h (slice trans_hdr 0 2)) (slice trans_hdr 2 4)
    else h

abbrev pub hash_addrs : Bytes → Bytes → ℕ → ℕ
hash_addrs src dst proto = write (write (write offset_basis src) dst) (proto ∷ [])

-- The two cases of the switch that read an IP header; `frame` is what they hash if it is too short.
unfoldable pub hash_ipv4 : Bytes → Bytes → ℕ
hash_ipv4 frame ip_hdr =
    if ltb (length ip_hdr) 20
    then sum32 frame
    else let ihl = at ip_hdr 0 % 16 * 4 in
      if ltb ihl 20 || ltb (length ip_hdr) ihl
      then sum32 frame
      else hash_ports (hash_addrs (slice ip_hdr 12 16) (slice ip_hdr 16 20) (at ip_hdr 9))
          (at ip_hdr 9) (drop ihl ip_hdr)

unfoldable pub hash_ipv6 : Bytes → Bytes → ℕ
hash_ipv6 frame ip_hdr =
    if ltb (length ip_hdr) 40
    then sum32 frame
    else hash_ports (hash_addrs (slice ip_hdr 8 24) (slice ip_hdr 24 40) (at ip_hdr 6))
        (at ip_hdr 6) (drop 40 ip_hdr)

unfoldable pub hash_network : Bytes → ℕ → ℕ → ℕ
hash_network frame ether_type ip_start =
    if ether_type == 0x0800
    then hash_ipv4 frame (drop ip_start frame)
    else if ether_type == 0x86DD
    then hash_ipv6 frame (drop ip_start frame)
    else sum32 (take (if ltb 64 (length frame) then 64 else length frame) frame)

unfoldable pub flow_hash : Bytes → ℕ
flow_hash frame =
    if ltb (length frame) 14
    then sum32 frame
    else if be16 frame 12 == 0x8100
    then if ltb (length frame) 18 then sum32 frame else hash_network frame (be16 frame 16) 18
    else hash_network frame (be16 frame 12) 14

-- A strategy and its state: the counter of the round robin is a 64-bit word.
pub data Strategy : Type 0 where
  flow_hash_strategy : Strategy
  round_robin_strategy : ℕ → Strategy

unfoldable pub new_dispatch_strategy : String → Strategy
new_dispatch_strategy name =
    if name =? "round-robin" then round_robin_strategy 0 else flow_hash_strategy

unfoldable pub strategy_name : Strategy → String
strategy_name flow_hash_strategy = "flow-hash"
strategy_name (round_robin_strategy n) = "round-robin"

-- The number of pipelines is from 1 to 2^32 - 1.
unfoldable pub dispatch : Strategy → Bytes → ℕ → Strategy × ℕ
dispatch flow_hash_strategy frame num_pipelines =
    (flow_hash_strategy, flow_hash frame % u32 num_pipelines)
dispatch (round_robin_strategy n) frame num_pipelines =
    (round_robin_strategy (bump n), bump n % num_pipelines)

-- The streams of the pipelines, with their capacity: a packet that finds its stream full is dropped.
unfoldable pub offer : ℕ → Bytes → ℕ → List (List Bytes) → List (List Bytes)
offer cap frame i [] = []
offer cap frame zero (s ∷ streams) = (if ltb (length s) cap then s ++ frame ∷ [] else s) ∷ streams
offer cap frame (suc i) (s ∷ streams) = s ∷ offer cap frame i streams

-- `dispatchLoop` over the packets of the capture channel, in one go.
unfoldable pub dispatch_loop :
    ℕ → Strategy → List Bytes → List (List Bytes) → Strategy × List (List Bytes)
dispatch_loop cap st [] streams = (st, streams)
dispatch_loop cap st (frame ∷ frames) streams =
    let (st', i) = dispatch st frame (length streams) in
    dispatch_loop cap st' frames (offer cap frame i streams)
