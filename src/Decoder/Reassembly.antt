-- ===== src/Decoder/Reassembly.antt =====
-- internal/core/decoder/reassembly.go. `Process` runs as one step; `cleanup` is one tick of its loop.
-- A value that the source keeps in a `uint16` wraps where the source adds. `panicked` is Go's run-time
-- panic, and `active` is the gauge `ReassemblyActiveFragments`.
pub mod Chain
pub mod Content
pub mod Copy
pub mod Build
pub mod Invariant
pub mod Cleanup
pub mod Within
pub mod Steps
pub mod Panic
pub mod Datagram
pub mod Delivery
pub mod Tiling
pub mod Assembly
pub mod Overlap
use otus.Decoder.Fragments.{
  ipv4_min_frag_size, ipv4_max_size, ipv4_max_frag_offset, ipv4_max_frag_list_len, FragmentKey,
  fragment_key_beq, fragment_key_beq_iff, fragment_key_eq, Fragment, FragmentList, empty_list,
  security_checks, frag_end, start_at, end_at, trim, attach, place, insert_bsd_right, copy_fragment,
  copy_fragments,
}
use otus.Base.{
  ℕ, suc, ◌+◌, ◌-◌, ◌*◌, ◌%◌, ◌≡◌, ◌↔◌, min, Bool, true, false, ◌&&◌, ◌||◌, not, Bytes, Option,
  none, some, List, [], ◌∷◌, ◌++◌, Dict, lookup, insert, delete, list_eq, nat_eq, Eq, ◌=?◌,
  list_beq_iff, ==_iff, ltb, leb, if◌then◌else◌, ◌==◌, length, take, drop, replicate, slice, at,
  be16, u16, arith,
}
use otus.Core.{
  Error, ip_too_short, invalid_ihl, fragment_too_small, fragment_offset_too_large,
  exceeds_max_ip_size, rate_limit_exceeded, list_too_long, too_many_fragments,
  reassembled_too_large,
}
use otus.Decoder.Ip.{more_fragments, frag_offset}
use otus.Decoder.RateLimiter.{RateLimiter, new_rate_limiter, allow, second}

pub record ReassemblyConfig : Type 0 where
  pub max_fragments : ℕ
  pub max_reassemble_size : ℕ
  pub timeout : ℕ
  pub max_frags_per_ip : ℕ
  pub rate_limit_window : ℕ

pub record Reassembler : Type 0 where
  pub flows : Dict FragmentKey FragmentList
  pub config : ReassemblyConfig
  pub rate_limiter : Option RateLimiter
  pub active : ℕ

pub data Outcome : Type 0 where
  complete : Bytes → Outcome
  incomplete : Outcome
  failed : Error → Outcome
  panicked : Outcome

abbrev pub or_default : ℕ → ℕ → ℕ
or_default n d = if n == 0 then d else n

unfoldable pub new_reassembler : ReassemblyConfig → ℕ → Reassembler
new_reassembler cfg now = record {
  flows = [];
  config = record cfg {
    max_fragments = or_default cfg.max_fragments 100;
    max_reassemble_size = or_default cfg.max_reassemble_size ipv4_max_size;
    timeout = or_default cfg.timeout 60;
  };
  rate_limiter = new_rate_limiter cfg.max_frags_per_ip (cfg.rate_limit_window * second) now;
  active = 0;
}

abbrev pub built : Option Bytes → Outcome
built none = panicked
built (some result) = complete result

unfoldable pub build : ReassemblyConfig → FragmentList → Outcome
unfolding copy_fragments
build cfg fl =
    if ltb cfg.max_reassemble_size fl.highest
    then failed reassembled_too_large
    else built (copy_fragments (replicate fl.highest 0) fl.frags)

unfoldable pub evict_flow : Reassembler → FragmentKey → Reassembler
evict_flow r key = elim (lookup key r.flows) [
  | none ↦ r
  | some fl ↦ record r { flows = delete key r.flows; active = r.active - 1 }
]

-- The flow of a key, created if it is not there.
unfoldable pub get_or_create : Reassembler → FragmentKey → Reassembler × FragmentList
get_or_create r key = elim (lookup key r.flows) [
  | none ↦ (record r { flows = insert key empty_list r.flows; active = r.active + 1 }, empty_list)
  | some fl ↦ (r, fl)
]

unfoldable pub store_flow : Reassembler → FragmentKey → FragmentList → Reassembler
store_flow r key fl = record r { flows = insert key fl r.flows }

-- The end of the datagram, if this is the last fragment.
unfoldable pub mark_final : Bool → Fragment → FragmentList → FragmentList
mark_final more f fl = if more then fl else record fl {
  final_received = true;
  highest = if ltb fl.highest (frag_end f) then frag_end f else fl.highest;
}

-- A panic leaves the flow where it was.
abbrev pub after_build : Reassembler → FragmentKey → FragmentList → Outcome → Reassembler × Outcome
after_build r key fl panicked = (store_flow r key fl, panicked)
after_build r key fl o = (evict_flow r key, o)

-- The flow's list after a fragment.
unfoldable pub add_fragment : Bool → Fragment → ℕ → FragmentList → FragmentList
add_fragment more f now fl = insert_bsd_right (mark_final more f (record fl { last_seen = now })) f

abbrev pub is_complete : FragmentList → Bool
is_complete fl = fl.final_received && leb fl.highest fl.current

-- The limits of a flow's list, the insertion, and the datagram if it is complete.
unfoldable pub update_flow :
    Reassembler → FragmentKey → FragmentList → Bool → Fragment → ℕ → Reassembler × Outcome
update_flow r key fl more f now =
    if leb ipv4_max_frag_list_len (length fl.frags)
    then (evict_flow r key, failed list_too_long)
    else if leb r.config.max_fragments (length fl.frags)
    then (evict_flow r key, failed too_many_fragments)
    else let fl' = add_fragment more f now fl in
      if is_complete fl'
      then after_build r key fl' (build r.config fl')
      else (store_flow r key fl', incomplete)

-- The second half of `Process`, from the lookup of the flow.
unfoldable pub receive : Reassembler → FragmentKey → Bool → Fragment → ℕ → Reassembler × Outcome
receive r key more f now = let (r', fl) = get_or_create r key in update_flow r' key fl more f now

-- `nil` allows everything.
unfoldable pub limit_rate : Option RateLimiter → Bytes → ℕ → Option RateLimiter × Bool
unfolding allow
limit_rate none src now = (none, true)
limit_rate (some l) src now = let (l', ok) = allow l src now in (some l', ok)

-- The Total Length, held to the header and to the bytes at hand.
unfoldable pub total_len : Bytes → ℕ → ℕ
total_len bs ihl =
    let stated = if ltb (be16 bs 2) ihl then length bs else be16 bs 2 in
    if ltb (length bs) stated then length bs else stated

unfoldable pub key_of : Bytes → FragmentKey
key_of bs = record {
  src_ip = slice bs 12 16;
  dst_ip = slice bs 16 20;
  protocol = at bs 9;
  id = be16 bs 4;
}

-- The fragment that a packet carries: the copy of its payload has `fragPayloadLen` bytes.
unfoldable pub fragment_of : Bytes → ℕ → Fragment
fragment_of bs ihl =
    let size = u16 (total_len bs ihl - ihl) in
    record {
      offset = u16 (frag_offset bs * 8);
      length = size;
      payload = take size (slice bs ihl (total_len bs ihl));
    }

-- A fragment that passed the header's tests: the security checks, the rate limit, then the flow.
unfoldable pub admit : Reassembler → Bytes → Fragment → ℕ → Reassembler × Outcome
admit r bs f now = elim (security_checks f.length (frag_offset bs)) [
  | some e ↦ (r, failed e)
  | none ↦
      let (limiter, ok) = limit_rate r.rate_limiter (slice bs 12 16) now in
      let r' = record r { rate_limiter = limiter } in
      if ok
      then receive r' (key_of bs) (more_fragments bs) f now
      else (r', failed rate_limit_exceeded)
]

unfoldable pub process : Reassembler → Bytes → ℕ → Reassembler × Outcome
process r bs now =
    let ihl = at bs 0 % 16 * 4 in
    if ltb (length bs) 20
    then (r, failed ip_too_short)
    else if ltb ihl 20 || ltb (length bs) ihl
    then (r, failed invalid_ihl)
    else if not (more_fragments bs) && frag_offset bs == 0
    then (r, complete (slice bs ihl (total_len bs ihl)))
    else admit r bs (fragment_of bs ihl) now

-- One tick of `cleanup`.
unfoldable pub sweep : ℕ → ℕ → Dict FragmentKey FragmentList → Dict FragmentKey FragmentList
sweep timeout now [] = []
sweep timeout now ((k, fl) ∷ m) =
    if ltb timeout (now - fl.last_seen) then sweep timeout now m else (k, fl) ∷ sweep timeout now m

unfoldable pub cleanup : Reassembler → ℕ → Reassembler
unfolding sweep
cleanup r now =
    let flows = sweep (r.config.timeout * second) now r.flows in
    record r { flows = flows; active = r.active - (length r.flows - length flows) }
