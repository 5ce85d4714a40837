-- ===== src/Decoder/Reassembly/Invariant.antt =====
-- `Process`, `evictFlow` and `cleanup` of internal/core/decoder/reassembly.go over the whole map of flows.
use otus.Decoder.Ip.{frag_offset, more_fragments}
use otus.Decoder.RateLimiter.{RateLimiter}
use otus.Base.{
  Distinct, Option-cases, Bool, Every, ℕ, lookup, ◌≡◌, inl, length, inr, some, Distinct-insert,
  Distinct-delete, Every-insert, Every-delete, arith, length-delete, length-insert_new,
  length-insert_old, lookup-insert, beq_refl, Every-lookup, refl, Option, Bytes, at, ◌≤◌, none, ◌%◌,
  ◌*◌, slice, ◌<◌, u16, ◌+◌, ◌-◌, length-take, length-slice,
}
use otus.Decoder.Reassembly.Chain.{IsFlow, IsFragment, add_fragment-IsFlow}
use otus.Decoder.Fragments.{
  FragmentKey, FragmentList, empty_list, Fragment, fragment_key_eq, security_checks,
}
use otus.Decoder.Reassembly.{
  Reassembler, new_reassembler, evict_flow, get_or_create, store_flow, receive, ReassemblyConfig,
  Outcome, after_build, complete, failed, panicked, update_flow, incomplete, fragment_of, admit,
  process, total_len, key_of, add_fragment, limit_rate, build,
}

-- What holds of the reassembler between two packets.
pub record Inv (r : Reassembler) : Type 0 where
  pub keys : Distinct r.flows
  pub flows : Every IsFlow r.flows
  pub gauge : r.active ≡ length r.flows

pub new_reassembler-Inv : (cfg : ReassemblyConfig) (now : ℕ) → Inv (new_reassembler cfg now)
unfolding new_reassembler
new_reassembler-Inv cfg now = record { keys = tt; flows = tt; gauge = refl }

evict_flow-Inv : (r : Reassembler) (key : FragmentKey) → Inv r → Inv (evict_flow r key)
unfolding evict_flow
evict_flow-Inv r key v = elim (Option-cases (lookup key r.flows)) [
  | inl e ↦ rw (e, evict_flow) v
  | inr (fl, e) ↦
      rw (e, evict_flow)
        (record {
          keys = Distinct-delete key r.flows v.keys;
          flows = Every-delete IsFlow key r.flows v.flows;
          gauge = omega (arith, v.gauge, length-delete key fl r.flows v.keys e);
        })
]

-- The flow that a packet belongs to is in the map, and its list is sound.
pub record Opened (key : FragmentKey) (p : Reassembler × FragmentList) : Type 0 where
  pub inv : Inv p.0
  pub here : lookup key p.0.flows ≡ some p.1
  pub sound : IsFlow p.1

pub empty_list-IsFlow : IsFlow empty_list
empty_list-IsFlow = record { chain = tt; counted = refl }

get_or_create-Opened :
    (r : Reassembler) (key : FragmentKey) → Inv r → Opened key (get_or_create r key)
unfolding get_or_create
get_or_create-Opened r key v = elim (Option-cases (lookup key r.flows)) [
  | inl e ↦
      rw (e, get_or_create)
        (record {
          inv = record {
            keys = Distinct-insert key empty_list r.flows v.keys;
            flows = Every-insert IsFlow key empty_list r.flows empty_list-IsFlow v.flows;
            gauge = omega (arith, v.gauge, length-insert_new key empty_list r.flows e);
          };
          here = rw (lookup-insert key key empty_list r.flows, beq_refl key);
          sound = empty_list-IsFlow;
        })
  | inr (fl, e) ↦
      rw (e, get_or_create)
        (record { inv = v; here = e; sound = Every-lookup IsFlow key fl r.flows v.flows e })
]

store_flow-Inv :
    (r : Reassembler) (key : FragmentKey) (old fl : FragmentList)
    → Inv r
    → lookup key r.flows ≡ some old
    → IsFlow fl
    → Inv (store_flow r key fl)
unfolding store_flow
store_flow-Inv r key old fl v e g = record {
  keys = Distinct-insert key fl r.flows v.keys;
  flows = Every-insert IsFlow key fl r.flows g v.flows;
  gauge = omega (arith, v.gauge, length-insert_old key fl old r.flows e);
}

after_build-Inv :
    (r : Reassembler) (key : FragmentKey) (old fl : FragmentList) (o : Outcome)
    → Inv r
    → lookup key r.flows ≡ some old
    → IsFlow fl
    → Inv (after_build r key fl o).0
after_build-Inv r key old fl panicked v e g = store_flow-Inv r key old fl v e g
after_build-Inv r key old fl (complete b) v e g = evict_flow-Inv r key v
after_build-Inv r key old fl incomplete v e g = evict_flow-Inv r key v
after_build-Inv r key old fl (failed x) v e g = evict_flow-Inv r key v

update_flow-Inv :
    (r : Reassembler) (key : FragmentKey) (fl : FragmentList) (more : Bool) (f : Fragment) (now : ℕ)
    → IsFragment f
    → Opened key (r, fl)
    → Inv (update_flow r key fl more f now).0
unfolding update_flow
update_flow-Inv r key fl more f now g o =
    let fl' = add_fragment more f now fl in
    let sound = add_fragment-IsFlow more f now fl g o.sound in
    ground (
      arith,
      evict_flow-Inv r key o.inv,
      after_build-Inv r key fl fl' (build r.config fl') o.inv o.here sound,
      store_flow-Inv r key fl fl' o.inv o.here sound,
    )

pub receive-Inv :
    (r : Reassembler) (key : FragmentKey) (more : Bool) (f : Fragment) (now : ℕ)
    → IsFragment f
    → Inv r
    → Inv (receive r key more f now).0
unfolding receive
receive-Inv r key more f now g v =
    update_flow-Inv _ key _ more f now g (get_or_create-Opened r key v)

total_len_bounds :
    (bs : Bytes) (ihl : ℕ)
    → ihl ≤ length bs
    → (ihl ≤ total_len bs ihl) × (total_len bs ihl ≤ length bs)
unfolding total_len
total_len_bounds bs ihl h = ground arith

security_checks-none :
    (size offset : ℕ)
    → security_checks size offset ≡ none
    → (0 < size) × (offset * 8 + size ≤ 65535)
unfolding security_checks
security_checks-none size offset e = ground arith

-- A fragment that passes the security checks is within a datagram and has all its bytes.
pub fragment_of-IsFragment :
    (bs : Bytes) (ihl : ℕ)
    → ihl ≤ length bs
    → security_checks (fragment_of bs ihl).length (frag_offset bs) ≡ none
    → IsFragment (fragment_of bs ihl)
unfolding fragment_of
fragment_of-IsFragment bs ihl h e =
    let all = slice bs ihl (total_len bs ihl) in
    let size = u16 (total_len bs ihl - ihl) in
    let b = total_len_bounds bs ihl h in
    let s = security_checks-none size (frag_offset bs) e in
    record {
      nonempty = s.0;
      fits = omega (arith, s);
      full = omega (arith, length-take size all, length-slice bs ihl (total_len bs ihl) b.0 b.1);
    }

limiter-Inv :
    (r : Reassembler) (l : Option RateLimiter) → Inv r → Inv (record r { rate_limiter = l })
limiter-Inv r l v = record { keys = v.keys; flows = v.flows; gauge = v.gauge }

admit-Inv :
    (r : Reassembler) (bs : Bytes) (f : Fragment) (now : ℕ)
    → (security_checks f.length (frag_offset bs) ≡ none → IsFragment f)
    → Inv r
    → Inv (admit r bs f now).0
unfolding admit
admit-Inv r bs f now g v = elim (Option-cases (security_checks f.length (frag_offset bs))) [
  | inl e ↦
      let (l, allowed) = limit_rate r.rate_limiter (slice bs 12 16) now in
      let v' = limiter-Inv r l v in
      rw (e, admit)
        (ground (
          arith,
          v',
          receive-Inv (record r { rate_limiter = l }) (key_of bs) (more_fragments bs) f now (g e)
              v',
        ))
  | inr (x, e) ↦ rw (e, admit) v
]

admit_packet-Inv :
    (r : Reassembler) (bs : Bytes) (ihl now : ℕ)
    → ihl ≤ length bs
    → Inv r
    → Inv (admit r bs (fragment_of bs ihl) now).0
admit_packet-Inv r bs ihl now h v =
    admit-Inv r bs (fragment_of bs ihl) now (fragment_of-IsFragment bs ihl h) v

-- Whatever bytes arrive, the flows stay sorted, disjoint and counted, their keys distinct, and the
-- gauge of active flows exact.
pub process-Inv : (r : Reassembler) (bs : Bytes) (now : ℕ) → Inv r → Inv (process r bs now).0
unfolding process
process-Inv r bs now v = ground (arith, v, admit_packet-Inv r bs (at bs 0 % 16 * 4) now)
