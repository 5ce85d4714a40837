-- ===== src/Decoder/Reassembly/Steps.antt =====
-- The branches of the second half of `Process` (internal/core/decoder/reassembly.go).
use otus.Base.{
  ◌≡◌, insert, Bool, ℕ, ◌+◌, lookup, length, some, none, ◌<◌, if◌then◌else◌, refl, arith,
}
use otus.Decoder.Fragments.{
  FragmentKey, FragmentList, Fragment, empty_list, fragment_key_eq, ipv4_max_frag_list_len,
}
use otus.Decoder.Reassembly.{
  receive, Reassembler, update_flow, Outcome, after_build, complete, failed, get_or_create,
  panicked, add_fragment, incomplete, is_complete, build, store_flow,
}

-- The flow is there.
pub receive_known :
    (r : Reassembler) (key : FragmentKey) (fl : FragmentList) (more : Bool) (f : Fragment) (now : ℕ)
    → lookup key r.flows ≡ some fl
    → receive r key more f now ≡ update_flow r key fl more f now
unfolding receive get_or_create
receive_known r key fl more f now e = rw (e, get_or_create)

abbrev pub created : Reassembler → FragmentKey → Reassembler
created r key = record r { flows = insert key empty_list r.flows; active = r.active + 1 }

-- The flow is new.
pub receive_new :
    (r : Reassembler) (key : FragmentKey) (more : Bool) (f : Fragment) (now : ℕ)
    → lookup key r.flows ≡ none
    → receive r key more f now ≡ update_flow (created r key) key empty_list more f now
unfolding receive get_or_create
receive_new r key more f now e = rw (e, get_or_create)

-- Below the limits the fragment is added, and the flow kept or built.
pub update_flow_within :
    (r : Reassembler) (key : FragmentKey) (fl : FragmentList) (more : Bool) (f : Fragment) (now : ℕ)
    → length fl.frags < ipv4_max_frag_list_len
    → length fl.frags < r.config.max_fragments
    → let fl' = add_fragment more f now fl in
      update_flow r key fl more f now ≡ (
        if is_complete fl'
        then after_build r key fl' (build r.config fl')
        else (store_flow r key fl', incomplete))
unfolding update_flow
update_flow_within r key fl more f now s t = ground arith

pub after_build-outcome :
    (r : Reassembler) (key : FragmentKey) (fl : FragmentList) (o : Outcome)
    → (after_build r key fl o).1 ≡ o
after_build-outcome r key fl panicked = refl
after_build-outcome r key fl (complete b) = refl
after_build-outcome r key fl incomplete = refl
after_build-outcome r key fl (failed x) = refl

-- The outcome of a fragment below the limits.
pub update_flow-outcome :
    (r : Reassembler) (key : FragmentKey) (fl : FragmentList) (more : Bool) (f : Fragment) (now : ℕ)
    → length fl.frags < ipv4_max_frag_list_len
    → length fl.frags < r.config.max_fragments
    → let fl' = add_fragment more f now fl in
      (update_flow r key fl more f now).1
      ≡ (if is_complete fl' then build r.config fl' else incomplete)
update_flow-outcome r key fl more f now s t =
    let fl' = add_fragment more f now fl in
    ground (
      arith,
      update_flow_within r key fl more f now s t,
      after_build-outcome r key fl' (build r.config fl'),
    )
