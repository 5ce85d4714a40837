-- ===== src/Decoder/Reassembly/Panic.antt =====
-- How a packet makes `Process` of internal/core/decoder/reassembly.go panic.
use otus.Decoder.Reassembly.Steps.{receive_known, update_flow-outcome}
use otus.Decoder.Reassembly.Build.{build-panics_iff}
use otus.Decoder.Reassembly.Content.{add_fragment-frags}
use otus.Decoder.Reassembly.Within.{
  Within, Overruns, Within-mono, add_fragment-highest, add_fragment-final,
}
use otus.Decoder.Fragments.{
  place, trim, insert_bsd_right, Fragment, FragmentKey, FragmentList, ipv4_max_frag_list_len,
  fragment_key_eq,
}
use otus.Decoder.Reassembly.{add_fragment, receive, mark_final, Reassembler, panicked, Outcome}
use otus.Base.{
  ◌≡◌, Option, Bool, List, ℕ, u16, ◌≤◌, ◌+◌, lookup, none, some, true, length, arith, ◌<◌, ◌∷◌, [],
  ap, ◌∙◌, false, refl,
}
use otus.Decoder.Reassembly.Chain.{
  IsFragment, prev_end, IsFlow, Chain, add_fragment-IsFlow, place-total, total-le, total,
}

-- A fragment behind all the others is appended in full.
place_behind :
    (prev : Option Fragment) (f : Fragment) (fs : List Fragment) (h : ℕ)
    → IsFragment f
    → prev_end prev ≤ f.offset
    → Chain (prev_end prev) fs
    → Within f.offset fs
    → h ≤ f.offset
    → Overruns h (place prev f fs).0 × ((place prev f fs).1 ≡ f.length)
unfolding place trim
place_behind none f [] h g p c w b = ground arith
place_behind (some prev) f [] h g p c w b = ground arith
place_behind prev f (e ∷ es) h g p c w b =
    let rest = place_behind (some e) f es h g w.0 c.2 w.1 b in ground (arith, c.1, rest)

pub add_fragment-current :
    (more : Bool) (f : Fragment) (now : ℕ) (fl : FragmentList)
    → (add_fragment more f now fl).current ≡ u16 (fl.current + (place none f fl.frags).1)
unfolding add_fragment insert_bsd_right mark_final
add_fragment-current true f now fl = refl
add_fragment-current false f now fl = refl

-- In a sound flow whose last fragment has come and whose fragments end by `highest`, a fragment
-- that is not the last, starts at or behind `highest` and brings the counted bytes up to
-- `highest` makes `build` write behind the end of its result: a run-time panic, whatever the
-- fragment holds. The flow and its size are within the reassembler's limits.
pub receive_panics :
    (r : Reassembler) (key : FragmentKey) (fl : FragmentList) (f : Fragment) (now : ℕ)
    → IsFlow fl
    → IsFragment f
    → lookup key r.flows ≡ some fl
    → Within fl.highest fl.frags
    → fl.final_received ≡ true
    → fl.highest ≤ f.offset
    → fl.highest ≤ fl.current + f.length
    → fl.highest ≤ r.config.max_reassemble_size
    → length fl.frags < r.config.max_fragments
    → length fl.frags < ipv4_max_frag_list_len
    → (receive r key true f now).1 ≡ panicked
receive_panics r key fl f now v g e w final behind enough size few short =
    let fl' = add_fragment true f now fl in
    let h = add_fragment-highest true f now fl g in
    let top : fl'.highest ≡ fl.highest = ground (arith, h, final) in
    let p =
      place_behind none f fl.frags fl.highest g (omega arith) v.chain (Within-mono _ _ _ behind w)
        behind in
    let sound = add_fragment-IsFlow true f now fl g v in
    let over : Overruns fl'.highest fl'.frags = rw (top, add_fragment-frags true f now fl) p.0 in
    let panics = (build-panics_iff r.config fl' sound (rw top size)).1 over in
    ap (λ (q : Reassembler × Outcome). q.1) (receive_known r key fl true f now e)
    ∙ update_flow-outcome r key fl true f now short few
    ∙ ground (
      arith,
      panics,
      top,
      add_fragment-final true f now fl,
      add_fragment-current true f now fl,
      sound.counted,
      v.counted,
      p.1,
      place-total none f fl.frags,
      total-le 0 fl'.frags (omega arith) sound.chain,
      ap total (add_fragment-frags true f now fl),
    )
