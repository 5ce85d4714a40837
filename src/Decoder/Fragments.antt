-- ===== src/Decoder/Fragments.antt =====
-- internal/core/decoder/reassembly.go: fragments, the list of a flow, and the copy into the result. What
-- the source keeps in a `uint16` wraps where it adds.
use otus.Base.{
  ℕ, ◌+◌, ◌-◌, ◌*◌, ◌≡◌, ◌↔◌, min, Bool, true, false, ◌&&◌, ◌||◌, not, Bytes, Option, none, some,
  List, [], ◌∷◌, ◌++◌, list_eq, nat_eq, Eq, ◌=?◌, list_beq_iff, ltb, leb, if◌then◌else◌, length,
  take, drop, slice, u16, arith,
}
use otus.Core.{Error, fragment_too_small, fragment_offset_too_large, exceeds_max_ip_size}

abbrev pub ipv4_min_frag_size : ℕ
ipv4_min_frag_size = 1

abbrev pub ipv4_max_size : ℕ
ipv4_max_size = 65535

abbrev pub ipv4_max_frag_offset : ℕ
ipv4_max_frag_offset = 8183

abbrev pub ipv4_max_frag_list_len : ℕ
ipv4_max_frag_list_len = 8192

pub record FragmentKey : Type 0 where
  pub src_ip : Bytes
  pub dst_ip : Bytes
  pub protocol : ℕ
  pub id : ℕ

abbrev pub fragment_key_beq : FragmentKey → FragmentKey → Bool
fragment_key_beq a b =
    (a.src_ip =? b.src_ip) && (a.dst_ip =? b.dst_ip) && (a.protocol =? b.protocol) && (a.id =? b.id)

pub fragment_key_beq_iff : (a b : FragmentKey) → (fragment_key_beq a b ≡ true) ↔ (a ≡ b)
fragment_key_beq_iff a b =
    ground (arith, list_beq_iff a.src_ip b.src_ip, list_beq_iff a.dst_ip b.dst_ip)

instance abbrev pub fragment_key_eq : Eq FragmentKey
fragment_key_eq = record { beq = fragment_key_beq; beq_iff = fragment_key_beq_iff }

pub record Fragment : Type 0 where
  pub offset : ℕ
  pub length : ℕ
  pub payload : Bytes

pub record FragmentList : Type 0 where
  pub frags : List Fragment
  pub highest : ℕ
  pub current : ℕ
  pub final_received : Bool
  pub last_seen : ℕ

abbrev pub empty_list : FragmentList
empty_list = record { frags = []; highest = 0; current = 0; final_received = false; last_seen = 0 }

-- `securityChecks`: `none` if the fragment may go on.
unfoldable pub security_checks : ℕ → ℕ → Option Error
security_checks frag_size offset =
    if ltb frag_size ipv4_min_frag_size
    then some fragment_too_small
    else if ltb ipv4_max_frag_offset offset
    then some fragment_offset_too_large
    else if ltb ipv4_max_size (offset * 8 + frag_size)
    then some exceeds_max_ip_size
    else none

abbrev pub frag_end : Fragment → ℕ
frag_end f = u16 (f.offset + f.length)

-- `startAt` and `endAt`: the new fragment cut by its neighbours in the list.
abbrev pub start_at : Option Fragment → Fragment → ℕ
start_at none f = f.offset
start_at (some prev) f = if ltb f.offset (frag_end prev) then frag_end prev else f.offset

abbrev pub end_at : Option Fragment → Fragment → ℕ
end_at none f = frag_end f
end_at (some next) f = if ltb next.offset (frag_end f) then next.offset else frag_end f

-- The trimmed fragment, `none` if nothing of it remains.
unfoldable pub trim : Option Fragment → Option Fragment → Fragment → Option Fragment
trim prev next f =
    let from = start_at prev f in
    let to = end_at next f in
    if leb to from
    then none
    else some (record {
      offset = from;
      length = to - from;
      payload = slice f.payload (from - f.offset) (to - f.offset);
    })

-- The list with the trimmed fragment put in front of `rest`, and the bytes that it adds.
abbrev pub attach : Option Fragment → List Fragment → List Fragment × ℕ
attach none rest = (rest, 0)
attach (some f) rest = (f ∷ rest, f.length)

-- The walk to the first fragment at or behind the new one; `prev` is the one passed last.
unfoldable pub place : Option Fragment → Fragment → List Fragment → List Fragment × ℕ
place prev f [] = attach (trim prev none f) []
place prev f (e ∷ es) =
    let (es', n) = place (some e) f es in
    if leb f.offset e.offset then attach (trim prev (some e) f) (e ∷ es) else (e ∷ es', n)

-- `insertBSDRight`.
unfoldable pub insert_bsd_right : FragmentList → Fragment → FragmentList
insert_bsd_right fl f =
    let (frags, n) = place none f fl.frags in
    record fl {
      frags = frags;
      current = u16 (fl.current + n);
      highest =
          if ltb fl.highest (frag_end f) && not fl.final_received then frag_end f else fl.highest;
    }

-- `copy(result[offset:offset+length], payload)`, with a panic where the bounds are out of range.
unfoldable pub copy_fragment : Bytes → Fragment → Option Bytes
copy_fragment result f =
    let n = min (frag_end f - f.offset) (length f.payload) in
    if ltb (length result) (frag_end f) || ltb (frag_end f) f.offset
    then none
    else some (take f.offset result ++ (take n f.payload ++ drop (f.offset + n) result))

unfoldable pub copy_fragments : Bytes → List Fragment → Option Bytes
unfolding copy_fragment
copy_fragments result [] = some result
copy_fragments result (f ∷ fs) = elim (copy_fragment result f) [
  | none ↦ none
  | some result' ↦ copy_fragments result' fs
]
