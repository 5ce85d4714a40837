-- ===== src/Decoder/Reassembly/Datagram.antt =====
-- Fragments of one datagram through `Process` (internal/core/decoder/reassembly.go).
use otus.Decoder.Reassembly.Build.{build_complete}
use otus.Decoder.Reassembly.Within.{
  Within, add_fragment-highest, add_fragment-final, add_fragment-Within,
}
use otus.Decoder.Reassembly.Content.{byte_at, add_fragment-earlier_wins}
use otus.Decoder.Reassembly.Chain.{IsFlow, IsFragment, add_fragment-IsFlow}
use otus.Base.{
  ◌≡◌, Bytes, Bool, ℕ, ◌<◌, length, true, ◌+◌, some, ◌≤◌, [], slice, get_elem?, arith, false, ap,
  ◌-◌, ◌∙◌, get_elem?-some_lt, refl, length-slice, sym, list_ext, get_elem?-slice, le_or_lt, inl,
  inr, get_elem?-ge,
}
use otus.Decoder.Fragments.{FragmentList, empty_list, Fragment}
use otus.Decoder.Reassembly.{ReassemblyConfig, is_complete, add_fragment, build, complete}

-- A fragment of the datagram `d`: its bytes stand in `d`, and the last one ends where `d` does.
pub record Genuine (d : Bytes) (more : Bool) (f : Fragment) : Type 0 where
  pub nonempty : 0 < f.length
  pub inside : f.offset + f.length ≤ length d
  pub same : f.payload ≡ slice d f.offset (f.offset + f.length)
  pub last : more ≡ false → f.offset + f.length ≡ length d

-- What the list of a flow holds when only fragments of `d` have come.
pub record FlowOf (d : Bytes) (fl : FragmentList) : Type 0 where
  pub flow : IsFlow fl
  pub agrees : (i b : ℕ) → byte_at fl.frags i ≡ some b → get_elem? d i ≡ some b
  pub top : Within fl.highest fl.frags
  pub high : fl.highest ≤ length d
  pub final : fl.final_received ≡ true → fl.highest ≡ length d

pub Genuine-IsFragment :
    (d : Bytes) (more : Bool) (f : Fragment) → length d ≤ 65535 → Genuine d more f → IsFragment f
Genuine-IsFragment d more f h g = record {
  nonempty = g.nonempty;
  fits = omega (arith, g.inside);
  full =
      ap length g.same
      ∙ omega (arith, length-slice d f.offset (f.offset + f.length) (omega arith) g.inside);
}

-- A byte of a fragment is the datagram's.
Genuine-byte :
    (d : Bytes) (more : Bool) (f : Fragment) (i b : ℕ)
    → length d ≤ 65535
    → Genuine d more f
    → f.offset ≤ i
    → get_elem? f.payload (i - f.offset) ≡ some b
    → get_elem? d i ≡ some b
Genuine-byte d more f i b h g le e =
    let lt = get_elem?-some_lt f.payload (i - f.offset) b e in
    let full = (Genuine-IsFragment d more f h g).full in
    let back : f.offset + (i - f.offset) ≡ i = omega arith in
    ap (get_elem? d) (sym back)
    ∙ sym
        (get_elem?-slice d f.offset (f.offset + f.length) (i - f.offset) (omega (arith, lt, full)))
    ∙ ap (λ p. get_elem? p (i - f.offset)) (sym g.same)
    ∙ e

pub empty_list-FlowOf : (d : Bytes) → FlowOf d empty_list
empty_list-FlowOf d = record {
  flow = record { chain = tt; counted = refl };
  agrees = λ i b e. absurd (no_byte i b e);
  top = tt;
  high = omega arith;
  final = λ e. absurd (cc);
}
  where
    no_byte : (i b : ℕ) → byte_at [] i ≡ some b → ⊥
    no_byte i b e = unfold byte_at in cc

pub add_fragment-FlowOf :
    (d : Bytes) (more : Bool) (f : Fragment) (now : ℕ) (fl : FragmentList)
    → length d ≤ 65535
    → Genuine d more f
    → FlowOf d fl
    → FlowOf d (add_fragment more f now fl)
add_fragment-FlowOf d more f now fl h g v =
    let frag = Genuine-IsFragment d more f h g in
    let fl' = add_fragment more f now fl in
    let eh = add_fragment-highest more f now fl frag in
    let ef = add_fragment-final more f now fl in
    record {
      flow = add_fragment-IsFlow more f now fl frag v.flow;
      agrees = λ i b e. elim ((add_fragment-earlier_wins more f now fl i b frag v.flow).1 e) [
        | inl old ↦ v.agrees i b old
        | inr (le, new) ↦ Genuine-byte d more f i b h g le new
      ];
      top =
          add_fragment-Within more f now fl frag v.flow (λ late. ground (arith, g.inside, v.final))
            v.top;
      high = ground (arith, eh, g.inside, v.high);
      final = λ e. ground (arith, eh, ef, g.inside, g.last, v.high, v.final);
    }

-- When such a flow is complete, the datagram is built, unless it is over the size limit.
pub FlowOf-build :
    (cfg : ReassemblyConfig) (d : Bytes) (fl : FragmentList)
    → FlowOf d fl
    → is_complete fl ≡ true
    → length d ≤ cfg.max_reassemble_size
    → build cfg fl ≡ complete d
FlowOf-build cfg d fl v done size =
    let whole : fl.highest ≡ length d = ground (arith, v.final) in
    let (r, e, len, bytes) = build_complete cfg fl v.flow v.top done (omega arith) in
    let same : r ≡ d = list_ext r d (λ i. elim (le_or_lt (length d) i) [
      | inl out ↦ get_elem?-ge r i (omega arith) ∙ sym (get_elem?-ge d i out)
      | inr in' ↦ let (b, held, got) = bytes i (omega arith) in got ∙ sym (v.agrees i b held)
    ]) in
    e ∙ ap complete same
