-- ===== src/Pipeline/Parsing.antt =====
-- internal/pipeline/pipeline.go: which parser a packet gets, and what becomes of a frame that is no IP
-- packet on its way to plugins/reporter/hep/encoder.go.
use otus.Hep.Encode.{encode-panics_iff}
use otus.Decoder.Ethernet.{decode_ethernet}
use mathlib.Core.Path.{subst}
use otus.Task.Flows.{bump}
use Prim.Native.String.{String}
use otus.Output.{Labels, OutputPacket}
use otus.Core.{DecodedPacket, RawPacket, EthernetHeader, Addr, ok}
use otus.Base.{
  ℕ, List, ◌≡◌, none, some, true, ◌++◌, ◌∷◌, Bool-cases, inr, arith, inl, Option-cases, [], Option,
  false, refl, sym, ap, ◌∙◌, Bytes, ◌<◌, length, ◌==◌,
}
use otus.Pipeline.{
  Metrics, parse, Parser, Pipeline, process_packet, process_decoded, build_output, Processor,
  run_processors,
}
use otus.Decoder.Standard.{
  decode, decoded, rejected, crashed, Decoded, StandardDecoder, is_ip_type, start,
}
use otus.Hep.{encode, panicked, EncodeOptions, as4}

-- The packet of a decoding that succeeds.
abbrev pub accepted : Decoded → Option DecodedPacket
accepted (decoded d) = some d
accepted (rejected e) = none
accepted crashed = none

some_pair :
    (a b : String) (x y : Labels)
    → ◌≡◌ {A = Option (String × Labels)} (some (a, x)) (some (b, y))
    → (a ≡ b) × (x ≡ y)
some_pair a b x y e = (
  ap (λ (o : Option (String × Labels)). elim o [ none ↦ a | some r ↦ r.0 ]) e,
  ap (λ (o : Option (String × Labels)). elim o [ none ↦ x | some r ↦ r.1 ]) e,
)

module _ {ℓ} {S : Type ℓ} where
  -- The parsers so far, with result `r`, are passed over, and `q` takes the packet in the state they leave.
  abbrev pub Takes :
      S × Metrics × Option (String × Labels) → Parser S → DecodedPacket → Labels → Type 0
  Takes r q d labels =
      (r.2 ≡ none) × (q.can_handle r.0 d ≡ true) × ((q.handle r.0 d).1 ≡ some labels)

  parse-pass :
      (p : Parser S) (ps : List (Parser S)) (d : DecodedPacket) (s : S) (m : Metrics)
      → p.can_handle s d ≡ false
      → parse (p ∷ ps) d s m ≡ parse ps d s m
  unfolding parse
  parse-pass p ps d s m e = rw (e, parse) refl

  parse-fail :
      (p : Parser S) (ps : List (Parser S)) (d : DecodedPacket) (s : S) (m : Metrics)
      → p.can_handle s d ≡ true
      → (p.handle s d).1 ≡ none
      → parse (p ∷ ps) d s m
        ≡ parse ps d (p.handle s d).0 (record m { parse_errors = bump m.parse_errors })
  unfolding parse
  parse-fail p ps d s m e f = rw (e, f, parse) refl

  parse-take :
      (p : Parser S) (ps : List (Parser S)) (d : DecodedPacket) (s : S) (m : Metrics)
      (labels : Labels)
      → p.can_handle s d ≡ true
      → (p.handle s d).1 ≡ some labels
      → (parse (p ∷ ps) d s m).2 ≡ some (p.name, labels)
  unfolding parse
  parse-take p ps d s m labels e f = rw (e, f, parse) refl

  -- If a packet got a payload type, it is the name of the first parser that can handle the packet and
  -- does so without an error, its labels are the ones that this parser made, and each parser before it
  -- could not handle the packet or failed.
  pub parse-first :
      (ps : List (Parser S)) (d : DecodedPacket) (s : S) (m : Metrics) (name : String)
      (labels : Labels)
      → (parse ps d s m).2 ≡ some (name, labels)
      → (before : List (Parser S)) × (q : Parser S) × (after : List (Parser S)) × (ps
          ≡ before ++ q ∷ after)
        × (q.name ≡ name)
        × Takes (parse before d s m) q d labels
  parse-first [] d s m name labels e = absurd (unfold parse in cc)
  parse-first (p ∷ ps) d s m name labels e = elim (Bool-cases (p.can_handle s d)) [
    | inr passes ↦
        let (before, q, after, split, named, takes) = parse-first ps d s m name labels (
          sym (
            ap (λ (r : S × Metrics × Option (String × Labels)). r.2) (parse-pass p ps d s m passes))
          ∙ e) in
        (
          p ∷ before,
          q,
          after,
          ap (◌∷◌ p) split,
          named,
          subst (λ (r : S × Metrics × Option (String × Labels)). Takes r q d labels)
              (sym (parse-pass p before d s m passes)) takes,
        )
    | inl handles ↦ elim (Option-cases (p.handle s d).1) [
      | inl bad ↦
          let (before, q, after, split, named, takes) =
            parse-first ps d (p.handle s d).0 (record m { parse_errors = bump m.parse_errors }) name
              labels
              (sym (
                  ap (λ (r : S × Metrics × Option (String × Labels)). r.2)
                    (parse-fail p ps d s m handles bad))
                ∙ e) in
          (
            p ∷ before,
            q,
            after,
            ap (◌∷◌ p) split,
            named,
            subst (λ (r : S × Metrics × Option (String × Labels)). Takes r q d labels)
                (sym (parse-fail p before d s m handles bad)) takes,
          )
      | inr (found, good) ↦
          let (named, labelled) =
            some_pair p.name name found labels
              (sym (parse-take p ps d s m found handles good) ∙ e) in
          (
            [],
            p,
            ps,
            refl,
            named,
            (
              (unfold parse in refl),
              (unfold parse in handles),
              (unfold parse in (good ∙ ap some labelled)),
            ),
          )
    ]
  ]

decode-non_ip :
    (sd : StandardDecoder) (raw : RawPacket) (eth : EthernetHeader) (bs : Bytes)
    → 0 < length raw.bytes
    → decode_ethernet raw.bytes ≡ ok (eth, bs)
    → is_ip_type eth.ether_type ≡ false
    → decode sd raw ≡ (sd, decoded (record (start raw) { ethernet = eth; payload = bs }))
unfolding decode
decode-non_ip sd raw eth bs n e t =
    let some_bytes : (length raw.bytes == 0) ≡ false = ground arith in
    rw (some_bytes, e) (rw t refl)

process_packet-plain {ℓ} :
    {S : Type ℓ} (p : Pipeline S) (raw : RawPacket) (d : DecodedPacket) (s : S) (m : Metrics)
    → (p.decode s raw).1 ≡ some d
    → p.processors ≡ []
    → (match : Option (String × Labels)) × ((process_packet p raw s m).2
        ≡ some (build_output p d match))
unfolding process_packet process_decoded
process_packet-plain {S = S} p raw d s m good none_left =
    let q = parse p.parsers d (p.decode s raw).0 (record m { decoded = bump m.decoded }) in
    (
      q.2,
      rw (good, process_packet)
          (ap (λ (fs : List (Processor S)). (run_processors fs (build_output p d q.2) q.0 q.1).2)
              none_left
            ∙ (unfold run_processors in refl)),
    )

-- A frame that the decoder accepts but that holds no IP packet goes through a pipeline with that
-- decoder's answer and without processors, and the HEP encoder panics on what comes out: its
-- addresses are the zero address.
pub non_ip-panics {ℓ} :
    {S : Type ℓ} (sd : StandardDecoder) (raw : RawPacket) (eth : EthernetHeader) (bs : Bytes)
    (p : Pipeline S) (s : S) (m : Metrics) (sprint : Addr → ℕ → Bytes) (now : ℕ)
    (opts : EncodeOptions)
    → 0 < length raw.bytes
    → decode_ethernet raw.bytes ≡ ok (eth, bs)
    → is_ip_type eth.ether_type ≡ false
    → p.processors ≡ []
    → (p.decode s raw).1 ≡ accepted (decode sd raw).1
    → (o : OutputPacket) × ((process_packet p raw s m).2 ≡ some o)
      × (encode sprint now opts (some o) ≡ panicked)
non_ip-panics sd raw eth bs p s m sprint now opts n e t none_left d =
    let out = record (start raw) { ethernet = eth; payload = bs } in
    let own =
      ap (λ (r : StandardDecoder × Decoded). accepted r.1) (decode-non_ip sd raw eth bs n e t) in
    let (match, sent) = process_packet-plain p raw out s m (d ∙ own) none_left in
    let o = build_output p out match in
    (o, sent, (encode-panics_iff sprint now opts o).1 (unfold build_output as4 in ground arith))
