-- ===== src/Parser/Rtp/Labelling.antt =====
-- plugins/parser/rtp/rtp.go: the heuristic against the handlers, and the labels of a registered call.
use otus.Output.{Labels, label}
use Prim.Native.String.{String}
use otus.Core.{DecodedPacket}
use otus.Task.Flows.{FlowRegistry}
use otus.Base.{
  ℕ, Bytes, Option, ◌≡◌, Dict, true, some, ◌∷◌, at, insert, ◌=?◌, Bool, ◌≢◌, Option-cases, arith,
  false, none, inl, lookup-insert, string_eq, ◌∙◌, inr, ◌%◌, [], refl,
}
use otus.Parser.Rtp.{
  FlowValue, context, looks_like_rtp_or_rtcp, handle_rtp_or_rtcp, handle_rtp, handle_rtcp,
  registered, rtp_key, call_id_label, is_rtcp_type, copy_label, enrich_from_registry, rtcp_labels,
  codec_label, rtp_labels,
}

label-insert_same : (k : String) (v : Bytes) (m : Labels) → label (insert k v m) k ≡ v
unfolding label
label-insert_same k v m = ground (arith, lookup-insert k k v m, string_eq.beq_iff k k)

label-insert_other :
    (k j : String) (v : Bytes) (m : Labels) → (k =? j) ≡ false → label (insert k v m) j ≡ label m j
unfolding label
label-insert_other k j v m e = ground (arith, lookup-insert k j v m)

copy_label-same :
    (ctx : Dict String Bytes) (from to : String) (m : Labels) (b : ℕ) (bs : Bytes)
    → label ctx from ≡ b ∷ bs
    → label (copy_label ctx from to m) to ≡ b ∷ bs
unfolding copy_label
copy_label-same ctx from to m b bs e = rw (e, copy_label) (label-insert_same to (b ∷ bs) m)

copy_label-other :
    (ctx : Dict String Bytes) (from to j : String) (m : Labels)
    → (to =? j) ≡ false
    → label (copy_label ctx from to m) j ≡ label m j
unfolding copy_label
copy_label-other ctx from to j m e = go (label ctx from) refl
  where
    go : (v : Bytes) → label ctx from ≡ v → label (copy_label ctx from to m) j ≡ label m j
    go [] h = rw (h, copy_label) refl
    go (c ∷ cs) h = rw (h, copy_label) (label-insert_other to j (c ∷ cs) m e)

codec-ne-call_id : (r : Bool) → (codec_label r =? call_id_label r) ≡ false
codec-ne-call_id true = refl
codec-ne-call_id false = refl

enrich-names_call :
    (registry : Option (FlowRegistry FlowValue)) (pkt : DecodedPacket) (ctx : Dict String Bytes)
    (m : Labels) (r : Bool) (b : ℕ) (bs : Bytes)
    → registered registry (rtp_key pkt) ≡ some (context ctx)
    → label ctx "call_id" ≡ b ∷ bs
    → label (enrich_from_registry registry pkt m r) (call_id_label r) ≡ b ∷ bs
unfolding enrich_from_registry
enrich-names_call registry pkt ctx m r b bs e c =
    rw (e, enrich_from_registry)
      (copy_label-other ctx "codec" (codec_label r) (call_id_label r) _ (codec-ne-call_id r)
        ∙ copy_label-same ctx "call_id" (call_id_label r) m b bs c)

module _ (dec hex : ℕ → Bytes) where
  looks_like-not_none :
      (registry : Option (FlowRegistry FlowValue)) (pkt : DecodedPacket)
      → looks_like_rtp_or_rtcp pkt.payload ≡ true
      → handle_rtp_or_rtcp dec hex registry pkt ≢ none
  unfolding looks_like_rtp_or_rtcp handle_rtp_or_rtcp handle_rtp handle_rtcp
  looks_like-not_none registry pkt e h = ground arith

  -- What passes the heuristic is never refused by the handler: `Handle` makes labels of it.
  pub looks_like-handled :
      (registry : Option (FlowRegistry FlowValue)) (pkt : DecodedPacket)
      → looks_like_rtp_or_rtcp pkt.payload ≡ true
      → (labels : Labels) × (handle_rtp_or_rtcp dec hex registry pkt ≡ some labels)
  looks_like-handled registry pkt e =
      elim (Option-cases (handle_rtp_or_rtcp dec hex registry pkt)) [
        | inl bad ↦ absurd (looks_like-not_none registry pkt e bad)
        | inr good ↦ good
      ]

  -- If the flow of a packet is registered with a call id that is not empty, and `Handle` makes
  -- labels of the packet, they name the call: those of RTCP under the RTCP label, the others
  -- under that of RTP.
  pub handle-names_call :
      (registry : Option (FlowRegistry FlowValue)) (pkt : DecodedPacket) (ctx : Dict String Bytes)
      (labels : Labels) (b : ℕ) (bs : Bytes)
      → registered registry (rtp_key pkt) ≡ some (context ctx)
      → label ctx "call_id" ≡ b ∷ bs
      → handle_rtp_or_rtcp dec hex registry pkt ≡ some labels
      → label labels (call_id_label (is_rtcp_type (at pkt.payload 1))) ≡ b ∷ bs
  unfolding handle_rtp_or_rtcp handle_rtp handle_rtcp
  handle-names_call registry pkt ctx labels b bs e c h =
      let rtcp =
        enrich-names_call registry pkt ctx (rtcp_labels dec hex pkt.payload (at pkt.payload 1)) true
          b bs e c in
      let rtp =
        enrich-names_call registry pkt ctx (rtp_labels dec hex pkt.payload (at pkt.payload 1 % 128))
          false b bs e c in
      ground (arith, rtcp, rtp)
