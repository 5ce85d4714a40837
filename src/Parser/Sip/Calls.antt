-- ===== src/Parser/Sip/Calls.antt =====
-- plugins/parser/sip/sip.go: the calls across the messages that `Handle` sees, and the RTP parser of
-- plugins/parser/rtp/rtp.go on the flows that they register.
use otus.Parser.Rtp.Labelling.{handle-names_call}
use otus.Parser.Rtp.{rtp_key, handle_rtp_or_rtcp, call_id_label, is_rtcp_type}
use otus.Output.{Labels, label}
use otus.Text.{codes}
use otus.Parser.Sip.Flows.{
  kept, cleanup_flows-kept, BothWays, register_streams-BothWays, Registered,
}
use otus.Task.Flows.{get}
use otus.Core.{FlowKey, is_valid, flow_key_eq, DecodedPacket}
use otus.Parser.Sip.Sdp.{SdpInfo, MediaStream}
use otus.Parser.Sip.Message.{SipMessage}
use otus.Base.{
  List, Bytes, ℕ, ◌∷◌, [], ◌=?◌, All, ◌≡◌, false, ◌∙◌, some, list_eq, nat_eq, if_intro, refl, true,
  option_intro, Distinct, ◌≤◌, ◌+◌, none, get_elem?, beq_refl, ◌||◌, not, ◌&&◌, arith, at, ◌⊎◌, inl,
  inr,
}
use otus.Parser.Sip.Session.{
  SessionCache, IsLawful, handle_sdp, register_media_flows, SipState, SipSession, is_invite, is_end,
  end_call, store_offer, take_answer, is_200_ok, default_session_ttl, offer_session, register_media,
  media_ip, udp_key,
}

invite-not_end :
    (m : Bytes)
    → (m =? codes "INVITE") ≡ true
    → ((m =? codes "BYE") || (m =? codes "CANCEL")) ≡ false
invite-not_end m e = let same : m ≡ codes "INVITE" = (list_eq.beq_iff m _).0 e in rw same refl

module _ (C : SessionCache) where
  -- Messages with the times at which they are handled.
  unfoldable pub handle_all : List (SipMessage × ℕ) → SipState C → SipState C
  handle_all [] s = s
  handle_all ((msg, now) ∷ msgs) s = handle_all msgs (handle_sdp C msg now s)

  abbrev pub IsOfOther : Bytes → SipMessage × ℕ → Type 0
  IsOfOther call_id (msg, now) = (msg.call_id =? call_id) ≡ false

  module _ (L : IsLawful C) where
    end_call-keeps :
        (k j : Bytes) (s : SipState C) (t : ℕ)
        → (k =? j) ≡ false
        → C.get (end_call C k s).cache t j ≡ C.get s.cache t j
    end_call-keeps k j s t e = rw (L.get-delete, e) refl

    store_offer-keeps :
        (k j : Bytes) (sdp : SdpInfo) (now : ℕ) (s : SipState C) (t : ℕ)
        → (k =? j) ≡ false
        → C.get (store_offer C k sdp now s).cache t j ≡ C.get s.cache t j
    store_offer-keeps k j sdp now s t e = L.get-set_other _ _ _ _ _ _ _ e

    take_answer-keeps :
        (k j : Bytes) (sdp : SdpInfo) (now : ℕ) (s : SipState C) (t : ℕ)
        → (k =? j) ≡ false
        → C.get (take_answer C k sdp now s).cache t j ≡ C.get s.cache t j
    take_answer-keeps k j sdp now s t e =
        option_intro (λ (q : SipState C). C.get q.cache t j ≡ C.get s.cache t j)
          (C.get s.cache now k) (λ _. refl) (λ session _. L.get-assign_other _ _ _ _ _ e)

    handle_sdp-keeps :
        (msg : SipMessage) (now : ℕ) (s : SipState C) (j : Bytes) (t : ℕ)
        → (msg.call_id =? j) ≡ false
        → C.get (handle_sdp C msg now s).cache t j ≡ C.get s.cache t j
    unfolding handle_sdp
    handle_sdp-keeps msg now s j t e =
        let P : SipState C → Type 0 = λ q. C.get q.cache t j ≡ C.get s.cache t j in
        if_intro P (msg.call_id =? []) (λ _. refl)
          λ _.
            if_intro P (is_end msg) (λ _. end_call-keeps msg.call_id j s t e)
              λ _.
                option_intro P msg.sdp (λ _. refl)
                  λ sdp _.
                    if_intro P (is_invite msg) (λ _. store_offer-keeps msg.call_id j sdp now s t e)
                      λ _.
                        if_intro P (is_200_ok msg)
                          (λ _. take_answer-keeps msg.call_id j sdp now s t e) (λ _. refl)

    handle_all-keeps :
        (msgs : List (SipMessage × ℕ)) (s : SipState C) (j : Bytes) (t : ℕ)
        → All (IsOfOther j) msgs
        → C.get (handle_all msgs s).cache t j ≡ C.get s.cache t j
    unfolding handle_all
    handle_all-keeps [] s j t h = refl
    handle_all-keeps ((msg, now) ∷ msgs) s j t h =
        handle_all-keeps msgs (handle_sdp C msg now s) j t h.1 ∙ handle_sdp-keeps msg now s j t h.0

    take_answer-flows :
        (call_id : Bytes) (offer answer : SdpInfo) (now t : ℕ) (s : SipState C)
        → C.get s.cache now call_id ≡ some (offer_session C call_id offer t)
        → (take_answer C call_id answer now s).flows ≡ register_media offer answer call_id s.flows
    unfolding register_media_flows
    take_answer-flows call_id offer answer now t s found = rw (take_answer, found) refl

    -- An INVITE with an offer, messages of other calls, and within the time to live of the session a
    -- 200 OK with an answer.
    module _ (s : SipState C) (invite ok : SipMessage) (others : List (SipMessage × ℕ))
        (t now c : ℕ) (cs : Bytes) (offer answer : SdpInfo) (invite_id : invite.call_id ≡ c ∷ cs)
        (invite_method : is_invite invite ≡ true) (invite_sdp : invite.sdp ≡ some offer)
        (others_ids : All (IsOfOther (c ∷ cs)) others) (ok_id : ok.call_id ≡ c ∷ cs)
        (ok_method : ok.method ≡ []) (ok_status : is_200_ok ok ≡ true)
        (ok_sdp : ok.sdp ≡ some answer) (in_time : now ≤ t + default_session_ttl) where
      abbrev offered : SipState C
      offered = handle_all others (handle_sdp C invite t s)

      offer-stored :
          C.get (handle_sdp C invite t s).cache now (c ∷ cs)
          ≡ some (offer_session C (c ∷ cs) offer t)
      unfolding handle_sdp
      offer-stored =
          let some_id : (invite.call_id =? []) ≡ false = rw invite_id refl in
          rw
            (
              some_id,
              invite-not_end invite.method invite_method,
              invite_sdp,
              invite_method,
              invite_id,
            )
            (L.get-set_same _ _ _ _ _ _ in_time)

      answer-flows :
          (handle_sdp C ok now offered).flows ≡ register_media offer answer (c ∷ cs) offered.flows
      unfolding handle_sdp register_media_flows
      answer-flows =
          let some_id : (ok.call_id =? []) ≡ false = rw ok_id refl in
          let not_end : is_end ok ≡ false = rw ok_method refl in
          let not_invite : is_invite ok ≡ false = rw ok_method refl in
          let found =
            handle_all-keeps others (handle_sdp C invite t s) (c ∷ cs) now others_ids
            ∙ offer-stored in
          rw (some_id, not_end, ok_sdp, not_invite, ok_status, ok_id)
            (take_answer-flows (c ∷ cs) offer answer now t offered found)

      module _ (i : ℕ) (o a : MediaStream)
          (offered_stream : get_elem? offer.media_streams i ≡ some o)
          (answered_stream : get_elem? answer.media_streams i ≡ some a)
          (base : (is_valid offer.connection_ip || is_valid answer.connection_ip) ≡ true)
          (offer_ip : is_valid (media_ip o offer.connection_ip) ≡ true)
          (answer_ip : is_valid (media_ip a answer.connection_ip) ≡ true) where
        -- A 200 OK that answers an INVITE within 24 hours, whatever messages of other calls are
        -- handled in between, registers the flow of every stream that both list, in both
        -- directions, under the call: if one of the two has an address for the session, and the
        -- stream an address on both sides.
        pub ok-registers :
            BothWays
              (c ∷ cs)
              (handle_sdp C ok now offered).flows
              (media_ip o offer.connection_ip)
              (media_ip a answer.connection_ip)
              o.rtp_port
              a.rtp_port
        ok-registers =
            let streams =
              register_streams-BothWays (c ∷ cs) offer.connection_ip answer.connection_ip
                offer.media_streams answer.media_streams i o a offered.flows offered_stream
                answered_stream offer_ip answer_ip in
            rw answer-flows (
              if_intro
                (λ r.
                  BothWays (c ∷ cs) r (media_ip o offer.connection_ip)
                    (media_ip a answer.connection_ip) o.rtp_port a.rtp_port)
                (not (is_valid offer.connection_ip) && not (is_valid answer.connection_ip))
                (λ none_valid. absurd (ground arith)) (λ _. streams))

        names :
            (dec hex : ℕ → Bytes) (pkt : DecodedPacket) (labels : Labels) (k : FlowKey)
            → Registered (c ∷ cs) (handle_sdp C ok now offered).flows k
            → rtp_key pkt ≡ k
            → handle_rtp_or_rtcp dec hex (some (handle_sdp C ok now offered).flows) pkt
              ≡ some labels
            → label labels (call_id_label (is_rtcp_type (at pkt.payload 1))) ≡ c ∷ cs
        names dec hex pkt labels k (ctx, found, id) key handled =
            handle-names_call dec hex (some (handle_sdp C ok now offered).flows) pkt ctx labels c cs
              (rw key found) id handled

        -- A 200 OK that answers an INVITE within 24 hours, whatever messages of other calls are
        -- handled in between, makes the RTP parser label with the call id of the call every packet
        -- that it handles between the addresses and RTP ports of a stream that both list, in either
        -- direction: if one of the two has an address for the session, and the stream an address on
        -- both sides.
        pub ok-labels_rtp :
            (dec hex : ℕ → Bytes) (pkt : DecodedPacket) (labels : Labels)
            → (rtp_key pkt
                ≡ udp_key
                    (media_ip o offer.connection_ip)
                    (media_ip a answer.connection_ip)
                    o.rtp_port
                    a.rtp_port)
              ⊎ (rtp_key pkt
                  ≡ udp_key
                      (media_ip a answer.connection_ip)
                      (media_ip o offer.connection_ip)
                      a.rtp_port
                      o.rtp_port)
            → handle_rtp_or_rtcp dec hex (some (handle_sdp C ok now offered).flows) pkt
              ≡ some labels
            → label labels (call_id_label (is_rtcp_type (at pkt.payload 1))) ≡ c ∷ cs
        ok-labels_rtp dec hex pkt labels (inl key) handled =
            names dec hex pkt labels _ ok-registers.0 key handled
        ok-labels_rtp dec hex pkt labels (inr key) handled =
            names dec hex pkt labels _ ok-registers.1 key handled

  -- A BYE or CANCEL takes out of the registry exactly the flows whose context names its call, and
  -- the session out of the cache: the flows of other calls stay, and no answer finds the session.
  pub end-forgets :
      (L : IsLawful C) (msg : SipMessage) (now later : ℕ) (s : SipState C) (j : FlowKey)
      → is_end msg ≡ true
      → (msg.call_id =? []) ≡ false
      → Distinct s.flows.flows
      → (get (handle_sdp C msg now s).flows j ≡ kept msg.call_id (get s.flows j) (get s.flows j))
        × (C.get (handle_sdp C msg now s).cache later msg.call_id ≡ none)
  unfolding handle_sdp
  end-forgets L msg now later s j e n d =
      rw (n, e)
        (cleanup_flows-kept msg.call_id s.flows j d, rw (L.get-delete, beq_refl msg.call_id) refl)

  -- Without an address for the session on either side an answer registers nothing, whatever
  -- addresses the streams themselves have.
  pub take_answer-unregistered :
      (call_id : Bytes) (offer answer : SdpInfo) (now : ℕ) (s : SipState C) (session : SipSession)
      → C.get s.cache now call_id ≡ some session
      → session.offer_sdp ≡ some offer
      → is_valid offer.connection_ip ≡ false
      → is_valid answer.connection_ip ≡ false
      → (take_answer C call_id answer now s).flows ≡ s.flows
  unfolding register_media_flows
  take_answer-unregistered call_id offer answer now s session found o vo va =
      rw (take_answer, found, o, vo, va) refl
