-- ===== src/Parser/Sip/Printing/RoundTrip.antt =====
-- plugins/parser/sip/sip.go: `parseSDPBody` on the bodies of Printing.antt.
use otus.Parser.Sip.Printing.Lines.{
  cr, in_media, media_line-reads, sdp_lines-if, connection-step, rtcp-step, codec-step,
  direction-step, direction_ind, session-step,
}
use mathlib.Core.List.{append-nil, map-append, append_assoc}
use otus.Text.Split.{Lacks, split_on-empty, split_on-append, split_on-Lacks, lacks-Lacks}
use otus.Parser.Sip.Printing.{
  IsPrintable, media_text, connection_text, rtcp_text, direction_text, is_empty, lines_if,
  codec_text, media_lines, streams_lines, print_lines, IsLegible, print_sdp, info_lines, IsAddress,
}
use otus.Parser.Sip.Sdp.{
  sdp_line, typed_line, SdpState, MediaStream, save_media, new_media, sdp_lines, no_media,
  session_addr, parse_sdp_body, SdpInfo, finish_sdp,
}
use otus.Text.{trim, trim_right, codes, trim_left, split_on}
use otus.Text.Tokens.{Lacks-append, token-Lacks, prefix-Lacks}
use otus.Core.{Addr, is_valid, zero_addr, v4, v6}
use otus.Base.{
  Bytes, ℕ, ◌≡◌, some, true, [], false, ◌++◌, ◌∷◌, ap, List, refl, ◌∙◌, Bool, if_intro, not, map,
  sym, list_eq, nat_eq, All,
}

module _ {parse_addr : Bytes → Addr} {dec : ℕ → Bytes} {addr_text : Addr → Bytes}
    (L : IsLegible parse_addr dec addr_text) where
  sdp_lines-append :
      (xs ys : List Bytes) (s : SdpState)
      → sdp_lines parse_addr (xs ++ ys) s ≡ sdp_lines parse_addr ys (sdp_lines parse_addr xs s)
  unfolding sdp_lines
  sdp_lines-append [] ys s = refl
  sdp_lines-append (x ∷ xs) ys s = sdp_lines-append xs ys (sdp_line parse_addr (trim x) s)

  media_lines-reads :
      (m : MediaStream) (s : SdpState)
      → IsPrintable m
      → sdp_lines parse_addr (map (cr L) (media_lines dec addr_text m)) s
        ≡ in_media L s.session_ip (save_media s) m
  unfolding sdp_lines
  media_lines-reads m s h =
      let base = s.session_ip in
      let saved = save_media s in
      let started = new_media m.media_type m.rtp_port in
      let placed : MediaStream = record started { connection_ip = m.connection_ip } in
      let muxed : MediaStream = record placed { rtcp_mux = m.rtcp_mux; rtcp_port = m.rtcp_port } in
      let coded : MediaStream = record muxed { codec = m.codec } in
      let last = direction_text dec addr_text m ∷ [] in
      let codecs = lines_if (not (is_empty m.codec)) (codec_text dec addr_text m) ++ last in
      let rtcps = rtcp_text dec addr_text m ∷ codecs in
      let conns =
        lines_if (is_valid m.connection_ip) (connection_text dec addr_text m.connection_ip)
        ++ rtcps in
      ap (sdp_lines parse_addr (map (cr L) conns)) (media_line-reads L m s h)
      ∙ sdp_lines-if L (is_valid m.connection_ip) (connection_text dec addr_text m.connection_ip)
          rtcps (in_media L base saved started)
      ∙ ap (sdp_lines parse_addr (map (cr L) rtcps))
          (connection-step L m.connection_ip base saved started h.address refl)
      ∙ ap (sdp_lines parse_addr (map (cr L) codecs)) (rtcp-step L m base saved placed h refl refl)
      ∙ sdp_lines-if L (not (is_empty m.codec)) (codec_text dec addr_text m) last
          (in_media L base saved muxed)
      ∙ ap (sdp_lines parse_addr (map (cr L) last)) (codec-step L m base saved muxed h refl)
      ∙ direction-step L m base saved coded h

  -- Behind the lines of some streams they are saved, or the last is being read.
  streams_lines-reads :
      (ms : List MediaStream) (s : SdpState)
      → All IsPrintable ms
      → (q : SdpState) × (sdp_lines parse_addr (map (cr L) (streams_lines dec addr_text ms)) s ≡ q)
        × (q.session_ip ≡ s.session_ip)
        × (save_media q ≡ save_media s ++ ms)
  unfolding sdp_lines
  streams_lines-reads [] s h = (s, refl, refl, sym (append-nil (save_media s)))
  streams_lines-reads (m ∷ ms) s h =
      let (q, e, ip, saved) =
        streams_lines-reads ms (in_media L s.session_ip (save_media s) m) h.1 in
      (
        q,
        ap (λ ls. sdp_lines parse_addr ls s)
              (map-append (cr L) (media_lines dec addr_text m) (streams_lines dec addr_text ms))
            ∙ sdp_lines-append (map (cr L) (media_lines dec addr_text m))
                (map (cr L) (streams_lines dec addr_text ms)) s
            ∙ ap (sdp_lines parse_addr (map (cr L) (streams_lines dec addr_text ms)))
                (media_lines-reads m s h.0)
            ∙ e,
        ip,
        saved ∙ append_assoc (save_media s) (m ∷ []) ms,
      )

  split_on-print_lines :
      (ls : List Bytes)
      → All (Lacks b'\n') ls
      → split_on b'\n' (print_lines ls) ≡ map (cr L) ls ++ [] ∷ []
  split_on-print_lines [] h = split_on-empty b'\n'
  split_on-print_lines (l ∷ ls) h =
      split_on-append b'\n' (cr L l) (print_lines ls)
      ∙ rw
          (
            split_on-Lacks b'\n' (cr L l) (Lacks-append b'\n' l (b'\r' ∷ []) h.0 (refl, tt)),
            split_on-print_lines ls h.1,
          )
          refl

  lines_if-Lacks :
      (b : Bool) (line : Bytes) (rest : List Bytes)
      → (b ≡ true → Lacks b'\n' line)
      → All (Lacks b'\n') rest
      → All (Lacks b'\n') (lines_if b line ++ rest)
  lines_if-Lacks true line rest h k = (h refl, k)
  lines_if-Lacks false line rest h k = k

  connection_text-Lacks :
      (ip : Addr)
      → IsAddress ip
      → is_valid ip ≡ true
      → Lacks b'\n' (connection_text dec addr_text ip)
  connection_text-Lacks ip a h =
      prefix-Lacks b'\n' (codes "c=IN IP4 ") (addr_text ip) refl
        (token-Lacks _ (L.addr_token ip a h).1)

  rtcp_text-Lacks : (m : MediaStream) → Lacks b'\n' (rtcp_text dec addr_text m)
  rtcp_text-Lacks m =
      if_intro (Lacks b'\n') m.rtcp_mux (λ _. lacks-Lacks b'\n' (codes "a=rtcp-mux") refl)
        (λ _.
          prefix-Lacks b'\n' (codes "a=rtcp:") (dec m.rtcp_port) refl
            (token-Lacks _ (L.dec_token m.rtcp_port).1))

  media_text-Lacks : (m : MediaStream) → IsPrintable m → Lacks b'\n' (media_text dec addr_text m)
  media_text-Lacks m h =
      prefix-Lacks b'\n' (codes "m=")
        (m.media_type ++ b' ' ∷ (dec m.rtp_port ++ codes " RTP/AVP 0")) refl
        (Lacks-append b'\n' m.media_type _ (token-Lacks _ h.type_token.1) (
          refl,
          Lacks-append b'\n' (dec m.rtp_port) (codes " RTP/AVP 0")
              (token-Lacks _ (L.dec_token m.rtp_port).1)
              (lacks-Lacks b'\n' (codes " RTP/AVP 0") refl),
        ))

  direction-Lacks : (m : MediaStream) → IsPrintable m → Lacks b'\n' (direction_text dec addr_text m)
  direction-Lacks m h =
      direction_ind (λ d. Lacks b'\n' (codes "a=" ++ d))
        (lacks-Lacks b'\n' (codes "a=sendrecv") refl) (lacks-Lacks b'\n' (codes "a=sendonly") refl)
        (lacks-Lacks b'\n' (codes "a=recvonly") refl) (lacks-Lacks b'\n' (codes "a=inactive") refl)
        m.direction h.direction_known

  All-append :
      (xs ys : List Bytes)
      → All (Lacks b'\n') xs
      → All (Lacks b'\n') ys
      → All (Lacks b'\n') (xs ++ ys)
  All-append [] ys h k = k
  All-append (x ∷ xs) ys h k = (h.0, All-append xs ys h.1 k)

  media_lines-Lacks :
      (m : MediaStream) → IsPrintable m → All (Lacks b'\n') (media_lines dec addr_text m)
  media_lines-Lacks m h = (
    media_text-Lacks m h,
    lines_if-Lacks (is_valid m.connection_ip) (connection_text dec addr_text m.connection_ip) _
        (connection_text-Lacks m.connection_ip h.address)
        (
          rtcp_text-Lacks m,
          lines_if-Lacks (not (is_empty m.codec)) (codec_text dec addr_text m) _
              (λ _. prefix-Lacks b'\n' (codes "a=rtpmap:0 ") m.codec refl h.codec_line)
              (direction-Lacks m h, tt),
        ),
  )

  streams_lines-Lacks :
      (ms : List MediaStream)
      → All IsPrintable ms
      → All (Lacks b'\n') (streams_lines dec addr_text ms)
  streams_lines-Lacks [] h = tt
  streams_lines-Lacks (m ∷ ms) h =
      All-append (media_lines dec addr_text m) (streams_lines dec addr_text ms)
        (media_lines-Lacks m h.0) (streams_lines-Lacks ms h.1)

  session_addr_same : (ip : Addr) → session_addr parse_addr ip ≡ ip
  session_addr_same zero_addr = refl
  session_addr_same (v4 b) = refl
  session_addr_same (v6 b) = refl

  info_lines-Lacks :
      (sdp : SdpInfo)
      → IsAddress sdp.connection_ip
      → All IsPrintable sdp.media_streams
      → All (Lacks b'\n') (info_lines dec addr_text sdp)
  info_lines-Lacks sdp a h =
      lines_if-Lacks (is_valid sdp.connection_ip) (connection_text dec addr_text sdp.connection_ip)
        _ (connection_text-Lacks sdp.connection_ip a) (streams_lines-Lacks sdp.media_streams h)

  -- The state behind the lines of a body.
  body-reads :
      (sdp : SdpInfo)
      → IsAddress sdp.connection_ip
      → All IsPrintable sdp.media_streams
      → (q : SdpState) × (sdp_lines parse_addr
            (split_on b'\n' (print_sdp dec addr_text sdp))
            no_media
          ≡ q)
        × (q.session_ip ≡ sdp.connection_ip)
        × (save_media q ≡ sdp.media_streams)
  unfolding sdp_lines sdp_line typed_line trim_left trim_right
  body-reads sdp a h =
      let lines = info_lines dec addr_text sdp in
      let streams = streams_lines dec addr_text sdp.media_streams in
      let (q, e, ip, saved) =
        streams_lines-reads sdp.media_streams (record no_media { session_ip = sdp.connection_ip })
          h in
      (
        q,
        ap (λ ls. sdp_lines parse_addr ls no_media)
              (split_on-print_lines (codes "v=0" ∷ lines)
                (lacks-Lacks b'\n' (codes "v=0") refl, info_lines-Lacks sdp a h))
            ∙ sdp_lines-append (map (cr L) lines) ([] ∷ []) no_media
            ∙ sdp_lines-if L (is_valid sdp.connection_ip)
                (connection_text dec addr_text sdp.connection_ip) streams no_media
            ∙ ap (sdp_lines parse_addr (map (cr L) streams)) (session-step L sdp.connection_ip a)
            ∙ e,
        ip,
        saved,
      )

  finish_sdp-some :
      (ip : Addr) (m : MediaStream) (ms : List MediaStream)
      → finish_sdp parse_addr ip (m ∷ ms)
        ≡ some (record { connection_ip = ip; media_streams = m ∷ ms })
  unfolding finish_sdp
  finish_sdp-some ip m ms =
      ap (λ a. some (record { connection_ip = a; media_streams = m ∷ ms })) (session_addr_same ip)

  -- An SDP description with at least one stream is parsed back from the body that `print_sdp` writes
  -- for it, when its texts can stand in a line and its addresses have 4 or 16 bytes: the address of
  -- the session, and of every stream the type, ports, multiplexing, codec, direction and address.
  -- That is for texts of numbers and addresses without blanks that the parsers read back.
  pub parse-print_sdp :
      (ip : Addr) (m : MediaStream) (ms : List MediaStream)
      → IsAddress ip
      → All IsPrintable (m ∷ ms)
      → parse_sdp_body parse_addr
          (print_sdp dec addr_text (record { connection_ip = ip; media_streams = m ∷ ms }))
        ≡ some (record { connection_ip = ip; media_streams = m ∷ ms })
  unfolding parse_sdp_body
  parse-print_sdp ip m ms a h =
      let sdp : SdpInfo = record { connection_ip = ip; media_streams = m ∷ ms } in
      let (q, e, session, saved) = body-reads sdp a h in
      ap (λ s. finish_sdp parse_addr s.session_ip (save_media s)) e
      ∙ rw (session, saved) (finish_sdp-some ip m ms)
