-- ===== src/Parser/Sip/Printing/Lines.antt =====
-- plugins/parser/sip/sip.go: what `parseSDPBody` makes of each line of Printing.antt.
use mathlib.Core.Path.{subst}
use otus.Parser.Sip.Printing.{
  IsPrintable, media_text, connection_text, rtcp_text, direction_text, is_empty, lines_if,
  codec_text, IsLegible, IsAddress,
}
use otus.Parser.Sip.Sdp.{
  sdp_line, typed_line, SdpState, media_line, connection_line, MediaStream, parse_connection_line,
  save_media, set_connection, new_media, read_media, third_addr, attribute_line, sdp_lines,
  attribute, no_media, is_direction, first_codec, set_rtcp_port,
}
use otus.Text.{
  parse_uint16, trim, is_space, split_space, trim_right, codes, trim_left, fields, has_prefix,
  split_n,
}
use otus.Text.Tokens.{
  IsToken, IsTrimmed, trim-cr, trim_right-append, trim-IsTrimmed, trim_left-whole, trim_right-token,
  trim_left-token, append-nonempty, fields-append, fields-token,
}
use otus.Core.{Addr, is_valid, zero_addr, v4, v6}
use otus.Base.{
  Bytes, ℕ, ◌≡◌, some, true, ◌≢◌, [], false, ◌++◌, ◌∷◌, ap, List, refl, ◌∙◌, if◌then◌else◌, Bool,
  if_intro, not, map, Bool-cases, ◌=?◌, inl, inr, sym, list_eq, arith, nat_eq,
}

pub direction_ind {ℓ} :
    (P : Bytes → Type ℓ)
    → P (codes "sendrecv")
    → P (codes "sendonly")
    → P (codes "recvonly")
    → P (codes "inactive")
    → (d : Bytes) → is_direction d ≡ true
    → P d
direction_ind P a b c e d h = elim (Bool-cases (d =? codes "sendrecv")) [
  | inl hit ↦ subst P (sym ((list_eq.beq_iff d _).0 hit)) a
  | inr n1 ↦ elim (Bool-cases (d =? codes "sendonly")) [
    | inl hit ↦ subst P (sym ((list_eq.beq_iff d _).0 hit)) b
    | inr n2 ↦ elim (Bool-cases (d =? codes "recvonly")) [
      | inl hit ↦ subst P (sym ((list_eq.beq_iff d _).0 hit)) c
      | inr n3 ↦ subst P (sym ((list_eq.beq_iff d _).0 (ground arith))) e
    ]
  ]
]

module _ {parse_addr : Bytes → Addr} {dec : ℕ → Bytes} {addr_text : Addr → Bytes}
    (L : IsLegible parse_addr dec addr_text) where
  -- A line that is trimmed, begins with `x=` and has its value trimmed is read as typed.
  line-typed :
      (kind : ℕ) (value : Bytes) (s : SdpState)
      → value ≢ []
      → is_space kind ≡ false
      → IsTrimmed value
      → sdp_line parse_addr (trim ((kind ∷ b'=' ∷ value) ++ b'\r' ∷ [])) s
        ≡ typed_line parse_addr kind value s
  unfolding sdp_line
  line-typed kind value s n h t =
      rw (trim-cr kind (b'=' ∷ value) h (trim_right-append (kind ∷ b'=' ∷ []) value n t.1))
        (ap (λ v. typed_line parse_addr kind v s) (trim-IsTrimmed value t))

  token-IsTrimmed : (s : Bytes) → IsToken s → IsTrimmed s
  token-IsTrimmed s h = (trim_left-whole s h, trim_right-token s h.1)

  read_media-some :
      (kind port proto : Bytes) (rest : List Bytes) (n : ℕ)
      → parse_uint16 port ≡ some n
      → read_media (kind ∷ port ∷ proto ∷ rest) ≡ some (new_media kind n)
  read_media-some kind port proto rest n e = rw (read_media, e) refl

  media_fields :
      (m : MediaStream)
      → IsPrintable m
      → fields (m.media_type ++ b' ' ∷ (dec m.rtp_port ++ codes " RTP/AVP 0"))
        ≡ m.media_type ∷ dec m.rtp_port ∷ codes "RTP/AVP" ∷ codes "0" ∷ []
  unfolding split_space
  media_fields m h =
      fields-append m.media_type _ h.type_token
      ∙ ap (◌∷◌ m.media_type)
          (fields-append (dec m.rtp_port) (codes "RTP/AVP 0") (L.dec_token m.rtp_port))

  media_IsTrimmed :
      (m : MediaStream)
      → IsPrintable m
      → IsTrimmed (m.media_type ++ b' ' ∷ (dec m.rtp_port ++ codes " RTP/AVP 0"))
  unfolding trim_right
  media_IsTrimmed m h = (
    trim_left-token m.media_type _ h.type_token,
    trim_right-append m.media_type (b' ' ∷ (dec m.rtp_port ++ codes " RTP/AVP 0")) (λ e. cc)
        (trim_right-append (b' ' ∷ dec m.rtp_port) (codes " RTP/AVP 0") (λ e. cc) refl),
  )

  media_line-some :
      (value : Bytes) (s : SdpState) (m : MediaStream)
      → read_media (fields value) ≡ some m
      → media_line value s ≡ record s { saved = save_media s; current_media = some m }
  unfolding media_line
  media_line-some value s m e = rw (media_line, e) refl

  pub media_line-reads :
      (m : MediaStream) (s : SdpState)
      → IsPrintable m
      → sdp_line parse_addr (trim (media_text dec addr_text m ++ b'\r' ∷ [])) s ≡ record s {
        saved = save_media s;
        current_media = some (new_media m.media_type m.rtp_port);
      }
  unfolding typed_line media_line
  media_line-reads m s h =
      line-typed b'm' (m.media_type ++ b' ' ∷ (dec m.rtp_port ++ codes " RTP/AVP 0")) s
        (append-nonempty m.media_type _ (λ e. cc)) refl (media_IsTrimmed m h)
      ∙ media_line-some _ s (new_media m.media_type m.rtp_port) (
          ap read_media (media_fields m h)
          ∙ read_media-some m.media_type (dec m.rtp_port) (codes "RTP/AVP") (codes "0" ∷ [])
              m.rtp_port (L.dec_reads m.rtp_port h.rtp_range))

  connection_text-addr :
      (ip : Addr)
      → IsAddress ip
      → is_valid ip ≡ true
      → parse_connection_line parse_addr (codes "IN IP4 " ++ addr_text ip) ≡ ip
  unfolding parse_connection_line split_space
  connection_text-addr ip a h =
      let token = L.addr_token ip a h in
      let parts : fields (codes "IN IP4 " ++ addr_text ip)
          ≡ codes "IN" ∷ codes "IP4" ∷ addr_text ip ∷ [] =
        fields-append (codes "IN") (codes "IP4 " ++ addr_text ip) (λ e. cc, (refl, (refl, tt)))
        ∙ ap (◌∷◌ (codes "IN")) (
            fields-append (codes "IP4") (addr_text ip) (λ e. cc, (refl, (refl, (refl, tt))))
            ∙ ap (◌∷◌ (codes "IP4")) (fields-token (addr_text ip) token)) in
      ap (third_addr parse_addr) parts ∙ L.addr_reads ip a h

  pub connection_line-reads :
      (ip : Addr) (s : SdpState)
      → IsAddress ip
      → is_valid ip ≡ true
      → sdp_line parse_addr (trim (connection_text dec addr_text ip ++ b'\r' ∷ [])) s
        ≡ set_connection parse_addr ip s
  unfolding typed_line connection_line trim_left
  connection_line-reads ip s a h =
      let token = L.addr_token ip a h in
      let trimmed : IsTrimmed (codes "IN IP4 " ++ addr_text ip) = (
        refl,
        trim_right-append (codes "IN IP4 ") (addr_text ip) token.0 (trim_right-token _ token.1),
      ) in
      line-typed b'c' (codes "IN IP4 " ++ addr_text ip) s (λ e. cc) refl trimmed
      ∙ ap (λ i. set_connection parse_addr i s) (connection_text-addr ip a h)

  -- The state behind a line of the stream `m`.
  abbrev pub in_media : Addr → List MediaStream → MediaStream → SdpState
  in_media ip ms m = record { session_ip = ip; current_media = some m; saved = ms }

  abbrev pub cr : Bytes → Bytes
  cr line = line ++ b'\r' ∷ []

  attribute-reads :
      (value : Bytes) (ip : Addr) (ms : List MediaStream) (m : MediaStream)
      → value ≢ []
      → IsTrimmed value
      → sdp_line parse_addr (trim (cr (codes "a=" ++ value))) (in_media ip ms m)
        ≡ in_media ip ms (attribute value m)
  unfolding typed_line attribute_line
  attribute-reads value ip ms m n t = line-typed b'a' value (in_media ip ms m) n refl t

  pub sdp_lines-if :
      (b : Bool) (line : Bytes) (rest : List Bytes) (s : SdpState)
      → sdp_lines parse_addr (map cr (lines_if b line ++ rest)) s
        ≡ sdp_lines parse_addr
            (map cr rest)
            (if b then sdp_line parse_addr (trim (cr line)) s else s)
  unfolding sdp_lines
  sdp_lines-if true line rest s = refl
  sdp_lines-if false line rest s = refl

  not_valid-zero : (ip : Addr) → is_valid ip ≡ false → zero_addr ≡ ip
  not_valid-zero zero_addr h = refl
  not_valid-zero (v4 b) h = absurd (cc)
  not_valid-zero (v6 b) h = absurd (cc)

  pub connection-step :
      (ip base : Addr) (ms : List MediaStream) (m : MediaStream)
      → IsAddress ip
      → m.connection_ip ≡ zero_addr
      → (if is_valid ip
          then sdp_line parse_addr
              (trim (cr (connection_text dec addr_text ip)))
              (in_media base ms m)
          else in_media base ms m)
        ≡ in_media base ms (record m { connection_ip = ip })
  connection-step ip base ms m g z =
      if_intro (λ q. q ≡ in_media base ms (record m { connection_ip = ip })) (is_valid ip)
        (λ h. connection_line-reads ip (in_media base ms m) g h ∙ rw h refl)
        (λ h. ap (λ a. in_media base ms (record m { connection_ip = a })) (z ∙ not_valid-zero ip h))

  pub session-step :
      (ip : Addr)
      → IsAddress ip
      → (if is_valid ip
          then sdp_line parse_addr (trim (cr (connection_text dec addr_text ip))) no_media
          else no_media)
        ≡ record no_media { session_ip = ip }
  session-step ip g =
      if_intro (λ q. q ≡ record no_media { session_ip = ip }) (is_valid ip)
        (λ h. connection_line-reads ip no_media g h ∙ rw h refl)
        (λ h. ap (λ a. record no_media { session_ip = a }) (not_valid-zero ip h))

  pub rtcp-step :
      (w : MediaStream) (base : Addr) (ms : List MediaStream) (m : MediaStream)
      → IsPrintable w
      → m.rtp_port ≡ w.rtp_port
      → m.rtcp_mux ≡ false
      → sdp_line parse_addr (trim (cr (rtcp_text dec addr_text w))) (in_media base ms m)
        ≡ in_media base ms (record m { rtcp_mux = w.rtcp_mux; rtcp_port = w.rtcp_port })
  unfolding attribute has_prefix trim_left trim_right
  rtcp-step w base ms m h p x = elim (Bool-cases w.rtcp_mux) [
    | inl mux ↦ rw mux (
        attribute-reads (codes "rtcp-mux") base ms m (λ e. cc) (refl, refl)
        ∙ rw (h.muxed mux, p) refl)
    | inr mux ↦
        let token = L.dec_token w.rtcp_port in
        let trimmed : IsTrimmed (codes "rtcp:" ++ dec w.rtcp_port) = (
          refl,
          trim_right-append (codes "rtcp:") (dec w.rtcp_port) token.0 (trim_right-token _ token.1),
        ) in
        rw mux (
          attribute-reads (codes "rtcp:" ++ dec w.rtcp_port) base ms m (λ e. cc) trimmed
          ∙ ap (λ q. in_media base ms (set_rtcp_port q m)) (L.dec_reads w.rtcp_port h.rtcp_range)
          ∙ rw x refl)
  ]

  codec-step_on :
      (codec : Bytes) (base : Addr) (ms : List MediaStream) (m : MediaStream)
      → trim_right codec ≡ codec
      → m.codec ≡ []
      → (if not (is_empty codec)
          then sdp_line parse_addr (trim (cr (codes "a=rtpmap:0 " ++ codec))) (in_media base ms m)
          else in_media base ms m)
        ≡ in_media base ms (record m { codec = codec })
  unfolding attribute has_prefix split_n trim_left
  codec-step_on [] base ms m t e = ap (λ q. in_media base ms (record m { codec = q })) e
  codec-step_on (c ∷ codec) base ms m t e =
      attribute-reads (codes "rtpmap:0 " ++ c ∷ codec) base ms m (λ e. cc)
        (refl, trim_right-append (codes "rtpmap:0 ") (c ∷ codec) (λ e. cc) t)
      ∙ ap (λ q. in_media base ms (first_codec q (codes "0 " ++ c ∷ codec) m)) e

  pub codec-step :
      (w : MediaStream) (base : Addr) (ms : List MediaStream) (m : MediaStream)
      → IsPrintable w
      → m.codec ≡ []
      → (if not (is_empty w.codec)
          then sdp_line parse_addr (trim (cr (codec_text dec addr_text w))) (in_media base ms m)
          else in_media base ms m)
        ≡ in_media base ms (record m { codec = w.codec })
  codec-step w base ms m h e = codec-step_on w.codec base ms m h.codec_trimmed e

  pub direction-step :
      (w : MediaStream) (base : Addr) (ms : List MediaStream) (m : MediaStream)
      → IsPrintable w
      → sdp_line parse_addr (trim (cr (direction_text dec addr_text w))) (in_media base ms m)
        ≡ in_media base ms (record m { direction = w.direction })
  unfolding sdp_line typed_line attribute_line attribute has_prefix trim_left trim_right
  direction-step w base ms m h =
      direction_ind
        (λ d.
          sdp_line parse_addr (trim (cr (codes "a=" ++ d))) (in_media base ms m)
          ≡ in_media base ms (record m { direction = d }))
        refl refl refl refl w.direction h.direction_known
