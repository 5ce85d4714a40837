-- ===== src/Parser/Sip/Sdp.antt =====
-- plugins/parser/sip/sip.go: `parseSDPBody` and what it reads line by line. `parse_addr` stands for
-- `netip.ParseAddr`, with the zero address in place of its error.
use otus.Text.{fields, split_n, split_on, parse_uint16, trim, codes, has_prefix}
use otus.Core.{Addr, zero_addr, is_valid}
use otus.Base.{
  Bytes, List, Option, ℕ, none, Bool, if◌then◌else◌, ◌∷◌, [], some, u16, ◌=?◌, ◌==◌, ◌++◌, ◌+◌,
  false, ◌||◌, true, list_eq, nat_eq, drop,
}

pub record MediaStream : Type 0 where
  pub media_type : Bytes
  pub rtp_port : ℕ
  pub rtcp_port : ℕ
  pub rtcp_mux : Bool
  pub codec : Bytes
  pub direction : Bytes
  pub connection_ip : Addr

pub record SdpInfo : Type 0 where
  pub connection_ip : Addr
  pub media_streams : List MediaStream

-- The variables of the loop: `sessionIP`, `currentMedia` and the streams saved in `sdp`.
pub record SdpState : Type 0 where
  pub session_ip : Addr
  pub current_media : Option MediaStream
  pub saved : List MediaStream

abbrev pub no_media : SdpState
no_media = record { session_ip = zero_addr; current_media = none; saved = [] }

-- `if currentMedia != nil { sdp.mediaStreams = append(sdp.mediaStreams, *currentMedia) }`
abbrev pub save_media : SdpState → List MediaStream
save_media s = elim s.current_media [ none ↦ s.saved | some m ↦ s.saved ++ m ∷ [] ]

abbrev pub new_media : Bytes → ℕ → MediaStream
new_media kind port = record {
  media_type = kind;
  rtp_port = port;
  rtcp_port = u16 (port + 1);
  rtcp_mux = false;
  codec = [];
  direction = codes "sendrecv";
  connection_ip = zero_addr;
}

-- `parts[0]` and the port of `parts[1]`, if there are three parts and the port is one.
abbrev pub read_media : List Bytes → Option MediaStream
read_media (kind ∷ port ∷ proto ∷ rest) = elim (parse_uint16 port) [
  | none ↦ none
  | some n ↦ some (new_media kind n)
]
read_media _ = none

-- `case 'm'`: the stream before is saved, also when the line gives no new one in its place.
unfoldable pub media_line : Bytes → SdpState → SdpState
media_line value s = elim (read_media (fields value)) [
  | none ↦ record s { saved = save_media s }
  | some m ↦ record s { saved = save_media s; current_media = some m }
]

abbrev pub set_codec : List Bytes → MediaStream → MediaStream
set_codec (number ∷ codec ∷ []) m = record m { codec = codec }
set_codec _ m = m

abbrev pub first_codec : Bytes → Bytes → MediaStream → MediaStream
first_codec [] value m = set_codec (split_n 2 b' ' value) m
first_codec (c ∷ cs) value m = m

abbrev pub set_rtcp_port : Option ℕ → MediaStream → MediaStream
set_rtcp_port none m = m
set_rtcp_port (some port) m = record m { rtcp_port = port }

abbrev pub is_direction : Bytes → Bool
is_direction value =
    (value =? codes "sendrecv")
    || (value =? codes "sendonly")
    || (value =? codes "recvonly")
    || (value =? codes "inactive")

-- `case 'a'`
unfoldable pub attribute : Bytes → MediaStream → MediaStream
attribute value m =
    if value =? codes "rtcp-mux"
    then record m { rtcp_mux = true; rtcp_port = m.rtp_port }
    else if has_prefix (codes "rtcp:") value
    then set_rtcp_port (parse_uint16 (drop 5 value)) m
    else if has_prefix (codes "rtpmap:") value
    then first_codec m.codec (drop 7 value) m
    else if is_direction value
    then record m { direction = value }
    else m

unfoldable pub attribute_line : Bytes → SdpState → SdpState
attribute_line value s = elim s.current_media [
  | none ↦ s
  | some m ↦ record s { current_media = some (attribute value m) }
]

module _ (parse_addr : Bytes → Addr) where
  abbrev pub third_addr : List Bytes → Addr
  third_addr (net ∷ kind ∷ addr ∷ rest) = parse_addr addr
  third_addr _ = zero_addr

  unfoldable pub parse_connection_line : Bytes → Addr
  parse_connection_line value = third_addr (fields value)

  abbrev pub set_connection : Addr → SdpState → SdpState
  set_connection ip s =
      if is_valid ip
      then elim s.current_media [
        | none ↦ record s { session_ip = ip }
        | some m ↦ record s { current_media = some (record m { connection_ip = ip }) }
      ]
      else s

  -- `case 'c'`
  unfoldable pub connection_line : Bytes → SdpState → SdpState
  connection_line value s = set_connection (parse_connection_line value) s

  unfoldable pub typed_line : ℕ → Bytes → SdpState → SdpState
  typed_line kind value s =
      if kind == b'c'
      then connection_line value s
      else if kind == b'm'
      then media_line value s
      else if kind == b'a'
      then attribute_line value s
      else s

  -- The body of the loop, on the line without the white space around it.
  unfoldable pub sdp_line : Bytes → SdpState → SdpState
  sdp_line (kind ∷ eq ∷ value) s = if eq == b'=' then typed_line kind (trim value) s else s
  sdp_line _ s = s

  unfoldable pub sdp_lines : List Bytes → SdpState → SdpState
  sdp_lines [] s = s
  sdp_lines (line ∷ lines) s = sdp_lines lines (sdp_line (trim line) s)

  abbrev pub session_addr : Addr → Addr
  session_addr ip = if is_valid ip then ip else zero_addr

  -- `none` is the error "no media streams in SDP".
  unfoldable pub finish_sdp : Addr → List MediaStream → Option SdpInfo
  finish_sdp ip [] = none
  finish_sdp ip (m ∷ ms) = some (record { connection_ip = session_addr ip; media_streams = m ∷ ms })

  unfoldable pub parse_sdp_body : Bytes → Option SdpInfo
  parse_sdp_body body =
      let s = sdp_lines (split_on b'\n' body) no_media in finish_sdp s.session_ip (save_media s)
