-- ===== src/Parser/Sip/Printing.antt =====
-- SDP bodies as a user agent writes them, for plugins/parser/sip/sip.go: the session's `c=` line and
-- for every stream its `m=` line and attributes. `dec` and `addr_text` print numbers and addresses.
pub mod Lines
pub mod RoundTrip
use otus.Text.Split.{Lacks}
use otus.Text.{codes, trim_right, parse_uint16}
use otus.Text.Tokens.{IsToken}
use otus.Core.{Addr, is_valid, v4, v6, zero_addr}
use otus.Parser.Sip.Sdp.{MediaStream, SdpInfo, is_direction}
use otus.Base.{
  Bool, Bytes, List, ℕ, if◌then◌else◌, true, ◌∷◌, [], false, ◌++◌, ◌<◌, not, ◌≡◌, some, length, All,
}

-- The lines that this condition asks for.
abbrev pub lines_if : Bool → Bytes → List Bytes
lines_if b line = if b then line ∷ [] else []

abbrev pub is_empty : Bytes → Bool
is_empty [] = true
is_empty (c ∷ s) = false

abbrev pub print_lines : List Bytes → Bytes
print_lines [] = []
print_lines (line ∷ lines) = (line ++ b'\r' ∷ []) ++ b'\n' ∷ print_lines lines

module _ (dec : ℕ → Bytes) (addr_text : Addr → Bytes) where
  abbrev pub connection_text : Addr → Bytes
  connection_text ip = codes "c=IN IP4 " ++ addr_text ip

  abbrev pub media_text : MediaStream → Bytes
  media_text m = codes "m=" ++ m.media_type ++ b' ' ∷ (dec m.rtp_port ++ codes " RTP/AVP 0")

  abbrev pub rtcp_text : MediaStream → Bytes
  rtcp_text m = if m.rtcp_mux then codes "a=rtcp-mux" else codes "a=rtcp:" ++ dec m.rtcp_port

  abbrev pub codec_text : MediaStream → Bytes
  codec_text m = codes "a=rtpmap:0 " ++ m.codec

  abbrev pub direction_text : MediaStream → Bytes
  direction_text m = codes "a=" ++ m.direction

  abbrev pub media_lines : MediaStream → List Bytes
  media_lines m =
      let last = direction_text m ∷ [] in
      let codecs = lines_if (not (is_empty m.codec)) (codec_text m) ++ last in
      media_text m
      ∷ (lines_if (is_valid m.connection_ip) (connection_text m.connection_ip)
          ++ rtcp_text m ∷ codecs)

  abbrev pub streams_lines : List MediaStream → List Bytes
  streams_lines [] = []
  streams_lines (m ∷ ms) = media_lines m ++ streams_lines ms

  abbrev pub info_lines : SdpInfo → List Bytes
  info_lines sdp =
      lines_if (is_valid sdp.connection_ip) (connection_text sdp.connection_ip)
      ++ streams_lines sdp.media_streams

  abbrev pub print_sdp : SdpInfo → Bytes
  print_sdp sdp = print_lines (codes "v=0" ∷ info_lines sdp)

-- What `netip.Addr` can be: no address, 4 bytes or 16 bytes.
abbrev pub IsAddress : Addr → Type 0
IsAddress zero_addr = Unit
IsAddress (v4 bs) = (length bs ≡ 4) × All (λ b. b < 256) bs
IsAddress (v6 bs) = (length bs ≡ 16) × All (λ b. b < 256) bs

-- What a stream is that can be written.
pub record IsPrintable (m : MediaStream) : Type 0 where
  pub type_token : IsToken m.media_type
  pub rtp_range : m.rtp_port < 65536
  pub rtcp_range : m.rtcp_port < 65536
  pub muxed : m.rtcp_mux ≡ true → m.rtcp_port ≡ m.rtp_port
  pub codec_trimmed : trim_right m.codec ≡ m.codec
  pub codec_line : Lacks b'\n' m.codec
  pub direction_known : is_direction m.direction ≡ true
  pub address : IsAddress m.connection_ip

-- How numbers and addresses are printed: in one word, and so that they are read back.
pub record IsLegible (parse_addr : Bytes → Addr) (dec : ℕ → Bytes) (addr_text : Addr → Bytes)
    : Type 0 where
  pub dec_token : (n : ℕ) → IsToken (dec n)
  pub dec_reads : (n : ℕ) → n < 65536 → parse_uint16 (dec n) ≡ some n
  pub addr_token : (ip : Addr) → IsAddress ip → is_valid ip ≡ true → IsToken (addr_text ip)
  pub addr_reads : (ip : Addr) → IsAddress ip → is_valid ip ≡ true → parse_addr (addr_text ip) ≡ ip
