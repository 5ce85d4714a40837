-- ===== src/Parser/Sip/Message.antt =====
-- plugins/parser/sip/sip.go: `parseSIPMessage` and `extractURI`. That the unfolding of a header
-- writes into the bytes of the payload is left out: no later line is read from the bytes written.
use otus.Parser.Sip.Sdp.{SdpInfo, parse_sdp_body}
use otus.Core.{Addr}
use otus.Text.{
  ℤ, pos, index_byte, index_of, has_prefix, codes, contains, fields, atoi, to_lower, trim, split_n,
  split_on,
}
use Prim.Native.String.{String}
use otus.Base.{
  Bytes, [], List, ℕ, ◌∷◌, if◌then◌else◌, Bool, Option, none, ◌=?◌, ◌++◌, ◌==◌, some, take, ◌||◌,
  list_eq, nat_eq, length, ltb, drop, slice, ◌+◌,
}

pub record SipMessage : Type 0 where
  pub method : Bytes
  pub status_code : ℤ
  pub call_id : Bytes
  pub from_uri : Bytes
  pub to_uri : Bytes
  pub via_list : List Bytes
  pub cseq : Bytes
  pub sdp : Option SdpInfo

abbrev pub no_message : SipMessage
no_message = record {
  method = [];
  status_code = pos 0;
  call_id = [];
  from_uri = [];
  to_uri = [];
  via_list = [];
  cseq = [];
  sdp = none;
}

-- `panics` is an index out of range.
pub data Parsed {ℓ} (A : Type ℓ) : Type ℓ where
  parsed : A → Parsed A
  too_short panics : Parsed A

abbrev pub before_semicolon : Bytes → Bytes
before_semicolon uri = elim (index_byte b';' uri) [ none ↦ uri | some i ↦ take i uri ]

abbrev pub first_token : List Bytes → Bytes
first_token [] = []
first_token (uri ∷ rest) = before_semicolon uri

unfoldable pub extract_uri : Bytes → Bytes
extract_uri value = elim (index_byte b'<' value) [
  | none ↦ first_token (fields value)
  | some start ↦ elim (index_byte b'>' (drop start value)) [
    | none ↦ []
    | some end ↦ slice value (start + 1) (start + end)
  ]
]

-- The status code of a Status-Line, the method of a Request-Line.
abbrev pub second_part : List Bytes → Bytes
second_part (a ∷ b ∷ rest) = b
second_part _ = []

abbrev pub first_part : List Bytes → Bytes
first_part [] = []
first_part (a ∷ rest) = a

unfoldable pub first_line : Bytes → SipMessage
first_line line =
    if has_prefix (codes "SIP/2.0 ") line
    then record no_message { status_code = atoi (second_part (split_n 3 b' ' line)) }
    else record no_message { method = first_part (split_n 3 b' ' line) }

abbrev pub is_name : String → String → Bytes → Bool
is_name long short name = (name =? codes long) || (name =? codes short)

-- The `switch` on the name of a header.
unfoldable pub set_header : Bytes → Bytes → SipMessage → SipMessage
set_header name value msg =
    if is_name "call-id" "i" name
    then record msg { call_id = value }
    else if is_name "from" "f" name
    then record msg { from_uri = extract_uri value }
    else if is_name "to" "t" name
    then record msg { to_uri = extract_uri value }
    else if is_name "via" "v" name
    then record msg { via_list = msg.via_list ++ value ∷ [] }
    else if name =? codes "cseq"
    then record msg { cseq = value }
    else msg

-- A header with its continuations.
unfoldable pub header_line : Bytes → SipMessage → SipMessage
header_line line msg = elim (index_byte b':' line) [
  | none ↦ msg
  | some i ↦ set_header (to_lower (trim (take i line))) (trim (drop (i + 1) line)) msg
]

-- Where the loop stands before a line: between headers, or behind a line of a header that the next
-- line may continue.
pub data Position : Type 0 where
  between : Position
  behind : Bytes → Position

abbrev pub is_blank : ℕ → Bool
is_blank c = c == b' ' || c == b'\t'

abbrev pub begin_header : Bytes → Position
begin_header [] = between
begin_header (c ∷ line) = behind (c ∷ line)

-- The next line, `none` for the panic of `lines[i+1][0]`.
unfoldable pub header_step : Position → Bytes → SipMessage → Option (Position × SipMessage)
header_step between line msg = some (begin_header (trim line), msg)
header_step (behind header) [] msg = none
header_step (behind header) (c ∷ line) msg =
    if is_blank c
    then some (behind (header ++ b' ' ∷ trim (c ∷ line)), msg)
    else some (begin_header (trim (c ∷ line)), header_line header msg)

abbrev pub last_header : Position → SipMessage → SipMessage
last_header between msg = msg
last_header (behind header) msg = header_line header msg

-- The loop over the lines behind the first.
unfoldable pub headers : Position → List Bytes → SipMessage → Option SipMessage
headers at_line [] msg = some (last_header at_line msg)
headers at_line (line ∷ lines) msg = elim (header_step at_line line msg) [
  | none ↦ none
  | some (next, msg') ↦ headers next lines msg'
]

-- `headerEnd`
unfoldable pub header_end : Bytes → ℕ
header_end payload = elim (index_of (codes "\r\n\r\n") payload) [
  | some i ↦ i
  | none ↦ elim (index_of (codes "\n\n") payload) [ some i ↦ i | none ↦ length payload ]
]

unfoldable pub message_lines : List Bytes → Option SipMessage
message_lines [] = some no_message
message_lines (line ∷ lines) = headers between lines (first_line (trim line))

module _ (parse_addr : Bytes → Addr) where
  unfoldable pub set_body : Bytes → Bytes → SipMessage → SipMessage
  set_body header_data [] msg = msg
  set_body header_data (b ∷ body) msg =
      if contains (codes "application/sdp") header_data
      then record msg { sdp = parse_sdp_body parse_addr (b ∷ body) }
      else msg

  unfoldable pub parse_sip_message : Bytes → Parsed SipMessage
  parse_sip_message payload =
      let end = header_end payload in
      let header_data = take end payload in
      if ltb (length payload) 8
      then too_short
      else elim (message_lines (split_on b'\n' header_data)) [
        | none ↦ panics
        | some msg ↦ parsed (set_body header_data (drop (end + 4) payload) msg)
      ]
