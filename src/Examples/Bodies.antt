-- ===== src/Examples/Bodies.antt =====
-- An SDP body for plugins/parser/sip, with the ports in five digits.
use otus.Parser.Sip.Printing.RoundTrip.{parse-print_sdp}
use otus.Text.Split.{lacks-Lacks}
use otus.Text.Tokens.{IsToken}
use otus.Parser.Sip.Sdp.{MediaStream, SdpInfo, parse_sdp_body}
use otus.Parser.Sip.Printing.{IsLegible, IsPrintable, print_sdp, IsAddress}
use otus.Core.{Addr, zero_addr, is_valid, v4, v6}
use otus.Text.{scan_digits, parse_uint, trim_right, is_space, codes, parse_uint16, number}
use otus.Base.{
  ℕ, Bytes, ◌+◌, ◌/◌, ◌*◌, ◌<◌, map, [], ◌≡◌, All, ◌%◌, ◌∷◌, false, ◌-◌, true, arith, some, ◌≤◌,
  if◌then◌else◌, refl, ap, leb, ◌∙◌, ◌==◌, ◌&&◌,
}

abbrev digit : ℕ → ℕ
digit n = b'0' + n % 10

abbrev five_digits : ℕ → Bytes
five_digits n =
    digit (n / 10000) ∷ digit (n / 1000) ∷ digit (n / 100) ∷ digit (n / 10) ∷ digit n ∷ []

digit-not_space : (n : ℕ) → is_space (digit n) ≡ false
digit-not_space n = ground arith

five_digits-IsToken : (n : ℕ) → IsToken (five_digits n)
five_digits-IsToken n = (
  λ e. cc,
  (
    digit-not_space (n / 10000),
    (
      digit-not_space (n / 1000),
      (digit-not_space (n / 100), (digit-not_space (n / 10), (digit-not_space n, tt))),
    ),
  ),
)

scan-cons :
    (limit m c : ℕ) (s : Bytes)
    → (leb b'0' c && leb c b'9') ≡ true
    → leb (m * 10 + (c - b'0')) limit ≡ true
    → scan_digits limit m (c ∷ s) ≡ scan_digits limit (m * 10 + (c - b'0')) s
unfolding scan_digits
scan-cons limit m c s d h = rw (scan_digits, d, h) refl

scan-digit :
    (limit m n : ℕ) (s : Bytes)
    → m * 10 + n % 10 ≤ limit
    → scan_digits limit m (digit n ∷ s) ≡ scan_digits limit (m * 10 + n % 10) s
scan-digit limit m n s h =
    let e : m * 10 + (digit n - b'0') ≡ m * 10 + n % 10 = omega arith in
    scan-cons limit m (digit n) s (ground arith) (ground arith) ∙ ap (λ k. scan_digits limit k s) e

five_digits-reads : (n : ℕ) → n < 65536 → parse_uint16 (five_digits n) ≡ some n
unfolding parse_uint scan_digits
five_digits-reads n h =
    let a = 0 * 10 + n / 10000 % 10 in
    let b = a * 10 + n / 1000 % 10 in
    let c = b * 10 + n / 100 % 10 in
    let d = c * 10 + n / 10 % 10 in
    let s4 = digit n ∷ [] in
    let s3 = digit (n / 10) ∷ s4 in
    let s2 = digit (n / 100) ∷ s3 in
    let s1 = digit (n / 1000) ∷ s2 in
    let whole : d * 10 + n % 10 ≡ n = omega arith in
    let scanned : parse_uint 65535 (five_digits n) ≡ number n =
      scan-digit 65535 0 (n / 10000) s1 (omega arith)
      ∙ scan-digit 65535 a (n / 1000) s2 (omega arith)
      ∙ scan-digit 65535 b (n / 100) s3 (omega arith)
      ∙ scan-digit 65535 c (n / 10) s4 (omega arith)
      ∙ scan-digit 65535 d n [] (omega arith)
      ∙ ap number whole in
    rw (parse_uint16, scanned) refl

-- An address as its bytes, moved behind the white space.
abbrev shift : Bytes → Bytes
shift = map (λ b. b + 33)

abbrev unshift : Bytes → Bytes
unshift = map (λ c. c - 33)

abbrev shifted_text : Addr → Bytes
shifted_text zero_addr = []
shifted_text (v4 bs) = b'4' ∷ shift bs
shifted_text (v6 bs) = b'6' ∷ shift bs

abbrev parse_shifted : Bytes → Addr
parse_shifted [] = zero_addr
parse_shifted (c ∷ s) = if c == b'4' then v4 (unshift s) else v6 (unshift s)

unshift-shift : (bs : Bytes) → unshift (shift bs) ≡ bs
unshift-shift [] = refl
unshift-shift (b ∷ bs) = let e : (b + 33) - 33 ≡ b = omega arith in rw (e, unshift-shift bs) refl

shift-not_space : (bs : Bytes) → All (λ c. is_space c ≡ false) (shift bs)
shift-not_space [] = tt
shift-not_space (b ∷ bs) = (ground arith, shift-not_space bs)

shifted_text-IsToken : (ip : Addr) → IsAddress ip → is_valid ip ≡ true → IsToken (shifted_text ip)
shifted_text-IsToken zero_addr a h = absurd (cc)
shifted_text-IsToken (v4 bs) a h = (λ e. cc, (refl, shift-not_space bs))
shifted_text-IsToken (v6 bs) a h = (λ e. cc, (refl, shift-not_space bs))

shifted_text-reads :
    (ip : Addr) → IsAddress ip → is_valid ip ≡ true → parse_shifted (shifted_text ip) ≡ ip
shifted_text-reads zero_addr a h = absurd (cc)
shifted_text-reads (v4 bs) a h = ap v4 (unshift-shift bs)
shifted_text-reads (v6 bs) a h = ap v6 (unshift-shift bs)

shifted-IsLegible : IsLegible parse_shifted five_digits shifted_text
shifted-IsLegible = record {
  dec_token = five_digits-IsToken;
  dec_reads = five_digits-reads;
  addr_token = shifted_text-IsToken;
  addr_reads = shifted_text-reads;
}

abbrev audio : MediaStream
audio = record {
  media_type = codes "audio";
  rtp_port = 4000;
  rtcp_port = 4001;
  rtcp_mux = false;
  codec = codes "PCMU/8000";
  direction = codes "sendrecv";
  connection_ip = zero_addr;
}

abbrev video : MediaStream
video = record {
  media_type = codes "video";
  rtp_port = 4002;
  rtcp_port = 4002;
  rtcp_mux = true;
  codec = [];
  direction = codes "recvonly";
  connection_ip = v4 (10 ∷ 0 ∷ 0 ∷ 9 ∷ []);
}

audio-IsPrintable : IsPrintable audio
unfolding trim_right
audio-IsPrintable = record {
  type_token = (λ e. cc, (refl, (refl, (refl, (refl, (refl, tt))))));
  rtp_range = omega arith;
  rtcp_range = omega arith;
  muxed = λ e. cc;
  codec_trimmed = refl;
  codec_line = lacks-Lacks b'\n' (codes "PCMU/8000") refl;
  direction_known = refl;
  address = tt;
}

video-IsPrintable : IsPrintable video
unfolding trim_right
video-IsPrintable = record {
  type_token = (λ e. cc, (refl, (refl, (refl, (refl, (refl, tt))))));
  rtp_range = omega arith;
  rtcp_range = omega arith;
  muxed = λ e. refl;
  codec_trimmed = refl;
  codec_line = tt;
  direction_known = refl;
  address = (refl, (omega arith, (omega arith, (omega arith, (omega arith, tt)))));
}

abbrev two_streams : SdpInfo
two_streams = record {
  connection_ip = v4 (10 ∷ 0 ∷ 0 ∷ 1 ∷ []);
  media_streams = audio ∷ video ∷ [];
}

parse-print_sdp_example :
    parse_sdp_body parse_shifted (print_sdp five_digits shifted_text two_streams) ≡ some two_streams
parse-print_sdp_example =
    parse-print_sdp shifted-IsLegible (v4 (10 ∷ 0 ∷ 0 ∷ 1 ∷ [])) audio (video ∷ [])
      (refl, (omega arith, (omega arith, (omega arith, (omega arith, tt)))))
      (audio-IsPrintable, (video-IsPrintable, tt))
