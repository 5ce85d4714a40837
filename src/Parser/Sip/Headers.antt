-- ===== src/Parser/Sip/Headers.antt =====
-- plugins/parser/sip/sip.go: which messages make the header loop of `parseSIPMessage` index out of
-- range.
use otus.Text.Split.{Lacks, split_on-cons, split_on-append, split_on-Lacks, split_on-empty}
use otus.Core.{Addr}
use otus.Text.{trim_left, trim_right, trim, split_on, index_of, codes}
use otus.Parser.Sip.Message.{
  header_step, headers, Position, SipMessage, parse_sip_message, begin_header, message_lines,
  behind, header_end, panics, between, is_blank, Parsed, header_line, first_line,
}
use otus.Base.{
  Bytes, List, ◌≢◌, take, ◌∷◌, [], length, none, All, ◌≡◌, ◌⊎◌, ◌++◌, option_intro, ap, refl, some,
  inl, arith, inr, if_intro, Bool-cases, ltb, ◌≤◌, ◌∙◌, le→not_ltb,
}

begin_header-behind : (s : Bytes) → s ≢ [] → (h : Bytes) × (begin_header s ≡ behind h)
begin_header-behind [] n = absurd (n refl)
begin_header-behind (c ∷ s) n = (c ∷ s, refl)

-- Behind a line with something on it the loop looks for a continuation.
header_step-behind :
    (p : Position) (line : Bytes) (msg : SipMessage)
    → trim line ≢ []
    → (header_step p line msg ≡ none)
      ⊎ ((h : Bytes) × (msg' : SipMessage) × (header_step p line msg ≡ some (behind h, msg')))
unfolding header_step trim_left trim_right
header_step-behind between line msg n =
    let (h, e) = begin_header-behind (trim line) n in inr (h, msg, rw e refl)
header_step-behind (behind header) [] msg n = inl refl
header_step-behind (behind header) (c ∷ line) msg n = elim (Bool-cases (is_blank c)) [
  | inl b ↦ inr (header ++ b' ' ∷ trim (c ∷ line), msg, rw b refl)
  | inr b ↦
      let (h, e) = begin_header-behind (trim (c ∷ line)) n in
      inr (h, header_line header msg, rw (b, e) refl)
]

headers-panics :
    (pre : List Bytes) (line : Bytes) (post : List Bytes) (p : Position) (msg : SipMessage)
    → trim line ≢ []
    → headers p (pre ++ line ∷ [] ∷ post) msg ≡ none
unfolding headers header_step
headers-panics [] line post p msg n = elim (header_step-behind p line msg n) [
  | inl e ↦ rw (headers, e) refl
  | inr (h, msg', e) ↦ rw (headers, e) refl
]
headers-panics (l ∷ pre) line post p msg n =
    option_intro (λ r. r ≡ none) (header_step p l msg) (λ _. refl)
      (λ q _. headers-panics pre line post q.0 q.1 n)

header_step-some :
    (p : Position) (line : Bytes) (msg : SipMessage) → line ≢ [] → header_step p line msg ≢ none
unfolding header_step
header_step-some between line msg n e = cc
header_step-some (behind header) [] msg n e = absurd (n refl)
header_step-some (behind header) (c ∷ line) msg n e = ground arith

headers-some :
    (lines : List Bytes) (p : Position) (msg : SipMessage)
    → All (λ l. l ≢ []) lines
    → headers p lines msg ≢ none
unfolding headers
headers-some [] p msg h = λ e. cc
headers-some (l ∷ lines) p msg h =
    option_intro (λ r. r ≢ none) (header_step p l msg)
      (λ e. absurd (header_step-some p l msg h.0 e)) (λ q _. headers-some lines q.0 q.1 h.1)

take_all {ℓ} : {A : Type ℓ} (xs : List A) → take (length xs) xs ≡ xs
take_all [] = refl
take_all (x ∷ xs) = ap (◌∷◌ x) (take_all xs)

abbrev pub line_end : Bytes
line_end = b'\n' ∷ []

module _ (parse_addr : Bytes → Addr) where
  -- No message panics of which every header line has a byte, be it the CR of its CRLF.
  pub parse-not_panics :
      (payload first : Bytes) (lines : List Bytes)
      → split_on b'\n' (take (header_end payload) payload) ≡ first ∷ lines
      → All (λ l. l ≢ []) lines
      → parse_sip_message parse_addr payload ≢ panics
  unfolding parse_sip_message message_lines
  parse-not_panics payload first lines e h =
      if_intro (λ r. r ≢ panics) (ltb (length payload) 8) (λ _ bad. cc)
        λ _. rw e (
          option_intro (λ (r : Parsed SipMessage). r ≢ panics)
            (headers between lines (first_line (trim first)))
            (λ bad. absurd (headers-some lines between (first_line (trim first)) h bad))
            (λ msg _ bad. cc))

  -- A message of 8 bytes or more that is cut behind the line feed of a header line, with no empty
  -- line before, makes the parser panic, whatever comes before that line.
  pub cut-panics :
      (before line : Bytes)
      → Lacks b'\n' line
      → trim line ≢ []
      → index_of (codes "\r\n\r\n") (before ++ b'\n' ∷ (line ++ line_end)) ≡ none
      → index_of (codes "\n\n") (before ++ b'\n' ∷ (line ++ line_end)) ≡ none
      → 8 ≤ length (before ++ b'\n' ∷ (line ++ line_end))
      → parse_sip_message parse_addr (before ++ b'\n' ∷ (line ++ line_end)) ≡ panics
  unfolding parse_sip_message message_lines header_end split_on
  cut-panics before line lacks n crlf lf long =
      let (first, pre, e) = split_on-cons b'\n' before in
      let split : split_on b'\n' (before ++ b'\n' ∷ (line ++ line_end))
          ≡ first ∷ (pre ++ line ∷ [] ∷ []) =
        split_on-append b'\n' before (line ++ line_end)
        ∙ rw (e, split_on-append b'\n' line [], split_on-Lacks b'\n' line lacks, split_on-empty)
            refl in
      rw
        (
          crlf,
          lf,
          take_all (before ++ b'\n' ∷ (line ++ line_end)),
          le→not_ltb _ _ long,
          split,
          headers-panics pre line [] between (first_line (trim first)) n,
        )
        refl
