-- ===== src/Hep/Reporter.antt =====
-- plugins/reporter/hep/hep.go: the connections, `Report` and `selectConn`. `dials srv` is whether the
-- address of a server resolves and its connection opens, `writes` whether a datagram is sent; a
-- connection is the server that it belongs to.
use otus.Task.Flows.{bump, u64}
use otus.Core.{Addr}
use otus.Output.{OutputPacket}
use mathlib.Core.Option
use native.Mathlib.Nat.{mod-lt}
use otus.Base.{
  ℕ, List, Bytes, [], Bool, if◌then◌else◌, length, ◌<◌, ◌≡◌, Option, none, ◌++◌, ◌==◌, some, true,
  ◌∷◌, false, put16, arith, ◌%◌, get_elem?, u32, ap, sym, refl, Bool-cases, Option-cases,
  get_elem?-lt, ◌∙◌, inl, inr, ◌+◌, if_intro,
}
use otus.Fnv.{write, offset_basis, write-append}
use otus.Hep.{encode, EncodeOptions, as16, encoded, panicked, nil_packet, frame_too_large}

pub record HepReporter : Type 0 where
  pub servers : List Bytes
  pub options : EncodeOptions
  pub conns : List Bytes
  pub sent_count : ℕ
  pub error_count : ℕ

unfoldable pub open_conns : (Bytes → Bool) → List Bytes → Option (List Bytes)
open_conns dials [] = some []
open_conns dials (srv ∷ servers) =
    if dials srv
    then Option.map (λ (cs : List Bytes). srv ∷ cs) (open_conns dials servers)
    else none

unfoldable pub start_hep : (Bytes → Bool) → HepReporter → HepReporter × Bool
start_hep dials r = elim (open_conns dials r.servers) [
  | none ↦ (record r { conns = [] }, false)
  | some cs ↦ (record r { conns = cs }, true)
]

unfoldable pub stop_hep : HepReporter → HepReporter
stop_hep r = record r { conns = [] }

-- The 16-byte forms, the ports and the protocol, in the order in which they are hashed.
unfoldable pub flow_bytes : OutputPacket → Bytes
flow_bytes p =
    as16 p.src_ip ++ (put16 p.src_port ++ (as16 p.dst_ip ++ (put16 p.dst_port ++ p.protocol ∷ [])))

unfoldable pub select_index : HepReporter → OutputPacket → ℕ
select_index r p =
    if length r.conns == 1
    then 0
    else write
        (write
          (write (write (write offset_basis (as16 p.src_ip)) (put16 p.src_port)) (as16 p.dst_ip))
          (put16 p.dst_port))
        (p.protocol ∷ [])
      % u32 (length r.conns)

pub data Reported : Type 0 where
  reported : Bytes → Reported
  nil_error send_error crash : Reported
  encode_error : Reported

-- `Report` on a started reporter: what it returns and the frame with its server.
unfoldable pub report_hep :
    (Addr → ℕ → Bytes)
    → ℕ
    → (Bytes → Bytes → Bool)
    → Option OutputPacket
    → HepReporter
    → HepReporter × Reported
report_hep sprint now writes none r = (r, nil_error)
report_hep sprint now writes (some p) r = elim (encode sprint now r.options (some p)) [
  | encoded frame ↦ elim (get_elem? r.conns (select_index r p)) [
    | none ↦ (r, crash)
    | some conn ↦
        if writes conn frame
        then (record r { sent_count = bump r.sent_count }, reported conn)
        else (record r { error_count = bump r.error_count }, send_error)
  ]
  | panicked ↦ (r, crash)
  | nil_packet ↦ (record r { error_count = bump r.error_count }, encode_error)
  | frame_too_large ↦ (record r { error_count = bump r.error_count }, encode_error)
]

write_all :
    (h : ℕ) (a b c d e : Bytes)
    → write (write (write (write (write h a) b) c) d) e ≡ write h (a ++ (b ++ (c ++ (d ++ e))))
write_all h a b c d e = sym (
    write-append h a _
    ∙ write-append (write h a) b _
    ∙ write-append (write (write h a) b) c _
    ∙ write-append (write (write (write h a) b) c) d e)

-- The documented mapping: one hash of the flow, modulo the number of servers.
select_index-hash :
    (r : HepReporter) (p : OutputPacket)
    → (length r.conns == 1) ≡ false
    → select_index r p ≡ write offset_basis (flow_bytes p) % u32 (length r.conns)
unfolding select_index flow_bytes
select_index-hash r p e = rw e (
    ap (λ (h : ℕ). h % u32 (length r.conns))
      (write_all offset_basis (as16 p.src_ip) (put16 p.src_port) (as16 p.dst_ip) (put16 p.dst_port)
        (p.protocol ∷ [])))

select_index-one :
    (r : HepReporter) (p : OutputPacket) → (length r.conns == 1) ≡ true → select_index r p ≡ 0
unfolding select_index
select_index-one r p e = rw e refl

pub select_index-lt :
    (r : HepReporter) (p : OutputPacket)
    → 0 < length r.conns
    → length r.conns < 4294967296
    → select_index r p < length r.conns
select_index-lt r p some' small = elim (Bool-cases (length r.conns == 1)) [
  | inl one ↦ omega (arith, select_index-one r p one)
  | inr many ↦
      let n = length r.conns in
      let whole : u32 n ≡ n = omega arith in
      let bound = mod-lt (write offset_basis (flow_bytes p)) some' in
      let at_n = ap (λ (k : ℕ). write offset_basis (flow_bytes p) % k) whole in
      let there = select_index-hash r p many in omega (arith, there, at_n, bound)
]

-- Packets whose hashed fields are the same go to one server: the ports, the protocol and the 16-byte
-- forms of the addresses, so that an IPv4 address and its IPv6 form count as the same.
pub select_index-stable :
    (r : HepReporter) (p q : OutputPacket)
    → flow_bytes p ≡ flow_bytes q
    → select_index r p ≡ select_index r q
select_index-stable r p q e = elim (Bool-cases (length r.conns == 1)) [
  | inl one ↦ select_index-one r p one ∙ sym (select_index-one r q one)
  | inr many ↦
      select_index-hash r p many
      ∙ ap (λ (bs : Bytes). write offset_basis bs % u32 (length r.conns)) e
      ∙ sym (select_index-hash r q many)
]

open_conns-all :
    (dials : Bytes → Bool) (servers cs : List Bytes)
    → open_conns dials servers ≡ some cs
    → cs ≡ servers
unfolding open_conns
open_conns-all dials [] cs e = ground arith
open_conns-all dials (srv ∷ servers) cs e = elim (Option-cases (open_conns dials servers)) [
  | inl bad ↦ absurd (ground arith)
  | inr (ds, good) ↦ ground (arith, open_conns-all dials servers ds good)
]

-- The server that the flow of a packet is mapped to: the only one, or the one at its hash.
abbrev pub flow_index : List Bytes → OutputPacket → ℕ
flow_index servers p =
    if length servers == 1 then 0 else write offset_basis (flow_bytes p) % length servers

select_index-flow :
    (r : HepReporter) (p : OutputPacket)
    → length r.conns < 4294967296
    → select_index r p ≡ flow_index r.conns p
select_index-flow r p small = elim (Bool-cases (length r.conns == 1)) [
  | inl one ↦ select_index-one r p one ∙ rw (one) refl
  | inr many ↦
      let whole : u32 (length r.conns) ≡ length r.conns = omega arith in
      select_index-hash r p many
      ∙ ap (λ (k : ℕ). write offset_basis (flow_bytes p) % k) whole
      ∙ rw (many) refl
]

-- What a sent frame makes of the reporter.
abbrev pub sent_to : Bool → Bytes → HepReporter → HepReporter × Reported
sent_to true conn r = (record r { sent_count = u64 (r.sent_count + 1) }, reported conn)
sent_to false conn r = (record r { error_count = u64 (r.error_count + 1) }, send_error)

report_hep-sent :
    (r : HepReporter) (sprint : Addr → ℕ → Bytes) (now : ℕ) (writes : Bytes → Bytes → Bool)
    (p : OutputPacket) (frame : Bytes)
    → 0 < length r.conns
    → length r.conns < 4294967296
    → encode sprint now r.options (some p) ≡ encoded frame
    → (conn : Bytes) × (get_elem? r.conns (flow_index r.conns p) ≡ some conn)
      × (report_hep sprint now writes (some p) r ≡ sent_to (writes conn frame) conn r)
unfolding report_hep select_index select_index-lt
report_hep-sent r sprint now writes p frame some' small made =
    let (conn, found) = get_elem?-lt r.conns (select_index r p) (select_index-lt r p some' small) in
    (
      conn,
      ap (get_elem? r.conns) (sym (select_index-flow r p small)) ∙ found,
      rw (report_hep, made, found)
          (if_intro (λ (q : HepReporter × Reported). q ≡ sent_to (writes conn frame) conn r)
            (writes conn frame) (λ ok. rw ok refl) (λ bad. rw bad refl)),
    )

-- A reporter that has started with at least one and fewer than 2^32 servers sends every frame that the
-- encoder makes to one of its servers, which only the flow of the packet chooses, and counts it
-- as sent or, when it cannot be sent, as an error.
pub report_hep-sends :
    (dials : Bytes → Bool) (r : HepReporter) (sprint : Addr → ℕ → Bytes) (now : ℕ)
    (writes : Bytes → Bytes → Bool) (p : OutputPacket) (frame : Bytes)
    → 0 < length r.servers
    → length r.servers < 4294967296
    → (start_hep dials r).1 ≡ true
    → encode sprint now r.options (some p) ≡ encoded frame
    → (conn : Bytes) × (get_elem? r.servers (flow_index r.servers p) ≡ some conn)
      × (report_hep sprint now writes (some p) (start_hep dials r).0
          ≡ sent_to (writes conn frame) conn (record r { conns = r.servers }))
unfolding start_hep
report_hep-sends dials r sprint now writes p frame some' small ok' made =
    elim (Option-cases (open_conns dials r.servers)) [
      | inl bad ↦ absurd (ground arith)
      | inr (cs, good) ↦
          let all = open_conns-all dials r.servers cs good in
          let started : (start_hep dials r).0 ≡ record r { conns = r.servers } =
            rw (start_hep, good) (ap (λ l. record r { conns = l }) all) in
          let (conn, found, sent) =
            report_hep-sent (record r { conns = r.servers }) sprint now writes p frame some' small
              made in
          (conn, found, ap (report_hep sprint now writes (some p)) started ∙ sent)
    ]
