-- ===== src/Examples/Fragments.antt =====
-- internal/core/decoder/reassembly.go and rate_limiter.go on short fragments.
use otus.Decoder.Reassembly.Cleanup.{run, tick, packet, run_new-Inv}
use otus.Decoder.Reassembly.Panic.{receive_panics}
use otus.Decoder.Reassembly.Overlap.{add_fragment-tail_lost}
use otus.Decoder.RateLimiter.Window.{allowed, allowed-InWindow, calls_of}
use otus.Decoder.RateLimiter.{RateLimiter, counter}
use otus.Decoder.Reassembly.Content.{byte_at, add_fragment-keeps}
use otus.Decoder.Reassembly.Invariant.{Inv}
use otus.Decoder.Reassembly.Chain.{IsFragment, IsFlow}
use otus.Decoder.Reassembly.Assembly.{Tiling, deliver-Tiling}
use otus.Decoder.Reassembly.Datagram.{Genuine}
use otus.Decoder.Reassembly.Delivery.{Arrival, deliver, Fair, deliver-Fair}
use otus.Base.{ℕ, Bytes, ◌∷◌, All, lookup, List, [], true, false, arith, ◌≡◌, none, refl, inl, some}
use otus.Decoder.Fragments.{Fragment, FragmentKey, FragmentList, fragment_key_eq}
use otus.Decoder.Reassembly.{
  ReassemblyConfig, Reassembler, receive, add_fragment, incomplete, panicked, complete,
  new_reassembler,
}

abbrev small_config : ReassemblyConfig
small_config = record {
  max_fragments = 100;
  max_reassemble_size = 65535;
  timeout = 60;
  max_frags_per_ip = 0;
  rate_limit_window = 0;
}

abbrev empty_reassembler : Reassembler
empty_reassembler = record { flows = []; config = small_config; rate_limiter = none; active = 0 }

abbrev some_key : FragmentKey
some_key = record {
  src_ip = 10 ∷ 0 ∷ 0 ∷ 1 ∷ [];
  dst_ip = 10 ∷ 0 ∷ 0 ∷ 2 ∷ [];
  protocol = 17;
  id = 7;
}

abbrev datagram : Bytes
datagram = 1 ∷ 2 ∷ 3 ∷ 4 ∷ 5 ∷ 6 ∷ 7 ∷ 8 ∷ 9 ∷ 10 ∷ []

abbrev head_fragment : Fragment
head_fragment = record { offset = 0; length = 8; payload = 1 ∷ 2 ∷ 3 ∷ 4 ∷ 5 ∷ 6 ∷ 7 ∷ 8 ∷ [] }

abbrev tail_fragment : Fragment
tail_fragment = record { offset = 8; length = 2; payload = 9 ∷ 10 ∷ [] }

abbrev head_arrival : Arrival
head_arrival = record { more = true; frag = head_fragment; now = 1 }

abbrev tail_arrival : Arrival
tail_arrival = record { more = false; frag = tail_fragment; now = 2 }

head-Genuine : Genuine datagram true head_fragment
head-Genuine = record {
  nonempty = omega arith;
  inside = omega arith;
  same = refl;
  last = λ e. absurd (cc);
}

tail-Genuine : Genuine datagram false tail_fragment
tail-Genuine = record {
  nonempty = omega arith;
  inside = omega arith;
  same = refl;
  last = λ e. refl;
}

-- The last fragment first.
reversed-Tiling : Tiling datagram (tail_arrival ∷ head_arrival ∷ [])
reversed-Tiling = record {
  genuine = (tail-Genuine, (head-Genuine, tt));
  apart = ((inl (omega arith), tt), (tt, tt));
  whole = refl;
  final = inl refl;
}

deliver-Tiling_example :
    (deliver empty_reassembler some_key (tail_arrival ∷ head_arrival ∷ [])).1
    ≡ incomplete ∷ complete datagram ∷ []
unfolding lookup
deliver-Tiling_example =
    deliver-Tiling datagram empty_reassembler some_key tail_arrival (head_arrival ∷ [])
      (omega arith) (omega arith) refl (omega arith) (omega arith) reversed-Tiling

deliver-Fair_example :
    All
      (Fair datagram)
      (deliver empty_reassembler some_key (head_arrival ∷ head_arrival ∷ tail_arrival ∷ [])).1
unfolding lookup
deliver-Fair_example =
    deliver-Fair datagram empty_reassembler some_key
      (head_arrival ∷ head_arrival ∷ tail_arrival ∷ []) (omega arith) tt
      (head-Genuine, (head-Genuine, (tail-Genuine, tt)))

-- The tail has come, so `highest` is 10; what comes next starts behind it.
abbrev tail_flow : FragmentList
tail_flow = record {
  frags = tail_fragment ∷ [];
  highest = 10;
  current = 2;
  final_received = true;
  last_seen = 2;
}

abbrev waiting_reassembler : Reassembler
waiting_reassembler = record empty_reassembler { flows = (some_key, tail_flow) ∷ []; active = 1 }

abbrev late_fragment : Fragment
late_fragment = record { offset = 16; length = 8; payload = 0 ∷ 0 ∷ 0 ∷ 0 ∷ 0 ∷ 0 ∷ 0 ∷ 0 ∷ [] }

late-IsFragment : IsFragment late_fragment
late-IsFragment = record { nonempty = omega arith; fits = omega arith; full = refl }

tail-IsFragment : IsFragment tail_fragment
tail-IsFragment = record { nonempty = omega arith; fits = omega arith; full = refl }

head-IsFragment : IsFragment head_fragment
head-IsFragment = record { nonempty = omega arith; fits = omega arith; full = refl }

tail_flow-IsFlow : IsFlow tail_flow
tail_flow-IsFlow = record { chain = (omega arith, tail-IsFragment, tt); counted = refl }

receive_panics_example : (receive waiting_reassembler some_key true late_fragment 3).1 ≡ panicked
unfolding lookup
receive_panics_example =
    receive_panics waiting_reassembler some_key tail_flow late_fragment 3 tail_flow-IsFlow
      late-IsFragment refl (omega arith, tt) refl (omega arith) (omega arith) (omega arith)
      (omega arith) (omega arith)

run_new-Inv_example :
    Inv (run (new_reassembler small_config 0) (tick 5 ∷ packet (0x45 ∷ []) 6 ∷ []))
run_new-Inv_example = run_new-Inv small_config 0 (tick 5 ∷ packet (0x45 ∷ []) 6 ∷ [])

add_fragment-keeps_example : byte_at (add_fragment true head_fragment 3 tail_flow).frags 8 ≡ some 9
unfolding byte_at
add_fragment-keeps_example =
    add_fragment-keeps true head_fragment 3 tail_flow 8 9 head-IsFragment tail_flow-IsFlow refl

-- Its bytes behind the tail are lost.
abbrev wide_fragment : Fragment
wide_fragment = record { offset = 8; length = 4; payload = 9 ∷ 10 ∷ 11 ∷ 12 ∷ [] }

wide-IsFragment : IsFragment wide_fragment
wide-IsFragment = record { nonempty = omega arith; fits = omega arith; full = refl }

add_fragment-tail_lost_example :
    byte_at (add_fragment true wide_fragment 3 tail_flow).frags 11 ≡ byte_at (tail_fragment ∷ []) 11
add_fragment-tail_lost_example =
    add_fragment-tail_lost true wide_fragment 3 tail_flow 11 wide-IsFragment tail_flow-IsFlow
      (inl (omega arith, omega arith))

abbrev some_limiter : RateLimiter
some_limiter = record {
  current = [];
  window_start = 0;
  window_size = 100;
  max_per_window = 2;
  rejected = 0;
}

abbrev some_calls : List (Bytes × ℕ)
some_calls = (1 ∷ [], 1) ∷ (2 ∷ [], 2) ∷ (1 ∷ [], 3) ∷ (1 ∷ [], 4) ∷ []

allowed-InWindow_example : allowed (1 ∷ []) some_limiter some_calls ≡ 2
unfolding calls_of counter
allowed-InWindow_example =
    allowed-InWindow (1 ∷ []) some_limiter some_calls
      (omega arith, (omega arith, (omega arith, (omega arith, tt))))
