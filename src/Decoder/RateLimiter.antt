-- ===== src/Decoder/RateLimiter.antt =====
-- internal/core/decoder/rate_limiter.go. Time is an argument, in nanoseconds; the counters are 64-bit
-- in the source and do not wrap here. A source IP is its 4 bytes.
pub mod Window
use otus.Base.{
  ℕ, suc, ◌+◌, ◌-◌, ◌*◌, Bool, true, false, Bytes, Option, none, some, Dict, lookup, insert,
  list_eq, nat_eq, ltb, leb, if◌then◌else◌, ◌==◌, length, [],
}

pub record RateLimiter : Type 0 where
  pub current : Dict Bytes ℕ
  pub window_start : ℕ
  pub window_size : ℕ
  pub max_per_window : ℕ
  pub rejected : ℕ

abbrev pub second : ℕ
second = 1000000000

-- `nil` if disabled. A count or a window below 0 is read as 0.
unfoldable pub new_rate_limiter : ℕ → ℕ → ℕ → Option RateLimiter
new_rate_limiter max_frags window now =
    if max_frags == 0
    then none
    else some (record {
      current = [];
      window_start = now;
      window_size = if window == 0 then 10 * second else window;
      max_per_window = max_frags;
      rejected = 0;
    })

unfoldable pub rotate : RateLimiter → ℕ → RateLimiter
rotate l now =
    if leb l.window_size (now - l.window_start)
    then record l { current = []; window_start = now }
    else l

abbrev count_or_zero : Option ℕ → ℕ
count_or_zero none = 0
count_or_zero (some n) = n

-- The counter of a source IP.
unfoldable pub counter : RateLimiter → Bytes → ℕ
unfolding lookup
counter l src = count_or_zero (lookup src l.current)

unfoldable pub allow : RateLimiter → Bytes → ℕ → RateLimiter × Bool
unfolding rotate
allow l src now =
    let rotated = rotate l now in
    let count = counter rotated src + 1 in
    let counted = record rotated { current = insert src count rotated.current } in
    if ltb l.max_per_window count
    then (record counted { rejected = l.rejected + 1 }, false)
    else (counted, true)

unfoldable pub active_ips : RateLimiter → ℕ
active_ips l = length l.current
