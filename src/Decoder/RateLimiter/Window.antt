-- ===== src/Decoder/RateLimiter/Window.antt =====
-- How many fragments a window of internal/core/decoder/rate_limiter.go lets through.
use otus.Base.{
  ◌≡◌, Bytes, ℕ, List, Bool, ◌∷◌, [], if◌then◌else◌, ◌-◌, min, ◌&&◌, ◌=?◌, ◌<◌, arith, ◌+◌,
  lookup-insert, list_beq_iff, list_eq, nat_eq, ltb, ap, lookup,
}
use otus.Decoder.RateLimiter.{allow, RateLimiter, rotate, counter}

-- The fragments of `src` that are let through by a sequence of calls.
unfoldable pub allowed : Bytes → RateLimiter → List (Bytes × ℕ) → ℕ
allowed src l [] = 0
allowed src l ((s, now) ∷ calls) =
    let (l', ok) = allow l s now in
    let rest = allowed src l' calls in if ok && s =? src then rest + 1 else rest

unfoldable pub calls_of : Bytes → List (Bytes × ℕ) → ℕ
calls_of src [] = 0
calls_of src ((s, now) ∷ calls) = if s =? src then calls_of src calls + 1 else calls_of src calls

-- Every call comes before the window ends.
abbrev pub InWindow : ℕ → ℕ → List (Bytes × ℕ) → Type 0
InWindow start size [] = Unit
InWindow start size ((s, now) ∷ calls) = (now - start < size) × InWindow start size calls

-- One call within the window.
record Step (l : RateLimiter) (s src : Bytes) (p : RateLimiter × Bool) : Type 0 where
  start : p.0.window_start ≡ l.window_start
  size : p.0.window_size ≡ l.window_size
  max_same : p.0.max_per_window ≡ l.max_per_window
  count : counter p.0 src ≡ (if s =? src then counter l src + 1 else counter l src)
  verdict : p.1 ≡ ltb (counter l s) l.max_per_window

allow-Step :
    (l : RateLimiter) (s src : Bytes) (now : ℕ)
    → now - l.window_start < l.window_size
    → Step l s src (allow l s now)
unfolding allow rotate counter
allow-Step l s src now h = ground (
  arith,
  lookup-insert s src (counter l s + 1) l.current,
  list_beq_iff s src,
  ap (λ k. lookup k l.current) {x = s} {y = src},
)

-- Within one window the limiter lets through exactly the first fragments of a source, as many as the
-- limit leaves, whatever comes from other sources between them.
pub allowed-InWindow :
    (src : Bytes) (l : RateLimiter) (calls : List (Bytes × ℕ))
    → InWindow l.window_start l.window_size calls
    → allowed src l calls ≡ min (calls_of src calls) (l.max_per_window - counter l src)
unfolding allowed calls_of
allowed-InWindow src l [] w = omega arith
allowed-InWindow src l ((s, now) ∷ calls) w =
    let st = allow-Step l s src now w.0 in
    let w' : InWindow (allow l s now).0.window_start (allow l s now).0.window_size calls =
      rw (st.start, st.size) w.1 in
    ground (
      arith,
      st,
      allowed-InWindow src (allow l s now).0 calls w',
      list_beq_iff s src,
      ap (counter l) {x = s} {y = src},
    )
