-- ===== src/Task/Lifecycle/Closing.antt =====
-- internal/task/task.go: which actions close a channel.
use otus.Base.{
  ℕ, Bool, List, ◌≤◌, true, ◌∷◌, [], ◌≡◌, ◌++◌, All, false, ◌+◌, refl, suc, arith, zero, not, ap,
  ◌||◌, Bool-cases, inl, inr,
}
use otus.Task.Lifecycle.{
  Action, close_capture_ch, close_raw_streams, close_send_buffer, binding_mode, dispatch_mode,
  other_mode, created, starting, running, paused, stopping, failed, stopped, Task, Action,
  TaskState, from_up, from_down, created, starting, running, paused, stopping, failed, stopped,
  start_reporters, start_capturers, start_rest, stop_reporters, close_inputs, DispatchMode,
  start_wrapper, cancel_context, go_capturer, go_pipeline, stop_reporter,
}

pub data Channel : Type 0 where
  capture_ch raw_streams send_buffer : Channel

abbrev pub is_close : Channel → Action → Bool
is_close capture_ch close_capture_ch = true
is_close raw_streams close_raw_streams = true
is_close send_buffer close_send_buffer = true
is_close _ _ = false

abbrev pub one_if : Bool → ℕ
one_if true = 1
one_if false = 0

-- How often a channel is closed.
unfoldable pub closes : Channel → List Action → ℕ
closes c [] = 0
closes c (a ∷ rest) = one_if (is_close c a) + closes c rest

-- What a reachable task is in each state; `starting` is never seen, since `Start` holds the lock.
abbrev pub Phase : TaskState → Task → Type 0
Phase created t = (t.actions ≡ []) × (t.capturing ≡ 0) × (t.in_stop ≡ false) × (t.cancelled ≡ false)
Phase starting t = ⊥
Phase running t = (t.in_stop ≡ false) × (t.cancelled ≡ false)
Phase paused t = (t.in_stop ≡ false) × (t.cancelled ≡ false)
Phase stopping t = (t.in_stop ≡ true) × (t.cancelled ≡ false)
Phase failed t = t.cancelled ≡ false
Phase stopped t = (t.in_stop ≡ false) × (t.cancelled ≡ true) × (t.capturing ≡ 0)

-- The channels are closed only when the context is cancelled, and then at most once.
abbrev pub Sound : Task → Type 0
Sound t = Phase t.state t × ((c : Channel) → closes c t.actions ≤ one_if t.cancelled)

pub closes-append :
    (c : Channel) (xs ys : List Action) → closes c (xs ++ ys) ≡ closes c xs + closes c ys
unfolding closes
closes-append c [] ys = omega arith
closes-append c (x ∷ xs) ys = omega (arith, closes-append c xs ys)

-- An action that closes no channel.
abbrev pub is_quiet : Action → Bool
is_quiet a = not (is_close capture_ch a || is_close raw_streams a || is_close send_buffer a)

abbrev pub IsQuiet : Action → Type 0
IsQuiet a = is_quiet a ≡ true

pub IsQuiet-closes : (c : Channel) (a : Action) → IsQuiet a → is_close c a ≡ false
IsQuiet-closes capture_ch a q = ground arith
IsQuiet-closes raw_streams a q = ground arith
IsQuiet-closes send_buffer a q = ground arith

pub closes-quiet : (c : Channel) (xs : List Action) → All IsQuiet xs → closes c xs ≡ 0
unfolding closes
closes-quiet c [] q = refl
closes-quiet c (x ∷ xs) q = omega (arith, ap one_if (IsQuiet-closes c x q.0), closes-quiet c xs q.1)

pub IsQuiet-append :
    (xs ys : List Action) → All IsQuiet xs → All IsQuiet ys → All IsQuiet (xs ++ ys)
IsQuiet-append [] ys a b = b
IsQuiet-append (x ∷ xs) ys a b = (a.0, IsQuiet-append xs ys a.1 b)

pub from_up-IsQuiet :
    (f : ℕ → Action) (i n : ℕ) → ((j : ℕ) → IsQuiet (f j)) → All IsQuiet (from_up f i n)
unfolding from_up
from_up-IsQuiet f i zero q = tt
from_up-IsQuiet f i (suc n) q = (q i, from_up-IsQuiet f (suc i) n q)

pub from_down-IsQuiet :
    (f : ℕ → Action) (n : ℕ) → ((j : ℕ) → IsQuiet (f j)) → All IsQuiet (from_down f n)
unfolding from_down
from_down-IsQuiet f zero q = tt
from_down-IsQuiet f (suc n) q = (q n, from_down-IsQuiet f n q)

pub start_reporters-IsQuiet :
    (starts : ℕ → Bool) (i n : ℕ) → All IsQuiet (start_reporters starts i n).0
unfolding start_reporters
start_reporters-IsQuiet starts i zero = tt
start_reporters-IsQuiet starts i (suc n) = elim (Bool-cases (starts i)) [
  | inl ok' ↦ rw ok' (refl, start_reporters-IsQuiet starts (suc i) n)
  | inr bad ↦ rw bad (refl, from_down-IsQuiet stop_reporter i (λ j. refl))
]

pub start_capturers-IsQuiet : (t : Task) → All IsQuiet (start_capturers t)
unfolding start_capturers
start_capturers-IsQuiet t = go t.mode refl
  where
    go : (m : DispatchMode) → t.mode ≡ m → All IsQuiet (start_capturers t)
    go binding_mode e =
        rw (e, start_capturers) (from_up-IsQuiet go_capturer 0 t.capturers (λ j. refl))
    go dispatch_mode e = rw (e, start_capturers) (refl, (refl, tt))
    go other_mode e = rw (e, start_capturers) (refl, (refl, tt))

pub start_rest-IsQuiet : (t : Task) → All IsQuiet (start_rest t)
unfolding start_rest
start_rest-IsQuiet t =
    IsQuiet-append (from_up start_wrapper 0 t.wrappers) _
      (from_up-IsQuiet start_wrapper 0 t.wrappers (λ j. refl))
      (
        refl,
        IsQuiet-append (from_up go_pipeline 0 t.pipelines) _
            (from_up-IsQuiet go_pipeline 0 t.pipelines (λ j. refl))
            (IsQuiet-append (start_capturers t) _ (start_capturers-IsQuiet t) (refl, tt)),
      )

pub stop_reporters-IsQuiet : (i n : ℕ) → All IsQuiet (stop_reporters i n)
unfolding stop_reporters
stop_reporters-IsQuiet i zero = tt
stop_reporters-IsQuiet i (suc n) = (refl, (refl, stop_reporters-IsQuiet (suc i) n))

-- Quiet actions behind others close nothing.
pub closes-behind :
    (c : Channel) (xs ys : List Action) → All IsQuiet ys → closes c (xs ++ ys) ≡ closes c xs
closes-behind c xs ys q = omega (arith, closes-append c xs ys, closes-quiet c ys q)

pub closes_at_end :
    (c : Channel) (t : Task)
    → closes c
        (close_inputs t ++ (close_send_buffer ∷ cancel_context ∷ stop_reporters 0 t.reporters))
      ≤ 1
unfolding close_inputs closes
closes_at_end c t =
    let quiet =
      closes-quiet c (stop_reporters 0 t.reporters) (stop_reporters-IsQuiet 0 t.reporters) in
    ground (arith, quiet)
