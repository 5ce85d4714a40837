-- ===== src/Task/Lifecycle/Safety.antt =====
-- internal/task/task.go: no channel of a task is closed twice, or closed under a capturer.
use otus.Task.Lifecycle.Closing.{
  Phase, Sound, Channel, IsQuiet, from_up-IsQuiet, one_if, closes, closes-behind, closes-append,
  IsQuiet-append, closes_at_end, start_rest-IsQuiet, start_reporters-IsQuiet,
}
use mathlib.Core.Path.{subst}
use otus.Base.{
  ℕ, Bool, List, ◌≤◌, true, ◌∷◌, [], ◌≡◌, ◌++◌, All, false, refl, arith, ap, ◌||◌, Bool-cases, ◌<◌,
  inl, inr, ◌-◌, if_intro, Option, ◌⊎◌, some, none,
}
use otus.Task.Lifecycle.{
  Action, created, starting, running, paused, stopping, failed, stopped, Task, Step, Action,
  TaskState, created, starting, running, paused, stopping, failed, stopped, start_reporters,
  start_rest, start, begin_stop, finish_stop, pause, resume, capture_returns, DispatchMode,
  is_created, is_running, is_paused, started, start_step, Steps, new_task, stop_capturer,
  begin_stop_step, done, finish_stop_step, step, pause_step, resume_step, capture_step,
  pause_capturers, resume_pipelines, pause_reporters, resume_reporters, pause_pipelines,
  resume_capturers,
}

is_created-inv : (st : TaskState) → is_created st ≡ true → st ≡ created
is_created-inv st e = ground arith

is_running-inv : (st : TaskState) → is_running st ≡ true → st ≡ running
is_running-inv st e = ground arith

is_paused-inv : (st : TaskState) → is_paused st ≡ true → st ≡ paused
is_paused-inv st e = ground arith

Phase-of : (t : Task) (st : TaskState) → t.state ≡ st → Sound t → Phase st t
Phase-of t st e s = subst (λ (x : TaskState). Phase x t) e s.0

started-Sound :
    (starts : ℕ → Bool) (t : Task)
    → Sound t
    → t.cancelled ≡ false
    → t.in_stop ≡ false
    → Sound (started t (start_reporters starts 0 t.reporters)).0
started-Sound starts t s c i =
    go (start_reporters starts 0 t.reporters) (start_reporters-IsQuiet starts 0 t.reporters)
  where
    go : (r : List Action × Option ℕ) → All IsQuiet r.0 → Sound (started t r).0
    go (calls, some n) q = (c, λ k. omega (arith, closes-behind k t.actions calls q, s.1 k))
    go (calls, none) q = (
      (i, c),
      λ k. omega (
        arith,
        closes-behind k t.actions (calls ++ start_rest t)
            (IsQuiet-append calls (start_rest t) q (start_rest-IsQuiet t)),
        s.1 k,
      ),
    )

start-Sound : (starts : ℕ → Bool) (t : Task) → Sound t → Sound (start starts t).0
unfolding start
start-Sound starts t s = elim (Bool-cases (is_created t.state)) [
  | inl new ↦
      let p = Phase-of t created (is_created-inv t.state new) s in
      rw new (started-Sound starts t s p.3 p.2)
  | inr other ↦ rw other s
]

begin_stop-Sound : (t : Task) → Sound t → Sound (begin_stop t).0
unfolding begin_stop
begin_stop-Sound t s = elim (Bool-cases (is_running t.state)) [
  | inl run ↦
      let p = Phase-of t running (is_running-inv t.state run) s in
      let quiet = from_up-IsQuiet stop_capturer 0 t.capturers (λ j. refl) in
      rw run ((refl, p.1), λ c. omega (arith, closes-behind c t.actions _ quiet, s.1 c))
  | inr other ↦ rw other s
]

in_stop-live : (t : Task) (st : TaskState) → Phase st t → t.in_stop ≡ true → t.cancelled ≡ false
in_stop-live t created p i = p.3
in_stop-live t starting p i = absurd p
in_stop-live t running p i = p.1
in_stop-live t paused p i = p.1
in_stop-live t stopping p i = p.1
in_stop-live t failed p i = p
in_stop-live t stopped p i = absurd (cc (p.0, i))

finish_stop-Sound :
    (t : Task) → t.in_stop ≡ true → t.capturing ≡ 0 → Sound t → Sound (finish_stop t)
unfolding finish_stop
finish_stop-Sound t i n s =
    let live = ap one_if (in_stop-live t t.state s.0 i) in
    (
      (refl, refl, n),
      λ c. omega (arith, closes-append c t.actions _, closes_at_end c t, s.1 c, live),
    )

pause-Sound : (t : Task) → Sound t → Sound (pause t).0
unfolding pause
pause-Sound t s = elim (Bool-cases (is_running t.state)) [
  | inl run ↦
      let p = Phase-of t running (is_running-inv t.state run) s in
      let calls = pause_capturers ∷ pause_reporters ∷ pause_pipelines ∷ [] in
      let quiet : All IsQuiet calls = (refl, (refl, (refl, tt))) in
      rw run (p, λ c. omega (arith, closes-behind c t.actions calls quiet, s.1 c))
  | inr other ↦ rw other s
]

resume-Sound : (t : Task) → Sound t → Sound (resume t).0
unfolding resume
resume-Sound t s = elim (Bool-cases (is_paused t.state)) [
  | inl hold ↦
      let p = Phase-of t paused (is_paused-inv t.state hold) s in
      let calls = resume_pipelines ∷ resume_reporters ∷ resume_capturers ∷ [] in
      let quiet : All IsQuiet calls = (refl, (refl, (refl, tt))) in
      rw hold (p, λ c. omega (arith, closes-behind c t.actions calls quiet, s.1 c))
  | inr other ↦ rw other s
]

-- A capture goroutine that is still there has a context.
capturing-live : (t : Task) (st : TaskState) → Phase st t → 0 < t.capturing → t.cancelled ≡ false
capturing-live t created p n = p.3
capturing-live t starting p n = absurd p
capturing-live t running p n = p.1
capturing-live t paused p n = p.1
capturing-live t stopping p n = p.1
capturing-live t failed p n = p
capturing-live t stopped p n = absurd (omega (arith, p.2))

returned-Phase :
    (t : Task) (st : TaskState)
    → Phase st t
    → 0 < t.capturing
    → Phase st (record t { capturing = t.capturing - 1 })
returned-Phase t created p n = absurd (omega (arith, p.1))
returned-Phase t starting p n = p
returned-Phase t running p n = p
returned-Phase t paused p n = p
returned-Phase t stopping p n = p
returned-Phase t failed p n = p
returned-Phase t stopped p n = absurd (omega (arith, p.2))

capture_returns-Sound :
    (clean : Bool) (t : Task) → 0 < t.capturing → Sound t → Sound (capture_returns clean t)
unfolding capture_returns
capture_returns-Sound clean t n s =
    if_intro Sound (clean || t.cancelled) (λ _. (returned-Phase t t.state s.0 n, s.1))
      (λ _. (capturing-live t t.state s.0 n, s.1))

cancelled-stopped :
    (t : Task) (st : TaskState)
    → Phase st t
    → t.cancelled ≡ true
    → (st ≡ stopped) × (t.capturing ≡ 0)
cancelled-stopped t created p c = absurd (cc (p.3, c))
cancelled-stopped t starting p c = absurd p
cancelled-stopped t running p c = absurd (cc (p.1, c))
cancelled-stopped t paused p c = absurd (cc (p.1, c))
cancelled-stopped t stopping p c = absurd (cc (p.1, c))
cancelled-stopped t failed p c = absurd (cc (p, c))
cancelled-stopped t stopped p c = (refl, p.2)

pub Step-Sound : (t u : Task) → Step t u → Sound t → Sound u
Step-Sound t _ (start_step starts _) s = start-Sound starts t s
Step-Sound t _ (begin_stop_step _) s = begin_stop-Sound t s
Step-Sound t _ (finish_stop_step _ i n) s = finish_stop-Sound t i n s
Step-Sound t _ (pause_step _) s = pause-Sound t s
Step-Sound t _ (resume_step _) s = resume-Sound t s
Step-Sound t _ (capture_step clean _ n) s = capture_returns-Sound clean t n s

pub Steps-Sound : (t u : Task) → Steps t u → Sound t → Sound u
Steps-Sound t _ (done _) s = s
Steps-Sound t u (step _ v _ first rest) s = Steps-Sound v u rest (Step-Sound t v first s)

-- However the operations and the returns of the capturers are ordered, a task that began as new closes
-- each of its channels at most once, and only when `Stop` is through: every capturer has returned then.
pub closes_once :
    (mode : DispatchMode) (capturers reporters wrappers pipelines : ℕ) (u : Task) (c : Channel)
    → Steps (new_task mode capturers reporters wrappers pipelines) u
    → (closes c u.actions ≤ 1)
      × ((closes c u.actions ≡ 0) ⊎ ((u.state ≡ stopped) × (u.capturing ≡ 0)))
unfolding new_task
closes_once mode n r w p u c steps =
    let new : Sound (new_task mode n r w p) =
      ((refl, refl, refl, refl), λ k. unfold closes in omega arith) in
    let s = Steps-Sound (new_task mode n r w p) u steps new in
    let once = s.1 c in
    elim (Bool-cases u.cancelled) [
      | inl off ↦
          let end = cancelled-stopped u u.state s.0 off in
          let bound : closes c u.actions ≤ 1 = omega (arith, once, ap one_if off) in
          (bound, inr end)
      | inr on ↦ (omega (arith, once, ap one_if on), inl (omega (arith, once, ap one_if on)))
    ]
