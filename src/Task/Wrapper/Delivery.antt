-- ===== src/Task/Wrapper/Delivery.antt =====
-- internal/task/reporter_wrapper.go: every packet reaches the primary reporter once and in order.
use mathlib.Core.List.{append_assoc, append-nil}
use otus.Base.{
  List, ◌∷◌, [], ◌++◌, ◌≡◌, Bool, length, ap, Option, ◌∙◌, refl, sym, Option-cases, inl, inr,
  Bool-cases, not, ◌&&◌, if_intro, if◌then◌else◌, leb, true,
}
use otus.Task.Wrapper.{
  Wrapper, Call, report_call, Event, batch_call, Target, primary, received, fallback, ticked,
  report_each, send_batch, flush, flushed, batch_step, batch_loop, WrapperConfig,
  new_reporter_wrapper, no_packets,
}

-- The packets that a history hands to the primary reporter, to the fallback, and the sizes of its batches.
abbrev pub to_primary {ℓ} : {P : Type ℓ} → List (Call P) → List P
to_primary [] = []
to_primary (report_call primary p a ∷ cs) = p ∷ to_primary cs
to_primary (report_call fallback p a ∷ cs) = to_primary cs
to_primary (batch_call ps a ∷ cs) = ps ++ to_primary cs

abbrev pub to_fallback {ℓ} : {P : Type ℓ} → List (Call P) → List P
to_fallback [] = []
to_fallback (report_call primary p a ∷ cs) = to_fallback cs
to_fallback (report_call fallback p a ∷ cs) = p ∷ to_fallback cs
to_fallback (batch_call ps a ∷ cs) = to_fallback cs

abbrev pub packets {ℓ} : {P : Type ℓ} → List (Event P) → List P
packets [] = []
packets (received p ∷ es) = p ∷ packets es
packets (ticked ∷ es) = packets es

module _ {ℓ} {P : Type ℓ} where
  to_primary-append :
      (xs ys : List (Call P)) → to_primary (xs ++ ys) ≡ to_primary xs ++ to_primary ys
  to_primary-append [] ys = refl
  to_primary-append (report_call primary p a ∷ xs) ys = ap (◌∷◌ p) (to_primary-append xs ys)
  to_primary-append (report_call fallback p a ∷ xs) ys = to_primary-append xs ys
  to_primary-append (batch_call ps a ∷ xs) ys =
      ap (◌++◌ ps) (to_primary-append xs ys) ∙ sym (append_assoc ps (to_primary xs) (to_primary ys))

  to_fallback-append :
      (xs ys : List (Call P)) → to_fallback (xs ++ ys) ≡ to_fallback xs ++ to_fallback ys
  to_fallback-append [] ys = refl
  to_fallback-append (report_call primary p a ∷ xs) ys = to_fallback-append xs ys
  to_fallback-append (report_call fallback p a ∷ xs) ys = ap (◌∷◌ p) (to_fallback-append xs ys)
  to_fallback-append (batch_call ps a ∷ xs) ys = to_fallback-append xs ys

module _ {ℓ} {P : Type ℓ} (report : List (Call P) → Target → P → Bool)
    (report_batch : Option (List (Call P) → List P → Bool)) where
  report_each-primary :
      (ps : List P) (cs : List (Call P))
      → (to_primary (report_each report report_batch primary ps cs).0 ≡ to_primary cs ++ ps)
        × (to_fallback (report_each report report_batch primary ps cs).0 ≡ to_fallback cs)
  unfolding report_each
  report_each-primary [] cs = (sym (append-nil (to_primary cs)), refl)
  report_each-primary (p ∷ ps) cs =
      let c = report_call primary p (report cs primary p) in
      let rest = report_each-primary ps (cs ++ c ∷ []) in
      (
        rest.0
            ∙ ap (λ (x : List P). x ++ ps) (to_primary-append cs (c ∷ []))
            ∙ append_assoc (to_primary cs) (p ∷ []) ps,
        rest.1 ∙ to_fallback-append cs (c ∷ []) ∙ append-nil (to_fallback cs),
      )

  report_each-fallback :
      (ps : List P) (cs : List (Call P))
      → (to_primary (report_each report report_batch fallback ps cs).0 ≡ to_primary cs)
        × (to_fallback (report_each report report_batch fallback ps cs).0 ≡ to_fallback cs ++ ps)
  unfolding report_each
  report_each-fallback [] cs = (refl, sym (append-nil (to_fallback cs)))
  report_each-fallback (p ∷ ps) cs =
      let c = report_call fallback p (report cs fallback p) in
      let rest = report_each-fallback ps (cs ++ c ∷ []) in
      (
        rest.0 ∙ to_primary-append cs (c ∷ []) ∙ append-nil (to_primary cs),
        rest.1
            ∙ ap (λ (x : List P). x ++ ps) (to_fallback-append cs (c ∷ []))
            ∙ append_assoc (to_fallback cs) (p ∷ []) ps,
      )

  send_batch-primary :
      (ps : List P) (cs : List (Call P))
      → (to_primary (send_batch report report_batch ps cs).0 ≡ to_primary cs ++ ps)
        × (to_fallback (send_batch report report_batch ps cs).0 ≡ to_fallback cs)
  unfolding send_batch
  send_batch-primary ps cs = elim (Option-cases report_batch) [
    | inl e ↦ rw (e, send_batch) (report_each-primary ps cs)
    | inr (br, e) ↦
        rw (e, send_batch)
          (
            to_primary-append cs _ ∙ ap (◌++◌ (to_primary cs)) (append-nil ps),
            to_fallback-append cs _ ∙ append-nil (to_fallback cs),
          )
  ]

  -- What was reported and what waits in the batch.
  abbrev pub handed : Wrapper P → List P
  handed w = to_primary w.calls ++ w.batch

  flushed-primary :
      (w : Wrapper P)
      → to_primary (flushed report report_batch w).calls ≡ to_primary w.calls ++ w.batch
  unfolding flushed
  flushed-primary w =
      let (cs, sent) = send_batch report report_batch w.batch w.calls in
      let own = send_batch-primary w.batch w.calls in
      elim (Bool-cases (not sent && w.has_fallback)) [
        | inl back ↦ rw (back, flushed) ((report_each-fallback w.batch cs).0 ∙ own.0)
        | inr plain ↦ rw (plain, flushed) own.0
      ]

  no_packets-nil : (ps : List P) → no_packets ps ≡ true → ps ≡ []
  no_packets-nil [] e = refl
  no_packets-nil (p ∷ ps) e = absurd (cc)

  flush-handed :
      (w : Wrapper P)
      → (to_primary (flush report report_batch w).calls ≡ handed w)
        × ((flush report report_batch w).batch ≡ [])
        × ((flush report report_batch w).batch_size ≡ w.batch_size)
  unfolding flush
  flush-handed w = elim (Bool-cases (no_packets w.batch)) [
    | inl empty ↦
        let e : w.batch ≡ [] = no_packets-nil w.batch empty in
        rw empty (sym (ap (◌++◌ (to_primary w.calls)) e ∙ append-nil (to_primary w.calls)), e, refl)
    | inr some' ↦ rw some' (flushed-primary w, (unfold flushed in refl), (unfold flushed in refl))
  ]

  flush-handed_all :
      (w : Wrapper P)
      → (handed (flush report report_batch w) ≡ handed w)
        × ((flush report report_batch w).batch_size ≡ w.batch_size)
  flush-handed_all w =
      let own = flush-handed w in
      (
        ap (◌++◌ (to_primary (flush report report_batch w).calls)) own.1 ∙ append-nil _ ∙ own.0,
        own.2,
      )

  batch_step-handed :
      (w : Wrapper P) (ev : Event P)
      → handed (batch_step report report_batch w ev) ≡ handed w ++ packets (ev ∷ [])
  unfolding batch_step
  batch_step-handed w ticked = (flush-handed_all w).0 ∙ sym (append-nil (handed w))
  batch_step-handed w (received p) =
      let w' = record w { batch = w.batch ++ p ∷ [] } in
      let behind = sym (append_assoc (to_primary w.calls) w.batch (p ∷ [])) in
      if_intro (λ (v : Wrapper P). handed v ≡ handed w ++ p ∷ [])
        (leb w.batch_size (length w'.batch)) (λ full. (flush-handed_all w').0 ∙ behind)
        (λ room. behind)

  packets-cons :
      (ev : Event P) (evs : List (Event P)) → packets (ev ∷ evs) ≡ packets (ev ∷ []) ++ packets evs
  packets-cons (received p) evs = refl
  packets-cons ticked evs = refl

  batch_loop-handed :
      (evs : List (Event P)) (w : Wrapper P)
      → to_primary (batch_loop report report_batch w evs).calls ≡ handed w ++ packets evs
  unfolding batch_loop
  batch_loop-handed [] w = (flush-handed w).0 ∙ sym (append-nil (handed w))
  batch_loop-handed (ev ∷ evs) w =
      batch_loop-handed evs (batch_step report report_batch w ev)
      ∙ ap (λ (x : List P). x ++ packets evs) (batch_step-handed w ev)
      ∙ append_assoc (handed w) (packets (ev ∷ [])) (packets evs)
      ∙ ap (◌++◌ (handed w)) (sym (packets-cons ev evs))

  -- When the channel is closed, a new wrapper has handed every packet it received to the primary
  -- reporter, once and in the order of the channel, however the reporters answer and the ticks fall.
  pub batch_loop-delivers :
      (cfg : WrapperConfig) (evs : List (Event P))
      → to_primary (batch_loop report report_batch (new_reporter_wrapper cfg) evs).calls
        ≡ packets evs
  batch_loop-delivers cfg evs =
      batch_loop-handed evs (new_reporter_wrapper cfg) ∙ (unfold new_reporter_wrapper in refl)

  -- A failed flush hands the whole batch to the fallback, also the packets that the primary reporter took.
  pub flushed-fallback :
      (w : Wrapper P)
      → to_fallback (flushed report report_batch w).calls
        ≡ to_fallback w.calls
          ++ (if not (send_batch report report_batch w.batch w.calls).1 && w.has_fallback
              then w.batch
              else [])
  unfolding flushed
  flushed-fallback w =
      let (cs, sent) = send_batch report report_batch w.batch w.calls in
      let own = send_batch-primary w.batch w.calls in
      elim (Bool-cases (not sent && w.has_fallback)) [
        | inl back ↦
            rw (back, flushed)
              ((report_each-fallback w.batch cs).1 ∙ ap (λ (x : List P). x ++ w.batch) own.1)
        | inr plain ↦ rw (plain, flushed) (own.1 ∙ sym (append-nil (to_fallback w.calls)))
      ]
