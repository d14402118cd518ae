-- ===== src/Missions/Progress.antt =====
-- The passes of a mission.
use karshipta.Common.{
  ℕ, ◌+◌, ◌-◌, ◌≡◌, refl, ◌∙◌, true, false, ◌||◌, ◌&&◌, List, [], ◌∷◌, arith, ◌==◌, ltb,
  if◌then◌else◌,
}
use karshipta.Missions.Passes.{Passes, end_pass, handle_progress, notify_interrupted}

-- How many of the reports, pairs of current item and total, end a pass.
abbrev pub passes_ended : List (ℕ × ℕ) → ℕ
passes_ended [] = 0
passes_ended ((current, total) ∷ reports) =
    (if current == total then 1 else 0) + passes_ended reports

abbrev pub min : ℕ → ℕ → ℕ
min a b = if ltb a b then a else b

module _ {D F : Type 0} where
  -- The reports one after the other, and how often the mission is started again.
  abbrev pub report_all : List (ℕ × ℕ) → Passes D F → Passes D F × ℕ
  report_all [] s = (s, 0)
  report_all ((current, total) ∷ reports) s =
      let now = handle_progress current total s in
      let later = report_all reports now.0 in (later.0, (if now.1 then 1 else 0) + later.1)

  handle_progress-interrupted :
      (current total : ℕ) (s : Passes D F)
      → (handle_progress current total s).0.interrupted ≡ s.interrupted
  unfolding handle_progress end_pass
  handle_progress-interrupted current total s = ground arith

  -- A mission that was just uploaded is started again after each pass while passes remain: once for
  -- each pass that ends, `repeat_count` times at most. It is finished, and a return to launch is due
  -- if it ends with one, exactly when one more pass has ended. (Reports come without interruption.)
  pub report_all-passes :
      (reports : List (ℕ × ℕ)) (s : Passes D F)
      → s.interrupted ≡ false
      → let ended = passes_ended reports in
        let end = report_all reports s in
        let over = ltb s.passes_remaining ended in
        (end.1 ≡ min s.passes_remaining ended)
        × (end.0.passes_remaining ≡ s.passes_remaining - ended)
        × (end.0.last_progress.finished ≡ (over || s.last_progress.finished))
        × (end.0.pending_return_to_launch
            ≡ ((over && s.ends_with_return_to_launch) || s.pending_return_to_launch))
  unfolding handle_progress end_pass
  report_all-passes [] s e = ground arith
  report_all-passes ((current, total) ∷ reports) s e =
      let now = handle_progress current total s in
      let kept = handle_progress-interrupted current total s in
      let rest = report_all-passes reports now.0 (kept ∙ e) in ground arith

  report_all-stopped :
      (reports : List (ℕ × ℕ)) (s : Passes D F)
      → s.interrupted ≡ true
      → let end = report_all reports s in
        (end.1 ≡ 0)
        × (end.0.last_progress.finished ≡ s.last_progress.finished)
        × (end.0.pending_return_to_launch ≡ s.pending_return_to_launch)
  unfolding handle_progress end_pass
  report_all-stopped [] s e = (refl, refl, refl)
  report_all-stopped ((current, total) ∷ reports) s e =
      let now = handle_progress current total s in
      let kept = handle_progress-interrupted current total s in
      let rest = report_all-stopped reports now.0 (kept ∙ e) in ground arith

  -- Where `notify_interrupted` says that a mission was active, no report after it starts the mission
  -- again, finishes it, or makes a return to launch due.
  pub notify_interrupted-stops :
      (reports : List (ℕ × ℕ)) (s : Passes D F)
      → (notify_interrupted s).0 ≡ true
      → let end = report_all reports (notify_interrupted s).1 in
        (end.1 ≡ 0)
        × (end.0.last_progress.finished ≡ false)
        × (end.0.pending_return_to_launch ≡ s.pending_return_to_launch)
  unfolding notify_interrupted
  notify_interrupted-stops reports s e =
      let stopped = report_all-stopped reports (record s { interrupted = true }) refl in
      ground arith
