-- ===== src/HeraldWards/System.antt =====
-- The manager with its stale checker, the clock, and the calls that other threads make in between.
use karshipta.Common.{if◌then◌else◌, Option, none, some, ℕ, ◌+◌, Bool, List, [], ◌∷◌, ◌++◌}
use karshipta.Messages.{state_envelope, Numbers, Herald, WardState}
use karshipta.HeraldWards.Manager.{
  Manager, Action, ingest, mark_all, still_stale, broadcast, send_known_wards,
}

-- `to_report` holds what the stale checker marked and has not come to yet, and `cleared` the state that
-- passed the check again and is not broadcast yet: no lock is held between the two.
pub record System (D F : Type 0) : Type 0 where
  pub manager : Manager D F
  pub to_report : List (WardState D F)
  pub cleared : Option (WardState D F)
  pub clock : ℕ

-- `ingests` has the answer of `has_ward` and the readings of the system clock; the steady clock reads
-- the system's.
pub data Event (D F : Type 0) : Type 0 where
  ingests : Bool → Herald D F → ℕ → ℕ → ℕ → Event D F
  checks rechecks reports : Event D F
  connects : ℕ → Event D F
  elapses : ℕ → Event D F

module _ {D F : Type 0} (numbers : Numbers D F) (timeout : ℕ) where
  -- The stale checker marks wards again only when it is through with all that it marked before.
  unfoldable pub check : System D F → System D F
  check s = elim s.cleared [
    | some state ↦ s
    | none ↦ elim s.to_report [
      | state ∷ states ↦ s
      | [] ↦
          let marked = mark_all timeout s.clock s.manager.last_seen in
          record s { manager = record s.manager { last_seen = marked.0 }; to_report = marked.1 }
    ]
  ]

  -- The check of the next ward again.
  unfoldable pub recheck : System D F → List (WardState D F) → System D F
  recheck s [] = s
  recheck s (state ∷ states) = elim s.cleared [
    | some pending ↦ s
    | none ↦ record s {
      to_report = states;
      cleared = if still_stale state s.manager then some state else none;
    }
  ]

  -- Its broadcast.
  unfoldable pub report_stale : System D F → System D F × List (Action D F)
  report_stale s = elim s.cleared [
    | none ↦ (s, [])
    | some state ↦ (record s { cleared = none }, broadcast (state_envelope state) ∷ [])
  ]

  unfoldable pub step : Event D F → System D F → System D F × List (Action D F)
  unfolding check recheck report_stale
  step (ingests collides msg wall first second) s =
      let done =
        ingest numbers collides msg
          (record {
            ingestion_ms = wall;
            seen_at = s.clock;
            out_of_order_ms = first;
            skew_ms = second;
          })
          s.manager in
      (record s { manager = done.1 }, done.2)
  step checks s = (check s, [])
  step rechecks s = (recheck s s.to_report, [])
  step reports s = report_stale s
  step (connects client) s = (s, send_known_wards client s.manager.known_wards)
  step (elapses time) s = (record s { clock = s.clock + time }, [])

  unfoldable pub run : List (Event D F) → System D F → System D F × List (Action D F)
  run [] s = (s, [])
  run (event ∷ events) s =
      let now = step event s in let later = run events now.0 in (later.0, now.1 ++ later.1)
