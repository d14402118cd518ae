-- ===== src/HeraldWards/Silence.antt =====
-- Wards that fall silent.
use karshipta.Common.{
  ap, ◌∙◌, ℕ, ◌+◌, ◌≤◌, ◌≡◌, refl, sym, subst, inl, inr, true, false, List, [], ◌∷◌, ◌++◌, Option,
  none, some, arith, Text, lookup, lookup-insert, Option-cases,
}
use karshipta.Messages.{
  Numbers, Herald, WardState, WardInfo, info_envelope, state_envelope, event_envelope,
}
use karshipta.HeraldWards.Manager.{
  Manager, Action, broadcast, send, Times, LastSeen, ingest, meet, refresh, report, mark, is_due,
  mark_all, still_stale, send_known_wards, herald_event, build_ward_state,
}
use karshipta.HeraldWards.System.{
  System, Event, ingests, checks, rechecks, reports, connects, elapses, check, recheck,
  report_stale, step,
}

module _ {D F : Type 0} where
  map_entry : (LastSeen D F → LastSeen D F) → Option (LastSeen D F) → Option (LastSeen D F)
  map_entry f none = none
  map_entry f (some entry) = some (f entry)

  lookup-mark_all :
      (timeout now : ℕ) (entries : List (Text × LastSeen D F)) (id : Text)
      → lookup id (mark_all timeout now entries).0
        ≡ map_entry (mark timeout now) (lookup id entries)
  unfolding mark_all lookup map_entry
  lookup-mark_all timeout now [] id = refl
  lookup-mark_all timeout now ((entity_id, entry) ∷ entries) id =
      let rest = lookup-mark_all timeout now entries id in ground arith

  mark-since :
      (timeout now : ℕ) (entry : LastSeen D F)
      → (entry.marked_stale ≡ true → entry.last_seen_at + timeout ≤ now)
      → (mark timeout now entry).marked_stale ≡ true
      → (mark timeout now entry).last_seen_at + timeout ≤ now
  unfolding mark is_due
  mark-since timeout now entry v stale = ground arith

  mark_all-since :
      (timeout now : ℕ) (entries : List (Text × LastSeen D F)) (id : Text) (entry : LastSeen D F)
      → ((old : LastSeen D F)
          → lookup id entries ≡ some old
          → old.marked_stale ≡ true
          → old.last_seen_at + timeout ≤ now)
      → lookup id (mark_all timeout now entries).0 ≡ some entry
      → entry.marked_stale ≡ true
      → entry.last_seen_at + timeout ≤ now
  unfolding map_entry
  mark_all-since timeout now entries id entry v found stale =
      let q = lookup-mark_all timeout now entries id in
      elim (Option-cases (lookup id entries)) [
        | inl missing ↦ ground (arith, q)
        | inr (old, e) ↦
            let since = mark-since timeout now old (v old e) in ground (arith, q, since)
      ]

  -- A ward that is marked stale has been silent for the timeout.
  abbrev pub Silent : ℕ → System D F → Type 0
  Silent timeout s =
      (id : Text) (entry : LastSeen D F)
      → lookup id s.manager.last_seen ≡ some entry
      → entry.marked_stale ≡ true
      → entry.last_seen_at + timeout ≤ s.clock

  -- What was so when the stale checker last checked a ward again: the system then, and the ward was
  -- marked stale and had been silent for the timeout.
  abbrev pub SilentAt : ℕ → Option (System D F) → Text → Type 0
  SilentAt timeout checked id =
      (t : System D F) × (checked ≡ some t)
      × (entry : LastSeen D F) × (lookup id t.manager.last_seen ≡ some entry)
      × (entry.marked_stale ≡ true)
      × (entry.last_seen_at + timeout ≤ t.clock)

  -- A state that says `disconnected` is broadcast only for such a ward.
  abbrev pub Justified : ℕ → Option (System D F) → List (Action D F) → Type 0
  Justified timeout checked [] = Unit {0}
  Justified timeout checked (broadcast (state_envelope state) ∷ actions) =
      (state.connected ≡ false → SilentAt timeout checked state.ward_id)
      × Justified timeout checked actions
  Justified timeout checked (broadcast (info_envelope info) ∷ actions) =
      Justified timeout checked actions
  Justified timeout checked (broadcast (event_envelope event) ∷ actions) =
      Justified timeout checked actions
  Justified timeout checked (send client envelope ∷ actions) = Justified timeout checked actions

  -- The system in which the last check again took place, once an event has happened.
  abbrev pub checked_at : Event D F → System D F → Option (System D F) → Option (System D F)
  checked_at rechecks s checked = elim s.cleared [ none ↦ some s | some state ↦ checked ]
  checked_at (ingests collides msg wall first second) s checked = checked
  checked_at checks s checked = checked
  checked_at reports s checked = checked
  checked_at (connects client) s checked = checked
  checked_at (elapses time) s checked = checked

  -- What waits for its broadcast passed the last check again.
  abbrev pub Cleared : ℕ → System D F → Option (System D F) → Type 0
  Cleared timeout s checked =
      (state : WardState D F) → s.cleared ≡ some state → SilentAt timeout checked state.ward_id

  meet-last_seen : (msg : Herald D F) (m : Manager D F) → (meet msg m).0.last_seen ≡ m.last_seen
  unfolding meet
  meet-last_seen msg m = ground arith

module _ {D F : Type 0} (numbers : Numbers D F) (timeout : ℕ) where
  step-Silent :
      (event : Event D F) (s : System D F)
      → Silent timeout s
      → Silent timeout (step numbers timeout event s).0
  unfolding step check recheck report_stale ingest refresh
  step-Silent (ingests true msg wall first second) s v id entry found stale = v id entry found stale
  step-Silent (ingests false msg wall first second) s v id entry found stale =
      let met = meet msg s.manager in
      let state = build_ward_state numbers msg wall in
      let fresh : LastSeen D F = record {
        last_state = state;
        last_seen_at = s.clock;
        marked_stale = false;
      } in
      let q = lookup-insert msg.entity_id id fresh met.0.last_seen in
      let p = meet-last_seen msg s.manager in let old = v id entry in ground arith
  step-Silent checks s v id entry found stale =
      let marked = mark_all-since timeout s.clock s.manager.last_seen id entry (v id) in
      let old = v id entry in ground arith
  step-Silent rechecks s v id entry found stale = ground (arith, v id entry)
  step-Silent reports s v id entry found stale = ground (arith, v id entry)
  step-Silent (connects client) s v id entry found stale = v id entry found stale
  step-Silent (elapses time) s v id entry found stale = omega (arith, v id entry found stale)

  recheck-busy :
      (s : System D F) (states : List (WardState D F)) (pending : WardState D F)
      → s.cleared ≡ some pending
      → recheck numbers timeout s states ≡ s
  unfolding recheck
  recheck-busy s [] pending e = refl
  recheck-busy s (next ∷ states) pending e = ground arith

  recheck-Cleared :
      (s : System D F) (states : List (WardState D F)) (checked : Option (System D F))
      → Silent timeout s
      → s.cleared ≡ none
      → Cleared timeout (recheck numbers timeout s states) (some s)
  unfolding recheck still_stale
  recheck-Cleared s [] checked v e state e' = cc
  recheck-Cleared s (next ∷ states) checked v e state e' =
      elim (Option-cases (lookup next.ward_id s.manager.last_seen)) [
        | inl missing ↦ ground arith
        | inr (entry, found) ↦
            let same : (next ≡ state) × (entry.marked_stale ≡ true) = ground arith in
            (
              s,
              refl,
              entry,
              subst (λ (w : WardState D F). lookup w.ward_id s.manager.last_seen ≡ some entry)
                  same.0 found,
              same.1,
              v next.ward_id entry found same.1,
            )
      ]

  step-Cleared :
      (event : Event D F) (s : System D F) (checked : Option (System D F))
      → Silent timeout s
      → Cleared timeout s checked
      → Cleared timeout (step numbers timeout event s).0 (checked_at event s checked)
  unfolding step check report_stale
  step-Cleared (ingests collides msg wall first second) s checked v c state e = c state e
  step-Cleared checks s checked v c state e = c state (ground arith)
  step-Cleared rechecks s checked v c state e = elim (Option-cases s.cleared) [
    | inl idle ↦
        let q : checked_at rechecks s checked ≡ some s = ground arith in
        subst (λ last. SilentAt timeout last state.ward_id) (sym q)
          (recheck-Cleared s s.to_report checked v idle state e)
    | inr (pending, busy) ↦
        let q : checked_at rechecks s checked ≡ checked = ground arith in
        let same = recheck-busy s s.to_report pending busy in
        subst (λ last. SilentAt timeout last state.ward_id) (sym q)
          (c state (ap (λ (t : System D F). t.cleared) (sym same) ∙ e))
  ]
  step-Cleared reports s checked v c state e = c state (ground arith)
  step-Cleared (connects client) s checked v c state e = c state e
  step-Cleared (elapses time) s checked v c state e = c state e

  Justified-append :
      (checked : Option (System D F)) (xs ys : List (Action D F))
      → Justified timeout checked xs
      → Justified timeout checked ys
      → Justified timeout checked (xs ++ ys)
  Justified-append checked [] ys f g = g
  Justified-append checked (broadcast (state_envelope state) ∷ xs) ys f g =
      (f.0, Justified-append checked xs ys f.1 g)
  Justified-append checked (broadcast (info_envelope info) ∷ xs) ys f g =
      Justified-append checked xs ys f g
  Justified-append checked (broadcast (event_envelope event) ∷ xs) ys f g =
      Justified-append checked xs ys f g
  Justified-append checked (send client envelope ∷ xs) ys f g = Justified-append checked xs ys f g

  sends-Justified :
      (checked : Option (System D F)) (client : ℕ) (wards : List (Text × WardInfo))
      → Justified timeout checked (send_known_wards client wards)
  unfolding send_known_wards
  sends-Justified checked client [] = tt
  sends-Justified checked client ((entity_id, info) ∷ wards) = sends-Justified checked client wards

  meet-Justified :
      (checked : Option (System D F)) (m : Manager D F) (msg : Herald D F)
      → Justified timeout checked (meet msg m).1
  unfolding meet
  meet-Justified checked m msg = ground arith

  report-Justified :
      (checked : Option (System D F)) (state : WardState D F) (id : Text) (times : Times)
      (previous : Option (LastSeen D F))
      → state.connected ≡ true
      → Justified timeout checked (report state id times previous)
  unfolding report herald_event
  report-Justified checked state id times previous e = ground arith

  report_stale-Justified :
      (s : System D F) (checked : Option (System D F))
      → Cleared timeout s checked
      → Justified timeout checked (report_stale numbers timeout s).1
  unfolding report_stale
  report_stale-Justified s checked c = elim (Option-cases s.cleared) [
    | inl idle ↦ rw idle tt
    | inr (state, e) ↦ rw e (λ offline. c state e, tt)
  ]

  step-Justified :
      (event : Event D F) (s : System D F) (checked : Option (System D F))
      → Cleared timeout s checked
      → Justified timeout checked (step numbers timeout event s).1
  unfolding step ingest build_ward_state
  step-Justified (ingests true msg wall first second) s checked c = tt
  step-Justified (ingests false msg wall first second) s checked c =
      let times : Times = record {
        ingestion_ms = wall;
        seen_at = s.clock;
        out_of_order_ms = first;
        skew_ms = second;
      } in
      let state = build_ward_state numbers msg wall in
      let previous = lookup msg.entity_id (meet msg s.manager).0.last_seen in
      Justified-append checked (meet msg s.manager).1 (report state msg.entity_id times previous)
        (meet-Justified checked s.manager msg)
        (report-Justified checked state msg.entity_id times previous refl)
  step-Justified checks s checked c = tt
  step-Justified rechecks s checked c = tt
  step-Justified reports s checked c = report_stale-Justified s checked c
  step-Justified (connects client) s checked c =
      sends-Justified checked client s.manager.known_wards
  step-Justified (elapses time) s checked c = tt

  -- What is broadcast at each of the events is justified by the last check again before it.
  abbrev pub AllJustified : List (Event D F) → System D F → Option (System D F) → Type 0
  AllJustified [] s checked = Unit {0}
  AllJustified (event ∷ events) s checked =
      Justified timeout checked (step numbers timeout event s).1
      × AllJustified events (step numbers timeout event s).0 (checked_at event s checked)

  -- Over any sequence of calls, a state that says a ward is disconnected is broadcast only if the stale
  -- checker's last check again found that ward marked stale, and its last message until then was at
  -- least the stale timeout before that check. A message that comes between that check and the
  -- broadcast does not hold the broadcast back. (At the start, every ward that is marked stale has been
  -- silent so long, and a state that waits for its broadcast passed the last check again.)
  pub run-AllJustified :
      (events : List (Event D F)) (s : System D F) (checked : Option (System D F))
      → Silent timeout s
      → Cleared timeout s checked
      → AllJustified events s checked
  run-AllJustified [] s checked v c = tt
  run-AllJustified (event ∷ events) s checked v c = (
    step-Justified event s checked c,
    run-AllJustified events (step numbers timeout event s).0 (checked_at event s checked)
        (step-Silent event s v) (step-Cleared event s checked v c),
  )
