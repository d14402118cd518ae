-- ===== src/HeraldWards/Announce.antt =====
-- Announcements of wards.
use karshipta.Common.{
  ℕ, ◌+◌, ◌≡◌, refl, Bool, true, false, List, [], ◌∷◌, ◌++◌, Option, none, some, arith,
  if◌then◌else◌, Text, text_eq, text_eq_iff, lookup, lookup-insert,
}
use karshipta.Messages.{
  Numbers, Herald, WardState, WardInfo, info_envelope, state_envelope, event_envelope,
}
use karshipta.HeraldWards.Manager.{
  Manager, Action, broadcast, send, Times, LastSeen, ingest, meet, refresh, report,
  send_known_wards, new_ward_info, herald_event, build_ward_state,
}
use karshipta.HeraldWards.System.{
  System, Event, ingests, checks, rechecks, reports, connects, elapses, check, recheck,
  report_stale, step, run,
}

module _ {D F : Type 0} where
  -- How often the ward is announced to all clients.
  abbrev pub announcements : Text → List (Action D F) → ℕ
  announcements id [] = 0
  announcements id (broadcast (info_envelope info) ∷ actions) =
      (if text_eq info.ward_id id then 1 else 0) + announcements id actions
  announcements id (broadcast (state_envelope state) ∷ actions) = announcements id actions
  announcements id (broadcast (event_envelope event) ∷ actions) = announcements id actions
  announcements id (send client envelope ∷ actions) = announcements id actions

  -- 1 for a ward that the manager knows.
  abbrev pub known : Text → Manager D F → ℕ
  known id m = elim (lookup id m.known_wards) [ none ↦ 0 | some info ↦ 1 ]

  announcements-append :
      (id : Text) (xs ys : List (Action D F))
      → announcements id (xs ++ ys) ≡ announcements id xs + announcements id ys
  announcements-append id [] ys = omega arith
  announcements-append id (broadcast (info_envelope info) ∷ xs) ys =
      let rest = announcements-append id xs ys in omega (arith, rest)
  announcements-append id (broadcast (state_envelope state) ∷ xs) ys = announcements-append id xs ys
  announcements-append id (broadcast (event_envelope event) ∷ xs) ys = announcements-append id xs ys
  announcements-append id (send client envelope ∷ xs) ys = announcements-append id xs ys

  meet-announcements :
      (msg : Herald D F) (m : Manager D F) (id : Text)
      → known id m + announcements id (meet msg m).1 ≡ known id (meet msg m).0
  unfolding meet new_ward_info
  meet-announcements msg m id =
      let found = lookup-insert msg.entity_id id (new_ward_info msg) m.known_wards in
      let same = text_eq_iff msg.entity_id id in ground (arith)

  report-announcements :
      (state : WardState D F) (entity_id : Text) (times : Times) (previous : Option (LastSeen D F))
      (id : Text)
      → announcements id (report state entity_id times previous) ≡ 0
  unfolding report herald_event
  report-announcements state entity_id times previous id = ground arith

sends-announcements :
    (D F : Type 0) (id : Text) (client : ℕ) (wards : List (Text × WardInfo))
    → announcements {D = D} {F = F} id (send_known_wards client wards) ≡ 0
unfolding send_known_wards
sends-announcements D F id client [] = refl
sends-announcements D F id client ((entity_id, info) ∷ wards) =
    sends-announcements D F id client wards

module _ {D F : Type 0} (numbers : Numbers D F) (timeout : ℕ) where
  ingest-announcements :
      (collides : Bool) (msg : Herald D F) (times : Times) (m : Manager D F) (id : Text)
      → known id m + announcements id (ingest numbers collides msg times m).2
        ≡ known id (ingest numbers collides msg times m).1
  unfolding ingest refresh
  ingest-announcements true msg times m id = omega arith
  ingest-announcements false msg times m id =
      let met = meet msg m in
      let state = build_ward_state numbers msg times.ingestion_ms in
      let previous = lookup msg.entity_id met.0.last_seen in
      let first = meet-announcements msg m id in
      let rest = report-announcements state msg.entity_id times previous id in
      let both = announcements-append id met.1 (report state msg.entity_id times previous) in
      omega (arith, first, rest, both)

  step-announcements :
      (event : Event D F) (s : System D F) (id : Text)
      → known id s.manager + announcements id (step numbers timeout event s).1
        ≡ known id (step numbers timeout event s).0.manager
  unfolding step check recheck report_stale
  step-announcements (ingests collides msg wall first second) s id =
      ingest-announcements collides msg
        (record {
          ingestion_ms = wall;
          seen_at = s.clock;
          out_of_order_ms = first;
          skew_ms = second;
        })
        s.manager id
  step-announcements checks s id = ground arith
  step-announcements rechecks s id = ground arith
  step-announcements reports s id = ground arith
  step-announcements (connects client) s id =
      let none_sent = sends-announcements D F id client s.manager.known_wards in
      omega (arith, none_sent)
  step-announcements (elapses time) s id = omega arith

  -- A ward is announced to all clients exactly once: over any sequence of calls, the number of
  -- announcements is 1 for a ward that the manager knows at the end and did not know at the
  -- beginning, and otherwise 0.
  pub run-announcements :
      (events : List (Event D F)) (s : System D F) (id : Text)
      → known id s.manager + announcements id (run numbers timeout events s).1
        ≡ known id (run numbers timeout events s).0.manager
  unfolding run
  run-announcements [] s id = omega arith
  run-announcements (event ∷ events) s id =
      let now = step numbers timeout event s in
      let later = run numbers timeout events now.0 in
      let first = step-announcements event s id in
      let rest = run-announcements events now.0 id in
      let both = announcements-append id now.1 later.1 in omega (arith, first, rest, both)
