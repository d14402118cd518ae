-- ===== src/Fleet/Orphan/Run.antt =====
-- Once a ward is marked as stopping and no stop command of it is under way, it stays so.
use karshipta.Fleet.Orphan.Outcomes.{
  handle_mission_upload_outcome-Orphan, handle_command_outcome-Orphan,
}
use karshipta.Fleet.Orphan.Routes.{handle_remove-Orphan, handle_update-Orphan}
use karshipta.Fleet.Orphan.Stop.{handle_stop-Orphan}
use karshipta.Fleet.Orphan.Steps.{Orphan}
use karshipta.Fleet.Missions.{FleetState}
use karshipta.Fleet.Dispatch.{Environment}
use karshipta.Fleet.Events.{
  FleetEvent, creates, stops, updates, removes, reports_command, reports_upload, wards_change,
  restarts, handle_event, handle_events,
}
use karshipta.Fleet.Events.{
  reports_upload, reports_command, removes, updates, stops, creates, restarts,
}
use karshipta.Fleet.Orphan.{tracks-none, holds_stopping}
use karshipta.Fleet.Effects.{Result}
use karshipta.Fleet.Messages.{FleetMission}
use karshipta.Common.{[], ◌∷◌, true, List, ◌≡◌, Bool, Option, Text}
use karshipta.Fleet.MissionStore.{IsMissionStore, MissionStore}
use karshipta.Fleet.Orphan.Create.{handle_create-Orphan}

module _ {S V D F : Type 0} (store : MissionStore S D F)
    (view : S → Text → Option (FleetMission D F)) (laws : IsMissionStore store view)
    (env : Environment V D F) (known_fleet : Text → S → Result Bool × S)
    (keeps : (fleet_id : Text) (t : S) (j : Text) → view (known_fleet fleet_id t).1 j ≡ view t j)
    (id ward_id : Text) where
  step-Orphan :
      (event : FleetEvent V D F) (s : FleetState S V D F)
      → Orphan store view laws id ward_id s
      → Orphan store view laws id ward_id (handle_event store env known_fleet event s)
  unfolding handle_event
  step-Orphan (creates request) s o =
      handle_create-Orphan store view laws env id ward_id known_fleet request s keeps o
  step-Orphan (stops request) s o = handle_stop-Orphan store view laws env id ward_id request s o
  step-Orphan (updates request) s o =
      handle_update-Orphan store view laws env id ward_id request s o
  step-Orphan (removes request) s o =
      handle_remove-Orphan store view laws env id ward_id request s o
  step-Orphan (reports_command ack) s o =
      handle_command_outcome-Orphan store view laws id ward_id ack s o
  step-Orphan (reports_upload ward mission_id succeeds message) s o =
      handle_mission_upload_outcome-Orphan store view laws id ward_id ward mission_id succeeds
        message s o
  step-Orphan (wards_change wards) s o = o
  step-Orphan restarts s o = (o.0, tracks-none id ward_id)

  run-Orphan :
      (events : List (FleetEvent V D F)) (s : FleetState S V D F)
      → Orphan store view laws id ward_id s
      → Orphan store view laws id ward_id (handle_events store env known_fleet events s)
  unfolding handle_events
  run-Orphan [] s o = o
  run-Orphan (event ∷ events) s o =
      run-Orphan events (handle_event store env known_fleet event s) (step-Orphan event s o)

  -- A ward of a stored fleet mission that is marked as stopping when the gateway restarts is still
  -- marked as stopping after any further events, whatever they are: stop, update and remove requests,
  -- outcomes of commands and uploads, changes of the wards, further restarts. The store is assumed to
  -- keep its laws, and the look-up of a fleet to leave the missions as they are.
  pub restart-stuck :
      (events : List (FleetEvent V D F)) (s : FleetState S V D F)
      → holds_stopping (view s.store id) ward_id ≡ true
      → holds_stopping
          (view (handle_events store env known_fleet (restarts ∷ events) s).store id)
          ward_id
        ≡ true
  unfolding handle_events handle_event
  restart-stuck events s h =
      (run-Orphan events (record s { pending_stops = [] }) (h, tracks-none id ward_id)).0
