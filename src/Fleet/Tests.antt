-- ===== src/Fleet/Tests.antt =====
-- The fleet manager on small events, and the theorems at inputs that meet their hypotheses.
use karshipta.Fleet.Finish.{handle_command_outcome-finishes}
use karshipta.Fleet.Outcomes.{handle_command_outcome, handle_outcomes}
use karshipta.Fleet.Dispatch.{Environment}
use karshipta.Fleet.Routes.{handle_remove_fleet_mission}
use karshipta.Fleet.Stop.{is_stoppable}
use karshipta.Fleet.Missions.{PendingStop, FleetState}
use karshipta.Fleet.Orphan.Run.{restart-stuck}
use karshipta.Fleet.Events.{handle_events, stops, removes, reports_command, restarts}
use karshipta.Fleet.Events.{removes, reports_command}
use karshipta.Fleet.MissionStore.{put_ward_state, find_ward_state}
use karshipta.Fleet.Effects.{ok, Result}
use karshipta.Messages.{success, CommandAck}
use karshipta.Common.{
  refl, true, ◌≡◌, ◌∷◌, false, erase, Bool, some, none, [], insert, ℕ, lookup, text_eq, text, Text,
}
use karshipta.Fleet.Orphan.{holds_stopping}
use karshipta.Fleet.Gate.{handle_remove-outcome, RemoveOutcome}
use karshipta.Fleet.Messages.{
  mission_stopping, stopping, mission_active, active, mission_stopped, stopped, stop_hold,
  FleetMissionStatus, WardMissionState, StopFleetMission, WardMissionStatus, RemoveFleetMission,
}
use karshipta.Fleet.Tests.Slots.{
  slots-Reliable, mission_of, slots-IsMissionStore, the_id, slot_view, Slot, slots,
}
pub mod Slots

abbrev cow : WardMissionStatus → WardMissionState
cow status = record {
  ward_id = text "drone";
  status = status;
  message = [];
  mission_id = text "m-drone-1";
}

abbrev pub world : WardMissionStatus → FleetMissionStatus → FleetState Slot (Unit {0}) ℕ ℕ
world ward status = record {
  store = some (cow ward, status);
  wards = tt;
  pending_stops = [];
  broadcasts = [];
}

-- A ward that takes every upload, and answers a command later.
abbrev pub env : Environment (Unit {0}) ℕ ℕ
env = record {
  wards = record {
    dispatch_command = λ command v. ([], v);
    dispatch_mission_upload_and_start = λ mission v. (none, v);
    now_ms = λ v. 5;
    now_ns = λ v. text "1";
  };
  to_string = λ n. text "1";
  zero = 0;
}

abbrev no_fleets : Text → Slot → Result Bool × Slot
no_fleets fleet_id s = (ok false, s)

abbrev stop_it : StopFleetMission
stop_it = record { request_id = text "r"; fleet_mission_id = the_id; action = stop_hold }

abbrev remove_it : RemoveFleetMission
remove_it = record { request_id = text "r"; fleet_mission_id = the_id }

abbrev done : CommandAck
done = record {
  command_id = text "fleet-mission-stop-m-drone-1";
  ward_id = text "drone";
  status = success;
  message = [];
}

-- A stop whose command succeeds, and the removal that follows.
stop_and_remove :
    (handle_events slots env no_fleets
      (stops stop_it ∷ reports_command done ∷ removes remove_it ∷ [])
      (world active mission_active)).store
    ≡ none
unfolding handle_events lookup text_eq insert erase find_ward_state is_stoppable handle_outcomes
stop_and_remove = refl

restart-stuck_example :
    holds_stopping
      (slot_view
        (handle_events slots env no_fleets
          (restarts ∷ stops stop_it ∷ reports_command done ∷ removes remove_it ∷ [])
          (world stopping mission_stopping)).store
        the_id)
      (text "drone")
    ≡ true
unfolding holds_stopping text_eq find_ward_state
restart-stuck_example =
    restart-stuck slots slot_view slots-IsMissionStore env no_fleets (λ fleet_id t j. refl) the_id
      (text "drone") (stops stop_it ∷ reports_command done ∷ removes remove_it ∷ [])
      (world stopping mission_stopping) refl

handle_remove-outcome_example :
    RemoveOutcome slots slot_view slots-IsMissionStore
      (slot_view (some (cow stopped, mission_stopped)))
      the_id
      (handle_remove_fleet_mission slots remove_it (world stopped mission_stopped))
handle_remove-outcome_example =
    handle_remove-outcome slots slot_view slots-IsMissionStore remove_it
      (world stopped mission_stopped)

abbrev pub stop_of_cow : PendingStop
stop_of_cow = record { fleet_mission_id = the_id; ward_id = text "drone" }

abbrev pub last_stop : FleetState Slot (Unit {0}) ℕ ℕ
last_stop = record (world stopping mission_stopping) {
  pending_stops = (text "fleet-mission-stop-m-drone-1", stop_of_cow) ∷ [];
}

handle_command_outcome-finishes_example :
    slot_view (handle_command_outcome slots done last_stop).store the_id
    ≡ some (record (mission_of (cow stopping, mission_stopping)) {
      ward_states =
          put_ward_state
            (record (cow stopping) { status = stopped; message = [] })
            (cow stopping ∷ []);
      status = mission_stopped;
    })
unfolding lookup text_eq find_ward_state
handle_command_outcome-finishes_example =
    handle_command_outcome-finishes slots slot_view slots-IsMissionStore slots-Reliable done
      stop_of_cow (cow stopping) (mission_of (cow stopping, mission_stopping)) last_stop refl refl
      refl refl refl (λ e. cc, tt)
