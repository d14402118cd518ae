-- ===== src/Fleet/Missions.antt =====
-- fleet_manager.cpp, the handlers of fleet missions. The store is used through its interface. The ward
-- manager and the clocks are the rest of the world, `V`; it may answer a command at once, which calls
-- handle_command_outcome before dispatch_command returns.
use karshipta.Common.{
  ℕ, Bool, true, false, ◌&&◌, List, [], ◌∷◌, ◌++◌, Option, none, some, if◌then◌else◌, Text,
}
use karshipta.Messages.{Command, CommandAck}
use karshipta.Missions.Types.{Mission}
use karshipta.Fleet.Messages.{
  WardMissionStatus, unspecified, uploading, active, stopping, stopped, FleetMissionStatus,
  mission_unspecified, mission_active, mission_stopping, mission_stopped, WardMissionState,
  FleetMission,
}
use karshipta.Fleet.Effects.{Result, ok, ◌>>=◌, ◌>>◌, pure}
use karshipta.Fleet.MissionStore.{MissionStore}

pub record PendingStop : Type 0 where
  pub fleet_mission_id : Text
  pub ward_id : Text

-- What the fleet manager uses of the ward manager, and the clocks. `dispatch_command` also gives the
-- outcomes that it reports before it returns.
pub record Wards (V D F : Type 0) : Type 0 where
  pub dispatch_command : Command D F → V → List CommandAck × V
  pub dispatch_mission_upload_and_start : Mission D F → V → Option Text × V
  pub now_ms : V → ℕ
  pub now_ns : V → Text

pub record FleetState (S V D F : Type 0) : Type 0 where
  pub store : S
  pub wards : V
  pub pending_stops : List (Text × PendingStop)
  pub broadcasts : List (FleetMission D F)

unfoldable pub is_settled : WardMissionStatus → Bool
is_settled stopped = true
is_settled WardMissionStatus.rejected = true
is_settled unspecified = false
is_settled uploading = false
is_settled active = false
is_settled stopping = false

unfoldable pub is_stopping : WardMissionStatus → Bool
is_stopping stopping = true
is_stopping unspecified = false
is_stopping uploading = false
is_stopping active = false
is_stopping WardMissionStatus.rejected = false
is_stopping stopped = false

unfoldable pub every_ward_settled : List WardMissionState → Bool
unfolding is_settled
every_ward_settled [] = true
every_ward_settled (state ∷ states) = is_settled state.status && every_ward_settled states

unfoldable pub is_mission_stopping : FleetMissionStatus → Bool
is_mission_stopping mission_stopping = true
is_mission_stopping mission_unspecified = false
is_mission_stopping mission_active = false
is_mission_stopping mission_stopped = false

module _ {S V D F : Type 0} (store : MissionStore S D F) where
  -- An operation of the store.
  abbrev pub on_store :
      {A : Type 0} → (S → Result A × S) → FleetState S V D F → Result A × FleetState S V D F
  on_store op s = let answer = op s.store in (answer.0, record s { store = answer.1 })

  abbrev pub get_mission :
      Text → FleetState S V D F → Result (Option (FleetMission D F)) × FleetState S V D F
  get_mission id = on_store (store.get_fleet_mission id)

  -- `broadcast_fleet_mission`, where there is a mission.
  abbrev pub broadcast_if :
      Option (FleetMission D F) → FleetState S V D F → Result (Unit {0}) × FleetState S V D F
  broadcast_if none s = (ok tt, s)
  broadcast_if (some mission) s = (ok tt, record s { broadcasts = s.broadcasts ++ mission ∷ [] })

  abbrev pub broadcast_updated : Text → FleetState S V D F → Result (Unit {0}) × FleetState S V D F
  broadcast_updated id = do updated ← get_mission id; broadcast_if updated

  -- `maybe_finalize_stop`, once the mission is read.
  unfoldable pub finalize :
      Text → Option (FleetMission D F) → FleetState S V D F → Result (Unit {0}) × FleetState S V D F
  unfolding is_mission_stopping every_ward_settled
  finalize id none s = (ok tt, s)
  finalize id (some mission) s =
      if is_mission_stopping mission.status && every_ward_settled mission.ward_states
      then (on_store (store.set_status id mission_stopped) >> pure tt) s
      else (ok tt, s)

  unfoldable pub maybe_finalize_stop :
      Text → FleetState S V D F → Result (Unit {0}) × FleetState S V D F
  unfolding finalize
  maybe_finalize_stop id = do mission ← get_mission id; finalize id mission
