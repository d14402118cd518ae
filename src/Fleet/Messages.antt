-- ===== src/Fleet/Messages.antt =====
-- The messages of proto/karshipta/v1/fleet.proto about fleet missions.
use karshipta.Common.{ℕ, List, Text}
use karshipta.Missions.Types.{MissionItem}

pub data WardMissionStatus : Type 0 where
  unspecified uploading active rejected stopping stopped : WardMissionStatus

pub data FleetMissionStatus : Type 0 where
  mission_unspecified mission_active mission_stopping mission_stopped : FleetMissionStatus

pub record WardMissionPlan (D F : Type 0) : Type 0 where
  pub ward_id : Text
  pub items : List (MissionItem D F)

pub record WardMissionState : Type 0 where
  pub ward_id : Text
  pub status : WardMissionStatus
  pub message : Text
  pub mission_id : Text

pub record FleetMission (D F : Type 0) : Type 0 where
  pub fleet_mission_id : Text
  pub fleet_id : Text
  pub mission_name : Text
  pub repeat_count : ℕ
  pub ward_plans : List (WardMissionPlan D F)
  pub ward_states : List WardMissionState
  pub status : FleetMissionStatus
  pub created_at_ms : ℕ

pub record CreateFleetMission (D F : Type 0) : Type 0 where
  pub request_id : Text
  pub fleet_id : Text
  pub mission_name : Text
  pub ward_plans : List (WardMissionPlan D F)
  pub repeat_count : ℕ

pub data StopAction : Type 0 where
  stop_unspecified stop_rtl stop_hold stop_land : StopAction

pub record StopFleetMission : Type 0 where
  pub request_id : Text
  pub fleet_mission_id : Text
  pub action : StopAction

pub record RemoveFleetMission : Type 0 where
  pub request_id : Text
  pub fleet_mission_id : Text

pub record UpdateFleetMissionRoutes (D F : Type 0) : Type 0 where
  pub request_id : Text
  pub fleet_mission_id : Text
  pub mission_name : Text
  pub ward_plans : List (WardMissionPlan D F)
  pub repeat_count : ℕ

pub data AckStatus : Type 0 where
  ack_accepted ack_rejected : AckStatus

pub record FleetMissionAck : Type 0 where
  pub request_id : Text
  pub fleet_mission_id : Text
  pub status : AckStatus
  pub message : Text
