-- ===== src/Missions/Types.antt =====
-- Missions in the proto messages, and in MAVSDK's plugin (of which only what the source uses).
use karshipta.Common.{ℕ, Bool, List, Text}
use karshipta.Messages.{GeoPoint}

pub data MissionAction : Type 0 where
  unspecified waypoint takeoff land rtl hold : MissionAction

pub record MissionItem (D F : Type 0) : Type 0 where
  pub seq : ℕ
  pub action : MissionAction
  pub position : GeoPoint D F
  pub speed_m_s : F
  pub hold_time_s : F
  pub acceptance_radius_m : F

pub record Mission (D F : Type 0) : Type 0 where
  pub mission_id : Text
  pub ward_id : Text
  pub name : Text
  pub items : List (MissionItem D F)
  pub repeat_count : ℕ

pub record MissionProgress : Type 0 where
  pub ward_id : Text
  pub mission_id : Text
  pub current_seq : ℕ
  pub total_items : ℕ
  pub finished : Bool

pub data VehicleAction : Type 0 where
  no_action take_off landing transition_to_fw transition_to_mc : VehicleAction

-- `mavsdk::Mission::MissionItem`
pub record PlanItem (D F : Type 0) : Type 0 where
  pub latitude_deg : D
  pub longitude_deg : D
  pub relative_altitude_m : F
  pub speed_m_s : F
  pub loiter_time_s : F
  pub acceptance_radius_m : F
  pub vehicle_action : VehicleAction

-- `mavsdk::Mission::Result`; `other` is any further one, by its name.
pub data MissionResult : Type 0 where
  success invalid_argument no_system : MissionResult
  other : Text → MissionResult
