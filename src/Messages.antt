-- ===== src/Messages.antt =====
-- The messages of proto/herald/v0/herald.proto and proto/karshipta/v1 that the modelled parts of the
-- gateway pass on. A submessage with presence is an `Option`; `D` is `double` and `F` is `float`.
use karshipta.Common.{ℕ, Bool, List, Option, Text}

-- The default value 0 of a floating point field.
pub record Numbers (D F : Type 0) : Type 0 where
  pub double_zero : D
  pub float_zero : F

pub record GeoPoint (D F : Type 0) : Type 0 where
  pub latitude_deg : D
  pub longitude_deg : D
  pub altitude_msl_m : F
  pub altitude_rel_m : F

pub record Velocity (F : Type 0) : Type 0 where
  pub north_m_s : F
  pub east_m_s : F
  pub down_m_s : F

pub record Battery (F : Type 0) : Type 0 where
  pub voltage_v : F
  pub remaining_pct : F

-- `herald.v0.Gps`
pub record HeraldGps (F : Type 0) : Type 0 where
  pub num_satellites : ℕ
  pub hdop : F

pub data EntityClass : Type 0 where
  unspecified multirotor fixed_wing vtol helicopter ground_vehicle livestock_tag generic_tracker :
      EntityClass

pub record Herald (D F : Type 0) : Type 0 where
  pub entity_id : Text
  pub timestamp_ms : ℕ
  pub entity_class : EntityClass
  pub position : Option (GeoPoint D F)
  pub velocity : Option (Velocity F)
  pub battery : Option (Battery F)
  pub gps : Option (HeraldGps F)
  pub health_ok : Bool
  pub source : Text
  pub tags : List Text
  pub org_id : Text

-- The `action` of a command; a `Disarm` carries `force`, and a `Takeoff` and an `Rtl` their altitude.
pub data CommandAction (D F : Type 0) : Type 0 where
  action_not_set arm land start_mission pause_mission : CommandAction D F
  disarm : Bool → CommandAction D F
  takeoff rtl : F → CommandAction D F
  goto : Option (GeoPoint D F) → F → CommandAction D F
  set_home : Option (GeoPoint D F) → CommandAction D F

pub record Command (D F : Type 0) : Type 0 where
  pub command_id : Text
  pub ward_id : Text
  pub timestamp_ms : ℕ
  pub action : CommandAction D F

pub data CommandStatus : Type 0 where
  accepted executing success rejected timeout : CommandStatus

pub record CommandAck : Type 0 where
  pub command_id : Text
  pub ward_id : Text
  pub status : CommandStatus
  pub message : Text

-- The enumeration is an open one: a message may hold a number that it has no name for
-- (here as an unsigned one).
pub data WardClass : Type 0 where
  class_unspecified class_multirotor class_fixed_wing class_vtol class_helicopter class_ground
        class_underwater class_surface_vessel class_livestock_tag class_generic_tracker :
      WardClass
  class_unrecognized : ℕ → WardClass

pub data WardOrigin : Type 0 where
  origin_unspecified origin_hardware origin_sitl origin_synthetic : WardOrigin

pub record WardInfo : Type 0 where
  pub ward_id : Text
  pub ward_class : WardClass
  pub autopilot : Text
  pub firmware_version : Text
  pub mavlink_system_id : ℕ
  pub origin : WardOrigin

-- Of `karshipta.v1.Gps`, without `fix_type`, which stays unspecified.
pub record WardGps (F : Type 0) : Type 0 where
  pub num_satellites : ℕ
  pub hdop : F

-- Without `heading_deg` and `flight`, which stay unset.
pub record WardState (D F : Type 0) : Type 0 where
  pub ward_id : Text
  pub timestamp_ms : ℕ
  pub ingestion_ms : ℕ
  pub position : GeoPoint D F
  pub velocity : Option (Velocity F)
  pub battery : Option (Battery F)
  pub gps : Option (WardGps F)
  pub health_ok : Bool
  pub connected : Bool
  pub tags : List Text

-- An event of the severity `WARNING`.
pub record Warning : Type 0 where
  pub ward_id : Text
  pub timestamp_ms : ℕ
  pub code : Text
  pub message : Text

pub data Envelope (D F : Type 0) : Type 0 where
  info_envelope : WardInfo → Envelope D F
  state_envelope : WardState D F → Envelope D F
  event_envelope : Warning → Envelope D F
