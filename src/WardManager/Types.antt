-- ===== src/WardManager/Types.antt =====
-- ward_manager.h: the configuration of a ward, and a managed ward. `E` stands for executors, `M` for
-- missions.
use karshipta.Common.{ℕ, Bool, Option, Text}
use karshipta.Messages.{WardClass}

pub record WardConfig : Type 0 where
  pub ward_id : Text
  pub connection_url : Text
  pub system_id : ℕ
  pub ward_class : WardClass
  pub name : Text

-- `running` says that `reconnect_worker` is joinable. The objects of the autopilot are elsewhere.
pub record ManagedWard (E M : Type 0) : Type 0 where
  pub config : WardConfig
  pub mission : M
  pub executor : Option E
  pub busy : Bool
  pub pending_auto_start_mission_id : Option Text
  pub running : Bool
