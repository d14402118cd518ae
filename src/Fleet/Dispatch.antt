-- ===== src/Fleet/Dispatch.antt =====
-- fleet_manager.cpp, what the requests share: the acks, the surroundings, and the upload of the routes.
use karshipta.Fleet.Missions.{on_store, FleetState, Wards}
use karshipta.Common.{ℕ, Bool, true, false, List, [], ◌∷◌, ◌++◌, Option, none, some, Text, text}
use karshipta.Missions.Types.{Mission}
use karshipta.Fleet.Messages.{
  uploading, rejected, WardMissionPlan, WardMissionState, AckStatus, ack_rejected, FleetMissionAck,
}
use karshipta.Fleet.Effects.{Result, ◌>>◌, pure}
use karshipta.Fleet.MissionStore.{MissionStore}

unfoldable pub fleet_mission_ack : Text → Text → AckStatus → Text → FleetMissionAck
fleet_mission_ack request_id id status message = record {
  request_id = request_id;
  fleet_mission_id = id;
  status = status;
  message = message;
}

unfoldable pub internal_error : Text → Text → Text → FleetMissionAck
unfolding fleet_mission_ack
internal_error request_id id error =
    fleet_mission_ack request_id id ack_rejected (text "internal error: " ++ error)

-- `std::to_string` is a parameter.
pub record Environment (V D F : Type 0) : Type 0 where
  pub wards : Wards V D F
  pub to_string : ℕ → Text
  pub zero : F

unfoldable pub is_nil : {A : Type 0} → List A → Bool
is_nil [] = true
is_nil (a ∷ rest) = false

module _ {S V D F : Type 0} (store : MissionStore S D F) (env : Environment V D F) where
  unfoldable pub synthesize_ward_mission_id : Text → Text → FleetState S V D F → Text
  synthesize_ward_mission_id id ward_id s =
      id ++ text "-" ++ ward_id ++ text "-" ++ env.wards.now_ns s.wards

  unfoldable pub ward_mission :
      Text → Text → ℕ → WardMissionPlan D F → FleetState S V D F → Mission D F
  unfolding synthesize_ward_mission_id
  ward_mission id mission_name repeat_count plan s = record {
    mission_id = synthesize_ward_mission_id id plan.ward_id s;
    ward_id = plan.ward_id;
    name = mission_name;
    items = plan.items;
    repeat_count = repeat_count;
  }

  unfoldable pub dispatched_state : Mission D F → Option Text → WardMissionState
  dispatched_state mission none = record {
    ward_id = mission.ward_id;
    status = uploading;
    message = [];
    mission_id = mission.mission_id;
  }
  dispatched_state mission (some rejection) = record {
    ward_id = mission.ward_id;
    status = rejected;
    message = rejection;
    mission_id = mission.mission_id;
  }

  -- The upload to one ward, and its state.
  unfoldable pub dispatch_plan :
      Text
      → Text
      → ℕ
      → WardMissionPlan D F
      → FleetState S V D F
      → Result (Option Text) × FleetState S V D F
  unfolding ward_mission dispatched_state
  dispatch_plan id mission_name repeat_count plan s =
      let mission = ward_mission id mission_name repeat_count plan s in
      let answer = env.wards.dispatch_mission_upload_and_start mission s.wards in
      on_store store (store.update_ward_state id (dispatched_state mission answer.0))
        (record s { wards = answer.1 })

  unfoldable pub dispatch_plans :
      Text
      → Text
      → ℕ
      → List (WardMissionPlan D F)
      → FleetState S V D F
      → Result (Unit {0}) × FleetState S V D F
  dispatch_plans id mission_name repeat_count [] = pure tt
  dispatch_plans id mission_name repeat_count (plan ∷ plans) =
      dispatch_plan id mission_name repeat_count plan
      >> dispatch_plans id mission_name repeat_count plans
