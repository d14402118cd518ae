-- ===== src/Missions/Plan.antt =====
-- ward_mission.cpp, `validate_mission`, `translate` and `translate_back`.
use karshipta.Common.{
  ℕ, ◌+◌, ◌%◌, ◌^◌, Bool, true, false, ◌||◌, List, [], ◌∷◌, Option, none, some, if◌then◌else◌, Text,
  text, is_empty,
}
use karshipta.Executor.Vehicle.{Float}
use karshipta.Missions.Types.{
  MissionAction, unspecified, waypoint, takeoff, land, rtl, hold, MissionItem, Mission,
  VehicleAction, no_action, take_off, landing, transition_to_fw, transition_to_mc, PlanItem,
}

unfoldable pub is_rtl : MissionAction → Bool
is_rtl rtl = true
is_rtl waypoint = false
is_rtl takeoff = false
is_rtl land = false
is_rtl hold = false
is_rtl unspecified = false

unfoldable pub to_vehicle_action : MissionAction → VehicleAction
to_vehicle_action takeoff = take_off
to_vehicle_action land = landing
to_vehicle_action rtl = no_action
to_vehicle_action waypoint = no_action
to_vehicle_action hold = no_action
to_vehicle_action unspecified = no_action

unfoldable pub to_mission_action : {F : Type 0} → Float F → VehicleAction → F → MissionAction
to_mission_action float take_off loiter_time_s = takeoff
to_mission_action float landing loiter_time_s = land
to_mission_action float no_action loiter_time_s =
    if float.above loiter_time_s float.zero then hold else waypoint
to_mission_action float transition_to_fw loiter_time_s = waypoint
to_mission_action float transition_to_mc loiter_time_s = waypoint

-- A field that a NaN leaves unset.
unfoldable pub set_unless_nan : {F : Type 0} → Float F → F → F
set_unless_nan float value = if float.is_nan value then float.zero else value

module _ {D F : Type 0} where
  -- An RTL item before the last one.
  unfoldable pub has_early_rtl : List (MissionItem D F) → Bool
  unfolding is_rtl
  has_early_rtl [] = false
  has_early_rtl (item ∷ []) = false
  has_early_rtl (item ∷ next ∷ items) = is_rtl item.action || has_early_rtl (next ∷ items)

  unfoldable pub no_items : List (MissionItem D F) → Bool
  no_items [] = true
  no_items (item ∷ items) = false

  unfoldable pub validate_mission : Mission D F → Option Text
  unfolding no_items has_early_rtl
  validate_mission mission =
      if is_empty mission.ward_id
      then some (text "mission has no ward_id")
      else if no_items mission.items
      then some (text "mission has no items")
      else if has_early_rtl mission.items
      then some (text "RTL item must be the last item in the mission")
      else none

  unfoldable pub ends_with_rtl : List (MissionItem D F) → Bool
  unfolding is_rtl
  ends_with_rtl [] = false
  ends_with_rtl (item ∷ []) = is_rtl item.action
  ends_with_rtl (item ∷ next ∷ items) = ends_with_rtl (next ∷ items)

  -- The items that are uploaded: without a final RTL.
  unfoldable pub uploaded_items : List (MissionItem D F) → List (MissionItem D F)
  unfolding is_rtl
  uploaded_items [] = []
  uploaded_items (item ∷ []) = if is_rtl item.action then [] else item ∷ []
  uploaded_items (item ∷ next ∷ items) = item ∷ uploaded_items (next ∷ items)

  module _ (float : Float F) where
    unfoldable pub translate_item : MissionItem D F → PlanItem D F
    unfolding to_vehicle_action
    translate_item item = record {
      latitude_deg = item.position.latitude_deg;
      longitude_deg = item.position.longitude_deg;
      relative_altitude_m = item.position.altitude_rel_m;
      speed_m_s = if float.above item.speed_m_s float.zero then item.speed_m_s else float.nan;
      loiter_time_s = item.hold_time_s;
      acceptance_radius_m = item.acceptance_radius_m;
      vehicle_action = to_vehicle_action item.action;
    }

    unfoldable pub translate_items : List (MissionItem D F) → List (PlanItem D F)
    translate_items [] = []
    translate_items (item ∷ items) = translate_item item ∷ translate_items items

    -- The plan, and whether the mission ends with an RTL item.
    unfoldable pub translate : Mission D F → List (PlanItem D F) × Bool
    unfolding uploaded_items translate_items ends_with_rtl
    translate mission =
        (translate_items (uploaded_items mission.items), ends_with_rtl mission.items)

    unfoldable pub translate_back_item : ℕ → PlanItem D F → MissionItem D F
    unfolding to_mission_action set_unless_nan
    translate_back_item seq raw = record {
      seq = seq;
      action = to_mission_action float raw.vehicle_action raw.loiter_time_s;
      position = record {
        latitude_deg = raw.latitude_deg;
        longitude_deg = raw.longitude_deg;
        altitude_msl_m = float.zero;
        altitude_rel_m = raw.relative_altitude_m;
      };
      speed_m_s = set_unless_nan float raw.speed_m_s;
      hold_time_s = set_unless_nan float raw.loiter_time_s;
      acceptance_radius_m = set_unless_nan float raw.acceptance_radius_m;
    }

    unfoldable pub translate_back_items : ℕ → List (PlanItem D F) → List (MissionItem D F)
    unfolding translate_back_item
    translate_back_items seq [] = []
    translate_back_items seq (raw ∷ plan) =
        translate_back_item seq raw ∷ translate_back_items ((seq + 1) % 2 ^ 32) plan

    -- The mission's other fields are left at their defaults.
    unfoldable pub translate_back : List (PlanItem D F) → Mission D F
    unfolding translate_back_items
    translate_back plan = record {
      mission_id = [];
      ward_id = [];
      name = [];
      items = translate_back_items 0 plan;
      repeat_count = 0;
    }
