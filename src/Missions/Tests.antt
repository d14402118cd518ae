-- ===== src/Missions/Tests.antt =====
-- Small missions, and the theorems at inputs that meet their hypotheses.
use karshipta.Common.{
  ℕ, ◌+◌, ◌-◌, ◌≡◌, ◌≢◌, ◌↔◌, refl, Bool, true, false, List, [], ◌∷◌, none, arith, ltb, leb, ◌==◌,
  if◌then◌else◌, text, is_empty,
}
use karshipta.Messages.{GeoPoint}
use karshipta.Executor.Vehicle.{Float}
use karshipta.Missions.Types.{
  MissionAction, takeoff, waypoint, hold, rtl, MissionItem, Mission, success, other,
}
use karshipta.Missions.Plan.{
  ends_with_rtl, uploaded_items, validate_mission, translate, translate_back, translate_item,
}
use karshipta.Missions.Passes.{Passes, notify_interrupted}
use karshipta.Missions.Validity.{has_rtl, validate_mission-accepts}
use karshipta.Missions.RoundTrip.{FloatLaws, kept_items, translate_back-translate}
use karshipta.Missions.Progress.{report_all, report_all-passes, notify_interrupted-stops}
use karshipta.Missions.Worker.{Autopilot, Missions, run_upload}
use karshipta.Missions.Flight.{run_upload-flies}

-- Numbers stand for the floating point values; 999 is the NaN.
abbrev naturals : Float ℕ
naturals = record {
  zero = 0;
  nan = 999;
  is_nan = λ a. a == 999;
  above = λ a b. if a == 999 then false else ltb b a;
  at_most = λ a b. if a == 999 then false else leb a b;
  add = λ a b. a + b;
  subtract = λ a b. a - b;
}

naturals-FloatLaws : FloatLaws naturals
naturals-FloatLaws = record { nan_is_nan = refl; above_zero = λ value e. ground arith }

abbrev here : GeoPoint ℕ ℕ
here = record { latitude_deg = 1; longitude_deg = 2; altitude_msl_m = 7; altitude_rel_m = 30 }

abbrev at_item : MissionAction → MissionItem ℕ ℕ
at_item action = record {
  seq = 5;
  action = action;
  position = here;
  speed_m_s = 0;
  hold_time_s = 0;
  acceptance_radius_m = 2;
}

abbrev patrol : Mission ℕ ℕ
patrol = record {
  mission_id = text "m";
  ward_id = text "w";
  name = text "patrol";
  items = at_item takeoff ∷ at_item hold ∷ at_item rtl ∷ [];
  repeat_count = 1;
}

abbrev idle : Passes ℕ ℕ
idle = record {
  passes_remaining = 0;
  ends_with_return_to_launch = false;
  interrupted = false;
  pending_return_to_launch = false;
  last_progress = record {
    ward_id = [];
    mission_id = [];
    current_seq = 0;
    total_items = 0;
    finished = false;
  };
  pending_upload_result = none;
  pending_download_result = none;
}

abbrev under_way : Passes ℕ ℕ
under_way = record idle {
  passes_remaining = 1;
  last_progress = record {
    ward_id = text "w";
    mission_id = text "m";
    current_seq = 0;
    total_items = 2;
    finished = false;
  };
}

-- The world says whether uploads succeed.
abbrev copter : Autopilot Bool ℕ ℕ
copter = record {
  ensure_mission = λ w. (true, w);
  download_mission = λ w. ((success, []), w);
  keep_position_after_mission = λ w. w;
  upload_mission = λ plan w. (if w then success else other (text "busy"), w);
  result_name = λ result. text "failed";
  now_text = λ w. text "0";
}

abbrev ready : Bool → Missions Bool ℕ ℕ
ready accepts = record {
  passes = idle;
  job_queue = [];
  stop_requested = false;
  ended = false;
  world = accepts;
}

abbrev two_passes : List (ℕ × ℕ)
two_passes = (1, 2) ∷ (2, 2) ∷ (0, 2) ∷ (2, 2) ∷ []

validate_mission-accepts_example :
    (validate_mission patrol ≡ none)
    ↔ (patrol.ward_id ≢ []) × (patrol.items ≢ []) × (has_rtl (uploaded_items patrol.items) ≡ false)
validate_mission-accepts_example = validate_mission-accepts patrol

translate_back-translate_example :
    (translate_back naturals (translate naturals patrol).0).items
    ≡ kept_items naturals 0 (uploaded_items patrol.items)
translate_back-translate_example =
    translate_back-translate naturals naturals-FloatLaws patrol (omega arith)

hold_becomes_waypoint :
    (translate_back naturals (translate naturals patrol).0).items
    ≡ record (at_item takeoff) { seq = 0; position = record here { altitude_msl_m = 0 } }
      ∷ record (at_item waypoint) { seq = 1; position = record here { altitude_msl_m = 0 } }
      ∷ []
unfolding translate_back translate translate_item
hold_becomes_waypoint = refl

report_all-passes_example :
    let end = report_all two_passes under_way in
    (end.1 ≡ 1)
    × (end.0.passes_remaining ≡ 0)
    × (end.0.last_progress.finished ≡ true)
    × (end.0.pending_return_to_launch ≡ false)
report_all-passes_example = report_all-passes two_passes under_way refl

notify_interrupted-stops_example :
    let end = report_all two_passes (notify_interrupted under_way).1 in
    (end.1 ≡ 0) × (end.0.last_progress.finished ≡ false) × (end.0.pending_return_to_launch ≡ false)
unfolding notify_interrupted is_empty
notify_interrupted-stops_example = notify_interrupted-stops two_passes under_way refl

run_upload-flies_example :
    let end = report_all two_passes (run_upload copter naturals patrol (ready true)).passes in
    (end.1 ≡ 1) × (end.0.last_progress.finished ≡ true) × (end.0.pending_return_to_launch ≡ true)
unfolding run_upload validate_mission ends_with_rtl is_empty
run_upload-flies_example = run_upload-flies copter naturals patrol (ready true) two_passes refl
