-- ===== src/WardManager/TestRouting.antt =====
-- Commands and ticks on one ward, and the theorems at inputs that exercise the code.
use karshipta.Common.{
  text_eq, ◌-◌, not, ◌+◌, ◌≡◌, ℕ, ◌&&◌, refl, [], ◌∷◌, none, some, true, false, text, ltb, leb,
  ◌==◌,
}
use karshipta.Messages.{Command, arm, class_multirotor}
use karshipta.Executor.Vehicle.{Float, Vehicle, succeeded}
use karshipta.Executor.Queue.{Executor}
use karshipta.Missions.Types.{success}
use karshipta.Missions.Passes.{Passes}
use karshipta.WardManager.Routing.{upload_observed, RoutedWard, Wards, dispatch_command}
use karshipta.WardManager.Routing.Answered.{Answered, dispatch_command-Answered}
use karshipta.WardManager.Publishing.{visit_ward, nothing_deferred, can_claim}
use karshipta.WardManager.Publishing.Claims.{Claims, told, is_start_due, visit_ward-Claims}

abbrev copter : Vehicle ℕ ℕ ℕ
copter = record {
  act = λ call now. (succeeded, now);
  await = λ call now. (none, now);
  notify_interrupted = λ now. now;
  now_ms = λ now. now;
  position = λ now. record { absolute_altitude_m = 50; relative_altitude_m = 10 };
  in_mission_mode = λ now. true;
}

abbrev naturals : Float ℕ
naturals = record {
  zero = 0;
  nan = 999;
  is_nan = λ a. a == 999;
  above = λ a b. ltb b a;
  at_most = leb;
  add = λ a b. a + b;
  subtract = λ a b. a - b;
}

abbrev waiting : Executor ℕ ℕ ℕ
waiting = record { queue = []; busy = none; stop_requested = false; ended = false; world = 0 }

-- The last pass has ended with a return to launch, and the upload of the next mission is done.
abbrev passes : Passes ℕ ℕ
passes = record {
  passes_remaining = 0;
  ends_with_return_to_launch = true;
  interrupted = false;
  pending_return_to_launch = true;
  last_progress = record {
    ward_id = text "w";
    mission_id = text "m";
    current_seq = 2;
    total_items = 2;
    finished = true;
  };
  pending_upload_result = some (record { mission_id = text "n"; result = success });
  pending_download_result = none;
}

abbrev ward : RoutedWard ℕ ℕ ℕ
ward = record {
  config = record {
    ward_id = text "w";
    connection_url = text "udp://:14540";
    system_id = 1;
    ward_class = class_multirotor;
    name = [];
  };
  mission = record {
    passes = passes;
    job_queue = [];
    stop_requested = false;
    ended = false;
    world = 0;
  };
  executor = some waiting;
  busy = false;
  pending_auto_start_mission_id = some (text "n");
  running = true;
}

abbrev arming : Command ℕ ℕ
arming = record { command_id = text "a"; ward_id = text "w"; timestamp_ms = 0; action = arm }

abbrev wards : Wards ℕ ℕ ℕ
wards = (text "w", ward) ∷ []

dispatch_command-Answered_example :
    Answered copter naturals arming wards (dispatch_command copter naturals arming wards)
dispatch_command-Answered_example = dispatch_command-Answered copter naturals arming wards

-- The start of the mission is lost, while its observer is told that the upload succeeded.
both_at_once :
    let d = (visit_ward (λ result. text "failed") ward nothing_deferred).1 in
    (d.pending_rtl ≡ text "w" ∷ [])
    × (d.pending_start ≡ [])
    × (d.observed ≡ upload_observed (text "w") (text "n") true [] ∷ [])
unfolding visit_ward text_eq
both_at_once = (refl, refl, refl)

visit_ward-Claims_example :
    let visited = visit_ward (λ result. text "failed") ward nothing_deferred in
    let returns = passes.pending_return_to_launch && can_claim ward in
    let due = is_start_due passes.pending_upload_result ward.pending_auto_start_mission_id in
    Claims returns (due && can_claim ward && not returns) (ward, nothing_deferred) visited
    × (visited.1.observed ≡ told (λ result. text "failed") (text "w") passes.pending_upload_result)
visit_ward-Claims_example = visit_ward-Claims (λ result. text "failed") ward nothing_deferred
