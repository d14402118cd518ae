-- ===== src/Missions/Worker.antt =====
-- ward_mission.cpp, the jobs and the worker. The mission plugin is MAVSDK's, so its answers are those of
-- an autopilot `W` that the model is given.
use karshipta.Common.{
  Bool, true, false, List, [], ◌∷◌, ◌++◌, none, some, if◌then◌else◌, Text, text, is_empty, length,
}
use karshipta.Executor.Vehicle.{Float}
use karshipta.Missions.Types.{
  Mission, PlanItem, MissionResult, success, invalid_argument, no_system, other,
}
use karshipta.Missions.Plan.{validate_mission, translate, translate_back}
use karshipta.Missions.Passes.{DownloadResult, Passes, begin_mission}

-- `ensure_mission`, `download_mission`, `set_return_to_launch_after_mission(false)`, `upload_mission`,
-- the texts of results and the system clock's as text.
pub record Autopilot (W D F : Type 0) : Type 0 where
  pub ensure_mission : W → Bool × W
  pub download_mission : W → (MissionResult × List (PlanItem D F)) × W
  pub keep_position_after_mission : W → W
  pub upload_mission : List (PlanItem D F) → W → MissionResult × W
  pub result_name : MissionResult → Text
  pub now_text : W → Text

pub data Job (D F : Type 0) : Type 0 where
  download : Job D F
  upload : Mission D F → Job D F

pub record Missions (W D F : Type 0) : Type 0 where
  pub passes : Passes D F
  pub job_queue : List (Job D F)
  pub stop_requested : Bool
  pub ended : Bool
  pub world : W

unfoldable pub is_success : MissionResult → Bool
is_success success = true
is_success invalid_argument = false
is_success no_system = false
is_success (other name) = false

module _ {W D F : Type 0} where
  unfoldable pub enqueue_upload : Mission D F → Missions W D F → Missions W D F
  enqueue_upload mission s = record s { job_queue = s.job_queue ++ upload mission ∷ [] }

  unfoldable pub enqueue_download : Missions W D F → Missions W D F
  enqueue_download s = record s { job_queue = s.job_queue ++ download ∷ [] }

  module _ (autopilot : Autopilot W D F) (float : Float F) where
    downloaded : DownloadResult D F → Missions W D F → W → Missions W D F
    downloaded result s w = record s {
      passes = record s.passes { pending_download_result = some result };
      world = w;
    }

    received : MissionResult → List (PlanItem D F) → Missions W D F → W → Missions W D F
    unfolding downloaded is_success
    received result plan s w =
        if is_success result
        then downloaded
            (record {
              mission = some (record (translate_back float plan) {
                mission_id =
                    if is_empty s.passes.last_progress.mission_id
                    then text "downloaded-" ++ autopilot.now_text w
                    else s.passes.last_progress.mission_id;
              });
              message = [];
            })
            s w
        else downloaded (record { mission = none; message = autopilot.result_name result }) s w

    pub run_download : Missions W D F → Missions W D F
    unfolding downloaded received
    run_download s =
        let ready = autopilot.ensure_mission s.world in
        let answer = autopilot.download_mission ready.1 in
        if ready.0
        then received answer.0.0 answer.0.1 s answer.1
        else downloaded
            (record {
              mission = none;
              message = text "mission download failed: mission plugin not available";
            })
            s ready.1

    -- The result of an upload, and the plan.
    pub upload_plan : Mission D F → W → (MissionResult × List (PlanItem D F)) × W
    upload_plan mission w = elim (validate_mission mission) [
      | some rejection ↦ ((invalid_argument, []), w)
      | none ↦
          let ready = autopilot.ensure_mission w in
          let plan = (translate float mission).0 in
          let sent =
            autopilot.upload_mission plan (autopilot.keep_position_after_mission ready.1) in
          if ready.0 then ((sent.0, plan), sent.1) else ((no_system, []), ready.1)
    ]

    unfoldable pub run_upload : Mission D F → Missions W D F → Missions W D F
    unfolding upload_plan is_success
    run_upload mission s =
        let sent = upload_plan mission s.world in
        let begun =
          if is_success sent.0.0
          then begin_mission mission (translate float mission).1 (length sent.0.1) s.passes
          else s.passes in
        record s {
          passes = record begun {
            pending_upload_result =
                some (record { mission_id = mission.mission_id; result = sent.0.0 });
          };
          world = sent.1;
        }

    pub run_job : Job D F → Missions W D F → Missions W D F
    unfolding run_download run_upload
    run_job download s = run_download s
    run_job (upload mission) s = run_upload mission s

    -- One turn of the worker: it waits, ends, or runs the first job.
    unfoldable pub turn : Missions W D F → List (Job D F) → Missions W D F
    unfolding run_job
    turn s [] = if s.stop_requested then record s { ended = true } else s
    turn s (job ∷ jobs) =
        if s.stop_requested
        then record s { ended = true; job_queue = [] }
        else run_job job (record s { job_queue = jobs })
