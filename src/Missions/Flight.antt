-- ===== src/Missions/Flight.antt =====
-- A mission from its upload to its end.
use karshipta.Common.{ℕ, ◌≡◌, false, ◌||◌, ◌&&◌, List, some, arith, ltb}
use karshipta.Executor.Vehicle.{Float}
use karshipta.Missions.Types.{Mission, MissionResult, success}
use karshipta.Missions.Plan.{ends_with_rtl, translate}
use karshipta.Missions.Passes.{begin_mission}
use karshipta.Missions.Worker.{Autopilot, Missions, run_upload, is_success}
use karshipta.Missions.Progress.{passes_ended, report_all, min, report_all-passes}

module _ {W D F : Type 0} (autopilot : Autopilot W D F) (float : Float F) where
  begun :
      (mission : Mission D F) (s : Missions W D F)
      → (run_upload autopilot float mission s).passes.pending_upload_result
        ≡ some (record { mission_id = mission.mission_id; result = success })
      → let passes = (run_upload autopilot float mission s).passes in
        (passes.passes_remaining ≡ mission.repeat_count)
        × (passes.ends_with_return_to_launch ≡ ends_with_rtl mission.items)
        × (passes.interrupted ≡ false)
        × (passes.last_progress.finished ≡ false)
        × (passes.pending_return_to_launch ≡ s.passes.pending_return_to_launch)
  unfolding run_upload begin_mission translate is_success
  begun mission s e = ground arith

  -- A mission whose upload is reported as a success is flown `repeat_count` times more: for the
  -- reports that follow, if nothing interrupts it, it is started again once for each pass that ends, at
  -- most `repeat_count` times, it is finished exactly when one more pass has ended, and then a return to
  -- launch is due if its last item is RTL. (Or one was due before the upload.)
  pub run_upload-flies :
      (mission : Mission D F) (s : Missions W D F) (reports : List (ℕ × ℕ))
      → (run_upload autopilot float mission s).passes.pending_upload_result
        ≡ some (record { mission_id = mission.mission_id; result = success })
      → let end = report_all reports (run_upload autopilot float mission s).passes in
        let over = ltb mission.repeat_count (passes_ended reports) in
        (end.1 ≡ min mission.repeat_count (passes_ended reports))
        × (end.0.last_progress.finished ≡ over)
        × (end.0.pending_return_to_launch
            ≡ ((over && ends_with_rtl mission.items) || s.passes.pending_return_to_launch))
  run_upload-flies mission s reports e =
      let facts = begun mission s e in
      let flown = report_all-passes reports (run_upload autopilot float mission s).passes facts.2 in
      ground arith

  -- An upload that is not reported as a success changes nothing of the mission under way.
  pub run_upload-fails :
      (mission : Mission D F) (s : Missions W D F) (result : MissionResult)
      → (run_upload autopilot float mission s).passes.pending_upload_result
        ≡ some (record { mission_id = mission.mission_id; result = result })
      → is_success result ≡ false
      → (run_upload autopilot float mission s).passes ≡ record s.passes {
        pending_upload_result = some (record { mission_id = mission.mission_id; result = result });
      }
  unfolding run_upload is_success
  run_upload-fails mission s result e f = ground arith
