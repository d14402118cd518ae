-- ===== src/WardManager/Publishing.antt =====
-- ward_manager.cpp, one tick of the publish loop. Frames stand for what is in them.
pub mod Claims
use karshipta.Common.{
  none, not, true, is_empty, some, false, ◌&&◌, if◌then◌else◌, ◌++◌, List, Bool, Option, ℕ, Text,
  text, lookup, insert, ◌∷◌, [], text_eq, is_some,
}
use karshipta.Messages.{Command, rtl, start_mission}
use karshipta.Executor.Vehicle.{Vehicle, Float}
use karshipta.Executor.Queue.{Executor}
use karshipta.Missions.Worker.{Missions, is_success}
use karshipta.Missions.Types.{Mission, MissionResult}
use karshipta.Missions.Passes.{
  UploadResult, DownloadResult, Passes, take_pending_return_to_launch, take_upload_result,
  take_download_result,
}
use karshipta.WardManager.Types.{ManagedWard}
use karshipta.WardManager.Sections.{clear_busy}
use karshipta.WardManager.Routing.{
  RoutedWard, Notice, Wards, state_frame, progress_frame, mission_downloaded, upload_observed,
  warning, enqueue_claimed, broadcast_mission_event,
}

-- What the visits of a tick put off until no lock is held, and the notices of the observer on the way.
pub record Deferred (D F : Type 0) : Type 0 where
  pub frames : List (Notice D F)
  pub pending_rtl : List Text
  pub pending_start : List Text
  pub mission_broadcasts : List (Notice D F)
  pub observed : List (Notice D F)

abbrev pub nothing_deferred : {D F : Type 0} → Deferred D F
nothing_deferred = record {
  frames = [];
  pending_rtl = [];
  pending_start = [];
  mission_broadcasts = [];
  observed = [];
}

unfoldable pub armed_with : Option Text → Text → Bool
armed_with none mission_id = false
armed_with (some armed) mission_id = text_eq armed mission_id

unfoldable pub downloaded_notice :
    {D F : Type 0} → Text → Option (Mission D F) → Text → List (Notice D F)
unfolding broadcast_mission_event
downloaded_notice id none message =
    broadcast_mission_event id (text "MISSION_DOWNLOAD_REJECTED") message
downloaded_notice id (some mission) message = mission_downloaded mission ∷ []

module _ {W D F : Type 0} where
  unfoldable pub with_passes : Passes D F → RoutedWard W D F → RoutedWard W D F
  with_passes passes ward = record ward { mission = record ward.mission { passes = passes } }

  -- The ward has an executor that no other thread holds.
  unfoldable pub can_claim : RoutedWard W D F → Bool
  can_claim ward = is_some ward.executor && not ward.busy

  unfoldable pub publish_frames : RoutedWard W D F → Deferred D F → Deferred D F
  publish_frames ward d =
      let id = ward.config.ward_id in
      let progress = ward.mission.passes.last_progress in
      record d {
        frames =
            d.frames
            ++ state_frame id
              ∷ (if is_empty progress.mission_id then [] else progress_frame progress ∷ []);
      }

  -- A return to launch that cannot be claimed is lost.
  unfoldable pub claim_rtl :
      Bool × Passes D F → RoutedWard W D F × Deferred D F → RoutedWard W D F × Deferred D F
  unfolding with_passes can_claim
  claim_rtl (pending, passes) (ward, d) =
      let taken = with_passes passes ward in
      if pending && can_claim ward
      then (
        record taken { busy = true },
        record d { pending_rtl = d.pending_rtl ++ ward.config.ward_id ∷ [] },
      )
      else (taken, d)

  unfoldable pub disarm_auto_start : Bool → RoutedWard W D F → RoutedWard W D F
  disarm_auto_start auto_start ward =
      if auto_start then record ward { pending_auto_start_mission_id = none } else ward

  unfoldable pub claim_start :
      Bool → RoutedWard W D F × Deferred D F → RoutedWard W D F × Deferred D F
  unfolding can_claim
  claim_start wanted (ward, d) =
      if wanted && can_claim ward
      then (
        record ward { busy = true },
        record d { pending_start = d.pending_start ++ ward.config.ward_id ∷ [] },
      )
      else (ward, d)

  unfoldable pub report_upload :
      (MissionResult → Text)
      → UploadResult
      → RoutedWard W D F × Deferred D F
      → RoutedWard W D F × Deferred D F
  unfolding is_success broadcast_mission_event
  report_upload result_name result (ward, d) =
      let id = ward.config.ward_id in
      let succeeded = is_success result.result in
      let name = result_name result.result in
      (
        ward,
        record d {
          mission_broadcasts =
              d.mission_broadcasts
              ++ (if succeeded
                  then []
                  else broadcast_mission_event id (text "MISSION_UPLOAD_REJECTED") name);
          observed =
              d.observed
              ++ upload_observed id result.mission_id succeeded (if succeeded then [] else name)
                ∷ [];
        },
      )

  unfoldable pub handle_upload_result :
      (MissionResult → Text)
      → Option UploadResult × Passes D F
      → RoutedWard W D F × Deferred D F
      → RoutedWard W D F × Deferred D F
  unfolding with_passes armed_with disarm_auto_start claim_start report_upload is_success
  handle_upload_result result_name (none, passes) (ward, d) = (with_passes passes ward, d)
  handle_upload_result result_name (some result, passes) (ward, d) =
      let auto_start = armed_with ward.pending_auto_start_mission_id result.mission_id in
      report_upload result_name result (
        claim_start (is_success result.result && auto_start)
          (disarm_auto_start auto_start (with_passes passes ward), d))

  unfoldable pub handle_download_result :
      Option (DownloadResult D F) × Passes D F
      → RoutedWard W D F × Deferred D F
      → RoutedWard W D F × Deferred D F
  unfolding with_passes downloaded_notice
  handle_download_result (none, passes) (ward, d) = (with_passes passes ward, d)
  handle_download_result (some result, passes) (ward, d) = (
    with_passes passes ward,
    record d {
      mission_broadcasts =
          d.mission_broadcasts
          ++ downloaded_notice ward.config.ward_id result.mission result.message;
    },
  )

  unfoldable pub visit_ward :
      (MissionResult → Text) → RoutedWard W D F → Deferred D F → RoutedWard W D F × Deferred D F
  unfolding publish_frames claim_rtl take_pending_return_to_launch handle_upload_result
      take_upload_result handle_download_result take_download_result
  visit_ward result_name ward d =
      let returned =
        claim_rtl (take_pending_return_to_launch ward.mission.passes)
          (ward, publish_frames ward d) in
      let uploaded =
        handle_upload_result result_name (take_upload_result returned.0.mission.passes) returned in
      handle_download_result (take_download_result uploaded.0.mission.passes) uploaded

  unfoldable pub visit_wards :
      (MissionResult → Text) → Wards W D F → Deferred D F → Wards W D F × Deferred D F
  unfolding visit_ward
  visit_wards result_name [] d = ([], d)
  visit_wards result_name ((id, ward) ∷ rest) d =
      let now = visit_ward result_name ward d in
      let later = visit_wards result_name rest now.1 in ((id, now.0) ∷ later.0, later.1)

module _ {W D F : Type 0} (vehicle : Vehicle W D F) (float : Float F) where
  unfoldable pub enqueue_found :
      Command D F → Option (RoutedWard W D F) → Wards W D F → Wards W D F × List (Notice D F)
  unfolding enqueue_claimed
  enqueue_found command none wards = (wards, [])
  enqueue_found command (some ward) wards =
      enqueue_claimed vehicle float command command.ward_id ward wards

  -- The deferred commands; `make` is the command for a ward.
  unfoldable pub enqueue_each :
      (Text → Command D F) → List Text → Wards W D F → Wards W D F × List (Notice D F)
  unfolding enqueue_found lookup
  enqueue_each make [] wards = (wards, [])
  enqueue_each make (id ∷ ids) wards =
      let command = make id in
      let now = enqueue_found command (lookup command.ward_id wards) wards in
      let later = enqueue_each make ids now.0 in (later.0, now.1 ++ later.1)

  -- `stamp` is the system clock's time, and `show` its text.
  unfoldable pub rtl_command : ℕ → Text → Text → Command D F
  rtl_command stamp show id = record {
    command_id = text "gateway-mission-rtl-" ++ id ++ text "-" ++ show;
    ward_id = id;
    timestamp_ms = stamp;
    action = rtl float.zero;
  }

  unfoldable pub start_command : ℕ → Text → Text → Command D F
  start_command stamp show id = record {
    command_id = text "gateway-fleet-mission-start-" ++ id ++ text "-" ++ show;
    ward_id = id;
    timestamp_ms = stamp;
    action = start_mission;
  }

  unfoldable pub publish_tick :
      (MissionResult → Text) → ℕ → Text → Wards W D F → Wards W D F × List (Notice D F)
  unfolding visit_wards enqueue_each rtl_command start_command
  publish_tick result_name stamp show wards =
      let visited = visit_wards result_name wards nothing_deferred in
      let returned = enqueue_each (rtl_command stamp show) visited.1.pending_rtl visited.0 in
      let started = enqueue_each (start_command stamp show) visited.1.pending_start returned.0 in
      (
        started.0,
        visited.1.observed ++ visited.1.frames ++ returned.1 ++ started.1
            ++ visited.1.mission_broadcasts,
      )
