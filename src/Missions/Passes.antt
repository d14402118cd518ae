-- ===== src/Missions/Passes.antt =====
-- ward_mission.cpp, the members that state_mutex_ guards, and the operations on them.
use karshipta.Common.{
  ℕ, ◌-◌, Bool, true, false, not, ◌&&◌, ◌||◌, Option, none, ◌==◌, ltb, if◌then◌else◌, Text,
  is_empty,
}
use karshipta.Missions.Types.{Mission, MissionProgress, MissionResult}

pub record UploadResult : Type 0 where
  pub mission_id : Text
  pub result : MissionResult

pub record DownloadResult (D F : Type 0) : Type 0 where
  pub mission : Option (Mission D F)
  pub message : Text

pub record Passes (D F : Type 0) : Type 0 where
  pub passes_remaining : ℕ
  pub ends_with_return_to_launch : Bool
  pub interrupted : Bool
  pub pending_return_to_launch : Bool
  pub last_progress : MissionProgress
  pub pending_upload_result : Option UploadResult
  pub pending_download_result : Option (DownloadResult D F)

module _ {D F : Type 0} where
  -- The end of a pass: whether the mission is started again.
  unfoldable pub end_pass : Passes D F → Passes D F × Bool
  end_pass s =
      if s.interrupted
      then (s, false)
      else if ltb 0 s.passes_remaining
      then (record s { passes_remaining = s.passes_remaining - 1 }, true)
      else (
        record s {
          last_progress = record s.last_progress { finished = true };
          pending_return_to_launch = s.ends_with_return_to_launch || s.pending_return_to_launch;
        },
        false,
      )

  -- `handle_progress`, with `progress.current` and `progress.total`.
  unfoldable pub handle_progress : ℕ → ℕ → Passes D F → Passes D F × Bool
  unfolding end_pass
  handle_progress current total s =
      let seen : Passes D F = record s {
        last_progress = record s.last_progress { current_seq = current; total_items = total };
      } in
      if current == total then end_pass seen else (seen, false)

  unfoldable pub notify_interrupted : Passes D F → Bool × Passes D F
  notify_interrupted s =
      if not s.interrupted
        && not (is_empty s.last_progress.mission_id)
        && not s.last_progress.finished
      then (true, record s { interrupted = true })
      else (false, s)

  unfoldable pub take_pending_return_to_launch : Passes D F → Bool × Passes D F
  take_pending_return_to_launch s =
      (s.pending_return_to_launch, record s { pending_return_to_launch = false })

  unfoldable pub take_upload_result : Passes D F → Option UploadResult × Passes D F
  take_upload_result s = (s.pending_upload_result, record s { pending_upload_result = none })

  unfoldable pub take_download_result : Passes D F → Option (DownloadResult D F) × Passes D F
  take_download_result s = (s.pending_download_result, record s { pending_download_result = none })

  -- What the end of an upload sets, where it succeeded.
  unfoldable pub begin_mission : Mission D F → Bool → ℕ → Passes D F → Passes D F
  begin_mission mission ends_with_rtl total s = record s {
    passes_remaining = mission.repeat_count;
    ends_with_return_to_launch = ends_with_rtl;
    interrupted = false;
    last_progress = record {
      ward_id = mission.ward_id;
      mission_id = mission.mission_id;
      current_seq = 0;
      total_items = total;
      finished = false;
    };
  }
