-- ===== src/WardManager/Routing.antt =====
-- ward_manager.cpp, the commands and the missions of clients on their way to a ward. The observer of
-- command outcomes is taken to be set.
pub mod Answered
use karshipta.Common.{
  false, none, true, some, ◌++◌, if◌then◌else◌, List, Option, Bool, Text, text, lookup, insert, ◌∷◌,
  [],
}
use karshipta.Messages.{Command, CommandAck, rejected, CommandStatus}
use karshipta.Executor.Vehicle.{Vehicle, Float}
use karshipta.Executor.Queue.{Executor, Sent, from_caller, from_worker, ack, enqueue}
use karshipta.Missions.Types.{Mission, MissionProgress}
use karshipta.Missions.Worker.{Missions, enqueue_upload, enqueue_download}
use karshipta.WardManager.Types.{ManagedWard}
use karshipta.WardManager.Sections.{claim, clear_busy}

-- What goes out: envelopes that are broadcast, and calls of the two observers. `warning` is an event of
-- a ward with a code and a message.
pub data Notice (D F : Type 0) : Type 0 where
  command_acked command_observed : CommandAck → Notice D F
  warning : Text → Text → Text → Notice D F
  mission_downloaded : Mission D F → Notice D F
  state_frame : Text → Notice D F
  progress_frame : MissionProgress → Notice D F
  upload_observed : Text → Text → Bool → Text → Notice D F

unfoldable pub is_rejected : CommandStatus → Bool
is_rejected rejected = true
is_rejected status = false

unfoldable pub sent_ack : Sent → CommandAck
sent_ack (from_caller a) = a
sent_ack (from_worker a) = a

abbrev pub RoutedWard : Type 0 → Type 0 → Type 0 → Type 0
RoutedWard W D F = ManagedWard (Executor W D F) (Missions W D F)

abbrev pub Wards : Type 0 → Type 0 → Type 0 → Type 0
Wards W D F = List (Text × RoutedWard W D F)

module _ {D F : Type 0} where
  unfoldable pub broadcast_command_ack : CommandAck → List (Notice D F)
  broadcast_command_ack a = command_acked a ∷ command_observed a ∷ []

  unfoldable pub broadcast_rejection_event : CommandAck → List (Notice D F)
  broadcast_rejection_event a = warning a.ward_id (text "COMMAND_REJECTED") a.message ∷ []

  unfoldable pub broadcast_mission_event : Text → Text → Text → List (Notice D F)
  broadcast_mission_event id code message = warning id code message ∷ []

  -- The callback that `make_executor` gives to an executor.
  unfoldable pub on_ack : CommandAck → List (Notice D F)
  unfolding is_rejected broadcast_rejection_event
  on_ack a =
      command_acked a
      ∷ ((if is_rejected a.status then broadcast_rejection_event a else [])
          ++ command_observed a ∷ [])

  unfoldable pub on_acks : List Sent → List (Notice D F)
  unfolding on_ack sent_ack
  on_acks [] = []
  on_acks (sent ∷ rest) = on_ack (sent_ack sent) ++ on_acks rest

  unfoldable pub make_rejected_ack : Command D F → Text → CommandAck
  unfolding ack
  make_rejected_ack command reason = ack command rejected reason

module _ {W D F : Type 0} (vehicle : Vehicle W D F) (float : Float F) where
  unfoldable pub enqueue_with :
      Command D F → Option (Executor W D F) → Option (Executor W D F) × List Sent
  unfolding enqueue
  enqueue_with command none = (none, [])
  enqueue_with command (some executor) =
      let queued = enqueue vehicle float command executor in (some queued.0, queued.1)

  -- The enqueueing of a thread that has claimed the ward, and its `clear_busy`.
  unfoldable pub enqueue_claimed :
      Command D F → Text → RoutedWard W D F → Wards W D F → Wards W D F × List (Notice D F)
  unfolding enqueue_with clear_busy insert on_acks
  enqueue_claimed command id ward wards =
      let queued = enqueue_with command ward.executor in
      (insert id (clear_busy (record ward { executor = queued.0 })) wards, on_acks queued.1)

  unfoldable pub dispatch_claimed :
      Command D F → Option Text × RoutedWard W D F → Wards W D F → Wards W D F × List (Notice D F)
  unfolding enqueue_claimed broadcast_command_ack make_rejected_ack
  dispatch_claimed command (some reason, ward) wards =
      (wards, broadcast_command_ack (make_rejected_ack command reason))
  dispatch_claimed command (none, ward) wards = enqueue_claimed command command.ward_id ward wards

  unfoldable pub dispatch_found :
      Command D F → Option (RoutedWard W D F) → Wards W D F → Wards W D F × List (Notice D F)
  unfolding dispatch_claimed claim broadcast_command_ack make_rejected_ack
  dispatch_found command none wards = (
    wards,
    broadcast_command_ack (make_rejected_ack command (text "unknown ward_id: " ++ command.ward_id)),
  )
  dispatch_found command (some ward) wards = dispatch_claimed command (claim ward) wards

  unfoldable pub dispatch_command : Command D F → Wards W D F → Wards W D F × List (Notice D F)
  unfolding dispatch_found lookup
  dispatch_command command wards = dispatch_found command (lookup command.ward_id wards) wards

module _ {W D F : Type 0} where
  -- `code` is that of a rejection; `serve` what a thread does that has claimed the ward. The reason of a
  -- rejection is given too.
  unfoldable pub request_claimed :
      Text
      → Text
      → (RoutedWard W D F → RoutedWard W D F × List (Notice D F))
      → Option Text × RoutedWard W D F
      → Wards W D F
      → Option Text × Wards W D F × List (Notice D F)
  unfolding clear_busy insert broadcast_mission_event
  request_claimed code id serve (some reason, ward) wards =
      (some reason, wards, broadcast_mission_event id code reason)
  request_claimed code id serve (none, ward) wards =
      let used = serve ward in (none, insert id (clear_busy used.0) wards, used.1)

  unfoldable pub request_found :
      Text
      → Text
      → (RoutedWard W D F → RoutedWard W D F × List (Notice D F))
      → Option (RoutedWard W D F)
      → Wards W D F
      → Option Text × Wards W D F × List (Notice D F)
  unfolding request_claimed claim broadcast_mission_event
  request_found code id serve none wards =
      let reason = text "unknown ward_id: " ++ id in
      (some reason, wards, broadcast_mission_event id code reason)
  request_found code id serve (some ward) wards = request_claimed code id serve (claim ward) wards

  unfoldable pub upload_to : Mission D F → RoutedWard W D F → RoutedWard W D F × List (Notice D F)
  unfolding enqueue_upload
  upload_to mission ward = (record ward { mission = enqueue_upload mission ward.mission }, [])

  unfoldable pub handle_mission_upload :
      Mission D F → Wards W D F → Option Text × Wards W D F × List (Notice D F)
  unfolding request_found upload_to lookup
  handle_mission_upload mission wards =
      request_found (text "MISSION_UPLOAD_REJECTED") mission.ward_id (upload_to mission)
        (lookup mission.ward_id wards) wards

  unfoldable pub upload_and_start :
      Mission D F → RoutedWard W D F → RoutedWard W D F × List (Notice D F)
  unfolding upload_to
  upload_and_start mission ward =
      upload_to mission (record ward { pending_auto_start_mission_id = some mission.mission_id })

  unfoldable pub dispatch_mission_upload_and_start :
      Mission D F → Wards W D F → Option Text × Wards W D F × List (Notice D F)
  unfolding request_found upload_and_start lookup
  dispatch_mission_upload_and_start mission wards =
      request_found (text "MISSION_UPLOAD_REJECTED") mission.ward_id (upload_and_start mission)
        (lookup mission.ward_id wards) wards

  -- What the importer makes of a file: a mission, or the reason why not.
  unfoldable pub upload_imported :
      Text → Option (Mission D F) × Text → RoutedWard W D F → RoutedWard W D F × List (Notice D F)
  unfolding upload_to broadcast_mission_event
  upload_imported id (none, reason) ward =
      (ward, broadcast_mission_event id (text "MISSION_IMPORT_REJECTED") reason)
  upload_imported id (some mission, reason) ward = upload_to mission ward

  unfoldable pub handle_mission_file_upload :
      Text
      → Option (Mission D F) × Text
      → Wards W D F
      → Option Text × Wards W D F × List (Notice D F)
  unfolding request_found upload_imported lookup
  handle_mission_file_upload id imported wards =
      request_found (text "MISSION_UPLOAD_REJECTED") id (upload_imported id imported)
        (lookup id wards) wards

  unfoldable pub download_from : RoutedWard W D F → RoutedWard W D F × List (Notice D F)
  unfolding enqueue_download
  download_from ward = (record ward { mission = enqueue_download ward.mission }, [])

  unfoldable pub handle_mission_download_request :
      Text → Wards W D F → Option Text × Wards W D F × List (Notice D F)
  unfolding request_found download_from lookup
  handle_mission_download_request id wards =
      request_found (text "MISSION_DOWNLOAD_REJECTED") id download_from (lookup id wards) wards
