-- ===== src/WardManager/Requests.antt =====
-- ward_manager.cpp, the requests about parameters, logs and calibration, and the rejection of viewers.
pub mod Params
pub mod Applied
use karshipta.Common.{◌++◌, none, some, ℕ, Option, List, Text, text, ◌∷◌, []}

-- What a reply to one request is about: of a log it names the log too, of a calibration the kind.
pub data Subject : Type 0 where
  command_ack config_ack param_list param_ack log_entry_list : Subject
  download_log_file_ack : ℕ → Subject
  calibration_progress : ℕ → Subject

-- A rejection, with the ids of its request; `broadcast_rejection` goes to all clients,
-- `send_rejection` to one. `command_observed` is the call of `command_outcome_observer_` with a rejected
-- command, of which it has the id, the ward and the message. `mission_event` is a warning with a code.
pub data Rejection : Type 0 where
  broadcast_rejection : Subject → Text → Text → Text → Rejection
  send_rejection : ℕ → Subject → Text → Text → Text → Rejection
  command_observed : Text → Text → Text → Rejection
  command_event : Text → Text → Rejection
  mission_event : Text → Text → Text → Rejection

-- The payloads of a client, by what their rejection needs: the id of the request, the id of the ward,
-- and what names the log or the kind of the calibration.
pub data Payload : Type 0 where
  command add_ward remove_ward get_params set_param get_log_entries : Text → Text → Payload
  mission_upload mission_file_upload mission_download_request cancel_calibration : Text → Payload
  download_log_file start_calibration : Text → Text → ℕ → Payload
  unexpected : Payload

unfoldable pub read_only_session : Text
read_only_session = text "read-only session"

unfoldable pub reject_viewer : ℕ → Payload → List Rejection
unfolding read_only_session
reject_viewer client (command id ward) =
    broadcast_rejection command_ack id ward read_only_session
    ∷ command_observed id ward read_only_session
    ∷ command_event ward read_only_session
    ∷ []
reject_viewer client (add_ward id ward) =
    broadcast_rejection config_ack id ward read_only_session ∷ []
reject_viewer client (remove_ward id ward) =
    broadcast_rejection config_ack id ward read_only_session ∷ []
reject_viewer client (mission_upload ward) =
    mission_event ward (text "MISSION_UPLOAD_REJECTED") read_only_session ∷ []
reject_viewer client (mission_file_upload ward) =
    mission_event ward (text "MISSION_UPLOAD_REJECTED") read_only_session ∷ []
reject_viewer client (mission_download_request ward) =
    mission_event ward (text "MISSION_DOWNLOAD_REJECTED") read_only_session ∷ []
reject_viewer client (get_params id ward) =
    send_rejection client param_list id ward read_only_session ∷ []
reject_viewer client (set_param id ward) =
    broadcast_rejection param_ack id ward read_only_session ∷ []
reject_viewer client (get_log_entries id ward) =
    send_rejection client log_entry_list id ward read_only_session ∷ []
reject_viewer client (download_log_file id ward log) =
    send_rejection client (download_log_file_ack log) id ward read_only_session ∷ []
reject_viewer client (start_calibration id ward kind) =
    send_rejection client (calibration_progress kind) id ward read_only_session ∷ []
reject_viewer client (cancel_calibration ward) = []
reject_viewer client unexpected = []

-- A ward that a request names: not there, there without a link, or there with one.
pub data Presence : Type 0 where
  unknown unconnected connected : Presence

-- Why a request is not taken up.
unfoldable pub refusal : Text → Presence → Option Text
refusal ward unknown = some (text "unknown ward_id: " ++ ward)
refusal ward unconnected = some (text "ward is not connected")
refusal ward connected = none

-- `J` is a job of the executor that a request is handed to.
unfoldable pub handed :
    {J : Type 0} → (Text → Rejection) → J → Option Text → List Rejection × List J
handed reject job none = ([], job ∷ [])
handed reject job (some reason) = (reject reason ∷ [], [])

module _ {J : Type 0} (client : ℕ) (job : J) (id : Text) (ward : Text) (presence : Presence) where
  unfoldable pub handle_get_log_entries : List Rejection × List J
  unfolding handed refusal
  handle_get_log_entries =
      handed (send_rejection client log_entry_list id ward) job (refusal ward presence)

  unfoldable pub handle_download_log_file : ℕ → List Rejection × List J
  unfolding handed refusal
  handle_download_log_file log =
      handed (send_rejection client (download_log_file_ack log) id ward) job (refusal ward presence)

  unfoldable pub handle_start_calibration : ℕ → List Rejection × List J
  unfolding handed refusal
  handle_start_calibration kind =
      handed (send_rejection client (calibration_progress kind) id ward) job (refusal ward presence)

-- It has no reply, whatever becomes of it.
unfoldable pub handle_cancel_calibration : {J : Type 0} → J → Text → Presence → List J
unfolding refusal
handle_cancel_calibration job ward presence = elim (refusal ward presence) [
  | none ↦ job ∷ []
  | some reason ↦ []
]
