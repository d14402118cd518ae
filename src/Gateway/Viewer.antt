-- ===== src/Gateway/Viewer.antt =====
-- fleet_manager.cpp, the answer to a client that may only read.
use karshipta.Fleet.Messages.{ack_rejected}
use karshipta.Gateway.Envelope.{
  ClientEnvelope, create_fleet, rename_fleet, delete_fleet, add_ward_to_fleet,
  remove_ward_from_fleet, create_zone, update_zone, delete_zone, create_fleet_mission,
  stop_fleet_mission, remove_fleet_mission, update_fleet_mission_routes, ward_payload,
}
use karshipta.Registry.Types.{
  sends_fleet_mission_ack, sends_zone_ack, sends_fleet_ack, send_out, Registry,
}
use karshipta.Fleet.Dispatch.{fleet_mission_ack}
use karshipta.Registry.Zones.{zone_ack}
use karshipta.Registry.Fleets.{fleet_ack}
use karshipta.Common.{[], text, Text}

unfoldable pub read_only_session_message : Text
read_only_session_message = text "read-only session"

module _ {T G D F P : Type 0} where
  unfoldable pub reject_viewer_envelope :
      ClientEnvelope G D F P → Registry T G D F → Registry T G D F
  unfolding fleet_ack zone_ack fleet_mission_ack read_only_session_message
  reject_viewer_envelope (create_fleet request) =
      send_out
        (sends_fleet_ack (fleet_ack request.request_id [] ack_rejected read_only_session_message))
  reject_viewer_envelope (rename_fleet request) = send_out (
      sends_fleet_ack
        (fleet_ack request.request_id request.fleet_id ack_rejected read_only_session_message))
  reject_viewer_envelope (delete_fleet request) = send_out (
      sends_fleet_ack
        (fleet_ack request.request_id request.fleet_id ack_rejected read_only_session_message))
  reject_viewer_envelope (add_ward_to_fleet request) = send_out (
      sends_fleet_ack
        (fleet_ack request.request_id request.fleet_id ack_rejected read_only_session_message))
  reject_viewer_envelope (remove_ward_from_fleet request) = send_out (
      sends_fleet_ack
        (fleet_ack request.request_id request.fleet_id ack_rejected read_only_session_message))
  reject_viewer_envelope (create_zone request) =
      send_out
        (sends_zone_ack (zone_ack request.request_id [] ack_rejected read_only_session_message))
  reject_viewer_envelope (update_zone request) = send_out (
      sends_zone_ack
        (zone_ack request.request_id request.zone_id ack_rejected read_only_session_message))
  reject_viewer_envelope (delete_zone request) = send_out (
      sends_zone_ack
        (zone_ack request.request_id request.zone_id ack_rejected read_only_session_message))
  reject_viewer_envelope (create_fleet_mission request) = send_out (
      sends_fleet_mission_ack
        (fleet_mission_ack request.request_id [] ack_rejected read_only_session_message))
  reject_viewer_envelope (stop_fleet_mission request) = send_out (
      sends_fleet_mission_ack (
        fleet_mission_ack request.request_id request.fleet_mission_id ack_rejected
          read_only_session_message))
  reject_viewer_envelope (remove_fleet_mission request) = send_out (
      sends_fleet_mission_ack (
        fleet_mission_ack request.request_id request.fleet_mission_id ack_rejected
          read_only_session_message))
  reject_viewer_envelope (update_fleet_mission_routes request) = send_out (
      sends_fleet_mission_ack (
        fleet_mission_ack request.request_id request.fleet_mission_id ack_rejected
          read_only_session_message))
  reject_viewer_envelope (ward_payload payload) = λ r. r
