-- ===== src/Registry/Zones.antt =====
-- fleet_manager.cpp, the requests about zones.
use karshipta.Fleet.Create.{within}
use karshipta.Registry.Fleets.{deletion_error}
use karshipta.Fleet.Effects.{◌>>=◌, ◌>>◌, pure, ok, try_catch, Result}
use karshipta.Registry.Types.{
  on_registry, sends_zone, send_out, DeleteZone, Registry, UpdateZone, CreateZone, ZoneAck, Zone,
  FleetZoneStore,
}
use karshipta.Fleet.Messages.{ack_accepted, ack_rejected, AckStatus}
use karshipta.Common.{
  length, [], ◌++◌, ltb, text_eq, if◌then◌else◌, text, some, ◌∷◌, none, List, Text, Option,
}

unfoldable pub zone_ack : Text → Text → AckStatus → Text → ZoneAck
zone_ack request_id id status message = record {
  request_id = request_id;
  status = status;
  message = message;
  zone_id = id;
}

unfoldable pub zone_error : Text → Text → Text → ZoneAck
unfolding zone_ack
zone_error request_id id error =
    zone_ack request_id id ack_rejected (text "internal error: " ++ error)

unfoldable pub zone_with_id : {G F : Type 0} → List (Zone G F) → Text → Option (Zone G F)
zone_with_id [] id = none
zone_with_id (zone ∷ zones) id =
    if text_eq zone.zone_id id then some zone else zone_with_id zones id

unfoldable pub zone_deleted_ack : Text → Text → Option Text → ZoneAck
unfolding zone_ack
zone_deleted_ack request_id id (some error) = zone_ack request_id id ack_rejected error
zone_deleted_ack request_id id none = zone_ack request_id id ack_accepted (text "zone deleted")

module _ {T G D F : Type 0} (store : FleetZoneStore T G F) where
  unfoldable pub find_zone : Text → Registry T G D F → Result (Option (Zone G F)) × Registry T G D F
  unfolding zone_with_id
  find_zone id = do zones ← on_registry store.list_zones; pure (zone_with_id zones id)

  abbrev pub broadcast_zone_if :
      Option (Zone G F) → Registry T G D F → Result (Unit {0}) × Registry T G D F
  broadcast_zone_if none r = (ok tt, r)
  broadcast_zone_if (some zone) r = (ok tt, send_out (sends_zone zone) r)

  unfoldable pub show_zone : Text → ZoneAck → Registry T G D F → Result ZoneAck × Registry T G D F
  unfolding find_zone
  show_zone id ack = do zone ← find_zone id; broadcast_zone_if zone; pure ack

  -- Once the zone has its vertices.
  unfoldable pub store_zone : CreateZone G F → Registry T G D F → ZoneAck × Registry T G D F
  unfolding show_zone zone_ack zone_error
  store_zone request =
      try_catch
        (do
          id ← on_registry (
              store.create_zone request.name request.zone_type request.vertices
                request.altitude_min_m request.altitude_max_m)
          within (show_zone id (zone_ack request.request_id id ack_accepted (text "zone created")))
              (zone_error request.request_id id))
        (zone_error request.request_id [])

  unfoldable pub handle_create_zone : CreateZone G F → Registry T G D F → ZoneAck × Registry T G D F
  unfolding store_zone zone_ack
  handle_create_zone request r =
      if ltb (length request.vertices) 3
      then (
        zone_ack request.request_id [] ack_rejected (text "a zone needs at least 3 vertices"),
        r,
      )
      else store_zone request r

  unfoldable pub zone_changed :
      Text → Text → Option Text → Registry T G D F → Result ZoneAck × Registry T G D F
  unfolding show_zone zone_ack
  zone_changed request_id id (some error) = pure (zone_ack request_id id ack_rejected error)
  zone_changed request_id id none =
      show_zone id (zone_ack request_id id ack_accepted (text "zone updated"))

  unfoldable pub handle_update_zone : UpdateZone F → Registry T G D F → ZoneAck × Registry T G D F
  unfolding zone_changed zone_error
  handle_update_zone request =
      try_catch
        (do
          error ← on_registry (
              store.update_zone request.zone_id request.name request.zone_type
                request.altitude_min_m request.altitude_max_m)
          zone_changed request.request_id request.zone_id error)
        (zone_error request.request_id request.zone_id)

  unfoldable pub handle_delete_zone : DeleteZone → Registry T G D F → ZoneAck × Registry T G D F
  unfolding zone_deleted_ack
  handle_delete_zone request r =
      let answer = store.delete_zone request.zone_id r.store in
      (
        zone_deleted_ack request.request_id request.zone_id (deletion_error answer.0),
        record r { store = answer.1 },
      )
