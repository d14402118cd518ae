-- ===== src/Registry/Fleets.antt =====
-- fleet_manager.cpp, the requests about fleets.
use karshipta.Fleet.Create.{within}
use karshipta.Registry.Types.{
  on_registry, sends_fleet, send_out, RenameFleet, RemoveWardFromFleet, DeleteFleet, AddWardToFleet,
  CreateFleet, Registry, FleetAck, FleetZoneStore, Fleet,
}
use karshipta.Fleet.Effects.{◌>>=◌, ◌>>◌, try_catch, threw, pure, ok, Result}
use karshipta.Fleet.Messages.{ack_accepted, ack_rejected, AckStatus}
use karshipta.Common.{[], text_eq, if◌then◌else◌, ◌++◌, ◌∷◌, text, some, none, List, Text, Option}

unfoldable pub fleet_ack : Text → Text → AckStatus → Text → FleetAck
fleet_ack request_id id status message = record {
  request_id = request_id;
  status = status;
  message = message;
  fleet_id = id;
}

unfoldable pub fleet_error : Text → Text → Text → FleetAck
unfolding fleet_ack
fleet_error request_id id error =
    fleet_ack request_id id ack_rejected (text "internal error: " ++ error)

-- `find_if` over the fleets.
unfoldable pub fleet_with_id : List Fleet → Text → Option Fleet
fleet_with_id [] id = none
fleet_with_id (fleet ∷ fleets) id =
    if text_eq fleet.fleet_id id then some fleet else fleet_with_id fleets id

-- The answer to a deletion, whose exception is an error like any other.
unfoldable pub deletion_error : Result (Option Text) → Option Text
deletion_error (ok error) = error
deletion_error (threw error) = some (text "internal error: " ++ error)

unfoldable pub deleted_ack : Text → Text → Option Text → FleetAck
unfolding fleet_ack
deleted_ack request_id id (some error) = fleet_ack request_id id ack_rejected error
deleted_ack request_id id none = fleet_ack request_id id ack_accepted (text "fleet deleted")

module _ {T G D F : Type 0} (store : FleetZoneStore T G F) where
  unfoldable pub find_fleet : Text → Registry T G D F → Result (Option Fleet) × Registry T G D F
  unfolding fleet_with_id
  find_fleet id = do fleets ← on_registry store.list_fleets; pure (fleet_with_id fleets id)

  abbrev pub broadcast_fleet_if :
      Option Fleet → Registry T G D F → Result (Unit {0}) × Registry T G D F
  broadcast_fleet_if none r = (ok tt, r)
  broadcast_fleet_if (some fleet) r = (ok tt, send_out (sends_fleet fleet) r)

  -- The fleet as it is now, then the ack.
  unfoldable pub show_fleet :
      Text → FleetAck → Registry T G D F → Result FleetAck × Registry T G D F
  unfolding find_fleet
  show_fleet id ack = do fleet ← find_fleet id; broadcast_fleet_if fleet; pure ack

  unfoldable pub handle_create_fleet : CreateFleet → Registry T G D F → FleetAck × Registry T G D F
  unfolding show_fleet fleet_ack fleet_error
  handle_create_fleet request =
      try_catch
        (do
          id ← on_registry (store.create_fleet request.name request.description)
          within
              (show_fleet id (fleet_ack request.request_id id ack_accepted (text "fleet created")))
              (fleet_error request.request_id id))
        (fleet_error request.request_id [])

  -- After a change of the fleet, which may report an error.
  unfoldable pub fleet_changed :
      Text → Text → Text → Option Text → Registry T G D F → Result FleetAck × Registry T G D F
  unfolding show_fleet fleet_ack
  fleet_changed request_id id note (some error) = pure (fleet_ack request_id id ack_rejected error)
  fleet_changed request_id id note none = show_fleet id (fleet_ack request_id id ack_accepted note)

  unfoldable pub change_fleet :
      Text
      → Text
      → Text
      → (T → Result (Option Text) × T)
      → Registry T G D F
      → FleetAck × Registry T G D F
  unfolding fleet_changed fleet_error
  change_fleet request_id id note op =
      try_catch (do error ← on_registry op; fleet_changed request_id id note error)
        (fleet_error request_id id)

  unfoldable pub handle_rename_fleet : RenameFleet → Registry T G D F → FleetAck × Registry T G D F
  unfolding change_fleet
  handle_rename_fleet request =
      change_fleet request.request_id request.fleet_id (text "fleet renamed")
        (store.rename_fleet request.fleet_id request.name request.description)

  unfoldable pub handle_add_ward_to_fleet :
      AddWardToFleet → Registry T G D F → FleetAck × Registry T G D F
  unfolding change_fleet
  handle_add_ward_to_fleet request =
      change_fleet request.request_id request.fleet_id (text "ward added to fleet")
        (store.add_ward_to_fleet request.fleet_id request.ward_id)

  unfoldable pub handle_remove_ward_from_fleet :
      RemoveWardFromFleet → Registry T G D F → FleetAck × Registry T G D F
  unfolding change_fleet
  handle_remove_ward_from_fleet request =
      change_fleet request.request_id request.fleet_id (text "ward removed from fleet")
        (store.remove_ward_from_fleet request.fleet_id request.ward_id)

  unfoldable pub handle_delete_fleet : DeleteFleet → Registry T G D F → FleetAck × Registry T G D F
  unfolding deletion_error deleted_ack
  handle_delete_fleet request r =
      let answer = store.delete_fleet request.fleet_id r.store in
      (
        deleted_ack request.request_id request.fleet_id (deletion_error answer.0),
        record r { store = answer.1 },
      )
