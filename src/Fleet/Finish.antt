-- ===== src/Fleet/Finish.antt =====
-- The stop of a fleet mission comes to its end when the last ward has stopped.
use karshipta.Fleet.Ends.{Ends, Ends-and_then, Ends-intro, Ends-caught}
use karshipta.Fleet.Orphan.{find-named}
use karshipta.Messages.{success, CommandAck}
use karshipta.Fleet.Outcomes.{
  settle_found, is_terminal, settle_in, settled_state, settle, settle_ward, handle_command_outcome,
}
use karshipta.Fleet.Messages.{
  stopped, mission_stopped, mission_stopping, FleetMissionStatus, WardMissionState, FleetMission,
}
use karshipta.Fleet.Missions.{
  PendingStop, maybe_finalize_stop, get_mission, broadcast_if, is_mission_stopping, on_store,
  broadcast_updated, FleetState, finalize, is_settled, every_ward_settled,
}
use karshipta.Fleet.MissionStore.{
  find_ward_state, with_ward_state, with_status, IsMissionStore, put_ward_state, MissionStore,
}
use karshipta.Common.{
  ap, erase, text_eq_iff, lookup, none, ◌∙◌, refl, text_eq_refl, [], false, arith, some, true,
  text_eq, ◌∷◌, sym, subst, Option, List, ◌≡◌, Text,
}
use karshipta.Fleet.Effects.{ok, pure}

-- The other wards are settled.
abbrev pub OthersSettled : Text → List WardMissionState → Type 0
OthersSettled ward_id [] = Unit {0}
OthersSettled ward_id (state ∷ states) =
    (text_eq state.ward_id ward_id ≡ false → is_settled state.status ≡ true)
    × OthersSettled ward_id states

put-settled :
    (new : WardMissionState) (states : List WardMissionState)
    → is_settled new.status ≡ true
    → OthersSettled new.ward_id states
    → every_ward_settled (put_ward_state new states) ≡ true
unfolding every_ward_settled put_ward_state
put-settled new [] e h = refl
put-settled new (state ∷ states) e h = let rest = put-settled new states e h.1 in ground arith

-- No operation throws that the outcome of a command uses.
pub record Reliable {S D F : Type 0} (store : MissionStore S D F)
    (view : S → Text → Option (FleetMission D F)) : Type 0 where
  pub get-ok : (id : Text) (s : S) → (store.get_fleet_mission id s).0 ≡ ok (view s id)
  pub update-ok :
      (id : Text) (state : WardMissionState) (s : S)
      → (r : Option Text) × ((store.update_ward_state id state s).0 ≡ ok r)
  pub status-ok :
      (id : Text) (status : FleetMissionStatus) (s : S)
      → (r : Option Text) × ((store.set_status id status s).0 ≡ ok r)

module _ {S V D F : Type 0} (store : MissionStore S D F)
    (view : S → Text → Option (FleetMission D F)) (laws : IsMissionStore store view)
    (reliable : Reliable store view) (id : Text) where
  -- The mission is stored so.
  abbrev Holds : FleetMission D F → FleetState S V D F → Type 0
  Holds m s = view s.store id ≡ some m

  get-Ends :
      (m : FleetMission D F) (s : FleetState S V D F)
      → Holds m s
      → Ends (λ found s'. (found ≡ some m) × Holds m s') (get_mission store id s)
  get-Ends m s h =
      Ends-intro _ (get_mission store id s) (view s.store id) (reliable.get-ok id s.store)
        (h, laws.get-keeps id s.store id ∙ h)

  update-Ends :
      (new : WardMissionState) (m : FleetMission D F) (s : FleetState S V D F)
      → Holds m s
      → Ends
          (λ r s'. Holds (record m { ward_states = put_ward_state new m.ward_states }) s')
          (on_store store (store.update_ward_state id new) s)
  unfolding with_ward_state
  update-Ends new m s h =
      let ran = reliable.update-ok id new s.store in
      Ends-intro _ (on_store store (store.update_ward_state id new) s) ran.0 ran.1
        (rw (laws.update-writes id new s.store ran.0 id ran.1, text_eq_refl id, h) refl)

  status-Ends :
      (status : FleetMissionStatus) (m : FleetMission D F) (s : FleetState S V D F)
      → Holds m s
      → Ends
          (λ r s'. Holds (record m { status = status }) s')
          (on_store store (store.set_status id status) s)
  unfolding with_status
  status-Ends status m s h =
      let ran = reliable.status-ok id status s.store in
      Ends-intro _ (on_store store (store.set_status id status) s) ran.0 ran.1
        (rw (laws.status-writes id status s.store ran.0 id ran.1, text_eq_refl id, h) refl)

  broadcast-Ends :
      (m : FleetMission D F) (s : FleetState S V D F)
      → Holds m s
      → Ends (λ u s'. Holds m s') (broadcast_updated store id s)
  broadcast-Ends m s h =
      Ends-and_then _ _ (broadcast_if store) (get_mission store id s) (get-Ends m s h) shown
    where
      shown :
          (found : Option (FleetMission D F)) (s' : FleetState S V D F)
          → (found ≡ some m) × Holds m s'
          → Ends (λ u s''. Holds m s'') (broadcast_if store found s')
      shown none s' q = q.1
      shown (some mission) s' q = q.1

  finalize-Ends :
      (m : FleetMission D F) (found : Option (FleetMission D F)) (s : FleetState S V D F)
      → m.status ≡ mission_stopping
      → every_ward_settled m.ward_states ≡ true
      → found ≡ some m
      → Holds m s
      → Ends (λ u s'. Holds (record m { status = mission_stopped }) s') (finalize store id found s)
  unfolding finalize is_mission_stopping
  finalize-Ends m found s stopping settled e h =
      rw (e, stopping, settled)
        (Ends-and_then _ _ (λ r. pure tt) (on_store store (store.set_status id mission_stopped) s)
          (status-Ends mission_stopped m s h) (λ r s' q. q))

  maybe_finalize-Ends :
      (m : FleetMission D F) (s : FleetState S V D F)
      → m.status ≡ mission_stopping
      → every_ward_settled m.ward_states ≡ true
      → Holds m s
      → Ends
          (λ u s'. Holds (record m { status = mission_stopped }) s')
          (maybe_finalize_stop store id s)
  unfolding maybe_finalize_stop
  maybe_finalize-Ends m s stopping settled h =
      Ends-and_then _ _ (finalize store id) (get_mission store id s) (get-Ends m s h)
        (λ found s' q. finalize-Ends m found s' stopping settled q.0 q.1)

  settle_ward-Ends :
      (ack : CommandAck) (state : WardMissionState) (m : FleetMission D F) (s : FleetState S V D F)
      → let new = settled_state ack.status ack.message state in
        let states = put_ward_state new m.ward_states in
        m.status ≡ mission_stopping
        → every_ward_settled states ≡ true
        → Holds m s
        → Ends
            (λ u s'. Holds (record m { ward_states = states; status = mission_stopped }) s')
            (settle_ward store ack id state s)
  unfolding settle_ward
  settle_ward-Ends ack state m s stopping settled h =
      let new = settled_state ack.status ack.message state in
      let m1 : FleetMission D F = record m { ward_states = put_ward_state new m.ward_states } in
      let m2 : FleetMission D F = record m1 { status = mission_stopped } in
      Ends-and_then _ _ _ (on_store store (store.update_ward_state id new) s)
        (update-Ends new m s h)
        (λ r s1 h1.
          Ends-and_then _ _ _ (maybe_finalize_stop store id s1)
            (maybe_finalize-Ends m1 s1 stopping settled h1) (λ u s2 h2. broadcast-Ends m2 s2 h2))

module _ {S V D F : Type 0} (store : MissionStore S D F)
    (view : S → Text → Option (FleetMission D F)) (laws : IsMissionStore store view)
    (reliable : Reliable store view) where
  settle-Ends :
      (ack : CommandAck) (pending : PendingStop) (state : WardMissionState) (m : FleetMission D F)
      (s : FleetState S V D F)
      → let states = put_ward_state (settled_state ack.status ack.message state) m.ward_states in
        find_ward_state m.ward_states pending.ward_id ≡ some state
        → m.status ≡ mission_stopping
        → every_ward_settled states ≡ true
        → view s.store pending.fleet_mission_id ≡ some m
        → Ends
            (λ u s'.
              view s'.store pending.fleet_mission_id
              ≡ some (record m { ward_states = states; status = mission_stopped }))
            (settle store ack pending s)
  unfolding settle settle_in settle_found
  settle-Ends ack pending state m s found stopping settled h =
      let id = pending.fleet_mission_id in
      Ends-and_then _ _ (settle_in store ack pending) (get_mission store id s)
        (get-Ends store view laws reliable id m s h)
        (λ mission s' q.
          rw (q.0, found)
            (settle_ward-Ends store view laws reliable id ack state m s' stopping settled q.1))

  -- When the stop command of a ward succeeds, the stop was pending, its mission is stopping and all its
  -- other wards are settled, then the ward is stored as stopped and the mission as stopped, with nothing
  -- else of it changed. (The store keeps its laws, and its operations that are used here do not throw.)
  pub handle_command_outcome-finishes :
      (ack : CommandAck) (pending : PendingStop) (state : WardMissionState) (m : FleetMission D F)
      (s : FleetState S V D F)
      → ack.status ≡ success
      → lookup ack.command_id s.pending_stops ≡ some pending
      → view s.store pending.fleet_mission_id ≡ some m
      → m.status ≡ mission_stopping
      → find_ward_state m.ward_states pending.ward_id ≡ some state
      → OthersSettled pending.ward_id m.ward_states
      → view (handle_command_outcome store ack s).store pending.fleet_mission_id
        ≡ some (record m {
          ward_states =
              put_ward_state (record state { status = stopped; message = [] }) m.ward_states;
          status = mission_stopped;
        })
  unfolding handle_command_outcome settled_state is_terminal is_settled
  handle_command_outcome-finishes ack pending state m s succeeded known h stopping found others =
      let new : WardMissionState = record state { status = stopped; message = [] } in
      let written : settled_state ack.status ack.message state ≡ new = rw succeeded refl in
      let named =
        (text_eq_iff state.ward_id pending.ward_id).0
          (find-named m.ward_states pending.ward_id state found) in
      let settled : every_ward_settled (put_ward_state new m.ward_states) ≡ true =
        put-settled new m.ward_states refl
          (subst (λ w. OthersSettled w m.ward_states) (sym named) others) in
      let s' : FleetState S V D F = record s {
        pending_stops = erase ack.command_id s.pending_stops;
      } in
      let ended =
        settle-Ends ack pending state m s' found stopping
          (subst (λ n. every_ward_settled (put_ward_state n m.ward_states) ≡ true) (sym written)
            settled)
          h in
      let is_done : is_terminal ack.status ≡ true = rw succeeded refl in
      rw (is_done, known)
        (Ends-caught
            (λ w.
              view w.store pending.fleet_mission_id
              ≡ some (record m {
                ward_states =
                    put_ward_state (settled_state ack.status ack.message state) m.ward_states;
                status = mission_stopped;
              }))
            (settle store ack pending s') (λ error. tt) ended
          ∙ ap
              (λ n. some (record m {
                ward_states = put_ward_state n m.ward_states;
                status = mission_stopped;
              }))
              written)
