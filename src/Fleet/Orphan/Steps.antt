-- ===== src/Fleet/Orphan/Steps.antt =====
-- What the operations of the store keep, and the finalization of a stop.
use karshipta.Fleet.Missions.{
  broadcast_if, every_ward_settled, is_stopping, get_mission, broadcast_updated,
  is_mission_stopping, on_store, maybe_finalize_stop, FleetState, finalize,
}
use karshipta.Common.{
  ◌≡◌, ◌⊎◌, inl, inr, true, false, ◌&&◌, Option, none, some, arith, Text, text_eq, text_eq_iff,
  Bool-cases,
}
use karshipta.Fleet.Messages.{
  FleetMissionAck, WardMissionState, FleetMission, FleetMissionStatus, mission_stopped,
}
use karshipta.Fleet.Effects.{Any, ◌>>◌, pure, Post, Post-bind, Post-intro, Result-cases}
use karshipta.Fleet.MissionStore.{MissionStore, IsMissionStore}
use karshipta.Fleet.Orphan.{holds_stopping, tracks, Reads, holds-with_ward_state, holds-with_status}

module _ {S V D F : Type 0} (store : MissionStore S D F)
    (view : S → Text → Option (FleetMission D F)) (laws : IsMissionStore store view)
    (id ward_id : Text) where
  -- The ward is marked as stopping, and no stop command of it is under way.
  abbrev pub Orphan : FleetState S V D F → Type 0
  Orphan s =
      (holds_stopping (view s.store id) ward_id ≡ true)
      × (tracks id ward_id s.pending_stops ≡ false)

  pub get-Post :
      (id' : Text) (s : FleetState S V D F)
      → Orphan s
      → Post Orphan (Reads id ward_id id') (get_mission store id' s)
  get-Post id' s o =
      let answer = store.get_fleet_mission id' s.store in
      let kept = laws.get-keeps id' s.store id in
      let same = text_eq_iff id' id in
      Post-intro Orphan (Reads id ward_id id') (get_mission store id' s) (rw kept o.0, o.1)
        (λ m e. let read = laws.get-reads id' s.store m e in ground arith)

  pub writes-Post :
      (id' : Text) (state : WardMissionState) (s : FleetState S V D F)
      → ((text_eq id' id && text_eq state.ward_id ward_id) ≡ false)
        ⊎ (is_stopping state.status ≡ true)
      → Orphan s
      → Post Orphan Any (on_store store (store.update_ward_state id' state) s)
  writes-Post id' state s h o =
      let answer = store.update_ward_state id' state s.store in
      let kept : holds_stopping (view answer.1 id) ward_id ≡ true = elim (Result-cases answer.0) [
        | inl (r, e) ↦
            let written = laws.update-writes id' state s.store r id e in
            let put = holds-with_ward_state state (view s.store id) ward_id in
            rw written (ground arith)
        | inr (message, e) ↦ rw (laws.update-fails id' state s.store message id e) o.0
      ] in
      Post-intro Orphan Any (on_store store (store.update_ward_state id' state) s) (kept, o.1)
        (λ r e. tt)

  pub status-Post :
      (id' : Text) (status : FleetMissionStatus) (s : FleetState S V D F)
      → Orphan s
      → Post Orphan Any (on_store store (store.set_status id' status) s)
  status-Post id' status s o =
      let answer = store.set_status id' status s.store in
      let kept : holds_stopping (view answer.1 id) ward_id ≡ true = elim (Result-cases answer.0) [
        | inl (r, e) ↦
            let written = laws.status-writes id' status s.store r id e in
            let put = holds-with_status status (view s.store id) ward_id in
            rw written (ground arith)
        | inr (message, e) ↦ rw (laws.status-fails id' status s.store message id e) o.0
      ] in
      Post-intro Orphan Any (on_store store (store.set_status id' status) s) (kept, o.1) (λ r e. tt)

  pub broadcast-Post :
      (id' : Text) (s : FleetState S V D F)
      → Orphan s
      → Post Orphan Any (broadcast_updated store id' s)
  broadcast-Post id' s o =
      Post-bind Orphan (Reads id ward_id id') Any (get_mission store id') (broadcast_if store) s
        (get-Post id' s o) broadcast
    where
      broadcast :
          (mission : Option (FleetMission D F)) (s' : FleetState S V D F)
          → Reads id ward_id id' mission
          → Orphan s'
          → Post Orphan Any (broadcast_if store mission s')
      broadcast none s' r o' = (o', tt)
      broadcast (some mission) s' r o' = (o', tt)

  finalize-Post :
      (id' : Text) (mission : Option (FleetMission D F)) (s : FleetState S V D F)
      → Orphan s
      → Post Orphan Any (finalize store id' mission s)
  unfolding finalize
  finalize-Post id' none s o = (o, tt)
  finalize-Post id' (some mission) s o =
      elim (Bool-cases
        (is_mission_stopping mission.status && every_ward_settled mission.ward_states)) [
          | inl e ↦ rw e (
              Post-bind Orphan Any Any (on_store store (store.set_status id' mission_stopped))
                (λ _. pure tt) s (status-Post id' mission_stopped s o) (λ r s' _ o'. (o', tt)))
          | inr e ↦ rw e (o, tt)
        ]

  pub maybe_finalize_stop-Post :
      (id' : Text) (s : FleetState S V D F)
      → Orphan s
      → Post Orphan Any (maybe_finalize_stop store id' s)
  unfolding maybe_finalize_stop
  maybe_finalize_stop-Post id' s o =
      Post-bind Orphan (Reads id ward_id id') Any (get_mission store id') (finalize store id') s
        (get-Post id' s o) (λ mission s' _ o'. finalize-Post id' mission s' o')

  pub answer-Post :
      (id' : Text) (ack : FleetMissionAck) (s : FleetState S V D F)
      → Orphan s
      → Post Orphan Any ((broadcast_updated store id' >> pure ack) s)
  answer-Post id' ack s o =
      Post-bind Orphan Any Any (broadcast_updated store id') (λ _. pure ack) s
        (broadcast-Post id' s o) (λ u s' _ o'. (o', tt))
