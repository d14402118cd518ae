-- ===== src/Fleet/Orphan/Outcomes.antt =====
-- No outcome of another command or of an upload settles the ward.
use karshipta.Fleet.Orphan.Steps.{
  maybe_finalize_stop-Post, broadcast-Post, writes-Post, get-Post, Orphan,
}
use karshipta.Fleet.Missions.{
  broadcast_updated, maybe_finalize_stop, get_mission, on_store, is_stopping, PendingStop,
  FleetState,
}
use karshipta.Fleet.Outcomes.{
  is_uploading, is_terminal, settle_upload, handle_mission_upload_outcome, handle_outcomes,
  settle_in, settle_ward, is_awaited, uploaded_state, settled_state, handle_command_outcome,
  upload_outcome, settle, settle_found,
}
use karshipta.Common.{
  ◌≡◌, refl, inl, inr, Bool, true, false, ◌&&◌, List, [], ◌∷◌, Option, none, some, arith, Text,
  text_eq, text_eq_iff, lookup, erase, Option-cases, Bool-cases,
}
use karshipta.Messages.{CommandAck, CommandStatus, accepted, executing, success, rejected, timeout}
use karshipta.Fleet.Messages.{WardMissionState, FleetMission}
use karshipta.Fleet.Effects.{Any, Result, ◌>>=◌, ◌>>◌, Post, Post-bind, Post-caught, Post-intro}
use karshipta.Fleet.MissionStore.{MissionStore, IsMissionStore, AllStored, find_ward_state}
use karshipta.Fleet.Orphan.{
  ward_stopping, holds_stopping, is_stop_of, Reads, find-named, tracks-lookup, tracks-erase,
}

settled_state-ward :
    (status : CommandStatus) (message : Text) (state : WardMissionState)
    → (settled_state status message state).ward_id ≡ state.ward_id
unfolding settled_state
settled_state-ward success message state = refl
settled_state-ward rejected message state = refl
settled_state-ward timeout message state = refl
settled_state-ward accepted message state = refl
settled_state-ward executing message state = refl

-- An upload that is awaited is not of a ward that is stopping.
awaited-elsewhere :
    {D F : Type 0} (ward_id ward mission_id : Text) (mission : FleetMission D F)
    (state : WardMissionState)
    → is_awaited ward mission_id mission ≡ some state
    → holds_stopping (some mission) ward_id ≡ true
    → text_eq state.ward_id ward_id ≡ false
unfolding is_awaited holds_stopping ward_stopping is_stopping is_uploading
awaited-elsewhere ward_id ward mission_id mission state e h =
    elim (Option-cases (find_ward_state mission.ward_states ward)) [
      | inl missing ↦ ground arith
      | inr (found, f) ↦
          let named = find-named mission.ward_states ward found f in
          let same = text_eq_iff found.ward_id ward in
          let same' = text_eq_iff found.ward_id ward_id in ground arith
    ]

uploaded_state-ward :
    (succeeds : Bool) (message : Text) (state : WardMissionState)
    → (uploaded_state succeeds message state).ward_id ≡ state.ward_id
unfolding uploaded_state
uploaded_state-ward succeeds message state = refl

-- What was listed shows the ward stopping.
abbrev pub AllRead : {D F : Type 0} → Text → Text → List (FleetMission D F) → Type 0
AllRead id ward_id [] = Unit {0}
AllRead id ward_id (mission ∷ missions) =
    Reads id ward_id mission.fleet_mission_id (some mission) × AllRead id ward_id missions

stored-AllRead :
    {D F : Type 0} (contents : Text → Option (FleetMission D F)) (id ward_id : Text)
    (missions : List (FleetMission D F))
    → holds_stopping (contents id) ward_id ≡ true
    → AllStored contents missions
    → AllRead id ward_id missions
stored-AllRead contents id ward_id [] h a = tt
stored-AllRead contents id ward_id (mission ∷ missions) h a =
    let same = text_eq_iff mission.fleet_mission_id id in
    let rest = stored-AllRead contents id ward_id missions h a.1 in (λ e. ground arith, rest)

module _ {S V D F : Type 0} (store : MissionStore S D F)
    (view : S → Text → Option (FleetMission D F)) (laws : IsMissionStore store view)
    (id ward_id : Text) where
  abbrev Stays : FleetState S V D F → Type 0
  Stays = Orphan store view laws id ward_id

  settle_ward-Post :
      (ack : CommandAck) (id' : Text) (state : WardMissionState) (s : FleetState S V D F)
      → (text_eq id' id && text_eq state.ward_id ward_id) ≡ false
      → Stays s
      → Post Stays Any (settle_ward store ack id' state s)
  unfolding settle_ward
  settle_ward-Post ack id' state s h o =
      let new = settled_state ack.status ack.message state in
      let same = settled_state-ward ack.status ack.message state in
      Post-bind Stays Any Any (on_store store (store.update_ward_state id' new))
        (λ _. maybe_finalize_stop store id' >> broadcast_updated store id') s
        (writes-Post store view laws id ward_id id' new s (inl (rw same h)) o)
        (λ r s1 _ o1.
          Post-bind Stays Any Any (maybe_finalize_stop store id') (λ _. broadcast_updated store id')
            s1 (maybe_finalize_stop-Post store view laws id ward_id id' s1 o1)
            (λ u s2 _ o2. broadcast-Post store view laws id ward_id id' s2 o2))

  settle_found-Post :
      (ack : CommandAck) (pending : PendingStop) (states : List WardMissionState)
      (found : Option WardMissionState) (s : FleetState S V D F)
      → find_ward_state states pending.ward_id ≡ found
      → is_stop_of id ward_id pending ≡ false
      → Stays s
      → Post Stays Any (settle_found store ack pending found s)
  unfolding settle_found is_stop_of
  settle_found-Post ack pending states none s e h o = (o, tt)
  settle_found-Post ack pending states (some state) s e h o =
      let named = find-named states pending.ward_id state e in
      let same = text_eq_iff state.ward_id pending.ward_id in
      settle_ward-Post ack pending.fleet_mission_id state s (ground arith) o

  settle_in-Post :
      (ack : CommandAck) (pending : PendingStop) (mission : Option (FleetMission D F))
      (s : FleetState S V D F)
      → is_stop_of id ward_id pending ≡ false
      → Stays s
      → Post Stays Any (settle_in store ack pending mission s)
  unfolding settle_in
  settle_in-Post ack pending none s h o = (o, tt)
  settle_in-Post ack pending (some mission) s h o =
      settle_found-Post ack pending mission.ward_states
        (find_ward_state mission.ward_states pending.ward_id) s refl h o

  settle-Post :
      (ack : CommandAck) (pending : PendingStop) (s : FleetState S V D F)
      → is_stop_of id ward_id pending ≡ false
      → Stays s
      → Post Stays Any (settle store ack pending s)
  unfolding settle
  settle-Post ack pending s h o =
      Post-bind Stays (Reads id ward_id pending.fleet_mission_id) Any
        (get_mission store pending.fleet_mission_id) (settle_in store ack pending) s
        (get-Post store view laws id ward_id pending.fleet_mission_id s o)
        (λ mission s' _ o'. settle_in-Post ack pending mission s' h o')

  pub handle_command_outcome-Orphan :
      (ack : CommandAck) (s : FleetState S V D F)
      → Stays s
      → Stays (handle_command_outcome store ack s)
  unfolding handle_command_outcome
  handle_command_outcome-Orphan ack s o = elim (Bool-cases (is_terminal ack.status)) [
    | inr e ↦ rw e o
    | inl e ↦ elim (Option-cases (lookup ack.command_id s.pending_stops)) [
      | inl none_pending ↦ rw (e, none_pending) o
      | inr (pending, found) ↦
          let s' : FleetState S V D F = record s {
            pending_stops = erase ack.command_id s.pending_stops;
          } in
          let other = tracks-lookup id ward_id ack.command_id s.pending_stops pending o.1 found in
          let rest = tracks-erase id ward_id ack.command_id s.pending_stops o.1 in
          rw (e, found)
            (Post-caught Stays Any (settle store ack pending s') (λ error. tt)
              (settle-Post ack pending s' other (o.0, rest)))
    ]
  ]

  pub handle_outcomes-Orphan :
      (acks : List CommandAck) (s : FleetState S V D F)
      → Stays s
      → Stays (handle_outcomes store acks s)
  unfolding handle_outcomes
  handle_outcomes-Orphan [] s o = o
  handle_outcomes-Orphan (ack ∷ acks) s o =
      handle_outcomes-Orphan acks (handle_command_outcome store ack s)
        (handle_command_outcome-Orphan ack s o)

  settle_upload-Post :
      (ward mission_id : Text) (succeeds : Bool) (message : Text) (mission : FleetMission D F)
      (rest : FleetState S V D F → Result (Unit {0}) × FleetState S V D F)
      (found : Option WardMissionState) (s : FleetState S V D F)
      → is_awaited ward mission_id mission ≡ found
      → Reads id ward_id mission.fleet_mission_id (some mission)
      → Post Stays Any (rest s)
      → Stays s
      → Post Stays Any (settle_upload store succeeds message mission rest found s)
  unfolding settle_upload
  settle_upload-Post ward mission_id succeeds message mission rest none s e r k o = k
  settle_upload-Post ward mission_id succeeds message mission rest (some state) s e r k o =
      let new = uploaded_state succeeds message state in
      let named = uploaded_state-ward succeeds message state in
      let elsewhere = awaited-elsewhere ward_id ward mission_id mission state e in
      let apart : (text_eq mission.fleet_mission_id id && text_eq new.ward_id ward_id) ≡ false =
        rw named (ground arith) in
      Post-bind Stays Any Any
        (on_store store (store.update_ward_state mission.fleet_mission_id new))
        (λ _. broadcast_updated store mission.fleet_mission_id) s
        (writes-Post store view laws id ward_id mission.fleet_mission_id new s (inl apart) o)
        (λ u s' _ o'. broadcast-Post store view laws id ward_id mission.fleet_mission_id s' o')

  upload_outcome-Post :
      (ward mission_id : Text) (succeeds : Bool) (message : Text)
      (missions : List (FleetMission D F)) (s : FleetState S V D F)
      → AllRead id ward_id missions
      → Stays s
      → Post Stays Any (upload_outcome store ward mission_id succeeds message missions s)
  unfolding upload_outcome
  upload_outcome-Post ward mission_id succeeds message [] s r o = (o, tt)
  upload_outcome-Post ward mission_id succeeds message (mission ∷ missions) s r o =
      settle_upload-Post ward mission_id succeeds message mission
        (upload_outcome store ward mission_id succeeds message missions)
        (is_awaited ward mission_id mission) s refl r.0
        (upload_outcome-Post ward mission_id succeeds message missions s r.1 o) o

  pub handle_mission_upload_outcome-Orphan :
      (ward mission_id : Text) (succeeds : Bool) (message : Text) (s : FleetState S V D F)
      → Stays s
      → Stays (handle_mission_upload_outcome store ward mission_id succeeds message s)
  unfolding handle_mission_upload_outcome
  handle_mission_upload_outcome-Orphan ward mission_id succeeds message s o =
      let listed = on_store store store.list_fleet_missions in
      let kept = laws.list-keeps s.store id in
      let search_missions = upload_outcome store ward mission_id succeeds message in
      Post-caught Stays Any ((listed >>= search_missions) s) (λ error. tt)
        (Post-bind Stays (AllRead id ward_id) Any listed search_missions s
          (Post-intro Stays (AllRead id ward_id) (listed s) (rw kept o.0, o.1)
            (λ ms e.
              stored-AllRead (view s.store) id ward_id ms o.0 (laws.list-reads s.store ms e)))
          (λ ms s' r o'. upload_outcome-Post ward mission_id succeeds message ms s' r o'))
