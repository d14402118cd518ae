-- ===== src/Fleet/MissionStore.antt =====
-- What the fleet manager relies on of FleetMissionStore: its operations, and their laws.
use karshipta.Common.{
  ℕ, ◌≡◌, false, List, [], ◌∷◌, Option, none, some, if◌then◌else◌, Text, text_eq,
}
use karshipta.Fleet.Messages.{WardMissionPlan, WardMissionState, FleetMission, FleetMissionStatus}
use karshipta.Fleet.Effects.{Result, ok, threw}

-- The first entry of a ward, as `find_if` finds it.
unfoldable pub find_ward_state : List WardMissionState → Text → Option WardMissionState
find_ward_state [] ward_id = none
find_ward_state (state ∷ states) ward_id =
    if text_eq state.ward_id ward_id then some state else find_ward_state states ward_id

-- The row of a ward is replaced.
unfoldable pub put_ward_state : WardMissionState → List WardMissionState → List WardMissionState
put_ward_state new [] = []
put_ward_state new (state ∷ states) =
    (if text_eq state.ward_id new.ward_id then new else state) ∷ put_ward_state new states

module _ {D F : Type 0} where
  unfoldable pub with_ward_state :
      WardMissionState → Option (FleetMission D F) → Option (FleetMission D F)
  unfolding put_ward_state
  with_ward_state state none = none
  with_ward_state state (some mission) =
      some (record mission { ward_states = put_ward_state state mission.ward_states })

  unfoldable pub with_status :
      FleetMissionStatus → Option (FleetMission D F) → Option (FleetMission D F)
  with_status status none = none
  with_status status (some mission) = some (record mission { status = status })

-- The operations may throw. Those that return an `Option Text` report an unknown id by it.
pub record MissionStore (S D F : Type 0) : Type 0 where
  pub create_fleet_mission : Text → Text → ℕ → List (WardMissionPlan D F) → S → Result Text × S
  pub get_fleet_mission : Text → S → Result (Option (FleetMission D F)) × S
  pub list_fleet_missions : S → Result (List (FleetMission D F)) × S
  pub update_ward_state : Text → WardMissionState → S → Result (Option Text) × S
  pub set_status : Text → FleetMissionStatus → S → Result (Option Text) × S
  pub update_ward_plans :
      Text → Text → ℕ → List (WardMissionPlan D F) → S → Result (Option Text) × S
  pub delete_fleet_mission : Text → S → Result (Option Text) × S

-- No ward has two rows.
abbrev pub Distinct : List WardMissionState → Type 0
Distinct [] = Unit {0}
Distinct (state ∷ states) = (find_ward_state states state.ward_id ≡ none) × Distinct states

-- The listed missions are those that are stored under their ids.
abbrev pub AllStored :
    {D F : Type 0} → (Text → Option (FleetMission D F)) → List (FleetMission D F) → Type 0
AllStored view [] = Unit {0}
AllStored view (mission ∷ missions) =
    (view mission.fleet_mission_id ≡ some mission) × AllStored view missions

-- What the operations do to the missions that are stored. One that throws changes nothing; the ids are
-- primary keys.
pub record IsMissionStore {S D F : Type 0} (store : MissionStore S D F)
    (view : S → Text → Option (FleetMission D F)) : Type 0 where
  pub get-keeps :
      (id : Text) (s : S) (j : Text) → view (store.get_fleet_mission id s).1 j ≡ view s j
  pub get-reads :
      (id : Text) (s : S) (m : Option (FleetMission D F))
      → (store.get_fleet_mission id s).0 ≡ ok m
      → m ≡ view s id
  pub list-keeps : (s : S) (j : Text) → view (store.list_fleet_missions s).1 j ≡ view s j
  pub list-reads :
      (s : S) (ms : List (FleetMission D F))
      → (store.list_fleet_missions s).0 ≡ ok ms
      → AllStored (view s) ms
  pub update-writes :
      (id : Text) (state : WardMissionState) (s : S) (r : Option Text) (j : Text)
      → (store.update_ward_state id state s).0 ≡ ok r
      → view (store.update_ward_state id state s).1 j
        ≡ (if text_eq id j then with_ward_state state (view s j) else view s j)
  pub update-fails :
      (id : Text) (state : WardMissionState) (s : S) (e j : Text)
      → (store.update_ward_state id state s).0 ≡ threw e
      → view (store.update_ward_state id state s).1 j ≡ view s j
  pub status-writes :
      (id : Text) (status : FleetMissionStatus) (s : S) (r : Option Text) (j : Text)
      → (store.set_status id status s).0 ≡ ok r
      → view (store.set_status id status s).1 j
        ≡ (if text_eq id j then with_status status (view s j) else view s j)
  pub status-fails :
      (id : Text) (status : FleetMissionStatus) (s : S) (e j : Text)
      → (store.set_status id status s).0 ≡ threw e
      → view (store.set_status id status s).1 j ≡ view s j
  pub delete-writes :
      (id : Text) (s : S) (r : Option Text) (j : Text)
      → (store.delete_fleet_mission id s).0 ≡ ok r
      → view (store.delete_fleet_mission id s).1 j ≡ (if text_eq id j then none else view s j)
  pub delete-unknown :
      (id : Text) (s : S) (message : Text)
      → (store.delete_fleet_mission id s).0 ≡ ok (some message)
      → view s id ≡ none
  pub delete-fails :
      (id : Text) (s : S) (e j : Text)
      → (store.delete_fleet_mission id s).0 ≡ threw e
      → view (store.delete_fleet_mission id s).1 j ≡ view s j
  pub create-fresh :
      (fleet_id name : Text) (repeat_count : ℕ) (plans : List (WardMissionPlan D F)) (s : S)
      (id : Text)
      → (store.create_fleet_mission fleet_id name repeat_count plans s).0 ≡ ok id
      → view s id ≡ none
  pub create-keeps :
      (fleet_id name : Text) (repeat_count : ℕ) (plans : List (WardMissionPlan D F)) (s : S)
      (id j : Text)
      → (store.create_fleet_mission fleet_id name repeat_count plans s).0 ≡ ok id
      → text_eq id j ≡ false
      → view (store.create_fleet_mission fleet_id name repeat_count plans s).1 j ≡ view s j
  pub create-fails :
      (fleet_id name : Text) (repeat_count : ℕ) (plans : List (WardMissionPlan D F)) (s : S)
      (e j : Text)
      → (store.create_fleet_mission fleet_id name repeat_count plans s).0 ≡ threw e
      → view (store.create_fleet_mission fleet_id name repeat_count plans s).1 j ≡ view s j
  pub plans-keeps :
      (id name : Text) (repeat_count : ℕ) (plans : List (WardMissionPlan D F)) (s : S) (j : Text)
      → text_eq id j ≡ false
      → view (store.update_ward_plans id name repeat_count plans s).1 j ≡ view s j
  pub plans-fails :
      (id name : Text) (repeat_count : ℕ) (plans : List (WardMissionPlan D F)) (s : S) (e j : Text)
      → (store.update_ward_plans id name repeat_count plans s).0 ≡ threw e
      → view (store.update_ward_plans id name repeat_count plans s).1 j ≡ view s j
  pub wards-Distinct :
      (s : S) (id : Text) (m : FleetMission D F) → view s id ≡ some m → Distinct m.ward_states
