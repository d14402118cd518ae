-- ===== src/Fleet/Orphan.antt =====
-- A ward that is marked as stopping, with no stop command of it under way.
pub mod Steps
pub mod Outcomes
pub mod Stop
pub mod Routes
pub mod Create
pub mod Run
use karshipta.Fleet.Stop.{is_stoppable}
use karshipta.Fleet.Missions.{is_settled, PendingStop, is_stopping, every_ward_settled}
use karshipta.Common.{
  ℕ, ◌≡◌, refl, ap, sym, ◌∙◌, ◌⊎◌, inl, inr, Bool, true, false, not, ◌&&◌, ◌||◌, List, [], ◌∷◌,
  Option, none, some, arith, if◌then◌else◌, Text, text_eq, text_eq_iff, lookup, insert, erase,
  Option-cases,
}
use karshipta.Fleet.Messages.{stopping, WardMissionState, FleetMission, FleetMissionStatus}
use karshipta.Fleet.MissionStore.{
  MissionStore, IsMissionStore, find_ward_state, put_ward_state, with_ward_state, with_status,
  Distinct,
}

-- The stored state of the ward is `stopping`.
unfoldable pub ward_stopping : List WardMissionState → Text → Bool
unfolding is_stopping
ward_stopping states ward_id = elim (find_ward_state states ward_id) [
  | none ↦ false
  | some state ↦ is_stopping state.status
]

unfoldable pub holds_stopping : {D F : Type 0} → Option (FleetMission D F) → Text → Bool
unfolding ward_stopping
holds_stopping none ward_id = false
holds_stopping (some mission) ward_id = ward_stopping mission.ward_states ward_id

unfoldable pub is_stop_of : Text → Text → PendingStop → Bool
is_stop_of id ward_id pending =
    text_eq pending.fleet_mission_id id && text_eq pending.ward_id ward_id

-- A stop command of the ward is under way.
unfoldable pub tracks : Text → Text → List (Text × PendingStop) → Bool
unfolding is_stop_of
tracks id ward_id [] = false
tracks id ward_id ((key, pending) ∷ entries) =
    is_stop_of id ward_id pending || tracks id ward_id entries

pub find-put :
    (new : WardMissionState) (states : List WardMissionState) (ward_id : Text)
    → find_ward_state (put_ward_state new states) ward_id ≡ (elim (find_ward_state states ward_id) [
      | none ↦ none
      | some old ↦ if text_eq new.ward_id ward_id then some new else some old
    ])
unfolding find_ward_state put_ward_state
find-put new [] ward_id = refl
find-put new (state ∷ states) ward_id = ground (
  arith,
  find-put new states ward_id,
  text_eq_iff state.ward_id new.ward_id,
  text_eq_iff state.ward_id ward_id,
  text_eq_iff new.ward_id ward_id,
)

pub find-named :
    (states : List WardMissionState) (ward_id : Text) (state : WardMissionState)
    → find_ward_state states ward_id ≡ some state
    → text_eq state.ward_id ward_id ≡ true
unfolding find_ward_state
find-named [] ward_id state e = cc
find-named (first ∷ states) ward_id state e =
    let rest = find-named states ward_id state in ground arith

pub ward_stopping-put :
    (new : WardMissionState) (states : List WardMissionState) (ward_id : Text)
    → (text_eq new.ward_id ward_id ≡ false) ⊎ (is_stopping new.status ≡ true)
    → ward_stopping states ward_id ≡ true
    → ward_stopping (put_ward_state new states) ward_id ≡ true
unfolding ward_stopping
ward_stopping-put new states ward_id h e = let found = find-put new states ward_id in ground arith

-- A mission with a stopping ward is not settled.
pub ward_stopping-unsettled :
    (states : List WardMissionState) (ward_id : Text)
    → ward_stopping states ward_id ≡ true
    → every_ward_settled states ≡ false
unfolding ward_stopping every_ward_settled find_ward_state is_settled is_stopping
ward_stopping-unsettled [] ward_id e = cc
ward_stopping-unsettled (state ∷ states) ward_id e =
    let rest = ward_stopping-unsettled states ward_id in ground arith

-- The stop loop skips the ward.
abbrev pub Skips : Text → List WardMissionState → Type 0
Skips ward_id [] = Unit {0}
Skips ward_id (state ∷ states) =
    (text_eq state.ward_id ward_id ≡ true → is_stoppable state ≡ false) × Skips ward_id states

pub missing-Skips :
    (states : List WardMissionState) (ward_id : Text)
    → find_ward_state states ward_id ≡ none
    → Skips ward_id states
unfolding find_ward_state
missing-Skips [] ward_id e = tt
missing-Skips (state ∷ states) ward_id e = let rest = missing-Skips states ward_id in ground arith

pub ward_stopping-Skips :
    (states : List WardMissionState) (ward_id : Text)
    → Distinct states
    → ward_stopping states ward_id ≡ true
    → Skips ward_id states
unfolding ward_stopping find_ward_state is_stoppable is_stopping
ward_stopping-Skips [] ward_id d e = tt
ward_stopping-Skips (state ∷ states) ward_id d e =
    let rest = ward_stopping-Skips states ward_id d.1 in
    let missing = missing-Skips states ward_id in
    let same = text_eq_iff state.ward_id ward_id in ground arith

pub tracks-none : (id ward_id : Text) → tracks id ward_id [] ≡ false
unfolding tracks
tracks-none id ward_id = refl

pub tracks-lookup :
    (id ward_id key : Text) (entries : List (Text × PendingStop)) (pending : PendingStop)
    → tracks id ward_id entries ≡ false
    → lookup key entries ≡ some pending
    → is_stop_of id ward_id pending ≡ false
unfolding tracks lookup
tracks-lookup id ward_id key [] pending t e = cc
tracks-lookup id ward_id key ((first, p) ∷ entries) pending t e =
    let rest = tracks-lookup id ward_id key entries pending in ground arith

pub tracks-erase :
    (id ward_id key : Text) (entries : List (Text × PendingStop))
    → tracks id ward_id entries ≡ false
    → tracks id ward_id (erase key entries) ≡ false
unfolding tracks erase
tracks-erase id ward_id key [] t = refl
tracks-erase id ward_id key ((first, p) ∷ entries) t =
    let rest = tracks-erase id ward_id key entries in ground arith

pub tracks-insert :
    (id ward_id key : Text) (pending : PendingStop) (entries : List (Text × PendingStop))
    → is_stop_of id ward_id pending ≡ false
    → tracks id ward_id entries ≡ false
    → tracks id ward_id (insert key pending entries) ≡ false
unfolding tracks insert
tracks-insert id ward_id key pending [] p t = ground arith
tracks-insert id ward_id key pending ((first, q) ∷ entries) p t =
    let rest = tracks-insert id ward_id key pending entries in ground arith

pub holds-with_ward_state :
    {D F : Type 0} (new : WardMissionState) (mission : Option (FleetMission D F)) (ward_id : Text)
    → (text_eq new.ward_id ward_id ≡ false) ⊎ (is_stopping new.status ≡ true)
    → holds_stopping mission ward_id ≡ true
    → holds_stopping (with_ward_state new mission) ward_id ≡ true
unfolding holds_stopping with_ward_state
holds-with_ward_state new none ward_id h e = cc
holds-with_ward_state new (some mission) ward_id h e =
    ward_stopping-put new mission.ward_states ward_id h e

pub holds-with_status :
    {D F : Type 0} (status : FleetMissionStatus) (mission : Option (FleetMission D F))
    (ward_id : Text)
    → holds_stopping (with_status status mission) ward_id ≡ holds_stopping mission ward_id
unfolding holds_stopping with_status
holds-with_status status none ward_id = refl
holds-with_status status (some mission) ward_id = refl

-- What is read of a mission shows the ward stopping, if it is that mission.
abbrev pub Reads : {D F : Type 0} → Text → Text → Text → Option (FleetMission D F) → Type 0
Reads id ward_id id' mission = text_eq id' id ≡ true → holds_stopping mission ward_id ≡ true
