-- ===== src/Fleet/Tests/Slots.antt =====
-- A store of one mission with one ward, which keeps the laws of a mission store.
use karshipta.Fleet.Finish.{Reliable}
use karshipta.Fleet.Effects.{threw, Result}
use karshipta.Fleet.MissionStore.{
  AllStored, IsMissionStore, Distinct, find_ward_state, with_status, put_ward_state, MissionStore,
  with_ward_state,
}
use karshipta.Fleet.Messages.{
  mission_active, uploading, FleetMissionStatus, FleetMission, WardMissionState, WardMissionPlan,
}
use karshipta.Fleet.Effects.{Result, ok, threw}
use karshipta.Common.{
  text_eq_refl, refl, inr, subst, inl, Bool-cases, text_eq_iff, arith, true, false, ◌&&◌, none,
  text_eq, ◌∷◌, some, [], if◌then◌else◌, ◌≡◌, ℕ, text, Text, Option, List,
}

-- The ward's state and the mission's status, if there is the mission.
abbrev pub Slot : Type 0
Slot = Option (WardMissionState × FleetMissionStatus)

abbrev pub the_id : Text
the_id = text "m"

abbrev pub mission_of : WardMissionState × FleetMissionStatus → FleetMission ℕ ℕ
mission_of (state, status) = record {
  fleet_mission_id = the_id;
  fleet_id = [];
  mission_name = text "survey";
  repeat_count = 1;
  ward_plans = [];
  ward_states = state ∷ [];
  status = status;
  created_at_ms = 0;
}

abbrev pub slot_view : Slot → Text → Option (FleetMission ℕ ℕ)
slot_view none id = none
slot_view (some slot) id = if text_eq the_id id then some (mission_of slot) else none

abbrev slot_create : List (WardMissionPlan ℕ ℕ) → Slot → Result Text × Slot
slot_create [] s = (threw (text "no ward"), s)
slot_create (plan ∷ plans) (some slot) = (threw (text "full"), some slot)
slot_create (plan ∷ second ∷ plans) none = (threw (text "full"), none)
slot_create (plan ∷ []) none = (
  ok the_id,
  some (
    record { ward_id = plan.ward_id; status = uploading; message = []; mission_id = [] },
    mission_active,
  ),
)

abbrev slot_update : Text → WardMissionState → Slot → Result (Option Text) × Slot
slot_update id new none = (ok (some (text "unknown")), none)
slot_update id new (some (state, status)) = (
  ok none,
  some (if text_eq the_id id && text_eq state.ward_id new.ward_id then new else state, status),
)

abbrev slot_status : Text → FleetMissionStatus → Slot → Result (Option Text) × Slot
slot_status id new none = (ok (some (text "unknown")), none)
slot_status id new (some (state, status)) =
    (ok none, some (state, if text_eq the_id id then new else status))

abbrev slot_delete : Text → Slot → Result (Option Text) × Slot
slot_delete id none = (ok (some (text "unknown")), none)
slot_delete id (some slot) =
    if text_eq the_id id then (ok none, none) else (ok (some (text "unknown")), some slot)

abbrev all_of : Slot → List (FleetMission ℕ ℕ)
all_of none = []
all_of (some slot) = mission_of slot ∷ []

abbrev pub slots : MissionStore Slot ℕ ℕ
slots = record {
  create_fleet_mission = λ fleet_id name count plans s. slot_create plans s;
  get_fleet_mission = λ id s. (ok (slot_view s id), s);
  list_fleet_missions = λ s. (ok (all_of s), s);
  update_ward_state = slot_update;
  set_status = slot_status;
  update_ward_plans = λ id name count plans s. (ok (some (text "not supported")), s);
  delete_fleet_mission = slot_delete;
}

ok-inj : {A : Type 0} {a b : A} → ok a ≡ ok b → a ≡ b
ok-inj e = cc

-- The ids of the store and of a look-up.
same_ids :
    (id j : Text)
    → (text_eq the_id j ≡ true → text_eq id j ≡ text_eq the_id id)
      × (text_eq the_id j ≡ false → text_eq id j ≡ true → text_eq the_id id ≡ false)
same_ids id j =
    let e = text_eq_iff the_id j in
    let f = text_eq_iff id j in
    let g = text_eq_iff the_id id in (λ x. ground arith, λ x y. ground arith)

update_law :
    (id : Text) (new : WardMissionState) (s : Slot) (j : Text)
    → slot_view (slot_update id new s).1 j
      ≡ (if text_eq id j then with_ward_state new (slot_view s j) else slot_view s j)
unfolding with_ward_state put_ward_state
update_law id new none j = ground arith
update_law id new (some (state, status)) j = let ids = same_ids id j in ground arith

status_law :
    (id : Text) (new : FleetMissionStatus) (s : Slot) (j : Text)
    → slot_view (slot_status id new s).1 j
      ≡ (if text_eq id j then with_status new (slot_view s j) else slot_view s j)
unfolding with_status
status_law id new none j = ground arith
status_law id new (some (state, status)) j = let ids = same_ids id j in ground arith

delete_law :
    (id : Text) (s : Slot) (j : Text)
    → slot_view (slot_delete id s).1 j ≡ (if text_eq id j then none else slot_view s j)
delete_law id none j = ground arith
delete_law id (some slot) j = let ids = same_ids id j in ground arith

unknown_law :
    (id : Text) (s : Slot) (message : Text)
    → (slot_delete id s).0 ≡ ok (some message)
    → slot_view s id ≡ none
unknown_law id none message e = refl
unknown_law id (some slot) message e = ground arith

fresh_law :
    (plans : List (WardMissionPlan ℕ ℕ)) (s : Slot) (id : Text)
    → (slot_create plans s).0 ≡ ok id
    → (slot_view s id ≡ none) × (id ≡ the_id)
fresh_law [] s id e = cc
fresh_law (plan ∷ plans) (some slot) id e = cc
fresh_law (plan ∷ second ∷ plans) none id e = cc
fresh_law (plan ∷ []) none id e = (refl, cc)

create_law :
    (plans : List (WardMissionPlan ℕ ℕ)) (s : Slot) (j : Text)
    → text_eq the_id j ≡ false
    → slot_view (slot_create plans s).1 j ≡ slot_view s j
create_law [] s j e = refl
create_law (plan ∷ plans) (some slot) j e = refl
create_law (plan ∷ second ∷ plans) none j e = refl
create_law (plan ∷ []) none j e = rw e refl

failed_create_law :
    (plans : List (WardMissionPlan ℕ ℕ)) (s : Slot) (error j : Text)
    → (slot_create plans s).0 ≡ threw error
    → slot_view (slot_create plans s).1 j ≡ slot_view s j
failed_create_law [] s error j e = refl
failed_create_law (plan ∷ plans) (some slot) error j e = refl
failed_create_law (plan ∷ second ∷ plans) none error j e = refl
failed_create_law (plan ∷ []) none error j e = cc

one_row :
    (s : Slot) (id : Text) (m : FleetMission ℕ ℕ) → slot_view s id ≡ some m → Distinct m.ward_states
unfolding find_ward_state
one_row none id m e = cc
one_row (some (state, status)) id m e = elim (Bool-cases (text_eq the_id id)) [
  | inl same ↦
      let found : some (mission_of (state, status)) ≡ some m = ground arith in
      let it : mission_of (state, status) ≡ m = cc in
      subst (λ n. Distinct n.ward_states) it (refl, tt)
  | inr other ↦ let missing : none ≡ some m = ground arith in cc
]

update_throws :
    (id : Text) (new : WardMissionState) (s : Slot) (error j : Text)
    → (slot_update id new s).0 ≡ threw error
    → slot_view (slot_update id new s).1 j ≡ slot_view s j
update_throws id new none error j e = refl
update_throws id new (some slot) error j e = cc

status_throws :
    (id : Text) (new : FleetMissionStatus) (s : Slot) (error j : Text)
    → (slot_status id new s).0 ≡ threw error
    → slot_view (slot_status id new s).1 j ≡ slot_view s j
status_throws id new none error j e = refl
status_throws id new (some slot) error j e = cc

delete_throws :
    (id : Text) (s : Slot) (error j : Text)
    → (slot_delete id s).0 ≡ threw error
    → slot_view (slot_delete id s).1 j ≡ slot_view s j
delete_throws id none error j e = refl
delete_throws id (some slot) error j e = ground arith

list_law :
    (s : Slot) (ms : List (FleetMission ℕ ℕ))
    → (slots.list_fleet_missions s).0 ≡ ok ms
    → AllStored (slot_view s) ms
list_law none ms e = let it : [] ≡ ms = cc in subst (AllStored (slot_view none)) it tt
list_law (some slot) ms e =
    let it : mission_of slot ∷ [] ≡ ms = cc in
    subst (AllStored (slot_view (some slot))) it (rw (text_eq_refl the_id) refl, tt)

pub slots-IsMissionStore : IsMissionStore slots slot_view
slots-IsMissionStore = record {
  get-keeps = λ id s j. refl;
  get-reads = λ id s m e. cc;
  list-keeps = λ s j. refl;
  list-reads = list_law;
  update-writes = λ id new s r j e. update_law id new s j;
  update-fails = λ id new s error j e. update_throws id new s error j e;
  status-writes = λ id new s r j e. status_law id new s j;
  status-fails = λ id new s error j e. status_throws id new s error j e;
  delete-writes = λ id s r j e. delete_law id s j;
  delete-unknown = unknown_law;
  delete-fails = λ id s error j e. delete_throws id s error j e;
  create-fresh = λ fleet_id name count plans s id e. (fresh_law plans s id e).0;
  create-keeps = λ fleet_id name count plans s id j e apart.
      create_law plans s j (subst (λ i. text_eq i j ≡ false) (fresh_law plans s id e).1 apart);
  create-fails = λ fleet_id name count plans s error j e. failed_create_law plans s error j e;
  plans-keeps = λ id name count plans s j apart. refl;
  plans-fails = λ id name count plans s error j e. refl;
  wards-Distinct = one_row;
}

update_runs :
    (id : Text) (state : WardMissionState) (s : Slot)
    → (r : Option Text) × ((slot_update id state s).0 ≡ ok r)
update_runs id state none = (_, refl)
update_runs id state (some slot) = (_, refl)

status_runs :
    (id : Text) (status : FleetMissionStatus) (s : Slot)
    → (r : Option Text) × ((slot_status id status s).0 ≡ ok r)
status_runs id status none = (_, refl)
status_runs id status (some slot) = (_, refl)

pub slots-Reliable : Reliable slots slot_view
slots-Reliable = record { get-ok = λ id s. refl; update-ok = update_runs; status-ok = status_runs }
