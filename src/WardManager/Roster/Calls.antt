-- ===== src/WardManager/Roster/Calls.antt =====
-- ward_manager.cpp, the operations on a ward by its id, and what is done for every ward.
use karshipta.WardManager.Lifecycle.{stop_scene, Scene, force_stop, take_down}
use karshipta.WardManager.Sections.{start_worker}
use karshipta.Common.{
  true, ◌||◌, if◌then◌else◌, [], none, false, ◌++◌, ℕ, some, erase, Bool, ◌∷◌, lookup, insert,
  Option, List, Text, text,
}
use karshipta.WardManager.Roster.{ManagedWard, persist_locked, Tools, WardRegistry}

unfoldable pub list_ward_ids : {E M : Type 0} → List (Text × ManagedWard E M) → List Text
list_ward_ids [] = []
list_ward_ids ((id, ward) ∷ rest) = id ∷ list_ward_ids rest

module _ {E M B V : Type 0} where
  unfoldable pub scene_of : ManagedWard E M → WardRegistry E M B V → Scene E M V
  scene_of ward s = record { ward = ward; world = s.world; retired = s.retired }

  -- A ward whose part has run: the objects are shared, so the registry has what became of it.
  unfoldable pub put_back :
      {A : Type 0} → Text → A × Scene E M V → WardRegistry E M B V → A × WardRegistry E M B V
  unfolding insert
  put_back id (result, scene) s = (
    result,
    record s {
      managed_wards = insert id scene.ward s.managed_wards;
      world = scene.world;
      retired = scene.retired;
    },
  )

  -- What a ward that was looked up is asked to do; `unknown` without one.
  unfoldable pub on_ward :
      {A : Type 0}
      → A
      → (Scene E M V → A × Scene E M V)
      → Text
      → Option (ManagedWard E M)
      → WardRegistry E M B V
      → A × WardRegistry E M B V
  unfolding put_back scene_of
  on_ward unknown call id none s = (unknown, s)
  on_ward unknown call id (some ward) s = put_back id (call (scene_of ward s)) s

module _ {E M N B V : Type 0} (tools : Tools E M N B V) where
  unfoldable pub start_scene : Scene E M V → Bool × Scene E M V
  unfolding start_worker
  start_scene s =
      if s.ward.busy || s.ward.running
      then (false, s)
      else (true, record s { ward = start_worker (tools.make_executor s.ward.config) s.ward })

  unfoldable pub start_ward : Text → WardRegistry E M B V → Bool × WardRegistry E M B V
  unfolding start_scene on_ward lookup
  start_ward id s = on_ward false start_scene id (lookup id s.managed_wards) s

  unfoldable pub stop_managed_ward :
      Text → WardRegistry E M B V → Option Text × WardRegistry E M B V
  unfolding stop_scene on_ward lookup
  stop_managed_ward id s =
      on_ward (some (text "unknown ward_id"))
        (λ scene. stop_scene tools.vehicles (tools.make_executor scene.ward.config) scene) id
        (lookup id s.managed_wards) s

  unfoldable pub force_stop_ward :
      ℕ → Text → WardRegistry E M B V → Option Bool × WardRegistry E M B V
  unfolding force_stop on_ward lookup
  force_stop_ward fuel id s =
      on_ward (some false)
        (λ scene. force_stop tools.vehicles fuel (tools.make_executor scene.ward.config) scene) id
        (lookup id s.managed_wards) s

  -- The end of `remove_ward_impl`.
  unfoldable pub erase_ward :
      Text → Option Text × WardRegistry E M B V → Option Text × WardRegistry E M B V
  unfolding persist_locked erase
  erase_ward id (some error, s) = (some error, s)
  erase_ward id (none, s) =
      (none, persist_locked tools (record s { managed_wards = erase id s.managed_wards }))

  unfoldable pub remove_ward_impl : Text → WardRegistry E M B V → Option Text × WardRegistry E M B V
  unfolding take_down on_ward erase_ward lookup
  remove_ward_impl id s = erase_ward id (
      on_ward (some (text "unknown ward_id: " ++ id))
        (λ scene. take_down tools.vehicles (tools.make_executor scene.ward.config) scene) id
        (lookup id s.managed_wards) s)

  unfoldable pub start_each : List Text → WardRegistry E M B V → WardRegistry E M B V
  unfolding start_ward
  start_each [] s = s
  start_each (id ∷ ids) s = start_each ids (start_ward id s).1

  unfoldable pub start_all : WardRegistry E M B V → WardRegistry E M B V
  unfolding start_each list_ward_ids
  start_all s = start_each (list_ward_ids s.managed_wards) s
