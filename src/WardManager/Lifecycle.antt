-- ===== src/WardManager/Lifecycle.antt =====
-- ward_manager.cpp, how one ward is started and stopped.
use karshipta.WardManager.Sections.{stop_worker, clear_busy, retire_executor, restore_executor}
use karshipta.Common.{
  zero, not, ltb, suc, ◌∷◌, text, false, ◌||◌, none, ◌+◌, true, if◌then◌else◌, ◌++◌, [], some, ℕ,
  Option, Text, Bool, List,
}
use karshipta.WardManager.Types.{ManagedWard}

pub data LinkState : Type 0 where
  never_discovered link_connected link_down : LinkState

pub data DisarmOutcome : Type 0 where
  disarmed disarm_failed disarm_timed_out : DisarmOutcome

-- The vehicles and the clock, as the ward manager sees them. The world may move on with each call: what
-- others do meanwhile, the pilot and the threads of MAVSDK, is in it.
pub record Vehicles (V : Type 0) : Type 0 where
  pub link_state : Text → V → LinkState × V
  pub is_in_air : Text → V → Bool × V
  pub is_armed : Text → V → Bool × V
  pub disarm : Text → V → DisarmOutcome × V
  pub return_to_launch : Text → V → Bool × V
  pub join_executor : Text → V → V
  pub sleep_poll_interval : V → V
  pub now_ms : V → ℕ

unfoldable pub is_link_down : LinkState → Bool
is_link_down link_down = true
is_link_down never_discovered = false
is_link_down link_connected = false

unfoldable pub is_link_connected : LinkState → Bool
is_link_connected link_connected = true
is_link_connected never_discovered = false
is_link_connected link_down = false

unfoldable pub is_disarmed : DisarmOutcome → Bool
is_disarmed disarmed = true
is_disarmed disarm_failed = false
is_disarmed disarm_timed_out = false

unfoldable pub landing_timeout_ms : ℕ
landing_timeout_ms = 120000

-- A ward, the world, and the executors that were destroyed.
pub record Scene (E M V : Type 0) : Type 0 where
  pub ward : ManagedWard E M
  pub world : V
  pub retired : List E

unfoldable pub retired_list : {E : Type 0} → Option E → List E
retired_list none = []
retired_list (some executor) = executor ∷ []

module _ {V : Type 0} (vehicles : Vehicles V) (id : Text) where
  -- One look at a ward that flies home: connected, landed and disarmed. What the link or the flight
  -- decides is not followed by another reading.
  unfoldable pub has_landed : V → Bool × V
  unfolding is_link_connected
  has_landed v =
      let link = vehicles.link_state id v in
      let air = vehicles.is_in_air id link.1 in
      let armed = vehicles.is_armed id air.1 in
      if not (is_link_connected link.0)
      then (false, link.1)
      else if air.0
      then (false, air.1)
      else (not armed.0, armed.1)

  -- The loop that supervises the flight home, on fuel; `none` says that the fuel ran out.
  unfoldable pub await_landing : ℕ → ℕ → V → Option Bool × V
  unfolding has_landed
  await_landing zero deadline v = (none, v)
  await_landing (suc fuel) deadline v =
      let seen = has_landed v in
      let rest = await_landing fuel deadline (vehicles.sleep_poll_interval seen.1) in
      if ltb (vehicles.now_ms v) deadline
      then if seen.0 then (some true, seen.1) else rest
      else (some false, v)

module _ {E M V : Type 0} (vehicles : Vehicles V) where
  abbrev pub observe : {A : Type 0} → (Text → V → A × V) → Scene E M V → A × Scene E M V
  observe reading s =
      let seen = reading s.ward.config.ward_id s.world in (seen.0, record s { world = seen.1 })

  unfoldable pub disarm_if_armed : Scene E M V → Bool × Scene E M V
  unfolding is_disarmed
  disarm_if_armed s =
      let armed = observe vehicles.is_armed s in
      let outcome = observe vehicles.disarm armed.1 in
      if armed.0 then (is_disarmed outcome.0, outcome.1) else (true, armed.1)

  -- The executor's worker is joined, which may take a while.
  unfoldable pub retire : Scene E M V → Scene E M V
  unfolding retire_executor retired_list
  retire s = record s {
    ward = retire_executor s.ward;
    world = vehicles.join_executor s.ward.config.ward_id s.world;
    retired = s.retired ++ retired_list s.ward.executor;
  }

  unfoldable pub give_back : E → Text → Scene E M V → Option Text × Scene E M V
  unfolding restore_executor
  give_back made error s = (some error, record s { ward = restore_executor made s.ward })

  -- `made` is a new executor.
  unfoldable pub verify_grounded_and_disarm : E → Scene E M V → Option Text × Scene E M V
  unfolding disarm_if_armed give_back is_link_down
  verify_grounded_and_disarm made s =
      let link = observe vehicles.link_state s in
      if is_link_down link.0
      then give_back made (text "link dropped during transition") link.1
      else let air = observe vehicles.is_in_air link.1 in
        if air.0
        then give_back made (text "ward took off during transition") air.1
        else let safe = disarm_if_armed air.1 in
          if safe.0 then (none, safe.1) else give_back made (text "failed to disarm") safe.1

  -- The end of a transition whose check has passed or failed.
  unfoldable pub finish : Option Text × Scene E M V → Option Text × Scene E M V
  unfolding clear_busy stop_worker
  finish (some error, s) = (some error, record s { ward = clear_busy s.ward })
  finish (none, s) = (none, record s { ward = clear_busy (stop_worker s.ward) })

  -- The part of `stop` and of `remove_ward_impl` once their guards have passed.
  unfoldable pub transition : E → Scene E M V → Option Text × Scene E M V
  unfolding retire verify_grounded_and_disarm finish
  transition made s = finish (verify_grounded_and_disarm made (retire s))

  unfoldable pub stop_scene : E → Scene E M V → Option Text × Scene E M V
  unfolding transition is_link_down
  stop_scene made s =
      if s.ward.busy
      then (some (text "mid-transition"), s)
      else if not s.ward.running
      then (some (text "not running"), s)
      else let link = observe vehicles.link_state s in
        if is_link_down link.0
        then (some (text "link is down, state unknown; use force_stop"), link.1)
        else let air = observe vehicles.is_in_air link.1 in
          if air.0 then (some (text "in the air"), air.1) else transition made air.1

  -- `remove_ward_impl`, for a ward that is there, up to the erasure.
  unfoldable pub take_down : E → Scene E M V → Option Text × Scene E M V
  unfolding transition is_link_down
  take_down made s =
      if s.ward.busy
      then (some (text "ward is mid-transition"), s)
      else let link = observe vehicles.link_state s in
        if is_link_down link.0
        then (some (text "link is down, ward state unknown"), link.1)
        else let air = observe vehicles.is_in_air link.1 in
          if air.0 then (some (text "ward is in the air"), air.1) else transition made air.1

  -- Once the ward is known to be on the ground, or is thought to be.
  unfoldable pub take_offline : Scene E M V → Option Bool × Scene E M V
  unfolding disarm_if_armed stop_worker clear_busy
  take_offline s =
      let safe = disarm_if_armed s in
      (some true, record safe.1 { ward = clear_busy (stop_worker safe.1.ward) })

  -- What follows the loop; the scene is the one before it.
  unfoldable pub supervised : E → Scene E M V → Option Bool × V → Option Bool × Scene E M V
  unfolding take_offline restore_executor clear_busy
  supervised made s (none, v) = (none, record s { world = v })
  supervised made s (some true, v) = take_offline (record s { world = v })
  supervised made s (some false, v) =
      (some false, record s { ward = clear_busy (restore_executor made s.ward); world = v })

  unfoldable pub fly_home : ℕ → E → Scene E M V → Option Bool × Scene E M V
  unfolding await_landing supervised landing_timeout_ms
  fly_home fuel made s =
      let commanded = observe vehicles.return_to_launch s in
      let deadline = vehicles.now_ms commanded.1.world + landing_timeout_ms in
      supervised made commanded.1
        (await_landing vehicles s.ward.config.ward_id fuel deadline commanded.1.world)

  -- Both readings come before the test.
  unfoldable pub force_stop_retired : ℕ → E → Scene E M V → Option Bool × Scene E M V
  unfolding fly_home take_offline is_link_down
  force_stop_retired fuel made s =
      let link = observe vehicles.link_state s in
      let air = observe vehicles.is_in_air link.1 in
      if air.0 || is_link_down link.0 then fly_home fuel made air.1 else take_offline air.1

  unfoldable pub force_stop : ℕ → E → Scene E M V → Option Bool × Scene E M V
  unfolding retire force_stop_retired
  force_stop fuel made s =
      if s.ward.busy then (some false, s) else force_stop_retired fuel made (retire s)
