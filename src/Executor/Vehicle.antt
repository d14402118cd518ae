-- ===== src/Executor/Vehicle.antt =====
-- What command_executor.cpp calls of WardActions, TelemetryInfo and WardMission. The calls end in
-- MAVSDK, so their outcomes are those of a vehicle `W` that the model is given.
use karshipta.Common.{ℕ, Bool, true, List, [], ◌∷◌, ◌++◌, Option, some, Text}

pub data Call (D F : Type 0) : Type 0 where
  call_arm call_disarm call_kill call_takeoff call_land call_return_to_launch call_hold : Call D F
  call_set_takeoff_altitude call_set_return_to_launch_altitude call_set_current_speed : F → Call D F
  call_goto_location : D → D → F → F → Call D F
  call_set_home_position : D → D → F → Call D F
  call_start_mission call_pause_mission call_notify_interrupted : Call D F

-- `failed` carries the `result_name` of a result other than Success.
pub data Outcome : Type 0 where
  succeeded : Outcome
  failed : Text → Outcome

pub record Position (F : Type 0) : Type 0 where
  pub absolute_altitude_m : F
  pub relative_altitude_m : F

-- `act` is a blocking call, and `await` one of the two asynchronous ones, waited for: `none` where the
-- stop request ends the wait. Each also gives the vehicle after it.
pub record Vehicle (W D F : Type 0) : Type 0 where
  pub act : Call D F → W → Outcome × W
  pub await : Call D F → W → Option Outcome × W
  pub notify_interrupted : W → W
  pub now_ms : W → ℕ
  pub position : W → Position F
  pub in_mission_mode : W → Bool

-- `float` arithmetic; `at_most` and `above` are both false of a NaN.
pub record Float (F : Type 0) : Type 0 where
  pub zero : F
  pub nan : F
  pub is_nan : F → Bool
  pub above : F → F → Bool
  pub at_most : F → F → Bool
  pub add : F → F → F
  pub subtract : F → F → F

-- The calls that a computation made, with the outcomes it got, and the vehicle after them.
pub record Ran (W D F A : Type 0) : Type 0 where
  pub value : A
  pub calls : List (Call D F × Option Outcome)
  pub world : W

module _ {W D F : Type 0} where
  infixl 5 ◌>>=◌
  abbrev pub ◌>>=◌ : {A B : Type 0} → (W → Ran W D F A) → (A → W → Ran W D F B) → W → Ran W D F B
  (m >>= f) w =
      let first = m w in
      let second = f first.value first.world in
      record { value = second.value; calls = first.calls ++ second.calls; world = second.world }

  abbrev pub done : {A : Type 0} → A → W → Ran W D F A
  done a w = record { value = a; calls = []; world = w }

  -- A value read from the vehicle.
  abbrev pub reading : {A : Type 0} → (W → A) → W → Ran W D F A
  reading f w = record { value = f w; calls = []; world = w }

  module _ (vehicle : Vehicle W D F) where
    abbrev pub perform : Call D F → W → Ran W D F Outcome
    perform call w =
        let answer = vehicle.act call w in
        record { value = answer.0; calls = (call, some answer.0) ∷ []; world = answer.1 }

    abbrev pub wait_for_mission_result : Call D F → W → Ran W D F (Option Outcome)
    wait_for_mission_result call w =
        let answer = vehicle.await call w in
        record { value = answer.0; calls = (call, answer.0) ∷ []; world = answer.1 }

    abbrev pub interrupt : W → Ran W D F Bool
    interrupt w = record {
      value = true;
      calls = (call_notify_interrupted, some succeeded) ∷ [];
      world = vehicle.notify_interrupted w;
    }
