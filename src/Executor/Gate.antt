-- ===== src/Executor/Gate.antt =====
-- Which calls on the vehicle a command leads to.
use karshipta.Common.{
  ◌+◌, ◌<◌, ◌≡◌, ◌≢◌, refl, ◌↔◌, ◌⊎◌, Bool, true, false, List, [], ◌∷◌, Option, none, some, arith,
}
use karshipta.Messages.{
  CommandAction, action_not_set, arm, land, start_mission, pause_mission, disarm, takeoff, rtl,
  goto, set_home, Command,
}
use karshipta.Executor.Vehicle.{
  Call, call_notify_interrupted, Outcome, succeeded, failed, Vehicle, Float,
}
use karshipta.Executor.Dispatch.{
  dispatch, dispatch_action, outcome, setup_failure, drift_ms, is_authority_gated,
}

-- Whether every call succeeded.
abbrev pub all_succeeded : {D F : Type 0} → List (Call D F × Option Outcome) → Bool
all_succeeded [] = true
all_succeeded ((call, some succeeded) ∷ calls) = all_succeeded calls
all_succeeded ((call, some (failed name)) ∷ calls) = false
all_succeeded ((call, none) ∷ calls) = false

-- The commands that end a mission under way.
abbrev pub interrupts : {D F : Type 0} → CommandAction D F → Bool
interrupts (disarm force) = force
interrupts land = true
interrupts (rtl altitude) = true
interrupts (goto (some target) speed) = true
interrupts action = false

abbrev is_notice : {D F : Type 0} → Call D F → Bool
is_notice call_notify_interrupted = true
is_notice call = false

abbrev pub notified : {D F : Type 0} → List (Call D F × Option Outcome) → Bool
notified [] = false
notified ((call, outcome) ∷ calls) = elim (is_notice call) [ true ↦ true | false ↦ notified calls ]

module _ {W D F : Type 0} (vehicle : Vehicle W D F) (float : Float F) where
  -- A command succeeds exactly if it made calls on the vehicle and all of them succeeded.
  dispatch_action-success :
      (action : CommandAction D F) (w : W)
      → ((dispatch_action vehicle float action w).value.0 ≡ true)
        ↔ ((dispatch_action vehicle float action w).calls ≢ [])
          × (all_succeeded (dispatch_action vehicle float action w).calls ≡ true)
  unfolding dispatch_action outcome setup_failure
  dispatch_action-success arm w = ground arith
  dispatch_action-success (disarm true) w = ground arith
  dispatch_action-success (disarm false) w = ground arith
  dispatch_action-success (takeoff altitude) w = ground arith
  dispatch_action-success land w = ground arith
  dispatch_action-success (rtl altitude) w = ground arith
  dispatch_action-success (goto none speed) w = ground arith
  dispatch_action-success (goto (some target) speed) w = ground arith
  dispatch_action-success (set_home none) w = ground arith
  dispatch_action-success (set_home (some target)) w = ground arith
  dispatch_action-success start_mission w = ground arith
  dispatch_action-success pause_mission w = ground arith
  dispatch_action-success action_not_set w = ground arith

  -- The first call is the notice of an interruption exactly if `interrupting`, and no later one is.
  abbrev pub Notices : Bool → List (Call D F × Option Outcome) → Type 0
  Notices interrupting [] = Unit {0}
  Notices interrupting ((call, outcome) ∷ calls) =
      (is_notice call ≡ interrupting) × (notified calls ≡ false)

  dispatch_action-Notices :
      (action : CommandAction D F) (w : W)
      → Notices (interrupts action) (dispatch_action vehicle float action w).calls
  unfolding dispatch_action setup_failure
  dispatch_action-Notices arm w = (refl, refl)
  dispatch_action-Notices (disarm true) w = (refl, refl)
  dispatch_action-Notices (disarm false) w = (refl, refl)
  dispatch_action-Notices (takeoff altitude) w = ground arith
  dispatch_action-Notices land w = (refl, refl)
  dispatch_action-Notices (rtl altitude) w = ground arith
  dispatch_action-Notices (goto none speed) w = tt
  dispatch_action-Notices (goto (some target) speed) w = ground arith
  dispatch_action-Notices (set_home none) w = tt
  dispatch_action-Notices (set_home (some target)) w = (refl, refl)
  dispatch_action-Notices start_mission w = ground arith
  dispatch_action-Notices pause_mission w = ground arith
  dispatch_action-Notices action_not_set w = tt

  gated_calls :
      (action : CommandAction D F) (w : W)
      → is_authority_gated action ≡ true
      → (dispatch_action vehicle float action w).calls ≢ []
  unfolding dispatch_action setup_failure is_authority_gated
  gated_calls arm w e = ground arith
  gated_calls (disarm true) w e = ground arith
  gated_calls (disarm false) w e = ground arith
  gated_calls (takeoff altitude) w e = ground arith
  gated_calls land w e = ground arith
  gated_calls (rtl altitude) w e = ground arith
  gated_calls (goto target speed) w e = cc
  gated_calls (set_home target) w e = cc
  gated_calls start_mission w e = cc
  gated_calls pause_mission w e = cc
  gated_calls action_not_set w e = cc

  -- The answer to a command is a success exactly if calls on the vehicle were made for it and all of
  -- them succeeded.
  pub dispatch-success :
      (command : Command D F) (w : W)
      → ((dispatch vehicle float command w).value.0 ≡ true)
        ↔ ((dispatch vehicle float command w).calls ≢ [])
          × (all_succeeded (dispatch vehicle float command w).calls ≡ true)
  unfolding dispatch
  dispatch-success command w =
      let inside = dispatch_action-success command.action w in ground (arith, inside)

  -- If a command leads to any call, the first one tells the mission of the interruption exactly for a
  -- forced disarm, land, return to launch, or goto with a target, and no later call does.
  pub dispatch-Notices :
      (command : Command D F) (w : W)
      → Notices (interrupts command.action) (dispatch vehicle float command w).calls
  unfolding dispatch
  dispatch-Notices command w =
      let inside = dispatch_action-Notices command.action w in ground (arith, inside)

  -- An arm, disarm, takeoff, land or return to launch leads to no call exactly if its timestamp is more
  -- than 5 seconds before or after the time of execution.
  pub dispatch-window :
      (command : Command D F) (w : W)
      → is_authority_gated command.action ≡ true
      → ((dispatch vehicle float command w).calls ≡ []) ↔ (
          (command.timestamp_ms + 5000 < vehicle.now_ms w)
          ⊎ (vehicle.now_ms w + 5000 < command.timestamp_ms))
  unfolding dispatch drift_ms
  dispatch-window command w gated =
      let inside = gated_calls command.action w gated in ground (arith, inside)
