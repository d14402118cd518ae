-- ===== src/Executor/Dispatch.antt =====
-- command_executor.cpp, `dispatch` and what it calls: one command on the vehicle.
use karshipta.Common.{
  ℕ, ◌-◌, Bool, true, false, ◌&&◌, Option, none, some, [], ◌++◌, ltb, if◌then◌else◌, Text, text,
}
use karshipta.Messages.{
  GeoPoint, CommandAction, action_not_set, arm, land, start_mission, pause_mission, disarm, takeoff,
  rtl, goto, set_home, Command,
}
use karshipta.Executor.Vehicle.{
  Call, call_arm, call_disarm, call_kill, call_takeoff, call_land, call_return_to_launch, call_hold,
  call_set_takeoff_altitude, call_set_return_to_launch_altitude, call_set_current_speed,
  call_goto_location, call_set_home_position, call_start_mission, call_pause_mission, Outcome,
  succeeded, failed, Vehicle, Position, Float, Ran, ◌>>=◌, done, reading, perform, interrupt,
  wait_for_mission_result,
}

-- Whether a command succeeded, and the message of its ack.
abbrev pub Answer : Type 0
Answer = Bool × Text

abbrev pub command_authority_window_ms : ℕ
command_authority_window_ms = 5000

unfoldable pub is_authority_gated : {D F : Type 0} → CommandAction D F → Bool
is_authority_gated arm = true
is_authority_gated (disarm force) = true
is_authority_gated (takeoff altitude) = true
is_authority_gated land = true
is_authority_gated (rtl altitude) = true
is_authority_gated (goto target speed) = false
is_authority_gated (set_home target) = false
is_authority_gated start_mission = false
is_authority_gated pause_mission = false
is_authority_gated action_not_set = false

-- `action_outcome` and `mission_outcome`, with the message of a success.
unfoldable pub outcome : Outcome → Text → Answer
outcome succeeded message = (true, message)
outcome (failed name) message = (false, name)

-- The step before the action proper: on a failure its message begins with `label`.
unfoldable pub setup_failure : Text → Outcome → Option Answer
setup_failure label succeeded = none
setup_failure label (failed name) = some (false, label ++ name)

unfoldable pub drift_ms : ℕ → ℕ → ℕ
drift_ms now_ms ts_ms = if ltb ts_ms now_ms then now_ms - ts_ms else ts_ms - now_ms

module _ {W D F : Type 0} (vehicle : Vehicle W D F) (float : Float F) where
  -- A setting that is made where `value` is above zero, and then the action.
  pub after_setting :
      Bool → Text → (W → Ran W D F Outcome) → (W → Ran W D F Answer) → W → Ran W D F Answer
  unfolding setup_failure
  after_setting false label setting rest w = rest w
  after_setting true label setting rest w =
      (setting >>= λ result. elim (setup_failure label result) [
        | none ↦ rest
        | some answer ↦ done answer
      ])
        w

  acting : (W → Ran W D F Outcome) → Text → W → Ran W D F Answer
  unfolding outcome
  acting action message = do result ← action; done (outcome result message)

  -- The altitude above sea level that `goto` gives: zero altitudes keep the current one.
  pub goto_altitude : GeoPoint D F → Position F → F
  goto_altitude target position =
      if float.at_most target.altitude_msl_m float.zero
      then if float.above target.altitude_rel_m float.zero
        then float.add (float.subtract position.absolute_altitude_m position.relative_altitude_m)
            target.altitude_rel_m
        else position.absolute_altitude_m
      else target.altitude_msl_m

  pub dispatch_disarm : Bool → W → Ran W D F Answer
  unfolding acting
  dispatch_disarm true = do noted ← interrupt vehicle; acting (perform vehicle call_kill) []
  dispatch_disarm false = acting (perform vehicle call_disarm) []

  pub dispatch_takeoff : F → W → Ran W D F Answer
  unfolding after_setting acting
  dispatch_takeoff altitude =
      after_setting (float.above altitude float.zero) (text "setting takeoff altitude failed: ")
        (perform vehicle (call_set_takeoff_altitude altitude))
        (acting (perform vehicle call_takeoff) [])

  pub dispatch_land : W → Ran W D F Answer
  unfolding acting
  dispatch_land = do noted ← interrupt vehicle; acting (perform vehicle call_land) []

  pub dispatch_rtl : F → W → Ran W D F Answer
  unfolding after_setting acting
  dispatch_rtl altitude = do
    noted ← interrupt vehicle
    after_setting (float.above altitude float.zero)
        (text "setting return to launch altitude failed: ")
        (perform vehicle (call_set_return_to_launch_altitude altitude))
        (acting (perform vehicle call_return_to_launch) [])

  pub dispatch_goto : Option (GeoPoint D F) → F → W → Ran W D F Answer
  unfolding after_setting acting goto_altitude
  dispatch_goto none speed = done (false, text "goto has no target")
  dispatch_goto (some target) speed = do
    noted ← interrupt vehicle
    after_setting (float.above speed float.zero) (text "setting speed failed: ")
        (perform vehicle (call_set_current_speed speed))
        (do
          position ← reading vehicle.position
          acting
              (perform vehicle (
                call_goto_location target.latitude_deg target.longitude_deg
                  (goto_altitude target position) float.nan))
              [])

  pub dispatch_set_home : Option (GeoPoint D F) → W → Ran W D F Answer
  unfolding acting
  dispatch_set_home none = done (false, text "set_home has no target")
  dispatch_set_home (some target) = do
    position ← reading vehicle.position
    let altitude =
        if float.at_most target.altitude_msl_m float.zero
        then position.absolute_altitude_m
        else target.altitude_msl_m
    acting
        (perform vehicle (call_set_home_position target.latitude_deg target.longitude_deg altitude))
        []

  awaiting : Call D F → Text → W → Ran W D F Answer
  unfolding outcome
  awaiting call message = do
    result ← wait_for_mission_result vehicle call
    elim result [
      | none ↦ done (false, text "gateway shutting down")
      | some answer ↦ done (outcome answer message)
    ]

  pub dispatch_start_mission : W → Ran W D F Answer
  unfolding awaiting
  dispatch_start_mission = awaiting call_start_mission []

  pub dispatch_pause : W → Ran W D F Answer
  unfolding awaiting acting
  dispatch_pause = do
    flying ← reading vehicle.in_mission_mode
    if flying
        then awaiting call_pause_mission (text "pause")
        else acting (perform vehicle call_hold) (text "hold")

  unfoldable pub dispatch_action : CommandAction D F → W → Ran W D F Answer
  unfolding acting dispatch_disarm dispatch_takeoff dispatch_land dispatch_rtl dispatch_goto
      dispatch_set_home dispatch_start_mission dispatch_pause
  dispatch_action arm = acting (perform vehicle call_arm) []
  dispatch_action (disarm force) = dispatch_disarm force
  dispatch_action (takeoff altitude) = dispatch_takeoff altitude
  dispatch_action land = dispatch_land
  dispatch_action (rtl altitude) = dispatch_rtl altitude
  dispatch_action (goto target speed) = dispatch_goto target speed
  dispatch_action (set_home target) = dispatch_set_home target
  dispatch_action start_mission = dispatch_start_mission
  dispatch_action pause_mission = dispatch_pause
  dispatch_action action_not_set = done (false, text "command has no action")

  unfoldable pub dispatch : Command D F → W → Ran W D F Answer
  unfolding is_authority_gated drift_ms dispatch_action outcome
  dispatch command = do
    now ← reading vehicle.now_ms
    if is_authority_gated command.action
          && ltb command_authority_window_ms (drift_ms now command.timestamp_ms)
        then done (false, text "command timestamp outside authority window")
        else dispatch_action command.action
