-- ===== src/Missions/RoundTrip.antt =====
-- A mission that is uploaded and downloaded again.
use karshipta.Common.{
  ℕ, ◌+◌, ◌%◌, ◌^◌, ◌≤◌, ◌<◌, ◌≡◌, inl, inr, refl, true, false, List, [], ◌∷◌, arith, if◌then◌else◌,
  length, Bool-cases,
}
use karshipta.Executor.Vehicle.{Float}
use karshipta.Missions.Types.{
  MissionAction, unspecified, waypoint, takeoff, land, rtl, hold, MissionItem, Mission,
}
use karshipta.Missions.Plan.{
  to_mission_action, to_vehicle_action, set_unless_nan, uploaded_items, translate_item,
  translate_items, translate, translate_back, translate_back_item, translate_back_items,
}

-- A NaN is not above zero, and `nan` is one.
pub record FloatLaws {F : Type 0} (float : Float F) : Type 0 where
  pub nan_is_nan : float.is_nan float.nan ≡ true
  pub above_zero : (value : F) → float.above value float.zero ≡ true → float.is_nan value ≡ false

speed-back :
    {F : Type 0} (float : Float F)
    → FloatLaws float
    → (speed : F)
    → set_unless_nan float (if float.above speed float.zero then speed else float.nan)
      ≡ (if float.above speed float.zero then speed else float.zero)
unfolding set_unless_nan
speed-back float laws speed = elim (Bool-cases (float.above speed float.zero)) [
  | inl e ↦ rw (e, laws.above_zero speed e) refl
  | inr e ↦ rw (e, laws.nan_is_nan) refl
]

module _ {F : Type 0} (float : Float F) where
  -- The action that comes back: a takeoff or a landing, or else what the time to hold says.
  abbrev pub kept_action : MissionAction → F → MissionAction
  kept_action takeoff hold_time_s = takeoff
  kept_action land hold_time_s = land
  kept_action other hold_time_s = if float.above hold_time_s float.zero then hold else waypoint

  action-back :
      (action : MissionAction) (hold_time_s : F)
      → to_mission_action float (to_vehicle_action action) hold_time_s
        ≡ kept_action action hold_time_s
  unfolding to_mission_action to_vehicle_action
  action-back takeoff hold_time_s = refl
  action-back land hold_time_s = refl
  action-back waypoint hold_time_s = refl
  action-back hold hold_time_s = refl
  action-back rtl hold_time_s = refl
  action-back unspecified hold_time_s = refl

module _ {D F : Type 0} (float : Float F) where
  -- The item that comes back at the place `seq`.
  abbrev pub kept_item : ℕ → MissionItem D F → MissionItem D F
  kept_item seq item = record {
    seq = seq;
    action = kept_action float item.action item.hold_time_s;
    position = record item.position { altitude_msl_m = float.zero };
    speed_m_s = if float.above item.speed_m_s float.zero then item.speed_m_s else float.zero;
    hold_time_s = set_unless_nan float item.hold_time_s;
    acceptance_radius_m = set_unless_nan float item.acceptance_radius_m;
  }

  abbrev pub kept_items : ℕ → List (MissionItem D F) → List (MissionItem D F)
  kept_items seq [] = []
  kept_items seq (item ∷ items) = kept_item seq item ∷ kept_items (seq + 1) items

  length-uploaded_items :
      (items : List (MissionItem D F)) → length (uploaded_items items) ≤ length items
  unfolding uploaded_items
  length-uploaded_items [] = omega arith
  length-uploaded_items (item ∷ []) = ground arith
  length-uploaded_items (item ∷ next ∷ items) = omega (arith, length-uploaded_items (next ∷ items))

  item-back :
      FloatLaws float
      → (seq : ℕ) (item : MissionItem D F)
      → translate_back_item float seq (translate_item float item) ≡ kept_item seq item
  unfolding translate_back_item translate_item
  item-back laws seq item =
      rw (action-back float item.action item.hold_time_s, speed-back float laws item.speed_m_s) refl

  items-back :
      FloatLaws float
      → (seq : ℕ) (items : List (MissionItem D F)) → seq + length items < 2 ^ 32
      → translate_back_items float seq (translate_items float items) ≡ kept_items seq items
  unfolding translate_back_items translate_items
  items-back laws seq [] b = refl
  items-back laws seq (item ∷ items) b =
      let next : (seq + 1) % 2 ^ 32 ≡ seq + 1 = omega arith in
      rw (next, items-back laws (seq + 1) items (omega arith), item-back laws seq item) refl

  -- What comes back of an uploaded mission are its items but for a final RTL item, numbered from 0:
  -- each with its place and altitude above the start, and with its speed, time to hold and radius where
  -- these are set. A takeoff and a landing keep their action; any other item comes back as a hold where its
  -- time to hold is above zero, and as a waypoint where it is not. (A mission has fewer than 2^32 items,
  -- and a NaN is not above zero.)
  pub translate_back-translate :
      FloatLaws float
      → (mission : Mission D F) → length mission.items < 2 ^ 32
      → (translate_back float (translate float mission).0).items
        ≡ kept_items 0 (uploaded_items mission.items)
  unfolding translate_back translate
  translate_back-translate laws mission b =
      items-back laws 0 (uploaded_items mission.items)
        (omega (arith, length-uploaded_items mission.items))
