-- ===== src/Missions/Validity.antt =====
-- Which missions are accepted.
use karshipta.Common.{
  ◌≡◌, ◌≢◌, ◌↔◌, refl, ap, Bool, false, ◌||◌, List, [], ◌∷◌, none, arith, is_empty_iff,
}
use karshipta.Missions.Types.{MissionItem, Mission}
use karshipta.Missions.Plan.{is_rtl, has_early_rtl, no_items, validate_mission, uploaded_items}

module _ {D F : Type 0} where
  -- An RTL item anywhere.
  abbrev pub has_rtl : List (MissionItem D F) → Bool
  has_rtl [] = false
  has_rtl (item ∷ items) = is_rtl item.action || has_rtl items

  has_early_rtl-uploaded :
      (items : List (MissionItem D F)) → has_rtl (uploaded_items items) ≡ has_early_rtl items
  unfolding has_early_rtl uploaded_items
  has_early_rtl-uploaded [] = refl
  has_early_rtl-uploaded (item ∷ []) = ground arith
  has_early_rtl-uploaded (item ∷ next ∷ items) =
      ap (λ r. is_rtl item.action || r) (has_early_rtl-uploaded (next ∷ items))

  -- A mission is accepted exactly if it names its ward, has an item, and has no RTL item among those
  -- that are uploaded, which are all but a final RTL item: so none is uploaded as a mere waypoint.
  pub validate_mission-accepts :
      (mission : Mission D F)
      → (validate_mission mission ≡ none)
        ↔ (mission.ward_id ≢ [])
          × (mission.items ≢ [])
          × (has_rtl (uploaded_items mission.items) ≡ false)
  unfolding validate_mission no_items
  validate_mission-accepts mission =
      let early = has_early_rtl-uploaded mission.items in
      let named = is_empty_iff mission.ward_id in ground arith
