-- ===== src/WardManager/Publishing/Claims.antt =====
-- What a tick of the publish loop does with one ward.
use karshipta.Missions.Passes.{
  take_pending_return_to_launch, take_download_result, take_upload_result,
}
use karshipta.Common.{
  append-nil, not, none, ◌++◌, arith, if◌then◌else◌, ◌&&◌, ◌||◌, some, List, false, ◌≡◌, Text,
  Option, Bool, [], ◌∷◌, sym, ap, ◌∙◌, subst,
}
use karshipta.WardManager.Publishing.{
  take_download_result, take_upload_result, take_pending_return_to_launch, publish_frames,
  upload_observed, Notice, DownloadResult, armed_with, MissionResult, is_success, report_upload,
  Passes, disarm_auto_start, can_claim, RoutedWard, UploadResult, with_passes, visit_ward,
  claim_rtl, handle_upload_result, handle_download_result, claim_start, Deferred,
}

-- An upload that succeeded, of the mission that is to be started.
abbrev pub is_start_due : Option UploadResult → Option Text → Bool
is_start_due none armed = false
is_start_due (some result) armed = is_success result.result && armed_with armed result.mission_id

abbrev pub listed : Bool → Text → List Text → List Text
listed claimed id ids = if claimed then ids ++ id ∷ [] else ids

-- What the observer of uploads is told.
abbrev pub told :
    {D F : Type 0} → (MissionResult → Text) → Text → Option UploadResult → List (Notice D F)
told result_name id none = []
told result_name id (some result) =
    upload_observed id result.mission_id (is_success result.result)
      (if is_success result.result then [] else result_name result.result)
    ∷ []

module _ {W D F : Type 0} where
  abbrev pub Claims :
      Bool → Bool → RoutedWard W D F × Deferred D F → RoutedWard W D F × Deferred D F → Type 0
  Claims returns starts (ward, d) (ward', d') =
      (d'.pending_rtl ≡ listed returns ward.config.ward_id d.pending_rtl)
      × (d'.pending_start ≡ listed starts ward.config.ward_id d.pending_start)
      × (ward'.busy ≡ (ward.busy || returns || starts))
      × (ward'.executor ≡ ward.executor)
      × (ward'.config ≡ ward.config)

  claim_rtl-Claims :
      (pending : Bool) (passes : Passes D F) (ward : RoutedWard W D F) (d : Deferred D F)
      → Claims (pending && can_claim ward) false (ward, d) (claim_rtl (pending, passes) (ward, d))
  unfolding claim_rtl with_passes can_claim
  claim_rtl-Claims pending passes ward d = ground arith

  handle_upload_result-Claims :
      (result_name : MissionResult → Text) (found : Option UploadResult) (passes : Passes D F)
      (ward : RoutedWard W D F) (d : Deferred D F)
      → Claims false
          (is_start_due found ward.pending_auto_start_mission_id && can_claim ward)
          (ward, d)
          (handle_upload_result result_name (found, passes) (ward, d))
  unfolding handle_upload_result with_passes can_claim claim_start disarm_auto_start report_upload
  handle_upload_result-Claims result_name none passes ward d = ground arith
  handle_upload_result-Claims result_name (some result) passes ward d = ground arith

  claim_rtl-passes :
      (pending : Bool) (passes : Passes D F) (ward : RoutedWard W D F) (d : Deferred D F)
      → let taken = claim_rtl (pending, passes) (ward, d) in
        (taken.0.mission.passes ≡ passes)
        × (taken.0.pending_auto_start_mission_id ≡ ward.pending_auto_start_mission_id)
        × (taken.1.observed ≡ d.observed)
  unfolding claim_rtl with_passes can_claim
  claim_rtl-passes pending passes ward d = ground arith

  handle_upload_result-told :
      (result_name : MissionResult → Text) (found : Option UploadResult) (passes : Passes D F)
      (ward : RoutedWard W D F) (d : Deferred D F)
      → (handle_upload_result result_name (found, passes) (ward, d)).1.observed
        ≡ d.observed ++ told result_name ward.config.ward_id found
  unfolding handle_upload_result with_passes can_claim claim_start disarm_auto_start report_upload
  handle_upload_result-told result_name none passes ward d = sym (append-nil d.observed)
  handle_upload_result-told result_name (some result) passes ward d = ground arith

  handle_download_result-Claims :
      (found : Option (DownloadResult D F)) (passes : Passes D F) (ward : RoutedWard W D F)
      (d : Deferred D F)
      → Claims false false (ward, d) (handle_download_result (found, passes) (ward, d))
        × ((handle_download_result (found, passes) (ward, d)).1.observed ≡ d.observed)
  unfolding handle_download_result with_passes
  handle_download_result-Claims none passes ward d = ground arith
  handle_download_result-Claims (some result) passes ward d = ground arith

  Claims-in_turn :
      (returns starts : Bool) (w0 w1 w2 w3 : RoutedWard W D F) (d0 d1 d2 d3 : Deferred D F)
      → Claims returns false (w0, d0) (w1, d1)
      → Claims false starts (w1, d1) (w2, d2)
      → Claims false false (w2, d2) (w3, d3)
      → Claims returns starts (w0, d0) (w3, d3)
  Claims-in_turn returns starts w0 w1 w2 w3 d0 d1 d2 d3 c1 c2 c3 = (
    c3.0 ∙ c2.0 ∙ c1.0,
    c3.1
        ∙ c2.1
        ∙ ap (λ cfg. listed starts cfg.ward_id d1.pending_start) c1.4
        ∙ ap (listed starts w0.config.ward_id) c1.1,
    (let b1 = c1.2 in let b2 = c2.2 in let b3 = c3.2 in ground arith),
    c3.3 ∙ c2.3 ∙ c1.3,
    c3.4 ∙ c2.4 ∙ c1.4,
  )

  -- What is due after a return to launch was claimed or not.
  due_after :
      (due returns : Bool) (ward after : RoutedWard W D F)
      → after.executor ≡ ward.executor
      → after.busy ≡ (ward.busy || returns || false)
      → (due && can_claim after) ≡ (due && can_claim ward && not returns)
  unfolding can_claim
  due_after due returns ward after e b = rw (e, b) (ground arith)

  -- A tick claims a ward at most once. A return to launch is claimed when one is pending and the ward
  -- has an executor that nobody holds; a start of the mission when an upload of the mission that was
  -- armed has succeeded, the ward can be claimed, and no return to launch is claimed in the same tick.
  -- The observer is told of every result of an upload, whether or not the start was claimed.
  pub visit_ward-Claims :
      (result_name : MissionResult → Text) (ward : RoutedWard W D F) (d : Deferred D F)
      → let passes = ward.mission.passes in
        let returns = passes.pending_return_to_launch && can_claim ward in
        let due = is_start_due passes.pending_upload_result ward.pending_auto_start_mission_id in
        let visited = visit_ward result_name ward d in
        Claims returns (due && can_claim ward && not returns) (ward, d) visited
        × (visited.1.observed
            ≡ d.observed ++ told result_name ward.config.ward_id passes.pending_upload_result)
  unfolding visit_ward publish_frames take_pending_return_to_launch take_upload_result
      take_download_result
  visit_ward-Claims result_name ward d =
      let passes = ward.mission.passes in
      let pf = publish_frames ward d in
      let due = is_start_due passes.pending_upload_result ward.pending_auto_start_mission_id in
      let returns = passes.pending_return_to_launch && can_claim ward in
      let left : Passes D F = record passes { pending_return_to_launch = false } in
      let y1 = claim_rtl (passes.pending_return_to_launch, left) (ward, pf) in
      let y2 = handle_upload_result result_name (take_upload_result y1.0.mission.passes) y1 in
      let y3 = handle_download_result (take_download_result y2.0.mission.passes) y2 in
      let same = claim_rtl-passes passes.pending_return_to_launch left ward pf in
      let c1 = claim_rtl-Claims passes.pending_return_to_launch left ward pf in
      let uploads = y1.0.mission.passes.pending_upload_result in
      let c2 =
        handle_upload_result-Claims result_name uploads (take_upload_result y1.0.mission.passes).1
          y1.0 y1.1 in
      let c3 =
        handle_download_result-Claims (take_download_result y2.0.mission.passes).0
          (take_download_result y2.0.mission.passes).1 y2.0 y2.1 in
      let found : uploads ≡ passes.pending_upload_result =
        ap (λ (p : Passes D F). p.pending_upload_result) same.0 in
      let starts : (is_start_due uploads y1.0.pending_auto_start_mission_id && can_claim y1.0)
          ≡ (due && can_claim ward && not returns) =
        ap (λ o. is_start_due o y1.0.pending_auto_start_mission_id && can_claim y1.0) found
        ∙ ap (λ armed. is_start_due passes.pending_upload_result armed && can_claim y1.0) same.1
        ∙ due_after due returns ward y1.0 c1.3 c1.2 in
      let turns =
        subst (λ b. Claims returns b (ward, pf) y3) starts
          (Claims-in_turn returns
            (is_start_due uploads y1.0.pending_auto_start_mission_id && can_claim y1.0) ward y1.0
            y2.0 y3.0 pf y1.1 y2.1 y3.1 c1 c2 c3.0) in
      let heard =
        handle_upload_result-told result_name uploads (take_upload_result y1.0.mission.passes).1
          y1.0 y1.1 in
      (
        turns,
        c3.1
            ∙ heard
            ∙ ap (λ os. os ++ told result_name y1.0.config.ward_id uploads) same.2
            ∙ ap (λ cfg. d.observed ++ told result_name cfg.ward_id uploads) c1.4
            ∙ ap (λ o. d.observed ++ told result_name ward.config.ward_id o) found,
      )
