-- ===== src/WardManager/Fence.antt =====
-- ward_manager.cpp, the geofence of one ward, and the thread that keeps its link.
use karshipta.Common.{not, if_both, if◌then◌else◌, [], ◌∷◌, ◌++◌, none, some, Bool, Option, List}
use karshipta.Messages.{GeoPoint}
use karshipta.Registry.Types.{Zone, ZoneType, keep_out, keep_in, zone_unspecified}

pub data FenceType : Type 0 where
  inclusion exclusion : FenceType

pub record Polygon (D : Type 0) : Type 0 where
  pub fence_type : FenceType
  pub points : List (D × D)

unfoldable pub fence_type_of : ZoneType → FenceType
fence_type_of keep_out = exclusion
fence_type_of keep_in = inclusion
fence_type_of zone_unspecified = inclusion

unfoldable pub points_of : {D H : Type 0} → List (GeoPoint D H) → List (D × D)
points_of [] = []
points_of (vertex ∷ rest) = (vertex.latitude_deg, vertex.longitude_deg) ∷ points_of rest

unfoldable pub build_geofence_data :
    {D H F : Type 0} → List (Zone (GeoPoint D H) F) → List (Polygon D)
unfolding fence_type_of points_of
build_geofence_data [] = []
build_geofence_data (zone ∷ rest) =
    record { fence_type = fence_type_of zone.zone_type; points = points_of zone.vertices }
    ∷ build_geofence_data rest

-- `P` is a fence; `pushing` those that pushes have yet to upload, `copied` the one that the thread of
-- the link took from the cache, `uploaded` the last one that the ward was given.
pub record Fences (P : Type 0) : Type 0 where
  pub cached_geofence : P
  pub pushing : List P
  pub copied : Option P
  pub uploaded : Option P

pub data FenceStep (P : Type 0) : Type 0 where
  push_begins : P → FenceStep P
  push_uploads reconnect_copies reconnect_uploads : FenceStep P

module _ {P : Type 0} where
  unfoldable pub upload_next : List P → Fences P → Fences P
  upload_next [] s = s
  upload_next (fence ∷ rest) s = record s { pushing = rest; uploaded = some fence }

  unfoldable pub upload_copied : Option P → Fences P → Fences P
  upload_copied none s = s
  upload_copied (some fence) s = record s { copied = none; uploaded = some fence }

  unfoldable pub fence_step : FenceStep P → Fences P → Fences P
  unfolding upload_next upload_copied
  fence_step (push_begins fence) s = record s {
    cached_geofence = fence;
    pushing = s.pushing ++ fence ∷ [];
  }
  fence_step push_uploads s = upload_next s.pushing s
  fence_step reconnect_copies s = record s { copied = some s.cached_geofence }
  fence_step reconnect_uploads s = upload_copied s.copied s

  unfoldable pub fence_steps : List (FenceStep P) → Fences P → Fences P
  unfolding fence_step
  fence_steps [] s = s
  fence_steps (step ∷ rest) s = fence_steps rest (fence_step step s)

-- A turn of the loop: whether it was to stop, whether the connection came about, and whether the loop
-- was to stop when the link was lost.
pub record LinkTurn : Type 0 where
  pub stop_before : Bool
  pub connects : Bool
  pub stop_after : Bool

-- `broadcast_link_event`: the link is there, or is lost.
pub data LinkEvent : Type 0 where
  link_up link_lost : LinkEvent

-- The events of the turns so far.
unfoldable pub run_reconnect_loop : List LinkTurn → List LinkEvent
run_reconnect_loop [] = []
run_reconnect_loop (turn ∷ turns) =
    let rest = run_reconnect_loop turns in
    if turn.stop_before
    then []
    else if not turn.connects
    then []
    else if turn.stop_after
    then link_up ∷ []
    else link_up ∷ link_lost ∷ rest

-- Up and down in turn, up first.
abbrev pub Alternates : List LinkEvent → Type 0
Alternates [] = Unit {0}
Alternates (link_up ∷ []) = Unit {0}
Alternates (link_up ∷ link_lost ∷ rest) = Alternates rest
Alternates (link_up ∷ link_up ∷ rest) = ⊥
Alternates (link_lost ∷ rest) = ⊥

-- The events of a ward's link alternate, whatever the link does.
run_reconnect_loop-Alternates : (turns : List LinkTurn) → Alternates (run_reconnect_loop turns)
unfolding run_reconnect_loop
run_reconnect_loop-Alternates [] = tt
run_reconnect_loop-Alternates (turn ∷ turns) =
    let rest = run_reconnect_loop-Alternates turns in
    if_both Alternates turn.stop_before (λ _. tt)
      (λ _.
        if_both Alternates (not turn.connects) (λ _. tt)
          (λ _. if_both Alternates turn.stop_after (λ _. tt) (λ _. rest)))
