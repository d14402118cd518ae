-- ===== src/WardManager/TestRequests.antt =====
-- A vehicle with one integer parameter, and the theorems at inputs that exercise the code.
use karshipta.Common.{refl, ◌≡◌, ◌*◌, ◌/◌, ℕ, [], ◌∷◌, none, some, text}
use karshipta.WardManager.Requests.{
  unconnected, connected, get_log_entries, download_log_file, start_calibration,
  handle_get_log_entries, handle_download_log_file, handle_start_calibration,
}
use karshipta.WardManager.Fence.{
  Fences, push_begins, push_uploads, reconnect_copies, reconnect_uploads, fence_steps,
}
use karshipta.WardManager.Requests.Params.{ParamServer, Param, int_type, handle_set_param}
use karshipta.WardManager.Requests.Applied.{
  Gated, Applied, requests-Gated, handle_set_param-Applied,
}

-- The vehicle stores even values only.
abbrev even : ParamServer ℕ ℕ ℕ
even = record {
  int_zero = 0;
  float_zero = 0;
  get_all_params = λ v. (((text "SPEED", v) ∷ [], []), v);
  set_param_int = λ name value v. (none, value / 2 * 2);
  set_param_float = λ name value v. (some (text "no such parameter"), v);
  get_param_int = λ name v. (some v, v);
  get_param_float = λ name v. (none, v);
}

abbrev speed : Param ℕ ℕ
speed = record { name = text "SPEED"; type = int_type; int_value = 7; float_value = 0 }

handle_set_param-Applied_example :
    Applied even
      (some speed)
      connected
      4
      (handle_set_param even (text "r") (text "w") (some speed) connected 4)
handle_set_param-Applied_example =
    handle_set_param-Applied even (text "r") (text "w") (some speed) connected 4

abbrev job : ℕ
job = 0

requests-Gated_example :
    Gated 3 0
      (get_log_entries (text "r") (text "w"))
      unconnected
      (handle_get_log_entries 3 job (text "r") (text "w") unconnected)
    × Gated 3 0
        (download_log_file (text "r") (text "w") 5)
        unconnected
        (handle_download_log_file 3 job (text "r") (text "w") unconnected 5)
    × Gated 3 0
        (start_calibration (text "r") (text "w") 1)
        unconnected
        (handle_start_calibration 3 job (text "r") (text "w") unconnected 1)
requests-Gated_example = requests-Gated 3 job (text "r") (text "w") unconnected 5 1

abbrev no_fence : Fences ℕ
no_fence = record { cached_geofence = 0; pushing = []; copied = none; uploaded = none }

-- The thread of the link has copied the old fence when a new one is pushed, and uploads it last.
stale_fence :
    fence_steps (reconnect_copies ∷ push_begins 1 ∷ push_uploads ∷ reconnect_uploads ∷ []) no_fence
    ≡ record no_fence { cached_geofence = 1; uploaded = some 0 }
unfolding fence_steps
stale_fence = refl
