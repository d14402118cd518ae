-- ===== src/WardManager/Requests/Applied.antt =====
-- What the reply to a change of a parameter means, and which requests are handed on.
use karshipta.Common.{
  sym, subst, ap, inl, ◌++◌, ◌≢◌, false, inr, ◌⊎◌, true, Option, List, ◌≡◌, ℕ, Text, text, ◌∷◌, [],
  refl, none, some,
}
use karshipta.WardManager.Requests.{
  handle_start_calibration, handle_download_log_file, handle_get_log_entries, Presence, Payload,
  Rejection, reject_viewer, unknown, unconnected, connected, get_log_entries, download_log_file,
  start_calibration, broadcast_rejection, send_rejection, command_observed, command_event,
  mission_event,
}
use karshipta.WardManager.Requests.Params.{
  confirmed_float, confirmed_int, ParamServer, Param, ParamAck, ParamType, int_type, float_type,
  unspecified_type, handle_set_param, int_param, float_param, write_param, after_int_write,
  after_float_write,
}

-- A rejection for another reason.
abbrev pub with_reason : Text → Rejection → Rejection
with_reason reason (broadcast_rejection subject id ward old) =
    broadcast_rejection subject id ward reason
with_reason reason (send_rejection client subject id ward old) =
    send_rejection client subject id ward reason
with_reason reason (command_observed id ward old) = command_observed id ward reason
with_reason reason (command_event ward old) = command_event ward reason
with_reason reason (mission_event ward code old) = mission_event ward code reason

abbrev pub with_reasons : Text → List Rejection → List Rejection
with_reasons reason [] = []
with_reasons reason (rejection ∷ rest) = with_reason reason rejection ∷ with_reasons reason rest

-- Handed on when the ward is there with a link; else rejected as a viewer's request is, but for the
-- reason.
abbrev pub Gated : {J : Type 0} → ℕ → J → Payload → Presence → List Rejection × List J → Type 0
Gated client job payload presence result =
    ((presence ≡ connected) × (result ≡ ([], job ∷ [])))
    ⊎ ((presence ≢ connected)
        × ((reason : Text) × (result ≡ (with_reasons reason (reject_viewer client payload), []))))

module _ {J : Type 0} (client : ℕ) (job : J) (id ward : Text) where
  -- A request about logs or to calibrate is handed to its executor exactly when the ward is there and
  -- connected. Any other one is handed to none, and its reply is that to a viewer but for the reason: to
  -- the same client, of the same kind, with the same ids.
  pub requests-Gated :
      (presence : Presence) (log kind : ℕ)
      → Gated client job
          (get_log_entries id ward)
          presence
          (handle_get_log_entries client job id ward presence)
        × Gated client job
            (download_log_file id ward log)
            presence
            (handle_download_log_file client job id ward presence log)
        × Gated client job
            (start_calibration id ward kind)
            presence
            (handle_start_calibration client job id ward presence kind)
  unfolding handle_get_log_entries handle_download_log_file handle_start_calibration reject_viewer
  requests-Gated unknown log kind =
      let reason = text "unknown ward_id: " ++ ward in
      (
        inr ((λ e. cc), (reason, refl)),
        inr ((λ e. cc), (reason, refl)),
        inr ((λ e. cc), (reason, refl)),
      )
  requests-Gated unconnected log kind =
      let reason = text "ward is not connected" in
      (
        inr ((λ e. cc), (reason, refl)),
        inr ((λ e. cc), (reason, refl)),
        inr ((λ e. cc), (reason, refl)),
      )
  requests-Gated connected log kind = (inl (refl, refl), inl (refl, refl), inl (refl, refl))

module _ {I F V : Type 0} (server : ParamServer I F V) where
  -- A write, by the type of the parameter, and what is read of it then.
  abbrev pub write : Param I F → ParamType → V → Option Text × V
  write param int_type v = server.set_param_int param.name param.int_value v
  write param float_type v = server.set_param_float param.name param.float_value v
  write param unspecified_type v = (some (text "param has unspecified type"), v)

  abbrev pub Confirms : Param I F → ParamType → V → Option (Param I F) → V → Type 0
  Confirms param int_type v confirmed v' =
      let read = server.get_param_int param.name v in
      (v' ≡ read.1)
      × ((read.0 ≡ none) × (confirmed ≡ some param)
          ⊎ ((value : I) × (read.0 ≡ some value)
              × (confirmed ≡ some (int_param server param.name value))))
  Confirms param float_type v confirmed v' =
      let read = server.get_param_float param.name v in
      (v' ≡ read.1)
      × ((read.0 ≡ none) × (confirmed ≡ some param)
          ⊎ ((value : F) × (read.0 ≡ some value)
              × (confirmed ≡ some (float_param server param.name value))))
  Confirms param unspecified_type v confirmed v' = ⊥

  abbrev pub Applied : Option (Param I F) → Presence → V → ParamAck I F × V → Type 0
  Applied requested presence v (ack, v') =
      ((ack.success ≡ true)
        × (presence ≡ connected)
        × ((param : Param I F) × (requested ≡ some param)
            × ((write param param.type v).0 ≡ none)
            × Confirms param param.type (write param param.type v).1 ack.param v'))
      ⊎ ((ack.success ≡ false)
          × (ack.param ≡ none)
          × ((v' ≡ v)
              ⊎ ((param : Param I F) × (requested ≡ some param)
                  × (write param param.type v ≡ (some ack.message, v')))))

  abbrev pub Ended : Param I F → ParamType → V → ParamAck I F × V → Type 0
  Ended param type v (ack, v') =
      ((ack.success ≡ true)
        × ((write param type v).0 ≡ none)
        × Confirms param type (write param type v).1 ack.param v')
      ⊎ ((ack.success ≡ false) × (ack.param ≡ none) × (write param type v ≡ (some ack.message, v')))

  int_confirmed :
      (param : Param I F) (found : Option I)
      → ((found ≡ none) × (some (confirmed_int server param found) ≡ some param))
        ⊎ ((value : I) × (found ≡ some value)
            × (some (confirmed_int server param found) ≡ some (int_param server param.name value)))
  unfolding confirmed_int
  int_confirmed param none = inl (refl, refl)
  int_confirmed param (some value) = inr (value, refl, refl)

  int_write-Ended :
      (id ward : Text) (param : Param I F) (v : V) (result : Option Text × V)
      → write param int_type v ≡ result
      → Ended param int_type v (after_int_write server id ward param result)
  unfolding after_int_write
  int_write-Ended id ward param v (some error, w) e = inr (refl, refl, e)
  int_write-Ended id ward param v (none, w) e = inl (
    refl,
    ap (λ r. r.0) e,
    subst
        (λ u.
          Confirms param int_type u
            (some (confirmed_int server param (server.get_param_int param.name w).0))
            (server.get_param_int param.name w).1)
        (sym (ap (λ r. r.1) e)) (refl, int_confirmed param (server.get_param_int param.name w).0),
  )

  float_confirmed :
      (param : Param I F) (found : Option F)
      → ((found ≡ none) × (some (confirmed_float server param found) ≡ some param))
        ⊎ ((value : F) × (found ≡ some value)
            × (some (confirmed_float server param found)
                ≡ some (float_param server param.name value)))
  unfolding confirmed_float
  float_confirmed param none = inl (refl, refl)
  float_confirmed param (some value) = inr (value, refl, refl)

  float_write-Ended :
      (id ward : Text) (param : Param I F) (v : V) (result : Option Text × V)
      → write param float_type v ≡ result
      → Ended param float_type v (after_float_write server id ward param result)
  unfolding after_float_write
  float_write-Ended id ward param v (some error, w) e = inr (refl, refl, e)
  float_write-Ended id ward param v (none, w) e = inl (
    refl,
    ap (λ r. r.0) e,
    subst
        (λ u.
          Confirms param float_type u
            (some (confirmed_float server param (server.get_param_float param.name w).0))
            (server.get_param_float param.name w).1)
        (sym (ap (λ r. r.1) e))
        (refl, float_confirmed param (server.get_param_float param.name w).0),
  )

  write-Ended :
      (id ward : Text) (param : Param I F) (type : ParamType) (v : V)
      → Ended param type v (write_param server id ward param type v)
  unfolding write_param
  write-Ended id ward param unspecified_type v = inr (refl, refl, refl)
  write-Ended id ward param int_type v =
      int_write-Ended id ward param v (server.set_param_int param.name param.int_value v) refl
  write-Ended id ward param float_type v =
      float_write-Ended id ward param v (server.set_param_float param.name param.float_value v) refl

  Ended-Applied :
      (param : Param I F) (v : V) (result : ParamAck I F × V)
      → Ended param param.type v result
      → Applied (some param) connected v result
  Ended-Applied param v result (inl written) =
      inl (written.0, refl, (param, refl, written.1, written.2))
  Ended-Applied param v result (inr failed) = inr (failed.0, failed.1, inr (param, refl, failed.2))

  -- A parameter is reported as set only if the ward is connected and the write of the request succeeded;
  -- the ack then has the value that the vehicle gives back, or the request's where it gives none.
  -- Otherwise nothing was written, or the write failed and its error is the ack's message.
  pub handle_set_param-Applied :
      (id ward : Text) (requested : Option (Param I F)) (presence : Presence) (v : V)
      → Applied requested presence v (handle_set_param server id ward requested presence v)
  unfolding handle_set_param
  handle_set_param-Applied id ward requested unknown v = inr (refl, refl, inl refl)
  handle_set_param-Applied id ward none unconnected v = inr (refl, refl, inl refl)
  handle_set_param-Applied id ward none connected v = inr (refl, refl, inl refl)
  handle_set_param-Applied id ward (some param) unconnected v = inr (refl, refl, inl refl)
  handle_set_param-Applied id ward (some param) connected v =
      Ended-Applied param v (write_param server id ward param param.type v)
        (write-Ended id ward param param.type v)
