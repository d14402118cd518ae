-- ===== src/WardManager/Routing/Answered.antt =====
-- Every command that a client sends to a ward is answered.
use karshipta.Executor.Queue.{has_action, enqueue, Sent, ack}
use karshipta.WardManager.Sections.{claim, claim_with}
use karshipta.Common.{
  text, text_eq_iff, text_eq, lookup-insert, insert, ◌++◌, false, none, inr, Text, some, Option,
  inl, ◌⊎◌, ◌≡◌, List, [], ◌∷◌, if_both, refl, sym, ap, ◌∙◌, lookup, subst, lookup-insert_self,
  Bool-cases,
}
use karshipta.WardManager.Routing.{
  broadcast_rejection_event, is_rejected, sent_ack, enqueue_with, on_ack, broadcast_command_ack,
  on_acks, ack, enqueue, claim, make_rejected_ack, Executor, RoutedWard, Wards, Float, Vehicle,
  Notice, command_acked, command_observed, warning, mission_downloaded, state_frame, progress_frame,
  upload_observed, dispatch_command, dispatch_found, dispatch_claimed,
}
use karshipta.Messages.{accepted, rejected, CommandAck, Command}

-- The acks that go out.
abbrev pub acks : {D F : Type 0} → List (Notice D F) → List CommandAck
acks [] = []
acks (command_acked a ∷ rest) = a ∷ acks rest
acks (command_observed a ∷ rest) = acks rest
acks (warning id code message ∷ rest) = acks rest
acks (mission_downloaded mission ∷ rest) = acks rest
acks (state_frame id ∷ rest) = acks rest
acks (progress_frame progress ∷ rest) = acks rest
acks (upload_observed id mission_id succeeded message ∷ rest) = acks rest

module _ {W D F : Type 0} (vehicle : Vehicle W D F) (float : Float F) where
  -- The command is last in the queue of the ward's executor, and the ward can be claimed again.
  abbrev pub IsQueued : Command D F → Wards W D F → Wards W D F → Type 0
  IsQueued command wards wards' =
      (ward : RoutedWard W D F) × (executor : Executor W D F) × (lookup command.ward_id wards
        ≡ some ward)
      × (ward.busy ≡ false)
      × (ward.executor ≡ some executor)
      × (lookup command.ward_id wards'
          ≡ some (record ward {
            executor = some (record executor { queue = executor.queue ++ command ∷ [] });
          }))

  abbrev pub Answered : Command D F → Wards W D F → Wards W D F × List (Notice D F) → Type 0
  Answered command wards result =
      (a : CommandAck) × (acks result.1 ≡ a ∷ [])
      × (a.command_id ≡ command.command_id)
      × (a.ward_id ≡ command.ward_id)
      × (((a.status ≡ accepted) × IsQueued command wards result.0)
          ⊎ ((a.status ≡ rejected) × ((id : Text) → lookup id result.0 ≡ lookup id wards)))

  -- A ward that was there, put back.
  lookup-put_back :
      (id : Text) (ward same : RoutedWard W D F) (wards : Wards W D F)
      → lookup id wards ≡ some ward
      → same ≡ ward
      → (other : Text) → lookup other (insert id same wards) ≡ lookup other wards
  lookup-put_back id ward same wards e equal other =
      let put = lookup-insert id other same wards in
      elim (Bool-cases (text_eq id other)) [
        | inl here ↦
            let key : id ≡ other = (text_eq_iff id other).0 here in
            let found : lookup other wards ≡ some ward = ap (λ k. lookup k wards) (sym key) ∙ e in
            rw (put, here) (ap some equal ∙ sym found)
        | inr apart ↦ rw (put, apart) refl
      ]

  released : RoutedWard W D F → Executor W D F → RoutedWard W D F
  released ward executor = record ward { busy = false; executor = some executor }

  released_same :
      (ward : RoutedWard W D F) (executor : Executor W D F)
      → ward.busy ≡ false
      → ward.executor ≡ some executor
      → released ward executor ≡ ward
  unfolding released
  released_same ward executor idle f =
      let at_busy : record ward { busy = false; executor = some executor }
          ≡ record ward { executor = some executor } =
        ap (λ b. record ward { busy = b; executor = some executor }) (sym idle) in
      at_busy ∙ ap (λ found. record ward { executor = found }) (sym f)

  enqueued-Answered :
      (command : Command D F) (ward : RoutedWard W D F) (executor : Executor W D F)
      (wards : Wards W D F)
      → lookup command.ward_id wards ≡ some ward
      → ward.executor ≡ some executor
      → ward.busy ≡ false
      → Answered command wards (
          let queued = enqueue vehicle float command executor in
          (insert command.ward_id (released ward queued.0) wards, on_acks queued.1))
  unfolding enqueue on_acks on_ack sent_ack ack is_rejected broadcast_rejection_event released
  enqueued-Answered command ward executor wards e f idle =
      if_both
        (λ (queued : Executor W D F × List Sent).
          Answered command wards
            (insert command.ward_id (released ward queued.0) wards, on_acks queued.1))
        (has_action command.action)
        (λ _. (
          ack command accepted (text "queued"),
          refl,
          refl,
          refl,
          inl (
            refl,
            (
              ward,
              executor,
              e,
              idle,
              f,
              lookup-insert_self command.ward_id
                    (released ward (record executor { queue = executor.queue ++ command ∷ [] }))
                    wards
                  ∙ ap
                      (λ b. some (record ward {
                        busy = b;
                        executor =
                            some (record executor { queue = executor.queue ++ command ∷ [] });
                      }))
                      (sym idle),
            ),
          ),
        ))
        (λ _. (
          ack command rejected (text "command has no action"),
          refl,
          refl,
          refl,
          inr (
            refl,
            lookup-put_back command.ward_id ward (released ward executor) wards e
                (released_same ward executor idle f),
          ),
        ))

  claimed-Answered :
      (command : Command D F) (ward : RoutedWard W D F) (found : Option (Executor W D F))
      (wards : Wards W D F)
      → lookup command.ward_id wards ≡ some ward
      → ward.executor ≡ found
      → Answered command wards
          (dispatch_claimed vehicle float command (claim_with found ward) wards)
  unfolding dispatch_claimed claim_with make_rejected_ack ack enqueue_with broadcast_command_ack
      released
  claimed-Answered command ward none wards e f =
      (make_rejected_ack command (text "ward is stopped"), refl, refl, refl, inr (refl, λ id. refl))
  claimed-Answered command ward (some executor) wards e f =
      if_both
        (λ (claimed : Option Text × RoutedWard W D F).
          Answered command wards (dispatch_claimed vehicle float command claimed wards))
        ward.busy
        (λ _. (
          make_rejected_ack command (text "ward is busy, retry shortly"),
          refl,
          refl,
          refl,
          inr (refl, λ id. refl),
        ))
        (λ idle.
          subst
            (λ (queued : Option (Executor W D F) × List Sent). Answered command wards (
              insert command.ward_id (record ward { busy = false; executor = queued.0 }) wards,
              on_acks queued.1,
            ))
            (ap (enqueue_with vehicle float command) (sym f))
            (enqueued-Answered command ward executor wards e f idle))

  found-Answered :
      (command : Command D F) (found : Option (RoutedWard W D F)) (wards : Wards W D F)
      → lookup command.ward_id wards ≡ found
      → Answered command wards (dispatch_found vehicle float command found wards)
  unfolding dispatch_found claim make_rejected_ack ack broadcast_command_ack
  found-Answered command none wards e = (
    make_rejected_ack command (text "unknown ward_id: " ++ command.ward_id),
    refl,
    refl,
    refl,
    inr (refl, λ id. refl),
  )
  found-Answered command (some ward) wards e =
      claimed-Answered command ward ward.executor wards e refl

  -- Whatever is sent to whatever ward: exactly one ack goes out at once, it names the command and the
  -- ward, and it says either that the command is accepted, which then is last in the queue of the ward's
  -- executor with the ward as it was but for it, or that it is rejected, and no ward has changed.
  pub dispatch_command-Answered :
      (command : Command D F) (wards : Wards W D F)
      → Answered command wards (dispatch_command vehicle float command wards)
  unfolding dispatch_command
  dispatch_command-Answered command wards =
      found-Answered command (lookup command.ward_id wards) wards refl
