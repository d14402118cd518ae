-- ===== src/Gt06/Server/Identity.antt =====
-- Which device a message is attributed to.
use karshipta.Common.{
  ℕ, zero, suc, ◌+◌, ◌≡◌, refl, subst, ◌⊎◌, inl, inr, List, [], ◌∷◌, ◌++◌, Option, none, some,
  arith, Bool-cases, length, Text, >>=-eq-some, map-eq-some, some-path,
}
use karshipta.Messages.{Numbers}
use karshipta.Gt06.Types.{ParsedPacket, FrameResult, ok, incomplete, invalid, ParseResult, Platform}
use karshipta.Gt06.Frame.{parse_frame}
use karshipta.Gt06.Server.{
  Connection, Action, identified, ingest, send, Drained, Event, stopping, timeout, poll_error,
  close_request, recv_failed, received, Handled, build_herald_message, handle_packet, send_ack,
  act_on, drain, receive, serve, handle_connection,
}

module _ {D F : Type 0} where
  -- Every message handed over carries the identity noted last; none is handed over before the first.
  abbrev pub Attributed : Option Text → List (Action D F) → Type 0
  Attributed imei [] = Unit {0}
  Attributed imei (identified digits ∷ actions) = Attributed (some digits) actions
  Attributed imei (ingest message ∷ actions) =
      (imei ≡ some message.entity_id) × Attributed imei actions
  Attributed imei (send bytes ∷ actions) = Attributed imei actions

  -- The identity noted last, after the actions.
  abbrev pub last_identity : Option Text → List (Action D F) → Option Text
  last_identity imei [] = imei
  last_identity imei (identified digits ∷ actions) = last_identity (some digits) actions
  last_identity imei (ingest message ∷ actions) = last_identity imei actions
  last_identity imei (send bytes ∷ actions) = last_identity imei actions

  Attributed-append :
      (imei : Option Text) (xs ys : List (Action D F))
      → Attributed imei xs
      → Attributed (last_identity imei xs) ys
      → Attributed imei (xs ++ ys)
  Attributed-append imei [] ys p q = q
  Attributed-append imei (identified digits ∷ xs) ys p q = Attributed-append (some digits) xs ys p q
  Attributed-append imei (ingest message ∷ xs) ys p q = (p.0, Attributed-append imei xs ys p.1 q)
  Attributed-append imei (send bytes ∷ xs) ys p q = Attributed-append imei xs ys p q

  last_identity-append :
      (imei : Option Text) (xs ys : List (Action D F))
      → last_identity imei (xs ++ ys) ≡ last_identity (last_identity imei xs) ys
  last_identity-append imei [] ys = refl
  last_identity-append imei (identified digits ∷ xs) ys = last_identity-append (some digits) xs ys
  last_identity-append imei (ingest message ∷ xs) ys = last_identity-append imei xs ys
  last_identity-append imei (send bytes ∷ xs) ys = last_identity-append imei xs ys

  -- `actions` start with the identity `before` and end with `after`.
  abbrev Keeps : Option Text → List (Action D F) → Option Text → Type 0
  Keeps before actions after = Attributed before actions × (last_identity before actions ≡ after)

  Keeps-append :
      (before middle after : Option Text) (xs ys : List (Action D F))
      → Keeps before xs middle
      → Keeps middle ys after
      → Keeps before (xs ++ ys) after
  Keeps-append before middle after xs ys (p, e) (q, e') =
      (Attributed-append before xs ys p (rw e q), rw (last_identity-append before xs ys, e) e')

module _ {D F : Type 0} (platform : Platform D) (numbers : Numbers D F) where
  handle_packet-Keeps :
      (imei : Option Text) (packet : ParsedPacket D)
      → Keeps imei (handle_packet numbers imei packet).1 (handle_packet numbers imei packet).0
  unfolding handle_packet build_herald_message
  handle_packet-Keeps none packet = ground arith
  handle_packet-Keeps (some digits) packet = ground arith

  send_ack-Keeps :
      (imei : Option Text) (packet : ParsedPacket D)
      → Keeps {D = D} {F = F} imei (send_ack numbers packet) imei
  unfolding send_ack
  send_ack-Keeps imei packet = ground arith

  FrameResult-cases : (x : FrameResult) → (x ≡ ok) ⊎ (x ≡ incomplete) ⊎ (x ≡ invalid)
  FrameResult-cases ok = inl refl
  FrameResult-cases incomplete = inr (inl refl)
  FrameResult-cases invalid = inr (inr refl)

  -- The identity goes from the actions into the connection.
  abbrev Carries : Connection → Drained D F → Type 0
  Carries c d = Keeps c.imei d.actions d.connection.imei

  act_on-Keeps :
      (continue : Connection → Option (Drained D F))
      → ((c : Connection) (d : Drained D F) → continue c ≡ some d → Carries c d)
      → (c : Connection) (r : ParseResult D) (d : Drained D F)
      → act_on platform numbers continue c r ≡ some d
      → Carries c d
  unfolding act_on
  act_on-Keeps continue ih c r d e = elim (FrameResult-cases r.result) [
    | inl is_ok ↦
        let (later, run, q) = map-eq-some (continue _) _ (rw (is_ok, act_on) at e) in
        subst (Carries c) (q) (
          Keeps-append c.imei (handle_packet numbers c.imei r.packet).0 later.connection.imei
            (handle_packet numbers c.imei r.packet).1 (send_ack numbers r.packet ++ later.actions)
            (handle_packet-Keeps c.imei r.packet)
            (Keeps-append _ (handle_packet numbers c.imei r.packet).0 later.connection.imei
              (send_ack numbers r.packet) later.actions (send_ack-Keeps _ r.packet)
              (ih _ later run)))
    | inr (inl wait) ↦ rw (← some-path (rw (wait, act_on) at e)) (tt, refl)
    | inr (inr bad) ↦ rw (← some-path (rw (bad, act_on) at e)) (tt, refl)
  ]

  drain-Keeps :
      (fuel : ℕ) (c : Connection) (d : Drained D F)
      → drain platform numbers fuel c ≡ some d
      → Carries c d
  unfolding drain
  drain-Keeps zero c d e = cc
  drain-Keeps (suc fuel) c d e =
      let (r, _, step) = >>=-eq-some (parse_frame platform c.buffer) _ e in
      act_on-Keeps (drain platform numbers fuel) (drain-Keeps fuel) c r d step

  receive-Carries :
      (c : Connection) (chunk : List ℕ) (d : Drained D F)
      → receive platform numbers c chunk ≡ some d
      → Carries c d
  unfolding receive
  receive-Carries c chunk d e =
      drain-Keeps (suc (length (c.buffer ++ chunk))) (record c { buffer = c.buffer ++ chunk }) d e

  serve-Attributed :
      (clients : ℕ) (c : Connection) (events : List Event) (h : Handled D F)
      → serve platform numbers clients c events ≡ some h
      → Attributed c.imei h.actions
  unfolding serve
  serve-Attributed clients c [] h e = rw (← some-path e) tt
  serve-Attributed clients c (timeout ∷ events) h e = serve-Attributed clients c events h e
  serve-Attributed clients c (stopping ∷ events) h e = rw (← some-path e) tt
  serve-Attributed clients c (poll_error ∷ events) h e = rw (← some-path e) tt
  serve-Attributed clients c (close_request ∷ events) h e = rw (← some-path e) tt
  serve-Attributed clients c (recv_failed ∷ events) h e = rw (← some-path e) tt
  serve-Attributed clients c (received chunk ∷ events) h e =
      let (d, run, rest) = >>=-eq-some (receive platform numbers c chunk) _ e in
      let k : Carries c d = receive-Carries c chunk d run in
      elim (Bool-cases d.desync) [
        | inl lost ↦ rw (← some-path (rw lost at rest)) k.0
        | inr in_sync ↦
            let (later, more, q) =
              map-eq-some (serve platform numbers clients d.connection events) _
                (rw in_sync at rest) in
            subst (λ (x : Handled D F). Attributed c.imei x.actions) (q)
              (Attributed-append c.imei d.actions later.actions k.0
                (rw k.1 (serve-Attributed clients d.connection events later more)))
      ]

  -- On every connection and for every sequence of events, each message handed to the ward manager
  -- carries as its entity id the IMEI of the latest login on that connection, and none is handed over
  -- before the first login.
  pub handle_connection-Attributed :
      (clients : ℕ) (events : List Event) (h : Handled D F)
      → handle_connection platform numbers clients events ≡ some h
      → Attributed none h.actions
  unfolding handle_connection
  handle_connection-Attributed clients events h e =
      serve-Attributed (clients + 1) (record { imei = none; buffer = [] }) events h e
