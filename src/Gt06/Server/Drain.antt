-- ===== src/Gt06/Server/Drain.antt =====
-- The inner loop ends, and what it leaves.
use karshipta.Common.{
  ℕ, zero, suc, ◌+◌, ◌-◌, ◌≤◌, ◌<◌, ◌≡◌, refl, ◌⊎◌, inl, inr, true, false, List, [], ◌∷◌, ◌++◌,
  Option, none, if◌then◌else◌, arith, ltb, Bool-cases, length, drop, length-drop, Returns,
  Returns-then,
}
use karshipta.Messages.{Numbers}
use karshipta.Gt06.Types.{ParseResult, Platform}
use karshipta.Gt06.Frame.{parse_frame}
use karshipta.Gt06.Frame.Stop.{StopAt}
use karshipta.Gt06.Frame.Outcome.{
  Outcome, framed, waiting, rejected, StartsFrame, parse_frame-Outcome,
}
use karshipta.Gt06.Server.{
  Connection, Action, Drained, max_frame_buffer_size, act_on, drain, receive, Event, stopping,
  timeout, poll_error, close_request, recv_failed, received, Handled, serve, handle_connection,
}

-- What is left in the buffer after the inner loop.
pub record Settled {D F : Type 0} (before : List ℕ) (d : Drained D F) : Type 0 where
  pub shrinks : length d.connection.buffer ≤ length before
  pub settled :
      (d.desync ≡ true)
      ⊎ ((length d.connection.buffer ≤ max_frame_buffer_size)
          × ((length d.connection.buffer < 2) ⊎ StartsFrame d.connection.buffer)
          × ((i : ℕ) → ¬ StopAt d.connection.buffer i))

module _ {D F : Type 0} (platform : Platform D) (numbers : Numbers D F) where
  act_on-Settled :
      (continue : Connection → Option (Drained D F)) (fuel : ℕ)
      → ((c : Connection) → length c.buffer < fuel → Returns (Settled c.buffer) (continue c))
      → (c : Connection) (r : ParseResult D) → length c.buffer < suc fuel
      → Outcome c.buffer r
      → Returns (Settled c.buffer) (act_on platform numbers continue c r)
  unfolding act_on
  act_on-Settled continue fuel ih c r h (waiting e s no_stop) =
      rw (e, act_on)
        (
          _,
          refl,
          record {
            shrinks = omega arith;
            settled = elim (Bool-cases (ltb max_frame_buffer_size (length c.buffer))) [
              | inl big ↦ inl big
              | inr small ↦ inr (ground arith, s, no_stop)
            ];
          },
        )
  act_on-Settled continue fuel ih c r h (rejected e long bad) =
      rw (e, act_on) (_, refl, record { shrinks = omega arith; settled = inl refl })
  act_on-Settled continue fuel ih c r h (framed e s low inside stop) =
      let left = drop r.consumed_bytes c.buffer in
      let fewer : length left < length c.buffer =
        omega (arith, length-drop r.consumed_bytes c.buffer) in
      rw (e, act_on)
        (Returns-then (Settled left) (Settled c.buffer) (continue _) _ (ih _ (omega arith))
          λ later w. (_, refl, record { shrinks = omega (arith, w.shrinks); settled = w.settled }))

  drain-Settled :
      (fuel : ℕ) (c : Connection)
      → length c.buffer < fuel
      → Returns (Settled c.buffer) (drain platform numbers fuel c)
  unfolding drain
  drain-Settled zero c h = elim h [ ]
  drain-Settled (suc fuel) c h =
      Returns-then (Outcome c.buffer) (Settled c.buffer) (parse_frame platform c.buffer) _
        (parse_frame-Outcome platform c.buffer)
        λ r o. act_on-Settled (drain platform numbers fuel) fuel (drain-Settled fuel) c r h o

  -- Whatever bytes arrive, the inner loop ends within its fuel and reads nothing outside the buffer.
  -- It either gives the connection up, or leaves at most 32 KiB in the buffer, which then hold no
  -- stop marker and are fewer than 2 bytes or begin with a start marker.
  pub receive-Settled :
      (c : Connection) (chunk : List ℕ)
      → Returns (Settled (c.buffer ++ chunk)) (receive platform numbers c chunk)
  unfolding receive
  receive-Settled c chunk =
      drain-Settled (suc (length (c.buffer ++ chunk))) (record c { buffer = c.buffer ++ chunk })
        (omega arith)

  -- Accounting of one connection thread.
  pub record Accounted (clients : ℕ) (h : Handled D F) : Type 0 where
    pub counted : h.connected_clients ≡ (if h.terminated then clients else clients + 1)
    pub bounded : h.terminated ≡ false → length h.connection.buffer ≤ max_frame_buffer_size

  ended-Accounted :
      (clients : ℕ) (c : Connection) (actions : List (Action D F))
      → Accounted clients (record {
        connection = c;
        actions = actions;
        connected_clients = clients + 1 - 1;
        terminated = true;
      })
  ended-Accounted clients c actions = record { counted = omega arith; bounded = λ e. cc }

  serve-Accounted :
      (clients : ℕ) (c : Connection) (events : List Event)
      → length c.buffer ≤ max_frame_buffer_size
      → Returns (Accounted clients) (serve platform numbers (clients + 1) c events)
  unfolding serve
  serve-Accounted clients c [] h = (_, refl, record { counted = refl; bounded = λ _. h })
  serve-Accounted clients c (timeout ∷ events) h = serve-Accounted clients c events h
  serve-Accounted clients c (stopping ∷ events) h = (_, refl, ended-Accounted clients c [])
  serve-Accounted clients c (poll_error ∷ events) h = (_, refl, ended-Accounted clients c [])
  serve-Accounted clients c (close_request ∷ events) h = (_, refl, ended-Accounted clients c [])
  serve-Accounted clients c (recv_failed ∷ events) h = (_, refl, ended-Accounted clients c [])
  serve-Accounted clients c (received chunk ∷ events) h =
      Returns-then (Settled (c.buffer ++ chunk)) (Accounted clients)
        (receive platform numbers c chunk) _ (receive-Settled c chunk)
        λ d s. elim (Bool-cases d.desync) [
          | inl lost ↦ rw lost (_, refl, ended-Accounted clients d.connection d.actions)
          | inr in_sync ↦ rw in_sync (
              Returns-then (Accounted clients) (Accounted clients)
                (serve platform numbers (clients + 1) d.connection events) _
                (serve-Accounted clients d.connection events (ground (arith, s.settled)))
                λ later a. (_, refl, record { counted = a.counted; bounded = a.bounded }))
        ]

  -- For every sequence of events the thread runs without a read outside its buffer. Where it has
  -- ended, the count of connected clients is what it was before the connection; while it runs, it is
  -- one more and the buffer holds at most 32 KiB between two turns of the loop.
  pub handle_connection-Accounted :
      (clients : ℕ) (events : List Event)
      → Returns (Accounted clients) (handle_connection platform numbers clients events)
  unfolding handle_connection
  handle_connection-Accounted clients events =
      serve-Accounted clients (record { imei = none; buffer = [] }) events (omega arith)
