-- ===== src/Executor/Answers.antt =====
-- Every command is answered.
use karshipta.Common.{
  ◌≡◌, refl, inl, inr, sym, ◌∙◌, ap, Bool, true, false, ◌&&◌, List, [], ◌∷◌, ◌++◌, append_assoc,
  append-nil, none, some, arith, if◌then◌else◌, Text, Bool-cases,
}
use karshipta.Messages.{Command, CommandStatus, success, rejected}
use karshipta.Executor.Vehicle.{Vehicle, Float}
use karshipta.Executor.Queue.{
  Executor, Sent, from_caller, from_worker, Event, enqueues, requests_stop, turn, elapses,
  has_action, reject_leftovers, enqueue, execute, take_next, work, step, run,
}

-- A command's id and ward.
abbrev pub Name : Type 0
Name = Text × Text

abbrev name : {D F : Type 0} → Command D F → Name
name command = (command.command_id, command.ward_id)

abbrev pub names : {D F : Type 0} → List (Command D F) → List Name
names [] = []
names (command ∷ commands) = name command ∷ names commands

-- What the worker answered, in order.
abbrev pub answered : List Sent → List Name
answered [] = []
answered (from_caller ack ∷ sent) = answered sent
answered (from_worker ack ∷ sent) = (ack.command_id, ack.ward_id) ∷ answered sent

-- The commands that entered the queue.
abbrev pub queued : {W D F : Type 0} → List (Event W D F) → List Name
queued [] = []
queued (enqueues command ∷ events) =
    if has_action command.action then name command ∷ queued events else queued events
queued (requests_stop ∷ events) = queued events
queued (turn ∷ events) = queued events
queued (elapses w ∷ events) = queued events

abbrev pub at_hand : {W D F : Type 0} → Executor W D F → List Name
at_hand s = (elim s.busy [ none ↦ [] | some command ↦ name command ∷ [] ]) ++ names s.queue

answered-append : (xs ys : List Sent) → answered (xs ++ ys) ≡ answered xs ++ answered ys
answered-append [] ys = refl
answered-append (from_caller ack ∷ xs) ys = answered-append xs ys
answered-append (from_worker ack ∷ xs) ys =
    ap (λ r. (ack.command_id, ack.ward_id) ∷ r) (answered-append xs ys)

names-append : {D F : Type 0} (xs ys : List (Command D F)) → names (xs ++ ys) ≡ names xs ++ names ys
names-append [] ys = refl
names-append (command ∷ xs) ys = ap (λ r. name command ∷ r) (names-append xs ys)

answered-reject_leftovers :
    {D F : Type 0} (commands : List (Command D F))
    → answered (reject_leftovers commands) ≡ names commands
unfolding reject_leftovers
answered-reject_leftovers [] = refl
answered-reject_leftovers (command ∷ commands) =
    ap (λ r. name command ∷ r) (answered-reject_leftovers commands)

queued-step :
    {W D F : Type 0} (event : Event W D F) (events : List (Event W D F))
    → queued (event ∷ events) ≡ queued (event ∷ []) ++ queued events
queued-step (enqueues command) events = ground arith
queued-step requests_stop events = refl
queued-step turn events = refl
queued-step (elapses w) events = refl

-- No stop is requested.
abbrev pub is_open : {W D F : Type 0} → List (Event W D F) → Bool
is_open [] = true
is_open (enqueues command ∷ events) = is_open events
is_open (requests_stop ∷ events) = false
is_open (turn ∷ events) = is_open events
is_open (elapses w ∷ events) = is_open events

abbrev is_final : CommandStatus → Bool
is_final success = true
is_final rejected = true
is_final status = false

-- Every ack of the worker is a success or a rejection.
abbrev pub all_final : List Sent → Bool
all_final [] = true
all_final (from_caller ack ∷ sent) = all_final sent
all_final (from_worker ack ∷ sent) = is_final ack.status && all_final sent

all_final-append :
    (xs ys : List Sent) → all_final xs ≡ true → all_final ys ≡ true → all_final (xs ++ ys) ≡ true
all_final-append [] ys e f = f
all_final-append (from_caller ack ∷ xs) ys e f = all_final-append xs ys e f
all_final-append (from_worker ack ∷ xs) ys e f = let rest = all_final-append xs ys in ground arith

all_final-reject_leftovers :
    {D F : Type 0} (commands : List (Command D F)) → all_final (reject_leftovers commands) ≡ true
unfolding reject_leftovers
all_final-reject_leftovers [] = refl
all_final-reject_leftovers (command ∷ commands) = all_final-reject_leftovers commands

module _ {W D F : Type 0} (vehicle : Vehicle W D F) (float : Float F) where
  take_next-answered :
      (s : Executor W D F) (waiting : List (Command D F))
      → s.busy ≡ none
      → s.queue ≡ waiting
      → answered (take_next vehicle float s waiting).1
          ++ at_hand (take_next vehicle float s waiting).0
        ≡ names waiting
  unfolding take_next
  take_next-answered s [] b q = ground arith
  take_next-answered s (command ∷ commands) b q = ground (
    arith,
    answered-reject_leftovers (command ∷ commands),
    append-nil (names (command ∷ commands)),
  )

  work-answered :
      (s : Executor W D F)
      → answered (work vehicle float s).1 ++ at_hand (work vehicle float s).0 ≡ at_hand s
  unfolding work execute
  work-answered s = let taken = take_next-answered s s.queue in ground arith

  step-answered :
      (event : Event W D F) (s : Executor W D F)
      → answered (step vehicle float event s).1 ++ at_hand (step vehicle float event s).0
        ≡ at_hand s ++ queued (event ∷ [])
  unfolding step
  step-answered (enqueues command) s = elim (Bool-cases (has_action command.action)) [
    | inl e ↦ simp (e, enqueue, names-append, append_assoc)
    | inr e ↦ simp (e, enqueue, append-nil)
  ]
  step-answered requests_stop s = sym (append-nil (at_hand s))
  step-answered turn s = work-answered s ∙ sym (append-nil (at_hand s))
  step-answered (elapses w) s = sym (append-nil (at_hand s))

  run-answered :
      (events : List (Event W D F)) (s : Executor W D F)
      → answered (run vehicle float events s).1 ++ at_hand (run vehicle float events s).0
        ≡ at_hand s ++ queued events
  unfolding run
  run-answered [] s = sym (append-nil (at_hand s))
  run-answered (event ∷ events) s =
      let now = step vehicle float event s in
      let first = step-answered event s in
      let rest = run-answered events now.0 in
      let both = run vehicle float events now.0 in
      rw (answered-append, append_assoc, rest, ← append_assoc, first, append_assoc, ← queued-step)
        refl

  step-final :
      (event : Event W D F) (s : Executor W D F) → all_final (step vehicle float event s).1 ≡ true
  unfolding step enqueue work execute take_next
  step-final (enqueues command) s = ground arith
  step-final requests_stop s = refl
  step-final turn s = let leftovers = all_final-reject_leftovers s.queue in ground arith
  step-final (elapses w) s = refl

  run-final :
      (events : List (Event W D F)) (s : Executor W D F)
      → all_final (run vehicle float events s).1 ≡ true
  unfolding run
  run-final [] s = refl
  run-final (event ∷ events) s =
      let now = step vehicle float event s in
      all_final-append now.1 (run vehicle float events now.0).1 (step-final event s)
        (run-final events now.0)

  -- The worker has not been asked to stop.
  abbrev Open : Executor W D F → Type 0
  Open s = (s.stop_requested ≡ false) × (s.ended ≡ false)

  step-Open :
      (event : Event W D F) (s : Executor W D F)
      → is_open (event ∷ []) ≡ true
      → Open s
      → Open (step vehicle float event s).0
  unfolding step enqueue work execute take_next
  step-Open (enqueues command) s e o = ground arith
  step-Open requests_stop s e o = cc
  step-Open turn s e o = ground arith
  step-Open (elapses w) s e o = o

  run-Open :
      (events : List (Event W D F)) (s : Executor W D F)
      → is_open events ≡ true
      → Open s
      → Open (run vehicle float events s).0
  unfolding run
  run-Open [] s e o = o
  run-Open (enqueues command ∷ events) s e o =
      run-Open events (step vehicle float (enqueues command) s).0 e
        (step-Open (enqueues command) s refl o)
  run-Open (requests_stop ∷ events) s e o = cc
  run-Open (turn ∷ events) s e o =
      run-Open events (step vehicle float turn s).0 e (step-Open turn s refl o)
  run-Open (elapses w ∷ events) s e o =
      run-Open events (step vehicle float (elapses w) s).0 e (step-Open (elapses w) s refl o)

  closing-at_hand :
      (s : Executor W D F)
      → s.ended ≡ false
      → at_hand (run vehicle float (requests_stop ∷ turn ∷ turn ∷ []) s).0 ≡ []
  unfolding run step work execute take_next
  closing-at_hand s e = ground arith

  -- From an executor with nothing at hand, over any sequence of arrivals, worker steps and changes of
  -- the vehicle, a stop request and two more steps of the worker: the worker has answered exactly the
  -- commands that have an action, once each and in the order of their arrival, and each of these
  -- answers is a success or a rejection.
  pub run-answers :
      (events : List (Event W D F)) (w : W)
      → is_open events ≡ true
      → let start : Executor W D F = record {
        queue = [];
        busy = none;
        stop_requested = false;
        ended = false;
        world = w;
      } in
        let before = run vehicle float events start in
        let after = run vehicle float (requests_stop ∷ turn ∷ turn ∷ []) before.0 in
        (answered (before.1 ++ after.1) ≡ queued events) × (all_final (before.1 ++ after.1) ≡ true)
  run-answers events w e =
      let start : Executor W D F = record {
        queue = [];
        busy = none;
        stop_requested = false;
        ended = false;
        world = w;
      } in
      let before = run vehicle float events start in
      let closing : List (Event W D F) = requests_stop ∷ turn ∷ turn ∷ [] in
      let after = run vehicle float closing before.0 in
      let emptied = closing-at_hand before.0 (run-Open events start e (refl, refl)).1 in
      let first = run-answered events start in
      let last = run-answered closing before.0 in
      let joined = answered-append before.1 after.1 in
      let unit = append-nil (answered after.1) in
      let unit' = append-nil (at_hand before.0) in
      (
        joined
            ∙ ap (λ r. answered before.1 ++ r)
                (sym unit ∙ ap (λ r. answered after.1 ++ r) (sym emptied) ∙ last ∙ unit')
            ∙ first,
        all_final-append before.1 after.1 (run-final events start) (run-final closing before.0),
      )
