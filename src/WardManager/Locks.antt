-- ===== src/WardManager/Locks.antt =====
-- The critical sections of many threads on one ward, in any order. Executors are addresses, so that a
-- use of one that is gone can be seen.
pub mod Exclusive
use karshipta.WardManager.Sections.{
  stop_worker, restore_executor, start_worker, claim, clear_busy, retire_executor,
}
use karshipta.Common.{
  zero, [], not, ◌+◌, ◌||◌, ◌&&◌, suc, ◌==◌, some, none, Text, false, if◌then◌else◌, ℕ, Option, ◌∷◌,
  Bool, List,
}
use karshipta.WardManager.Types.{ManagedWard}

-- Where a thread is that holds the ward's `busy`.
pub data Phase : Type 0 where
  enqueueing : ℕ → Phase
  retiring : Option ℕ → Phase
  on_mission retired leaving : Phase

-- `freed` are the executors that are destroyed, `next` the next address, `faults` counts the uses of
-- one that is gone.
pub record Threads (M : Type 0) : Type 0 where
  pub ward : ManagedWard ℕ M
  pub holders : List Phase
  pub freed : List ℕ
  pub next : ℕ
  pub faults : ℕ

-- A thread enters a section: `dispatches` that of dispatch_command and of the publish loop's deferred
-- commands, `uploads` those of missions, `transitions` those of stop, force_stop and remove_ward, whose
-- own guards pass or not. `advances` lets a holder go on; the Bool is what it has seen of the vehicle.
pub data Turn : Type 0 where
  dispatches uploads starts : Turn
  transitions : Bool → Turn
  advances : ℕ → Bool → Turn

unfoldable pub is_freed : ℕ → List ℕ → Bool
is_freed e [] = false
is_freed e (gone ∷ rest) = gone == e || is_freed e rest

unfoldable pub free : Option ℕ → List ℕ → List ℕ
free none freed = freed
free (some e) freed = e ∷ freed

unfoldable pub pick : ℕ → List Phase → Option (Phase × List Phase)
pick n [] = none
pick zero (phase ∷ phases) = some (phase, phases)
pick (suc n) (phase ∷ phases) = elim (pick n phases) [
  | none ↦ none
  | some found ↦ some (found.0, phase ∷ found.1)
]

module _ {M : Type 0} where
  unfoldable pub entered : Phase → Option Text × ManagedWard ℕ M → Threads M → Threads M
  entered phase (none, ward) s = record s { ward = ward; holders = phase ∷ s.holders }
  entered phase (some rejection, ward) s = s

  -- The executor whose address the thread takes along.
  unfoldable pub dispatch_turn : Option ℕ → Threads M → Threads M
  unfolding entered claim
  dispatch_turn none s = s
  dispatch_turn (some e) s = entered (enqueueing e) (claim s.ward) s

  unfoldable pub transition_turn : Bool → Threads M → Threads M
  unfolding retire_executor
  transition_turn passes s =
      if passes && not s.ward.busy
      then record s {
        ward = retire_executor s.ward;
        holders = retiring s.ward.executor ∷ s.holders;
      }
      else s

  unfoldable pub start_turn : Threads M → Threads M
  unfolding start_worker
  start_turn s =
      if s.ward.busy || s.ward.running
      then s
      else record s { ward = start_worker s.next s.ward; next = s.next + 1 }

  -- The next step of a holder; `others` are the other holders.
  unfoldable pub advance : Bool → List Phase → Phase → Threads M → Threads M
  unfolding is_freed free clear_busy restore_executor stop_worker
  advance seen others (enqueueing e) s = record s {
    holders = leaving ∷ others;
    faults = s.faults + (if is_freed e s.freed then 1 else 0);
  }
  advance seen others on_mission s = record s { holders = leaving ∷ others }
  advance seen others (retiring executor) s = record s {
    holders = retired ∷ others;
    freed = free executor s.freed;
  }
  advance seen others retired s =
      if seen
      then record s { ward = stop_worker s.ward; holders = leaving ∷ others }
      else record s {
        ward = restore_executor s.next s.ward;
        holders = leaving ∷ others;
        next = s.next + 1;
      }
  advance seen others leaving s = record s { ward = clear_busy s.ward; holders = others }

  unfoldable pub advance_picked : Bool → Option (Phase × List Phase) → Threads M → Threads M
  unfolding advance
  advance_picked seen none s = s
  advance_picked seen (some (phase, others)) s = advance seen others phase s

  unfoldable pub turn_of : Turn → Threads M → Threads M
  unfolding dispatch_turn transition_turn start_turn advance_picked pick entered claim
  turn_of dispatches s = dispatch_turn s.ward.executor s
  turn_of uploads s = entered on_mission (claim s.ward) s
  turn_of starts s = start_turn s
  turn_of (transitions passes) s = transition_turn passes s
  turn_of (advances n seen) s = advance_picked seen (pick n s.holders) s

  unfoldable pub turns : List Turn → Threads M → Threads M
  unfolding turn_of
  turns [] s = s
  turns (turn ∷ rest) s = turns rest (turn_of turn s)
