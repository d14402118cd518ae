-- ===== src/WardManager/Sections.antt =====
-- ward_manager.cpp, the critical sections under a ward's own mutex.
use karshipta.Common.{true, false, Option, none, some, if◌then◌else◌, Text, text}
use karshipta.WardManager.Types.{ManagedWard}

unfoldable pub executor_or : {E : Type 0} → E → Option E → E
executor_or made none = made
executor_or made (some executor) = executor

module _ {E M : Type 0} where
  unfoldable pub clear_busy : ManagedWard E M → ManagedWard E M
  clear_busy ward = record ward { busy = false }

  -- The section of every request that uses the executor or the mission. `none`: the ward is claimed.
  unfoldable pub claim_with : Option E → ManagedWard E M → Option Text × ManagedWard E M
  claim_with none ward = (some (text "ward is stopped"), ward)
  claim_with (some executor) ward =
      if ward.busy
      then (some (text "ward is busy, retry shortly"), ward)
      else (none, record ward { busy = true })

  unfoldable pub claim : ManagedWard E M → Option Text × ManagedWard E M
  unfolding claim_with
  claim ward = claim_with ward.executor ward

  -- What a transition does once its guards have passed: the executor is moved out.
  unfoldable pub retire_executor : ManagedWard E M → ManagedWard E M
  retire_executor ward = record ward { busy = true; executor = none }

  unfoldable pub restore_executor : E → ManagedWard E M → ManagedWard E M
  restore_executor executor ward = record ward { executor = some executor }

  unfoldable pub stop_worker : ManagedWard E M → ManagedWard E M
  stop_worker ward = record ward { running = false }

  -- `start`, once its guards have passed; `made` is a new executor.
  unfoldable pub start_worker : E → ManagedWard E M → ManagedWard E M
  unfolding executor_or
  start_worker made ward = record ward {
    executor = some (executor_or made ward.executor);
    running = true;
  }
