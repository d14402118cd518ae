-- ===== src/WardManager/Tests.antt =====
-- A ward on the ground, one in the air and the calls on them, and the theorems at inputs that meet their
-- hypotheses.
use karshipta.WardManager.Roster.Calls.{remove_ward_impl}
use karshipta.Messages.{class_unspecified, class_unrecognized, class_multirotor}
use karshipta.Common.{
  is_empty, text_eq, ◌≡◌, ◌+◌, inl, List, ℕ, Bool, arith, ap, refl, [], ◌∷◌, none, some, true,
  false, text, ltb, leb,
}
use karshipta.WardManager.Types.{ManagedWard, WardConfig}
use karshipta.WardManager.Lifecycle.{
  force_stop, stop_scene, Vehicles, Scene, disarmed, link_connected,
}
use karshipta.WardManager.Locks.{
  is_freed, Threads, Turn, dispatches, uploads, starts, transitions, advances, turns,
}
use karshipta.WardManager.Locks.Exclusive.{Sound, turns-Sound}
use karshipta.WardManager.Grounded.{Outcome, stop_scene-Outcome}
use karshipta.WardManager.Landing.{Forced, Ticks, force_stop_lem}
use karshipta.WardManager.Roster.{entry_node, Tools, WardRegistry}
use karshipta.WardManager.Roster.Restart.{ReadsBack, restarted, Restored, restart-calls}
use karshipta.WardManager.Roster.Kept.{Call, adds, removes, starts, stops, run_calls}
use karshipta.WardManager.Roster.Loading.{config_of, AddWard, load_persisted, handle_add_ward}
use karshipta.WardManager.Roster.Requests.{Handled, handle_add_ward-Handled}
use karshipta.WardManager.TestYaml.{
  Tree, trees, find_field-fields, item_list-items, class_text, class_of_text, class_read_back,
}

abbrev tower : WardConfig
tower = record {
  ward_id = text "b";
  connection_url = text "udp://:14540";
  system_id = 7;
  ward_class = class_multirotor;
  name = text "tower";
}

abbrev scout : WardConfig
scout = record tower { ward_id = text "a"; system_id = 0 }

abbrev started_ward : ManagedWard ℕ ℕ
started_ward = record {
  config = tower;
  mission = 0;
  executor = some 1;
  busy = false;
  pending_auto_start_mission_id = none;
  running = true;
}

-- The world is the clock; the ward lands at 5000.
abbrev field : Vehicles ℕ
field = record {
  link_state = λ id now. (link_connected, now);
  is_in_air = λ id now. (ltb now 5000, now);
  is_armed = λ id now. (leb now 5000, now);
  disarm = λ id now. (disarmed, now + 1);
  return_to_launch = λ id now. (true, now);
  join_executor = λ id now. now;
  sleep_poll_interval = λ now. now + 1000;
  now_ms = λ now. now;
}

field-Ticks : Ticks field
field-Ticks = (λ v. omega arith, λ id v. omega arith, λ id v. omega arith, λ id v. omega arith)

abbrev at_time : ℕ → Scene ℕ ℕ ℕ
at_time now = record { ward = started_ward; world = now; retired = [] }

stop_scene-Outcome_example : Outcome field 2 5000 (at_time 5000) (stop_scene field 2 (at_time 5000))
stop_scene-Outcome_example = stop_scene-Outcome field 2 (at_time 5000)

force_stop_lem_example :
    ((stopped : Bool) × ((force_stop field 121 2 (at_time 1000)).0 ≡ some stopped))
    × Forced field 2 (at_time 1000) (force_stop field 121 2 (at_time 1000))
force_stop_lem_example = force_stop_lem field 2 (at_time 1000) field-Ticks

abbrev quiet : Threads ℕ
quiet = record { ward = started_ward; holders = []; freed = []; next = 2; faults = 0 }

-- A stop comes between a command's claim of the ward and its enqueueing.
abbrev schedule : List Turn
schedule =
    dispatches
    ∷ transitions true
    ∷ advances 0 true
    ∷ advances 0 true
    ∷ transitions true
    ∷ dispatches
    ∷ advances 0 true
    ∷ advances 0 false
    ∷ advances 0 true
    ∷ starts
    ∷ uploads
    ∷ []

turns-Sound_example : Sound (turns schedule quiet)
unfolding is_freed
turns-Sound_example = turns-Sound schedule quiet (refl, (omega arith, refl), tt, refl)

abbrev tools : Tools ℕ ℕ Tree Tree ℕ
tools = record {
  vehicles = field;
  yaml = trees;
  make_executor = λ cfg. 1;
  make_mission = λ cfg. 0;
  class_name = class_text;
  parse_class = class_of_text;
  to_string = λ n. text "7";
  has_path = true;
  gets_through = λ v. true;
}

tools-ReadsBack : ReadsBack tools
tools-ReadsBack = (
  λ node. refl,
  find_field-fields,
  λ nodes. ap some (item_list-items nodes),
  λ s. refl,
  λ n small. refl,
  class_read_back,
)

abbrev fresh : WardRegistry ℕ ℕ Tree ℕ
fresh = restarted tools 6000 none

abbrev day : List Call
day =
    adds tower
    ∷ starts (text "b")
    ∷ adds scout
    ∷ adds (record scout { ward_id = text "c"; system_id = 7 })
    ∷ removes (text "b")
    ∷ stops (text "a")
    ∷ []

restart-calls_example :
    Restored tools
      (run_calls tools day fresh)
      (load_persisted tools (restarted tools 0 (run_calls tools day fresh).stored))
restart-calls_example =
    restart-calls tools day fresh 0 (refl, λ v. refl) tools-ReadsBack
      ((omega arith, refl), (tt, ((omega arith, refl), ((omega arith, refl), (tt, (tt, tt))))))
      ((tt, tt, tt), inl (refl, refl))

-- A class without a name is lost in the file.
unrecognized_lost :
    config_of tools (entry_node tools (record tower { ward_class = class_unrecognized 42 }))
    ≡ some (record tower { ward_class = class_unspecified })
unfolding config_of entry_node text_eq is_empty
unrecognized_lost = refl

abbrev request : AddWard
request = record { request_id = text "r"; config = tower }

-- Another thread removes the ward before it is started.
abbrev removing : WardRegistry ℕ ℕ Tree ℕ → WardRegistry ℕ ℕ Tree ℕ
removing s = (remove_ward_impl tools (text "b") s).1

handle_add_ward-Handled_example :
    Handled tools removing request fresh (handle_add_ward tools removing request fresh)
handle_add_ward-Handled_example = handle_add_ward-Handled tools removing request fresh
