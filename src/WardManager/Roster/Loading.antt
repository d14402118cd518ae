-- ===== src/WardManager/Roster/Loading.antt =====
-- ward_manager.cpp, the registry read back from its file, and the console's requests to change it.
use karshipta.Common.{
  [], false, is_empty, ◌+◌, text, Bool, true, ◌∷◌, none, some, Text, List, Option, if◌then◌else◌, ℕ,
  ◌>>=◌,
}
use karshipta.WardManager.Roster.{
  invalid_argument, class_unspecified, ward_removed, ward_added, refused, added, WardClass,
  WardConfig, add_ward_impl, Tools, WardRegistry, ConfigAck, RosterEvent, Added,
}
use karshipta.WardManager.Roster.Calls.{start_all, start_ward, remove_ward_impl}

-- `threw` is an exception that is not one of yaml-cpp: it leaves `load_persisted`.
pub data Loaded (R : Type 0) : Type 0 where
  loaded : ℕ → R → Loaded R
  threw : Text → R → Loaded R

pub record AddWard : Type 0 where
  pub request_id : Text
  pub config : WardConfig

unfoldable pub class_or : Option WardClass → WardClass
class_or none = class_unspecified
class_or (some ward_class) = ward_class

unfoldable pub reply : Text → Text → Text → Option Text → ConfigAck
reply request_id ward_id message none = record {
  request_id = request_id;
  ward_id = ward_id;
  accepted = true;
  message = message;
}
reply request_id ward_id message (some error) = record {
  request_id = request_id;
  ward_id = ward_id;
  accepted = false;
  message = error;
}

unfoldable pub announced : RosterEvent → Option Text → List RosterEvent
announced event none = event ∷ []
announced event (some error) = []

unfoldable pub count_added :
    {E M B V : Type 0}
    → ℕ
    → WardRegistry E M B V
    → Added (WardRegistry E M B V)
    → Loaded (WardRegistry E M B V)
count_added n s (added s') = loaded (n + 1) s'
count_added n s (refused error) = loaded n s
count_added n s (invalid_argument what) = threw what s

module _ {E M N B V : Type 0} (tools : Tools E M N B V) where
  -- An entry of the file; `none` is an exception of yaml-cpp.
  unfoldable pub text_or_empty : Option N → Option Text
  text_or_empty none = some []
  text_or_empty (some node) = tools.yaml.as_text node

  unfoldable pub as_text_at : Text → N → Option Text
  as_text_at key entry = do node ← tools.yaml.child key entry; tools.yaml.as_text node

  unfoldable pub config_of : N → Option WardConfig
  unfolding as_text_at text_or_empty class_or
  config_of entry = do
    ward_id ← as_text_at (text "ward_id") entry
    connection_url ← as_text_at (text "connection_url") entry
    system_id_node ← tools.yaml.child (text "mavlink_system_id") entry
    system_id ← tools.yaml.as_unsigned system_id_node
    name ← text_or_empty (tools.yaml.child (text "name") entry)
    class_name ← text_or_empty (tools.yaml.child (text "ward_class") entry)
    some (record {
      ward_id = ward_id;
      connection_url = connection_url;
      system_id = system_id;
      ward_class =
          if is_empty class_name
          then class_unspecified
          else class_or (tools.parse_class class_name);
      name = name;
    })

  unfoldable pub load_config :
      Option WardConfig → ℕ → WardRegistry E M B V → Loaded (WardRegistry E M B V)
  unfolding count_added add_ward_impl
  load_config none n s = loaded n s
  load_config (some cfg) n s = count_added n s (add_ward_impl tools cfg false s)

  unfoldable pub load_entry : N → Loaded (WardRegistry E M B V) → Loaded (WardRegistry E M B V)
  unfolding load_config config_of
  load_entry entry (loaded n s) = load_config (config_of entry) n s
  load_entry entry (threw what s) = threw what s

  unfoldable pub load_entries :
      List N → Loaded (WardRegistry E M B V) → Loaded (WardRegistry E M B V)
  unfolding load_entry
  load_entries [] so_far = so_far
  load_entries (entry ∷ entries) so_far = load_entries entries (load_entry entry so_far)

  -- The sequence in the file, if it has one.
  unfoldable pub stored_entries : Option B → Option (List N)
  stored_entries stored = do
    content ← stored
    root ← tools.yaml.parse content
    wards ← tools.yaml.child (text "wards") root
    tools.yaml.elements wards

  unfoldable pub load_found : Option (List N) → WardRegistry E M B V → Loaded (WardRegistry E M B V)
  unfolding load_entries
  load_found none s = loaded 0 s
  load_found (some entries) s = load_entries entries (loaded 0 s)

  unfoldable pub load_persisted : WardRegistry E M B V → Loaded (WardRegistry E M B V)
  unfolding load_found stored_entries
  load_persisted s = load_found (if tools.has_path then stored_entries s.stored else none) s

  unfoldable pub start_loaded : Loaded (WardRegistry E M B V) → Loaded (WardRegistry E M B V)
  unfolding start_all
  start_loaded (loaded n s) = loaded n (start_all tools s)
  start_loaded (threw what s) = threw what s

  unfoldable pub restore_and_start : WardRegistry E M B V → Loaded (WardRegistry E M B V)
  unfolding load_persisted start_loaded
  restore_and_start s = start_loaded (load_persisted s)

  -- After `start`: a ward that does not start is taken back.
  unfoldable pub roll_back : Text → Bool × WardRegistry E M B V → Option Text × WardRegistry E M B V
  unfolding remove_ward_impl
  roll_back id (started, s) =
      if started
      then (none, s)
      else (some (text "ward registered but failed to start"), (remove_ward_impl tools id s).1)

  -- `others` is what other threads do between the registration and the start.
  unfoldable pub start_added :
      (WardRegistry E M B V → WardRegistry E M B V)
      → Text
      → WardRegistry E M B V
      → Added (WardRegistry E M B V)
      → Option Text × WardRegistry E M B V
  unfolding roll_back start_ward
  start_added others id s (added s') = roll_back id (start_ward tools id (others s'))
  start_added others id s (refused error) = (some error, s)
  start_added others id s (invalid_argument what) = (some what, s)

  unfoldable pub handle_add_ward :
      (WardRegistry E M B V → WardRegistry E M B V)
      → AddWard
      → WardRegistry E M B V
      → (ConfigAck × List RosterEvent) × WardRegistry E M B V
  unfolding start_added add_ward_impl reply announced
  handle_add_ward others request s =
      let id = request.config.ward_id in
      let result = start_added others id s (add_ward_impl tools request.config true s) in
      (
        (
          reply request.request_id id (text "connection attempt underway") result.0,
          announced (ward_added id) result.0,
        ),
        result.1,
      )

  unfoldable pub handle_remove_ward :
      Text → Text → WardRegistry E M B V → (ConfigAck × List RosterEvent) × WardRegistry E M B V
  unfolding remove_ward_impl reply announced
  handle_remove_ward request_id id s =
      let result = remove_ward_impl tools id s in
      (
        (reply request_id id (text "ward removed") result.0, announced (ward_removed id) result.0),
        result.1,
      )
