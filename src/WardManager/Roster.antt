-- ===== src/WardManager/Roster.antt =====
-- ward_manager.cpp, the registry of the wards and the file that it is kept in. One call at a time.
pub mod Calls
pub mod Loading
pub mod Configs
pub mod Kept
pub mod Histories
pub mod Restart
pub mod Requests
use karshipta.Common.{
  is_some, ◌==◌, ◌&&◌, [], is_empty, false, none, ◌++◌, Option, Bool, lookup, ℕ, some,
  if◌then◌else◌, List, insert, ◌∷◌, Text, text, text_eq,
}
use karshipta.Messages.{WardClass, class_unspecified}
use karshipta.WardManager.Types.{WardConfig, ManagedWard}
use karshipta.WardManager.Lifecycle.{Vehicles}

-- What is used of yaml-cpp: `N` are its nodes and `B` the bytes of a file. `as_text` and `as_unsigned`
-- are `none` where `as` throws, `elements` where a node is no sequence, `child` where it is missing.
pub record Yaml (N B : Type 0) : Type 0 where
  pub text_node : Text → N
  pub unsigned_node : ℕ → N
  pub map_node : List (Text × N) → N
  pub sequence_node : List N → N
  pub child : Text → N → Option N
  pub as_text : N → Option Text
  pub as_unsigned : N → Option ℕ
  pub elements : N → Option (List N)
  pub emit : N → B
  pub parse : B → Option N

-- What else the registry calls: constructors, protobuf's names of an enumeration, and the file system.
-- `gets_through` says whether a file is replaced by then.
pub record Tools (E M N B V : Type 0) : Type 0 where
  pub vehicles : Vehicles V
  pub yaml : Yaml N B
  pub make_executor : WardConfig → E
  pub make_mission : WardConfig → M
  pub class_name : WardClass → Text
  pub parse_class : Text → Option WardClass
  pub to_string : ℕ → Text
  pub has_path : Bool
  pub gets_through : V → Bool

-- `stored` is the content of the file, if there is one.
pub record WardRegistry (E M B V : Type 0) : Type 0 where
  pub managed_wards : List (Text × ManagedWard E M)
  pub world : V
  pub retired : List E
  pub stored : Option B

-- The result of `add_ward_impl`; `invalid_argument` is the exception that a connection throws.
pub data Added (R : Type 0) : Type 0 where
  added : R → Added R
  refused invalid_argument : Text → Added R

-- The requests of the console, and the reply to them.
pub record ConfigAck : Type 0 where
  pub request_id : Text
  pub ward_id : Text
  pub accepted : Bool
  pub message : Text

-- `broadcast_fleet_event`: a ward was added, or removed.
pub data RosterEvent : Type 0 where
  ward_added ward_removed : Text → RosterEvent

unfoldable pub system_id_holder : {E M : Type 0} → ℕ → List (Text × ManagedWard E M) → Option Text
system_id_holder system_id [] = none
system_id_holder system_id ((id, ward) ∷ rest) =
    if ward.config.system_id == system_id then some id else system_id_holder system_id rest

module _ {E M N B V : Type 0} (tools : Tools E M N B V) where
  unfoldable pub new_ward : WardConfig → ManagedWard E M
  new_ward cfg = record {
    config = cfg;
    mission = tools.make_mission cfg;
    executor = some (tools.make_executor cfg);
    busy = false;
    pending_auto_start_mission_id = none;
    running = false;
  }

  unfoldable pub entry_node : WardConfig → N
  entry_node cfg = tools.yaml.map_node (
      (text "ward_id", tools.yaml.text_node cfg.ward_id)
      ∷ (text "connection_url", tools.yaml.text_node cfg.connection_url)
      ∷ (text "mavlink_system_id", tools.yaml.unsigned_node cfg.system_id)
      ∷ (text "name", tools.yaml.text_node cfg.name)
      ∷ (text "ward_class", tools.yaml.text_node (tools.class_name cfg.ward_class))
      ∷ [])

  unfoldable pub entry_nodes : List (Text × ManagedWard E M) → List N
  unfolding entry_node
  entry_nodes [] = []
  entry_nodes ((id, ward) ∷ rest) = entry_node ward.config ∷ entry_nodes rest

  unfoldable pub render : List (Text × ManagedWard E M) → B
  unfolding entry_nodes
  render wards =
      tools.yaml.emit
        (tools.yaml.map_node ((text "wards", tools.yaml.sequence_node (entry_nodes wards)) ∷ []))

  -- Without a path there is no file. A write that fails leaves the old file.
  unfoldable pub persist_locked : WardRegistry E M B V → WardRegistry E M B V
  unfolding render
  persist_locked s =
      if tools.has_path && tools.gets_through s.world
      then record s { stored = some (render s.managed_wards) }
      else s

  unfoldable pub emplace_ward : WardConfig → Bool → WardRegistry E M B V → WardRegistry E M B V
  unfolding new_ward persist_locked insert
  emplace_ward cfg should_persist s =
      let grown : WardRegistry E M B V = record s {
        managed_wards = insert cfg.ward_id (new_ward cfg) s.managed_wards;
      } in
      if should_persist then persist_locked grown else grown

  unfoldable pub admit :
      WardConfig → Bool → Option Text → WardRegistry E M B V → Added (WardRegistry E M B V)
  unfolding emplace_ward
  admit cfg should_persist (some holder) s = refused (
      text "system_id "
      ++ tools.to_string cfg.system_id
      ++ text " already bound to ward_id '"
      ++ holder
      ++ text "'")
  admit cfg should_persist none s = added (emplace_ward cfg should_persist s)

  unfoldable pub add_ward_impl :
      WardConfig → Bool → WardRegistry E M B V → Added (WardRegistry E M B V)
  unfolding admit system_id_holder lookup
  add_ward_impl cfg should_persist s =
      if is_empty cfg.ward_id
      then refused (text "ward_id is empty")
      else if is_empty cfg.connection_url
      then invalid_argument (text "connection URL cannot be empty")
      else if is_some (lookup cfg.ward_id s.managed_wards)
      then refused (text "ward_id '" ++ cfg.ward_id ++ text "' already registered")
      else admit cfg should_persist
          (if cfg.system_id == 0 then none else system_id_holder cfg.system_id s.managed_wards) s
