-- ===== src/WardManager/TestYaml.antt =====
-- A small tree with the interface of yaml-cpp, which reads back what it wrote.
use karshipta.WardManager.Roster.Configs.{is_named}
use karshipta.Common.{
  true, get_elem?, arith, false, if◌then◌else◌, ap, ℕ, List, ◌≡◌, Option, Text, lookup, text_eq, [],
  ◌∷◌, none, some, refl, is_empty,
}
use karshipta.Messages.{
  class_unrecognized, WardClass, class_unspecified, class_multirotor, class_fixed_wing, class_vtol,
  class_helicopter, class_ground, class_underwater, class_surface_vessel, class_livestock_tag,
  class_generic_tracker,
}
use karshipta.WardManager.Roster.{Yaml}

mutual
  pub data Tree : Type 0 where
    text_leaf : Text → Tree
    number_leaf : ℕ → Tree
    map_tree : Fields → Tree
    sequence_tree : Items → Tree

  pub data Fields : Type 0 where
    no_fields : Fields
    field : Text → Tree → Fields → Fields

  pub data Items : Type 0 where
    no_items : Items
    item : Tree → Items → Items

abbrev pub fields : List (Text × Tree) → Fields
fields [] = no_fields
fields ((key, value) ∷ rest) = field key value (fields rest)

abbrev pub items : List Tree → Items
items [] = no_items
items (tree ∷ rest) = item tree (items rest)

abbrev pub item_list : Items → List Tree
item_list no_items = []
item_list (item tree rest) = tree ∷ item_list rest

abbrev pub find_field : Text → Fields → Option Tree
find_field key no_fields = none
find_field key (field first value rest) =
    if text_eq first key then some value else find_field key rest

abbrev pub child_of : Text → Tree → Option Tree
child_of key (map_tree entries) = find_field key entries
child_of key (text_leaf s) = none
child_of key (number_leaf n) = none
child_of key (sequence_tree trees) = none

abbrev pub text_of : Tree → Option Text
text_of (text_leaf s) = some s
text_of (map_tree entries) = none
text_of (number_leaf n) = none
text_of (sequence_tree trees) = none

abbrev pub number_of : Tree → Option ℕ
number_of (number_leaf n) = some n
number_of (text_leaf s) = none
number_of (map_tree entries) = none
number_of (sequence_tree trees) = none

abbrev pub elements_of : Tree → Option (List Tree)
elements_of (sequence_tree trees) = some (item_list trees)
elements_of (number_leaf n) = none
elements_of (text_leaf s) = none
elements_of (map_tree entries) = none

abbrev pub trees : Yaml Tree Tree
trees = record {
  text_node = text_leaf;
  unsigned_node = number_leaf;
  map_node = λ entries. map_tree (fields entries);
  sequence_node = λ nodes. sequence_tree (items nodes);
  child = child_of;
  as_text = text_of;
  as_unsigned = number_of;
  elements = elements_of;
  emit = λ tree. tree;
  parse = λ tree. some tree;
}

pub find_field-fields :
    (key : Text) (entries : List (Text × Tree))
    → find_field key (fields entries) ≡ lookup key entries
unfolding lookup
find_field-fields key [] = refl
find_field-fields key ((first, value) ∷ rest) =
    let later = find_field-fields key rest in ground arith

pub item_list-items : (nodes : List Tree) → item_list (items nodes) ≡ nodes
item_list-items [] = refl
item_list-items (tree ∷ rest) = ap (λ later. tree ∷ later) (item_list-items rest)

abbrev pub class_code : WardClass → ℕ
class_code class_unspecified = 0
class_code class_multirotor = 1
class_code class_fixed_wing = 2
class_code class_vtol = 3
class_code class_helicopter = 4
class_code class_ground = 5
class_code class_underwater = 6
class_code class_surface_vessel = 7
class_code class_livestock_tag = 8
class_code class_generic_tracker = 9
class_code (class_unrecognized number) = number

abbrev classes : List WardClass
classes =
    class_unspecified ∷ class_multirotor ∷ class_fixed_wing ∷ class_vtol ∷ class_helicopter
    ∷ class_ground ∷ class_underwater ∷ class_surface_vessel ∷ class_livestock_tag
    ∷ class_generic_tracker ∷ []

abbrev pub class_of_text : Text → Option WardClass
class_of_text [] = none
class_of_text (n ∷ rest) = get_elem? classes n

-- No name where there is none.
abbrev pub class_text : WardClass → Text
class_text c = if is_named c then class_code c ∷ [] else []

pub class_read_back :
    (c : WardClass)
    → is_named c ≡ true
    → (is_empty (class_text c) ≡ false) × (class_of_text (class_text c) ≡ some c)
unfolding is_empty
class_read_back class_unspecified named = (refl, refl)
class_read_back class_multirotor named = (refl, refl)
class_read_back class_fixed_wing named = (refl, refl)
class_read_back class_vtol named = (refl, refl)
class_read_back class_helicopter named = (refl, refl)
class_read_back class_ground named = (refl, refl)
class_read_back class_underwater named = (refl, refl)
class_read_back class_surface_vessel named = (refl, refl)
class_read_back class_livestock_tag named = (refl, refl)
class_read_back class_generic_tracker named = (refl, refl)
class_read_back (class_unrecognized number) named = cc
