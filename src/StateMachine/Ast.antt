-- ===== src/StateMachine/Ast.antt =====
-- What src/statemachine.cpp sees of the parser library, which is not part of the repository: the
-- nodes that a property may hold, and the queries on declarations.
use stridejit.Prelude.{Bool, List, Option, String, [], none, some, ℤ}

-- A child of a list node.
pub data Item (D : Type 0) : Type 0 where
  entity_item : String → Item D
  declaration_item : D → Item D
  other_item : Item D

-- An `ASTNode` by its `getNodeType()`. The bounds of a range are there where they are `AST::Int`.
pub data Node (D : Type 0) : Type 0 where
  entity : String → Node D
  switch : Bool → Node D
  int : ℤ → Node D
  text : String → Node D
  list : List (Item D) → Node D
  generator_range : Option ℤ → Option ℤ → Option ℤ → Node D
  range : Option ℤ → Option ℤ → Node D
  none_node : Node D
  other_node : Node D

-- Declarations, and the queries in one scope and one tree.
pub record Parser : Type 1 where
  pub Decl : Type 0
  pub get_name : Decl → String
  pub get_entity_type : Decl → String
  pub get_property_value : Decl → String → Option (Node Decl)
  pub get_compiler_property : Decl → String → Option (Node Decl)
  pub find_declaration : String → Option Decl
  pub is_state_node : Decl → Bool

-- `prop && prop->getNodeType() == AST::Switch` with its value, or what stood before.
abbrev pub switch_or : {D : Type 0} → Bool → Option (Node D) → Bool
switch_or b (some (switch v)) = v
switch_or b _ = b

-- `prop && prop->getNodeType() == AST::Entity` with its name.
abbrev pub entity_name : {D : Type 0} → Option (Node D) → Option String
entity_name (some (entity n)) = some n
entity_name _ = none

-- `prop && prop->getNodeType() == AST::List` with its children.
abbrev pub list_children : {D : Type 0} → Option (Node D) → List (Item D)
list_children (some (list items)) = items
list_children _ = []
