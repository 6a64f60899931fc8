-- ===== src/Executor/Interface.antt =====
-- What `resolve_value_through_interface` and `ChangeFrontier::source_changed` share: they walk back
-- through the interface nodes of subgraphs, and remember the ports that they have come by.
pub mod Walks
pub mod Fuel
use cognet.Prelude.{
  ℕ, zero, suc, ◌+◌, ◌≡◌, ◌↔◌, Bool, true, false, ◌&&◌, Option, none, some, List, [], ◌∷◌, String,
  Eq, ◌==◌, arith, nat_eq, if◌then◌else◌, length, string_eq, nat_beq_iff,
}
use cognet.HashMap
use cognet.HashSet.{HashSet}
use cognet.ListMap.{get_list}
use cognet.NodePath.{NodePath, path_eq}
use cognet.Edge.{Edge, EdgeId}
use cognet.NodeStates.{NodeStates, node, get_edge}

-- a node with the index of one of its slots
abbrev pub Port : Type 0
Port = NodePath × ℕ

abbrev pub port_beq : Port → Port → Bool
port_beq (p, i) (q, j) = (p == q) && (i == j)

pub port_beq_iff : (a b : Port) → (port_beq a b ≡ true) ↔ (a ≡ b)
port_beq_iff (p, i) (q, j) = (
  λ h. ground (arith, path_eq.beq_iff p q, nat_beq_iff i j),
  λ h. ground (arith, path_eq.beq_iff p q, nat_beq_iff i j),
)

instance abbrev pub port_eq : Eq Port
port_eq = record { beq = port_beq; beq_iff = port_beq_iff }

abbrev pub Visited : Type 0
Visited = HashSet Port

-- `InterfaceNode::NAME`
abbrev pub interface_name : String
interface_name = "InterfaceNode"

module _ {F : Type 0} where
  unfoldable pub is_interface : NodeStates F → NodePath → Bool
  unfolding node
  is_interface s path = elim (node s path) [
    | none ↦ false
    | some state ↦ state.type_name == interface_name
  ]

  -- The edges of the ids in turn, an id with none behind it too, up to the first answer that stops
  -- the loop; `last` is the answer where none does.
  abbrev pub walk_edges :
      {A : Type 0}
      → NodeStates F
      → (Option Edge → Visited → A × Visited)
      → (A → Bool)
      → A
      → List EdgeId
      → Visited
      → A × Visited
  walk_edges s step stops last [] visited = (last, visited)
  walk_edges s step stops last (id ∷ ids) visited =
      let (a, visited') = step (get_edge s id) visited in
      let rest = walk_edges s step stops last ids visited' in
      if stops a then (a, visited') else rest

  -- the number of the input slots of the paths
  abbrev pub slots_at : NodeStates F → List NodePath → ℕ
  slots_at s [] = 0
  slots_at s (path ∷ paths) = length (get_list s.input_slots path) + slots_at s paths

  -- one more than the input slots there are: no walk goes by a port twice
  unfoldable pub walk_fuel : NodeStates F → ℕ
  walk_fuel s = suc (slots_at s (HashMap.keys_where (λ path slots. true) s.input_slots))
