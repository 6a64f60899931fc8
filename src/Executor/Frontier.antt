-- ===== src/Executor/Frontier.antt =====
-- `ChangeFrontier`: which planned nodes run. Out of fuel a source counts as changed.
pub mod Origins
pub mod Laws
pub mod Edits
pub mod Skipped
use cognet.Prelude.{
  ℕ, zero, suc, ◌||◌, Option, none, some, Bool, true, false, List, [], ◌∷◌, if◌then◌else◌, nat_eq,
}
use cognet.HashSet
use cognet.HashSet.{HashSet}
use cognet.NodePath.{NodePath, path_eq, is_empty}
use cognet.Edge.{Edge, EdgeId}
use cognet.NodeStates.{NodeStates, input_slot, edges_for_input, incoming_edges_at, get_edge}
use cognet.Executor.Interface.{Visited, port_eq, is_interface, walk_edges, walk_fuel}

pub record ChangeFrontier : Type 0 where
  pub seed : HashSet NodePath
  pub changed : HashSet NodePath

-- `ChangeFrontier::new`
unfoldable pub new : HashSet NodePath → ChangeFrontier
new seed_nodes = record { seed = seed_nodes; changed = HashSet.empty }

unfoldable pub mark_changed : ChangeFrontier → NodePath → ChangeFrontier
mark_changed f path = record f { changed = HashSet.insert f.changed path }

-- an answer of `any` that ends it
abbrev pub is_true : Bool → Bool
is_true b = b

module _ {F : Type 0} where
  unfoldable pub source_changed :
      ℕ → ChangeFrontier → NodeStates F → NodePath → ℕ → Visited → Bool × Visited
  source_changed zero f s from_node index visited = (true, visited)
  source_changed (suc fuel) f s from_node index visited =
      if is_interface s from_node
      then if HashSet.contains visited (from_node, index)
        then (true, visited)
        else (let visited' = HashSet.insert visited (from_node, index) in
            if HashSet.contains f.seed from_node
            then (true, visited')
            else elim (input_slot s from_node index) [
              | none ↦ (true, visited')
              | some slot ↦
                  if is_empty (edges_for_input s slot.id)
                  then (false, visited')
                  else walk_edges s
                      (λ edge seen. elim edge [
                        | none ↦ (true, seen)
                        | some e ↦ source_changed fuel f s e.from_node e.from_output_slot_index seen
                      ])
                      is_true false (edges_for_input s slot.id) visited'
            ])
      else (HashSet.contains f.changed from_node, visited)

  -- incoming.iter().any(..)
  unfoldable pub any_source_changed : ChangeFrontier → NodeStates F → List EdgeId → Bool
  unfolding source_changed walk_fuel
  any_source_changed f s [] = false
  any_source_changed f s (edge_id ∷ edge_ids) =
      let rest = any_source_changed f s edge_ids in
      elim (get_edge s edge_id) [
        | none ↦ true
        | some e ↦
            (source_changed (walk_fuel s) f s e.from_node e.from_output_slot_index HashSet.empty).0
            || rest
      ]

  unfoldable pub must_execute : ChangeFrontier → NodeStates F → NodePath → Bool
  unfolding any_source_changed
  must_execute f s path =
      if HashSet.contains f.seed path
      then true
      else if is_empty (incoming_edges_at s path)
      then true
      else any_source_changed f s (incoming_edges_at s path)
