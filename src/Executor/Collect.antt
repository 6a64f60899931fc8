-- ===== src/Executor/Collect.antt =====
-- `collect_outputs`: the result of a pass, from the nodes that ran.
pub mod Inputs
pub mod Shown
use cognet.Prelude.{
  ℕ, zero, suc, true, Option, none, some, List, [], ◌∷◌, length, leb, if◌then◌else◌, nat_eq,
}
use Prim.Native.String.{◌++◌ as concat}
use cognet.HashMap
use cognet.HashMap.{HashMap}
use cognet.ListMap.{get_list}
use cognet.NodePath.{NodePath, root, child, leaf, path_eq, is_empty}
use cognet.Edge.{Edge, EdgeId}
use cognet.Slot.Data.{Data}
use cognet.ErrorKind.{ErrorKind, ErrorTarget, error_target_eq}
use cognet.GraphError.{GraphError}
use cognet.ExecutionCache.{ExecutionCache}
use cognet.NodeStates.{NodeStates, get_edge, incoming_edges_at, outgoing_edges_at, input_slot_count}
use cognet.NodeGraph.{NodeGraph}
use cognet.Executor.{ExecutionPlan, ExecutionResult, EdgeValue, NodeError}
use cognet.Executor.Resolve.{resolve_value_through_interface}
use cognet.Executor.Context.{snapshot_outputs}

-- vec![None; n]
abbrev pub nones {ℓ} : {A : Type ℓ} → ℕ → List (Option A)
nones zero = []
nones (suc n) = none ∷ nones n

-- v[i] = Some(a), past the end nothing
abbrev pub store_some {ℓ} : {A : Type ℓ} → List (Option A) → ℕ → A → List (Option A)
store_some [] i a = []
store_some (o ∷ os) zero a = some a ∷ os
store_some (o ∷ os) (suc i) a = o ∷ store_some os i a

-- the message of an error of the execution: `message()` of the kind `Execution`
unfoldable pub node_error_of : GraphError → Option NodeError
node_error_of e = elim e.kind [
  | ErrorKind.execution text ↦ some (record { message = concat "Execution error: " text })
  | _ ↦ none
]

module _ {F : Type 0} where
  unfoldable pub value_of_edge : NodeStates F → ExecutionCache F → Edge → Option (Data F)
  unfolding resolve_value_through_interface
  value_of_edge s cache edge =
      resolve_value_through_interface s cache edge.from_node edge.from_output_slot_index
        edge.from_output_slot_id

  -- one edge into a node with no outputs
  unfoldable pub put_input :
      NodeStates F → ExecutionCache F → List (Option (Data F)) → Edge → List (Option (Data F))
  unfolding value_of_edge
  put_input s cache slot_inputs edge =
      if leb (length slot_inputs) edge.to_input_slot_index
      then slot_inputs
      else elim (value_of_edge s cache edge) [
        | none ↦ slot_inputs
        | some d ↦ store_some slot_inputs edge.to_input_slot_index d
      ]

  unfoldable pub sink_inputs :
      NodeStates F
      → ExecutionCache F
      → List (Option (Data F))
      → List EdgeId
      → List (Option (Data F))
  unfolding put_input
  sink_inputs s cache slot_inputs [] = slot_inputs
  sink_inputs s cache slot_inputs (edge_id ∷ edge_ids) = elim (get_edge s edge_id) [
    | none ↦ sink_inputs s cache slot_inputs edge_ids
    | some edge ↦ sink_inputs s cache (put_input s cache slot_inputs edge) edge_ids
  ]

  -- a node with no outputs is shown by its inputs
  unfoldable pub shown_values : NodeStates F → ExecutionCache F → NodePath → List (Option (Data F))
  unfolding sink_inputs snapshot_outputs
  shown_values s cache path =
      if is_empty (get_list s.output_slots path)
      then sink_inputs s cache (nones (input_slot_count s path)) (incoming_edges_at s path)
      else snapshot_outputs path cache s

  unfoldable pub collect_node_outputs :
      NodeStates F
      → ExecutionCache F
      → HashMap NodePath (List (Option (Data F)))
      → List NodePath
      → HashMap NodePath (List (Option (Data F)))
  unfolding shown_values
  collect_node_outputs s cache m [] = m
  collect_node_outputs s cache m (path ∷ paths) =
      collect_node_outputs s cache (HashMap.insert m path (shown_values s cache path)) paths

  -- an edge with an end at the root, which has no id, is passed over
  unfoldable pub edge_value : NodeStates F → ExecutionCache F → Edge → Option (EdgeValue F)
  unfolding value_of_edge
  edge_value s cache edge = elim (leaf edge.from_node) [
    | none ↦ none
    | some from_id ↦ elim (leaf edge.to_node) [
      | none ↦ none
      | some to_id ↦ some (record {
        from_node = from_id;
        from_slot = edge.from_output_slot_index;
        to_node = to_id;
        to_slot = edge.to_input_slot_index;
        data_value = value_of_edge s cache edge;
      })
    ]
  ]

  -- an id with no edge behind it is passed over
  unfoldable pub edge_value_at : NodeStates F → ExecutionCache F → EdgeId → Option (EdgeValue F)
  unfolding edge_value
  edge_value_at s cache edge_id = elim (get_edge s edge_id) [
    | none ↦ none
    | some edge ↦ edge_value s cache edge
  ]

  unfoldable pub put_edge_values :
      NodeStates F
      → ExecutionCache F
      → HashMap EdgeId (EdgeValue F)
      → List EdgeId
      → HashMap EdgeId (EdgeValue F)
  unfolding edge_value_at
  put_edge_values s cache m [] = m
  put_edge_values s cache m (edge_id ∷ edge_ids) = elim (edge_value_at s cache edge_id) [
    | none ↦ put_edge_values s cache m edge_ids
    | some value ↦ put_edge_values s cache (HashMap.insert m edge_id value) edge_ids
  ]

  unfoldable pub collect_edge_values :
      NodeStates F
      → ExecutionCache F
      → HashMap EdgeId (EdgeValue F)
      → List NodePath
      → HashMap EdgeId (EdgeValue F)
  unfolding put_edge_values
  collect_edge_values s cache m [] = m
  collect_edge_values s cache m (path ∷ paths) =
      collect_edge_values s cache (put_edge_values s cache m (outgoing_edges_at s path)) paths

-- an error of a node counts, an error of a port or of the graph does not
unfoldable pub put_error :
    HashMap NodePath NodeError → ErrorTarget → Option GraphError → HashMap NodePath NodeError
unfolding node_error_of
put_error m (ErrorTarget.node id) (some e) = elim (node_error_of e) [
  | none ↦ m
  | some error ↦ HashMap.insert m (child root id) error
]
put_error m _ _ = m

unfoldable pub collect_errors :
    HashMap ErrorTarget GraphError
    → HashMap NodePath NodeError
    → List ErrorTarget
    → HashMap NodePath NodeError
unfolding put_error
collect_errors errors m [] = m
collect_errors errors m (target ∷ targets) =
    collect_errors errors (put_error m target (HashMap.get errors target)) targets

unfoldable pub collect_outputs :
    {F : Type 0} → NodeGraph F → ExecutionPlan → List NodePath → ExecutionResult F
unfolding collect_node_outputs collect_edge_values collect_errors
collect_outputs g plan executed_node_paths =
    let targets = HashMap.keys_where (λ target e. true) g.errors in
    record {
      node_outputs = collect_node_outputs g.node_states g.cache HashMap.empty executed_node_paths;
      edge_values = collect_edge_values g.node_states g.cache HashMap.empty executed_node_paths;
      errors = collect_errors g.errors HashMap.empty targets;
      removed_nodes = plan.removed_nodes;
    }
