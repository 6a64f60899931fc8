-- ===== src/NodeGraph.antt =====
-- src/node_graph/mod.rs: the graph, with the errors of its bookkeeping. Of the node manager it has
-- what `subgraph_proxy_ids_at_path` of src/node_graph/path_api.rs reads: the proxies of the
-- subgraph nodes, by path.
pub mod Connect
use cognet.Prelude.{
  ℕ, ◌≡◌, refl, Bool, true, false, not, ◌&&◌, Option, none, some, List, [], ◌∷◌, ◌++◌, ◌==◌, arith,
  nat_eq, if◌then◌else◌, inl, inr, Option-cases, Bool-cases, beq_refl, nat_beq_iff,
}
use cognet.HashMap
use cognet.HashMap.{HashMap, get-insert, get-remove, get-retain_if, get-empty}
use cognet.NodePath.{NodeId, NodePath, path_eq}
use cognet.NodePath
use cognet.ErrorKind.{ErrorTarget, error_target_eq}
use cognet.GraphError.{GraphError, is_execution_error}
use cognet.ExecutionCache.{ExecutionCache}
use cognet.NodeStates
use cognet.NodeStates.{NodeStates}

pub record NodeGraph (F : Type 0) : Type 0 where
  pub node_states : NodeStates F
  pub cache : ExecutionCache F
  pub subgraphs : HashMap NodePath (NodeId × NodeId)
  pub errors : HashMap ErrorTarget GraphError
  pub removed_since_last_execute : List NodeId

-- the error is about the node or one of its ports
abbrev pub is_about : NodeId → ErrorTarget → Bool
is_about node_id (ErrorTarget.node id) = id == node_id
is_about node_id (ErrorTarget.input_port id slot_index) = id == node_id
is_about node_id (ErrorTarget.output_port id slot_index) = id == node_id
is_about node_id _ = false

unfoldable pub new : {F : Type 0} → NodeGraph F
new = record {
  node_states = NodeStates.default;
  cache = record { outputs = HashMap.empty };
  subgraphs = HashMap.empty;
  errors = HashMap.empty;
  removed_since_last_execute = [];
}

-- the errors of a node: its own, and those of its ports
pub data About (node_id : NodeId) : ErrorTarget → Type 0 where
  of_node : About node_id (ErrorTarget.node node_id)
  of_input : (slot_index : ℕ) → About node_id (ErrorTarget.input_port node_id slot_index)
  of_output : (slot_index : ℕ) → About node_id (ErrorTarget.output_port node_id slot_index)

About-is_about :
    (node_id : NodeId) (target : ErrorTarget)
    → About node_id target
    → is_about node_id target ≡ true
About-is_about node_id _ of_node = beq_refl node_id
About-is_about node_id _ (of_input slot_index) = beq_refl node_id
About-is_about node_id _ (of_output slot_index) = beq_refl node_id

is_about-About :
    (node_id : NodeId) (target : ErrorTarget)
    → is_about node_id target ≡ true
    → About node_id target
is_about-About node_id (ErrorTarget.node id) h = rw ((nat_beq_iff id node_id).0 h) of_node
is_about-About node_id (ErrorTarget.input_port id slot_index) h =
    rw ((nat_beq_iff id node_id).0 h) (of_input slot_index)
is_about-About node_id (ErrorTarget.output_port id slot_index) h =
    rw ((nat_beq_iff id node_id).0 h) (of_output slot_index)
is_about-About node_id _ h = absurd (cc h)

module _ {F : Type 0} where
  unfoldable pub subgraph_proxy_ids_at_path : NodeGraph F → NodePath → Option (NodeId × NodeId)
  subgraph_proxy_ids_at_path g path = HashMap.get g.subgraphs path

  unfoldable pub error_for : NodeGraph F → ErrorTarget → Option GraphError
  error_for g target = HashMap.get g.errors target

  unfoldable pub has_errors : NodeGraph F → Bool
  has_errors g = not (NodePath.is_empty g.errors.entries)

  unfoldable pub add_error : NodeGraph F → GraphError → NodeGraph F
  add_error g error = record g { errors = HashMap.insert g.errors error.target error }

  unfoldable pub clear_error : NodeGraph F → ErrorTarget → NodeGraph F
  clear_error g target = record g { errors = HashMap.remove g.errors target }

  unfoldable pub clear_all_errors : NodeGraph F → NodeGraph F
  clear_all_errors g = record g { errors = HashMap.empty }

  unfoldable pub clear_execution_errors : NodeGraph F → NodeGraph F
  clear_execution_errors g = record g {
    errors = HashMap.retain_if (λ target e. not (is_execution_error e)) g.errors;
  }

  unfoldable pub clear_errors_for_node : NodeGraph F → NodeId → NodeGraph F
  clear_errors_for_node g node_id = record g {
    errors = HashMap.retain_if (λ target e. not (is_about node_id target)) g.errors;
  }

  unfoldable pub record_removal : NodeGraph F → NodeId → NodeGraph F
  record_removal g node_id = record g {
    removed_since_last_execute = g.removed_since_last_execute ++ node_id ∷ [];
  }

  -- After `clear_errors_for_node` there is no error of the node or of one of its input or output
  -- ports, and every other error is as it was.
  pub error_for-clear_errors_for_node :
      (g : NodeGraph F) (node_id : NodeId) (target : ErrorTarget)
      → (About node_id target → error_for (clear_errors_for_node g node_id) target ≡ none)
        × (¬ About node_id target
            → error_for (clear_errors_for_node g node_id) target ≡ error_for g target)
  unfolding error_for clear_errors_for_node
  error_for-clear_errors_for_node g node_id target =
      let retained = get-retain_if (λ t e. not (is_about node_id t)) g.errors target in
      (
        λ a. let h = About-is_about node_id target a in ground (arith, retained),
        λ other. elim (Bool-cases (is_about node_id target)) [
          | inl h ↦ absurd (other (is_about-About node_id target h))
          | inr h ↦ ground (arith, retained)
        ],
      )

  -- Every error stands under its own target.
  pub record HasOwnTargets (g : NodeGraph F) : Type 0 where
    pub at :
        (target : ErrorTarget) (e : GraphError) → error_for g target ≡ some e → e.target ≡ target

  pub add_error-HasOwnTargets :
      (g : NodeGraph F) (error : GraphError) → HasOwnTargets g → HasOwnTargets (add_error g error)
  unfolding add_error error_for
  add_error-HasOwnTargets g error w = record {
    at = λ t e h. ground (
      arith,
      get-insert g.errors error.target error t,
      error_target_eq.beq_iff error.target t,
      w.at t e,
    );
  }

  pub clear_error-HasOwnTargets :
      (g : NodeGraph F) (target : ErrorTarget)
      → HasOwnTargets g
      → HasOwnTargets (clear_error g target)
  unfolding clear_error error_for
  clear_error-HasOwnTargets g target w = record {
    at = λ t e h. ground (arith, get-remove g.errors target t, w.at t e);
  }
