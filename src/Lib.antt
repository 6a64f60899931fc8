-- ===== src/Lib.antt =====
-- cognet, a typed node graph: nodes with input and output slots, edges between slots, nested
-- subgraphs, and an executor that runs the nodes level by level.
--
-- The parts of the program and the files that model them:
-- - src/node_graph/node_path.rs: NodePath.antt. `NodePath::{root, child, parent, leaf, is_root}`
--   keep their names; `Display` is NodePath/Display.antt. A `NodeId` is a ULID, which the code
--   only compares: a number, below 2 ^ 128 where its text matters.
-- - src/node_graph/path_index.rs: PathIndex.antt, the children of each path.
-- - src/edge/mod.rs: Edge.antt.
-- - src/edge/slot.rs: Slot/DataType.antt (`ListElem`, `DataType` and `TypeId`) and
--   Slot/Data.antt (`Data` and its constructors and reads). `f64` is the parameter `F`, and
--   `Arc<dyn Any>` a sum over the Rust types that the file names, with one constructor for the
--   types of applications. Slot/Fields.antt has the fields of composite values, with the two
--   `extract_fields_*` of src/node_graph/node_graph_api.rs.
-- - src/node_graph/node_state.rs: NodeStates.antt (the state, reads, change marks),
--   NodeStates/Slots.antt, NodeStates/Edges.antt and NodeStates/Nodes.antt (the operations).
--   The state is a record with the fields of `NodeStates`; an operation takes the state and
--   returns the new one, with the result where the source returns one. Fresh ids
--   (`InputSlotId::new()`) are arguments. NodeStates/Setters.antt has the
--   setters of one slot. NodeStates/Consistent.antt states the invariant, with a module for each
--   group of operations, and NodeStates/Run.antt puts the operations together as a step relation,
--   each call under the condition of its step. NodeStates/Effects.antt has what insertions and
--   removals leave behind.
--   NodeStates/Lockstep.antt is about slots and their owners, NodeStates/Index.antt about the four
--   edge indexes.
-- - src/node_graph/node_graph_system.rs: TopologicalSort.antt, the levels of the executor. Its
--   fuel is one more than the number of the targets: a round of the loop takes at least one target
--   from the queue, and a target joins the queue when its last source has left it. The modules
--   below it follow the loop: TopologicalSort/Counting.antt (the degrees at the start),
--   TopologicalSort/Rounds.antt (one level), TopologicalSort/Order.antt (the levels),
--   TopologicalSort/Cycle.antt and TopologicalSort/Correct.antt (the result), and
--   TopologicalSort/Checked.antt, where the subtraction of the source panics on zero.
-- - src/node_graph/node_graph_api.rs: Executor.antt (plans, results, the choice of the mode),
--   Executor/Closure.antt and Executor/Plan.antt (`build_execution_plan`, the checks and the change
--   marks), Executor/Interface.antt, Executor/Resolve.antt and Executor/Frontier.antt (the walks
--   through interface nodes: `resolve_value_through_interface` and `ChangeFrontier`),
--   Executor/Context.antt, Executor/Execute.antt, Executor/Collect.antt and Executor/Sync.antt (the
--   passes of `execute_sync_inner`), and Executor/Async.antt (`execute_async_inner`: the futures of
--   a level are awaited one after the other). The fuel of the search is one more than the changed
--   nodes and the edges: a round takes a path off the queue, and an edge puts one there once. The fuel of a
--   walk is one more than the input slots: it goes by a port once.
--   A node of a level runs after the one before it; Executor/Execute/Order.antt and
--   Executor/Execute/SameLevel.antt are about other orders, as on the worker pool.
-- - src/node/mod.rs: NodeImpl.antt, the trait of the nodes. What a node does is a parameter: a run
--   is the list of its writes through the `OutputWriter` and how it ends, a caught panic included.
-- - src/error.rs: ErrorKind.antt and GraphError.antt. src/node_graph/mod.rs: NodeGraph.antt, the
--   graph and its errors. NodeGraph/Connect.antt is the rest of node_graph_system.rs,
--   `create_edge_at`, `add_edge_with_id` and `connect_nodes_at_with_id`; an operation gives the
--   graph that it leaves and its result. The subgraph nodes of the node manager are a map from a
--   path to the ids of its proxies. Error texts are constructors.
-- - src/node_graph/path_api.rs: PathApi.antt, node data and default values at a path. An update and
--   its `clear` companion are the same body with a value or with none. PathApi/Fields.antt replaces
--   one field of a composite value. PathApi/Ends.antt has the external ports
--   of a subgraph and `edge_external_{target, source}`.
-- - src/node_graph/execution_cache.rs: ExecutionCache.antt, and src/node/execution_context.rs:
--   ExecutionContext.antt. The cache that the writer shares is passed on as an argument and a
--   result.
-- - src/node/operators: Operators.antt, with Operators/Broadcast.antt (broadcast.rs and the four
--   binary operators, with their meaning in Operators/Broadcast/Meaning.antt) and
--   Operators/ListFold.antt (the four operators on lists). The arithmetic of `f64` is the
--   parameter `FloatOps`.
-- Shared: Prelude.antt (tests, equality, lists), Result.antt, HashMap.antt, HashSet.antt and
-- ListMap.antt (maps as association lists with their laws; a map of lists is read with the empty
-- list for a missing key, as `get(..).unwrap_or(&[])` does). Examples.antt holds the tests.
--
-- Generation counters wrap at 2 ^ 64. Slot indexes are `usize` and stay below the length of a
-- list in memory, so they are natural numbers.
--
-- Not modelled: the interleaving of the futures of a level, the traits of the executor for reading
-- and writing graphs, the rest of the path and subgraph layers, the node manager and the
-- other node types of src/node, which are further parts of the program;
-- serialization with serde, and wasm/src and examples, which wrap the library. Locks
-- (`Arc<RwLock<_>>`) are left out: an operation holds the lock for its whole body.
pub mod Prelude
pub mod Result
pub mod HashMap
pub mod HashSet
pub mod ListMap
pub mod Edge
pub mod ErrorKind
pub mod Examples
pub mod ExecutionCache
pub mod ExecutionContext
pub mod Executor
pub mod GraphError
pub mod NodeGraph
pub mod NodeImpl
pub mod NodePath
pub mod NodeStates
pub mod Operators
pub mod PathApi
pub mod PathIndex
pub mod Slot
pub mod TopologicalSort
