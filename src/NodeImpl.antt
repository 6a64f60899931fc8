-- ===== src/NodeImpl.antt =====
-- src/node/mod.rs: the trait `NodeImpl`, as the executor calls it. What a node does is the node's:
-- the fields are its methods. A node writes through the `OutputWriter` of its context, so its run
-- is the list of its calls of `set` with what it returns; a future is run to its end.
use cognet.Prelude.{ℕ, Bool, true, false, Option, List, [], String}
use cognet.Result.{Result, err}
use cognet.Slot.Data.{Data}
use cognet.ExecutionContext.{ExecutionContext}

pub data NodeExecutionKind : Type 0 where
  sync_cpu async_io : NodeExecutionKind

pub data OutputCutoff : Type 0 where
  disabled enabled : OutputCutoff

-- how a run ends: it returns, or it panics with or without a text
pub data Outcome : Type 0 where
  returned : Result {0, 0} String Unit → Outcome
  panicked : Option String → Outcome

pub record Effects (F : Type 0) : Type 0 where
  pub writes : List (ℕ × Data F)
  pub outcome : Outcome

-- what a prepared future does, or the error of `prepare_async`, with no write
pub record Awaited (F : Type 0) : Type 0 where
  pub writes : List (ℕ × Data F)
  pub result : Result {0, 0} String Unit

pub record NodeImpl (F : Type 0) : Type 0 where
  pub execution_kind : NodeExecutionKind
  pub execute_sync : ExecutionContext F → Effects F
  pub output_cutoff : OutputCutoff
  pub outputs_equivalent : List (Option (Data F)) → List (Option (Data F)) → Bool
  pub prepare_async : ExecutionContext F → Awaited F

-- the methods that a node does not override; the two texts name the type of the node
unfoldable pub default_impl : {F : Type 0} → String → String → NodeImpl F
default_impl no_sync no_async = record {
  execution_kind = NodeExecutionKind.sync_cpu;
  execute_sync = λ ctx. record { writes = []; outcome = Outcome.returned (err no_sync) };
  output_cutoff = OutputCutoff.disabled;
  outputs_equivalent = λ previous current. false;
  prepare_async = λ ctx. record { writes = []; result = err no_async };
}

-- k == NodeExecutionKind::AsyncIo
unfoldable pub is_async_io : NodeExecutionKind → Bool
is_async_io NodeExecutionKind.sync_cpu = false
is_async_io NodeExecutionKind.async_io = true
