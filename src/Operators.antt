-- ===== src/Operators.antt =====
-- src/node/operators: arithmetic on `f64`, whose operations are the parameter `FloatOps`. A node's
-- `execute_sync` takes the context and the cache, and gives the cache that it leaves.
pub mod Broadcast
pub mod ListFold
use cognet.Prelude.{Bool, if◌then◌else◌, List}
use cognet.Result.{Result}
use cognet.Slot.Data.{Data}
use cognet.ExecutionCache.{ExecutionCache}
use cognet.ExecutionContext.{ExecutionContext, ExecutionError}

-- The constants and operations of `f64` that the operators use.
pub record FloatOps (F : Type 0) : Type 0 where
  pub zero : F
  pub one : F
  pub add : F → F → F
  pub subtract : F → F → F
  pub multiply : F → F → F
  pub divide : F → F → F
  pub equals : F → F → Bool

-- |a, b| if b == 0.0 { 0.0 } else { a / b }
unfoldable pub safe_divide : {F : Type 0} → FloatOps F → F → F → F
safe_divide f a b = if f.equals b f.zero then f.zero else f.divide a b

-- the operation of `execute_sync`: the context, the cache before and after
abbrev pub Execute : Type 0 → Type 0
Execute F = ExecutionContext F → ExecutionCache F → Result ExecutionError (ExecutionCache F)
