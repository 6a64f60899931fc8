-- ===== src/ExecutionContext.antt =====
-- src/node/execution_context.rs: what a node is given, and the writer of its outputs. The cache
-- that the writer shares is passed on explicitly. Error texts are values of `ExecutionError`.
use cognet.Prelude.{
  ℕ, ◌≡◌, Option, none, some, List, String, ◌==◌, arith, nat_eq, if◌then◌else◌, get_elem?, inl, inr,
  Option-cases,
}
use cognet.HashMap
use cognet.HashMap.{get-insert}
use cognet.Result.{Result, ok, err}
use cognet.Slot.DataType.{DataType, data_type_eq}
use cognet.Slot.Data.{Data, DataError, DataResult}
use cognet.NodePath.{NodePath}
use cognet.Edge.{OutputSlotId}
use cognet.ExecutionCache.{ExecutionCache, get_output}

pub data ExecutionError : Type 0 where
  slot_out_of_range : ℕ → ExecutionError
  slot_type_mismatch : ℕ → DataType → DataType → ExecutionError
  data_error : DataError → ExecutionError
  -- the node, the label of the operand, its length and the expected one
  unequal_lengths : String → String → ℕ → ℕ → ExecutionError

pub record OutputWriter : Type 0 where
  pub slots : List (OutputSlotId × DataType)

pub record ExecutionContext (F : Type 0) : Type 0 where
  pub path : NodePath
  pub node_data : Option (Data F)
  pub input_values : List (List (Data F))
  pub output_writer : OutputWriter

-- the `?` on an error of `Data`
unfoldable pub lift_data : {A : Type 0} → DataResult A → Result ExecutionError A
lift_data (ok a) = ok a
lift_data (err e) = err (data_error e)

module _ {F : Type 0} where
  unfoldable pub set_at :
      ℕ
      → Data F
      → ExecutionCache F
      → Option (OutputSlotId × DataType)
      → Result ExecutionError (ExecutionCache F)
  set_at slot_index d cache none = err (slot_out_of_range slot_index)
  set_at slot_index d cache (some (slot_id, expected_type)) =
      if expected_type == d.data_type
      then ok (record { outputs = HashMap.insert cache.outputs slot_id d })
      else err (slot_type_mismatch slot_index expected_type d.data_type)

  unfoldable pub set :
      OutputWriter → ℕ → Data F → ExecutionCache F → Result ExecutionError (ExecutionCache F)
  unfolding set_at
  set writer slot_index d cache = set_at slot_index d cache (get_elem? writer.slots slot_index)

  -- Where `set` succeeds, the index has a slot of the type of the data, that slot's output is the
  -- data, and every other output is as it was.
  pub set_writes :
      (w : OutputWriter) (i : ℕ) (d : Data F) (cache after : ExecutionCache F)
      → set w i d cache ≡ ok after
      → (id : OutputSlotId) × (get_elem? w.slots i ≡ some (id, d.data_type))
        × ((j : OutputSlotId)
            → get_output after j ≡ (if id == j then some d else get_output cache j))
  unfolding set get_output
  set_writes w i d cache after h = elim (Option-cases (get_elem? w.slots i)) [
    | inl e ↦ absurd (cc (rw e at h))
    | inr ((id, t), e) ↦ (
      id,
      ground (arith, data_type_eq.beq_iff t d.data_type),
      λ j. ground (arith, data_type_eq.beq_iff t d.data_type, get-insert cache.outputs id d j),
    )
  ]

  -- `set` succeeds at every slot of the type of the data.
  pub set_accepts :
      (w : OutputWriter) (i : ℕ) (id : OutputSlotId) (d : Data F) (cache : ExecutionCache F)
      → get_elem? w.slots i ≡ some (id, d.data_type)
      → set w i d cache ≡ ok (record { outputs = HashMap.insert cache.outputs id d })
  unfolding set
  set_accepts w i id d cache e = rw e (ground (arith, data_type_eq.beq_iff d.data_type d.data_type))
