-- ===== src/ExecutionCache.antt =====
-- src/node_graph/execution_cache.rs: the outputs of the nodes, by output slot. The lock around it
-- is held for the whole of an operation; `SharedExecutionCache` is the state that is passed on.
use cognet.Prelude.{
  ℕ, ◌-◌, ◌≡◌, ◌≢◌, ◌↔◌, Bool, false, not, ◌||◌, Option, some, ◌==◌, arith, nat_eq,
}
use cognet.HashMap
use cognet.HashMap.{HashMap, get-retain_if, holds_at}
use cognet.Result.{is_ok}
use cognet.Slot.DataType.{TypeId, data_type_eq, mesh}
use cognet.Slot.Data.{Data, value_as}
use cognet.Edge.{OutputSlotId}

pub record ExecutionCache (F : Type 0) : Type 0 where
  pub outputs : HashMap OutputSlotId (Data F)

-- `data.get_type() != DataType::Mesh`
abbrev keeps : {F : Type 0} → OutputSlotId → Data F → Bool
keeps id d = not (d.data_type == mesh)

-- `T` is given by its type id
abbrev keeps_unless : {F : Type 0} → TypeId → OutputSlotId → Data F → Bool
keeps_unless t id d = not (d.data_type == mesh) || not (is_ok (value_as d t))

module _ {F : Type 0} where
  unfoldable pub get_output : ExecutionCache F → OutputSlotId → Option (Data F)
  get_output cache output_slot_id = HashMap.get cache.outputs output_slot_id

  -- the number of evicted outputs, and the cache that is left
  unfoldable pub evict_mesh_outputs : ExecutionCache F → ℕ × ExecutionCache F
  evict_mesh_outputs cache =
      let left = HashMap.retain_if keeps cache.outputs in
      (HashMap.len cache.outputs - HashMap.len left, record { outputs = left })

  unfoldable pub evict_mesh_outputs_of_type : TypeId → ExecutionCache F → ℕ × ExecutionCache F
  evict_mesh_outputs_of_type t cache =
      let left = HashMap.retain_if (keeps_unless t) cache.outputs in
      (HashMap.len cache.outputs - HashMap.len left, record { outputs = left })

  -- After `evict_mesh_outputs` a slot has the output that it had, where that is not a mesh, and
  -- none otherwise.
  pub get_output-evict_mesh_outputs :
      (cache : ExecutionCache F) (id : OutputSlotId) (d : Data F)
      → (get_output (evict_mesh_outputs cache).1 id ≡ some d)
        ↔ ((get_output cache id ≡ some d) × (d.data_type ≢ mesh))
  unfolding get_output evict_mesh_outputs
  get_output-evict_mesh_outputs cache id d = (
    λ h. (
      ground (arith, get-retain_if keeps cache.outputs id),
      λ m.
          ground
            (arith, get-retain_if keeps cache.outputs id, data_type_eq.beq_iff d.data_type mesh),
    ),
    λ h.
        ground
          (arith, get-retain_if keeps cache.outputs id, data_type_eq.beq_iff d.data_type mesh, h.1),
  )

  -- After `evict_mesh_outputs_of_type` a slot has the output that it had, where that is not a mesh
  -- or is not read at the given type, and none otherwise.
  pub get_output-evict_mesh_outputs_of_type :
      (t : TypeId) (cache : ExecutionCache F) (id : OutputSlotId) (d : Data F)
      → (get_output (evict_mesh_outputs_of_type t cache).1 id ≡ some d)
        ↔ ((get_output cache id ≡ some d) × (d.data_type ≡ mesh → is_ok (value_as d t) ≡ false))
  unfolding get_output evict_mesh_outputs_of_type
  get_output-evict_mesh_outputs_of_type t cache id d = (
    λ h. (
      ground (arith, get-retain_if (keeps_unless t) cache.outputs id),
      λ m. ground (
        arith,
        get-retain_if (keeps_unless t) cache.outputs id,
        data_type_eq.beq_iff d.data_type mesh,
      ),
    ),
    λ h. ground (
      arith,
      get-retain_if (keeps_unless t) cache.outputs id,
      data_type_eq.beq_iff d.data_type mesh,
      h.1,
    ),
  )
