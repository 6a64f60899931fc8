-- ===== src/PathApi/Fields.antt =====
-- src/node_graph/path_api.rs: one field of the node data or of a default value is replaced, where
-- `zero` is the number 0.0.
use cognet.Prelude.{
  ℕ, ◌≡◌, refl, Option, none, some, List, [], ◌∷◌, ◌==◌, String, string_eq, if◌then◌else◌, inl, inr,
  ap, ◌∙◌,
}
use cognet.Result.{Result, ok, err, Result-cases}
use cognet.NodePath.{NodePath}
use cognet.Slot.DataType.{DataType, data_type_of, type_id, is_opaque}
use cognet.Slot.Data.{Data, Vector3, interval, vector3, new, value_as, inner_type_id}
use cognet.Slot.Fields.{assemble, extract_fields_from_data, extract_fields_from_default_value}
use cognet.NodeStates.{NodeState, InputSlotState, node, input_slot}
use cognet.NodeGraph.{NodeGraph}
use cognet.PathApi.{PathError, Answer, update_node_data_at, update_input_slot_default_data_at}

pub data FieldError : Type 0 where
  not_composite : FieldError
  at_path : PathError → FieldError

abbrev pub FieldAnswer : Type 0 → Type 0
FieldAnswer F = NodeGraph F × Result {0, 0} FieldError Unit

module _ {F : Type 0} where
  -- iter().find(..).map(..).unwrap_or(0.0)
  unfoldable pub current_value : F → List (String × F) → String → F
  current_value zero [] f = zero
  current_value zero ((name, v) ∷ fields) f =
      let rest = current_value zero fields f in if name == f then v else rest

  unfoldable pub with_field : F → List (String × F) → String → F → String → F
  unfolding current_value
  with_field zero current_fields field_name value f =
      if f == field_name then value else current_value zero current_fields f

  abbrev pub answer : Answer F → FieldAnswer F
  answer (g, ok done) = (g, ok done)
  answer (g, err e) = (g, err (FieldError.at_path e))

  store_data : NodeGraph F → NodePath → Option (Data F) → FieldAnswer F
  unfolding update_node_data_at
  store_data g path none = (g, err FieldError.not_composite)
  store_data g path (some d) = answer (update_node_data_at g path d)

  store_default : NodeGraph F → NodePath → ℕ → Option (Data F) → FieldAnswer F
  unfolding update_input_slot_default_data_at
  store_default g path slot_index none = (g, err FieldError.not_composite)
  store_default g path slot_index (some d) =
      answer (update_input_slot_default_data_at g path slot_index d)

  update_field_of :
      F → NodeGraph F → NodePath → DataType → String → F → Option (NodeState F) → FieldAnswer F
  unfolding with_field store_data assemble extract_fields_from_data
  update_field_of zero g path data_type field_name value none =
      (g, err (FieldError.at_path PathError.node_not_found))
  update_field_of zero g path data_type field_name value (some state) =
      let current_fields = extract_fields_from_data zero data_type state.node_data in
      store_data g path (assemble data_type (with_field zero current_fields field_name value))

  unfoldable pub update_node_data_field_at :
      F → NodeGraph F → NodePath → DataType → String → F → FieldAnswer F
  unfolding update_field_of node
  update_node_data_field_at zero g path data_type field_name value =
      update_field_of zero g path data_type field_name value (node g.node_states path)

  update_default_field_of :
      F → NodeGraph F → NodePath → ℕ → String → F → Option (InputSlotState F) → FieldAnswer F
  unfolding with_field store_default assemble extract_fields_from_default_value
  update_default_field_of zero g path slot_index field_name value none =
      (g, err (FieldError.at_path PathError.slot_not_found))
  update_default_field_of zero g path slot_index field_name value (some slot) =
      let current_fields =
        extract_fields_from_default_value zero slot.data_type slot.default_value in
      store_default g path slot_index
        (assemble slot.data_type (with_field zero current_fields field_name value))

  unfoldable pub update_input_slot_default_field_at :
      F → NodeGraph F → NodePath → ℕ → String → F → FieldAnswer F
  unfolding update_default_field_of input_slot
  update_input_slot_default_field_at zero g path slot_index field_name value =
      update_default_field_of zero g path slot_index field_name value
        (input_slot g.node_states path slot_index)

  -- A new `x` of a node that holds a vector leaves its `y` and `z`.
  pub update_node_data_field_at-vector :
      (zero : F) (g : NodeGraph F) (path : NodePath) (value : F) (state : NodeState F)
      (v : Vector3 F)
      → node g.node_states path ≡ some state
      → state.node_data ≡ some (record { value = vector3 v; data_type = DataType.vector3 })
      → update_node_data_field_at zero g path DataType.vector3 "x" value
        ≡ answer (
            update_node_data_at g path
              (record { value = vector3 (record v { x = value }); data_type = DataType.vector3 }))
  unfolding update_node_data_field_at update_field_of store_data new data_type_of value_as
      inner_type_id type_id is_opaque cognet.Slot.DataType.TypeId-discrete
  update_node_data_field_at-vector zero g path value state v found holds =
      ap (update_field_of zero g path DataType.vector3 "x" value) found ∙ rw holds refl

  interval_reads_zero :
      (zero : F) (o : Option (Data F))
      → current_value zero (extract_fields_from_data zero DataType.interval o) "t1" ≡ zero
  unfolding current_value extract_fields_from_data
  interval_reads_zero zero none = refl
  interval_reads_zero zero (some d) = elim (Result-cases (value_as d (type_id DataType.interval))) [
    | inl (v, e) ↦ rw e refl
    | inr (x, e) ↦ rw e refl
  ]

  -- A new `t0` of a node that holds an interval resets its `t1` to zero, whatever it was.
  pub update_node_data_field_at-interval :
      (zero : F) (g : NodeGraph F) (path : NodePath) (value : F) (state : NodeState F)
      → node g.node_states path ≡ some state
      → update_node_data_field_at zero g path DataType.interval "t0" value
        ≡ answer (
            update_node_data_at g path (record {
              value = interval (record { t0 = value; t1 = zero });
              data_type = DataType.interval;
            }))
  unfolding update_node_data_field_at update_field_of store_data new data_type_of value_as
      inner_type_id type_id is_opaque
  update_node_data_field_at-interval zero g path value state found =
      ap (update_field_of zero g path DataType.interval "t0" value) found
      ∙ rw (interval_reads_zero zero state.node_data) refl
