-- ===== src/Examples/Composites.antt =====
-- A vector taken apart into its fields and assembled again.
use cognet.Prelude.{ℕ, ◌≡◌, refl, some, String, [], ◌∷◌, ◌==◌, string_eq, if◌then◌else◌}
use cognet.Slot.DataType.{DataType, type_id, is_opaque, TypeId-discrete}
use cognet.Slot.Data.{Data, vector3, interval, inner_type_id, value_as}
use cognet.Slot.Data.Laws.{IsWellTyped}
use cognet.Slot.Fields.{
  field_names, assemble, extract_fields_from_data, Reads, assemble-extract_fields_from_data,
}

abbrev a_vector : Data ℕ
a_vector = record { value = vector3 (record { x = 3; y = 4; z = 5 }); data_type = DataType.vector3 }

abbrev read_field : String → ℕ
read_field name = if name == "x" then 3 else if name == "y" then 4 else 5

a_vector-IsWellTyped : IsWellTyped a_vector
unfolding inner_type_id type_id
a_vector-IsWellTyped h = refl

a_vector-Reads : Reads read_field (extract_fields_from_data 0 DataType.vector3 (some a_vector))
unfolding extract_fields_from_data value_as inner_type_id type_id is_opaque TypeId-discrete
a_vector-Reads = (refl, (refl, (refl, tt)))

assemble-extract_fields_from_data_example : assemble DataType.vector3 read_field ≡ some a_vector
assemble-extract_fields_from_data_example =
    assemble-extract_fields_from_data 0 a_vector read_field refl a_vector-IsWellTyped a_vector-Reads

-- the fields of an interval are read as zeros
an_interval_test :
    extract_fields_from_data {F = ℕ} 0 DataType.interval (
      some (record { value = interval (record { t0 = 3; t1 = 4 }); data_type = DataType.interval }))
    ≡ ("t0", 0) ∷ ("t1", 0) ∷ []
unfolding extract_fields_from_data value_as inner_type_id type_id field_names is_opaque
    TypeId-discrete
an_interval_test = refl
