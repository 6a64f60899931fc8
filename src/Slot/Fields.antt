-- ===== src/Slot/Fields.antt =====
-- The fields of composite values: `DataType::{field_names, assemble}` of src/edge/slot.rs, and the
-- two `extract_fields_*` of src/node_graph/node_graph_api.rs. `zero` is the number 0.0.
use cognet.Prelude.{
  ◌≡◌, refl, Bool, true, false, Option, none, some, List, [], ◌∷◌, String, arith, map, ap,
}
use mathlib.Core.Path.{subst}
use cognet.Result.{ok, err, to_option}
use cognet.Slot.DataType.{DataType, TypeId, type_id, is_opaque, data_type_of, type_id_eq}
use cognet.Slot.Data.{
  Data, DataResult, DataValue, Vector3, ColorValue, inner_type_id, new, value_as, interval, color,
  vector3,
}
use cognet.Slot.Data.Laws.{IsWellTyped}

unfoldable pub field_names : DataType → List String
field_names DataType.vector3 = "x" ∷ "y" ∷ "z" ∷ []
field_names DataType.color = "r" ∷ "g" ∷ "b" ∷ "a" ∷ []
field_names DataType.interval = "t0" ∷ "t1" ∷ []
field_names _ = []

-- the two types whose fields are read
abbrev pub has_read_fields : DataType → Bool
has_read_fields DataType.vector3 = true
has_read_fields DataType.color = true
has_read_fields _ = false

read_fields-not_opaque : (t : DataType) → has_read_fields t ≡ true → is_opaque t ≡ false
unfolding is_opaque
read_fields-not_opaque DataType.vector3 h = refl
read_fields-not_opaque DataType.color h = refl
read_fields-not_opaque _ h = absurd (cc h)

module _ {F : Type 0} where
  unfoldable pub assemble : DataType → (String → F) → Option (Data F)
  assemble DataType.vector3 read =
      to_option (new (vector3 (record { x = read "x"; y = read "y"; z = read "z" })))
  assemble DataType.color read =
      to_option (new (color (record { r = read "r"; g = read "g"; b = read "b"; a = read "a" })))
  assemble DataType.interval read =
      to_option (new (interval (record { t0 = read "t0"; t1 = read "t1" })))
  assemble _ read = none

  abbrev pub zeros : F → DataType → List (String × F)
  zeros zero t = map (λ name. (name, zero)) (field_names t)

  -- the fields of a payload of the type
  abbrev fields_of : F → DataType → DataValue F → List (String × F)
  fields_of zero DataType.vector3 (vector3 v) = ("x", v.x) ∷ ("y", v.y) ∷ ("z", v.z) ∷ []
  fields_of zero DataType.color (color c) = ("r", c.r) ∷ ("g", c.g) ∷ ("b", c.b) ∷ ("a", c.a) ∷ []
  fields_of zero t v = zeros zero t

  abbrev fields_read : F → DataType → DataResult (DataValue F) → List (String × F)
  fields_read zero t (ok v) = fields_of zero t v
  fields_read zero t (err e) = zeros zero t

  -- of a type with no fields `zeros` is the empty list, so the early return needs no test
  unfoldable pub extract_fields_from_data : F → DataType → Option (Data F) → List (String × F)
  unfolding field_names
  extract_fields_from_data zero t none = zeros zero t
  extract_fields_from_data zero t (some d) = fields_read zero t (value_as d (type_id t))

  unfoldable pub extract_fields_from_default_value :
      F → DataType → Option (DataValue F) → List (String × F)
  unfolding field_names
  extract_fields_from_default_value zero t none = zeros zero t
  extract_fields_from_default_value zero t (some v) = fields_of zero t v

  -- the function gives each field its value
  abbrev pub Reads : (String → F) → List (String × F) → Type 0
  Reads read [] = Unit
  Reads read ((name, v) ∷ fields) = (read name ≡ v) × Reads read fields

  vector_payload :
      (v : DataValue F) → inner_type_id v ≡ TypeId.vector3 → (w : Vector3 F) × (v ≡ vector3 w)
  unfolding inner_type_id
  vector_payload (vector3 w) h = (w, refl)
  vector_payload _ h = absurd (cc h)

  color_payload :
      (v : DataValue F) → inner_type_id v ≡ TypeId.color_value → (c : ColorValue F) × (v ≡ color c)
  unfolding inner_type_id
  color_payload (color c) h = (c, refl)
  color_payload _ h = absurd (cc h)

  assemble-fields :
      (zero : F) (t : DataType) (v : DataValue F) (read : String → F)
      → has_read_fields t ≡ true
      → inner_type_id v ≡ type_id t
      → Reads read (extract_fields_from_default_value zero t (some v))
      → assemble t read ≡ some (record { value = v; data_type = t })
  unfolding extract_fields_from_default_value assemble new inner_type_id data_type_of type_id
  assemble-fields zero DataType.vector3 v read c h r =
      let (w, e) = vector_payload v h in ground arith
  assemble-fields zero DataType.color v read c h r = let (w, e) = color_payload v h in ground arith
  assemble-fields zero _ v read c h r = absurd (cc c)

  value_as_own :
      (d : Data F)
      → is_opaque d.data_type ≡ false
      → inner_type_id d.value ≡ type_id d.data_type
      → value_as d (type_id d.data_type) ≡ ok d.value
  unfolding value_as
  value_as_own d n e = ground (
    arith,
    type_id_eq.beq_iff (inner_type_id d.value) (type_id d.data_type),
    type_id_eq.beq_iff (type_id d.data_type) (type_id d.data_type),
  )

  extract_fields-own :
      (zero : F) (d : Data F)
      → value_as d (type_id d.data_type) ≡ ok d.value
      → extract_fields_from_data zero d.data_type (some d)
        ≡ extract_fields_from_default_value zero d.data_type (some d.value)
  unfolding extract_fields_from_data extract_fields_from_default_value
  extract_fields-own zero d e = ap (fields_read zero d.data_type) e

  -- A vector or a color is assembled again from the fields that are extracted from it, where it is
  -- well-typed and each field is read as it was extracted.
  pub assemble-extract_fields_from_data :
      (zero : F) (d : Data F) (read : String → F)
      → has_read_fields d.data_type ≡ true
      → IsWellTyped d
      → Reads read (extract_fields_from_data zero d.data_type (some d))
      → assemble d.data_type read ≡ some d
  assemble-extract_fields_from_data zero d read c w r =
      let n = read_fields-not_opaque d.data_type c in
      assemble-fields zero d.data_type d.value read c (w n)
        (subst (Reads read) (extract_fields-own zero d (value_as_own d n (w n))) r)
