-- ===== src/Slot/Data.antt =====
-- src/edge/slot.rs: the geometry structs, `DataValue` and `Data`. `F` is the type `f64`, whose
-- arithmetic is not the source's. `Arc<dyn Any>` is a sum over the Rust types that the file names;
-- a value of any other type is `other`, with its type's tag and the address of the allocation.
-- Error texts are values of `DataError`.
pub mod Laws
use cognet.Prelude.{
  ℕ, ◌≡◌, refl, Bool, true, false, Option, none, some, List, String, ◌==◌, if◌then◌else◌,
}
use cognet.Result.{Result, ok, err, ok_or, ◌>>=◌}
use cognet.Slot.DataType.{
  DataType, ListElem, TypeId, vec, unit, foreign, f64, color_value, list, mesh, brep, domain,
  type_id, is_opaque, data_type_of, data_type_of_any, type_id_eq,
}

pub record Vector3 (F : Type 0) : Type 0 where
  pub x : F
  pub y : F
  pub z : F

pub record ColorValue (F : Type 0) : Type 0 where
  pub r : F
  pub g : F
  pub b : F
  pub a : F

pub record Vertices (F : Type 0) : Type 0 where
  pub points : List (Vector3 F)
  pub closed : Bool

pub record Interval (F : Type 0) : Type 0 where
  pub t0 : F
  pub t1 : F

pub record Plane (F : Type 0) : Type 0 where
  pub origin : Vector3 F
  pub x_axis : Vector3 F
  pub y_axis : Vector3 F
  pub z_axis : Vector3 F

-- the rows of the 4x4 matrix
pub record Transform (F : Type 0) : Type 0 where
  pub m : List (List F)

pub data DataValue (F : Type 0) : Type 0 where
  number : F → DataValue F
  string : String → DataValue F
  vector3 : Vector3 F → DataValue F
  color : ColorValue F → DataValue F
  vertices : Vertices F → DataValue F
  bool : Bool → DataValue F
  interval : Interval F → DataValue F
  plane : Plane F → DataValue F
  transform : Transform F → DataValue F
  numbers : List F → DataValue F
  strings : List String → DataValue F
  bools : List Bool → DataValue F
  vectors : List (Vector3 F) → DataValue F
  colors : List (ColorValue F) → DataValue F
  intervals : List (Interval F) → DataValue F
  planes : List (Plane F) → DataValue F
  unit_value : DataValue F
  other : ℕ → ℕ → DataValue F

pub data DataError : Type 0 where
  invalid_data_type unsupported_data_type : DataError
  declared_mismatch : DataType → DataError
  downcast_failed : DataType → TypeId → DataError
  type_mismatch : DataType → TypeId → DataError

pub record Data (F : Type 0) : Type 0 where
  pub value : DataValue F
  pub data_type : DataType

abbrev pub DataResult : Type 0 → Type 0
DataResult A = Result DataError A

module _ {F : Type 0} where
  -- `(*value).type_id()`
  unfoldable pub inner_type_id : DataValue F → TypeId
  inner_type_id (number v) = f64
  inner_type_id (string v) = TypeId.string
  inner_type_id (vector3 v) = TypeId.vector3
  inner_type_id (color v) = color_value
  inner_type_id (vertices v) = TypeId.vertices
  inner_type_id (bool v) = TypeId.bool
  inner_type_id (interval v) = TypeId.interval
  inner_type_id (plane v) = TypeId.plane
  inner_type_id (transform v) = TypeId.transform
  inner_type_id (numbers v) = vec ListElem.number
  inner_type_id (strings v) = vec ListElem.string
  inner_type_id (bools v) = vec ListElem.bool
  inner_type_id (vectors v) = vec ListElem.vector3
  inner_type_id (colors v) = vec ListElem.color
  inner_type_id (intervals v) = vec ListElem.interval
  inner_type_id (planes v) = vec ListElem.plane
  inner_type_id unit_value = unit
  inner_type_id (other tag address) = foreign tag

  -- `Data::new`: the static type of the argument is that of the value
  unfoldable pub new : DataValue F → DataResult (Data F)
  new v = do
    t ← ok_or (data_type_of (inner_type_id v)) invalid_data_type
    ok (record { value = v; data_type = t })

  unfoldable pub from_mesh : DataValue F → Data F
  from_mesh v = record { value = v; data_type = mesh }

  unfoldable pub from_brep : DataValue F → Data F
  from_brep v = record { value = v; data_type = brep }

  unfoldable pub from_domain : DataValue F → String → Data F
  from_domain v name = record { value = v; data_type = domain name }

  -- `Data::from_list` at `T = f64`
  unfoldable pub from_list : List F → Data F
  from_list vs = record { value = numbers vs; data_type = list ListElem.number }

  unfoldable pub from_any : DataValue F → DataResult (Data F)
  from_any v = do
    t ← ok_or (data_type_of_any (inner_type_id v)) unsupported_data_type
    ok (record { value = v; data_type = t })

  unfoldable pub from_any_typed : DataValue F → DataType → DataResult (Data F)
  from_any_typed v t =
      if is_opaque t
      then ok (record { value = v; data_type = t })
      else if inner_type_id v == type_id t
      then ok (record { value = v; data_type = t })
      else err (declared_mismatch t)

  -- `share` clones the `Arc`
  abbrev pub share : Data F → Data F
  share d = d

  -- `downcast_ref::<T>().ok_or(e)`, `t` being the id of `T`
  downcast : DataValue F → TypeId → DataError → DataResult (DataValue F)
  downcast v t e = if inner_type_id v == t then ok v else err e

  -- `Data::value::<T>`
  unfoldable pub value_as : Data F → TypeId → DataResult (DataValue F)
  unfolding downcast
  value_as d t =
      if is_opaque d.data_type
      then downcast d.value t (downcast_failed d.data_type t)
      else if t == type_id d.data_type
      then downcast d.value t (type_mismatch d.data_type t)
      else err (type_mismatch d.data_type t)

  -- the reference that `downcast_ref` yields at `T = f64` and `T = Vec<f64>`
  abbrev pub as_number : DataValue F → Option F
  as_number (number v) = some v
  as_number _ = none

  abbrev pub as_numbers : DataValue F → Option (List F)
  as_numbers (numbers vs) = some vs
  as_numbers _ = none

  -- `Data::value::<f64>` and `Data::value::<Vec<f64>>`
  unfoldable pub value_number : Data F → DataResult F
  unfolding value_as
  value_number d = do v ← value_as d f64; ok_or (as_number v) (type_mismatch d.data_type f64)

  unfoldable pub value_numbers : Data F → DataResult (List F)
  unfolding value_as
  value_numbers d = do
    v ← value_as d (vec ListElem.number)
    ok_or (as_numbers v) (type_mismatch d.data_type (vec ListElem.number))
