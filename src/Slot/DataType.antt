-- ===== src/Slot/DataType.antt =====
-- src/edge/slot.rs: `ListElem`, `DataType` and the `TypeId` of the payload that a type stands
-- for. `TypeId` has one constructor for each Rust type that the file names, and `foreign` for the
-- types of applications.
use native.Mathlib.Decide.{ℕ_discrete}
use cognet.Prelude.{
  ℕ, ◌≡◌, ◌↔◌, refl, Bool, true, false, Option, none, some, List, [], ◌∷◌, String, arith, Eq, ◌==◌,
  string_eq, nat_eq, contains, eq_of_discrete,
}
use text.Mathlib.TextEquality.{eq_iff}

pub data ListElem : Type 0 where
  number string bool vector3 color interval plane : ListElem

pub data DataType : Type 0 where
  number string mesh vector3 color vertices bool interval plane transform : DataType
  list : ListElem → DataType
  brep : DataType
  domain : String → DataType

pub data TypeId : Type 0 where
  f64 string vector3 color_value vertices bool interval plane transform unit : TypeId
  vec : ListElem → TypeId
  foreign : ℕ → TypeId

unfoldable pub ListElem-discrete : Discrete ListElem
ListElem-discrete = hlevel

unfoldable pub String-discrete : Discrete String
String-discrete s t =
    elim (s == t) as (λ b. (s == t) ≡ b → Dec (s ≡ t)) [
      | true ↦ λ h. yes ((eq_iff s t).0 h)
      | false ↦ λ h. no (λ e. cc (h, (eq_iff s t).1 e))
    ]
      refl

unfoldable pub DataType-discrete : Discrete DataType
DataType-discrete = hlevel (String-discrete)

unfoldable pub TypeId-discrete : Discrete TypeId
TypeId-discrete = hlevel (ℕ_discrete)

instance abbrev pub data_type_eq : Eq DataType
data_type_eq = eq_of_discrete DataType-discrete

instance abbrev pub type_id_eq : Eq TypeId
type_id_eq = eq_of_discrete TypeId-discrete

-- `DataType::type_id`
unfoldable pub type_id : DataType → TypeId
type_id DataType.number = f64
type_id DataType.string = TypeId.string
type_id mesh = unit
type_id DataType.vector3 = TypeId.vector3
type_id DataType.color = color_value
type_id DataType.vertices = TypeId.vertices
type_id DataType.bool = TypeId.bool
type_id DataType.interval = TypeId.interval
type_id DataType.plane = TypeId.plane
type_id DataType.transform = TypeId.transform
type_id (list e) = vec e
type_id brep = unit
type_id (domain name) = unit

-- the types whose payload is arbitrary: `Mesh | BRep | Domain(_)`
unfoldable pub is_opaque : DataType → Bool
is_opaque mesh = true
is_opaque brep = true
is_opaque (domain name) = true
is_opaque _ = false

-- the `match type_id` of `Data::new`
unfoldable pub data_type_of : TypeId → Option DataType
data_type_of f64 = some DataType.number
data_type_of TypeId.string = some DataType.string
data_type_of TypeId.vector3 = some DataType.vector3
data_type_of color_value = some DataType.color
data_type_of TypeId.vertices = some DataType.vertices
data_type_of TypeId.bool = some DataType.bool
data_type_of TypeId.interval = some DataType.interval
data_type_of TypeId.plane = some DataType.plane
data_type_of TypeId.transform = some DataType.transform
data_type_of (vec e) = some (list e)
data_type_of unit = none
data_type_of (foreign n) = none

-- the shorter `match type_id` of `Data::from_any`
unfoldable pub data_type_of_any : TypeId → Option DataType
data_type_of_any f64 = some DataType.number
data_type_of_any TypeId.string = some DataType.string
data_type_of_any TypeId.vector3 = some DataType.vector3
data_type_of_any color_value = some DataType.color
data_type_of_any TypeId.vertices = some DataType.vertices
data_type_of_any TypeId.bool = some DataType.bool
data_type_of_any TypeId.interval = some DataType.interval
data_type_of_any TypeId.plane = some DataType.plane
data_type_of_any (vec ListElem.number) = some (list ListElem.number)
data_type_of_any (vec ListElem.vector3) = some (list ListElem.vector3)
data_type_of_any _ = none

-- `DataType::standard_types`
unfoldable pub standard_types : List DataType
standard_types =
    DataType.number
    ∷ DataType.string
    ∷ DataType.bool
    ∷ DataType.interval
    ∷ DataType.plane
    ∷ list ListElem.number
    ∷ list ListElem.vector3
    ∷ DataType.vector3
    ∷ DataType.color
    ∷ mesh
    ∷ DataType.vertices
    ∷ brep
    ∷ []

type_id-data_type_of :
    (t : TypeId) (d : DataType) → data_type_of t ≡ some d → (type_id d ≡ t) × (is_opaque d ≡ false)
unfolding data_type_of type_id is_opaque
type_id-data_type_of f64 d h = ground arith
type_id-data_type_of _ d h = ground arith

data_type_of-type_id : (d : DataType) → is_opaque d ≡ false → data_type_of (type_id d) ≡ some d
unfolding data_type_of type_id is_opaque
data_type_of-type_id DataType.number h = refl
data_type_of-type_id _ h = ground arith

-- `data_type_of` inverts `type_id` on the types that are not opaque, and finds no others.
pub data_type_of_iff :
    (t : TypeId) (d : DataType)
    → (data_type_of t ≡ some d) ↔ ((type_id d ≡ t) × (is_opaque d ≡ false))
data_type_of_iff t d = (type_id-data_type_of t d, λ h. rw (← h.0) (data_type_of-type_id d h.1))

-- What `from_any` recognises, `new` recognises as the same type.
pub data_type_of_any-sub :
    (t : TypeId) (d : DataType) → data_type_of_any t ≡ some d → data_type_of t ≡ some d
unfolding data_type_of_any data_type_of
data_type_of_any-sub f64 d h = h
data_type_of_any-sub (vec ListElem.number) d h = h
data_type_of_any-sub (vec _) d h = ground arith
data_type_of_any-sub _ d h = ground arith

-- the transform is not among them
standard_types_test : (contains standard_types DataType.transform ≡ false)
unfolding standard_types DataType-discrete String-discrete
standard_types_test = refl
