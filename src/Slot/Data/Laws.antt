-- ===== src/Slot/Data/Laws.antt =====
-- src/edge/slot.rs: `Data` whose tag agrees with its payload, and the typed reads.
use cognet.Prelude.{◌≡◌, sym, ap, inl, inr, true, false, ◌==◌, arith, Bool-cases}
use mathlib.Core.Path.{subst}
use cognet.Result.{ok, is_ok}
use cognet.Slot.DataType.{
  DataType, TypeId, type_id, is_opaque, data_type_of_iff, data_type_of_any-sub, type_id_eq,
}
use cognet.Slot.Data.{Data, DataValue, inner_type_id, new, from_any, from_any_typed, value_as}

module _ {F : Type 0} where
  -- the tag is opaque or agrees with the payload
  abbrev pub IsWellTyped : Data F → Type 0
  IsWellTyped d = is_opaque d.data_type ≡ false → inner_type_id d.value ≡ type_id d.data_type

  -- Where `new` answers, it made a well-typed value of the payload that it was given.
  pub new-IsWellTyped :
      (v : DataValue F) (d : Data F) → new v ≡ ok d → (d.value ≡ v) × IsWellTyped d
  unfolding new
  new-IsWellTyped v d h = ground (arith, data_type_of_iff (inner_type_id v) d.data_type)

  -- Where `from_any` answers, `new` gives the same answer.
  pub from_any-new : (v : DataValue F) (d : Data F) → from_any v ≡ ok d → new v ≡ ok d
  unfolding from_any new
  from_any-new v d h = ground (arith, data_type_of_any-sub (inner_type_id v) d.data_type)

  typed : DataValue F → DataType → Data F
  typed v t = record { value = v; data_type = t }

  from_any_typed-ok :
      (v : DataValue F) (t : DataType) (d : Data F)
      → from_any_typed v t ≡ ok d
      → (typed v t ≡ d) × (is_opaque t ≡ false → (inner_type_id v == type_id t) ≡ true)
  unfolding from_any_typed typed
  from_any_typed-ok v t d h = elim (Bool-cases (is_opaque t)) [
    | inl o ↦ (cc (rw o at h), λ n. cc (o, n))
    | inr c ↦ elim (Bool-cases (inner_type_id v == type_id t)) [
      | inl m ↦ (cc (rw (c, m) at h), λ n. m)
      | inr m ↦ absurd (cc (rw (c, m) at h))
    ]
  ]

  -- Where `from_any_typed` answers, it made a well-typed value of the payload and the type that it
  -- was given.
  pub from_any_typed-IsWellTyped :
      (v : DataValue F) (t : DataType) (d : Data F)
      → from_any_typed v t ≡ ok d
      → (d.value ≡ v) × (d.data_type ≡ t) × IsWellTyped d
  unfolding typed
  from_any_typed-IsWellTyped v t d h =
      let (e, w) = from_any_typed-ok v t d h in
      (
        ap (λ (r : Data F). r.value) (sym e),
        ap (λ (r : Data F). r.data_type) (sym e),
        subst IsWellTyped e (λ n. (type_id_eq.beq_iff (inner_type_id v) (type_id t)).0 (w n)),
      )

  -- Restoring a well-typed value from its payload and its type returns it.
  pub from_any_typed-value :
      (d : Data F) → IsWellTyped d → from_any_typed d.value d.data_type ≡ ok d
  unfolding from_any_typed
  from_any_typed-value d w =
      ground (arith, type_id_eq.beq_iff (inner_type_id d.value) (type_id d.data_type))

  -- A well-typed value is read at the type of its payload and at no other, and a read gives the
  -- payload.
  pub value_as_iff :
      (d : Data F) (t : TypeId)
      → IsWellTyped d
      → (is_ok (value_as d t) ≡ (inner_type_id d.value == t))
        × ((v : DataValue F) → value_as d t ≡ ok v → v ≡ d.value)
  unfolding value_as
  value_as_iff d t w = (
    ground (
      arith,
      type_id_eq.beq_iff (inner_type_id d.value) t,
      type_id_eq.beq_iff t (type_id d.data_type),
    ),
    λ v h. ground (arith),
  )
