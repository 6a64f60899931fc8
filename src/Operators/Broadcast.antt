-- ===== src/Operators/Broadcast.antt =====
-- src/node/operators/broadcast.rs: the elementwise broadcast of the binary operators, and the four
-- operators that are made of it.
pub mod Meaning
use cognet.Prelude.{
  ℕ, zero, suc, ◌+◌, ◌≡◌, refl, ap, inl, inr, true, false, Option, none, some, List, [], ◌∷◌,
  String, arith, ◌==◌, if◌then◌else◌, length, get_elem?, nat_eq, nat_beq_iff, Bool-cases, map,
}
use mathlib.Core.Option
use cognet.Result.{Result, ok, err, ◌>>=◌, to_option}
use cognet.Slot.DataType.{DataType, ListElem, data_type_of}
use cognet.Slot.Data.{Data, number, new, from_list, value_number, value_numbers, inner_type_id}
use cognet.NodeStates.{SlotDef}
use cognet.ExecutionCache.{ExecutionCache}
use cognet.ExecutionContext.{ExecutionContext, ExecutionError, unequal_lengths, lift_data, set}
use cognet.Operators.{FloatOps, safe_divide, Execute}

number_operand : String → SlotDef
number_operand label = record {
  label = label;
  data_type = DataType.number;
  max_connections = some 1;
  inspector_visible = true;
}

list_operand : String → SlotDef
list_operand label = record {
  label = label;
  data_type = DataType.list ListElem.number;
  max_connections = some 1;
  inspector_visible = false;
}

number_result : String → SlotDef
number_result label = record {
  label = label;
  data_type = DataType.number;
  max_connections = none;
  inspector_visible = true;
}

list_result : String → SlotDef
list_result label = record {
  label = label;
  data_type = DataType.list ListElem.number;
  max_connections = none;
  inspector_visible = true;
}

-- LIST_SLOT_BASE
abbrev list_slot_base : ℕ
list_slot_base = 2

pub data Operand (F : Type 0) : Type 0 where
  scalar : F → Operand F
  list : List F → Operand F

-- (0..n).map(f)
abbrev pub tabulate : {A : Type 0} → ℕ → (ℕ → A) → List A
tabulate zero f = []
tabulate (suc n) f = f 0 ∷ tabulate n (λ i. f (suc i))

module _ {F : Type 0} where
  -- input_values.get(slot).and_then(|values| values.first())
  unfoldable pub first_value : List (List (Data F)) → ℕ → Option (Data F)
  first_value input_values slot =
      Option.bind (get_elem? input_values slot) (λ values. get_elem? values 0)

  abbrev pub list_length : Operand F → Option ℕ
  list_length (scalar v) = none
  list_length (Operand.list values) = some (length values)

  -- the first list's length, of `operands.iter().find_map(..)`
  abbrev pub common_length : Operand F → Operand F → Option ℕ
  common_length (Operand.list values) b = some (length values)
  common_length (scalar v) b = list_length b

  -- the loop's body: a list of another length is an error
  abbrev pub check_length : String → String → ℕ → Operand F → Result ExecutionError (Unit {0})
  check_length node label expected (scalar v) = ok tt
  check_length node label expected (Operand.list values) =
      if length values == expected
      then ok tt
      else err (unequal_lengths node label (length values) expected)

module _ {F : Type 0} (f : FloatOps F) where
  unfoldable pub read_operand : ExecutionContext F → ℕ → Operand F
  unfolding first_value
  read_operand ctx index =
      elim (Option.bind (first_value ctx.input_values (list_slot_base + index))
        (λ d. to_option (value_numbers d))) [
          | some values ↦ Operand.list values
          | none ↦ scalar (
              Option.get_or
                (Option.bind (first_value ctx.input_values index) (λ d. to_option (value_number d)))
                f.zero)
        ]

  -- `values[k]`; the checks before it keep `k` in range
  abbrev pub value_at : Operand F → ℕ → F
  value_at (scalar v) k = v
  value_at (Operand.list values) k = Option.get_or (get_elem? values k) f.zero

  unfoldable pub apply_to :
      String
      → (F → F → F)
      → Operand F
      → Operand F
      → Option ℕ
      → ExecutionContext F
      → ExecutionCache F
      → Result ExecutionError (ExecutionCache F)
  apply_to node op a b none ctx cache = do
    d ← lift_data (new (number (op (value_at a 0) (value_at b 0))))
    set ctx.output_writer 0 d cache
  apply_to node op a b (some n) ctx cache = do
    _ ← check_length node "A[]" n a
    _ ← check_length node "B[]" n b
    set ctx.output_writer 1 (from_list (tabulate n (λ k. op (value_at a k) (value_at b k)))) cache

  unfoldable pub apply : String → (F → F → F) → Execute F
  unfolding read_operand apply_to
  apply node op ctx cache =
      let a = read_operand ctx 0 in
      let b = read_operand ctx 1 in apply_to node op a b (common_length a b) ctx cache

  -- `execute_sync` of the four nodes
  unfoldable pub execute_add : Execute F
  unfolding apply
  execute_add = apply "Add" f.add

  unfoldable pub execute_subtract : Execute F
  unfolding apply
  execute_subtract = apply "Subtract" f.subtract

  unfoldable pub execute_multiply : Execute F
  unfolding apply
  execute_multiply = apply "Multiply" f.multiply

  unfoldable pub execute_divide : Execute F
  unfolding apply
  execute_divide = apply "Divide" (safe_divide f)
