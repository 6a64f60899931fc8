-- ===== src/Examples/Values.antt =====
-- Values restored, checked and read.
use cognet.Prelude.{ℕ, ◌≡◌, refl, [], ◌∷◌}
use cognet.Result.{ok}
use cognet.Slot.DataType.{DataType, ListElem, type_id, data_type_of, data_type_of_any, type_id_eq}
use cognet.Slot.Data.{Data, DataValue, inner_type_id, new, from_any, from_any_typed, numbers}
use cognet.Slot.Data.Laws.{IsWellTyped, from_any_typed-IsWellTyped, from_any_typed-value}

abbrev some_numbers : DataValue ℕ
some_numbers = numbers (3 ∷ 4 ∷ [])

abbrev numbers_data : Data ℕ
numbers_data = record { value = some_numbers; data_type = DataType.list ListElem.number }

numbers_made : new some_numbers ≡ ok numbers_data
unfolding new inner_type_id data_type_of
numbers_made = refl

numbers_made_any : from_any some_numbers ≡ ok numbers_data
unfolding from_any inner_type_id data_type_of_any
numbers_made_any = refl

numbers_data-IsWellTyped : IsWellTyped numbers_data
unfolding inner_type_id type_id
numbers_data-IsWellTyped h = refl

numbers_restored : from_any_typed some_numbers (DataType.list ListElem.number) ≡ ok numbers_data
numbers_restored = from_any_typed-value numbers_data numbers_data-IsWellTyped

from_any_typed-IsWellTyped_example :
    (numbers_data.value ≡ some_numbers)
    × (numbers_data.data_type ≡ DataType.list ListElem.number)
    × IsWellTyped numbers_data
from_any_typed-IsWellTyped_example =
    from_any_typed-IsWellTyped some_numbers (DataType.list ListElem.number) numbers_data
      numbers_restored

from_any_typed-value_example :
    from_any_typed numbers_data.value numbers_data.data_type ≡ ok numbers_data
from_any_typed-value_example = from_any_typed-value numbers_data numbers_data-IsWellTyped
