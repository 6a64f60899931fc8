-- ===== src/Examples/Nodes.antt =====
-- Nodes run on a context: the natural numbers stand for `f64`.
use cognet.Prelude.{
  ℕ, ◌+◌, ◌-◌, ◌*◌, ◌≡◌, ◌≢◌, ◌↔◌, refl, none, some, [], ◌∷◌, ◌==◌, nat_eq, if◌then◌else◌,
  get_elem?,
}
use mathlib.Core.Option
use cognet.HashMap
use cognet.Result.{ok, ◌>>=◌}
use cognet.NodePath.{root}
use cognet.Slot.DataType.{DataType, ListElem, mesh}
use cognet.Slot.Data.{Data, number, numbers, other}
use cognet.Edge.{OutputSlotId}
use cognet.ExecutionCache.{
  ExecutionCache, get_output, evict_mesh_outputs, get_output-evict_mesh_outputs,
}
use cognet.ExecutionContext.{ExecutionContext, set, set_writes, set_accepts}
use cognet.Operators.{FloatOps}
use cognet.Operators.Broadcast.{apply, read_operand}
use cognet.Operators.Broadcast.Meaning.{broadcast, write_result, apply-broadcast}
use cognet.Operators.ListFold.{
  execute_subtract_list, execute_subtract_list_lem, write_number, numbers_of, data_list, fold_first,
}

abbrev naturals : FloatOps ℕ
naturals = record {
  zero = 0;
  one = 1;
  add = λ a b. a + b;
  subtract = λ a b. a - b;
  multiply = λ a b. a * b;
  divide = λ a b. a;
  equals = λ a b. a == b;
}

abbrev three : Data ℕ
three = record { value = number 3; data_type = DataType.number }

abbrev some_numbers : Data ℕ
some_numbers = record { value = numbers (4 ∷ 5 ∷ []); data_type = DataType.list ListElem.number }

abbrev a_mesh : Data ℕ
a_mesh = record { value = other 1 100; data_type = mesh }

-- A is a scalar, B a list
abbrev a_context : ExecutionContext ℕ
a_context = record {
  path = root;
  node_data = none;
  input_values = (three ∷ []) ∷ [] ∷ [] ∷ (some_numbers ∷ []) ∷ [];
  output_writer = record { slots = (7, DataType.number) ∷ (8, DataType.list ListElem.number) ∷ [] };
}

abbrev a_cache : ExecutionCache ℕ
a_cache = record { outputs = HashMap.insert (HashMap.insert HashMap.empty 1 three) 2 a_mesh }

abbrev after_set : ExecutionCache ℕ
after_set = record { outputs = HashMap.insert a_cache.outputs 7 three }

set-three : set a_context.output_writer 0 three a_cache ≡ ok after_set
set-three = set_accepts a_context.output_writer 0 7 three a_cache refl

set_writes_example :
    (id : OutputSlotId) × (get_elem? a_context.output_writer.slots 0 ≡ some (id, three.data_type))
    × ((j : OutputSlotId)
        → get_output after_set j ≡ (if id == j then some three else get_output a_cache j))
set_writes_example = set_writes a_context.output_writer 0 three a_cache after_set set-three

get_output-evict_mesh_outputs_example :
    (get_output (evict_mesh_outputs a_cache).1 2 ≡ some a_mesh)
    ↔ ((get_output a_cache 2 ≡ some a_mesh) × (a_mesh.data_type ≢ mesh))
get_output-evict_mesh_outputs_example = get_output-evict_mesh_outputs a_cache 2 a_mesh

apply-broadcast_example : apply naturals "Add" naturals.add a_context a_cache ≡ (
    broadcast "Add" naturals.add
      (read_operand naturals a_context 0)
      (read_operand naturals a_context 1)
    >>= (λ r. write_result r a_context a_cache))
apply-broadcast_example = apply-broadcast naturals "Add" naturals.add a_context a_cache

execute_subtract_list_lem_example :
    execute_subtract_list naturals a_context a_cache
    ≡ write_number
        (numbers_of (data_list a_context)
          >>= (λ vs. ok (Option.get_or (fold_first naturals.subtract vs) naturals.zero)))
        a_context
        a_cache
execute_subtract_list_lem_example = execute_subtract_list_lem naturals a_context a_cache
