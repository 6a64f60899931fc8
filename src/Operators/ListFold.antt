-- ===== src/Operators/ListFold.antt =====
-- src/node/operators/{add,subtract,multiply,divide}_list.rs: one operation along all the values of
-- the first input.
use cognet.Prelude.{◌≡◌, refl, Option, none, some, List, [], ◌∷◌, get_elem?, inl, inr}
use mathlib.Core.Option
use cognet.Result.{ok, ◌>>=◌, Result-cases}
use cognet.Slot.Data.{Data, DataResult, number, new, value_number}
use cognet.ExecutionCache.{ExecutionCache}
use cognet.ExecutionContext.{ExecutionContext, lift_data, set}
use cognet.Operators.{FloatOps, safe_divide, Execute}

module _ {F : Type 0} where
  -- input_values.first().cloned().unwrap_or_default()
  abbrev pub data_list : ExecutionContext F → List (Data F)
  data_list ctx = Option.get_or (get_elem? ctx.input_values 0) []

  -- the loop with a number: the first value that is no number ends it
  unfoldable pub accumulate : (F → F → F) → F → List (Data F) → DataResult F
  accumulate op result [] = ok result
  accumulate op result (d ∷ ds) = do value ← value_number d; accumulate op (op result value) ds

  -- the loop whose result is `None` before the first value
  unfoldable pub accumulate_first : (F → F → F) → Option F → List (Data F) → DataResult (Option F)
  accumulate_first op result [] = ok result
  accumulate_first op result (d ∷ ds) = do
    value ← value_number d
    accumulate_first op (some (elim result [ none ↦ value | some r ↦ op r value ])) ds

  unfoldable pub write_number : DataResult F → Execute F
  write_number result ctx cache = do
    v ← lift_data result
    d ← lift_data (new (number v))
    set ctx.output_writer 0 d cache

  -- result.unwrap_or(0.0)
  abbrev or_zero : FloatOps F → DataResult (Option F) → DataResult F
  or_zero f result = do r ← result; ok (Option.get_or r f.zero)

  unfoldable pub execute_add_list : FloatOps F → Execute F
  unfolding accumulate write_number
  execute_add_list f ctx = write_number (accumulate f.add f.zero (data_list ctx)) ctx

  unfoldable pub execute_multiply_list : FloatOps F → Execute F
  unfolding accumulate write_number
  execute_multiply_list f ctx = write_number (accumulate f.multiply f.one (data_list ctx)) ctx

  unfoldable pub execute_subtract_list : FloatOps F → Execute F
  unfolding accumulate_first write_number
  execute_subtract_list f ctx =
      write_number (or_zero f (accumulate_first f.subtract none (data_list ctx))) ctx

  unfoldable pub execute_divide_list : FloatOps F → Execute F
  unfolding accumulate_first write_number
  execute_divide_list f ctx =
      write_number (or_zero f (accumulate_first (safe_divide f) none (data_list ctx))) ctx

  -- the values as numbers, or the error of the first that is none
  unfoldable pub numbers_of : List (Data F) → DataResult (List F)
  numbers_of [] = ok []
  numbers_of (d ∷ ds) = do v ← value_number d; vs ← numbers_of ds; ok (v ∷ vs)

  -- `Iterator::fold`
  abbrev pub fold : (F → F → F) → F → List F → F
  fold op a [] = a
  fold op a (v ∷ vs) = fold op (op a v) vs

  -- the first value, and the operation along the others; `none` of no values
  abbrev pub fold_first : (F → F → F) → List F → Option F
  fold_first op [] = none
  fold_first op (v ∷ vs) = some (fold op v vs)

  accumulate-fold :
      (op : F → F → F) (a : F) (ds : List (Data F))
      → accumulate op a ds ≡ (numbers_of ds >>= (λ vs. ok (fold op a vs)))
  unfolding accumulate numbers_of
  accumulate-fold op a [] = refl
  accumulate-fold op a (d ∷ ds) = elim (Result-cases (value_number d)) [
    | inl (v, e) ↦ rw e (
        rw (accumulate-fold op (op a v) ds) (elim (Result-cases (numbers_of ds)) [
          | inl (vs, h) ↦ rw h refl
          | inr (x, h) ↦ rw h refl
        ]))
    | inr (x, e) ↦ rw e refl
  ]

  accumulate_first-some :
      (op : F → F → F) (a : F) (ds : List (Data F))
      → accumulate_first op (some a) ds ≡ (accumulate op a ds >>= (λ v. ok (some v)))
  unfolding accumulate accumulate_first
  accumulate_first-some op a [] = refl
  accumulate_first-some op a (d ∷ ds) = elim (Result-cases (value_number d)) [
    | inl (v, e) ↦ rw e (accumulate_first-some op (op a v) ds)
    | inr (x, e) ↦ rw e refl
  ]

  or_zero-fold :
      (f : FloatOps F) (op : F → F → F) (ds : List (Data F))
      → or_zero f (accumulate_first op none ds)
        ≡ (numbers_of ds >>= (λ vs. ok (Option.get_or (fold_first op vs) f.zero)))
  unfolding accumulate_first numbers_of
  or_zero-fold f op [] = refl
  or_zero-fold f op (d ∷ ds) = elim (Result-cases (value_number d)) [
    | inl (v, e) ↦ rw e (
        rw (accumulate_first-some op v ds) (
          rw (accumulate-fold op v ds) (elim (Result-cases (numbers_of ds)) [
            | inl (vs, h) ↦ rw h refl
            | inr (x, h) ↦ rw h refl
          ])))
    | inr (x, e) ↦ rw e refl
  ]

  -- The sum of all the values, from zero, is written to the first output; a value that is no
  -- number is an error, and nothing is written.
  pub execute_add_list_lem :
      (f : FloatOps F) (ctx : ExecutionContext F) (cache : ExecutionCache F)
      → execute_add_list f ctx cache
        ≡ write_number (numbers_of (data_list ctx) >>= (λ vs. ok (fold f.add f.zero vs))) ctx cache
  unfolding execute_add_list
  execute_add_list_lem f ctx cache = rw (accumulate-fold f.add f.zero (data_list ctx)) refl

  -- The product of all the values, from one, is written to the first output; a value that is no
  -- number is an error, and nothing is written.
  pub execute_multiply_list_lem :
      (f : FloatOps F) (ctx : ExecutionContext F) (cache : ExecutionCache F)
      → execute_multiply_list f ctx cache
        ≡ write_number
            (numbers_of (data_list ctx) >>= (λ vs. ok (fold f.multiply f.one vs)))
            ctx
            cache
  unfolding execute_multiply_list
  execute_multiply_list_lem f ctx cache = rw (accumulate-fold f.multiply f.one (data_list ctx)) refl

  -- The first value less all the others is written to the first output, zero where there are no
  -- values; a value that is no number is an error, and nothing is written.
  pub execute_subtract_list_lem :
      (f : FloatOps F) (ctx : ExecutionContext F) (cache : ExecutionCache F)
      → execute_subtract_list f ctx cache
        ≡ write_number
            (numbers_of (data_list ctx)
              >>= (λ vs. ok (Option.get_or (fold_first f.subtract vs) f.zero)))
            ctx
            cache
  unfolding execute_subtract_list
  execute_subtract_list_lem f ctx cache = rw (or_zero-fold f f.subtract (data_list ctx)) refl

  -- The first value divided by all the others, each zero divisor making the quotient zero, is
  -- written to the first output, zero where there are no values; a value that is no number is an
  -- error, and nothing is written.
  pub execute_divide_list_lem :
      (f : FloatOps F) (ctx : ExecutionContext F) (cache : ExecutionCache F)
      → execute_divide_list f ctx cache
        ≡ write_number
            (numbers_of (data_list ctx)
              >>= (λ vs. ok (Option.get_or (fold_first (safe_divide f) vs) f.zero)))
            ctx
            cache
  unfolding execute_divide_list
  execute_divide_list_lem f ctx cache = rw (or_zero-fold f (safe_divide f) (data_list ctx)) refl
