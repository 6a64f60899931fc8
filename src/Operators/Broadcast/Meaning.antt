-- ===== src/Operators/Broadcast/Meaning.antt =====
-- What `apply` of src/node/operators/broadcast.rs computes: an operation of two numbers, broadcast
-- over lists.
use cognet.Prelude.{
  ◌≡◌, refl, ap, inl, inr, List, [], ◌∷◌, String, arith, ◌==◌, if◌then◌else◌, length, nat_eq,
  nat_beq_iff, Bool-cases, map,
}
use cognet.Result.{Result, ok, err, ◌>>=◌}
use cognet.Slot.DataType.{DataType, data_type_of}
use cognet.Slot.Data.{number, new, from_list, inner_type_id}
use cognet.ExecutionCache.{ExecutionCache}
use cognet.ExecutionContext.{ExecutionContext, ExecutionError, unequal_lengths, lift_data, set}
use cognet.Operators.{FloatOps, Execute}
use cognet.Operators.Broadcast.{
  Operand, scalar, value_at, common_length, tabulate, read_operand, apply, apply_to,
}

module _ {F : Type 0} where
  -- What broadcasting means: two scalars give a scalar, a scalar is paired with every element of a
  -- list, two lists of one length are paired element by element, and others are an error.
  pub pairwise : (F → F → F) → List F → List F → List F
  pairwise op (x ∷ xs) (y ∷ ys) = op x y ∷ pairwise op xs ys
  pairwise op _ _ = []

  unfoldable pub broadcast :
      String → (F → F → F) → Operand F → Operand F → Result ExecutionError (Operand F)
  unfolding pairwise
  broadcast node op (scalar x) (scalar y) = ok (scalar (op x y))
  broadcast node op (scalar x) (Operand.list ys) = ok (Operand.list (map (λ y. op x y) ys))
  broadcast node op (Operand.list xs) (scalar y) = ok (Operand.list (map (λ x. op x y) xs))
  broadcast node op (Operand.list xs) (Operand.list ys) =
      if length ys == length xs
      then ok (Operand.list (pairwise op xs ys))
      else err (unequal_lengths node "B[]" (length ys) (length xs))

  -- a scalar result goes to the first output, the results of the elements to the second
  unfoldable pub write_result : Operand F → Execute F
  write_result (scalar v) ctx cache =
      set ctx.output_writer 0 (record { value = number v; data_type = DataType.number }) cache
  write_result (Operand.list vs) ctx cache = set ctx.output_writer 1 (from_list vs) cache

module _ {F : Type 0} (f : FloatOps F) where
  tabulate-left :
      (op : F → F → F) (xs : List F) (y : F)
      → tabulate (length xs) (λ k. op (value_at f (Operand.list xs) k) y) ≡ map (λ x. op x y) xs
  tabulate-left op [] y = refl
  tabulate-left op (x ∷ xs) y = ap (λ l. op x y ∷ l) (tabulate-left op xs y)

  tabulate-right :
      (op : F → F → F) (x : F) (ys : List F)
      → tabulate (length ys) (λ k. op x (value_at f (Operand.list ys) k)) ≡ map (λ y. op x y) ys
  tabulate-right op x [] = refl
  tabulate-right op x (y ∷ ys) = ap (λ l. op x y ∷ l) (tabulate-right op x ys)

  tabulate-pairwise :
      (op : F → F → F) (xs ys : List F)
      → length ys ≡ length xs
      → tabulate
          (length xs)
          (λ k. op (value_at f (Operand.list xs) k) (value_at f (Operand.list ys) k))
        ≡ pairwise op xs ys
  unfolding pairwise
  tabulate-pairwise op [] ys h = refl
  tabulate-pairwise op (x ∷ xs) [] h = absurd (omega arith)
  tabulate-pairwise op (x ∷ xs) (y ∷ ys) h =
      ap (λ l. op x y ∷ l) (tabulate-pairwise op xs ys (omega arith))

  apply_to-broadcast :
      (node : String) (op : F → F → F) (a b : Operand F) (ctx : ExecutionContext F)
      (cache : ExecutionCache F)
      → apply_to f node op a b (common_length a b) ctx cache
        ≡ (broadcast node op a b >>= (λ r. write_result r ctx cache))
  unfolding apply_to broadcast write_result lift_data new set data_type_of inner_type_id
  apply_to-broadcast node op (scalar x) (scalar y) ctx cache = refl
  apply_to-broadcast node op (scalar x) (Operand.list ys) ctx cache =
      ground (arith, tabulate-right op x ys, nat_beq_iff (length ys) (length ys))
  apply_to-broadcast node op (Operand.list xs) (scalar y) ctx cache =
      ground (arith, tabulate-left op xs y, nat_beq_iff (length xs) (length xs))
  apply_to-broadcast node op (Operand.list xs) (Operand.list ys) ctx cache =
      elim (Bool-cases (length ys == length xs)) [
        | inl h ↦ ground (
          arith,
          tabulate-pairwise op xs ys ((nat_beq_iff (length ys) (length xs)).0 h),
          nat_beq_iff (length xs) (length xs),
        )
        | inr h ↦ ground (arith, nat_beq_iff (length xs) (length xs))
      ]

  -- `apply` reads the two operands, broadcasts the operation over them, and writes what that gives;
  -- where broadcasting is an error, it writes nothing and gives that error.
  pub apply-broadcast :
      (node : String) (op : F → F → F) (ctx : ExecutionContext F) (cache : ExecutionCache F)
      → apply f node op ctx cache ≡ (
          broadcast node op (read_operand f ctx 0) (read_operand f ctx 1)
          >>= (λ r. write_result r ctx cache))
  unfolding apply
  apply-broadcast node op ctx cache =
      apply_to-broadcast node op (read_operand f ctx 0) (read_operand f ctx 1) ctx cache
