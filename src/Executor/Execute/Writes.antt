-- ===== src/Executor/Execute/Writes.antt =====
-- The writes of a node: which outputs they touch, and what they depend on.
use cognet.Prelude.{
  ℕ, ◌≡◌, ◌≢◌, refl, ◌∙◌, inl, inr, some, List, [], ◌∷◌, ◌==◌, arith, Option-cases, Bool-cases,
  nat_eq, nat_beq_iff, get_elem?,
}
use cognet.HashMap.{get-insert}
use cognet.Result.{Result-cases}
use cognet.Edge.{OutputSlotId}
use cognet.Slot.DataType.{DataType, data_type_eq}
use cognet.Slot.Data.{Data}
use cognet.ExecutionCache.{ExecutionCache, get_output}
use cognet.ExecutionContext.{OutputWriter, set, set_at, set_writes}
use cognet.Executor.Execute.{apply_write, apply_writes}

-- the writer has no slot with the id
abbrev pub Misses : OutputWriter → OutputSlotId → Type 0
Misses writer id = (i : ℕ) (t : DataType) → get_elem? writer.slots i ≢ some (id, t)

module _ {F : Type 0} where
  apply_write-Misses :
      (writer : OutputWriter) (cache : ExecutionCache F) (i : ℕ) (d : Data F) (k : OutputSlotId)
      → Misses writer k
      → get_output (apply_write writer cache i d) k ≡ get_output cache k
  unfolding apply_write
  apply_write-Misses writer cache i d k miss = elim (Result-cases (set writer i d cache)) [
    | inr (e, refused) ↦ rw (apply_write, refused) refl
    | inl (after, written) ↦
        let (id, at, outputs) = set_writes writer i d cache after written in
        elim (Bool-cases (id == k)) [
          | inl same ↦ absurd (miss i d.data_type (rw (← (nat_beq_iff id k).0 same) at))
          | inr other ↦ rw (apply_write, written) (outputs k ∙ rw other refl)
        ]
  ]

  -- outputs of slots that the writer does not have stay
  pub apply_writes-Misses :
      (writer : OutputWriter) (writes : List (ℕ × Data F)) (cache : ExecutionCache F)
      (k : OutputSlotId)
      → Misses writer k
      → get_output (apply_writes writer writes cache) k ≡ get_output cache k
  unfolding apply_writes
  apply_writes-Misses writer [] cache k miss = refl
  apply_writes-Misses writer ((i, d) ∷ writes) cache k miss =
      apply_writes-Misses writer writes (apply_write writer cache i d) k miss
      ∙ apply_write-Misses writer cache i d k miss

  apply_write-ext :
      (writer : OutputWriter) (a b : ExecutionCache F) (i : ℕ) (d : Data F) (k : OutputSlotId)
      → get_output a k ≡ get_output b k
      → get_output (apply_write writer a i d) k ≡ get_output (apply_write writer b i d) k
  unfolding apply_write set set_at get_output
  apply_write-ext writer a b i d k same = elim (Option-cases (get_elem? writer.slots i)) [
    | inl e ↦ rw (apply_write, set, e) same
    | inr ((id, t), e) ↦ elim (Bool-cases (t == d.data_type)) [
      | inl fits ↦
          rw (apply_write, set, set_at, e, fits)
            (ground (arith, get-insert a.outputs id d k, get-insert b.outputs id d k))
      | inr other ↦ rw (apply_write, set, set_at, e, other) same
    ]
  ]

  -- an output after the writes depends on the output of the same slot before
  pub apply_writes-ext :
      (writer : OutputWriter) (writes : List (ℕ × Data F)) (a b : ExecutionCache F)
      (k : OutputSlotId)
      → get_output a k ≡ get_output b k
      → get_output (apply_writes writer writes a) k ≡ get_output (apply_writes writer writes b) k
  unfolding apply_writes
  apply_writes-ext writer [] a b k same = same
  apply_writes-ext writer ((i, d) ∷ writes) a b k same =
      apply_writes-ext writer writes (apply_write writer a i d) (apply_write writer b i d) k
        (apply_write-ext writer a b i d k same)
