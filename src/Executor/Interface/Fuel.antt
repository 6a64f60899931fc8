-- ===== src/Executor/Interface/Fuel.antt =====
-- The number of the input slots that a walk has not come by.
use cognet.Prelude.{
  ℕ, zero, suc, ◌+◌, ◌<◌, ◌≤◌, ◌≡◌, inl, inr, true, false, some, List, [], ◌∷◌, ◌==◌, arith, nat_eq,
  contains, if◌then◌else◌, nat_beq_iff, beq_refl, Bool-cases, Option-cases, length, get_elem?-lt,
}
use cognet.HashMap
use cognet.HashMap.{contains-keys_where}
use cognet.HashSet
use cognet.HashSet.{contains-insert}
use cognet.ListMap.{get_list, get_list-none}
use cognet.NodePath.{NodePath, path_eq}
use cognet.NodeStates.{NodeStates, InputSlotState, input_slot}
use cognet.Executor.Interface.{Port, port_eq, Visited, slots_at}
use cognet.Executor.Interface.Walks.{Grows}

-- of the first n ports of the path
abbrev free_at : Visited → NodePath → ℕ → ℕ
free_at v path zero = 0
free_at v path (suc n) =
    let rest = free_at v path n in if HashSet.contains v (path, n) then rest else suc rest

free_at-le : (v : Visited) (path : NodePath) (n : ℕ) → free_at v path n ≤ n
free_at-le v path zero = omega arith
free_at-le v path (suc n) = ground (arith, free_at-le v path n)

free_at-Grows :
    (a b : Visited) (path : NodePath) (n : ℕ) → Grows a b → free_at b path n ≤ free_at a path n
free_at-Grows a b path zero g = omega arith
free_at-Grows a b path (suc n) g = ground (arith, free_at-Grows a b path n g, g (path, n))

insert-Grows : (v : Visited) (p : Port) → Grows v (HashSet.insert v p)
insert-Grows v p q m = ground (arith, contains-insert v p q)

free_at-insert :
    (v : Visited) (path : NodePath) (i n : ℕ)
    → HashSet.contains v (path, i) ≡ false
    → i < n
    → free_at (HashSet.insert v (path, i)) path n < free_at v path n
free_at-insert v path i zero h l = absurd (omega arith)
free_at-insert v path i (suc n) h l = elim (Bool-cases (i == n)) [
  | inl same ↦ rw (← (nat_beq_iff i n).0 same) (
      ground (
        arith,
        contains-insert v (path, i) (path, i),
        beq_refl path,
        beq_refl i,
        free_at-Grows v (HashSet.insert v (path, i)) path i (insert-Grows v (path, i)),
      ))
  | inr other ↦
      ground
        (arith, nat_beq_iff i n, contains-insert v (path, i) (path, n), free_at-insert v path i n h)
]

module _ {F : Type 0} (s : NodeStates F) where
  abbrev pub free : Visited → List NodePath → ℕ
  free v [] = 0
  free v (path ∷ paths) = free_at v path (length (get_list s.input_slots path)) + free v paths

  pub free-Grows : (a b : Visited) (paths : List NodePath) → Grows a b → free b paths ≤ free a paths
  free-Grows a b [] g = omega arith
  free-Grows a b (path ∷ paths) g = omega (
    arith,
    free_at-Grows a b path (length (get_list s.input_slots path)) g,
    free-Grows a b paths g,
  )

  pub free-slots_at : (v : Visited) (paths : List NodePath) → free v paths ≤ slots_at s paths
  free-slots_at v [] = omega arith
  free-slots_at v (path ∷ paths) =
      omega (arith, free_at-le v path (length (get_list s.input_slots path)), free-slots_at v paths)

  free-insert :
      (v : Visited) (path : NodePath) (i : ℕ) (paths : List NodePath)
      → HashSet.contains v (path, i) ≡ false
      → i < length (get_list s.input_slots path)
      → contains paths path ≡ true
      → free (HashSet.insert v (path, i)) paths < free v paths
  free-insert v path i [] h l m = cc
  free-insert v path i (p ∷ ps) h l m =
      let after = HashSet.insert v (path, i) in
      let grows = insert-Grows v (path, i) in
      let n = length (get_list s.input_slots p) in
      elim (Bool-cases (p == path)) [
        | inl same ↦
            let e = (path_eq.beq_iff p path).0 same in
            let falls = free_at-insert v path i (length (get_list s.input_slots path)) h l in
            rw e (omega (arith, falls, free-Grows v after ps grows))
        | inr other ↦
            let falls = free-insert v path i ps h l (ground arith) in
            omega (arith, falls, free_at-Grows v after p n grows)
      ]

  abbrev pub slotted : List NodePath
  slotted = HashMap.keys_where (λ path slots. true) s.input_slots

  -- a port of an input slot takes one off the number
  pub free-port :
      (v : Visited) (path : NodePath) (i : ℕ) (slot : InputSlotState F)
      → HashSet.contains v (path, i) ≡ false
      → input_slot s path i ≡ some slot
      → free (HashSet.insert v (path, i)) slotted < free v slotted
  unfolding input_slot
  free-port v path i slot h e =
      let inside = get_elem?-lt (get_list s.input_slots path) i slot e in
      free-insert v path i slotted h inside (elim (Option-cases (HashMap.get s.input_slots path)) [
        | inl e ↦
            absurd
              (let bare = get_list-none s.input_slots path e in omega (arith, rw bare at inside))
        | inr (slots, e) ↦ ground (arith, contains-keys_where (λ p l. true) s.input_slots path)
      ])
