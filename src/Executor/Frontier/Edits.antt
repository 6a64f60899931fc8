-- ===== src/Executor/Frontier/Edits.antt =====
-- Two graphs, the one of the last pass and the one of this pass, between which nodes were edited and
-- marked as changed: what a skipped node is given in each.
use cognet.Prelude.{
  ℕ, zero, suc, ◌≡◌, refl, ap, ◌∙◌, inl, inr, Option, none, some, Bool, true, false, List, [], ◌∷◌,
  nat_eq, contains, beq_refl, arith, Bool-cases, Option-cases, get_elem?,
}
use cognet.HashMap
use cognet.HashSet
use cognet.HashSet.{HashSet}
use cognet.ListMap.{get_list}
use cognet.NodePath.{NodePath, path_eq, is_empty}
use cognet.Edge.{Edge, EdgeId, OutputSlotId}
use cognet.ExecutionCache.{ExecutionCache, get_output}
use cognet.NodeStates.{NodeStates, InputSlotState, node, input_slot, edges_for_input, get_edge}
use cognet.NodeStates.Consistent.{IsConsistent}
use cognet.Executor.Interface.{Visited, port_eq, is_interface, walk_edges}
use cognet.Executor.Interface.Walks.{walk_edges-passed}
use cognet.Executor.Resolve.{resolve_value, or_default, is_some}
use cognet.Executor.Resolve.Laws.{through}
use cognet.Executor.Frontier.{ChangeFrontier, source_changed, is_true}
use cognet.Executor.Frontier.Origins.{asked, no_member}

module _ {F : Type 0} (s : NodeStates F) where
  -- the ports that a walk back through the interfaces comes by, the first and the last included
  pub data Behind (last : NodePath) (last_index : ℕ) (last_id : OutputSlotId)
      : NodePath → ℕ → OutputSlotId → Type 0 where
    here : Behind last last_index last_id last last_index last_id
    via :
        {path : NodePath} {i : ℕ} {id : OutputSlotId}
        → is_interface s path ≡ true
        → (slot : InputSlotState F) (edge_id : EdgeId) (edge : Edge)
        → input_slot s path i ≡ some slot
        → contains (edges_for_input s slot.id) edge_id ≡ true
        → get_edge s edge_id ≡ some edge
        → Behind last last_index last_id edge.from_node edge.from_output_slot_index
            edge.from_output_slot_id
        → Behind last last_index last_id path i id

  -- an interface that was not edited, or another node that has not changed
  pub data IsQuiet (f : ChangeFrontier) (path : NodePath) : Type 0 where
    interface : is_interface s path ≡ true → HashSet.contains f.seed path ≡ false → IsQuiet f path
    plain : is_interface s path ≡ false → HashSet.contains f.changed path ≡ false → IsQuiet f path

  -- a source that does not count as changed has quiet nodes behind it only
  pub source_changed-IsQuiet :
      (fuel : ℕ) (f : ChangeFrontier) {path : NodePath} {i : ℕ} {id : OutputSlotId} (v : Visited)
      {last : NodePath} {last_index : ℕ} {last_id : OutputSlotId}
      → Behind last last_index last_id path i id
      → (source_changed fuel f s path i v).0 ≡ false
      → IsQuiet f last
  unfolding source_changed
  source_changed-IsQuiet zero f v o h = absurd cc
  source_changed-IsQuiet (suc fuel) f {path} {i} v here h =
      elim (Bool-cases (is_interface s path)) [
        | inr other ↦ plain other (rw other at h)
        | inl proxy ↦ elim (Bool-cases (HashSet.contains v (path, i))) [
          | inl seen ↦ absurd (cc (rw (proxy, seen) at h))
          | inr new ↦ elim (Bool-cases (HashSet.contains f.seed path)) [
            | inl dirty ↦ absurd (cc (rw (proxy, new, dirty) at h))
            | inr clean ↦ interface proxy clean
          ]
        ]
      ]
  source_changed-IsQuiet (suc fuel) f {path} {i} v (via proxy slot edge_id edge e m there o) h =
      let after = HashSet.insert v (path, i) in
      let ids = edges_for_input s slot.id in
      elim (Bool-cases (HashSet.contains v (path, i))) [
        | inl seen ↦ absurd (cc (rw (proxy, seen) at h))
        | inr new ↦ elim (Bool-cases (HashSet.contains f.seed path)) [
          | inl dirty ↦ absurd (cc (rw (proxy, new, dirty) at h))
          | inr clean ↦ elim (Bool-cases (is_empty ids)) [
            | inl bare ↦ absurd (no_member s ids edge_id bare m)
            | inr wired ↦
                let (w, passed) =
                  walk_edges-passed s is_true false (asked s fuel f) ids after edge_id
                    (rw (proxy, new, clean, e, wired) at h) m in
                source_changed-IsQuiet fuel f w o (rw there at passed)
          ]
        ]
      ]

  -- the sources of a port whose output slot the node owns own their output slots
  pub Behind-owner :
      {last : NodePath} {last_index : ℕ} {last_id : OutputSlotId} {path : NodePath} {i : ℕ}
      {id : OutputSlotId}
      → IsConsistent s
      → HashMap.get s.output_slot_owner id ≡ some (path, i)
      → Behind last last_index last_id path i id
      → HashMap.get s.output_slot_owner last_id ≡ some (last, last_index)
  unfolding get_edge
  Behind-owner w h here = h
  Behind-owner w h (via proxy slot edge_id edge e m there o) =
      Behind-owner w (w.ends edge_id edge there).output_end o

-- The nodes that differ between the two graphs are in the seed: outside of it every node has its
-- data, its slots with their defaults and its incoming edges. No node became or ceased to be an
-- interface.
pub record IsMarked {F : Type 0} (seed : HashSet NodePath) (then now : NodeStates F) : Type 0 where
  pub kinds : (p : NodePath) → is_interface then p ≡ is_interface now p
  pub state : (p : NodePath) → HashSet.contains seed p ≡ false → node then p ≡ node now p
  pub input :
      (p : NodePath)
      → HashSet.contains seed p ≡ false
      → get_list then.input_slots p ≡ get_list now.input_slots p
  pub output :
      (p : NodePath)
      → HashSet.contains seed p ≡ false
      → get_list then.output_slots p ≡ get_list now.output_slots p
  pub connections :
      (p : NodePath) (i : ℕ) (slot : InputSlotState F)
      → HashSet.contains seed p ≡ false
      → input_slot now p i ≡ some slot
      → edges_for_input then slot.id ≡ edges_for_input now slot.id
  pub edges :
      (p : NodePath) (i : ℕ) (slot : InputSlotState F) (id : EdgeId)
      → HashSet.contains seed p ≡ false
      → input_slot now p i ≡ some slot
      → contains (edges_for_input now slot.id) id ≡ true
      → get_edge then id ≡ get_edge now id

module _ {F : Type 0} (then now : NodeStates F) where
  walk_edges-across :
      {A : Type 0} (stops : A → Bool) (last : A) (f g : Option Edge → Visited → A × Visited)
      (ids : List EdgeId) (v : Visited)
      → ((id : EdgeId) (w : Visited)
          → contains ids id ≡ true
          → f (get_edge then id) w ≡ g (get_edge now id) w)
      → walk_edges then f stops last ids v ≡ walk_edges now g stops last ids v
  walk_edges-across stops last f g [] v same = refl
  walk_edges-across stops last f g (id ∷ ids) v same =
      let next = f (get_edge then id) v in
      let later = walk_edges-across stops last f g ids next.1 (λ j w m. same j w (ground arith)) in
      rw (← same id v (ground (arith, beq_refl id)), later) refl

  through-across :
      (fuel : ℕ) (before after : ExecutionCache F) (w : Visited) (o : Option Edge)
      → ((e : Edge)
          → o ≡ some e
          → resolve_value fuel then before e.from_node e.from_output_slot_index
              e.from_output_slot_id w
            ≡ resolve_value fuel now after e.from_node e.from_output_slot_index
                e.from_output_slot_id w)
      → through then fuel before o w ≡ through now fuel after o w
  through-across fuel before after w none same = refl
  through-across fuel before after w (some e) same = same e refl

  -- a walk by quiet nodes only delivers the same value in both graphs
  pub resolve_value-across :
      (fuel : ℕ) (f : ChangeFrontier) (before after : ExecutionCache F) (path : NodePath) (i : ℕ)
      (id : OutputSlotId) (v : Visited)
      → IsMarked f.seed then now
      → ((last : NodePath) (j : ℕ) (last_id : OutputSlotId)
          → Behind now last j last_id path i id
          → IsQuiet now f last)
      → ((last : NodePath) (j : ℕ) (last_id : OutputSlotId)
          → Behind now last j last_id path i id
          → HashSet.contains f.changed last ≡ false
          → get_output before last_id ≡ get_output after last_id)
      → resolve_value fuel then before path i id v ≡ resolve_value fuel now after path i id v
  unfolding resolve_value
  resolve_value-across zero f before after path i id v marked quiet same = refl
  resolve_value-across (suc fuel) f before after path i id v marked quiet same =
      elim (Bool-cases (HashSet.contains v (path, i))) [
        | inl seen ↦ rw seen refl
        | inr new ↦ elim (quiet path i id here) [
          | plain other still ↦ rw (new, marked.kinds path, other, same path i id here still) refl
          | interface proxy clean ↦
              let slots : input_slot then path i ≡ input_slot now path i =
                unfold input_slot in ap (λ l. get_elem? l i) (marked.input path clean) in
              elim (Option-cases (input_slot now path i)) [
                | inl e ↦ rw (new, marked.kinds path, proxy, slots, e) refl
                | inr (slot, e) ↦
                    let ids = edges_for_input now slot.id in
                    let walked =
                      walk_edges-across is_some none (through then fuel before)
                        (through now fuel after) ids (HashSet.insert v (path, i))
                        (λ j w m.
                          ap (λ o. through then fuel before o w)
                            (marked.edges path i slot j clean e m)
                          ∙ through-across fuel before after w (get_edge now j) (λ edge there.
                            resolve_value-across fuel f before after edge.from_node
                              edge.from_output_slot_index edge.from_output_slot_id w marked
                              (λ a b c o. quiet a b c (via proxy slot j edge e m there o))
                              (λ a b c o. same a b c (via proxy slot j edge e m there o)))) in
                    rw
                      (
                        new,
                        marked.kinds path,
                        proxy,
                        slots,
                        e,
                        marked.connections path i slot clean e,
                      )
                      (ap (or_default slot) walked)
              ]
        ]
      ]
