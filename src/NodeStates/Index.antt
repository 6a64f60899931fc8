-- ===== src/NodeStates/Index.antt =====
-- The four indexes of src/node_graph/node_state.rs from an end of the edges to the edges there
-- (`input_connections`, `output_connections`, `outgoing_edges`, `incoming_edges`). What an index
-- goes by is a parameter, `key`.
use cognet.Prelude.{
  ℕ, zero, suc, ◌≡◌, inl, inr, refl, Bool, true, false, ◌||◌, none, some, List, [], ◌∷◌, ◌==◌,
  arith, Eq, contains, without, IsNodup, IsNodup-append, IsNodup-without, contains-without, nat_eq,
  nat_beq_iff, insert_at, remove_at, length, min, Option-cases,
}
use cognet.HashMap
use cognet.HashMap.{HashMap, holds_at, get-insert, get-remove, get-map_values}
use cognet.ListMap.{
  get_list, push_entry, retain_entry, contains-push_entry, contains-retain_entry,
  get_list-push_entry, get_list-retain_entry, get_list-insert,
}
use cognet.Edge.{Edge, EdgeId}
use cognet.NodeStates.Edges.{position, moved}

module _ {K : Type 0} ⦃e : Eq K⦄ (key : Edge → K) where
  abbrev pub at_key : K → EdgeId → Edge → Bool
  at_key k id edge = key edge == k

  -- Under each key stand, without repetition, the ids of exactly the edges with that key.
  pub record IsIndexed (index : HashMap K (List EdgeId)) (edges : HashMap EdgeId Edge)
      : Type 0 where
    pub exact :
        (k : K) (id : EdgeId) → contains (get_list index k) id ≡ holds_at (at_key k) edges id
    pub nodup : (k : K) → IsNodup (get_list index k)

  pub push-IsIndexed :
      {index : HashMap K (List EdgeId)} {edges : HashMap EdgeId Edge} (id : EdgeId) (edge : Edge)
      → IsIndexed index edges
      → HashMap.get edges id ≡ none
      → IsIndexed (push_entry index (key edge) id) (HashMap.insert edges id edge)
  push-IsIndexed {index} {edges} id edge w fresh = record {
    exact = λ k j. ground (
      arith,
      contains-push_entry index (key edge) id k j,
      get-insert edges id edge j,
      w.exact k j,
      nat_beq_iff id j,
    );
    nodup = λ k. ground (
      arith,
      get_list-push_entry index (key edge) id k,
      w.nodup k,
      w.exact k id,
      IsNodup-append (get_list index k) id,
    );
  }

  pub retain-IsIndexed :
      {index : HashMap K (List EdgeId)} {edges : HashMap EdgeId Edge} (id : EdgeId) (edge : Edge)
      → IsIndexed index edges
      → HashMap.get edges id ≡ some edge
      → IsIndexed (retain_entry index (key edge) id) (HashMap.remove edges id)
  retain-IsIndexed {index} {edges} id edge w found = record {
    exact = λ k j. ground (
      arith,
      contains-retain_entry index (key edge) id k j,
      get-remove edges id j,
      w.exact k j,
      nat_beq_iff id j,
    );
    nodup = λ k. ground (
      arith,
      get_list-retain_entry index (key edge) id k,
      w.nodup k,
      IsNodup-without id (get_list index k),
    );
  }

  pub map-IsIndexed :
      {index : HashMap K (List EdgeId)} {edges : HashMap EdgeId Edge} (f : Edge → Edge)
      → IsIndexed index edges
      → ((edge : Edge) → key (f edge) ≡ key edge)
      → IsIndexed index (HashMap.map_values f edges)
  map-IsIndexed {index} {edges} f w same = record {
    exact = λ k j. elim (Option-cases (HashMap.get edges j)) [
      | inl h ↦ ground (arith, get-map_values f edges j, w.exact k j)
      | inr (edge, h) ↦ ground (arith, get-map_values f edges j, w.exact k j, same edge)
    ];
    nodup = w.nodup;
  }

-- A reordering of a list without repetitions.
without-absent : (l : List EdgeId) (id : EdgeId) → contains l id ≡ false → without id l ≡ l
without-absent [] id h = refl
without-absent (x ∷ xs) id h = ground (arith, without-absent xs id)

remove_at-position :
    (l : List EdgeId) (id : EdgeId) (i : ℕ)
    → IsNodup l
    → position id l ≡ some i
    → remove_at l i ≡ without id l
unfolding position
remove_at-position [] id i n h = refl
remove_at-position (x ∷ xs) id zero n h = ground (arith, without-absent xs id, nat_beq_iff x id)
remove_at-position (x ∷ xs) id (suc i) n h = elim (Option-cases (position id xs)) [
  | inl e ↦ absurd (ground arith)
  | inr (m, e) ↦ ground (arith, remove_at-position xs id i n.1, nat_beq_iff x id)
]

contains-insert_at :
    (l : List EdgeId) (i : ℕ) (id j : EdgeId)
    → contains (insert_at l i id) j ≡ ((id == j) || contains l j)
contains-insert_at l zero id j = refl
contains-insert_at [] (suc i) id j = refl
contains-insert_at (x ∷ xs) (suc i) id j = ground (arith, contains-insert_at xs i id j)

IsNodup-insert_at :
    (l : List EdgeId) (i : ℕ) (id : EdgeId)
    → IsNodup l
    → contains l id ≡ false
    → IsNodup (insert_at l i id)
IsNodup-insert_at l zero id n h = (h, n)
IsNodup-insert_at [] (suc i) id n h = (h, n)
IsNodup-insert_at (x ∷ xs) (suc i) id n h = ground (
  arith,
  IsNodup-insert_at xs i id n.1,
  contains-insert_at xs i id x,
  nat_beq_iff id x,
  nat_beq_iff x id,
)

position-contains :
    (l : List EdgeId) (id : EdgeId) (i : ℕ) → position id l ≡ some i → contains l id ≡ true
unfolding position
position-contains [] id i h = absurd (cc h)
position-contains (x ∷ xs) id i h = elim (Option-cases (position id xs)) [
  | inl e ↦ ground arith
  | inr (m, e) ↦ ground (arith, position-contains xs id m e)
]

-- Moving an edge within its list keeps the list's members, and repeats none.
pub contains-moved :
    (l : List EdgeId) (id : EdgeId) (i n : ℕ) (j : EdgeId)
    → IsNodup l
    → position id l ≡ some i
    → contains (moved l id i n) j ≡ contains l j
unfolding moved
contains-moved l id i n j d h = ground (
  arith,
  contains-insert_at (remove_at l i) (min n (length (remove_at l i))) id j,
  remove_at-position l id i d h,
  contains-without id l j,
  position-contains l id i h,
  nat_beq_iff id j,
)

pub IsNodup-moved :
    (l : List EdgeId) (id : EdgeId) (i n : ℕ)
    → IsNodup l
    → position id l ≡ some i
    → IsNodup (moved l id i n)
unfolding moved
IsNodup-moved l id i n d h = rw (remove_at-position l id i d h) (
    IsNodup-insert_at (without id l) (min n (length (without id l))) id (IsNodup-without id l d)
      (ground (arith, contains-without id l id, nat_beq_iff id id)))

module _ {K : Type 0} ⦃e : Eq K⦄ (key : Edge → K) where
  pub moved-IsIndexed :
      {index : HashMap K (List EdgeId)} {edges : HashMap EdgeId Edge} (k : K) (id : EdgeId)
      (i n : ℕ)
      → IsIndexed key index edges
      → position id (get_list index k) ≡ some i
      → IsIndexed key (HashMap.insert index k (moved (get_list index k) id i n)) edges
  moved-IsIndexed {index} {edges} k id i n w h = record {
    exact = λ j x. ground (
      arith,
      get_list-insert index k (moved (get_list index k) id i n) j,
      contains-moved (get_list index k) id i n x (w.nodup k) h,
      w.exact j x,
      e.beq_iff k j,
    );
    nodup = λ j. ground (
      arith,
      get_list-insert index k (moved (get_list index k) id i n) j,
      IsNodup-moved (get_list index k) id i n (w.nodup k) h,
      w.nodup j,
    );
  }
