-- ===== src/TopologicalSort/Rounds.antt =====
-- One round of the loop of `topological_sort`: the nodes of a level are popped and their neighbours
-- relaxed.
use cognet.Prelude.{
  ℕ, suc, ◌+◌, ◌-◌, ◌<◌, ◌≡◌, ◌↔◌, refl, ap, ◌∙◌, true, false, none, some, List, [], ◌∷◌, ◌++◌,
  arith, ◌==◌, if◌then◌else◌, contains, contains-append, without, contains-without, IsNodup,
  IsNodup-append, IsNodup-without, Option-cases, inl, inr, nat_eq, beq_refl,
}
use cognet.HashMap
use cognet.HashMap.{get-insert}
use cognet.ListMap.{get_list, get_list-remove}
use cognet.NodePath.{NodePath, path_eq}
use cognet.TopologicalSort.{Degrees, relax, process_level}
use cognet.TopologicalSort.Sums.{count, weight, minus, weight-without}

module _ (next : NodePath → List NodePath) where
  -- `live` are the nodes not popped, `queue` the popped level's rest with the queue, and `pending`
  -- the neighbours of the last popped node that are still to be relaxed
  pub record IsCounted (live queue pending : List NodePath) (m : Degrees) : Type 0 where
    pub live_nodup : IsNodup live
    pub queue_nodup : IsNodup queue
    pub lists : (u : NodePath) → contains live u ≡ true → get_list m.adj_list u ≡ next u
    pub degree :
        (v : NodePath) (d : ℕ)
        → HashMap.get m.in_degree v ≡ some d
        → d ≡ weight next live v + count v pending
    pub known :
        (v : NodePath) → contains live v ≡ true → (d : ℕ) × (HashMap.get m.in_degree v ≡ some d)
    pub waiting :
        (v : NodePath) (d : ℕ) → HashMap.get m.in_degree v ≡ some (suc d) → contains live v ≡ true
    pub ready :
        (v : NodePath)
        → (contains queue v ≡ true)
          ↔ ((contains live v ≡ true) × (HashMap.get m.in_degree v ≡ some 0))

  abbrev pub less : Degrees → NodePath → ℕ → Degrees
  less m n d = record m { in_degree = HashMap.insert m.in_degree n d }

  abbrev pub queued : ℕ → List NodePath → NodePath → List NodePath
  queued d queue n = if d == 0 then queue ++ n ∷ [] else queue

  -- `*deg -= 1` takes one from a number that is not zero
  pub degree-positive :
      (live queue : List NodePath) (n : NodePath) (ns : List NodePath) (m : Degrees) (d : ℕ)
      → IsCounted live queue (n ∷ ns) m
      → HashMap.get m.in_degree n ≡ some d
      → 0 < d
  degree-positive live queue n ns m d w h = ground (arith, w.degree n d h, beq_refl n)

  -- one neighbour
  pub relax_one :
      (live queue : List NodePath) (n : NodePath) (ns : List NodePath) (m : Degrees) (d : ℕ)
      → IsCounted live queue (n ∷ ns) m
      → HashMap.get m.in_degree n ≡ some d
      → IsCounted live (queued (d - 1) queue n) ns (less m n (d - 1))
  relax_one live queue n ns m d w h =
      let positive = degree-positive live queue n ns m d w h in
      let pred : d ≡ suc (d - 1) = omega arith in
      let is_live = w.waiting n (d - 1) (h ∙ ap some pred) in
      let fresh : contains queue n ≡ false = ground (arith, w.ready n) in
      record {
        live_nodup = w.live_nodup;
        queue_nodup = ground (arith, IsNodup-append queue n fresh w.queue_nodup, w.queue_nodup);
        lists = w.lists;
        degree = λ v k g. ground (
          arith,
          get-insert m.in_degree n (d - 1) v,
          path_eq.beq_iff n v,
          w.degree v k,
          w.degree n d h,
          beq_refl n,
        );
        known = λ v l. ground (arith, get-insert m.in_degree n (d - 1) v, w.known v l);
        waiting = λ v k g.
            ground (arith, get-insert m.in_degree n (d - 1) v, path_eq.beq_iff n v, w.waiting v k);
        ready = λ v. ground (
          arith,
          get-insert m.in_degree n (d - 1) v,
          path_eq.beq_iff n v,
          w.ready v,
          contains-append queue (n ∷ []) v,
        );
      }

  pub relax_skip :
      (live queue : List NodePath) (n : NodePath) (ns : List NodePath) (m : Degrees)
      → IsCounted live queue (n ∷ ns) m
      → HashMap.get m.in_degree n ≡ none
      → IsCounted live queue ns m
  relax_skip live queue n ns m w h = record {
    live_nodup = w.live_nodup;
    queue_nodup = w.queue_nodup;
    lists = w.lists;
    degree = λ v k g. ground (arith, path_eq.beq_iff n v, w.degree v k g);
    known = w.known;
    waiting = w.waiting;
    ready = w.ready;
  }

  pub queued-append :
      (d : ℕ) (level queue : List NodePath) (n : NodePath)
      → queued d (level ++ queue) n ≡ level ++ queued d queue n
  queued-append d [] queue n = refl
  queued-append d (u ∷ level) queue n = ground (arith, queued-append d level queue n)

  -- all neighbours of a popped node
  pub relax-IsCounted :
      (live level queue ns : List NodePath) (m : Degrees)
      → IsCounted live (level ++ queue) ns m
      → IsCounted live (level ++ (relax m queue ns).1) [] (relax m queue ns).0
  unfolding relax
  relax-IsCounted live level queue [] m w = w
  relax-IsCounted live level queue (n ∷ ns) m w = elim (Option-cases (HashMap.get m.in_degree n)) [
    | inl e ↦
        rw (e, relax)
          (relax-IsCounted live level queue ns m (relax_skip live (level ++ queue) n ns m w e))
    | inr (d, e) ↦
        rw (e, relax)
          (relax-IsCounted live level (queued (d - 1) queue n) ns (less m n (d - 1)) (
            rw (← queued-append (d - 1) level queue n)
              (relax_one live (level ++ queue) n ns m d w e)))
  ]

  abbrev pub popped : Degrees → NodePath → Degrees
  popped m u = record m { adj_list = HashMap.remove m.adj_list u }

  pub pop-IsCounted :
      (live queue : List NodePath) (u : NodePath) (m : Degrees)
      → IsCounted live (u ∷ queue) [] m
      → IsCounted (without u live) queue (get_list m.adj_list u) (popped m u)
  pop-IsCounted live queue u m w =
      let (here, zeroed) = (w.ready u).0 (ground (arith, beq_refl u)) in
      record {
        live_nodup = IsNodup-without u live w.live_nodup;
        queue_nodup = w.queue_nodup.1;
        lists = λ v l.
            ground (arith, w.lists v, get_list-remove m.adj_list u v, contains-without u live v);
        degree = λ v d g.
            ground (
              arith,
              w.degree v d g,
              w.lists u here,
              weight-without next live u v w.live_nodup here,
            );
        known = λ v l. w.known v (ground (arith, contains-without u live v));
        waiting = λ v d g.
            ground (arith, path_eq.beq_iff u v, w.waiting v d g, contains-without u live v);
        ready = λ v.
            ground
              (arith, path_eq.beq_iff u v, w.ready v, contains-without u live v, w.queue_nodup.0);
      }

  pub process_level-IsCounted :
      (live level queue : List NodePath) (m : Degrees)
      → IsCounted live (level ++ queue) [] m
      → let done = process_level m queue level in IsCounted (minus live level) done.1 [] done.0
  unfolding process_level
  process_level-IsCounted live [] queue m w = w
  process_level-IsCounted live (u ∷ level) queue m w =
      let ns = get_list m.adj_list u in
      let step =
        relax-IsCounted (without u live) level queue ns (popped m u)
          (pop-IsCounted live (level ++ queue) u m w) in
      let r = relax (popped m u) queue ns in
      process_level-IsCounted (without u live) level r.1 r.0 step
