-- ===== src/Meta/Edges/Change.antt =====
-- Adding and removing one edge of a valid graph.
use lula.Prelude.{
  String, ◌≡◌, refl, ap, ◌∙◌, ◌⊎◌, true, false, ◌&&◌, ◌||◌, Option, none, some, List, [], ◌∷◌, ◌++◌,
  arith, eq_iff, str_eq, if◌then◌else◌, Bool-cases, inl, inr,
}
use lula.Prelude.Members.{
  contains, contains-append, IsDistinct, remove_first, contains-remove_first,
  contains-remove_first-eq, remove_first_absent,
}
use lula.Meta.Task.{
  Adjacency, DependencyGraph, GraphError, unknown_dependency, cycle_detected, duplicate_ids,
  unknown_task, out_of_rounds, depends, deps_of?, keys_of, IsWellFormed, IsDag, IsValid, id_in_keys,
}
use lula.Meta.Validate.{validate}
use lula.Meta.Validate.Correct.{Explains, validate-Explains}
use lula.Meta.Edges.{
  deps_at, update, with_edge, roll_back, add_edge, listed, remove_listed, remove_edge,
}
use lula.Meta.Edges.Adjacent.{
  keys_of-update, depends-eq-contains, depends-update, update-remove_first-append,
}

pub keys-IsDistinct : (g : DependencyGraph) → IsWellFormed g → IsDistinct (keys_of g.depends_on)
keys-IsDistinct g w = rw w.keys w.tasks_distinct

update-IsWellFormed :
    (g : DependencyGraph) (f : List String → List String) (t : String)
    → IsWellFormed g
    → IsWellFormed (record g { depends_on = update f t g.depends_on })
update-IsWellFormed g f t w = record {
  tasks_distinct = w.tasks_distinct;
  ids_distinct = w.ids_distinct;
  size = w.size;
  in_set = w.in_set;
  keys = keys_of-update f t g.depends_on ∙ w.keys;
}

-- The edges of `g` and the new one.
pub depends-with_edge :
    (g : DependencyGraph) (from to t d : String)
    → IsWellFormed g
    → contains to g.id_set ≡ true
    → depends (with_edge g from to).depends_on t d
      ≡ depends g.depends_on t d || (str_eq to t && str_eq from d)
unfolding with_edge contains
depends-with_edge g from to t d w k = ground (
  arith,
  depends-update (λ (deps : List String). deps ++ from ∷ []) to g.depends_on t d
      (keys-IsDistinct g w) (id_in_keys g w to k),
  contains-append d (deps_at g.depends_on to) (from ∷ []),
  depends-eq-contains g.depends_on t d (keys-IsDistinct g w),
  eq_iff to t,
)

with_edge-IsWellFormed :
    (g : DependencyGraph) (from to : String) → IsWellFormed g → IsWellFormed (with_edge g from to)
unfolding with_edge
with_edge-IsWellFormed g from to w = update-IsWellFormed g (λ deps. deps ++ from ∷ []) to w

-- What add_edge has done: the new graph, and the error if it raised one.
abbrev pub Added : DependencyGraph → String → String → DependencyGraph × Option GraphError → Type 0
Added g from to (g', none) =
    IsValid g'
    × ((t d : String)
        → depends g'.depends_on t d ≡ depends g.depends_on t d || (str_eq to t && str_eq from d))
Added g from to (g', some (unknown_task x)) =
    (g' ≡ g) × (contains x g.id_set ≡ false) × ((x ≡ from) ⊎ (x ≡ to))
Added g from to (g', some cycle_detected) =
    (g' ≡ g) × (¬ IsDag g.id_set (with_edge g from to).depends_on)
Added g from to (g', some (unknown_dependency t d)) = ⊥
Added g from to (g', some duplicate_ids) = ⊥
Added g from to (g', some out_of_rounds) = ⊥

module _ (g : DependencyGraph) (from to : String) (v : IsValid g)
    (from_known : contains from g.id_set ≡ true) (to_known : contains to g.id_set ≡ true) where
  rolled_back :
      contains from (deps_at g.depends_on to) ≡ false
      → record g { depends_on = update (remove_first from) to (with_edge g from to).depends_on } ≡ g
  unfolding with_edge
  rolled_back fresh =
      ap (λ adj. record g { depends_on = adj })
        (update-remove_first-append from to g.depends_on fresh)

  dependencies_known :
      (t d : String)
      → depends (with_edge g from to).depends_on t d ≡ true
      → contains d g.id_set ≡ true
  dependencies_known t d m =
      ground
        (arith, depends-with_edge g from to t d v.formed to_known, v.dag.closed t d, eq_iff from d)

  roll_back-Added :
      (r : Option GraphError)
      → contains from (deps_at g.depends_on to) ≡ false
      → Explains g.id_set (with_edge g from to).depends_on r
      → Added g from to (roll_back (with_edge g from to) from to r)
  unfolding roll_back with_edge
  roll_back-Added none fresh h = (
    record { formed = with_edge-IsWellFormed g from to v.formed; dag = h },
    λ t d. depends-with_edge g from to t d v.formed to_known,
  )
  roll_back-Added (some cycle_detected) fresh h = (rolled_back fresh, h.1)
  roll_back-Added (some (unknown_dependency t d)) fresh h =
      ground (arith, h.1, dependencies_known t d h.0)
  roll_back-Added (some duplicate_ids) fresh h = absurd h
  roll_back-Added (some (unknown_task t)) fresh h = absurd h
  roll_back-Added (some out_of_rounds) fresh h = absurd h

  already-Added : contains from (deps_at g.depends_on to) ≡ true → Added g from to (g, none)
  already-Added old = (
    v,
    λ t d. ground (
      arith,
      depends-eq-contains g.depends_on t d (keys-IsDistinct g v.formed),
      eq_iff to t,
      eq_iff from d,
    ),
  )

-- On a valid graph add_edge either leaves a valid graph whose edges are the old ones and the new
-- one, or raises and leaves the graph as it was: for an id that is no task and is one of the two
-- given, or because the graph with the new edge has no ranking. It raises nothing else.
pub add_edge-Added :
    (g : DependencyGraph) (from to : String) → IsValid g → Added g from to (add_edge g from to)
unfolding add_edge
add_edge-Added g from to v = elim (Bool-cases (contains from g.id_set)) [
  | inr u ↦ rw (u, add_edge) (refl, u, inl refl)
  | inl f ↦ elim (Bool-cases (contains to g.id_set)) [
    | inr u ↦ rw (f, u, add_edge) (refl, u, inr refl)
    | inl t ↦ elim (Bool-cases (contains from (deps_at g.depends_on to))) [
      | inl old ↦ rw (f, t, old, add_edge) (already-Added g from to v f t old)
      | inr new ↦
          rw (f, t, new, add_edge)
            (roll_back-Added g from to v f t (validate (with_edge g from to)) new
              (validate-Explains (with_edge g from to) (with_edge-IsWellFormed g from to v.formed)))
    ]
  ]
]

roll_back-id_set :
    (g : DependencyGraph) (from to : String) (r : Option GraphError)
    → (roll_back g from to r).0.id_set ≡ g.id_set
unfolding roll_back
roll_back-id_set g from to none = refl
roll_back-id_set g from to (some e) = refl

pub add_edge-id_set :
    (g : DependencyGraph) (from to : String) → (add_edge g from to).0.id_set ≡ g.id_set
unfolding add_edge with_edge
add_edge-id_set g from to =
    ground (arith, roll_back-id_set (with_edge g from to) from to (validate (with_edge g from to)))

-- Whatever add_edge does, the graph it leaves is valid.
pub add_edge-IsValid :
    (g : DependencyGraph) (from to : String) → IsValid g → IsValid (add_edge g from to).0
add_edge-IsValid g from to v =
    go (add_edge g from to).0 (add_edge g from to).1 (add_edge-Added g from to v)
  where
    go : (h : DependencyGraph) (r : Option GraphError) → Added g from to (h, r) → IsValid h
    go h none p = p.0
    go h (some (unknown_task x)) p = rw p.0 v
    go h (some cycle_detected) p = rw p.0 v
    go h (some (unknown_dependency t d)) p = absurd p
    go h (some duplicate_ids) p = absurd p
    go h (some out_of_rounds) p = absurd p

deps_of?-in_keys :
    (adj : Adjacency) (t : String) (deps : List String)
    → deps_of? adj t ≡ some deps
    → contains t (keys_of adj) ≡ true
unfolding deps_of? keys_of contains
deps_of?-in_keys [] t deps h = cc
deps_of?-in_keys ((k, xs) ∷ rest) t deps h = ground (arith, deps_of?-in_keys rest t deps)

module _ (g : DependencyGraph) (from to t d : String) (w : IsWellFormed g) where
  depends-remove_listed :
      (r : Option (List String))
      → deps_of? g.depends_on to ≡ r
      → depends (remove_listed g from to r).depends_on t d ≡ (
          if str_eq to t && str_eq from d
          then contains from (remove_first from (listed r))
          else depends g.depends_on t d)
  unfolding remove_listed deps_at contains remove_first
  depends-remove_listed none e = ground (
    arith,
    depends-eq-contains g.depends_on t d (keys-IsDistinct g w),
    eq_iff to t,
    eq_iff from d,
  )
  depends-remove_listed (some deps) e = ground (
    arith,
    depends-eq-contains g.depends_on t d (keys-IsDistinct g w),
    depends-update (remove_first from) to g.depends_on t d (keys-IsDistinct g w)
        (deps_of?-in_keys g.depends_on to deps e),
    contains-remove_first-eq from d deps,
    remove_first_absent from deps,
    eq_iff to t,
    eq_iff from d,
  )

remove_listed-IsWellFormed :
    (g : DependencyGraph) (from to : String) (r : Option (List String))
    → IsWellFormed g
    → IsWellFormed (remove_listed g from to r)
unfolding remove_listed
remove_listed-IsWellFormed g from to none w = w
remove_listed-IsWellFormed g from to (some deps) w = elim (Bool-cases (contains from deps)) [
  | inl e ↦ rw e (update-IsWellFormed g (remove_first from) to w)
  | inr e ↦ rw e w
]

pub remove_listed-id_set :
    (g : DependencyGraph) (from to : String) (r : Option (List String))
    → (remove_listed g from to r).id_set ≡ g.id_set
unfolding remove_listed
remove_listed-id_set g from to none = refl
remove_listed-id_set g from to (some deps) = ground arith

-- On a well-formed graph, an edge is there after remove_edge exactly if it was there and is not the
-- one named, or it is the one named and the task lists that dependency more than once: one
-- occurrence alone is removed.
pub depends-remove_edge :
    (g : DependencyGraph) (from to t d : String)
    → IsWellFormed g
    → depends (remove_edge g from to).depends_on t d ≡ (
        if str_eq to t && str_eq from d
        then contains from (remove_first from (deps_at g.depends_on to))
        else depends g.depends_on t d)
unfolding remove_edge deps_at
depends-remove_edge g from to t d w =
    depends-remove_listed g from to t d w (deps_of? g.depends_on to) refl

fewer :
    (g : DependencyGraph) (from to t d : String)
    → IsWellFormed g
    → depends (remove_edge g from to).depends_on t d ≡ true
    → depends g.depends_on t d ≡ true
fewer g from to t d w h = ground (
  arith,
  depends-remove_edge g from to t d w,
  depends-eq-contains g.depends_on t d (keys-IsDistinct g w),
  eq_iff to t,
  eq_iff from d,
  contains-remove_first from from (deps_at g.depends_on to),
)

pub remove_edge-IsValid :
    (g : DependencyGraph) (from to : String) → IsValid g → IsValid (remove_edge g from to)
unfolding remove_edge
remove_edge-IsValid g from to v =
    let r = deps_of? g.depends_on to in
    record {
      formed = remove_listed-IsWellFormed g from to r v.formed;
      dag = record {
        closed = λ t d e.
            rw (remove_listed-id_set g from to r)
              (v.dag.closed t d (fewer g from to t d v.formed e));
        rank = v.dag.rank;
        descends = λ t d e. v.dag.descends t d (fewer g from to t d v.formed e);
      };
    }
