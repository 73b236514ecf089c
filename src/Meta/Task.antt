-- ===== src/Meta/Task.antt =====
-- SubAgentTask and the adjacency of DependencyGraph (py/src/lg_orch/meta_graph.py).
-- The graph's `_tasks` are the scheduler's task objects, shared by every clone: the statuses stand
-- in the scheduler's state, and the graph keeps the ids alone. Timestamps and the payloads
-- `input_state` and `result` decide nothing in the graph and are left out.
use lula.Prelude.{
  ℕ, ◌<◌, String, length, ◌≡◌, Bool, true, false, ◌&&◌, ◌||◌, Option, none, some, List, [], ◌∷◌,
  str_eq, arith, if◌then◌else◌,
}
use lula.Prelude.Members.{contains, IsDistinct, IsSubset, IsDistinct-covers}

pub data TaskStatus : Type 0 where
  pending running success failed skipped : TaskStatus

pub record SubAgentTask : Type 0 where
  pub task_id : String
  pub description : String
  pub depends_on : List String
  pub status : TaskStatus
  pub error : Option String

pub record DependencyPatch : Type 0 where
  pub add_edges : List (String × String)
  pub remove_edges : List (String × String)

-- `_depends_on`, in its order of insertion.
abbrev pub Adjacency : Type 0
Adjacency = List (String × List String)

pub record DependencyGraph : Type 0 where
  pub task_ids : List String
  pub id_set : List String
  pub depends_on : Adjacency

-- The messages of the ValueErrors that the class raises.
pub data GraphError : Type 0 where
  duplicate_ids : GraphError
  unknown_dependency : (task_id dep : String) → GraphError
  cycle_detected : GraphError
  unknown_task : String → GraphError
  -- The bound on the rounds of the model's loop ran out: no error of the source.
  out_of_rounds : GraphError

-- `task` lists `dep` among its dependencies.
unfoldable pub depends : Adjacency → String → String → Bool
depends [] task dep = false
depends ((k, deps) ∷ rest) task dep = (str_eq k task && contains dep deps) || depends rest task dep

-- `_depends_on.get(task)`
unfoldable pub deps_of? : Adjacency → String → Option (List String)
deps_of? [] task = none
deps_of? ((k, deps) ∷ rest) task = if str_eq k task then some deps else deps_of? rest task

-- The keys of `_depends_on`.
unfoldable pub keys_of : Adjacency → List String
keys_of [] = []
keys_of ((k, deps) ∷ rest) = k ∷ keys_of rest

pub keys_of-depends :
    (adj : Adjacency) (t d : String) → depends adj t d ≡ true → contains t (keys_of adj) ≡ true
unfolding depends keys_of contains
keys_of-depends [] t d h = cc
keys_of-depends ((k, deps) ∷ rest) t d h = ground (arith, keys_of-depends rest t d)

-- The ids are distinct, and are the keys of the mapping; the set holds just these, in any order.
pub record IsWellFormed (g : DependencyGraph) : Type 0 where
  pub tasks_distinct : IsDistinct g.task_ids
  pub ids_distinct : IsDistinct g.id_set
  pub size : length g.id_set ≡ length g.task_ids
  pub in_set : IsSubset g.task_ids g.id_set
  pub keys : keys_of g.depends_on ≡ g.task_ids

pub keys_known :
    (g : DependencyGraph)
    → IsWellFormed g
    → (t d : String) → depends g.depends_on t d ≡ true
    → contains t g.id_set ≡ true
keys_known g w t d h = w.in_set t (rw w.keys at (keys_of-depends g.depends_on t d h))

pub id_in_keys :
    (g : DependencyGraph)
    → IsWellFormed g
    → (t : String) → contains t g.id_set ≡ true
    → contains t (keys_of g.depends_on) ≡ true
id_in_keys g w t h =
    rw w.keys
      (IsDistinct-covers g.task_ids g.id_set w.tasks_distinct w.in_set (omega (arith, w.size)) t h)

-- Every dependency is a task of the graph, and a rank falls along every edge: there is no cycle.
pub record IsDag (ids : List String) (adj : Adjacency) : Type 0 where
  pub closed : (t d : String) → depends adj t d ≡ true → contains d ids ≡ true
  pub rank : String → ℕ
  pub descends : (t d : String) → depends adj t d ≡ true → rank d < rank t

-- What the class keeps of each graph.
pub record IsValid (g : DependencyGraph) : Type 0 where
  pub formed : IsWellFormed g
  pub dag : IsDag g.id_set g.depends_on
