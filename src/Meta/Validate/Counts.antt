-- ===== src/Meta/Validate/Counts.antt =====
-- What the tables of Kahn's algorithm count.
use lula.Prelude.{
  ℕ, suc, ◌+◌, ◌<◌, String, ◌≡◌, refl, true, false, not, List, [], ◌∷◌, ◌++◌, str_eq, eq_iff,
  if◌then◌else◌, count_if, str_eq_self, arith, count_if-append, inl, inr, Bool-cases,
}
use lula.Prelude.Members.{contains, contains-append}
use lula.Meta.Task.{Adjacency, depends}
use lula.Meta.Validate.{increment, append_at, Tables, count_deps, count_all, tables}

abbrev pub occurrences : String → List String → ℕ
occurrences a xs = count_if (λ x. str_eq x a) xs

-- The dependencies that are not yet in `done`.
abbrev pub open_deps : List String → List String → ℕ
open_deps done deps = count_if (λ d. not (contains d done)) deps

-- The same, over all entries of `task`.
pub open_count : List String → String → Adjacency → ℕ
open_count done task [] = 0
open_count done task ((k, deps) ∷ rest) =
    (if str_eq k task then open_deps done deps else 0) + open_count done task rest

pub edge_count : String → String → Adjacency → ℕ
edge_count task dep [] = 0
edge_count task dep ((k, deps) ∷ rest) =
    (if str_eq k task then occurrences dep deps else 0) + edge_count task dep rest

open_deps-nil-cons :
    (d : String) (deps : List String) → open_deps [] (d ∷ deps) ≡ suc (open_deps [] deps)
unfolding count_if contains
open_deps-nil-cons d deps = refl

in_degree-count_deps :
    (task a : String) (deps : List String) (t : Tables)
    → (count_deps task deps t).in_degree a
      ≡ t.in_degree a + (if str_eq task a then open_deps [] deps else 0)
unfolding count_deps count_if contains increment
in_degree-count_deps task a [] t = ground arith
in_degree-count_deps task a (dep ∷ deps) t = ground (
  arith,
  in_degree-count_deps task a deps (record {
    in_degree = increment t.in_degree task;
    dependents = append_at t.dependents dep task;
  }),
)

dependents-count_deps :
    (task a d : String) (deps : List String) (t : Tables)
    → occurrences a ((count_deps task deps t).dependents d)
      ≡ occurrences a (t.dependents d) + (if str_eq task a then occurrences d deps else 0)
unfolding count_deps count_if append_at
dependents-count_deps task a d [] t = ground arith
dependents-count_deps task a d (dep ∷ deps) t = ground (
  arith,
  dependents-count_deps task a d deps (record {
    in_degree = increment t.in_degree task;
    dependents = append_at t.dependents dep task;
  }),
  count_if-append (λ (x : String). str_eq x a) (t.dependents d) (task ∷ []),
)

-- Moving `d` to the finished nodes closes each edge to it.
open_deps-snoc :
    (done : List String) (d : String) (deps : List String)
    → contains d done ≡ false
    → open_deps done deps ≡ open_deps (done ++ d ∷ []) deps + occurrences d deps
unfolding count_if contains
open_deps-snoc done d [] h = refl
open_deps-snoc done d (x ∷ deps) h =
    ground
      (arith, open_deps-snoc done d deps, contains-append x done (d ∷ []), eq_iff x d, eq_iff d x)

pub open_count-snoc :
    (done : List String) (d task : String) (adj : Adjacency)
    → contains d done ≡ false
    → open_count done task adj ≡ open_count (done ++ d ∷ []) task adj + edge_count task d adj
unfolding open_count edge_count
open_count-snoc done d task [] h = refl
open_count-snoc done d task ((k, deps) ∷ rest) h =
    ground (arith, open_deps-snoc done d deps, open_count-snoc done d task rest)

open_deps-zero :
    (done : List String) (d : String) (deps : List String)
    → open_deps done deps ≡ 0
    → contains d deps ≡ true
    → contains d done ≡ true
unfolding count_if contains
open_deps-zero done d [] h m = cc
open_deps-zero done d (x ∷ deps) h m = ground (arith, eq_iff x d, open_deps-zero done d deps)

-- A task with no open dependency has all of its dependencies finished.
pub open_count-zero :
    (done : List String) (task d : String) (adj : Adjacency)
    → open_count done task adj ≡ 0
    → depends adj task d ≡ true
    → contains d done ≡ true
unfolding open_count depends
open_count-zero done task d [] h m = cc
open_count-zero done task d ((k, deps) ∷ rest) h m =
    ground (arith, open_deps-zero done d deps, open_count-zero done task d rest)

open_deps-closed :
    (done : List String) (deps : List String)
    → ((d : String) → contains d deps ≡ true → contains d done ≡ true)
    → open_deps done deps ≡ 0
unfolding count_if contains
open_deps-closed done [] h = refl
open_deps-closed done (x ∷ deps) h =
    ground (arith, h x, str_eq_self x, open_deps-closed done deps (λ d m. h d (later d m)))
  where
    later : (d : String) → contains d deps ≡ true → contains d (x ∷ deps) ≡ true
    later d m = ground arith

pub open_count-closed :
    (done : List String) (task : String) (adj : Adjacency)
    → ((d : String) → depends adj task d ≡ true → contains d done ≡ true)
    → open_count done task adj ≡ 0
unfolding open_count depends
open_count-closed done task [] h = refl
open_count-closed done task ((k, deps) ∷ rest) h = elim (Bool-cases (str_eq k task)) [
  | inl e ↦ ground (
    arith,
    open_deps-closed done deps (λ d m. h d (ground arith)),
    open_count-closed done task rest (λ d m. h d (ground arith)),
  )
  | inr e ↦ ground (arith, open_count-closed done task rest (λ d m. h d (ground arith)))
]

in_degree-count_all :
    (adj : Adjacency) (t : Tables) (a : String)
    → (count_all adj t).in_degree a ≡ t.in_degree a + open_count [] a adj
unfolding count_all open_count
in_degree-count_all [] t a = omega arith
in_degree-count_all ((k, deps) ∷ rest) t a =
    omega (arith, in_degree-count_all rest (count_deps k deps t) a, in_degree-count_deps k a deps t)

dependents-count_all :
    (adj : Adjacency) (t : Tables) (a d : String)
    → occurrences a ((count_all adj t).dependents d)
      ≡ occurrences a (t.dependents d) + edge_count a d adj
unfolding count_all edge_count
dependents-count_all [] t a d = omega arith
dependents-count_all ((k, deps) ∷ rest) t a d =
    omega (
      arith,
      dependents-count_all rest (count_deps k deps t) a d,
      dependents-count_deps k a d deps t,
    )

pub in_degree-tables :
    (adj : Adjacency) (a : String) → (tables adj).in_degree a ≡ open_count [] a adj
unfolding tables
in_degree-tables adj a =
    omega (arith, in_degree-count_all adj (record { in_degree = λ _. 0; dependents = λ _. [] }) a)

pub dependents-tables :
    (adj : Adjacency) (a d : String)
    → occurrences a ((tables adj).dependents d) ≡ edge_count a d adj
unfolding tables count_if
dependents-tables adj a d =
    omega
      (arith, dependents-count_all adj (record { in_degree = λ _. 0; dependents = λ _. [] }) a d)

edge_count-pos-deps :
    (dep : String) (deps : List String) → 0 < occurrences dep deps → contains dep deps ≡ true
unfolding count_if contains
edge_count-pos-deps dep [] h = elim h [ ]
edge_count-pos-deps dep (x ∷ deps) h = ground (arith, edge_count-pos-deps dep deps)

pub edge_count-pos :
    (a d : String) (adj : Adjacency) → 0 < edge_count a d adj → depends adj a d ≡ true
unfolding edge_count depends
edge_count-pos a d [] h = elim h [ ]
edge_count-pos a d ((k, deps) ∷ rest) h =
    ground (arith, edge_count-pos-deps d deps, edge_count-pos a d rest)

pub contains→occurrences :
    (a : String) (xs : List String) → contains a xs ≡ true → 0 < occurrences a xs
unfolding count_if contains
contains→occurrences a [] h = cc
contains→occurrences a (x ∷ xs) h = ground (arith, contains→occurrences a xs)
