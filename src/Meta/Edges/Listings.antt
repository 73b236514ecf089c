-- ===== src/Meta/Edges/Listings.antt =====
-- How often a task lists a dependency, and how removals change that.
use lula.Prelude.{
  ℕ, ◌-◌, ◌∙◌, ap, ltb, str_eq, eq_iff, count_if, if◌then◌else◌, ◌&&◌, Bool-cases, String, ◌≡◌,
  refl, false, Option, none, some, List, [], ◌∷◌, arith, inl, inr,
}
use lula.Prelude.Members.{contains, remove_first}
use lula.Meta.Task.{Adjacency, DependencyGraph, deps_of?, depends, IsWellFormed}
use lula.Meta.Edges.Adjacent.{depends-eq-contains}
use lula.Meta.Edges.Change.{keys-IsDistinct}
use lula.Meta.Edges.{deps_at, listed, update, remove_listed, remove_edge, remove_all}

pub occurs : String → List String → ℕ
occurs d xs = count_if (λ x. str_eq x d) xs

-- How often a task lists a dependency.
pub listings : Adjacency → String → String → ℕ
listings adj t d = occurs d (deps_at adj t)

-- How often the edges of a patch name the dependency of a task.
unfoldable pub naming : List (String × String) → String → String → ℕ
naming es t d = count_if (λ e. str_eq e.1 t && str_eq e.0 d) es

occurs-remove_first :
    (a d : String) (xs : List String)
    → occurs d (remove_first a xs) ≡ occurs d xs - (if str_eq a d then 1 else 0)
unfolding occurs remove_first count_if
occurs-remove_first a d [] = ground arith
occurs-remove_first a d (x ∷ xs) =
    ground (arith, occurs-remove_first a d xs, eq_iff x a, eq_iff a d, eq_iff x d)

pub contains-occurs : (d : String) (xs : List String) → contains d xs ≡ ltb 0 (occurs d xs)
unfolding occurs contains count_if
contains-occurs d [] = refl
contains-occurs d (x ∷ xs) = ground (arith, contains-occurs d xs)

listings-cons :
    (k : String) (deps : List String) (rest : Adjacency) (t d : String)
    → listings ((k, deps) ∷ rest) t d ≡ (if str_eq k t then occurs d deps else listings rest t d)
unfolding listings deps_at deps_of?
listings-cons k deps rest t d = elim (Bool-cases (str_eq k t)) [
  | inl e ↦ rw e refl
  | inr e ↦ rw e refl
]

no_listing : (t d : String) (n : ℕ) → listings [] t d ≡ listings [] t d - n
unfolding listings occurs deps_at deps_of? count_if
no_listing t d n = omega arith

listed_at :
    (g : DependencyGraph) (from to : String) (r : Option (List String))
    → deps_of? g.depends_on to ≡ r
    → contains from (listed r) ≡ false
    → listings g.depends_on to from ≡ 0
unfolding listings deps_at
listed_at g from to r e f =
    ap (λ x. occurs from (listed x)) e ∙ ground (arith, contains-occurs from (listed r), f)

unlisted_edge :
    (g : DependencyGraph) (from to t d : String)
    → listings g.depends_on to from ≡ 0
    → listings g.depends_on t d
      ≡ listings g.depends_on t d - (if str_eq to t && str_eq from d then 1 else 0)
unlisted_edge g from to t d z = elim (Bool-cases (str_eq to t && str_eq from d)) [
  | inr e ↦ rw e (omega arith)
  | inl e ↦
      let p : to ≡ t = (eq_iff to t).0 (ground (arith, e)) in
      let q : from ≡ d = (eq_iff from d).0 (ground (arith, e)) in
      rw e (
        omega
          (arith, ap (λ x. listings g.depends_on x d) p, ap (λ x. listings g.depends_on to x) q, z))
]

listings-update :
    (from to : String) (adj : Adjacency) (t d : String)
    → listings (update (remove_first from) to adj) t d
      ≡ listings adj t d - (if str_eq to t && str_eq from d then 1 else 0)
unfolding update
listings-update from to [] t d = no_listing t d _
listings-update from to ((k, deps) ∷ rest) t d = elim (Bool-cases (str_eq k to)) [
  | inl e ↦ rw e (
      ground (
        arith,
        e,
        listings-cons k (remove_first from deps) rest t d,
        listings-cons k deps rest t d,
        occurs-remove_first from d deps,
        eq_iff k to,
        eq_iff k t,
        eq_iff to t,
      ))
  | inr e ↦ rw e (
      ground (
        arith,
        e,
        listings-cons k deps (update (remove_first from) to rest) t d,
        listings-cons k deps rest t d,
        listings-update from to rest t d,
        eq_iff k to,
        eq_iff k t,
        eq_iff to t,
      ))
]

-- One occurrence of the named edge is gone, if there was one.
listings-remove_listed :
    (g : DependencyGraph) (from to t d : String) (r : Option (List String))
    → deps_of? g.depends_on to ≡ r
    → listings (remove_listed g from to r).depends_on t d
      ≡ listings g.depends_on t d - (if str_eq to t && str_eq from d then 1 else 0)
unfolding remove_listed contains
listings-remove_listed g from to t d none e =
    unlisted_edge g from to t d (listed_at g from to none e refl)
listings-remove_listed g from to t d (some deps) e = elim (Bool-cases (contains from deps)) [
  | inl f ↦ rw f (listings-update from to g.depends_on t d)
  | inr f ↦ rw f (unlisted_edge g from to t d (listed_at g from to (some deps) e f))
]

listings-remove_edge :
    (g : DependencyGraph) (from to t d : String)
    → listings (remove_edge g from to).depends_on t d
      ≡ listings g.depends_on t d - (if str_eq to t && str_eq from d then 1 else 0)
unfolding remove_edge
listings-remove_edge g from to t d =
    listings-remove_listed g from to t d (deps_of? g.depends_on to) refl

-- The removals of a patch take off as many occurrences as they name.
pub listings-remove_all :
    (g : DependencyGraph) (es : List (String × String)) (t d : String)
    → listings (remove_all g es).depends_on t d ≡ listings g.depends_on t d - naming es t d
unfolding remove_all naming count_if
listings-remove_all g [] t d = omega arith
listings-remove_all g ((from, to) ∷ es) t d =
    ground (
      arith,
      listings-remove_all (remove_edge g from to) es t d,
      listings-remove_edge g from to t d,
    )

pub depends-eq-listings :
    (g : DependencyGraph) (t d : String)
    → IsWellFormed g
    → depends g.depends_on t d ≡ ltb 0 (listings g.depends_on t d)
unfolding listings
depends-eq-listings g t d w =
    depends-eq-contains g.depends_on t d (keys-IsDistinct g w)
    ∙ contains-occurs d (deps_at g.depends_on t)
