-- ===== src/Meta/Edges/Adjacent.antt =====
-- How a change of one entry shows in `depends`.
use lula.Prelude.{
  String, ◌≡◌, refl, true, false, List, [], ◌∷◌, ◌++◌, str_eq, eq_iff, arith, if◌then◌else◌,
}
use lula.Prelude.Members.{contains, IsDistinct, remove_first, remove_first-snoc}
use lula.Meta.Task.{Adjacency, depends, deps_of?, keys_of, keys_of-depends}
use lula.Meta.Edges.{deps_at, update}

pub keys_of-update :
    (f : List String → List String) (t : String) (adj : Adjacency)
    → keys_of (update f t adj) ≡ keys_of adj
unfolding update keys_of
keys_of-update f t [] = refl
keys_of-update f t ((k, deps) ∷ rest) = ground (arith, keys_of-update f t rest)

-- With distinct keys there is one entry to look at.
pub depends-eq-contains :
    (adj : Adjacency) (t d : String)
    → IsDistinct (keys_of adj)
    → depends adj t d ≡ contains d (deps_at adj t)
unfolding depends deps_at deps_of? keys_of contains
depends-eq-contains [] t d h = refl
depends-eq-contains ((k, deps) ∷ rest) t d h =
    ground (arith, depends-eq-contains rest t d h.1, keys_of-depends rest t d, eq_iff k t)

pub depends-update :
    (f : List String → List String) (to : String) (adj : Adjacency) (t d : String)
    → IsDistinct (keys_of adj)
    → contains to (keys_of adj) ≡ true
    → depends (update f to adj) t d
      ≡ (if str_eq to t then contains d (f (deps_at adj to)) else depends adj t d)
unfolding depends deps_at deps_of? keys_of update contains
depends-update f to [] t d h m = cc
depends-update f to ((k, deps) ∷ rest) t d h m = ground (
  arith,
  depends-update f to rest t d h.1,
  keys_of-depends rest t d,
  eq_iff k to,
  eq_iff to t,
  eq_iff k t,
)

-- Taking off what was just appended gives the mapping back.
pub update-remove_first-append :
    (from to : String) (adj : Adjacency)
    → contains from (deps_at adj to) ≡ false
    → update (remove_first from) to (update (λ deps. deps ++ from ∷ []) to adj) ≡ adj
unfolding update deps_at deps_of?
update-remove_first-append from to [] h = refl
update-remove_first-append from to ((k, deps) ∷ rest) h =
    ground (arith, remove_first-snoc from deps, update-remove_first-append from to rest)
