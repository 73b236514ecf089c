-- ===== src/Meta/Edges/Patch.antt =====
-- What a dependency patch of a finished task does to the live graph.
use lula.Prelude.{
  ℕ, ◌∙◌, ap, ltb, eq_iff, count_if, ◌||◌, String, ◌≡◌, ◌<◌, ◌⊎◌, refl, Bool, true, false, Option,
  none, some, List, [], ◌∷◌, arith, inl, inr,
}
use lula.Prelude.Members.{contains}
use lula.Meta.Task.{
  deps_of?, DependencyPatch, DependencyGraph, GraphError, unknown_dependency, cycle_detected,
  duplicate_ids, unknown_task, out_of_rounds, depends, IsValid,
}
use lula.Meta.Edges.{
  with_edge, add_edge, remove_edge, remove_all, add_all, or_next, swap_in, apply_patch, RawPatch,
  absent, wrong_type, patch, maybe_raw, maybe_apply_patch,
}
use lula.Meta.Edges.Listings.{listings, naming, listings-remove_all, depends-eq-listings}
use lula.Meta.Edges.Change.{
  Added, add_edge-Added, add_edge-id_set, depends-with_edge, remove_listed-id_set,
  remove_edge-IsValid,
}

remove_all-IsValid :
    (g : DependencyGraph) (es : List (String × String)) → IsValid g → IsValid (remove_all g es)
unfolding remove_all
remove_all-IsValid g [] v = v
remove_all-IsValid g ((from, to) ∷ es) v =
    remove_all-IsValid (remove_edge g from to) es (remove_edge-IsValid g from to v)

remove_all-id_set :
    (g : DependencyGraph) (es : List (String × String)) → (remove_all g es).id_set ≡ g.id_set
unfolding remove_all remove_edge
remove_all-id_set g [] = refl
remove_all-id_set g ((from, to) ∷ es) =
    remove_all-id_set (remove_edge g from to) es
    ∙ remove_listed-id_set g from to (deps_of? g.depends_on to)

-- A valid graph on these tasks can have these edges: both ends are known, and a rank falls along each.
pub record CanHold (ids : List String) (edge : String → String → Bool) : Type 0 where
  pub known_task : (t d : String) → edge t d ≡ true → contains t ids ≡ true
  pub known_dependency : (t d : String) → edge t d ≡ true → contains d ids ≡ true
  pub rank : String → ℕ
  pub descends : (t d : String) → edge t d ≡ true → rank d < rank t

fewer-CanHold :
    (ids ids' : List String) (edge edge' : String → String → Bool)
    → ids' ≡ ids
    → ((t d : String) → edge' t d ≡ true → edge t d ≡ true)
    → CanHold ids edge
    → CanHold ids' edge'
fewer-CanHold ids ids' edge edge' same sub o = record {
  known_task = λ t d e. rw same (o.known_task t d (sub t d e));
  known_dependency = λ t d e. rw same (o.known_dependency t d (sub t d e));
  rank = o.rank;
  descends = λ t d e. o.descends t d (sub t d e);
}

abbrev with_all : DependencyGraph → List (String × String) → String → String → Bool
with_all g es t d = depends g.depends_on t d || ltb 0 (naming es t d)

abbrev AllAdded :
    DependencyGraph → List (String × String) → DependencyGraph × Option GraphError → Type 0
AllAdded g es (h, none) =
    IsValid h
    × (h.id_set ≡ g.id_set)
    × ((t d : String) → depends h.depends_on t d ≡ with_all g es t d)
AllAdded g es (h, some e) = ¬ CanHold g.id_set (with_all g es)

-- An edge that add_edge refuses is in no valid graph with the edges there are.
refused-CanHold :
    (g h : DependencyGraph) (from to : String) (es : List (String × String)) (e : GraphError)
    → IsValid g
    → Added g from to (h, some e)
    → ¬ CanHold g.id_set (with_all g ((from, to) ∷ es))
unfolding naming count_if
refused-CanHold g h from to es (unknown_task x) v a o =
    let asked : with_all g ((from, to) ∷ es) to from ≡ true =
      ground (arith, eq_iff to to, eq_iff from from) in
    elim a.2 [
      | inl p ↦ cc (a.1, ap (λ y. contains y g.id_set) p, o.known_dependency to from asked)
      | inr p ↦ cc (a.1, ap (λ y. contains y g.id_set) p, o.known_task to from asked)
    ]
refused-CanHold g h from to es cycle_detected v a o =
    let asked : with_all g ((from, to) ∷ es) to from ≡ true =
      ground (arith, eq_iff to to, eq_iff from from) in
    let sub : (t d : String)
        → depends (with_edge g from to).depends_on t d ≡ true
        → with_all g ((from, to) ∷ es) t d ≡ true =
      λ t d e.
        ground (arith, depends-with_edge g from to t d v.formed (o.known_task to from asked), e) in
    a.1 (record {
      closed = λ t d e. o.known_dependency t d (sub t d e);
      rank = o.rank;
      descends = λ t d e. o.descends t d (sub t d e);
    })
refused-CanHold g h from to es (unknown_dependency t d) v a o = a
refused-CanHold g h from to es duplicate_ids v a o = a
refused-CanHold g h from to es out_of_rounds v a o = a

or_next-AllAdded :
    (g : DependencyGraph) (from to : String) (es : List (String × String))
    (r : DependencyGraph × Option GraphError)
    (k : DependencyGraph → DependencyGraph × Option GraphError)
    → IsValid g
    → Added g from to r
    → r.0.id_set ≡ g.id_set
    → ((h : DependencyGraph) → IsValid h → AllAdded h es (k h))
    → AllAdded g ((from, to) ∷ es) (or_next r k)
unfolding naming count_if
or_next-AllAdded g from to es (h, some e) k v a same next = refused-CanHold g h from to es e v a
or_next-AllAdded g from to es (h, none) k v (vh, edges) same next = go (k h) (next h vh)
  where
    go :
        (s : DependencyGraph × Option GraphError) → AllAdded h es s → AllAdded g ((from, to) ∷ es) s
    go (i, some e) b = λ o. b (
        fewer-CanHold g.id_set h.id_set (with_all g ((from, to) ∷ es)) (with_all h es) same
          (λ t d f. ground (arith, edges t d, f)) o)
    go (i, none) (vi, ids, all) = (vi, ids ∙ same, λ t d. ground (arith, all t d, edges t d))

add_all-AllAdded :
    (g : DependencyGraph) (es : List (String × String)) → IsValid g → AllAdded g es (add_all g es)
unfolding add_all naming count_if
add_all-AllAdded g [] v = (v, refl, λ t d. ground arith)
add_all-AllAdded g ((from, to) ∷ es) v =
    or_next-AllAdded g from to es (add_edge g from to) (λ h. add_all h es) v
      (add_edge-Added g from to v) (add_edge-id_set g from to) (λ h vh. add_all-AllAdded h es vh)

-- Whether a patch asks for an edge: it adds the edge, or the task lists the dependency more often than
-- the patch removes it.
pub asks_for : DependencyGraph → DependencyPatch → String → String → Bool
asks_for live p t d =
    ltb (naming p.remove_edges t d) (listings live.depends_on t d) || ltb 0 (naming p.add_edges t d)

-- The patch is refused, where no valid graph on the same tasks has the edges asked for, or carried out.
abbrev pub Patched : DependencyGraph → DependencyPatch → DependencyGraph → Type 0
Patched live p g =
    ((g ≡ live) × (¬ CanHold live.id_set (asks_for live p)))
    ⊎ (IsValid g
        × (g.id_set ≡ live.id_set)
        × ((t d : String) → depends g.depends_on t d ≡ asks_for live p t d))

abbrev taken_off : DependencyGraph → DependencyPatch → DependencyGraph
taken_off live p = remove_all live p.remove_edges

removed-edges :
    (live : DependencyGraph) (es : List (String × String)) (t d : String)
    → IsValid live
    → depends (remove_all live es).depends_on t d
      ≡ ltb (naming es t d) (listings live.depends_on t d)
removed-edges live es t d v = ground (
  arith,
  depends-eq-listings (remove_all live es) t d (remove_all-IsValid live es v).formed,
  listings-remove_all live es t d,
)

-- On a valid graph, a patch is applied whole or not at all. It is applied wherever it can be: then the
-- new graph is valid, on the same tasks, and has just the edges that the patch adds and those that its
-- removals leave, a removal taking off one occurrence of a dependency. Otherwise the live graph stays
-- as it was, and no valid graph on its tasks has those edges.
pub apply_patch-Patched :
    (live : DependencyGraph) (p : DependencyPatch)
    → IsValid live
    → Patched live p (apply_patch live p)
unfolding apply_patch asks_for
apply_patch-Patched live p v =
    go (add_all (taken_off live p) p.add_edges)
      (add_all-AllAdded (taken_off live p) p.add_edges (remove_all-IsValid live p.remove_edges v))
  where
    go :
        (r : DependencyGraph × Option GraphError)
        → AllAdded (taken_off live p) p.add_edges r
        → Patched live p (swap_in live r)
    go (g, some e) a = inl (
      refl,
      λ o. a (
          fewer-CanHold live.id_set (taken_off live p).id_set (asks_for live p)
            (with_all (taken_off live p) p.add_edges) (remove_all-id_set live p.remove_edges)
            (λ t d f. ground (arith, f, removed-edges live p.remove_edges t d v)) o),
    )
    go (g, none) (vg, ids, edges) = inr (
      vg,
      ids ∙ remove_all-id_set live p.remove_edges,
      λ t d. ground (arith, edges t d, removed-edges live p.remove_edges t d v),
    )

maybe_raw-IsValid :
    (live : DependencyGraph) (raw : RawPatch) → IsValid live → IsValid (maybe_raw live raw)
unfolding maybe_raw
maybe_raw-IsValid live absent v = v
maybe_raw-IsValid live wrong_type v = v
maybe_raw-IsValid live (patch p) v = elim (apply_patch-Patched live p v) [
  | inl e ↦ rw e.0 v
  | inr a ↦ a.0
]

-- The live graph stays valid whatever a task returns.
pub maybe_apply_patch-IsValid :
    (dynamic : Bool) (live : DependencyGraph) (raw : RawPatch)
    → IsValid live
    → IsValid (maybe_apply_patch dynamic live raw)
unfolding maybe_apply_patch
maybe_apply_patch-IsValid true live raw v = maybe_raw-IsValid live raw v
maybe_apply_patch-IsValid false live raw v = v
