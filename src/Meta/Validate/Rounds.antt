-- ===== src/Meta/Validate/Rounds.antt =====
-- The rounds of Kahn's algorithm: the invariant of the queue, and what the loop ends with.
use lula.Prelude.{
  ℕ, zero, suc, ◌+◌, ◌<◌, String, ◌≡◌, refl, ◌≢◌, true, false, ◌||◌, Option, some, List, [], ◌∷◌,
  ◌++◌, str_eq, eq_iff, if◌then◌else◌, arith, length, ◌⊎◌, length-append, inl, inr, Bool-cases,
  ◌==◌, count_if, str_eq_self,
}
use mathlib.Core.List.{append_assoc}
use lula.Prelude.Members.{
  contains, contains-append, IsDistinct, IsSubset, IsDistinct-length-le, IsDistinct-snoc,
}
use lula.Meta.Task.{Adjacency, depends}
use lula.Meta.Validate.{decrement, relax, drain}
use lula.Meta.Validate.Counts.{
  occurrences, open_count, edge_count, open_count-snoc, open_count-zero, edge_count-pos,
  contains→occurrences,
}

contains_push :
    (a d : String) (done queue : List String)
    → contains a (done ++ (queue ++ d ∷ [])) ≡ contains a (done ++ queue) || str_eq d a
unfolding contains
contains_push a d done queue = ground (
  arith,
  contains-append a done (queue ++ d ∷ []),
  contains-append a queue (d ∷ []),
  contains-append a done queue,
)

distinct-new :
    (done : List String) (a : String) (rest : List String)
    → IsDistinct (done ++ a ∷ rest)
    → contains a done ≡ false
unfolding contains
distinct-new [] a rest h = refl
distinct-new (x ∷ done) a rest h = ground (
  arith,
  distinct-new done a rest h.1,
  contains-append x done (a ∷ rest),
  eq_iff x a,
  str_eq_self a,
)

module _ (ids : List String) (adj : Adjacency) where
  -- `done` are the nodes taken off the queue, `left` what the inner loop has still to visit.
  pub record Inv (done queue : List String) (deg : String → ℕ) (left : List String) : Type 0 where
    pub distinct : IsDistinct (done ++ queue)
    pub within : IsSubset (done ++ queue) ids
    pub degree : (a : String) → deg a ≡ open_count done a adj + occurrences a left
    pub zero_in :
        (a : String) → contains a ids ≡ true → deg a ≡ 0 → contains a (done ++ queue) ≡ true
    pub in_zero : (a : String) → contains a (done ++ queue) ≡ true → deg a ≡ 0

  -- The finished nodes stand in an order in which dependencies come first.
  pub record Ranked (done : List String) : Type 0 where
    pub rank : String → ℕ
    pub below : (a : String) → contains a done ≡ true → rank a < length done
    pub deps_done :
        (a d : String)
        → contains a done ≡ true
        → depends adj a d ≡ true
        → (contains d done ≡ true) × (rank d < rank a)

  abbrev Keys : Type 0
  Keys = (a d : String) → depends adj a d ≡ true → contains a ids ≡ true

  module _ {done queue : List String} {deg : String → ℕ} {left : List String} (d : String)
      (known : contains d ids ≡ true) (inv : Inv done queue deg (d ∷ left)) where
    degree_pos : 0 < deg d
    unfolding count_if
    degree_pos = ground (arith, inv.degree d, str_eq_self d)

    fresh : contains d (done ++ queue) ≡ false
    fresh = elim (Bool-cases (contains d (done ++ queue))) [
      | inl e ↦ absurd (omega (arith, inv.in_zero d e, degree_pos))
      | inr e ↦ e
    ]

    degree_after : (a : String) → decrement deg d a ≡ open_count done a adj + occurrences a left
    unfolding decrement count_if
    degree_after a = ground (arith, inv.degree a)

    deg' : String → ℕ
    deg' = decrement deg d

    kept_in_zero : (a : String) → contains a (done ++ queue) ≡ true → deg' a ≡ 0
    unfolding deg' decrement
    kept_in_zero a m = ground (arith, inv.in_zero a m)

    moved : (a : String) → deg' a ≡ 0 → (deg a ≡ 0) ⊎ (str_eq d a ≡ true)
    unfolding deg' decrement
    moved a z = ground arith

    relax_pushed : decrement deg d d ≡ 0 → Inv done (queue ++ d ∷ []) (decrement deg d) left
    unfolding deg'
    relax_pushed z = record {
      distinct =
          rw (append_assoc done queue (d ∷ [])) at
            (IsDistinct-snoc d (done ++ queue) inv.distinct fresh);
      within = λ a m. ground (arith, inv.within a, contains_push a d done queue, eq_iff d a);
      degree = degree_after;
      zero_in = λ a k e. ground (arith, contains_push a d done queue, moved a e, inv.zero_in a k);
      in_zero = λ a m. ground (arith, contains_push a d done queue, kept_in_zero a, eq_iff d a);
    }

    relax_kept : decrement deg d d ≢ 0 → Inv done queue (decrement deg d) left
    unfolding deg'
    relax_kept nz = record {
      distinct = inv.distinct;
      within = inv.within;
      degree = degree_after;
      zero_in = λ a k e. ground (arith, moved a e, inv.zero_in a k, eq_iff d a);
      in_zero = kept_in_zero;
    }

  -- The inner loop keeps the invariant.
  relax-Inv :
      (done queue : List String) (deg : String → ℕ) (left : List String)
      → IsSubset left ids
      → Inv done queue deg left
      → Inv done (relax left deg queue).1 (relax left deg queue).0 []
  unfolding relax contains
  relax-Inv done queue deg [] sub inv = inv
  relax-Inv done queue deg (d ∷ left) sub inv = elim (Bool-cases (decrement deg d d == 0)) [
    | inl e ↦
        rw (e, relax)
          (relax-Inv done (queue ++ d ∷ []) (decrement deg d) left rest
            (relax_pushed d known inv (ground arith)))
    | inr e ↦
        rw (e, relax)
          (relax-Inv done queue (decrement deg d) left rest (relax_kept d known inv (ground arith)))
  ]
    where
      known : contains d ids ≡ true
      known = sub d (ground (arith, str_eq_self d))

      rest : IsSubset left ids
      rest a m = sub a (ground arith)

  module _ {done queue : List String} {deg : String → ℕ} (node : String)
      (inv : Inv done (node ∷ queue) deg []) where
    shift : (done ++ node ∷ []) ++ queue ≡ done ++ (node ∷ queue)
    shift = append_assoc done (node ∷ []) queue

    node_in : contains node (done ++ node ∷ queue) ≡ true
    unfolding contains
    node_in = ground (arith, contains-append node done (node ∷ queue), str_eq_self node)

    node_new : contains node done ≡ false
    node_new = distinct-new done node queue inv.distinct

    node_deps_done : (d : String) → depends adj node d ≡ true → contains d done ≡ true
    unfolding count_if
    node_deps_done d m =
        open_count-zero done node d adj (ground (arith, inv.degree node, inv.in_zero node node_in))
          m

    -- Taking a node off the queue leaves its dependents to visit.
    pop-Inv :
        (dependents : String → List String)
        → ((a : String) → occurrences a (dependents node) ≡ edge_count a node adj)
        → Inv (done ++ node ∷ []) queue deg (dependents node)
    unfolding count_if
    pop-Inv dependents counts = record {
      distinct = rw shift inv.distinct;
      within = rw shift inv.within;
      degree = λ a. omega (arith, inv.degree a, open_count-snoc done node a adj node_new, counts a);
      zero_in = rw shift inv.zero_in;
      in_zero = rw shift inv.in_zero;
    }

    pop_rank : (String → ℕ) → String → ℕ
    pop_rank rank a = if str_eq node a then length done else rank a

    pop-Ranked : Ranked done → Ranked (done ++ node ∷ [])
    unfolding contains pop_rank
    pop-Ranked r = record {
      rank = pop_rank r.rank;
      below = λ a m.
          ground
            (arith, contains-append a done (node ∷ []), r.below a, length-append done (node ∷ []));
      deps_done = λ a d m e. ground (
        arith,
        contains-append a done (node ∷ []),
        contains-append d done (node ∷ []),
        r.deps_done a d,
        node_deps_done d,
        eq_iff node a,
        eq_iff node d,
        node_new,
        r.below d,
      );
    }

  module _ (dependents : String → List String)
      (counts : (a d : String) → occurrences a (dependents d) ≡ edge_count a d adj) where
    dependents_known : Keys → (d : String) → IsSubset (dependents d) ids
    dependents_known keys d a m = keys a d (
        edge_count-pos a d adj (omega (arith, counts a d, contains→occurrences a (dependents d) m)))

    -- How the loop ends: it counts the nodes taken off, with nothing left in the queue.
    pub record Finished (result : Option ℕ) : Type 0 where
      pub done : List String
      pub deg : String → ℕ
      pub result_is : result ≡ some (length done)
      pub inv : Inv done [] deg []
      pub ranked : Ranked done

    -- With as many rounds as there are ids left, and one more, the loop ends by itself.
    pub drain-Finished :
        Keys
        → (rounds : ℕ) (done queue : List String) (deg : String → ℕ)
        → length ids < rounds + length done
        → Inv done queue deg []
        → Ranked done
        → Finished (drain rounds dependents deg queue (length done))
    unfolding drain
    drain-Finished keys zero done queue deg enough inv r = absurd (
        omega (
          arith,
          IsDistinct-length-le (done ++ queue) ids inv.distinct inv.within,
          length-append done queue,
        ))
    drain-Finished keys (suc rounds) done [] deg enough inv r = record {
      done = done;
      deg = deg;
      result_is = refl;
      inv = inv;
      ranked = r;
    }
    drain-Finished keys (suc rounds) done (node ∷ queue) deg enough inv r =
        let (deg', queue') = relax (dependents node) deg queue in
        let popped = pop-Inv node inv dependents (λ a. counts a node) in
        let after =
          relax-Inv (done ++ node ∷ []) queue deg (dependents node) (dependents_known keys node)
            popped in
        let longer : length (done ++ node ∷ []) ≡ suc (length done) =
          omega (arith, length-append done (node ∷ [])) in
        rw longer at (
          drain-Finished keys rounds (done ++ node ∷ []) queue' deg' (omega arith) after
            (pop-Ranked node inv r))
