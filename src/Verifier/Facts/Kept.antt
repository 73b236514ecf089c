-- ===== src/Verifier/Facts/Kept.antt =====
-- Which facts are kept.
use lula.Prelude.{
  ℕ, ◌≤◌, ◌≡◌, refl, Bool, true, false, not, List, [], ◌∷◌, ◌++◌, arith, keep, count_if,
  count_if-append,
}
use lula.Prelude.Texts.{strip}
use lula.Prelude.Ranked.{IsBest, sort-IsBest}
use lula.Prelude.Ranked.Keys.{le_int, le_int_total, le_int_trans, le_pair_total, le_pair_trans}
use lula.Verifier.Facts.{
  Fact, fact_key, fact_le, Failure, next_fact, has_fingerprint, candidates, updated_recovery_facts,
}

pub fact_le_total : (f g : Fact) → fact_le f g ≡ false → fact_le g f ≡ true
fact_le_total f g = le_pair_total le_int le_int le_int_total le_int_total (fact_key f) (fact_key g)

pub fact_le_trans : (f g h : Fact) → fact_le f g ≡ true → fact_le g h ≡ true → fact_le f h ≡ true
fact_le_trans f g h =
    le_pair_trans le_int le_int le_int_trans le_int_trans (fact_key f) (fact_key g) (fact_key h)

module _ (p : Fact → Bool) where
  count_if-others : (fs : List Fact) → count_if p (keep (λ f. not (p f)) fs) ≡ 0
  unfolding count_if keep
  count_if-others [] = refl
  count_if-others (f ∷ fs) = ground (arith, count_if-others fs)

  others-one : (fs : List Fact) (f : Fact) → count_if p (keep (λ g. not (p g)) fs ++ f ∷ []) ≤ 1
  unfolding count_if
  others-one fs f =
      ground (arith, count_if-append p (keep (λ g. not (p g)) fs) (f ∷ []), count_if-others fs)

-- Of the facts of a state and the fact of a new failure, the updated facts are the twelve best by
-- salience and loop, in descending order; none of them is an earlier fact of the same failure, so that
-- at most one has its fingerprint.
pub updated_recovery_facts-IsBest :
    (facts : List Fact) (r : Failure) (current_loop : ℕ)
    → IsBest fact_le 12
        (candidates facts r current_loop)
        (updated_recovery_facts facts r current_loop)
      × (count_if
            (has_fingerprint (strip (next_fact r current_loop).failure_fingerprint))
            (updated_recovery_facts facts r current_loop)
          ≤ 1)
unfolding updated_recovery_facts candidates
updated_recovery_facts-IsBest facts r current_loop =
    let best =
      sort-IsBest fact_le fact_le_total fact_le_trans 12 (candidates facts r current_loop) in
    let p = has_fingerprint (strip (next_fact r current_loop).failure_fingerprint) in
    (best, omega (arith, best.same_entries p, others-one p facts (next_fact r current_loop)))
