-- ===== src/Routing/Reflections/Kept.antt =====
-- Which reflections a pool keeps.
use lula.Prelude.{
  ℕ, ◌-◌, ◌≤◌, ◌≡◌, ◌⊎◌, ◌∙◌, ap, sym, refl, List, [], ◌∷◌, ◌++◌, arith, ltb, ◌==◌, if◌then◌else◌,
  length, last_n, drop, last_n-append, length-last_n, Bool-cases, inl, inr,
}
use mathlib.Core.List.{append-nil, append_assoc}
use lula.Routing.Reflections.{FailureReflection, SharedReflectionPool, from_end, add_reflection}

pub add_reflections : List FailureReflection → SharedReflectionPool → SharedReflectionPool
add_reflections [] p = p
add_reflections (r ∷ rs) p = add_reflections rs (add_reflection r p)

from_end-within : (n : ℕ) (xs : List FailureReflection) → length xs ≤ n → from_end n xs ≡ xs
unfolding from_end
from_end-within n xs h = elim (Bool-cases (n == 0)) [
  | inl e ↦ rw e refl
  | inr e ↦
      let none_cut : length xs - n ≡ 0 = omega (arith, h) in rw e (ap (λ k. drop k xs) none_cut)
]

from_end-append :
    (n : ℕ) (xs ys : List FailureReflection)
    → from_end n (from_end n xs ++ ys) ≡ from_end n (xs ++ ys)
unfolding from_end
from_end-append n xs ys = elim (Bool-cases (n == 0)) [
  | inl e ↦ rw e refl
  | inr e ↦ rw e (last_n-append n xs ys)
]

length-from_end : (n : ℕ) (xs : List FailureReflection) → (n ≡ 0) ⊎ (length (from_end n xs) ≤ n)
unfolding from_end
length-from_end n xs = elim (Bool-cases (n == 0)) [
  | inl e ↦ inl (ground (arith, e))
  | inr e ↦ inr (rw e (length-last_n n xs))
]

add_reflection_lem :
    (r : FailureReflection) (p : SharedReflectionPool)
    → add_reflection r p ≡ record p { reflections = from_end p.limit (p.reflections ++ r ∷ []) }
unfolding add_reflection
add_reflection_lem r p = elim (Bool-cases (ltb p.limit (length (p.reflections ++ r ∷ [])))) [
  | inl e ↦ rw e refl
  | inr e ↦ rw e (
      ap (λ l. record p { reflections = l })
        (sym (from_end-within p.limit (p.reflections ++ r ∷ []) (ground (arith, e)))))
]

no_limit : (n : ℕ) (xs : List FailureReflection) → n ≡ 0 → from_end n xs ≡ xs
unfolding from_end
no_limit n xs z = rw z refl

-- A pool that holds no more than its limit keeps, after any reflections, the last ones of all that it
-- held and got, as many as its limit. One with limit 0 keeps all of them.
pub add_reflections-from_end :
    (rs : List FailureReflection) (p : SharedReflectionPool)
    → (p.limit ≡ 0) ⊎ (length p.reflections ≤ p.limit)
    → (add_reflections rs p).reflections
      ≡ (if p.limit == 0 then p.reflections ++ rs else last_n p.limit (p.reflections ++ rs))
unfolding add_reflections from_end
add_reflections-from_end [] p h = rw (append-nil p.reflections) (elim h [
  | inl z ↦ sym (no_limit p.limit p.reflections z)
  | inr l ↦ sym (from_end-within p.limit p.reflections l)
])
add_reflections-from_end (r ∷ rs) p h =
    let longer = p.reflections ++ r ∷ [] in
    ap (λ q. (add_reflections rs q).reflections) (add_reflection_lem r p)
    ∙ add_reflections-from_end rs (record p { reflections = from_end p.limit longer })
        (length-from_end p.limit longer)
    ∙ from_end-append p.limit longer rs
    ∙ ap (from_end p.limit) (append_assoc p.reflections (r ∷ []) rs)
