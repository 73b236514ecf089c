-- ===== src/Routing/Diversity/Rotation.antt =====
-- How the rotation of models comes round.
use native.Mathlib.Nat.{mod-eq_of_lt, add-mod_right}
use lula.Prelude.{
  ℕ, zero, suc, ◌+◌, ◌%◌, ◌<◌, ◌≡◌, ◌∙◌, ap, sym, refl, String, Option, some, List, [], ◌∷◌, ◌++◌,
  map, arith, length, get_elem?, length-append,
}
use mathlib.Core.List.{append_assoc}
use lula.Routing.Diversity.{DiversityRoutingPolicy, select_model}

-- So many calls of select_model, and what they return.
pub select_models : ℕ → DiversityRoutingPolicy → List (Option String)
select_models zero p = []
select_models (suc n) p = let (p', model) = select_model p in model ∷ select_models n p'

get_elem?-append :
    (xs : List String) (y : String) (ys : List String)
    → get_elem? (xs ++ y ∷ ys) (length xs) ≡ some y
unfolding get_elem?
get_elem?-append [] y ys = refl
get_elem?-append (x ∷ xs) y ys = get_elem?-append xs y ys

-- The same models come again after as many calls as there are models.
pub select_models-again :
    (n : ℕ) (p : DiversityRoutingPolicy)
    → select_models n (record p { index = p.index + length p.models }) ≡ select_models n p
unfolding select_models select_model
select_models-again zero p = refl
select_models-again (suc n) p =
    let shift : p.index + length p.models + 1 ≡ p.index + 1 + length p.models = omega arith in
    rw (add-mod_right p.index (length p.models), shift)
      (ap (λ l. get_elem? p.models (p.index % length p.models) ∷ l)
        (select_models-again n (record p { index = p.index + 1 })))

rest_of_round :
    (xs ys : List String) (p : DiversityRoutingPolicy)
    → p.models ≡ xs ++ ys
    → p.index ≡ length xs
    → select_models (length ys) p ≡ map some ys
unfolding select_models select_model
rest_of_round xs [] p m i = refl
rest_of_round xs (y ∷ ys) p m i =
    let size : length p.models ≡ length xs + suc (length ys) =
      ap length m ∙ length-append xs (y ∷ ys) in
    let small : p.index < length p.models = omega (arith, i, size) in
    let hit : get_elem? p.models (p.index % length p.models) ≡ some y =
      rw (mod-eq_of_lt small, m, i) (get_elem?-append xs y ys) in
    let later =
      rest_of_round (xs ++ y ∷ []) ys (record p { index = p.index + 1 })
        (m ∙ sym (append_assoc xs (y ∷ []) ys)) (omega (arith, i, length-append xs (y ∷ []))) in
    rw hit (ap (λ l. some y ∷ l) later)

-- From the start of the rotation, as many calls as there are models return each model once, in order.
pub select_models-round :
    (p : DiversityRoutingPolicy)
    → p.index ≡ 0
    → select_models (length p.models) p ≡ map some p.models
select_models-round p z = rest_of_round [] p.models p refl z
