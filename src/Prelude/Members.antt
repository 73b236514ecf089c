-- ===== src/Prelude/Members.antt =====
-- Membership in lists and sets of texts, and counting with distinct members.
use Prim.Native.Nat.{suc, ◌≤◌}
use Prim.Native.String.{String}
use mathlib.Core.Path.{◌≡◌, refl, ap, ◌∙◌}
use mathlib.Core.Logic.{◌≢◌, ◌↔◌, inl, inr}
use mathlib.Core.Bool.{Bool, true, false, ◌||◌, ◌&&◌}
use mathlib.Core.List.{List, [], ◌∷◌, ◌++◌}
use native.Mathlib.Omega.{arith}
use text.Mathlib.Text.{◌==◌ as str_eq}
use text.Mathlib.TextEquality.{eq_iff}
use lula.Prelude.Tests.{if◌then◌else◌, Bool-cases, str_eq-cases, str_eq_self}
use lula.Prelude.Lists.{length, keep}

-- `x in xs`, for a list, a tuple or a set.
unfoldable pub contains : String → List String → Bool
contains a [] = false
contains a (x ∷ xs) = str_eq x a || contains a xs

-- xs.remove(a): the first occurrence.
unfoldable pub remove_first : String → List String → List String
remove_first a [] = []
remove_first a (x ∷ xs) = if str_eq x a then xs else x ∷ remove_first a xs

-- set(xs), each member once.
unfoldable pub set_of : List String → List String
set_of [] = []
set_of (x ∷ xs) = let rest = set_of xs in if contains x xs then rest else x ∷ rest

abbrev pub IsDistinct : List String → Type 0
IsDistinct [] = Unit {0}
IsDistinct (x ∷ xs) = (contains x xs ≡ false) × IsDistinct xs

pub contains-append :
    (a : String) (xs ys : List String) → contains a (xs ++ ys) ≡ contains a xs || contains a ys
unfolding contains
contains-append a [] ys = refl
contains-append a (x ∷ xs) ys = ground (arith, contains-append a xs ys)

pub contains_snoc_self : (a : String) (xs : List String) → contains a (xs ++ a ∷ []) ≡ true
unfolding contains
contains_snoc_self a [] = ground (arith, str_eq_self a)
contains_snoc_self a (x ∷ xs) = ground (arith, contains_snoc_self a xs)

-- Appending a new member and removing its first occurrence gives the list back.
pub remove_first-snoc :
    (a : String) (xs : List String) → contains a xs ≡ false → remove_first a (xs ++ a ∷ []) ≡ xs
unfolding contains remove_first
remove_first-snoc a [] h = ground (arith, str_eq_self a)
remove_first-snoc a (x ∷ xs) h = ground (arith, remove_first-snoc a xs)

pub contains-remove_first :
    (a b : String) (xs : List String) → contains b (remove_first a xs) ≡ true → contains b xs ≡ true
unfolding contains remove_first
contains-remove_first a b [] h = h
contains-remove_first a b (x ∷ xs) h = ground (arith, contains-remove_first a b xs)

pub contains-remove_first_ne :
    (a b : String) (xs : List String)
    → contains b xs ≡ true
    → a ≢ b
    → contains b (remove_first a xs) ≡ true
unfolding contains remove_first
contains-remove_first_ne a b [] h n = h
contains-remove_first_ne a b (x ∷ xs) h n =
    ground (arith, eq_iff x a, eq_iff x b, contains-remove_first_ne a b xs)

pub length-remove_first :
    (a : String) (xs : List String)
    → contains a xs ≡ true
    → suc (length (remove_first a xs)) ≡ length xs
unfolding contains remove_first
length-remove_first a [] h = cc
length-remove_first a (x ∷ xs) h = ground (arith, length-remove_first a xs)

-- Every member of `xs` is a member of `ys`.
abbrev pub IsSubset : List String → List String → Type 0
IsSubset xs ys = (a : String) → contains a xs ≡ true → contains a ys ≡ true

subset_tail :
    (x : String) (xs ys : List String)
    → contains x xs ≡ false
    → IsSubset (x ∷ xs) ys
    → IsSubset xs (remove_first x ys)
unfolding contains
subset_tail x xs ys fresh h a m =
    contains-remove_first_ne x a ys (h a (ground arith))
      (λ e. ground (arith, ap (λ t. contains t xs) e))

pub IsSubset-head : (x : String) (xs ys : List String) → IsSubset (x ∷ xs) ys → contains x ys ≡ true
unfolding contains
IsSubset-head x xs ys h = h x (ground (arith, str_eq_self x))

pub IsDistinct-length-le :
    (xs ys : List String) → IsDistinct xs → IsSubset xs ys → length xs ≤ length ys
IsDistinct-length-le [] ys d h = omega arith
IsDistinct-length-le (x ∷ xs) ys d h = omega (
  arith,
  length-remove_first x ys (IsSubset-head x xs ys h),
  IsDistinct-length-le xs (remove_first x ys) d.1 (subset_tail x xs ys d.0 h),
)

-- As many distinct members as the whole list has: they are all of it.
pub IsDistinct-covers :
    (xs ys : List String) → IsDistinct xs → IsSubset xs ys → length ys ≤ length xs → IsSubset ys xs
unfolding contains
IsDistinct-covers [] [] d h le a m = m
IsDistinct-covers [] (y ∷ ys) d h le a m = absurd (omega arith)
IsDistinct-covers (x ∷ xs) ys d h le a m = elim (str_eq-cases x a) [
  | inl e ↦ ground (arith, e.1)
  | inr e ↦
      let shorter = length-remove_first x ys (IsSubset-head x xs ys h) in
      let rest =
        IsDistinct-covers xs (remove_first x ys) d.1 (subset_tail x xs ys d.0 h) (omega arith) a
          (contains-remove_first_ne x a ys m e.0) in
      ground (arith, rest)
]

pub IsDistinct-snoc :
    (a : String) (xs : List String)
    → IsDistinct xs
    → contains a xs ≡ false
    → IsDistinct (xs ++ a ∷ [])
unfolding contains
IsDistinct-snoc a [] d h = (refl, tt)
IsDistinct-snoc a (x ∷ xs) d h = (
  ground (arith, contains-append x xs (a ∷ []), eq_iff x a, eq_iff a x),
  IsDistinct-snoc a xs d.1 (ground arith),
)

pub length-set_of-le : (xs : List String) → length (set_of xs) ≤ length xs
unfolding set_of
length-set_of-le [] = omega arith
length-set_of-le (x ∷ xs) = ground (arith, length-set_of-le xs)

-- len(xs) == len(set(xs)) exactly when no member is repeated.
pub IsDistinct-iff-length-set_of :
    (xs : List String) → (length xs ≡ length (set_of xs)) ↔ IsDistinct xs
unfolding set_of
IsDistinct-iff-length-set_of [] = (λ h. tt, λ h. refl)
IsDistinct-iff-length-set_of (x ∷ xs) = elim (Bool-cases (contains x xs)) [
  | inl e ↦ (λ h. absurd (ground (arith, length-set_of-le xs)), λ h. cc)
  | inr e ↦ (
    λ h. (e, (IsDistinct-iff-length-set_of xs).0 (ground arith)),
    λ h. ground (arith, (IsDistinct-iff-length-set_of xs).1 h.1),
  )
]

module _ (p : String → Bool) where
  -- A test that reads only the member: a filtered list holds the members that pass.
  pub contains-keep :
      (a : String) (xs : List String) → contains a (keep p xs) ≡ contains a xs && p a
  unfolding contains keep
  contains-keep a [] = refl
  contains-keep a (x ∷ xs) = ground (arith, contains-keep a xs, eq_iff x a)

  pub IsDistinct-keep : (xs : List String) → IsDistinct xs → IsDistinct (keep p xs)
  unfolding keep
  IsDistinct-keep [] d = tt
  IsDistinct-keep (x ∷ xs) d = elim (Bool-cases (p x)) [
    | inl e ↦ rw (e, keep) (ground (arith, contains-keep x xs), IsDistinct-keep xs d.1)
    | inr e ↦ rw (e, keep) (IsDistinct-keep xs d.1)
  ]

pub contains-set_of : (a : String) (xs : List String) → contains a (set_of xs) ≡ contains a xs
unfolding contains set_of
contains-set_of a [] = refl
contains-set_of a (x ∷ xs) = ground (arith, contains-set_of a xs, eq_iff x a)

pub set_of-IsDistinct : (xs : List String) → IsDistinct (set_of xs)
unfolding set_of
set_of-IsDistinct [] = tt
set_of-IsDistinct (x ∷ xs) = elim (Bool-cases (contains x xs)) [
  | inl e ↦ rw e (set_of-IsDistinct xs)
  | inr e ↦ rw e (contains-set_of x xs ∙ e, set_of-IsDistinct xs)
]

pub contains-remove_first-eq :
    (a b : String) (xs : List String)
    → contains b (remove_first a xs)
      ≡ (if str_eq a b then contains a (remove_first a xs) else contains b xs)
unfolding contains remove_first
contains-remove_first-eq a b [] = ground arith
contains-remove_first-eq a b (x ∷ xs) =
    ground (arith, contains-remove_first-eq a b xs, eq_iff a b, eq_iff x a, eq_iff x b)

pub remove_first_absent :
    (a : String) (xs : List String) → contains a xs ≡ false → remove_first a xs ≡ xs
unfolding contains remove_first
remove_first_absent a [] h = refl
remove_first_absent a (x ∷ xs) h = ground (arith, remove_first_absent a xs)
