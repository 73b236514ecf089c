-- ===== src/Prelude/Ranked.antt =====
-- list.sort(key=..., reverse=True), which keeps the order of entries of the same rank, and the best
-- entries of a list. `le x y` says that the key of `x` is at most that of `y`.
pub mod Keys
use lula.Prelude.{
  ℕ, zero, suc, ◌+◌, ◌≤◌, ◌≡◌, ◌⊎◌, refl, ap, ◌∙◌, sym, Bool, true, false, List, [], ◌∷◌, ◌++◌,
  arith, if◌then◌else◌, Bool-cases, inl, inr, length, take, drop, count_if, take-append-drop,
  count_if-append,
}

module _ {A : Type 0} (le : A → A → Bool) where
  unfoldable pub insert_desc : A → List A → List A
  insert_desc x [] = x ∷ []
  insert_desc x (y ∷ ys) = let rest = insert_desc x ys in if le y x then x ∷ y ∷ ys else y ∷ rest

  unfoldable pub sort_desc : List A → List A
  sort_desc [] = []
  sort_desc (x ∷ xs) = insert_desc x (sort_desc xs)

  -- The keys of all entries are at most that of `x`.
  abbrev pub AllUnder : A → List A → Type 0
  AllUnder x [] = Unit {0}
  AllUnder x (y ∷ ys) = (le y x ≡ true) × AllUnder x ys

  abbrev pub IsDescending : List A → Type 0
  IsDescending [] = Unit {0}
  IsDescending (x ∷ xs) = AllUnder x xs × IsDescending xs

  -- Every entry of the second list is under every one of the first.
  abbrev pub AllOver : List A → List A → Type 0
  AllOver [] rest = Unit {0}
  AllOver (x ∷ xs) rest = AllUnder x rest × AllOver xs rest

  -- `best` are at most `n` entries of `xs` in descending order, and the others, `rest`, are not
  -- ranked above any of them; some are left out only if there are `n`.
  pub record IsBest (n : ℕ) (xs best : List A) : Type 0 where
    pub rest : List A
    pub same_entries : (p : A → Bool) → count_if p best + count_if p rest ≡ count_if p xs
    pub descending : IsDescending best
    pub over : AllOver best rest
    pub at_most : length best ≤ n
    pub full : (rest ≡ []) ⊎ (length best ≡ n)

  module _ (total : (x y : A) → le x y ≡ false → le y x ≡ true)
      (trans : (x y z : A) → le x y ≡ true → le y z ≡ true → le x z ≡ true) where
    AllUnder-le : (x y : A) (ys : List A) → le y x ≡ true → AllUnder y ys → AllUnder x ys
    AllUnder-le x y [] h a = tt
    AllUnder-le x y (z ∷ zs) h (b, bs) = (trans z y x b h, AllUnder-le x y zs h bs)

    insert-AllUnder :
        (l x : A) (ys : List A) → le x l ≡ true → AllUnder l ys → AllUnder l (insert_desc x ys)
    unfolding insert_desc
    insert-AllUnder l x [] h a = (h, tt)
    insert-AllUnder l x (y ∷ ys) h (b, bs) = elim (Bool-cases (le y x)) [
      | inl e ↦ rw e (h, (b, bs))
      | inr e ↦ rw e (b, insert-AllUnder l x ys h bs)
    ]

    insert-IsDescending : (x : A) (ys : List A) → IsDescending ys → IsDescending (insert_desc x ys)
    unfolding insert_desc
    insert-IsDescending x [] s = (tt, tt)
    insert-IsDescending x (y ∷ ys) (a, s) = elim (Bool-cases (le y x)) [
      | inl e ↦ rw e ((e, AllUnder-le x y ys e a), (a, s))
      | inr e ↦ rw e (insert-AllUnder y x ys (total y x e) a, insert-IsDescending x ys s)
    ]

    sort-IsDescending : (xs : List A) → IsDescending (sort_desc xs)
    unfolding sort_desc
    sort-IsDescending [] = tt
    sort-IsDescending (x ∷ xs) = insert-IsDescending x (sort_desc xs) (sort-IsDescending xs)

  count_if-insert :
      (p : A → Bool) (x : A) (ys : List A) → count_if p (insert_desc x ys) ≡ count_if p (x ∷ ys)
  unfolding insert_desc count_if
  count_if-insert p x [] = refl
  count_if-insert p x (y ∷ ys) = ground (arith, count_if-insert p x ys)

  count_if-sort : (p : A → Bool) (xs : List A) → count_if p (sort_desc xs) ≡ count_if p xs
  unfolding sort_desc count_if
  count_if-sort p [] = refl
  count_if-sort p (x ∷ xs) =
      count_if-insert p x (sort_desc xs) ∙ ap (λ k. if p x then suc k else k) (count_if-sort p xs)

  take-AllUnder : (n : ℕ) (x : A) (xs : List A) → AllUnder x xs → AllUnder x (take n xs)
  take-AllUnder zero x xs a = tt
  take-AllUnder (suc n) x [] a = tt
  take-AllUnder (suc n) x (y ∷ ys) (b, a) = (b, take-AllUnder n x ys a)

  drop-AllUnder : (n : ℕ) (x : A) (xs : List A) → AllUnder x xs → AllUnder x (drop n xs)
  drop-AllUnder zero x xs a = a
  drop-AllUnder (suc n) x [] a = tt
  drop-AllUnder (suc n) x (y ∷ ys) (b, a) = drop-AllUnder n x ys a

  take-IsDescending : (n : ℕ) (xs : List A) → IsDescending xs → IsDescending (take n xs)
  take-IsDescending zero xs s = tt
  take-IsDescending (suc n) [] s = tt
  take-IsDescending (suc n) (x ∷ xs) (a, s) = (take-AllUnder n x xs a, take-IsDescending n xs s)

  take-AllOver : (n : ℕ) (xs : List A) → IsDescending xs → AllOver (take n xs) (drop n xs)
  take-AllOver zero xs s = tt
  take-AllOver (suc n) [] s = tt
  take-AllOver (suc n) (x ∷ xs) (a, s) = (drop-AllUnder n x xs a, take-AllOver n xs s)

  length-take-le : (n : ℕ) (xs : List A) → length (take n xs) ≤ n
  length-take-le zero xs = omega arith
  length-take-le (suc n) [] = omega arith
  length-take-le (suc n) (x ∷ xs) = omega (arith, length-take-le n xs)

  take-full : (n : ℕ) (xs : List A) → (drop n xs ≡ []) ⊎ (length (take n xs) ≡ n)
  take-full zero xs = inr refl
  take-full (suc n) [] = inl refl
  take-full (suc n) (x ∷ xs) = elim (take-full n xs) [ inl e ↦ inl e | inr e ↦ inr (ap suc e) ]

  -- The first `n` entries of the sorted list are the best ones.
  pub sort-IsBest :
      (total : (x y : A) → le x y ≡ false → le y x ≡ true)
      (trans : (x y z : A) → le x y ≡ true → le y z ≡ true → le x z ≡ true) (n : ℕ) (xs : List A)
      → IsBest n xs (take n (sort_desc xs))
  sort-IsBest total trans n xs =
      let s = sort-IsDescending total trans xs in
      let ys = sort_desc xs in
      record {
        rest = drop n ys;
        same_entries = λ p.
            sym (count_if-append p (take n ys) (drop n ys))
            ∙ ap (count_if p) (take-append-drop n ys)
            ∙ count_if-sort p xs;
        descending = take-IsDescending n ys s;
        over = take-AllOver n ys s;
        at_most = length-take-le n ys;
        full = take-full n ys;
      }
