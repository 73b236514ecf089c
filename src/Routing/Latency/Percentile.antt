-- ===== src/Routing/Latency/Percentile.antt =====
-- What the 95th percentile of a window says of its samples.
use lula.Prelude.{
  ℕ, zero, suc, ◌*◌, ◌≤◌, ◌<◌, ◌≡◌, refl, Bool, none, some, List, [], ◌∷◌, arith, leb, ltb, length,
  count_if, get_elem?, Bool-cases, inl, inr,
}
use lula.Routing.Latency.{insert, sorted, percentile}

abbrev AllFrom : ℕ → List ℕ → Type 0
AllFrom x [] = Unit {0}
AllFrom x (y ∷ ys) = (x ≤ y) × AllFrom x ys

abbrev IsSorted : List ℕ → Type 0
IsSorted [] = Unit {0}
IsSorted (x ∷ xs) = AllFrom x xs × IsSorted xs

AllFrom-le : (x y : ℕ) (ys : List ℕ) → x ≤ y → AllFrom y ys → AllFrom x ys
AllFrom-le x y [] h a = tt
AllFrom-le x y (z ∷ zs) h (b, bs) = (omega (arith, h, b), AllFrom-le x y zs h bs)

insert-AllFrom : (l x : ℕ) (ys : List ℕ) → l ≤ x → AllFrom l ys → AllFrom l (insert x ys)
unfolding insert
insert-AllFrom l x [] h a = (h, tt)
insert-AllFrom l x (y ∷ ys) h (b, bs) = elim (Bool-cases (leb x y)) [
  | inl e ↦ rw e (h, (b, bs))
  | inr e ↦ rw e (b, insert-AllFrom l x ys h bs)
]

insert-IsSorted : (x : ℕ) (ys : List ℕ) → IsSorted ys → IsSorted (insert x ys)
unfolding insert
insert-IsSorted x [] s = (tt, tt)
insert-IsSorted x (y ∷ ys) (a, s) = elim (Bool-cases (leb x y)) [
  | inl e ↦ let h : x ≤ y = ground arith in rw e ((h, AllFrom-le x y ys h a), (a, s))
  | inr e ↦ let h : y ≤ x = ground arith in rw e (insert-AllFrom y x ys h a, insert-IsSorted x ys s)
]

sorted-IsSorted : (xs : List ℕ) → IsSorted (sorted xs)
unfolding sorted
sorted-IsSorted [] = tt
sorted-IsSorted (x ∷ xs) = insert-IsSorted x (sorted xs) (sorted-IsSorted xs)

module _ (p : ℕ → Bool) where
  count_if-insert : (x : ℕ) (ys : List ℕ) → count_if p (insert x ys) ≡ count_if p (x ∷ ys)
  unfolding insert count_if
  count_if-insert x [] = refl
  count_if-insert x (y ∷ ys) = ground (arith, count_if-insert x ys)

  count_if-sorted : (xs : List ℕ) → count_if p (sorted xs) ≡ count_if p xs
  unfolding sorted count_if
  count_if-sorted [] = refl
  count_if-sorted (x ∷ xs) = ground (arith, count_if-insert x (sorted xs), count_if-sorted xs)

length-insert : (x : ℕ) (ys : List ℕ) → length (insert x ys) ≡ suc (length ys)
unfolding insert
length-insert x [] = refl
length-insert x (y ∷ ys) = ground (arith, length-insert x ys)

length-sorted : (xs : List ℕ) → length (sorted xs) ≡ length xs
unfolding sorted
length-sorted [] = refl
length-sorted (x ∷ xs) = omega (arith, length-insert x (sorted xs), length-sorted xs)

AllFrom-get : (x : ℕ) (xs : List ℕ) (i v : ℕ) → AllFrom x xs → get_elem? xs i ≡ some v → x ≤ v
unfolding get_elem?
AllFrom-get x [] i v a e = cc
AllFrom-get x (y ∷ ys) zero v (b, bs) e = ground arith
AllFrom-get x (y ∷ ys) (suc i) v (b, bs) e = AllFrom-get x ys i v bs e

none_below : (x v : ℕ) (xs : List ℕ) → AllFrom x xs → v ≤ x → count_if (λ y. ltb y v) xs ≡ 0
unfolding count_if
none_below x v [] a h = refl
none_below x v (y ∷ ys) (b, bs) h = ground (arith, none_below x v ys bs h)

-- In a sorted list, more than `i` members are at most the one at `i`, and at most `i` are below it.
counts_at :
    (xs : List ℕ) (i v : ℕ)
    → IsSorted xs
    → get_elem? xs i ≡ some v
    → (i < count_if (λ y. leb y v) xs) × (count_if (λ y. ltb y v) xs ≤ i)
unfolding get_elem? count_if
counts_at [] i v s e = cc
counts_at (x ∷ xs) zero v (a, s) e =
    let same : x ≡ v = ground arith in
    (ground (arith, same), ground (arith, none_below x v xs a (ground (arith, same))))
counts_at (x ∷ xs) (suc i) v (a, s) e =
    let (above, under) = counts_at xs i v s e in
    let h = AllFrom-get x xs i v a e in (ground (arith, above, h), ground (arith, under))

-- The 95th percentile is an upper bound of more than 95 in 100 of the samples, and at most 95 in 100
-- are below it.
pub percentile-counts :
    (samples : List ℕ) (v : ℕ)
    → percentile samples ≡ some v
    → (95 * length samples < 100 * count_if (λ y. leb y v) samples)
      × (100 * count_if (λ y. ltb y v) samples ≤ 95 * length samples)
unfolding percentile
percentile-counts samples v e = elim (Bool-cases (ltb (length samples) 5)) [
  | inl few ↦ let none_is : none ≡ some v = rw few at e in cc
  | inr many ↦
      let (above, under) =
        counts_at (sorted samples) _ v (sorted-IsSorted samples) (rw many at e) in
      let size = length-sorted samples in
      let enough : 5 ≤ length samples = ground arith in
      (
        omega (arith, above, size, enough, count_if-sorted (λ y. leb y v) samples),
        omega (arith, under, size, enough, count_if-sorted (λ y. ltb y v) samples),
      )
]
