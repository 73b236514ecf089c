-- ===== src/Prelude/Ranked/Keys.antt =====
-- Keys of integers, compared as Python compares tuples.
use lula.Prelude.{◌≡◌, refl, Bool, true, false, arith, leb}
use lula.Prelude.Int.{ℤ, pos, negsuc}

-- i <= j
abbrev pub le_int : ℤ → ℤ → Bool
le_int (pos m) (pos n) = leb m n
le_int (negsuc m) (pos n) = true
le_int (pos m) (negsuc n) = false
le_int (negsuc m) (negsuc n) = leb n m

pub le_int_total : (i j : ℤ) → le_int i j ≡ false → le_int j i ≡ true
le_int_total (pos m) (pos n) e = ground arith
le_int_total (pos m) (negsuc n) e = refl
le_int_total (negsuc m) (pos n) e = ground arith
le_int_total (negsuc m) (negsuc n) e = ground arith

pub le_int_trans : (i j k : ℤ) → le_int i j ≡ true → le_int j k ≡ true → le_int i k ≡ true
le_int_trans (pos m) (pos n) (pos o) e f = ground arith
le_int_trans (pos m) (pos n) (negsuc o) e f = ground arith
le_int_trans (pos m) (negsuc n) k e f = ground arith
le_int_trans (negsuc m) j (pos o) e f = refl
le_int_trans (negsuc m) (pos n) (negsuc o) e f = ground arith
le_int_trans (negsuc m) (negsuc n) (negsuc o) e f = ground arith

-- (a, b) <= (a', b'), for the comparisons of the parts.
abbrev pub lex : (a_le b_le a_ge : Bool) → Bool
lex false b a_ge = false
lex true b true = b
lex true b false = true

module _ {A B : Type 0} (le : A → A → Bool) (le' : B → B → Bool) where
  abbrev pub le_pair : A × B → A × B → Bool
  le_pair (a, b) (c, d) = lex (le a c) (le' b d) (le c a)

  module _ (total : (x y : A) → le x y ≡ false → le y x ≡ true)
      (total' : (x y : B) → le' x y ≡ false → le' y x ≡ true) where
    pub le_pair_total : (x y : A × B) → le_pair x y ≡ false → le_pair y x ≡ true
    le_pair_total (a, b) (c, d) e = ground (arith, total a c, total c a, total' b d)

  module _ (trans : (x y z : A) → le x y ≡ true → le y z ≡ true → le x z ≡ true)
      (trans' : (x y z : B) → le' x y ≡ true → le' y z ≡ true → le' x z ≡ true) where
    pub le_pair_trans :
        (x y z : A × B) → le_pair x y ≡ true → le_pair y z ≡ true → le_pair x z ≡ true
    le_pair_trans (a, b) (c, d) (g, h) e f =
        ground (arith, trans a c g, trans c g a, trans g a c, trans' b d h)
