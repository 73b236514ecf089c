-- ===== src/RateLimit/Bucket.antt =====
-- What one bucket allows over time.
use lula.Prelude.{
  ℕ, ◌+◌, ◌-◌, ◌*◌, ◌≤◌, ◌≡◌, ap, List, [], ◌∷◌, arith, if◌then◌else◌, Bool-cases, inl, inr,
}
use mathlib.Core.Path.{subst₂}
use lula.RateLimit.{TokenBucket, acquire, acquire_all}

-- The readings do not fall, from the last refill on.
abbrev pub IsMonotonic : ℕ → List ℕ → Type 0
IsMonotonic last [] = Unit {0}
IsMonotonic last (now ∷ times) = (last ≤ now) × IsMonotonic now times

abbrev pub last_of : ℕ → List ℕ → ℕ
last_of last [] = last
last_of last (now ∷ times) = last_of now times

last_of-le : (last : ℕ) (times : List ℕ) → IsMonotonic last times → last ≤ last_of last times
last_of-le last [] h = omega arith
last_of-le last (now ∷ times) h = omega (arith, last_of-le now times h.1, h.0)

split_time : (a b c r : ℕ) → a ≤ b → b ≤ c → (b - a) * r + (c - b) * r ≡ (c - a) * r
split_time a b c r h k =
    let e : (b - a) + (c - b) ≡ c - a = omega arith in omega (arith, ap (λ (t : ℕ). t * r) e)

module _ (unit : ℕ) where
  -- One request spends what it is allowed out of what was there and what came in.
  acquire_lem :
      (now : ℕ) (b : TokenBucket)
      → let r = acquire unit now b in
        ((if r.1 then unit else 0) + r.0.tokens ≤ b.tokens + (now - b.last_refill) * b.refill_rate)
        × (r.0.last_refill ≡ now)
        × (r.0.refill_rate ≡ b.refill_rate)
        × (r.0.capacity ≡ b.capacity)
        × (r.0.tokens ≤ b.capacity)
  unfolding acquire
  acquire_lem now b = ground arith

  acquire_all-spends :
      (times : List ℕ) (b : TokenBucket)
      → IsMonotonic b.last_refill times
      → let r = acquire_all unit times b in
        r.1 * unit + r.0.tokens
        ≤ b.tokens + (last_of b.last_refill times - b.last_refill) * b.refill_rate
  unfolding acquire_all
  acquire_all-spends [] b h = omega arith
  acquire_all-spends (now ∷ times) b h =
      let (b', allowed) = acquire unit now b in
      let (spent, last_is, rate, _, _) = acquire_lem now b in
      let later = acquire_all-spends times b' (rw last_is h.1) in
      let later' : (acquire_all unit times b').1 * unit + (acquire_all unit times b').0.tokens
          ≤ b'.tokens + (last_of now times - now) * b.refill_rate =
        subst₂
          (λ (l r : ℕ).
            (acquire_all unit times b').1 * unit + (acquire_all unit times b').0.tokens
            ≤ b'.tokens + (last_of l times - l) * r)
          last_is rate later in
      let between =
        split_time b.last_refill now (last_of now times) b.refill_rate h.0
          (last_of-le now times h.1) in
      elim (Bool-cases allowed) [
        | inl e ↦
            let spent' : unit + b'.tokens ≤ b.tokens + (now - b.last_refill) * b.refill_rate =
              rw e at spent in
            rw e (omega (arith, spent', later', between))
        | inr e ↦
            let spent' : b'.tokens ≤ b.tokens + (now - b.last_refill) * b.refill_rate =
              omega (arith, rw e at spent) in
            rw e (omega (arith, spent', later', between))
      ]

  -- Over any readings of a clock that does not run backwards, a bucket that begins with no more
  -- tokens than its capacity grants at most its capacity and what the rate gives until the last
  -- reading.
  pub acquire_all-le :
      (times : List ℕ) (b : TokenBucket)
      → IsMonotonic b.last_refill times
      → b.tokens ≤ b.capacity
      → (acquire_all unit times b).1 * unit
        ≤ b.capacity + (last_of b.last_refill times - b.last_refill) * b.refill_rate
  acquire_all-le times b h k = omega (arith, acquire_all-spends times b h)
