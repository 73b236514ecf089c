-- ===== src/RateLimit/Clients.antt =====
-- The limiter: one bucket for each client, its counters, and what cleaning up idle buckets changes.
use lula.Prelude.{
  ℕ, ◌+◌, ◌-◌, ◌*◌, ◌≤◌, ◌<◌, String, ◌≡◌, refl, ap, true, false, not, ◌||◌, Option, none, some,
  List, [], ◌∷◌, arith, str_eq, eq_iff, leb, if◌then◌else◌, Bool-cases, inl, inr, keep, map,
}
use lula.Prelude.Members.{contains, IsDistinct}
use lula.RateLimit.{
  TokenBucket, new_bucket, refill, acquire, Buckets, RateLimiter, bucket_of, put_bucket, or_new,
  client_bucket, check, is_stale,
}
use native.Mathlib.Nat.{mul-le-mul_right}

abbrev clients : Buckets → List String
clients bs = map (λ e. e.0) bs

-- One bucket for each client, all with the limiter's settings.
pub record IsFormed (l : RateLimiter) : Type 0 where
  pub distinct : IsDistinct (clients l.buckets)
  pub settings :
      (k : String) (b : TokenBucket)
      → bucket_of k l.buckets ≡ some b
      → (b.capacity ≡ l.capacity) × (b.refill_rate ≡ l.refill_rate)

pub bucket_of-put_bucket :
    (k j : String) (b : TokenBucket) (bs : Buckets)
    → bucket_of j (put_bucket k b bs) ≡ (if str_eq k j then some b else bucket_of j bs)
unfolding bucket_of put_bucket
bucket_of-put_bucket k j b [] = refl
bucket_of-put_bucket k j b ((i, a) ∷ bs) =
    ground (arith, bucket_of-put_bucket k j b bs, eq_iff k j, eq_iff i k, eq_iff i j)

contains-clients-put_bucket :
    (k j : String) (b : TokenBucket) (bs : Buckets)
    → contains j (clients (put_bucket k b bs)) ≡ str_eq k j || contains j (clients bs)
unfolding put_bucket contains
contains-clients-put_bucket k j b [] = ground arith
contains-clients-put_bucket k j b ((i, a) ∷ bs) =
    ground (arith, contains-clients-put_bucket k j b bs, eq_iff i k, eq_iff i j, eq_iff k j)

put_bucket-IsDistinct :
    (k : String) (b : TokenBucket) (bs : Buckets)
    → IsDistinct (clients bs)
    → IsDistinct (clients (put_bucket k b bs))
unfolding put_bucket contains
put_bucket-IsDistinct k b [] d = (refl, tt)
put_bucket-IsDistinct k b ((i, a) ∷ bs) d = elim (Bool-cases (str_eq i k)) [
  | inl e ↦ rw e d
  | inr e ↦ rw e (
    ground (arith, contains-clients-put_bucket k i b bs, d.0, eq_iff k i, eq_iff i k),
    put_bucket-IsDistinct k b bs d.1,
  )
]

acquire_settings :
    (unit now : ℕ) (b : TokenBucket)
    → ((acquire unit now b).0.capacity ≡ b.capacity)
      × ((acquire unit now b).0.refill_rate ≡ b.refill_rate)
unfolding acquire
acquire_settings unit now b = ground arith

client_bucket_settings :
    (l : RateLimiter) (client : String) (created : ℕ)
    → IsFormed l
    → ((client_bucket l client created).capacity ≡ l.capacity)
      × ((client_bucket l client created).refill_rate ≡ l.refill_rate)
unfolding client_bucket new_bucket
client_bucket_settings l client created f = go (bucket_of client l.buckets) (f.settings client)
  where
    go :
        (r : Option TokenBucket)
        → ((b : TokenBucket)
            → r ≡ some b
            → (b.capacity ≡ l.capacity) × (b.refill_rate ≡ l.refill_rate))
        → ((or_new l created r).capacity ≡ l.capacity)
          × ((or_new l created r).refill_rate ≡ l.refill_rate)
    go none h = (refl, refl)
    go (some b) h = h b refl

module _ (unit : ℕ) (l : RateLimiter) (client : String) (created now : ℕ) where
  -- A request leaves the buckets of all other clients as they are, keeps one bucket for each client,
  -- and counts itself, as a rejection if it is refused.
  pub check_lem :
      IsFormed l
      → let l' = (check unit l client created now).0 in
        let allowed = (check unit l client created now).1 in
        IsFormed l'
        × ((j : String)
            → bucket_of j l'.buckets ≡ (
                if str_eq client j
                then some (acquire unit now (client_bucket l client created)).0
                else bucket_of j l.buckets))
        × (l'.total_requests ≡ l.total_requests + 1)
        × (l'.total_rejections ≡ l.total_rejections + (if allowed then 0 else 1))
  unfolding check
  check_lem f =
      let b = (acquire unit now (client_bucket l client created)).0 in
      let own = acquire_settings unit now (client_bucket l client created) in
      let given = client_bucket_settings l client created f in
      (
        record {
          distinct = put_bucket-IsDistinct client b l.buckets f.distinct;
          settings = λ k a e.
              ground
                (arith, bucket_of-put_bucket client k b l.buckets, f.settings k a, own, given, e);
        },
        λ j. bucket_of-put_bucket client j b l.buckets,
        refl,
        ground arith,
      )

bucket_of-absent :
    (k : String) (bs : Buckets) → contains k (clients bs) ≡ false → bucket_of k bs ≡ none
unfolding bucket_of contains
bucket_of-absent k [] h = refl
bucket_of-absent k ((j, b) ∷ bs) h = ground (arith, bucket_of-absent k bs)

abbrev pub surviving : ℕ → ℕ → String → Option TokenBucket → Option TokenBucket
surviving max_idle now k none = none
surviving max_idle now k (some b) = if is_stale max_idle now (k, b) then none else some b

pub bucket_of-keep :
    (max_idle now : ℕ) (k : String) (bs : Buckets)
    → IsDistinct (clients bs)
    → bucket_of k (keep (λ e. not (is_stale max_idle now e)) bs)
      ≡ surviving max_idle now k (bucket_of k bs)
unfolding bucket_of keep contains
bucket_of-keep max_idle now k [] d = refl
bucket_of-keep max_idle now k ((j, b) ∷ bs) d = ground (
  arith,
  bucket_of-keep max_idle now k bs d.1,
  eq_iff j k,
  bucket_of-absent k bs,
  d.0,
  ap (λ t. contains t (clients bs)) ((eq_iff j k).0 _),
)

-- A bucket that was idle long enough is full again at its next use, as a new one is.
pub full_again :
    (capacity rate max_idle cleaned created now : ℕ) (b : TokenBucket)
    → b.capacity ≡ capacity
    → b.refill_rate ≡ rate
    → capacity ≤ max_idle * rate
    → max_idle < cleaned - b.last_refill
    → cleaned ≤ now
    → refill now b ≡ refill now (new_bucket capacity rate created)
unfolding refill new_bucket
full_again capacity rate max_idle cleaned created now b c r enough idle later =
    let grown : max_idle * rate ≤ (now - b.last_refill) * rate =
      mul-le-mul_right rate (omega arith) in
    ground (arith, grown)

pub acquire-refill :
    (unit now : ℕ) (a b : TokenBucket)
    → refill now a ≡ refill now b
    → acquire unit now a ≡ acquire unit now b
unfolding acquire
acquire-refill unit now a b e =
    ap
      (λ (r : TokenBucket).
        if leb unit r.tokens then (record r { tokens = r.tokens - unit }, true) else (r, false))
      e
