-- ===== src/RateLimit/Cleaned.antt =====
-- What cleaning up idle buckets changes for the requests that come later.
use lula.Prelude.{
  ℕ, ◌*◌, ◌≤◌, String, ◌≡◌, refl, sym, ap, Option, none, some, List, [], ◌∷◌, str_eq, if◌then◌else◌,
  Bool-cases, inl, inr, ltb→lt,
}
use mathlib.Core.Path.{ap₂}
use lula.RateLimit.{
  TokenBucket, new_bucket, refill, acquire, RateLimiter, bucket_of, or_new, client_bucket, check,
  check_all, is_stale, cleanup,
}
use lula.RateLimit.Clients.{
  IsFormed, surviving, bucket_of-keep, bucket_of-put_bucket, full_again, acquire-refill,
}

-- The two limiters cannot be told apart by a request at or after the reading `from`.
record IsAlike (from : ℕ) (a b : RateLimiter) : Type 0 where
  capacity : a.capacity ≡ b.capacity
  rate : a.refill_rate ≡ b.refill_rate
  refilled :
      (client : String) (created now : ℕ)
      → from ≤ now
      → refill now (client_bucket a client created) ≡ refill now (client_bucket b client created)

-- Requests that are all acquired at or after the reading `from`.
abbrev pub AllFrom : ℕ → List (String × ℕ × ℕ) → Type 0
AllFrom from [] = Unit {0}
AllFrom from ((client, created, now) ∷ requests) = (from ≤ now) × AllFrom from requests

or_new-settings :
    (a b : RateLimiter) (created : ℕ) (o : Option TokenBucket)
    → a.capacity ≡ b.capacity
    → a.refill_rate ≡ b.refill_rate
    → or_new a created o ≡ or_new b created o
unfolding or_new
or_new-settings a b created none c r = ap₂ (λ c r. new_bucket c r created) c r
or_new-settings a b created (some k) c r = refl

-- The bucket of any client after a check.
client_bucket-check :
    (unit : ℕ) (l : RateLimiter) (client : String) (created now : ℕ) (j : String) (later : ℕ)
    → client_bucket (check unit l client created now).0 j later ≡ (
        if str_eq client j
        then (acquire unit now (client_bucket l client created)).0
        else client_bucket l j later)
unfolding check client_bucket
client_bucket-check unit l client created now j later =
    let b = (acquire unit now (client_bucket l client created)).0 in
    elim (Bool-cases (str_eq client j)) [
      | inl e ↦ rw (bucket_of-put_bucket client j b l.buckets, e) refl
      | inr e ↦
          rw (bucket_of-put_bucket client j b l.buckets, e)
            (or_new-settings (check unit l client created now).0 l later (bucket_of j l.buckets)
              refl refl)
    ]

module _ (unit from : ℕ) where
  check-IsAlike :
      (a b : RateLimiter) (client : String) (created now : ℕ)
      → IsAlike from a b
      → from ≤ now
      → ((check unit a client created now).1 ≡ (check unit b client created now).1)
        × IsAlike from (check unit a client created now).0 (check unit b client created now).0
  unfolding check
  check-IsAlike a b client created now h f =
      let e = acquire-refill unit now _ _ (h.refilled client created now f) in
      (
        ap (λ r. r.1) e,
        record {
          capacity = h.capacity;
          rate = h.rate;
          refilled = λ j later now' f'.
              rw
                (
                  client_bucket-check unit a client created now j later,
                  client_bucket-check unit b client created now j later,
                )
                (elim (Bool-cases (str_eq client j)) [
                  | inl y ↦ rw y (ap (λ r. refill now' r.0) e)
                  | inr n ↦ rw n (h.refilled j later now' f')
                ]);
        },
      )

  check_all-IsAlike :
      (requests : List (String × ℕ × ℕ)) (a b : RateLimiter)
      → IsAlike from a b
      → AllFrom from requests
      → check_all unit a requests ≡ check_all unit b requests
  unfolding check_all
  check_all-IsAlike [] a b h f = refl
  check_all-IsAlike ((client, created, now) ∷ requests) a b h f =
      let (same, alike) = check-IsAlike a b client created now h f.0 in
      ap₂ ◌∷◌ same (check_all-IsAlike requests _ _ alike f.1)

module _ (max_idle cleaned : ℕ) (l : RateLimiter) where
  cleanup-IsAlike :
      IsFormed l
      → l.capacity ≤ max_idle * l.refill_rate
      → IsAlike cleaned (cleanup max_idle cleaned l).0 l
  unfolding cleanup client_bucket or_new
  cleanup-IsAlike f enough = record {
    capacity = refl;
    rate = refl;
    refilled = λ client created now later.
        rw (bucket_of-keep max_idle cleaned client l.buckets f.distinct)
          (same client created now later (bucket_of client l.buckets) (f.settings client));
  }
    where
      same :
          (client : String) (created now : ℕ)
          → cleaned ≤ now
          → (o : Option TokenBucket)
          → ((b : TokenBucket)
              → o ≡ some b
              → (b.capacity ≡ l.capacity) × (b.refill_rate ≡ l.refill_rate))
          → refill now (or_new l created (surviving max_idle cleaned client o))
            ≡ refill now (or_new l created o)
      same client created now later none s = refl
      same client created now later (some b) s =
          let (c, r) = s b refl in
          elim (Bool-cases (is_stale max_idle cleaned (client, b))) [
            | inl e ↦ rw e (
                sym (
                  full_again l.capacity l.refill_rate max_idle cleaned created now b c r enough
                    (ltb→lt _ _ e) later))
            | inr e ↦ rw e refl
          ]

  -- If a bucket fills up within the time allowed for idling, then a cleanup changes no decision on
  -- any later requests: a list of requests of any clients, all of them acquired at or after the
  -- reading of the cleanup, is answered as it is without the cleanup.
  pub check_all-cleanup :
      (unit : ℕ) (requests : List (String × ℕ × ℕ))
      → IsFormed l
      → l.capacity ≤ max_idle * l.refill_rate
      → AllFrom cleaned requests
      → check_all unit (cleanup max_idle cleaned l).0 requests ≡ check_all unit l requests
  check_all-cleanup unit requests f enough later =
      check_all-IsAlike unit cleaned requests (cleanup max_idle cleaned l).0 l
        (cleanup-IsAlike f enough) later
