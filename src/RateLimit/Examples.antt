-- ===== src/RateLimit/Examples.antt =====
-- The limiter at a few readings of the clock.
use lula.Prelude.{
  ◌+◌, ◌-◌, ◌*◌, ◌≤◌, String, ◌≡◌, refl, some, [], ◌∷◌, arith, str_eq, if◌then◌else◌,
}
use lula.Prelude.Members.{contains}
use lula.RateLimit.{
  TokenBucket, new_bucket, acquire, acquire_all, RateLimiter, bucket_of, client_bucket, check,
  check_all, cleanup,
}
use lula.RateLimit.Bucket.{acquire_all-le}
use lula.RateLimit.Clients.{IsFormed, check_lem}
use lula.RateLimit.Cleaned.{check_all-cleanup}

abbrev bucket : TokenBucket
bucket = new_bucket 2 1 10

acquire_all-le_example : (acquire_all 1 (10 ∷ 10 ∷ 10 ∷ 12 ∷ []) bucket).1 * 1 ≤ 2 + (12 - 10) * 1
unfolding new_bucket
acquire_all-le_example =
    acquire_all-le 1 (10 ∷ 10 ∷ 10 ∷ 12 ∷ []) bucket (omega arith) (omega arith)

abbrev limiter : RateLimiter
limiter = record {
  buckets = ("ann", record { capacity = 2; refill_rate = 1; tokens = 0; last_refill = 10 }) ∷ [];
  capacity = 2;
  refill_rate = 1;
  total_requests = 2;
  total_rejections = 0;
}

limiter-IsFormed : IsFormed limiter
unfolding bucket_of contains
limiter-IsFormed = record { distinct = (refl, tt); settings = λ k b e. ground arith }

check_all-cleanup_example :
    check_all 1 (cleanup 5 20 limiter).0 (("bob", 21, 21) ∷ ("ann", 21, 21) ∷ [])
    ≡ check_all 1 limiter (("bob", 21, 21) ∷ ("ann", 21, 21) ∷ [])
check_all-cleanup_example =
    check_all-cleanup 5 20 limiter 1 (("bob", 21, 21) ∷ ("ann", 21, 21) ∷ []) limiter-IsFormed
      (omega arith) (omega arith, (omega arith, tt))

check_lem_example :
    let l' = (check 1 limiter "bob" 21 21).0 in
    let allowed = (check 1 limiter "bob" 21 21).1 in
    IsFormed l'
    × ((j : String)
        → bucket_of j l'.buckets ≡ (
            if str_eq "bob" j
            then some (acquire 1 21 (client_bucket limiter "bob" 21)).0
            else bucket_of j limiter.buckets))
    × (l'.total_requests ≡ limiter.total_requests + 1)
    × (l'.total_rejections ≡ limiter.total_rejections + (if allowed then 0 else 1))
check_lem_example = check_lem 1 limiter "bob" 21 21 limiter-IsFormed
