-- ===== src/RateLimit.antt =====
-- py/src/lg_orch/rate_limit.py: token buckets and the limiter that keeps one for each client.
-- The floats are scaled: times are ticks of the monotonic clock, tokens are counted in parts, `unit`
-- parts to a token, and `refill_rate` is in parts per tick. The clock's readings are arguments. Each
-- method is one step. For `check` that is an assumption, that nothing comes between: the source looks
-- the bucket up again, acquires and counts outside its lock, so that a cleanup in another thread can
-- take the bucket away in between (KeyError), and concurrent counts can be lost.
pub mod Bucket
pub mod Clients
pub mod Cleaned
mod Examples
use lula.Prelude.{
  ℕ, zero, suc, ◌+◌, ◌-◌, ◌*◌, min, String, Bool, true, false, not, Option, none, some, List, [],
  ◌∷◌, ◌++◌, str_eq, leb, ltb, if◌then◌else◌, length, keep, count_if,
}

pub record TokenBucket : Type 0 where
  pub capacity : ℕ
  pub refill_rate : ℕ
  pub tokens : ℕ
  pub last_refill : ℕ

-- The constructor and __post_init__.
unfoldable pub new_bucket : ℕ → ℕ → ℕ → TokenBucket
new_bucket capacity refill_rate now = record {
  capacity = capacity;
  refill_rate = refill_rate;
  tokens = capacity;
  last_refill = now;
}

pub refill : ℕ → TokenBucket → TokenBucket
refill now b = record b {
  tokens = min b.capacity (b.tokens + (now - b.last_refill) * b.refill_rate);
  last_refill = now;
}

module _ (unit : ℕ) where
  pub acquire : ℕ → TokenBucket → TokenBucket × Bool
  unfolding refill
  acquire now b =
      let r = refill now b in
      if leb unit r.tokens then (record r { tokens = r.tokens - unit }, true) else (r, false)

  -- Requests at the given readings of the clock, and how many of them are allowed.
  pub acquire_all : List ℕ → TokenBucket → TokenBucket × ℕ
  acquire_all [] b = (b, 0)
  acquire_all (now ∷ times) b =
      let (b', allowed) = acquire now b in
      let (b'', count) = acquire_all times b' in (b'', if allowed then suc count else count)

abbrev pub Buckets : Type 0
Buckets = List (String × TokenBucket)

pub record RateLimiter : Type 0 where
  pub buckets : Buckets
  pub capacity : ℕ
  pub refill_rate : ℕ
  pub total_requests : ℕ
  pub total_rejections : ℕ

unfoldable pub bucket_of : String → Buckets → Option TokenBucket
bucket_of k [] = none
bucket_of k ((j, b) ∷ rest) = if str_eq j k then some b else bucket_of k rest

-- self._buckets[k] = b
pub put_bucket : String → TokenBucket → Buckets → Buckets
put_bucket k b [] = (k, b) ∷ []
put_bucket k b ((j, a) ∷ rest) = if str_eq j k then (j, b) ∷ rest else (j, a) ∷ put_bucket k b rest

or_new : RateLimiter → ℕ → Option TokenBucket → TokenBucket
or_new l created none = new_bucket l.capacity l.refill_rate created
or_new l created (some b) = b

-- The bucket that `check` uses, made at the reading `created` if the client has none.
pub client_bucket : RateLimiter → String → ℕ → TokenBucket
unfolding or_new
client_bucket l client created = or_new l created (bucket_of client l.buckets)

pub check : ℕ → RateLimiter → String → ℕ → ℕ → RateLimiter × Bool
check unit l client created now =
    let (b, allowed) = acquire unit now (client_bucket l client created) in
    (
      record l {
        buckets = put_bucket client b l.buckets;
        total_requests = l.total_requests + 1;
        total_rejections = if allowed then l.total_rejections else l.total_rejections + 1;
      },
      allowed,
    )

abbrev pub is_stale : ℕ → ℕ → String × TokenBucket → Bool
is_stale max_idle now e = ltb max_idle (now - e.1.last_refill)

pub cleanup : ℕ → ℕ → RateLimiter → RateLimiter × ℕ
cleanup max_idle now l = (
  record l { buckets = keep (λ e. not (is_stale max_idle now e)) l.buckets },
  count_if (is_stale max_idle now) l.buckets,
)

-- The decisions on requests: the client, the reading for a new bucket, and the reading of `acquire`.
pub check_all : ℕ → RateLimiter → List (String × ℕ × ℕ) → List Bool
check_all unit l [] = []
check_all unit l ((client, created, now) ∷ requests) =
    let (l', allowed) = check unit l client created now in allowed ∷ check_all unit l' requests

pub record Metrics : Type 0 where
  pub requests : ℕ
  pub rejections : ℕ
  pub active_buckets : ℕ

pub metrics : RateLimiter → Metrics
metrics l = record {
  requests = l.total_requests;
  rejections = l.total_rejections;
  active_buckets = length l.buckets;
}
