-- ===== src/Healing/Queue.antt =====
-- The queue of healing jobs: which jobs wait, and how many run.
use lula.Prelude.{
  ℕ, zero, suc, ◌≤◌, ◌≡◌, ◌⊎◌, ◌∙◌, ap, sym, refl, Bool, true, false, Option, none, some, List, [],
  ◌∷◌, ◌++◌, arith, if◌then◌else◌, length, take, drop, keep, map, Bool-cases, inl, inr,
}
use lula.Healing.{JobStatus, queued, running, HealingJob, set_status, status_of, mark_running}

abbrev pub is_queued : JobStatus → Bool
is_queued queued = true
is_queued _ = false

-- The places of the queued jobs, oldest first.
unfoldable pub queued_places : List HealingJob → List ℕ
queued_places [] = []
queued_places (j ∷ js) =
    let rest = map suc (queued_places js) in if is_queued j.status then 0 ∷ rest else rest

abbrev pub is_waiting : Option JobStatus → Bool
is_waiting none = false
is_waiting (some st) = is_queued st

map-append : (f : ℕ → ℕ) (xs ys : List ℕ) → map f (xs ++ ys) ≡ map f xs ++ map f ys
map-append f [] ys = refl
map-append f (x ∷ xs) ys = ap (λ l. f x ∷ l) (map-append f xs ys)

pub queued_places-append :
    (js : List HealingJob) (j : HealingJob)
    → j.status ≡ queued
    → queued_places (js ++ j ∷ []) ≡ queued_places js ++ length js ∷ []
unfolding queued_places
queued_places-append [] j q = rw q refl
queued_places-append (k ∷ js) j q =
    let later =
      ap (map suc) (queued_places-append js j q)
      ∙ map-append suc (queued_places js) (length js ∷ []) in
    elim (Bool-cases (is_queued k.status)) [
      | inl e ↦ rw e (ap (λ l. 0 ∷ l) later)
      | inr e ↦ rw e later
    ]

-- A job that does not wait can get any status but "queued".
pub queued_places-set_status :
    (i : ℕ) (st : JobStatus) (js : List HealingJob)
    → is_queued st ≡ false
    → is_waiting (status_of js i) ≡ false
    → queued_places (set_status i st js) ≡ queued_places js
unfolding queued_places set_status status_of
queued_places-set_status i st [] n w = refl
queued_places-set_status zero st (j ∷ js) n w = rw (n, w) refl
queued_places-set_status (suc i) st (j ∷ js) n w = rw (queued_places-set_status i st js n w) refl

map-suc-head :
    (i : ℕ) (q rest : List ℕ)
    → map suc q ≡ i ∷ rest
    → (k : ℕ) × (ks : List ℕ) × (q ≡ k ∷ ks) × (i ≡ suc k) × (map suc ks ≡ rest)
map-suc-head i [] rest h = cc
map-suc-head i (k ∷ ks) rest h = (k, ks, refl, cc, cc)

-- The oldest job that waits leaves the queue when it runs.
queued_places-run :
    (i : ℕ) (rest : List ℕ) (js : List HealingJob)
    → queued_places js ≡ i ∷ rest
    → queued_places (set_status i running js) ≡ rest
unfolding queued_places set_status
queued_places-run i rest [] h = cc
queued_places-run zero rest (j ∷ js) h = elim (Bool-cases (is_queued j.status)) [
  | inl e ↦ let same : 0 ∷ map suc (queued_places js) ≡ 0 ∷ rest = rw e at h in cc
  | inr e ↦
      let shifted : map suc (queued_places js) ≡ 0 ∷ rest = rw e at h in
      let (k, ks, at, z, later) = map-suc-head 0 (queued_places js) rest shifted in
      absurd (omega (arith, z))
]
queued_places-run (suc i) rest (j ∷ js) h = elim (Bool-cases (is_queued j.status)) [
  | inl e ↦ let same : 0 ∷ map suc (queued_places js) ≡ suc i ∷ rest = rw e at h in cc
  | inr e ↦
      let shifted : map suc (queued_places js) ≡ suc i ∷ rest = rw e at h in
      let (k, ks, here_is, z, later) = map-suc-head (suc i) (queued_places js) rest shifted in
      let place : k ≡ i = omega (arith, z) in
      rw e (ap (map suc) (queued_places-run i ks js (rw place at here_is)) ∙ later)
]

pub queued_places-mark_running :
    (n : ℕ) (q : List ℕ) (js : List HealingJob)
    → q ≡ queued_places js
    → drop n q ≡ queued_places (mark_running (take n q) js)
unfolding mark_running
queued_places-mark_running zero q js h = h
queued_places-mark_running (suc n) [] js h = h
queued_places-mark_running (suc n) (i ∷ rest) js h =
    queued_places-mark_running n rest (set_status i running js)
      (sym (queued_places-run i rest js (sym h)))

pub length-take : (n : ℕ) (xs : List ℕ) → length (take n xs) ≤ n
length-take zero xs = omega arith
length-take (suc n) [] = omega arith
length-take (suc n) (x ∷ xs) = omega (arith, length-take n xs)

pub length-keep-le : (p : ℕ → Bool) (xs : List ℕ) → length (keep p xs) ≤ length xs
unfolding keep
length-keep-le p [] = omega arith
length-keep-le p (x ∷ xs) = ground (arith, length-keep-le p xs)

pub status_of-set_status :
    (i k : ℕ) (st : JobStatus) (js : List HealingJob)
    → status_of (set_status i st js) k ≡ status_of js k ⊎ status_of (set_status i st js) k ≡ some st
unfolding status_of set_status
status_of-set_status i k st [] = inl refl
status_of-set_status zero zero st (j ∷ js) = inr refl
status_of-set_status zero (suc k) st (j ∷ js) = inl refl
status_of-set_status (suc i) zero st (j ∷ js) = inl refl
status_of-set_status (suc i) (suc k) st (j ∷ js) = status_of-set_status i k st js
