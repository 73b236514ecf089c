-- ===== src/Procedures/Stored.antt =====
-- A procedure that was stored is found again.
use lula.Prelude.{
  ℕ, zero, suc, ◌≡◌, refl, ◌∙◌, sym, ap, String, Bool, true, false, Option, none, some, List, [],
  ◌∷◌, arith, str_eq, str_eq_self, eq_iff, if◌then◌else◌, keep, take, Bool-cases, inl, inr,
}
use lula.Prelude.Texts.{is_blank}
use lula.Prelude.Ranked.{insert_desc, sort_desc}
use lula.Procedures.{
  Row, updated, upsert, use_le, canonical_request_hash, id_of, row_of, store_procedure, loaded,
  load_rows, matches, lookup_procedure,
}

has_id : String → Row → Bool
has_id id r = str_eq r.procedure_id id

-- The uses of the row with an id, 0 and none where there is no such row.
pub uses_of : String → List Row → ℕ × Option String
unfolding has_id
uses_of id [] = (0, none)
uses_of id (r ∷ rs) =
    let rest = uses_of id rs in if has_id id r then (r.use_count, r.last_used_at) else rest

-- Each row meets the condition `p` exactly if it has the id.
abbrev pub Agree : (Row → Bool) → String → List Row → Type 0
Agree p id [] = Unit {0}
Agree p id (r ∷ rs) = (p r ≡ str_eq r.procedure_id id) × Agree p id rs

-- No row has the id.
abbrev pub IsAbsent : String → List Row → Type 0
IsAbsent id [] = Unit {0}
IsAbsent id (r ∷ rs) = (str_eq r.procedure_id id ≡ false) × IsAbsent id rs

-- At most one row has the id, which is the primary key.
abbrev pub IsUnique : String → List Row → Type 0
IsUnique id [] = Unit {0}
IsUnique id (r ∷ rs) = (str_eq r.procedure_id id ≡ true → IsAbsent id rs) × IsUnique id rs

-- A new row with the uses of the old one.
pub with_uses : Row → ℕ × Option String → Row
with_uses r (n, used) = record r { use_count = n; last_used_at = used }

keep_absent :
    (p : Row → Bool) (id : String) (rows : List Row)
    → Agree p id rows
    → IsAbsent id rows
    → keep p rows ≡ []
unfolding keep
keep_absent p id [] a n = refl
keep_absent p id (r ∷ rs) (e, a) (f, n) = rw (e ∙ f) (keep_absent p id rs a n)

-- The condition reads the key alone: the id, the name and the hash.
module _ (p : Row → Bool) (new : Row) (on_update : (r : Row) → p (updated new r) ≡ p r)
    (same : (r : Row)
      → str_eq r.procedure_id new.procedure_id ≡ true
      → p r ≡ true
      → updated new r ≡ with_uses new (r.use_count, r.last_used_at))
    (fresh : with_uses new (0, none) ≡ new) (meets : p new ≡ true) where
  keep-upsert :
      (rows : List Row)
      → Agree p new.procedure_id rows
      → IsUnique new.procedure_id rows
      → keep p (upsert new rows) ≡ with_uses new (uses_of new.procedure_id rows) ∷ []
  unfolding keep upsert uses_of has_id
  keep-upsert [] a u = rw meets (ap (λ r. r ∷ []) (sym fresh))
  keep-upsert (r ∷ rs) (e, a) (n, u) = elim (Bool-cases (str_eq r.procedure_id new.procedure_id)) [
    | inl t ↦
        rw (t, on_update r ∙ e ∙ t)
          (ap (λ l. updated new r ∷ l) (keep_absent p new.procedure_id rs a (n t))
            ∙ ap (λ x. x ∷ []) (same r t (e ∙ t)))
    | inr f ↦ rw (f, e ∙ f) (keep-upsert rs a u)
  ]

take_nil : (n : ℕ) → take {A = Row} n [] ≡ []
take_nil zero = refl
take_nil (suc n) = refl

-- Rows of the same id, name and hash differ in their uses at most, once the rest is updated.
updated_same :
    (new r : Row)
    → r.procedure_id ≡ new.procedure_id
    → r.canonical_name ≡ new.canonical_name
    → r.request_hash ≡ new.request_hash
    → updated new r ≡ with_uses new (r.use_count, r.last_used_at)
unfolding updated with_uses
updated_same new r i c h =
    ap (λ x. record (updated new r) { procedure_id = x }) i
    ∙ ap (λ x. record (updated new r) { procedure_id = new.procedure_id; canonical_name = x }) c
    ∙ ap
        (λ x. record (updated new r) {
          procedure_id = new.procedure_id;
          canonical_name = new.canonical_name;
          request_hash = x;
        })
        h

module _ (digest lower : String → String) {J : Type 0} (dumps : J → String)
    (loads : String → Option J) where
  matches-updated :
      (hash name : String) (new r : Row)
      → matches digest lower dumps loads hash name (updated new r)
        ≡ matches digest lower dumps loads hash name r
  unfolding matches updated
  matches-updated hash name new r = refl

  match : String → String → Row → Bool
  match hash name = matches digest lower dumps loads hash name

  matches-named :
      (hash name : String) (r : Row)
      → is_blank name ≡ false
      → match hash name r ≡ true
      → (r.canonical_name ≡ name) × (r.request_hash ≡ hash)
  unfolding match matches
  matches-named hash name r b m = (
    (eq_iff r.canonical_name name).0 (ground (arith, b, m)),
    (eq_iff r.request_hash hash).0 (ground (arith, m)),
  )

  match_self : (r : Row) → match r.request_hash r.canonical_name r ≡ true
  unfolding match matches
  match_self r = ground (arith, str_eq_self r.request_hash, str_eq_self r.canonical_name)

  -- Where `loads` undoes `dumps`, the name is not empty, and the table has the id of the procedure in
  -- the rows with its name and request hash and in at most one: after it was stored, a lookup of the
  -- request and the name finds just this procedure, with its steps and verification, and with the uses
  -- that the table counted before.
  pub lookup-store_procedure :
      (name request task_class : String) (steps verification : J) (created_at : String) (limit : ℕ)
      (rows : List Row)
      → ((j : J) → loads (dumps j) ≡ some j)
      → is_blank name ≡ false
      → Agree
          (matches digest lower dumps loads (canonical_request_hash digest lower request) name)
          (id_of digest lower name (canonical_request_hash digest lower request))
          rows
      → IsUnique (id_of digest lower name (canonical_request_hash digest lower request)) rows
      → lookup_procedure digest lower dumps loads request name (suc limit) (
          store_procedure digest lower dumps loads name request task_class steps verification
            created_at rows)
        ≡ record {
          procedure_id = id_of digest lower name (canonical_request_hash digest lower request);
          canonical_name = name;
          task_class = task_class;
          steps = steps;
          verification = verification;
          use_count =
              (uses_of
                (id_of digest lower name (canonical_request_hash digest lower request))
                rows).0;
          last_used_at =
              (uses_of
                (id_of digest lower name (canonical_request_hash digest lower request))
                rows).1;
          created_at = created_at;
        }
          ∷ []
  unfolding lookup_procedure store_procedure row_of sort_desc insert_desc load_rows loaded with_uses
      match
  lookup-store_procedure name request task_class steps verification created_at limit rows undone b a
        u =
      let new : Row =
        row_of digest lower dumps loads name request task_class steps verification created_at in
      let found =
        keep-upsert (match new.request_hash name) new (matches-updated new.request_hash name new)
          (λ r i m.
            updated_same new r ((eq_iff r.procedure_id new.procedure_id).0 i)
              (matches-named new.request_hash name r b m).0
              (matches-named new.request_hash name r b m).1)
          refl (match_self new) rows a u in
      ap (λ l. load_rows digest lower dumps loads (take (suc limit) (sort_desc use_le l))) found
      ∙ rw (undone steps, undone verification, take_nil limit) refl
