-- ===== src/Memory/Facts/Best.antt =====
-- Which facts a model is told.
use lula.Prelude.{
  String, ◌≡◌, refl, ◌∙◌, sym, ap, true, false, Option, none, some, List, [], ◌∷◌, arith, str_eq,
  str_eq-cases, str_eq_self, if◌then◌else◌, map, Bool-cases, inl, inr,
}
use lula.Prelude.Dicts.{get, put}
use lula.Prelude.Ranked.{IsBest, sort-IsBest}
use lula.Prelude.Ranked.Keys.{
  le_int, le_pair, le_int_total, le_int_trans, le_pair_total, le_pair_trans,
}
use lula.Memory.Facts.{
  RawFact, PackFact, normalized, key_of, rank_le, recovery_rank, pack_le, put_better, note_entry,
  dedupe, deduped, fact_pack,
}

abbrev pub Dict : Type 0
Dict = List (String × PackFact)

rank_le_total : (f g : PackFact) → rank_le f g ≡ false → rank_le g f ≡ true
rank_le_total f g =
    le_pair_total le_int le_int le_int_total le_int_total (f.salience, f.loop) (g.salience, g.loop)

rank_le_trans : (f g h : PackFact) → rank_le f g ≡ true → rank_le g h ≡ true → rank_le f h ≡ true
rank_le_trans f g h =
    le_pair_trans le_int le_int le_int_trans le_int_trans (f.salience, f.loop) (g.salience, g.loop)
      (h.salience, h.loop)

pack_le_total : (f g : PackFact) → pack_le f g ≡ false → pack_le g f ≡ true
unfolding pack_le
pack_le_total f g =
    le_pair_total (le_pair le_int le_int) le_int
      (le_pair_total le_int le_int le_int_total le_int_total) le_int_total
      ((f.salience, f.loop), recovery_rank f) ((g.salience, g.loop), recovery_rank g)

pack_le_trans : (f g h : PackFact) → pack_le f g ≡ true → pack_le g h ≡ true → pack_le f h ≡ true
unfolding pack_le
pack_le_trans f g h =
    le_pair_trans (le_pair le_int le_int) le_int
      (le_pair_trans le_int le_int le_int_trans le_int_trans) le_int_trans
      ((f.salience, f.loop), recovery_rank f) ((g.salience, g.loop), recovery_rank g)
      ((h.salience, h.loop), recovery_rank h)

get-put_same : (k : String) (v : PackFact) (d : Dict) → get k (put k v d) ≡ some v
unfolding get put
get-put_same k v [] = rw (str_eq_self k) refl
get-put_same k v ((j, w) ∷ d) = elim (Bool-cases (str_eq j k)) [
  | inl e ↦ rw (e, e) refl
  | inr e ↦ rw (e, e) (get-put_same k v d)
]

get-put_other :
    (i k : String) (v : PackFact) (d : Dict) → str_eq k i ≡ false → get i (put k v d) ≡ get i d
unfolding get put
get-put_other i k v [] n = rw n refl
get-put_other i k v ((j, w) ∷ d) n = elim (str_eq-cases j k) [
  | inl (p, e) ↦ let n' : str_eq j i ≡ false = ap (λ x. str_eq x i) p ∙ n in rw (e, n') refl
  | inr (p, e) ↦ rw e (ap (λ x. if str_eq j i then some w else x) (get-put_other i k v d n))
]

-- The fact under the key of `e` ranks at least as high as `e`.
pub record IsCovered (e : PackFact) (d : Dict) : Type 0 where
  pub held : PackFact
  pub found : get (key_of e) d ≡ some held
  pub over : rank_le e held ≡ true

-- Putting a fact under a key whose fact it outranks keeps what is covered.
put-IsCovered :
    (e x : PackFact) (d : Dict)
    → ((c : PackFact) → get (key_of e) d ≡ some c → rank_le c e ≡ true)
    → IsCovered x d
    → IsCovered x (put (key_of e) e d)
put-IsCovered e x d better h = elim (str_eq-cases (key_of e) (key_of x)) [
  | inl (p, t) ↦ record {
    held = e;
    found = ap (λ k. get k (put (key_of e) e d)) (sym p) ∙ get-put_same (key_of e) e d;
    over = rank_le_trans x h.held e h.over (better h.held (ap (λ k. get k d) p ∙ h.found));
  }
  | inr (n, f) ↦ record {
    held = h.held;
    found = get-put_other (key_of x) (key_of e) e d f ∙ h.found;
    over = h.over;
  }
]

rank_le_self : (e : PackFact) → rank_le e e ≡ true
rank_le_self e = elim (Bool-cases (rank_le e e)) [ inl t ↦ t | inr f ↦ rank_le_total e e f ]

put-IsCovered_self : (e : PackFact) (d : Dict) → IsCovered e (put (key_of e) e d)
put-IsCovered_self e d = record {
  held = e;
  found = get-put_same (key_of e) e d;
  over = rank_le_self e;
}

put_better-IsCovered :
    (e x : PackFact) (d : Dict) (o : Option PackFact)
    → get (key_of e) d ≡ o
    → IsCovered x d
    → IsCovered x (put_better e d o)
unfolding put_better
put_better-IsCovered e x d none q h = put-IsCovered e x d (λ c r. ground (arith, sym q ∙ r)) h
put_better-IsCovered e x d (some current) q h = elim (Bool-cases (rank_le current e)) [
  | inl t ↦ rw t (
      put-IsCovered e x d
        (λ c r. ap (λ o. rank_le (elim o [ none ↦ current | some y ↦ y ]) e) (sym r ∙ q) ∙ t) h)
  | inr f ↦ rw f h
]

put_better-IsCovered_self :
    (e : PackFact) (d : Dict) (o : Option PackFact)
    → get (key_of e) d ≡ o
    → IsCovered e (put_better e d o)
unfolding put_better
put_better-IsCovered_self e d none q = put-IsCovered_self e d
put_better-IsCovered_self e d (some current) q = elim (Bool-cases (rank_le current e)) [
  | inl t ↦ rw t (put-IsCovered_self e d)
  | inr f ↦ rw f (record { held = current; found = q; over = rank_le_total current e f })
]

dedupe-IsCovered :
    (x : PackFact) (es : List PackFact) (d : Dict) → IsCovered x d → IsCovered x (dedupe es d)
unfolding dedupe note_entry
dedupe-IsCovered x [] d h = h
dedupe-IsCovered x (e ∷ es) d h =
    dedupe-IsCovered x es _ (put_better-IsCovered e x d (get (key_of e) d) refl h)

abbrev pub AllCovered : List PackFact → Dict → Type 0
AllCovered [] d = Unit {0}
AllCovered (e ∷ es) d = IsCovered e d × AllCovered es d

dedupe-AllCovered : (es : List PackFact) (d : Dict) → AllCovered es (dedupe es d)
unfolding dedupe note_entry
dedupe-AllCovered [] d = tt
dedupe-AllCovered (e ∷ es) d = (
  dedupe-IsCovered e es _ (put_better-IsCovered_self e d (get (key_of e) d) refl),
  dedupe-AllCovered es _,
)

-- The fact pack has the eight best facts of those that are left for each fingerprint or summary, in
-- descending order of salience, loop and being a recovery fact; and for every fact that has a
-- fingerprint or a summary, one of at least its salience and loop is left under the same key.
pub fact_pack-IsBest :
    (facts : List RawFact)
    → IsBest pack_le 8 (map (λ p. p.1) (deduped facts)) (fact_pack facts)
      × AllCovered (normalized facts) (deduped facts)
unfolding fact_pack deduped
fact_pack-IsBest facts = (
  sort-IsBest pack_le pack_le_total pack_le_trans 8 (map (λ p. p.1) (deduped facts)),
  dedupe-AllCovered (normalized facts) [],
)
