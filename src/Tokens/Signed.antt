-- ===== src/Tokens/Signed.antt =====
-- A signed token, read back.
use Prim.Native.Char.{code}
use Prim.Native.String.{[] as ε, ◌∷◌ as ◌▸◌}
use lula.Prelude.{
  ℕ, ◌≡◌, ◌∙◌, ap, refl, String, Bool, true, false, not, ◌&&◌, some, [], ◌∷◌, ◌==◌, arith,
  Bool-cases, inl, inr, all,
}
use lula.Prelude.Texts.{is_blank, is_space, append, split, all_codes}
use lula.Prelude.TextLaws.{all_codes-append, strip-clean, split-clean, split-append}
use lula.Tokens.{
  dict, dot, pipe, non_empty_str, all_parts, coerce_parts, coerce_approval_token, coerce_texts,
  Signer, signature, approval_token_for_challenge,
}

-- No white space and no separator.
abbrev pub is_plain : ℕ → Bool
is_plain n = not (is_space n) && not (n == dot) && not (n == pipe)

abbrev pub IsPart : String → Type 0
IsPart s = (all_codes is_plain s ≡ true) × (is_blank s ≡ false)

weaken :
    (p q : ℕ → Bool) (s : String)
    → ((n : ℕ) → p n ≡ true → q n ≡ true)
    → all_codes p s ≡ true
    → all_codes q s ≡ true
unfolding all_codes
weaken p q ε h a = refl
weaken p q (c ▸ s) h a = ground (arith, h (code c), weaken p q s h, a)

no_space : (s : String) → all_codes is_plain s ≡ true → all_codes (λ n. not (is_space n)) s ≡ true
no_space s = weaken is_plain (λ n. not (is_space n)) s (λ n h. ground (arith, h))

no_dot : (s : String) → all_codes is_plain s ≡ true → all_codes (λ n. not (n == dot)) s ≡ true
no_dot s = weaken is_plain (λ n. not (n == dot)) s (λ n h. ground (arith, h))

no_pipe : (s : String) → all_codes is_plain s ≡ true → all_codes (λ n. not (n == pipe)) s ≡ true
no_pipe s = weaken is_plain (λ n. not (n == pipe)) s (λ n h. ground (arith, h))

is_blank-append : (s t : String) → is_blank s ≡ false → is_blank (append s t) ≡ false
unfolding is_blank append
is_blank-append ε t h = cc
is_blank-append (c ▸ s) t h = refl

-- A text without white space is taken as it is.
non_empty_str-clean :
    (s : String)
    → all_codes (λ n. not (is_space n)) s ≡ true
    → is_blank s ≡ false
    → non_empty_str (some s) ≡ some s
unfolding non_empty_str
non_empty_str-clean s h b = rw (strip-clean s h, b) refl

split-dot :
    (s t : String)
    → all_codes is_plain s ≡ true
    → split dot (append s (append "." t)) ≡ s ∷ split dot t
unfolding split append
split-dot s t h = split-append dot s "." t (no_dot s h) refl

no_space-dot :
    (s t : String)
    → all_codes is_plain s ≡ true
    → all_codes (λ n. not (is_space n)) t ≡ true
    → all_codes (λ n. not (is_space n)) (append s (append "." t)) ≡ true
unfolding append all_codes is_space
no_space-dot s t h k = all_codes-append (λ n. not (is_space n)) s (append "." t) (no_space s h) k

module _ (k : Signer) (challenge_id : String) where
  coerce-signed :
      is_blank k.secret ≡ false
      → IsPart challenge_id
      → IsPart k.iat
      → IsPart k.nonce
      → IsPart (signature k challenge_id)
      → coerce_approval_token
          (dict (some challenge_id) (some (approval_token_for_challenge k challenge_id)))
        ≡ some (record {
          challenge_id = challenge_id;
          token = approval_token_for_challenge k challenge_id;
        })
  unfolding coerce_approval_token coerce_texts approval_token_for_challenge coerce_parts all_parts
      all
  coerce-signed s c i n g =
      let last = signature k challenge_id in
      let tail = append k.iat (append "." (append k.nonce (append "." last))) in
      let clean =
        no_space-dot challenge_id tail c.0
          (no_space-dot k.iat _ i.0 (no_space-dot k.nonce _ n.0 (no_space last g.0))) in
      let parts : split dot (append challenge_id (append "." tail))
          ≡ challenge_id ∷ k.iat ∷ k.nonce ∷ last ∷ [] =
        split-dot challenge_id tail c.0
        ∙ ap (λ l. challenge_id ∷ l)
            (split-dot k.iat _ i.0
              ∙ ap (λ l. k.iat ∷ l)
                  (split-dot k.nonce last n.0
                    ∙ ap (λ l. k.nonce ∷ l) (split-clean dot last (no_dot last g.0)))) in
      rw
        (
          s,
          non_empty_str-clean challenge_id (no_space challenge_id c.0) c.1,
          non_empty_str-clean (append challenge_id (append "." tail)) clean
              (is_blank-append challenge_id (append "." tail) c.1),
          parts,
          c.1,
          i.1,
          n.1,
          g.1,
        )
        refl

  coerce-unsigned :
      is_blank k.secret ≡ true
      → IsPart challenge_id
      → coerce_approval_token
          (dict (some challenge_id) (some (approval_token_for_challenge k challenge_id)))
        ≡ some (record {
          challenge_id = challenge_id;
          token = approval_token_for_challenge k challenge_id;
        })
  unfolding coerce_approval_token coerce_texts approval_token_for_challenge coerce_parts all_codes
      append is_space is_blank
  coerce-unsigned s c =
      let token = append "approve:" challenge_id in
      let plain : all_codes is_plain token ≡ true =
        all_codes-append is_plain "approve:" challenge_id refl c.0 in
      rw
        (
          s,
          non_empty_str-clean challenge_id (no_space challenge_id c.0) c.1,
          non_empty_str-clean token (no_space token plain) refl,
          split-clean dot token (no_dot token plain),
          split-clean pipe token (no_pipe token plain),
        )
        refl

  -- Where the challenge, the time, the nonce and the digest are not empty and hold no white space, dot
  -- or bar: the token that is made for a challenge is taken back whole, with that challenge, whether
  -- there is a secret or not.
  pub coerce-token_for_challenge :
      IsPart challenge_id
      → IsPart k.iat
      → IsPart k.nonce
      → IsPart (signature k challenge_id)
      → coerce_approval_token
          (dict (some challenge_id) (some (approval_token_for_challenge k challenge_id)))
        ≡ some (record {
          challenge_id = challenge_id;
          token = approval_token_for_challenge k challenge_id;
        })
  coerce-token_for_challenge c i n g = elim (Bool-cases (is_blank k.secret)) [
    | inl e ↦ coerce-unsigned e c
    | inr e ↦ coerce-signed e c i n g
  ]
