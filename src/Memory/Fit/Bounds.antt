-- ===== src/Memory/Fit/Bounds.antt =====
-- How many tokens a fitted context has.
use Prim.Native.Char.{code}
use Prim.Native.String.{[] as ε, ◌∷◌ as ◌▸◌}
use lula.Prelude.{
  ℕ, zero, suc, ◌+◌, ◌-◌, ◌*◌, ◌<◌, ◌≤◌, ◌≡◌, ◌⊎◌, refl, String, Bool, ◌&&◌, List, [], ◌∷◌, ◌++◌,
  arith, leb, ◌==◌, Bool-cases, if_both, inl, inr,
}
use lula.Prelude.Texts.{strip, lstrip, rstrip, is_space, is_blank, append}
use lula.Memory.Fit.{
  char_count, take_chars, drop_chars, last_chars, approx_token_count, marker, head_chars,
  tail_chars, cut_middle, truncate_text_to_budget, Fitted, block_of, decided, fit_block, fit_loop,
}

char_count-append : (s t : String) → char_count (append s t) ≡ char_count s + char_count t
unfolding char_count append
char_count-append ε t = omega arith
char_count-append (c ▸ s) t = omega (arith, char_count-append s t)

char_count-take_chars : (n : ℕ) (s : String) → char_count (take_chars n s) ≤ n
unfolding char_count take_chars
char_count-take_chars zero s = omega arith
char_count-take_chars (suc n) ε = omega arith
char_count-take_chars (suc n) (c ▸ s) = omega (arith, char_count-take_chars n s)

char_count-drop_chars : (n : ℕ) (s : String) → char_count (drop_chars n s) ≡ char_count s - n
unfolding char_count drop_chars
char_count-drop_chars zero s = omega arith
char_count-drop_chars (suc n) ε = omega arith
char_count-drop_chars (suc n) (c ▸ s) = omega (arith, char_count-drop_chars n s)

char_count-last_chars : (n : ℕ) (s : String) → char_count (last_chars n s) ≤ n
unfolding last_chars
char_count-last_chars n s = omega (arith, char_count-drop_chars (char_count s - n) s)

char_count-lstrip : (s : String) → char_count (lstrip s) ≤ char_count s
unfolding char_count lstrip
char_count-lstrip ε = omega arith
char_count-lstrip (c ▸ s) = ground (arith, char_count-lstrip s)

char_count-rstrip : (s : String) → char_count (rstrip s) ≤ char_count s
unfolding char_count rstrip
char_count-rstrip ε = omega arith
char_count-rstrip (c ▸ s) =
    if_both (λ (r : String). char_count r ≤ suc (char_count s))
      (is_blank (rstrip s) && is_space (code c)) (omega arith) (omega (arith, char_count-rstrip s))

char_count-cut_middle :
    (n : ℕ) (s : String) → char_count (cut_middle n s) ≤ head_chars n + 20 + tail_chars n
unfolding cut_middle
char_count-cut_middle n s =
    let head = take_chars (head_chars n) s in
    let tail = last_chars (tail_chars n) s in
    let size : char_count marker ≡ 20 = unfold char_count in refl in
    omega (
      arith,
      size,
      char_count-append (rstrip head) (append marker (lstrip tail)),
      char_count-append marker (lstrip tail),
      char_count-rstrip head,
      char_count-lstrip tail,
      char_count-take_chars (head_chars n) s,
      char_count-last_chars (tail_chars n) s,
    )

sizes_small : (b : ℕ) → 16 < b → b < 20 → head_chars (b * 4) + 20 + tail_chars (b * 4) ≤ 80
unfolding head_chars tail_chars
sizes_small b h k = omega (arith, h, k)

sizes_large : (b : ℕ) → 20 ≤ b → head_chars (b * 4) + 20 + tail_chars (b * 4) ≤ 4 * b
unfolding head_chars tail_chars
sizes_large b h = omega (arith, h)

-- A count of characters, in tokens.
approx_token_count-le : (s : String) (n : ℕ) → char_count s ≤ 4 * n → approx_token_count s ≤ n
unfolding approx_token_count is_blank char_count
approx_token_count-le ε n h = omega arith
approx_token_count-le (c ▸ s) n h = omega (arith, h)

-- A text cut to a budget has no more tokens than the budget, but for a budget of 17, 18 or 19
-- tokens, where it has at most 20.
pub truncate-tokens :
    (budget : ℕ) (s : String)
    → (approx_token_count (truncate_text_to_budget budget s).0 ≤ budget)
      ⊎ ((16 < budget)
          × (budget < 20)
          × (approx_token_count (truncate_text_to_budget budget s).0 ≤ 20))
unfolding truncate_text_to_budget
truncate-tokens budget s = elim (Bool-cases (budget == 0)) [
  | inl e ↦ inl (rw e (approx_token_count-le ε budget (unfold char_count in omega arith)))
  | inr e ↦ elim (Bool-cases (leb (char_count s) (budget * 4))) [
    | inl f ↦ inl (rw (e, f) (approx_token_count-le s budget (ground arith)))
    | inr f ↦ elim (Bool-cases (leb (budget * 4) 64)) [
      | inl g ↦
          let short = char_count-take_chars (budget * 4) s in
          let cut = char_count-rstrip (take_chars (budget * 4) s) in
          inl (rw (e, f, g) (approx_token_count-le _ budget (omega (arith, short, cut))))
      | inr g ↦
          let size = char_count-cut_middle (budget * 4) s in
          let large : 16 < budget = ground (arith, g) in
          rw (e, f, g)
            (elim (Bool-cases (leb 20 budget)) [
              | inl h ↦
                  let room = sizes_large budget (ground (arith, h)) in
                  inl (approx_token_count-le _ budget (omega (arith, size, room)))
              | inr h ↦
                  let small : budget < 20 = ground (arith, h) in
                  inr (
                    large,
                    small,
                    approx_token_count-le _ 20
                        (omega (arith, size, sizes_small budget large small)),
                  )
            ])
    ]
  ]
]

-- The tokens of a list of chunks.
pub total_tokens : List String → ℕ
total_tokens [] = 0
total_tokens (c ∷ cs) = approx_token_count c + total_tokens cs

total_tokens-append :
    (cs : List String) (c : String)
    → total_tokens (cs ++ c ∷ []) ≡ total_tokens cs + approx_token_count c
unfolding total_tokens
total_tokens-append [] c = omega arith
total_tokens-append (d ∷ cs) c = omega (arith, total_tokens-append cs c)

-- Within the budget, or over it by at most 3 tokens with nothing left.
Within : ℕ → Fitted → Type 0
Within budget f =
    (total_tokens f.chunks + f.remaining ≤ budget)
    ⊎ ((f.remaining ≡ 0) × (total_tokens f.chunks ≤ budget + 3))

decided-Within :
    (budget : ℕ) (label block : String) (r : String × Bool) (f : Fitted)
    → total_tokens f.chunks + f.remaining ≤ budget
    → (approx_token_count r.0 ≤ f.remaining)
      ⊎ ((16 < f.remaining) × (f.remaining < 20) × (approx_token_count r.0 ≤ 20))
    → Within budget (decided label block r f)
unfolding decided Within
decided-Within budget label block (text, cut) f h t = elim (Bool-cases (is_blank (strip text))) [
  | inl e ↦
      rw e (elim t [ inl p ↦ inl (omega (arith, h, p)) | inr (a, b, c) ↦ inl (omega (arith, h)) ])
  | inr e ↦ rw e (elim t [
    | inl p ↦ inl (omega (arith, h, p, total_tokens-append f.chunks text))
    | inr (a, b, c) ↦ over a b c
  ])
]
  where
    over :
        16 < f.remaining
        → f.remaining < 20
        → approx_token_count text ≤ 20
        → (total_tokens (f.chunks ++ text ∷ []) + (f.remaining - approx_token_count text) ≤ budget)
          ⊎ ((f.remaining - approx_token_count text ≡ 0)
              × (total_tokens (f.chunks ++ text ∷ []) ≤ budget + 3))
    over a b c = elim (Bool-cases (leb (approx_token_count text) f.remaining)) [
      | inl k ↦
          let fits : approx_token_count text ≤ f.remaining = ground (arith, k) in
          inl (omega (arith, h, fits, total_tokens-append f.chunks text))
      | inr k ↦
          let more : f.remaining < approx_token_count text = ground (arith, k) in
          inr (omega (arith, more), omega (arith, h, a, b, c, total_tokens-append f.chunks text))
    ]

fit_block-Within :
    (budget : ℕ) (label block : String) (f : Fitted)
    → Within budget f
    → Within budget (fit_block label block f)
unfolding fit_block Within
fit_block-Within budget label block f w = elim (Bool-cases (f.remaining == 0)) [
  | inl e ↦ rw e w
  | inr e ↦
      let some_left : total_tokens f.chunks + f.remaining ≤ budget = ground (arith, w, e) in
      elim (Bool-cases (leb (approx_token_count block) f.remaining)) [
        | inl k ↦
            let fits : approx_token_count block ≤ f.remaining = ground (arith, k) in
            rw (e, k) (inl (omega (arith, some_left, fits, total_tokens-append f.chunks block)))
        | inr k ↦
            rw (e, k)
              (decided-Within budget label block (truncate_text_to_budget f.remaining block) f
                some_left (truncate-tokens f.remaining block))
      ]
]

fit_loop-Within :
    (budget : ℕ) (segments : List (String × String)) (f : Fitted)
    → Within budget f
    → Within budget (fit_loop segments f)
unfolding fit_loop
fit_loop-Within budget [] f w = w
fit_loop-Within budget ((label, text) ∷ rest) f w = fit_loop-Within budget rest _ (
    if_both (Within budget) (is_blank (strip text)) w
      (fit_block-Within budget label (block_of label text) f w))

-- The chunks that the loop of _fit_segments keeps have together at most 3 tokens more than the
-- budget, whatever the segments are.
pub fit_loop-tokens :
    (budget : ℕ) (segments : List (String × String))
    → total_tokens
        (fit_loop segments (record { remaining = budget; chunks = []; decisions = [] })).chunks
      ≤ budget + 3
unfolding Within total_tokens
fit_loop-tokens budget segments =
    let begin : Fitted = record { remaining = budget; chunks = []; decisions = [] } in
    elim (fit_loop-Within budget segments begin (inl (omega arith))) [
      | inl h ↦ omega (arith, h)
      | inr (z, h) ↦ h
    ]
