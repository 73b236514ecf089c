-- ===== src/Prelude/TextLaws.antt =====
-- Texts without certain characters: what stripping and splitting make of them.
use Prim.Native.Nat.{ℕ}
use Prim.Native.String.{String, [] as ε, ◌∷◌ as ◌▸◌}
use mathlib.Core.Path.{◌≡◌, refl}
use mathlib.Core.Bool.{Bool, true, not}
use mathlib.Core.List.{[], ◌∷◌}
use native.Mathlib.Omega.{arith}
use lula.Prelude.Tests.{◌==◌}
use lula.Prelude.Texts.{is_space, lstrip, rstrip, strip, append, split, prepend, all_codes}

pub all_codes-append :
    (p : ℕ → Bool) (s t : String)
    → all_codes p s ≡ true
    → all_codes p t ≡ true
    → all_codes p (append s t) ≡ true
unfolding all_codes append
all_codes-append p ε t h k = k
all_codes-append p (c ▸ s) t h k = ground (arith, all_codes-append p s t)

lstrip-clean : (s : String) → all_codes (λ n. not (is_space n)) s ≡ true → lstrip s ≡ s
unfolding all_codes lstrip
lstrip-clean ε h = refl
lstrip-clean (c ▸ s) h = ground (arith, h)

rstrip-clean : (s : String) → all_codes (λ n. not (is_space n)) s ≡ true → rstrip s ≡ s
unfolding all_codes rstrip
rstrip-clean ε h = refl
rstrip-clean (c ▸ s) h = ground (arith, rstrip-clean s, h)

pub strip-clean : (s : String) → all_codes (λ n. not (is_space n)) s ≡ true → strip s ≡ s
unfolding strip
strip-clean s h = rw (lstrip-clean s h) (rstrip-clean s h)

pub split-clean :
    (sep : ℕ) (s : String) → all_codes (λ n. not (n == sep)) s ≡ true → split sep s ≡ s ∷ []
unfolding all_codes split prepend
split-clean sep ε h = refl
split-clean sep (c ▸ s) h = ground (arith, split-clean sep s, h)

-- A text up to its first separator is the first part.
pub split-append :
    (sep : ℕ) (s dot t : String)
    → all_codes (λ n. not (n == sep)) s ≡ true
    → split sep (append dot t) ≡ "" ∷ split sep t
    → split sep (append s (append dot t)) ≡ s ∷ split sep t
unfolding all_codes split prepend append
split-append sep ε dot t h d = d
split-append sep (c ▸ s) dot t h d = ground (arith, split-append sep s dot t, h, d)
