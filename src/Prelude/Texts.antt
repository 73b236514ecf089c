-- ===== src/Prelude/Texts.antt =====
-- Python's `str.strip` on texts.
use Prim.Native.Nat.{ℕ}
use Prim.Native.Char.{Char, code}
use Prim.Native.String.{String, [], ◌∷◌}
use mathlib.Core.Bool.{Bool, true, false, ◌&&◌, ◌||◌}
use mathlib.Core.List.{List, [] as Nil, ◌∷◌ as ◌◂◌}
use lula.Prelude.Tests.{leb, ◌==◌, if◌then◌else◌}

-- str.isspace of one character.
unfoldable pub is_space : ℕ → Bool
is_space n =
    (leb 9 n && leb n 13)
    || (leb 28 n && leb n 32)
    || n == 133
    || n == 160
    || n == 5760
    || (leb 8192 n && leb n 8202)
    || n == 8232
    || n == 8233
    || n == 8239
    || n == 8287
    || n == 12288

unfoldable pub lstrip : String → String
lstrip [] = []
lstrip (c ∷ s) = let rest = lstrip s in if is_space (code c) then rest else c ∷ s

unfoldable pub is_blank : String → Bool
is_blank [] = true
is_blank (c ∷ s) = false

unfoldable pub rstrip : String → String
rstrip [] = []
rstrip (c ∷ s) = let rest = rstrip s in if is_blank rest && is_space (code c) then [] else c ∷ rest

unfoldable pub strip : String → String
strip s = rstrip (lstrip s)

-- s + t
unfoldable pub append : String → String → String
append [] t = t
append (c ∷ s) t = c ∷ append s t

unfoldable pub all_codes : (ℕ → Bool) → String → Bool
all_codes p [] = true
all_codes p (c ∷ s) = p (code c) && all_codes p s

unfoldable pub prepend : Char → List String → List String
prepend c Nil = (c ∷ []) ◂ Nil
prepend c (w ◂ ws) = (c ∷ w) ◂ ws

-- s.split(sep), where `sep` is one character.
unfoldable pub split : ℕ → String → List String
split sep [] = "" ◂ Nil
split sep (c ∷ s) = let rest = split sep s in if code c == sep then "" ◂ rest else prepend c rest

-- What stripping a concrete text computes with.
unfoldable pub strip_parts : Unit {0}
unfolding is_space lstrip is_blank rstrip strip append all_codes prepend split
strip_parts = tt
