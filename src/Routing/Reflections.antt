-- ===== src/Routing/Reflections.antt =====
-- SharedReflectionPool (py/src/lg_orch/model_routing.py). The text that get_context makes of the pool
-- and the timestamps are left out.
pub mod Kept
use lula.Prelude.{
  ℕ, ◌-◌, String, Bool, List, [], ◌∷◌, ◌++◌, ltb, ◌==◌, if◌then◌else◌, length, last_n,
}

pub record FailureReflection : Type 0 where
  pub loop_index : ℕ
  pub model_used : String
  pub failure_class : String
  pub reflection : String

pub record SharedReflectionPool : Type 0 where
  pub reflections : List FailureReflection
  pub limit : ℕ

unfoldable pub new_pool : ℕ → SharedReflectionPool
new_pool max_reflections = record { reflections = []; limit = max_reflections }

-- xs[-n:], which is all of xs where n is 0.
pub from_end {ℓ} : {A : Type ℓ} → ℕ → List A → List A
from_end n xs = if n == 0 then xs else last_n n xs

pub add_reflection : FailureReflection → SharedReflectionPool → SharedReflectionPool
unfolding from_end
add_reflection r p =
    let longer = p.reflections ++ r ∷ [] in
    record p {
      reflections = if ltb p.limit (length longer) then from_end p.limit longer else longer;
    }

pub clear : SharedReflectionPool → SharedReflectionPool
clear p = record p { reflections = [] }
