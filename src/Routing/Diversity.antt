-- ===== src/Routing/Diversity.antt =====
-- TemperatureDiversityMixin and DiversityRoutingPolicy (py/src/lg_orch/model_routing.py): the
-- rotations of temperatures and of models, and get_routing_policy. Temperatures are in tenths. The
-- environment's LG_MODEL_DIVERSITY is an argument of the last.
pub mod Rotation
use lula.Prelude.{
  ℕ, zero, suc, ◌+◌, ◌%◌, String, Bool, Option, none, some, List, [], ◌∷◌, ◌&&◌, not, if◌then◌else◌,
  length, get_elem?,
}
use lula.Routing.Latency.{SlaRoutingPolicy, SlaEntry, build_sla_policy}

abbrev pub temperature_schedule : List ℕ
temperature_schedule = 7 ∷ 3 ∷ 9 ∷ 5 ∷ 8 ∷ 4 ∷ 6 ∷ 10 ∷ []

pub record DiversityRoutingPolicy : Type 0 where
  pub models : List String
  pub index : ℕ
  pub temp_index : ℕ

-- `none` is the ValueError of an empty list.
unfoldable pub new_policy : List String → Option DiversityRoutingPolicy
new_policy [] = none
new_policy (m ∷ ms) = some (record { models = m ∷ ms; index = 0; temp_index = 0 })

pub next_temperature : DiversityRoutingPolicy → DiversityRoutingPolicy × Option ℕ
next_temperature p = (
  record p { temp_index = p.temp_index + 1 },
  get_elem? temperature_schedule (p.temp_index % length temperature_schedule),
)

pub reset_temperature : DiversityRoutingPolicy → DiversityRoutingPolicy
reset_temperature p = record p { temp_index = 0 }

-- `none` would be an index out of range.
pub select_model : DiversityRoutingPolicy → DiversityRoutingPolicy × Option String
select_model p = (record p { index = p.index + 1 }, get_elem? p.models (p.index % length p.models))

pub reset : DiversityRoutingPolicy → DiversityRoutingPolicy
reset p = record p { index = 0 }

pub data RoutingPolicy : Type 0 where
  by_diversity : DiversityRoutingPolicy → RoutingPolicy
  by_latency : SlaRoutingPolicy → RoutingPolicy
  by_default : RoutingPolicy

or_default_policy : Option SlaRoutingPolicy → RoutingPolicy
or_default_policy none = by_default
or_default_policy (some p) = by_latency p

from_sla : Option (List SlaEntry) → RoutingPolicy
from_sla none = by_default
from_sla (some entries) = or_default_policy (build_sla_policy entries)

or_sla : Option (List SlaEntry) → Option DiversityRoutingPolicy → RoutingPolicy
or_sla sla none = from_sla sla
or_sla sla (some p) = by_diversity p

pub get_routing_policy : Bool → Option (List SlaEntry) → List String → RoutingPolicy
get_routing_policy enabled sla models = or_sla sla (if enabled then new_policy models else none)
