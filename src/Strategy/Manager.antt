-- ===== src/Strategy/Manager.antt =====
-- The strategy manager (internal/core/service/strategy/manager.go).
pub mod Processing
use obs_brutal.Prelude.{
  ℕ, String, Bool, true, false, not, Option, none, some, List, [], ◌∷◌, ◌++◌, if◌then◌else◌, keep,
  ◌==◌, nat_keys, string_keys, bytes_keys, insert_all,
}
use obs_brutal.Domain.Value.{FieldMap}
use obs_brutal.Domain.Entry.{LogEntry, entries_of}

-- The interfaces of internal/core/port/strategy.go. The first argument of `should_sample` stands
-- for what the sampler draws at that call.
pub record FilterStrategy : Type 0 where
  pub name : String
  pub should_log : LogEntry → Bool

pub record SamplerStrategy : Type 0 where
  pub name : String
  pub should_sample : ℕ → LogEntry → Bool

pub record MaskingStrategy : Type 0 where
  pub name : String
  pub mask_fields : FieldMap → FieldMap

pub record Manager : Type 0 where
  pub filters : List FilterStrategy
  pub samplers : List SamplerStrategy
  pub maskers : List MaskingStrategy

unfoldable pub new_manager : Manager
new_manager = record { filters = []; samplers = []; maskers = [] }

unfoldable pub add_filter : FilterStrategy → Manager → Manager
add_filter f m = record m { filters = m.filters ++ f ∷ [] }

unfoldable pub add_sampler : SamplerStrategy → Manager → Manager
add_sampler s m = record m { samplers = m.samplers ++ s ∷ [] }

unfoldable pub add_masker : MaskingStrategy → Manager → Manager
add_masker ms m = record m { maskers = m.maskers ++ ms ∷ [] }

-- `RemoveStrategy`: a kind that is none of the three changes nothing.
unfoldable pub remove_strategy : String → String → Manager → Manager
remove_strategy kind name m =
    if kind == "filter"
    then record m { filters = keep (λ f. not (f.name == name)) m.filters }
    else if kind == "sampler"
    then record m { samplers = keep (λ s. not (s.name == name)) m.samplers }
    else if kind == "masker"
    then record m { maskers = keep (λ ms. not (ms.name == name)) m.maskers }
    else m

-- The loops of `ProcessEntry`.
pass_filters : LogEntry → List FilterStrategy → Bool
pass_filters e [] = true
pass_filters e (f ∷ fs) = if f.should_log e then pass_filters e fs else false

pass_samplers : ℕ → LogEntry → List SamplerStrategy → Bool
pass_samplers n e [] = true
pass_samplers n e (s ∷ ss) = if s.should_sample n e then pass_samplers n e ss else false

unfoldable pub mask_all : List MaskingStrategy → FieldMap → FieldMap
mask_all [] m = m
mask_all (ms ∷ mss) m = mask_all mss (ms.mask_fields m)

masked_entry : List MaskingStrategy → LogEntry → LogEntry
unfolding mask_all
masked_entry [] e = e
masked_entry (ms ∷ mss) e = record e {
  fields = some (mask_all (ms ∷ mss) (insert_all (entries_of e.fields) []));
}

-- `ProcessEntry`: `none` where the entry is nil, filtered or sampled out.
process_some : Manager → ℕ → LogEntry → Option LogEntry
unfolding pass_filters pass_samplers masked_entry
process_some m n e =
    if pass_filters e m.filters
    then (if pass_samplers n e m.samplers then some (masked_entry m.maskers e) else none)
    else none

unfoldable pub process_entry : Manager → ℕ → Option LogEntry → Option LogEntry
unfolding process_some
process_entry m n none = none
process_entry m n (some e) = process_some m n e
