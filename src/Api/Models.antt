-- ===== src/Api/Models.antt =====
-- src/coordinator/src/api/models.rs: the models that the nodes offer, with their prices.
use coordinator.Base.{
  ℕ, suc, List, [], ◌∷◌, map, Text, Option, none, some, codes, contains_text, text_leb, ◌||◌,
  text_eq, if◌then◌else◌,
}
use coordinator.Base.Map.{Map, get, insert}
use coordinator.Registry.{PeerId, PeerEntry, PeerRegistry, snapshot}

pub record ModelPricing : Type 0 where
  pub input_per_1m_tokens_nanox : ℕ
  pub output_per_1m_tokens_nanox : ℕ

-- The constant fields `object` and `owned_by` are left out.
pub record ModelObject : Type 0 where
  pub id : Text
  pub nodes_available : ℕ
  pub pricing : ModelPricing

unfoldable pub baseline_pricing : Text → ModelPricing
baseline_pricing id =
    if contains_text (codes "72b") id || contains_text (codes "72B") id
    then record { input_per_1m_tokens_nanox = 50000; output_per_1m_tokens_nanox = 150000 }
    else if contains_text (codes "32b") id || contains_text (codes "32B") id
    then record { input_per_1m_tokens_nanox = 20000; output_per_1m_tokens_nanox = 60000 }
    else record { input_per_1m_tokens_nanox = 5000; output_per_1m_tokens_nanox = 15000 }

-- `*model_counts.entry(model).or_insert(0) += 1`.
abbrev pub incremented : Option ℕ → ℕ
incremented none = 1
incremented (some n) = suc n

abbrev pub count_models : List Text → Map Text ℕ → Map Text ℕ
count_models [] counts = counts
count_models (model ∷ models) counts =
    count_models models (insert model (incremented (get model counts)) counts)

abbrev pub count_entries : List (PeerId × PeerEntry) → Map Text ℕ → Map Text ℕ
count_entries [] counts = counts
count_entries ((p, entry) ∷ rest) counts =
    count_entries rest (count_models entry.capabilities.models counts)

abbrev pub model_object : Text × ℕ → ModelObject
model_object (id, count) = record {
  id = id;
  nodes_available = count;
  pricing = baseline_pricing id;
}

-- The stable `sort_by`, as an insertion sort.
abbrev pub insert_by_id : ModelObject → List ModelObject → List ModelObject
insert_by_id o [] = o ∷ []
insert_by_id o (p ∷ ps) = if text_leb o.id p.id then o ∷ p ∷ ps else p ∷ insert_by_id o ps

abbrev pub sort_by_id : List ModelObject → List ModelObject
sort_by_id [] = []
sort_by_id (o ∷ os) = insert_by_id o (sort_by_id os)

unfoldable pub list_models : PeerRegistry → List ModelObject
list_models r = sort_by_id (map model_object (count_entries (snapshot r) []))
