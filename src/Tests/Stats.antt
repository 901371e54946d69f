-- ===== src/Tests/Stats.antt =====
-- The theorems on tool calls, configurations and costs at concrete inputs (internal/storage).
use labubu.Base.{ℕ, ◌≡◌, refl, true, false, none, some, List, [], ◌∷◌, map}
use labubu.Base.Int.{ℤ, pos}
use labubu.Base.Str.{Str, codes, str_eq}
use labubu.Base.Dict.{nat_eq, bytes_eq, lookup}
use labubu.Base.Floats.{whole}
use labubu.Base.{inl}
use labubu.Base.Dict.{has}
use labubu.Storage.Mem.Persist.{save_to_disk, load_from_disk}
use labubu.Storage.Mem.Reload.{all_bare, fresh_store, IsIndexed, load_from_disk-save_to_disk}
use labubu.Storage.Types.{Span, ModelPricing, LlmConfig}
use labubu.Storage.Text.{mask_api_key}
use labubu.Storage.Mem.{MemStore, missing, CostSum, price_spans}
use labubu.Storage.Mem.Persist.{written, update_llm_config}
use labubu.Storage.Mem.Configs.{update_llm_config-mask_api_key}
use labubu.Storage.Mem.Costs.{span_after, price_spans-cost}
use labubu.Storage.AgentStats.{global_max_loop, tool_max_loops}
use labubu.Storage.AgentStats.Loops.{greatest, global_max_loop-eq-greatest}

abbrev tool_call : Str → ℤ → Span ℕ
tool_call tool status = record {
  trace_id = 1;
  span_id = 2;
  parent_span_id = 0;
  name = tool;
  kind = pos 1;
  start_time_ms = 5;
  end_time_ms = 9;
  duration_ms = 4;
  attributes = (codes "gen_ai.tool.name", tool) ∷ [];
  events = [];
  links = [];
  status_code = status;
  status_message = [];
  input_tokens = some 2;
  output_tokens = some 1;
  total_tokens = some 3;
  cache_creation_tokens = none;
  cache_read_tokens = none;
  gen_ai_request_model = some (codes "m");
  cost = none;
  cost_currency = [];
  trace_state = [];
}

-- `a` fails twice and then succeeds, between two calls of `b`.
abbrev tool_calls : List (Span ℕ)
tool_calls =
    tool_call (codes "b") (pos 1)
    ∷ tool_call (codes "a") (pos 2)
    ∷ tool_call (codes "a") (pos 2)
    ∷ tool_call (codes "a") (pos 1)
    ∷ tool_call (codes "b") (pos 1)
    ∷ []

global_max_loop-eq-greatest_example :
    global_max_loop tool_calls ≡ greatest (tool_max_loops tool_calls)
global_max_loop-eq-greatest_example = global_max_loop-eq-greatest tool_calls

abbrev config : LlmConfig ℕ
config = record {
  id = codes "c1";
  model_name = codes "m";
  provider_type = codes "openai";
  provider_url = [];
  api_key = codes "sk-0123456789";
  is_default = true;
  temperature = 1;
  max_tokens = pos 100;
}

abbrev configured : MemStore ℕ
configured = record {
  spans = [];
  traces = [];
  services = [];
  logs = [];
  pricing = [];
  llm_configs = (codes "c1", config) ∷ [];
  diagnosis_results = [];
  json_path = codes "d/mem.json";
  file = missing;
}

-- The key comes back masked, and the model is another one.
abbrev masked_config : LlmConfig ℕ
masked_config = record config { api_key = mask_api_key config.api_key; model_name = codes "n" }

update_llm_config-mask_api_key_example :
    lookup
      (codes "c1")
      (update_llm_config (written (λ d. d)) configured masked_config).0.llm_configs
    ≡ some (record config { model_name = codes "n" })
unfolding lookup str_eq
update_llm_config-mask_api_key_example =
    update_llm_config-mask_api_key (written (λ d. d)) configured config masked_config refl refl

abbrev price : ModelPricing ℕ
price = record {
  model_name = codes "m";
  input_price = 2000000;
  output_price = 3000000;
  currency = codes "USD";
  context_window = pos 1000;
}

abbrev no_cost : CostSum whole
no_cost = record { total = 0; currency = []; has_cost = false }

price_spans-cost_example :
    (price_spans whole 1 (price ∷ []) tool_calls no_cost).0
    ≡ map (span_after whole 1 (price ∷ [])) tool_calls
price_spans-cost_example = price_spans-cost whole 1 (price ∷ []) tool_calls no_cost

abbrev priced_store : MemStore ℕ
priced_store = record configured { pricing = (codes "m", price) ∷ [] }

priced_store-IsIndexed : IsIndexed priced_store
priced_store-IsIndexed = record {
  pricing_keyed = (refl, tt);
  pricing_distinct = (unfold has in refl, tt);
  configs_keyed = (refl, tt);
  configs_distinct = (unfold has in refl, tt);
  diagnoses_keyed = tt;
  diagnoses_distinct = tt;
}

load_from_disk-save_to_disk_example :
    load_from_disk
      (fresh_store (codes "d/mem.json") (save_to_disk (written (λ d. d)) priced_store).0.file)
    ≡ inl
        (record (fresh_store
          (codes "d/mem.json")
          (save_to_disk (written (λ d. d)) priced_store).0.file) {
            pricing = priced_store.pricing;
            llm_configs = priced_store.llm_configs;
            diagnosis_results = all_bare priced_store.diagnosis_results;
          })
load_from_disk-save_to_disk_example =
    load_from_disk-save_to_disk (λ d. d) priced_store priced_store-IsIndexed refl refl
