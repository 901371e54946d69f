-- ===== src/Storage/Mem/Persist.antt =====
-- The methods of internal/storage/memstore.go that write the JSON file: pricing, LLM
-- configurations, diagnosis results and DeleteTraces, and the loading of the file.
use labubu.Base.{
  ℕ, ◌⊎◌, inl, inr, Bool, false, not, ◌&&◌, ◌||◌, Option, none, some, List, [], ◌∷◌, ◌==◌,
  if◌then◌else◌, keep, count,
}
use labubu.Base.Str.{Str, is_empty}
use labubu.Base.Dict.{nat_eq, bytes_eq, Dict, lookup, insert, delete, has}
use labubu.Storage.Types.{LogRecord, ModelPricing, LlmConfig}
use labubu.Storage.Mem.{
  MemStore, MemFile, missing, unreadable, empty_file, broken, holds, PersistedMemData,
  DiagnosisResult, entries,
}
use labubu.Storage.Mem.Retention.{IdSet, id_set}

pub data SaveError : Type 0 where
  write_failed config_not_found load_failed : SaveError

-- What becomes of a write: it succeeds, or fails and leaves some file behind. `written` has the data
-- as encoding/json gives it back: not always what went in, as text that is not valid UTF-8 comes
-- back changed.
pub data MemWrite (F : Type 0) : Type 0 where
  written : (PersistedMemData F → PersistedMemData F) → MemWrite F
  failed : MemFile F → MemWrite F

unfoldable pub index_diagnoses :
    List DiagnosisResult → Dict ℕ DiagnosisResult → Dict ℕ DiagnosisResult
index_diagnoses [] m = m
index_diagnoses (d ∷ ds) m = index_diagnoses ds (insert d.trace_id d m)

-- Does the text begin with two stars?
abbrev two_stars : Str → Bool
two_stars [] = false
two_stars (a ∷ []) = false
two_stars (a ∷ b ∷ r) = a == b'*' && b == b'*'

-- `strings.Contains(s, "***")`
unfoldable pub contains_stars : Str → Bool
contains_stars [] = false
contains_stars (c ∷ s) = (c == b'*' && two_stars s) || contains_stars s

-- What the JSON of a diagnosis holds of it: two fields are tagged `json:"-"`.
abbrev pub encoded : DiagnosisResult → DiagnosisResult
encoded d = record d { spans_snapshot = []; raw_response = [] }

unfoldable pub encode_all : Dict ℕ DiagnosisResult → Dict ℕ DiagnosisResult
encode_all [] = []
encode_all ((id, d) ∷ m) = (id, encoded d) ∷ encode_all m

module _ {F : Type 0} where
  unfoldable pub persisted : MemStore F → PersistedMemData F
  unfolding entries encode_all
  persisted m = record {
    model_pricing = entries m.pricing;
    llm_configs = entries m.llm_configs;
    diagnosis_results = entries (encode_all m.diagnosis_results);
  }

  unfoldable pub saved_as : MemStore F → MemWrite F → MemStore F × Option SaveError
  unfolding persisted
  saved_as m (written json) = (record m { file = holds (json (persisted m)) }, none)
  saved_as m (failed f) = (record m { file = f }, some write_failed)

  -- `saveToDiskLocked` with `writeJSONLocked`: without a path nothing is written.
  unfoldable pub save_to_disk : MemWrite F → MemStore F → MemStore F × Option SaveError
  unfolding saved_as
  save_to_disk w m = if is_empty m.json_path then (m, none) else saved_as m w

  unfoldable pub upsert_model_pricing :
      MemWrite F → MemStore F → ModelPricing F → MemStore F × Option SaveError
  upsert_model_pricing w m p =
      save_to_disk w (record m { pricing = insert p.model_name p m.pricing })

  unfoldable pub delete_model_pricing :
      MemWrite F → MemStore F → Str → MemStore F × Option SaveError
  delete_model_pricing w m name = save_to_disk w (record m { pricing = delete name m.pricing })

  -- `for k, v := range m.llmConfigs { v.IsDefault = false; … }`
  unfoldable pub clear_defaults : Dict Str (LlmConfig F) → Dict Str (LlmConfig F)
  clear_defaults [] = []
  clear_defaults ((k, c) ∷ m) = (k, record c { is_default = false }) ∷ clear_defaults m

  abbrev pub with_config : LlmConfig F → Dict Str (LlmConfig F) → Dict Str (LlmConfig F)
  with_config c m = insert c.id c (if c.is_default then clear_defaults m else m)

  unfoldable pub create_llm_config :
      MemWrite F → MemStore F → LlmConfig F → MemStore F × Option SaveError
  unfolding clear_defaults
  create_llm_config w m c = save_to_disk w (record m { llm_configs = with_config c m.llm_configs })

  -- The masked key is a sentinel for the key that is stored.
  abbrev pub keep_key : LlmConfig F → LlmConfig F → LlmConfig F
  keep_key existing c =
      if contains_stars c.api_key then record c { api_key = existing.api_key } else c

  -- What is done with the stored configuration of the identifier.
  unfoldable pub update_found :
      MemWrite F → MemStore F → LlmConfig F → Option (LlmConfig F) → MemStore F × Option SaveError
  update_found w m c none = (m, some config_not_found)
  update_found w m c (some existing) =
      save_to_disk w (record m { llm_configs = with_config (keep_key existing c) m.llm_configs })

  unfoldable pub update_llm_config :
      MemWrite F → MemStore F → LlmConfig F → MemStore F × Option SaveError
  update_llm_config w m c = update_found w m c (lookup c.id m.llm_configs)

  unfoldable pub delete_llm_config : MemWrite F → MemStore F → Str → MemStore F × Option SaveError
  delete_llm_config w m id = save_to_disk w (record m { llm_configs = delete id m.llm_configs })

  unfoldable pub upsert_diagnosis_result :
      MemWrite F → MemStore F → DiagnosisResult → MemStore F × Option SaveError
  upsert_diagnosis_result w m d =
      save_to_disk w (record m { diagnosis_results = insert d.trace_id d m.diagnosis_results })

  unfoldable pub get_diagnosis_result : MemStore F → ℕ → Option DiagnosisResult
  get_diagnosis_result m id = lookup id m.diagnosis_results

  -- The state after the deletions of DeleteTraces.
  unfoldable pub without_traces : IdSet → MemStore F → MemStore F
  unfolding has keep
  without_traces ids m = record m {
    traces = keep (λ e. not (has e.0 ids)) m.traces;
    logs = keep (λ (l : LogRecord). not (has l.trace_id ids)) m.logs;
    spans = keep (λ s. not (has s.trace_id ids)) m.spans;
    diagnosis_results = keep (λ e. not (has e.0 ids)) m.diagnosis_results;
  }

  -- Deleted traces and deleted logs; the counts are returned also where the save fails.
  unfoldable pub delete_traces :
      MemWrite F → MemStore F → List ℕ → MemStore F × ℕ × ℕ × Option SaveError
  unfolding id_set without_traces count
  delete_traces w m [] = (m, 0, 0, none)
  delete_traces w m (id ∷ rest) =
      let ids = id_set (id ∷ rest) [] in
      let (m', err) = save_to_disk w (without_traces ids m) in
      (
        m',
        count (λ e. has e.0 ids) m.traces,
        count (λ (l : LogRecord). has l.trace_id ids) m.logs,
        err,
      )

  unfoldable pub index_pricing :
      List (ModelPricing F) → Dict Str (ModelPricing F) → Dict Str (ModelPricing F)
  index_pricing [] m = m
  index_pricing (p ∷ ps) m = index_pricing ps (insert p.model_name p m)

  unfoldable pub index_configs :
      List (LlmConfig F) → Dict Str (LlmConfig F) → Dict Str (LlmConfig F)
  index_configs [] m = m
  index_configs (c ∷ cs) m = index_configs cs (insert c.id c m)

  -- `loadFromDisk`, and the test of its error in NewChDBStore: a missing file is none.
  unfoldable pub load_from_disk : MemStore F → MemStore F ⊎ SaveError
  unfolding index_pricing index_configs index_diagnoses
  load_from_disk m = elim m.file [
    | missing ↦ inl m
    | unreadable ↦ inr load_failed
    | empty_file ↦ inl m
    | broken ↦ inr load_failed
    | holds pd ↦ inl (record m {
      pricing = index_pricing pd.model_pricing m.pricing;
      llm_configs = index_configs pd.llm_configs m.llm_configs;
      diagnosis_results = index_diagnoses pd.diagnosis_results m.diagnosis_results;
    })
  ]
