-- ===== src/Storage/Mem/Reload.antt =====
-- Saving and loading again in internal/storage/memstore.go: NewChDBStore, saveToDiskLocked and
-- loadFromDisk.
use labubu.Base.{ℕ, ◌≡◌, refl, sym, ap, ◌∙◌, inl, false, List, [], ◌∷◌, ◌++◌, map, arith, All}
use labubu.Base.Str.{Str, is_empty}
use labubu.Base.Dict.{
  Eq, nat_eq, bytes_eq, Dict, insert, has, Distinct, insert_fresh, has_of_append,
}
use mathlib.Core.List.{append_assoc, append-nil}
use mathlib.Core.Path.{subst}
use labubu.Storage.Types.{ModelPricing, LlmConfig}
use labubu.Storage.Mem.{MemStore, MemFile, PersistedMemData, DiagnosisResult, entries}
use labubu.Storage.Mem.Persist.{
  written, saved_as, save_to_disk, persisted, load_from_disk, encode_all, index_pricing,
  index_configs, index_diagnoses,
}

-- A list as a map, by a key of its entries: the loop that the three loading loops share.
unfoldable pub index_by {ℓ κ} :
    {K : Type ℓ} {V : Type κ} ⦃e : Eq K⦄ → (V → K) → List V → Dict K V → Dict K V
index_by key [] m = m
index_by key (v ∷ vs) m = index_by key vs (insert (key v) v m)

module _ {ℓ κ} {K : Type ℓ} {V : Type κ} ⦃e : Eq K⦄ where
  absent_of_Distinct :
      (acc : Dict K V) (k : K) (v : V) (m : Dict K V)
      → Distinct (acc ++ (k, v) ∷ m)
      → has k acc ≡ false
  unfolding has
  absent_of_Distinct [] k v m d = refl
  absent_of_Distinct ((i, w) ∷ acc) k v m d = ground (
    arith,
    has_of_append i acc ((k, v) ∷ m),
    e.beq_iff i k,
    e.beq_iff k i,
    absent_of_Distinct acc k v m,
  )

  -- The entries of a map whose keys are theirs give the map back.
  index_by-entries :
      (key : V → K) (m acc : Dict K V)
      → All (λ x. x.0 ≡ key x.1) m
      → Distinct (acc ++ m)
      → index_by key (entries m) acc ≡ acc ++ m
  unfolding index_by entries
  index_by-entries key [] acc h d = sym (append-nil acc)
  index_by-entries key ((k, v) ∷ m) acc h d =
      let step =
        subst (λ (j : K). insert j v acc ≡ acc ++ (k, v) ∷ []) h.0
          (insert_fresh k v acc (absent_of_Distinct acc k v m d)) in
      ap (index_by key (entries m)) step
      ∙ index_by-entries key m (acc ++ (k, v) ∷ []) h.1 (rw append_assoc d)
      ∙ append_assoc acc ((k, v) ∷ []) m

has-encode_all : (id : ℕ) (m : Dict ℕ DiagnosisResult) → has id (encode_all m) ≡ has id m
unfolding has encode_all
has-encode_all id [] = refl
has-encode_all id ((j, d) ∷ m) = ground (arith, has-encode_all id m)

encode_all-Distinct : (m : Dict ℕ DiagnosisResult) → Distinct m → Distinct (encode_all m)
unfolding encode_all
encode_all-Distinct [] d = tt
encode_all-Distinct ((j, r) ∷ m) d = (has-encode_all j m ∙ d.0, encode_all-Distinct m d.1)

encode_all_keyed :
    (m : Dict ℕ DiagnosisResult)
    → All (λ x. x.0 ≡ x.1.trace_id) m
    → All (λ x. x.0 ≡ x.1.trace_id) (encode_all m)
unfolding encode_all
encode_all_keyed [] h = tt
encode_all_keyed ((j, r) ∷ m) h = (h.0, encode_all_keyed m h.1)

index_diagnoses-eq :
    (ds : List DiagnosisResult) (m : Dict ℕ DiagnosisResult)
    → index_diagnoses ds m ≡ index_by (λ d. d.trace_id) ds m
unfolding index_diagnoses index_by
index_diagnoses-eq [] m = refl
index_diagnoses-eq (d ∷ ds) m = index_diagnoses-eq ds (insert d.trace_id d m)

-- A diagnosis without its snapshot of the spans and its raw answer.
abbrev pub bare : DiagnosisResult → DiagnosisResult
bare d = record {
  trace_id = d.trace_id;
  trace_id_hex = d.trace_id_hex;
  model_name = d.model_name;
  scores = d.scores;
  overall_score = d.overall_score;
  findings = d.findings;
  summary = d.summary;
  spans_snapshot = [];
  raw_response = [];
  created_at = d.created_at;
  stale = d.stale;
}

abbrev pub all_bare : Dict ℕ DiagnosisResult → Dict ℕ DiagnosisResult
all_bare m = map (λ (x : ℕ × DiagnosisResult). (x.0, bare x.1)) m

encode_all-bare : (m : Dict ℕ DiagnosisResult) → encode_all m ≡ all_bare m
unfolding encode_all
encode_all-bare [] = refl
encode_all-bare ((id, d) ∷ m) = ap (λ r. (id, bare d) ∷ r) (encode_all-bare m)

module _ {F : Type 0} where
  index_pricing-eq :
      (ps : List (ModelPricing F)) (m : Dict Str (ModelPricing F))
      → index_pricing ps m ≡ index_by (λ p. p.model_name) ps m
  unfolding index_pricing index_by
  index_pricing-eq [] m = refl
  index_pricing-eq (p ∷ ps) m = index_pricing-eq ps (insert p.model_name p m)

  index_configs-eq :
      (cs : List (LlmConfig F)) (m : Dict Str (LlmConfig F))
      → index_configs cs m ≡ index_by (λ c. c.id) cs m
  unfolding index_configs index_by
  index_configs-eq [] m = refl
  index_configs-eq (c ∷ cs) m = index_configs-eq cs (insert c.id c m)

  -- The store of NewChDBStore before it loads the file.
  unfoldable pub fresh_store : Str → MemFile F → MemStore F
  fresh_store path file = record {
    spans = [];
    traces = [];
    services = [];
    logs = [];
    pricing = [];
    llm_configs = [];
    diagnosis_results = [];
    json_path = path;
    file = file;
  }

  -- Prices, configurations and diagnoses stand under their own keys, and no key twice.
  pub record IsIndexed (m : MemStore F) : Type 0 where
    pub pricing_keyed : All (λ x. x.0 ≡ x.1.model_name) m.pricing
    pub pricing_distinct : Distinct m.pricing
    pub configs_keyed : All (λ x. x.0 ≡ x.1.id) m.llm_configs
    pub configs_distinct : Distinct m.llm_configs
    pub diagnoses_keyed : All (λ x. x.0 ≡ x.1.trace_id) m.diagnosis_results
    pub diagnoses_distinct : Distinct m.diagnosis_results

  saved_file :
      (json : PersistedMemData F → PersistedMemData F) (m : MemStore F)
      → is_empty m.json_path ≡ false
      → json (persisted m) ≡ persisted m
      → (save_to_disk (written json) m).0.file ≡ MemFile.holds (persisted m)
  unfolding save_to_disk saved_as
  saved_file json m there same = simp there (ap MemFile.holds same)

  -- A store with a path that is written is found again when the process starts anew, if the data are
  -- such that encoding/json gives them back as they were, as it does where all text is valid UTF-8: the prices and the configurations are those that were in memory, so are the diagnoses
  -- except for their snapshot of the spans and their raw answer, which are lost, and there are no
  -- spans, traces and logs.
  pub load_from_disk-save_to_disk :
      (json : PersistedMemData F → PersistedMemData F) (m : MemStore F)
      → IsIndexed m
      → is_empty m.json_path ≡ false
      → json (persisted m) ≡ persisted m
      → load_from_disk (fresh_store m.json_path (save_to_disk (written json) m).0.file)
        ≡ inl (record (fresh_store m.json_path (save_to_disk (written json) m).0.file) {
          pricing = m.pricing;
          llm_configs = m.llm_configs;
          diagnosis_results = all_bare m.diagnosis_results;
        })
  unfolding load_from_disk fresh_store persisted
  load_from_disk-save_to_disk json m h there same =
      let p =
        index_pricing-eq (entries m.pricing) []
        ∙ index_by-entries (λ p. p.model_name) m.pricing [] h.pricing_keyed h.pricing_distinct in
      let c =
        index_configs-eq (entries m.llm_configs) []
        ∙ index_by-entries (λ c. c.id) m.llm_configs [] h.configs_keyed h.configs_distinct in
      let stored = encode_all m.diagnosis_results in
      let d =
        index_diagnoses-eq (entries stored) []
        ∙ index_by-entries (λ d. d.trace_id) stored []
            (encode_all_keyed m.diagnosis_results h.diagnoses_keyed)
            (encode_all-Distinct m.diagnosis_results h.diagnoses_distinct)
        ∙ encode_all-bare m.diagnosis_results in
      simp (saved_file json m there same) (simp (p, c, d) refl)
