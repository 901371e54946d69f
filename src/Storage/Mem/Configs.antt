-- ===== src/Storage/Mem/Configs.antt =====
-- The LLM configurations of internal/storage/memstore.go: the single default, and the masked key
-- that stands for the stored one.
use labubu.Base.{
  ℕ, suc, ◌-◌, ◌≤◌, ◌≡◌, refl, ap, ◌∙◌, inl, inr, true, Option, none, some, [], ◌∷◌, ◌++◌, arith,
  leb, if◌then◌else◌, Bool-cases, length, take, drop, keep, count,
}
use labubu.Base.Str.{Str, codes, is_empty}
use labubu.Base.Dict.{nat_eq, bytes_eq, Dict, lookup, insert, delete, lookup-insert_self}
use labubu.Storage.Types.{LlmConfig}
use labubu.Storage.Text.{mask_api_key}
use labubu.Storage.Mem.{MemStore}
use labubu.Storage.Mem.Persist.{
  MemWrite, written, failed, saved_as, save_to_disk, contains_stars, clear_defaults, with_config,
  keep_key, update_found, create_llm_config, update_llm_config, delete_llm_config,
}

-- A change of the configurations.
pub data ConfigChange (F : Type 0) : Type 0 where
  creates updates : LlmConfig F → ConfigChange F
  deletes : Str → ConfigChange F

module _ {F : Type 0} where
  abbrev pub defaults : Dict Str (LlmConfig F) → ℕ
  defaults m = count (λ e. e.1.is_default) m

  defaults-insert :
      (c : LlmConfig F) (m : Dict Str (LlmConfig F))
      → defaults (insert c.id c m) ≤ (if c.is_default then suc (defaults m) else defaults m)
  unfolding insert count
  defaults-insert c [] = ground arith
  defaults-insert c ((k, d) ∷ m) = ground (arith, defaults-insert c m)

  defaults-clear_defaults : (m : Dict Str (LlmConfig F)) → defaults (clear_defaults m) ≡ 0
  unfolding clear_defaults count
  defaults-clear_defaults [] = refl
  defaults-clear_defaults ((k, c) ∷ m) = defaults-clear_defaults m

  defaults-with_config :
      (c : LlmConfig F) (m : Dict Str (LlmConfig F))
      → defaults m ≤ 1
      → defaults (with_config c m) ≤ 1
  defaults-with_config c m h = elim (Bool-cases c.is_default) [
    | inl chosen ↦
        let alone : defaults (insert c.id c (clear_defaults m)) ≤ 1 =
          ground (arith, defaults-clear_defaults m, defaults-insert c (clear_defaults m)) in
        simp chosen alone
    | inr plain ↦
        let no_more : defaults (insert c.id c m) ≤ 1 = ground (arith, defaults-insert c m) in
        simp plain no_more
  ]

  defaults-delete : (id : Str) (m : Dict Str (LlmConfig F)) → defaults (delete id m) ≤ defaults m
  unfolding delete keep count
  defaults-delete id [] = omega arith
  defaults-delete id ((k, c) ∷ m) = ground (arith, defaults-delete id m)

  save_to_disk-llm_configs :
      (w : MemWrite F) (m : MemStore F) → (save_to_disk w m).0.llm_configs ≡ m.llm_configs
  unfolding save_to_disk saved_as
  save_to_disk-llm_configs (written json) m = elim (Bool-cases (is_empty m.json_path)) [
    | inl nowhere ↦ simp nowhere refl
    | inr there ↦ simp there refl
  ]
  save_to_disk-llm_configs (failed f) m = elim (Bool-cases (is_empty m.json_path)) [
    | inl nowhere ↦ simp nowhere refl
    | inr there ↦ simp there refl
  ]

  defaults-update_found :
      (w : MemWrite F) (c : LlmConfig F) (o : Option (LlmConfig F)) (m : MemStore F)
      → defaults m.llm_configs ≤ 1
      → defaults (update_found w m c o).0.llm_configs ≤ 1
  unfolding update_found
  defaults-update_found w c none m h = h
  defaults-update_found w c (some old) m h =
      rw
        (save_to_disk-llm_configs w
          (record m { llm_configs = with_config (keep_key old c) m.llm_configs }))
        (defaults-with_config (keep_key old c) m.llm_configs h)

  unfoldable pub change_config : MemWrite F → ConfigChange F → MemStore F → MemStore F
  change_config w (creates c) m = (create_llm_config w m c).0
  change_config w (updates c) m = (update_llm_config w m c).0
  change_config w (deletes id) m = (delete_llm_config w m id).0

  -- Every change of the configurations leaves at most one default where there was at most one, also
  -- where the file cannot be written or the configuration to update is not there.
  pub defaults-change_config :
      (w : MemWrite F) (ch : ConfigChange F) (m : MemStore F)
      → defaults m.llm_configs ≤ 1
      → defaults (change_config w ch m).llm_configs ≤ 1
  unfolding change_config create_llm_config update_llm_config delete_llm_config
  defaults-change_config w (creates c) m h =
      rw (save_to_disk-llm_configs w (record m { llm_configs = with_config c m.llm_configs }))
        (defaults-with_config c m.llm_configs h)
  defaults-change_config w (updates c) m h =
      defaults-update_found w c (lookup c.id m.llm_configs) m h
  defaults-change_config w (deletes id) m h =
      rw (save_to_disk-llm_configs w (record m { llm_configs = delete id m.llm_configs }))
        (omega (arith, h, defaults-delete id m.llm_configs))

contains_stars-append : (xs ys : Str) → contains_stars (xs ++ (codes "***" ++ ys)) ≡ true
unfolding contains_stars
contains_stars-append [] ys = refl
contains_stars-append (x ∷ xs) ys = ground (arith, contains_stars-append xs ys)

-- A masked key is always taken for one, whatever the key is.
contains_stars-mask_api_key : (key : Str) → contains_stars (mask_api_key key) ≡ true
unfolding mask_api_key
contains_stars-mask_api_key key = elim (Bool-cases (leb (length key) 8)) [
  | inl short ↦ rw short (contains_stars-append [] [])
  | inr long ↦ rw long (contains_stars-append (take 3 key) (drop (length key - 2) key))
]

module _ {F : Type 0} where
  -- A configuration that comes back with its key masked, whatever else was changed, keeps the stored
  -- key.
  pub update_llm_config-mask_api_key :
      (w : MemWrite F) (m : MemStore F) (old c : LlmConfig F)
      → lookup c.id m.llm_configs ≡ some old
      → c.api_key ≡ mask_api_key old.api_key
      → lookup c.id (update_llm_config w m c).0.llm_configs
        ≡ some (record c { api_key = old.api_key })
  unfolding update_llm_config update_found
  update_llm_config-mask_api_key w m old c there masked =
      let stars : contains_stars c.api_key ≡ true =
        ap contains_stars masked ∙ contains_stars-mask_api_key old.api_key in
      let kept : keep_key old c ≡ record c { api_key = old.api_key } = rw stars refl in
      let m' = record m { llm_configs = with_config (keep_key old c) m.llm_configs } in
      let stored : (update_llm_config w m c).0.llm_configs
          ≡ with_config (keep_key old c) m.llm_configs =
        ap (λ o. (update_found w m c o).0.llm_configs) there ∙ save_to_disk-llm_configs w m' in
      ap (lookup c.id) (stored ∙ ap (λ d. with_config d m.llm_configs) kept)
      ∙ lookup-insert_self c.id (record c { api_key = old.api_key })
          (if c.is_default then clear_defaults m.llm_configs else m.llm_configs)
