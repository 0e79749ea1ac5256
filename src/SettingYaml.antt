-- ===== src/SettingYaml.antt =====
-- fissure_client/src/settingYaml/settingYaml.rs: values in the settings file. The values of the
-- serde_yaml crate are a parameter.
pub mod Lookup
mod Tests
use Prim.Native.String.{String}
use text.Mathlib.Text.{◌==◌ as str_eq}
use fissure.Common.{
  ℕ, zero, ◌+◌, ◌-◌, Outcome, done, panic, Option, some, none, List, [], ◌∷◌, ◌==◌, if◌then◌else◌,
  length,
}
use fissure.Common.HashMap
use fissure.Common.HashMap.{string_Eq}

-- `serde_yaml::Value`: `get` finds a key in a mapping, and nothing in another value.
pub record Yaml : Type 1 where
  pub Value : Type 0
  pub null : Value
  pub get : Value → String → Option Value
  pub as_str : Value → Option String

module _ (Y : Yaml) where
  open Y use {Value}

  abbrev pub Settings : Type 0
  Settings = List (String × Value)

  -- `read_to_string` and `from_str` are what the two calls return, an error being none.
  unfoldable pub load_yaml_from_file :
      (String → Option String) → (String → Option Settings) → String → Settings
  load_yaml_from_file read_to_string from_str yaml_path = elim (read_to_string yaml_path) [
    | none ↦ []
    | some string_yaml ↦ elim (from_str string_yaml) [ none ↦ [] | some settings ↦ settings ]
  ]

  unfoldable pub search_for_item_in_vec_and_return_value :
      List Value → String → String → Option Value
  search_for_item_in_vec_and_return_value [] item value = none
  search_for_item_in_vec_and_return_value (i ∷ vec) item value =
      let rest = search_for_item_in_vec_and_return_value vec item value in
      elim (Y.get i item) [
        | none ↦ rest
        | some v ↦ elim (Y.as_str v) [
          | none ↦ rest
          | some s ↦ if str_eq s value then some i else rest
        ]
      ]

  unfoldable pub get_value_from_value : Value → String → Option Value
  get_value_from_value value key = Y.get value key

  -- `from_value` is `serde_yaml::from_value` at the type that the caller wants.
  module _ {T : Type 0} (from_value : Value → Option T) (default : T) where
    -- A value that is there but not of the wanted type is a panic.
    unfoldable pub convert : Value → Outcome T
    convert s = elim (from_value s) [ none ↦ panic | some v ↦ done v ]

    -- The loop over the keys, with the number of the next one and of all.
    unfoldable pub deref_loop : Settings → List String → ℕ → ℕ → Value → Outcome T
    deref_loop serde_map [] i n last_value = done default
    deref_loop serde_map (v ∷ deref_vec) i n last_value =
        if i == 0
        then elim (HashMap.get serde_map v) [
          | none ↦ done default
          | some s ↦ deref_loop serde_map deref_vec (i + 1) n s
        ]
        else elim (Y.get last_value v) [
          | none ↦ done default
          | some s ↦ if i == n - 1 then convert s else deref_loop serde_map deref_vec (i + 1) n s
        ]

    unfoldable pub get_inner_value : Settings → List String → Outcome T
    get_inner_value serde_map [] = done default
    get_inner_value serde_map (key ∷ []) = elim (HashMap.get serde_map key) [
      | none ↦ done default
      | some s ↦ convert s
    ]
    get_inner_value serde_map (key ∷ next ∷ deref_vec) =
        deref_loop serde_map (key ∷ next ∷ deref_vec) 0 (length (key ∷ next ∷ deref_vec)) Y.null
