-- ===== src/SettingYaml/Lookup.antt =====
-- `get_inner_value` of settingYaml.rs against a plain walk down a path of keys.
use Prim.Native.String.{String}
use fissure.Common.{
  ℕ, ◌+◌, ◌-◌, ◌≤◌, ◌≡◌, refl, Outcome, done, Option, some, none, List, [], ◌∷◌, length, arith,
  eq→==, ne→==, Option-cases, inl, inr,
}
use fissure.Common.HashMap
use fissure.Common.HashMap.{string_Eq}
use fissure.SettingYaml.{Yaml, Settings, convert, deref_loop, get_inner_value}

module _ (Y : Yaml) where
  open Y use {Value}

  -- The value at the end of a path, if every key on it is there.
  unfoldable pub walk : Value → List String → Option Value
  walk v [] = some v
  walk v (k ∷ ks) = elim (Y.get v k) [ none ↦ none | some w ↦ walk w ks ]

  unfoldable pub resolve : Settings Y → List String → Option Value
  resolve settings [] = none
  resolve settings (k ∷ ks) = elim (HashMap.get settings k) [ none ↦ none | some v ↦ walk v ks ]

  module _ {T : Type 0} (from_value : Value → Option T) (default : T) where
    unfoldable pub converted : Option Value → Outcome T
    converted none = done default
    converted (some v) = convert Y from_value default v

    deref_loop-walk :
        (settings : Settings Y) (k : String) (ks : List String) (i n : ℕ) (v : Value)
        → 1 ≤ i
        → i + length (k ∷ ks) ≡ n
        → deref_loop Y from_value default settings (k ∷ ks) i n v ≡ converted (walk v (k ∷ ks))
    unfolding deref_loop walk converted
    deref_loop-walk settings k [] i n v le e = elim (Option-cases (Y.get v k)) [
      | inl x ↦ rw (deref_loop, walk, ne→== i 0 (omega arith), x) refl
      | inr (w, x) ↦
          rw (deref_loop, walk, ne→== i 0 (omega arith), x, eq→== i (n - 1) (omega arith)) refl
    ]
    deref_loop-walk settings k (j ∷ ks) i n v le e = elim (Option-cases (Y.get v k)) [
      | inl x ↦ rw (deref_loop, walk, ne→== i 0 (omega arith), x) refl
      | inr (w, x) ↦
          rw (deref_loop, walk, ne→== i 0 (omega arith), x, ne→== i (n - 1) (omega arith))
            (deref_loop-walk settings j ks (i + 1) n w (omega arith) (omega arith))
    ]

    -- A setting is looked up by walking down its path of keys: where a key is missing, or the path is
    -- empty, the result is the default; where the value at its end has another type than the wanted
    -- one, the lookup panics; else it is that value.
    pub get_inner_value-resolve :
        (settings : Settings Y) (path : List String)
        → get_inner_value Y from_value default settings path ≡ converted (resolve settings path)
    unfolding get_inner_value resolve converted walk deref_loop
    get_inner_value-resolve settings [] = refl
    get_inner_value-resolve settings (k ∷ []) = elim (Option-cases (HashMap.get settings k)) [
      | inl x ↦ rw (get_inner_value, resolve, x) refl
      | inr (v, x) ↦ rw (get_inner_value, resolve, x) refl
    ]
    get_inner_value-resolve settings (k ∷ j ∷ ks) = elim (Option-cases (HashMap.get settings k)) [
      | inl x ↦ rw (get_inner_value, resolve, x) refl
      | inr (v, x) ↦
          rw (get_inner_value, deref_loop, resolve, x)
            (deref_loop-walk settings j ks 1 (length (k ∷ j ∷ ks)) v (omega arith) (omega arith))
    ]
