-- ===== src/SettingYaml/Tests.antt =====
-- A lookup of settingYaml.rs, and its theorem there.
use Prim.Native.String.{String}
use text.Mathlib.Text.{◌==◌ as str_eq}
use fissure.Common.{ℕ, ◌≡◌, refl, Outcome, done, Option, some, none, List, [], ◌∷◌, if◌then◌else◌}
use fissure.SettingYaml.{Yaml, Settings, get_inner_value}
use fissure.SettingYaml.Lookup.{resolve, converted, get_inner_value-resolve}

-- A mapping with one key, or a number.
data Node : Type 0 where
  leaf : ℕ → Node
  entry : String → Node → Node

find_key : Node → String → Option Node
find_key (leaf n) key = none
find_key (entry k v) key = if str_eq k key then some v else none

number : Node → Option ℕ
number (leaf n) = some n
number (entry k v) = none

abbrev yaml : Yaml
yaml = record { Value = Node; null = leaf 0; get = find_key; as_str = λ v. none }

abbrev settings : Settings yaml
settings = ("client", entry "port" (leaf 8080)) ∷ []

get_inner_value-resolve_example :
    get_inner_value yaml number 6001 settings ("client" ∷ "port" ∷ [])
    ≡ converted yaml number 6001 (resolve yaml settings ("client" ∷ "port" ∷ []))
get_inner_value-resolve_example =
    get_inner_value-resolve yaml number 6001 settings ("client" ∷ "port" ∷ [])

port_found : get_inner_value yaml number 6001 settings ("client" ∷ "port" ∷ []) ≡ done 8080
unfolding get_inner_value fissure.SettingYaml.deref_loop fissure.Common.HashMap.get find_key
    fissure.SettingYaml.convert number
port_found = refl
