-- ===== src/Config/Layers.antt =====
-- Which of its sources a value of a configuration comes from (`load_config` of src/config.rs).
use swandns.Prelude.{
  String, ◌≡◌, refl, ap, ◌∙◌, ◌⊎◌, inl, inr, Option, none, some, Option-cases, Result, ok,
  Result-cases,
}
use swandns.Config.{FilePath, FigmentLibrary, config_path, merged, load_config}

abbrev pub or_value : {V : Type 0} → Option V → Option V → Option V
or_value none o = o
or_value (some v) o = some v

-- What figment documents of the keys of a configuration: a value of a provider that is merged later
-- replaces one from before, and a configuration that is extracted has the values. (figment would
-- merge dictionaries; no field of the two configurations is one.)
pub record IsFigment {E T : Type 0} (figment : FigmentLibrary E T) : Type 1 where
  pub Value : Type 0
  -- a name of a field of `T`, and that the field holds what the value is read as
  pub IsField : String → Type 0
  pub Holds : String → Value → T → Type 0
  pub value : figment.Provider → String → Option Value
  pub values : figment.Figment → String → Option Value
  pub from_provider :
      (p : figment.Provider) (key : String) → values (figment.from_provider p) key ≡ value p key
  pub merge :
      (p : figment.Provider) (f : figment.Figment) (key : String)
      → values (figment.merge p f) key ≡ or_value (value p key) (values f key)
  pub defaults :
      (t : T) (key : String)
      → IsField key
      → (v : Value) × (value (figment.defaults t) key ≡ some v) × Holds key v t
  pub extracted :
      (f : figment.Figment) (t : T) (key : String) (v : Value)
      → figment.extract f ≡ ok t
      → values f key ≡ some v
      → Holds key v t

abbrev pub path_or : {E : Type 0} → Option FilePath → Result E FilePath → Result E FilePath
path_or none otherwise = otherwise
path_or (some path) otherwise = ok path

module _ {E T : Type 0} (confy_path : String → String → Result E FilePath)
    (figment : FigmentLibrary E T) (h : IsFigment figment) where
  abbrev pub env_value : String → Option h.Value
  env_value key = h.value (figment.env_prefixed "SWANDNS_") key

  abbrev pub file_value : FilePath → String → Option h.Value
  file_value file key = h.value (figment.yaml_file file) key

  -- the value's source: the first of the environment, the file and the defaults that has the key
  abbrev pub IsFrom : T → FilePath → String → h.Value → Type 0
  IsFrom defaults file key v =
      (env_value key ≡ some v)
      ⊎ ((env_value key ≡ none) × (file_value file key ≡ some v))
      ⊎ ((env_value key ≡ none) × (file_value file key ≡ none) × h.Holds key v defaults)

  values-merged :
      (defaults : T) (file : FilePath) (key : String)
      → h.values (merged confy_path figment defaults file) key
        ≡ or_value
            (env_value key)
            (or_value (file_value file key) (h.value (figment.defaults defaults) key))
  unfolding merged
  values-merged defaults file key =
      h.merge _ _ key
      ∙ ap (or_value (env_value key)) (
          h.merge _ _ key
          ∙ ap (or_value (file_value file key)) (h.from_provider (figment.defaults defaults) key))

  merged-IsFrom :
      (defaults : T) (file : FilePath) (key : String)
      → h.IsField key
      → (v : h.Value) × (h.values (merged confy_path figment defaults file) key ≡ some v)
        × IsFrom defaults file key v
  merged-IsFrom defaults file key field = elim (Option-cases (env_value key)) [
    | inr (v, env) ↦ (v, values-merged defaults file key ∙ rw env, inl env)
    | inl no_env ↦ elim (Option-cases (file_value file key)) [
      | inr (v, in_file) ↦
          (v, values-merged defaults file key ∙ rw (no_env, in_file), inr (inl (no_env, in_file)))
      | inl no_file ↦
          let (v, default, holds) = h.defaults defaults key field in
          (
            v,
            values-merged defaults file key ∙ rw (no_env, no_file, default),
            inr (inr (no_env, no_file, holds)),
          )
    ]
  ]

  -- Over figment, a configuration that `load_config` returns has each field from the first of these
  -- that gives it: the environment, under the prefix `SWANDNS_`; the file at the given path, or
  -- without one at the path that confy has for the name; the defaults.
  pub load_config_lem :
      (defaults t : T) (conf_name : String) (path : Option FilePath) (key : String)
      → h.IsField key
      → load_config confy_path figment defaults conf_name path ≡ ok t
      → (file : FilePath) × (path_or path (confy_path "swandns" conf_name) ≡ ok file)
        × (v : h.Value) × h.Holds key v t
        × IsFrom defaults file key v
  unfolding load_config config_path
  load_config_lem defaults t conf_name none key field loaded =
      elim (Result-cases (confy_path "swandns" conf_name)) [
        | inr (e, failed) ↦ cc (rw failed at loaded)
        | inl (file, found) ↦
            let (v, has, source) = merged-IsFrom defaults file key field in
            (file, found, v, h.extracted _ t key v (rw found at loaded) has, source)
      ]
  load_config_lem defaults t conf_name (some file) key field loaded =
      let (v, has, source) = merged-IsFrom defaults file key field in
      (file, refl, v, h.extracted _ t key v loaded has, source)
