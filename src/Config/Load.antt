-- ===== src/Config/Load.antt =====
-- `config_paths` and `Config::load` of src/config.rs, and what the layers set one by one.
use hugrs.Prelude.{◌≡◌, String, Option, none, some, List, [], ◌∷◌, Result, ok, ◌>>=◌, chars}
use hugrs.Storage.Trait.{Compression}
use hugrs.Config.{Text, Dirs, Config, default, ConfigPatch, CliOverrides}
use hugrs.Config.Layers.{Var}
use hugrs.Config.Cli.{
  storage_of_cli, database_of_cli, server_of_cli, admin_of_cli, huggingface_of_cli,
  modelscope_of_cli, cli_patch,
}
use hugrs.Config.Env.{
  EnvNumbers, storage_of_env, database_of_env, server_of_env, admin_of_env, huggingface_of_env,
  modelscope_of_env, env_patch,
}
use hugrs.Config.Overlay.{
  over_storage, over_database, over_server, over_admin, over_huggingface, over_modelscope, overlay,
}

-- The figment crate as `load` uses it: values from a configuration, a merge of a layer, and the
-- extraction of a configuration. A file that does not fit the configuration is left out.
pub record Figment : Type 1 where
  pub Values : Type 0
  pub from_config : Config → Values
  pub merge : Values → ConfigPatch → Values
  pub extract : Values → Config

-- As documented: a merge sets what the layer has and leaves the rest.
pub record IsLayered (f : Figment) : Type 0 where
  pub extract-from : (c : Config) → f.extract (f.from_config c) ≡ c
  pub extract-merge :
      (v : f.Values) (p : ConfigPatch) → f.extract (f.merge v p) ≡ overlay p (f.extract v)

-- `config_paths`: the path that was given, or the three places to look.
unfoldable pub config_paths : Dirs → Option Text → List Text
config_paths dirs (some path) = path ∷ []
config_paths dirs none = chars "hugrs.toml" ∷ dirs.home_config ∷ chars "/etc/hugrs/hugrs.toml" ∷ []

-- The first of the paths at which a file is; none for a path without a file.
unfoldable pub first_file : (Text → Option ConfigPatch) → List Text → Option ConfigPatch
first_file files [] = none
first_file files (path ∷ paths) = elim (files path) [
  | none ↦ first_file files paths
  | some patch ↦ some patch
]

module _ (f : Figment) where
  abbrev pub merge_file : f.Values → Option ConfigPatch → f.Values
  merge_file v none = v
  merge_file v (some patch) = f.merge v patch

  unfoldable pub load :
      Dirs
      → (Text → Option ConfigPatch)
      → (String → Var)
      → Option Text
      → CliOverrides
      → Result String Config
  unfolding config_paths first_file env_patch cli_patch default
  load dirs files env config_file o = env_patch env >>= λ e. cli_patch o >>= λ c. ok (
      f.extract (
        f.merge
          (f.merge
            (merge_file (f.from_config (default dirs))
              (first_file files (config_paths dirs config_file)))
            e)
          c))

-- The arguments over a configuration, setting by setting.
abbrev pub set_by_cli : Option Compression → CliOverrides → Config → Config
set_by_cli compression o c = record {
  storage = over_storage (storage_of_cli compression o) c.storage;
  database = over_database (database_of_cli o) c.database;
  server = over_server (server_of_cli o) c.server;
  admin = over_admin (admin_of_cli o) c.admin;
  huggingface = over_huggingface (huggingface_of_cli o) c.huggingface;
  modelscope = over_modelscope (modelscope_of_cli o) c.modelscope;
}

-- The environment over a configuration, setting by setting.
abbrev pub set_by_env : (String → Var) → EnvNumbers → Config → Config
set_by_env env n c = record {
  storage = over_storage (storage_of_env env n) c.storage;
  database = over_database (database_of_env env n) c.database;
  server = over_server (server_of_env env n) c.server;
  admin = over_admin (admin_of_env env n) c.admin;
  huggingface = over_huggingface (huggingface_of_env env n) c.huggingface;
  modelscope = over_modelscope (modelscope_of_env env n) c.modelscope;
}

-- The file over a configuration, where there is one.
abbrev pub set_by_file : Option ConfigPatch → Config → Config
set_by_file none c = c
set_by_file (some patch) c = overlay patch c
