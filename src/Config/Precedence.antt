-- ===== src/Config/Precedence.antt =====
-- `Config::load` of src/config.rs: which layer a setting comes from.
use hugrs.Prelude.{
  ◌≡◌, refl, sym, ap, ◌∙◌, String, Option, none, some, List, [], ◌∷◌, chars, Result, ok, err, ◌>>=◌,
  arith,
}
use hugrs.Storage.Trait.{Compression}
use hugrs.Config.{Text, Dirs, Config, default, ConfigPatch, CliOverrides}
use hugrs.Config.Layers.{Var}
use hugrs.Config.Cli.{cli_compression, cli_patch}
use hugrs.Config.Env.{EnvNumbers, env_numbers, env_patch}
use hugrs.Config.Overlay.{overlay}
use hugrs.Config.Load.{
  Figment, IsLayered, config_paths, first_file, merge_file, load, set_by_cli, set_by_env,
  set_by_file,
}
use hugrs.Config.Grouping.{cli_patch-SetsAll, env_patch-sets}

bind_ok :
    {A B : Type 0} (r : Result String A) (k : A → Result String B) (b : B)
    → (r >>= k) ≡ ok b
    → (a : A) × (r ≡ ok a) × (k a ≡ ok b)
bind_ok (ok a) k b h = (a, refl, h)
bind_ok (err e) k b h = absurd (ground arith)

-- The file that is read: the one named, or else the first that is there of hugrs.toml in the working
-- directory, the one in the user's configuration directory, and the one in /etc/hugrs.
abbrev pub or_next : Option ConfigPatch → Option ConfigPatch → Option ConfigPatch
or_next none next = next
or_next (some patch) next = some patch

abbrev pub chosen_file : Dirs → (Text → Option ConfigPatch) → Option Text → Option ConfigPatch
chosen_file dirs files (some path) = files path
chosen_file dirs files none =
    or_next (files (chars "hugrs.toml"))
      (or_next (files dirs.home_config) (files (chars "/etc/hugrs/hugrs.toml")))

first_file-cons :
    (files : Text → Option ConfigPatch) (path : Text) (paths : List Text)
    → first_file files (path ∷ paths) ≡ or_next (files path) (first_file files paths)
unfolding first_file
first_file-cons files path paths = with_file (files path)
  where
    with_file :
        (o : Option ConfigPatch)
        → elim o [ none ↦ first_file files paths | some patch ↦ some patch ]
          ≡ or_next o (first_file files paths)
    with_file none = refl
    with_file (some patch) = refl

or_next-none : (o : Option ConfigPatch) → or_next o none ≡ o
or_next-none none = refl
or_next-none (some patch) = refl

first_file-chosen :
    (dirs : Dirs) (files : Text → Option ConfigPatch) (config_file : Option Text)
    → first_file files (config_paths dirs config_file) ≡ chosen_file dirs files config_file
unfolding first_file config_paths
first_file-chosen dirs files (some path) = first_file-cons files path [] ∙ or_next-none (files path)
first_file-chosen dirs files none =
    first_file-cons files (chars "hugrs.toml") (dirs.home_config ∷ etc ∷ [])
    ∙ ap (or_next (files (chars "hugrs.toml"))) (
        first_file-cons files dirs.home_config (etc ∷ [])
        ∙ ap (or_next (files dirs.home_config)) (first_file-cons files etc [] ∙ or_next-none _))
  where
    etc : Text
    etc = chars "/etc/hugrs/hugrs.toml"

module _ (f : Figment) (law : IsLayered f) where
  file_merged :
      (v : f.Values) (file : Option ConfigPatch)
      → f.extract (merge_file f v file) ≡ set_by_file file (f.extract v)
  file_merged v none = refl
  file_merged v (some patch) = law.extract-merge v patch

  -- For figment's documented merge: in a configuration that is loaded, each setting is the one that
  -- the arguments name, or else the environment, or else the file, or else the default. The file is the
  -- one that is named, or else the first that is there of hugrs.toml, the user's and that in /etc/hugrs.
  -- The grouping of the settings into patches loses none of them.
  pub load_precedence :
      (dirs : Dirs) (files : Text → Option ConfigPatch) (env : String → Var)
      (config_file : Option Text) (o : CliOverrides) (config : Config)
      → load f dirs files env config_file o ≡ ok config
      → (n : EnvNumbers) × ((compression : Option Compression) × (env_numbers env ≡ ok n)
          × (cli_compression o.compression ≡ ok compression)
          × (config
              ≡ set_by_cli compression o (
                  set_by_env env n
                    (set_by_file (chosen_file dirs files config_file) (default dirs)))))
  unfolding load
  load_precedence dirs files env config_file o config h =
      let (e, e_ok, rest) = bind_ok (env_patch env) _ config h in
      let (c, c_ok, done) = bind_ok (cli_patch o) _ config rest in
      let (n, n_ok, by_env) = env_patch-sets env e e_ok in
      let (compression, read, by_cli) = cli_patch-SetsAll o c c_ok in
      (
        n,
        (
          compression,
          n_ok,
          read,
          sym (same_config _ config done)
              ∙ law.extract-merge _ c
              ∙ ap (overlay c) (
                  law.extract-merge _ e
                  ∙ ap (overlay e) (
                      file_merged (f.from_config (default dirs)) _
                      ∙ ap (set_by_file (first_file files (config_paths dirs config_file)))
                          (law.extract-from (default dirs))
                      ∙ ap (λ x. set_by_file x (default dirs))
                          (first_file-chosen dirs files config_file))
                  ∙ by_env _)
              ∙ by_cli _,
        ),
      )
    where
      same_config : (x y : Config) → ◌≡◌ {A = Result String Config} (ok x) (ok y) → x ≡ y
      same_config x y k = cc
