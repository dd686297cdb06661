-- ===== src/Config.antt =====
-- internal/config/config.go and internal/version/version.go: the configuration as the YAML file
-- gives it, and where it is read from.
use pgfga.Base.{ℕ, String, Bool, Option, none, some, List, ◌||◌, ◌==◌, if◌then◌else◌}
use pgfga.Base.Result.{Error, Result, ok, err}
use pgfga.GoMap.{Map}
use pgfga.Pg.State.{State}
use pgfga.Pg.ConnParam.{ConnParams}
use pgfga.Pg.Role.{Time}
use pgfga.Pg.Database.{Databases}
use pgfga.Pg.Handler.{StrictOptions}
use pgfga.Ldap.Directory

-- FgaGeneralConfig: the level and the delay, in nanoseconds, are handed on as they are
pub record FgaGeneralConfig : Type 0 where
  pub log_level : String
  pub run_delay : ℕ
  pub debug : Bool

pub record FgaUserConfig : Type 0 where
  pub auth : String
  pub base_dn : String
  pub filter : String
  pub member_of : List String
  pub options : List String
  pub expiry : Time
  pub password : String
  pub state : State

pub record FgaRoleConfig : Type 0 where
  pub options : List String
  pub member_of : List String
  pub state : State

pub record FgaConfig : Type 0 where
  pub general_config : FgaGeneralConfig
  pub strict_config : StrictOptions
  pub ldap_config : Directory.Config
  pub pg_dsn : ConnParams
  pub dbs_config : Databases
  pub user_config : Map FgaUserConfig
  pub roles : Map FgaRoleConfig
  pub slots : List String

abbrev pub env_conf_name : String
env_conf_name = "PGFGACONFIG"

abbrev pub default_conf_file : String
default_conf_file = "/etc/pgfga/config.yaml"

-- GetAppVersion
abbrev pub app_version : String
app_version = "v0.0.0"

-- The flags as the command line sets them; none for -c if it is not given.
pub record Flags : Type 0 where
  pub debug : Bool
  pub display_version : Bool
  pub config_file : Option String

-- os.Getenv, filepath.EvalSymlinks, os.ReadFile, and yaml.Unmarshal with the configuration that it
-- leaves and its error.
pub record Loader : Type 0 where
  pub getenv : String → String
  pub eval_symlinks : String → Result String
  pub read_file : String → Result String
  pub unmarshal : String → FgaConfig → FgaConfig × Option Error

-- os.Exit(0) after the version is printed, or the two results of NewConfig
pub data Started : Type 0 where
  exited : String → Started
  returned : FgaConfig → Option Error → Started

module _ (loader : Loader) where
  -- the file that is read: -c, or the environment, or the default
  unfoldable pub config_path : Flags → String
  config_path flags =
      let named : String = elim flags.config_file [
        | none ↦ loader.getenv env_conf_name
        | some file ↦ file
      ] in
      if named == "" then default_conf_file else named

  abbrev with_debug : Flags → FgaConfig × Option Error → Started
  with_debug flags (config, error) =
      returned
        (record config {
          general_config = record config.general_config {
            debug = config.general_config.debug || flags.debug;
          };
        })
        error

  abbrev unmarshalled : Flags → FgaConfig → Result String → Started
  unmarshalled flags zero_config (err e) = returned zero_config (some e)
  unmarshalled flags zero_config (ok yaml_config) =
      with_debug flags (loader.unmarshal yaml_config zero_config)

  -- NewConfig, from the configuration with all fields zero
  unfoldable pub new_config : FgaConfig → Flags → Started
  unfolding config_path
  new_config zero_config flags =
      if flags.display_version
      then exited app_version
      else elim (loader.eval_symlinks (config_path flags)) [
        | err e ↦ returned zero_config (some e)
        | ok file ↦ unmarshalled flags zero_config (loader.read_file file)
      ]
