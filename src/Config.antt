-- ===== src/Config.antt =====
-- config.go: the configuration, in layers: the defaults, the TOML file, the environment. A duration is
-- a number of nanoseconds; the decoded file and the environment are arguments.
pub mod Normal
use dataverse_hub.Base.{
  ℕ, ◌*◌, ◌^◌, Bool, true, false, ◌||◌, not, Option, none, some, [], Bytes, bytes, ◌==◌, ℤ, pos,
  if◌then◌else◌, option_else,
}
use dataverse_hub.External.{Library}

pub record Config : Type 0 where
  pub mode : Bytes
  pub upstream_url : Bytes
  pub upstream_push : Bytes
  pub addr : Bytes
  pub store_dir : Bytes
  pub rate_limit_per_min : ℤ
  pub rate_limit_per_day : ℤ
  pub default_viewer_ref : Bytes
  pub backup_enabled : Bool
  pub auth_token_expiry : ℤ
  pub base_domain : Bytes
  pub vhost_mode : Bytes
  pub txt_cache_ttl : ℤ

-- `fileConfig`; a key that the file lacks is `none`
pub record FileConfig : Type 0 where
  pub mode : Option Bytes
  pub upstream_url : Option Bytes
  pub upstream_push : Option Bytes
  pub addr : Option Bytes
  pub store_dir : Option Bytes
  pub rate_limit_per_min : Option ℤ
  pub rate_limit_per_day : Option ℤ
  pub default_viewer_ref : Option Bytes
  pub backup_enabled : Option Bool
  pub auth_token_expiry : Option Bytes
  pub base_domain : Option Bytes
  pub vhost_mode : Option Bytes
  pub txt_cache_ttl : Option Bytes

-- the defaults of `loadConfig`
abbrev pub default_config : Config
default_config = record {
  mode = bytes "proxy";
  upstream_url = bytes "https://dataverse001.net";
  upstream_push = bytes "public";
  addr = bytes ":5678";
  store_dir = bytes "./dataverse001";
  rate_limit_per_min = pos 120;
  rate_limit_per_day = pos 20000;
  default_viewer_ref =
      bytes "AxyU5_5vWmP2tO_klN4UpbZzRsuJEvJTrdwdg_gODxZJ.b3f5a7c9-2d4e-4f60-9b8a-0c1d2e3f4a5b";
  backup_enabled = true;
  auth_token_expiry = pos (168 * 60 * 60 * 10 ^ 9);
  base_domain = bytes "localhost";
  vhost_mode = bytes "isolate";
  txt_cache_ttl = pos (5 * 60 * 10 ^ 9);
}

-- `if fc.X != nil { cfg.X = *fc.X }`
abbrev pub or_file {ℓ} : {A : Type ℓ} → Option A → A → A
or_file value old = option_else value old λ new. new

-- an invalid duration keeps the old one
abbrev pub or_duration : Library → Option Bytes → ℤ → ℤ
or_duration lib value old =
    option_else value old λ text. option_else (lib.parse_duration text) old λ d. d

-- `applyFile`, of the decoded file
unfoldable pub apply_file : Library → FileConfig → Config → Config
apply_file lib fc cfg = record {
  mode = or_file fc.mode cfg.mode;
  upstream_url = or_file fc.upstream_url cfg.upstream_url;
  upstream_push = or_file fc.upstream_push cfg.upstream_push;
  addr = or_file fc.addr cfg.addr;
  store_dir = or_file fc.store_dir cfg.store_dir;
  rate_limit_per_min = or_file fc.rate_limit_per_min cfg.rate_limit_per_min;
  rate_limit_per_day = or_file fc.rate_limit_per_day cfg.rate_limit_per_day;
  default_viewer_ref = or_file fc.default_viewer_ref cfg.default_viewer_ref;
  backup_enabled = or_file fc.backup_enabled cfg.backup_enabled;
  auth_token_expiry = or_duration lib fc.auth_token_expiry cfg.auth_token_expiry;
  base_domain = or_file fc.base_domain cfg.base_domain;
  vhost_mode = or_file fc.vhost_mode cfg.vhost_mode;
  txt_cache_ttl = or_duration lib fc.txt_cache_ttl cfg.txt_cache_ttl;
}

-- os.Getenv; "" for a variable that is not set
abbrev pub Environment : Type 0
Environment = Bytes → Bytes

-- `if v := os.Getenv(name); v != "" { … }`
abbrev pub if_set {ℓ} : {A : Type ℓ} → Bytes → A → (Bytes → A) → A
if_set v old f = if v == [] then old else f v

abbrev pub env_text : Bytes → Bytes → Bytes
env_text v old = if_set v old λ new. new

abbrev pub env_int : Library → Bytes → ℤ → ℤ
env_int lib v old = if_set v old λ text. option_else (lib.atoi text) old λ n. n

abbrev pub env_duration : Library → Bytes → ℤ → ℤ
env_duration lib v old = if_set v old λ text. option_else (lib.parse_duration text) old λ d. d

-- the switch on `cfg.VhostMode`
unfoldable pub checked_vhost_mode : Bytes → Bytes
checked_vhost_mode mode =
    if mode == []
    then bytes "isolate"
    else if mode == bytes "isolate" || mode == bytes "redirect" || mode == bytes "off"
    then mode
    else bytes "isolate"

-- the switch on `cfg.UpstreamPush`
unfoldable pub checked_upstream_push : Bytes → Bytes
checked_upstream_push push =
    if push == [] || push == bytes "public"
    then bytes "public"
    else if push == bytes "all"
    then push
    else bytes "public"

-- `applyEnv`
unfoldable pub apply_env : Library → Environment → Config → Config
apply_env lib env cfg = record {
  mode = env_text (env (bytes "DATAVERSE_MODE")) cfg.mode;
  upstream_url = env_text (env (bytes "DATAVERSE_UPSTREAM_URL")) cfg.upstream_url;
  upstream_push =
      checked_upstream_push (env_text (env (bytes "DATAVERSE_UPSTREAM_PUSH")) cfg.upstream_push);
  addr = env_text (env (bytes "HUB_ADDR")) cfg.addr;
  store_dir = env_text (env (bytes "HUB_STORE_DIR")) cfg.store_dir;
  rate_limit_per_min = env_int lib (env (bytes "HUB_RATE_LIMIT_PER_MIN")) cfg.rate_limit_per_min;
  rate_limit_per_day = env_int lib (env (bytes "HUB_RATE_LIMIT_PER_DAY")) cfg.rate_limit_per_day;
  default_viewer_ref = env_text (env (bytes "HUB_DEFAULT_VIEWER_REF")) cfg.default_viewer_ref;
  backup_enabled =
      if_set (env (bytes "HUB_BACKUP_ENABLED")) cfg.backup_enabled λ text. text == bytes "true";
  auth_token_expiry = env_duration lib (env (bytes "HUB_AUTH_TOKEN_EXPIRY")) cfg.auth_token_expiry;
  base_domain = env_text (env (bytes "HUB_BASE_DOMAIN")) cfg.base_domain;
  vhost_mode = checked_vhost_mode (env_text (env (bytes "HUB_VHOST_MODE")) cfg.vhost_mode);
  txt_cache_ttl = env_duration lib (env (bytes "HUB_TXT_CACHE_TTL")) cfg.txt_cache_ttl;
}

-- `loadConfig` after the parse of the flags; `none` is that no file is named
unfoldable pub load_config : Library → Option FileConfig → Environment → Config
load_config lib file env =
    apply_env lib env (option_else file default_config λ fc. apply_file lib fc default_config)
