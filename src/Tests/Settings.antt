-- ===== src/Tests/Settings.antt =====
-- config.go at concrete inputs: no file, and one variable in the environment.
use dataverse_hub.Base.{◌≡◌, ◌⊎◌, none, [], bytes, ◌==◌, if◌then◌else◌}
use dataverse_hub.Config.{Environment, default_config, env_text, load_config}
use dataverse_hub.Config.Normal.{mode_text, load_config-normal}
use dataverse_hub.Vhost.Mode.{normalize_vhost_mode}
use dataverse_hub.Tests.Fixture.{toy}

abbrev one_set : Environment
one_set name = if name == bytes "HUB_VHOST_MODE" then bytes "Redirect" else []

load_config-normal_example :
    ((load_config toy none one_set).vhost_mode
      ≡ mode_text (
          normalize_vhost_mode
            (env_text (one_set (bytes "HUB_VHOST_MODE")) default_config.vhost_mode)))
    × (((load_config toy none one_set).upstream_push ≡ bytes "public")
        ⊎ ((load_config toy none one_set).upstream_push ≡ bytes "all"))
load_config-normal_example = load_config-normal toy none one_set
