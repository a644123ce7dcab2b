-- ===== src/Config/Normal.antt =====
-- config.go: the modes that the rest of the program meets.
use dataverse_hub.Base.{
  ◌≡◌, ◌⊎◌, refl, ◌||◌, Option, [], Bytes, bytes, ◌==◌, eq_iff, option_else, Bool-cases, inl, inr,
}
use dataverse_hub.External.{Library}
use dataverse_hub.Config.{
  FileConfig, Environment, default_config, checked_vhost_mode, checked_upstream_push, env_text,
  apply_file, apply_env, load_config,
}
use dataverse_hub.Vhost.Mode.{VhostMode, redirect, off, isolate, normalize_vhost_mode}

-- the text of a mode
abbrev pub mode_text : VhostMode → Bytes
mode_text off = bytes "off"
mode_text redirect = bytes "redirect"
mode_text isolate = bytes "isolate"

-- `applyEnv` and `normalizeVhostMode` read every text as the same mode.
checked_vhost_mode-normal :
    (mode : Bytes) → checked_vhost_mode mode ≡ mode_text (normalize_vhost_mode mode)
unfolding checked_vhost_mode normalize_vhost_mode
checked_vhost_mode-normal mode = elim (Bool-cases (mode == [])) [
  | inl e ↦ rw (e, mode_text) refl
  | inr e ↦ rw e (elim (Bool-cases (mode == bytes "isolate")) [
    | inl i ↦ rw (i, mode_text) ((eq_iff mode (bytes "isolate")).0 i)
    | inr i ↦ rw i (elim (Bool-cases (mode == bytes "redirect")) [
      | inl r ↦ rw (r, mode_text) ((eq_iff mode (bytes "redirect")).0 r)
      | inr r ↦ rw r (elim (Bool-cases (mode == bytes "off")) [
        | inl o ↦ rw (o, mode_text) ((eq_iff mode (bytes "off")).0 o)
        | inr o ↦ rw (o, mode_text) refl
      ])
    ])
  ])
]

checked_upstream_push-cases :
    (push : Bytes)
    → (checked_upstream_push push ≡ bytes "public") ⊎ (checked_upstream_push push ≡ bytes "all")
unfolding checked_upstream_push
checked_upstream_push-cases push = elim (Bool-cases (push == [] || push == bytes "public")) [
  | inl e ↦ rw e (inl refl)
  | inr e ↦ rw e (elim (Bool-cases (push == bytes "all")) [
    | inl a ↦ rw a (inr ((eq_iff push (bytes "all")).0 a))
    | inr a ↦ rw a (inl refl)
  ])
]

-- Whatever the file and the environment say, the loaded configuration has one of the three modes and
-- one of the two rules on pushes; and the mode is the text of what `normalizeVhostMode` makes of the
-- environment's text, or of that of the file or the default, if the environment has none.
pub load_config-normal :
    (lib : Library) (file : Option FileConfig) (env : Environment)
    → ((load_config lib file env).vhost_mode
        ≡ mode_text (
            normalize_vhost_mode (
              env_text
                (env (bytes "HUB_VHOST_MODE"))
                (option_else file default_config
                  λ fc. apply_file lib fc default_config).vhost_mode)))
      × (((load_config lib file env).upstream_push ≡ bytes "public")
          ⊎ ((load_config lib file env).upstream_push ≡ bytes "all"))
unfolding load_config apply_env
load_config-normal lib file env = (checked_vhost_mode-normal _, checked_upstream_push-cases _)
