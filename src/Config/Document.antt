-- ===== src/Config/Document.antt =====
-- internal/config/config.go: toDocument against documentToConfig, and the configured theme.
use sshush.Prelude.{
  zero, suc, ◌≡◌, refl, ap, ◌∙◌, Bool, true, false, not, ◌||◌, some, [], ◌∷◌, Bytes, bytes_eq,
  is_empty, arith, Bool-cases, Option-cases, inl, inr, if◌then◌else◌,
}
use sshush.Prelude.Outcome.{ok, require}
use sshush.Paths.{with_default}
use sshush.Theme.{resolve_theme}
use sshush.Theme.Colours.{IsValid, resolve_theme-IsValid, default_theme-IsValid, merged-IsValid}
use sshush.Config.{
  ℤ, pos, negsuc, Config, ConfigDocument, ConfigError, ThemeSection, server_section, to_document,
  document_to_config, has_material, known_type, config_of, custom_theme, is_zero, has_server,
  no_server, agent_type_vault, agent_type_keys, agent_type_external, resolve_theme_from_section,
}

-- The theme that a section of the configuration gives has five valid colours, whatever the user wrote.
pub resolve_theme_from_section-IsValid : (s : ThemeSection) → IsValid (resolve_theme_from_section s)
unfolding resolve_theme_from_section
resolve_theme_from_section-IsValid s = elim (Bool-cases (is_empty s.name)) [
  | inl unnamed ↦ rw unnamed (merged-IsValid (custom_theme s))
  | inr named ↦ elim (Option-cases (resolve_theme s.name)) [
    | inl unknown ↦ rw (named, unknown) default_theme-IsValid
    | inr (t, known) ↦ rw (named, known) (resolve_theme-IsValid s.name t known)
  ]
]

-- The conditions that the switch of documentToConfig is about.
unfoldable pub IsComplete : Config → Type 0
IsComplete c =
    (known_type c.agent_type ≡ true)
    × ((not (is_empty c.socket_path) || bytes_eq c.agent_type agent_type_external) ≡ true)
    × ((not (bytes_eq c.agent_type agent_type_vault) || not (is_empty c.vault_path)) ≡ true)

zero-eq : (n : ℤ) → is_zero n ≡ true → n ≡ pos 0
zero-eq (pos zero) h = refl
zero-eq (pos (suc n)) h = cc
zero-eq (negsuc n) h = cc

empty-eq : (s : Bytes) → is_empty s ≡ true → s ≡ []
empty-eq [] h = refl
empty-eq (c ∷ s) h = cc

server-kept :
    (c : Config) → (if has_server c then server_section c else no_server) ≡ server_section c
server-kept c = elim (Bool-cases (has_server c)) [
  | inl some_set ↦ rw some_set refl
  | inr none_set ↦ rw none_set (
      ground (
        arith,
        zero-eq c.server_listen_port,
        empty-eq c.server_authorized_keys,
        empty-eq c.server_host_key,
        empty-eq c.server_shell,
        empty-eq c.server_log_file,
        empty-eq c.server_log_level,
      ))
]

path-kept : (path : Bytes) → (if is_empty path then [] else path) ≡ path
path-kept [] = refl
path-kept (c ∷ s) = refl

document_to_config-eq-ok :
    (d : ConfigDocument)
    → known_type d.agent.agent_type ≡ true
    → (not (is_empty d.agent.socket_path) || bytes_eq d.agent.agent_type agent_type_external) ≡ true
    → has_material d ≡ ok tt
    → document_to_config d ≡ ok (config_of d)
unfolding document_to_config
document_to_config-eq-ok d known socket material = rw (known, socket, material) refl

has_material-to_document : (c : Config) → IsComplete c → has_material (to_document c) ≡ ok tt
unfolding has_material to_document IsComplete
has_material-to_document c (known, socket, vault) =
    elim (Bool-cases (bytes_eq c.agent_type agent_type_vault)) [
      | inl same ↦
          rw (same, path-kept c.vault_path) (present (is_empty c.vault_path) (rw same at vault))
      | inr other ↦ elim (Bool-cases (bytes_eq c.agent_type agent_type_keys)) [
        | inl keys ↦ rw (other, keys) refl
        | inr external ↦ rw (other, external) refl
      ]
    ]
  where
    present :
        (b : Bool) → (not true || not b) ≡ true → require (not b) ConfigError.no_vault_path ≡ ok tt
    present true h = cc
    present false h = refl

config_of-to_document :
    (c : Config)
    → config_of (to_document c) ≡ record c { key_paths = some (with_default [] c.key_paths) }
unfolding to_document
config_of-to_document c = rw (path-kept c.vault_path, server-kept c) refl

-- A Config with a type that is known, a socket path unless the agent is external, and a vault path
-- where the agent is the vault's is read back from the document that is written of it, but for a nil
-- list of key paths, which is read back as an empty one.
pub document_to_config-to_document :
    (c : Config)
    → IsComplete c
    → document_to_config (to_document c)
      ≡ ok (record c { key_paths = some (with_default [] c.key_paths) })
unfolding IsComplete to_document
document_to_config-to_document c (known, socket, vault) =
    document_to_config-eq-ok (to_document c) known socket
      (has_material-to_document c (known, socket, vault))
    ∙ ap ok (config_of-to_document c)
