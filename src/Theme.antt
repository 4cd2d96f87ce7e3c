-- ===== src/Theme.antt =====
-- internal/theme: the five colours of a theme, the presets, and the check of what a user writes.
pub mod Colours
use sshush.Prelude.{
  ℕ, ◌+◌, ◌-◌, ◌*◌, Bool, true, false, not, ◌&&◌, ◌||◌, Option, none, some, List, [], ◌∷◌, Bytes,
  codes, bytes_eq, leb, is_empty, if◌then◌else◌, ◌==◌,
}
use sshush.Prelude.Text.{trim_space}
use sshush.Prelude.Case.{to_lower}

pub record Theme : Type 0 where
  pub text : Bytes
  pub focus : Bytes
  pub accent : Bytes
  pub error : Bytes
  pub warning : Bytes

-- [0-9A-Fa-f]
unfoldable pub is_hex : ℕ → Bool
is_hex c = (leb 48 c && leb c 57) || (leb 65 c && leb c 70) || (leb 97 c && leb c 102)

-- hexRegex: `#` and six hexadecimal digits.
unfoldable pub valid_hex : Bytes → Bool
unfolding is_hex
valid_hex (h ∷ a ∷ b ∷ c ∷ d ∷ e ∷ f ∷ []) =
    h == 35 && is_hex a && is_hex b && is_hex c && is_hex d && is_hex e && is_hex f
valid_hex other = false

abbrev pub merged : Bytes → Bytes → Bytes
merged custom standard = if not (is_empty custom) && valid_hex custom then custom else standard

unfoldable pub merge_with_default : Theme → Theme → Theme
unfolding valid_hex
merge_with_default custom standard = record {
  text = merged custom.text standard.text;
  focus = merged custom.focus standard.focus;
  accent = merged custom.accent standard.accent;
  error = merged custom.error standard.error;
  warning = merged custom.warning standard.warning;
}

pub record Rgba : Type 0 where
  pub red : ℕ
  pub green : ℕ
  pub blue : ℕ
  pub alpha : ℕ

unfoldable pub hex_value : ℕ → ℕ
hex_value c = if leb c 57 then c - 48 else if leb c 70 then c - 55 else c - 87

-- strconv.ParseUint of two digits in base 16.
abbrev pub byte_of : ℕ → ℕ → ℕ
byte_of a b = 16 * hex_value a + hex_value b

abbrev pub rgba_of : Bytes → Option Rgba
rgba_of (h ∷ a ∷ b ∷ c ∷ d ∷ e ∷ f ∷ []) =
    some (record { red = byte_of a b; green = byte_of c d; blue = byte_of e f; alpha = 255 })
rgba_of other = none

-- `none` is a colour that is not valid.
unfoldable pub hex_to_rgba : Bytes → Option Rgba
unfolding valid_hex hex_value
hex_to_rgba hex = if not (valid_hex hex) then none else rgba_of hex

abbrev palette : Bytes → Bytes → Bytes → Bytes → Bytes → Theme
palette text focus accent error warning = record {
  text = text;
  focus = focus;
  accent = accent;
  error = error;
  warning = warning;
}

abbrev pub default_theme : Theme
default_theme =
    palette (codes "#585858") (codes "#7EE787") (codes "#F472B6") (codes "#F87171")
      (codes "#F2E94E")

abbrev pub presets : List (Bytes × Theme)
presets =
    (codes "default", default_theme)
    ∷ (
      codes "dracula",
      palette (codes "#F8F8F2") (codes "#50FA7B") (codes "#BD93F9") (codes "#FF5555")
          (codes "#F1FA8C"),
    )
    ∷ (
      codes "nord",
      palette (codes "#d8dee9") (codes "#a3be8c") (codes "#88c0d0") (codes "#bf616a")
          (codes "#ebcb8b"),
    )
    ∷ (
      codes "solarized-dark",
      palette (codes "#839496") (codes "#859900") (codes "#268bd2") (codes "#dc322f")
          (codes "#b58900"),
    )
    ∷ (
      codes "catppuccin-latte",
      palette (codes "#4c4f69") (codes "#40a02b") (codes "#8839ef") (codes "#d20f39")
          (codes "#df8e1d"),
    )
    ∷ (
      codes "catppuccin-mocha",
      palette (codes "#cdd6f4") (codes "#a6e3a1") (codes "#cba6f7") (codes "#f38ba8")
          (codes "#f9e2af"),
    )
    ∷ (
      codes "3024-day",
      palette (codes "#4a4543") (codes "#01a252") (codes "#01a0e4") (codes "#db2d20")
          (codes "#fded02"),
    )
    ∷ (
      codes "3024-night",
      palette (codes "#a5a2a2") (codes "#01a252") (codes "#01a0e4") (codes "#db2d20")
          (codes "#fded02"),
    )
    ∷ (
      codes "aurelia-retro",
      palette (codes "#EA549F") (codes "#4EC9B0") (codes "#579BD5") (codes "#E92888")
          (codes "#CE9178"),
    )
    ∷ (
      codes "charmquark",
      palette (codes "#FFFFFF") (codes "#A6E22E") (codes "#AE81FF") (codes "#F92672")
          (codes "#66D9EF"),
    )
    ∷ (
      codes "cobalt2",
      palette (codes "#c7c7c7") (codes "#3AD900") (codes "#1478DB") (codes "#ff2600")
          (codes "#ffc600"),
    )
    ∷ (
      codes "cyberpunk",
      palette (codes "#e5e5e5") (codes "#00fbac") (codes "#00bfff") (codes "#ff7092")
          (codes "#fffa6a"),
    )
    ∷ (
      codes "monokai-night",
      palette (codes "#f8f8f8") (codes "#a6e22e") (codes "#6699df") (codes "#f92672")
          (codes "#e6db74"),
    )
    ∷ (
      codes "monokai-set",
      palette (codes "#F8F8F2") (codes "#98F424") (codes "#9D65FF") (codes "#F4005F")
          (codes "#FA8419"),
    )
    ∷ (
      codes "night-owl",
      palette (codes "#D6DEEB") (codes "#22DA6E") (codes "#82AAFF") (codes "#EF5350")
          (codes "#ADDB67"),
    )
    ∷ (
      codes "one-half-dark",
      palette (codes "#DCDFE4") (codes "#98C379") (codes "#C678DD") (codes "#E06C75")
          (codes "#E5C07B"),
    )
    ∷ (
      codes "polygone",
      palette (codes "#ffffff") (codes "#2fff24") (codes "#6272a4") (codes "#ff2424")
          (codes "#ffc400"),
    )
    ∷ (
      codes "putty",
      palette (codes "#bbbbbb") (codes "#64d238") (codes "#3442f1") (codes "#ff5555")
          (codes "#ffff55"),
    )
    ∷ (
      codes "smyck",
      palette (codes "#F8F8F8") (codes "#8EB33B") (codes "#4E90A7") (codes "#C75646")
          (codes "#D0B03C"),
    )
    ∷ (
      codes "synthwave",
      palette (codes "#dad9c7") (codes "#1ebb2b") (codes "#2186ec") (codes "#f6188f")
          (codes "#fdf834"),
    )
    ∷ (
      codes "thanatos-dark",
      palette (codes "#e09887") (codes "#0de1b1") (codes "#0e9bd1") (codes "#ce4559")
          (codes "#d8cb32"),
    )
    ∷ (
      codes "void-scheme",
      palette (codes "#d0d2df") (codes "#a6fa62") (codes "#7f7ab6") (codes "#be6482")
          (codes "#ad8f5d"),
    )
    ∷ (
      codes "vscode",
      palette (codes "#D3D3D3") (codes "#3FC48A") (codes "#579BD5") (codes "#D8473F")
          (codes "#D7BA7D"),
    )
    ∷ (
      codes "x-dotshare",
      palette (codes "#D7D0C7") (codes "#B8D68C") (codes "#7DC1CF") (codes "#E84F4F")
          (codes "#E1AA5D"),
    )
    ∷ []

unfoldable pub find_preset : Bytes → List (Bytes × Theme) → Option Theme
find_preset name [] = none
find_preset name ((n, t) ∷ ts) =
    let rest = find_preset name ts in if bytes_eq n name then some t else rest

-- `none` is the default theme with false.
unfoldable pub resolve_theme : Bytes → Option Theme
unfolding find_preset to_lower trim_space
resolve_theme name = find_preset (to_lower (trim_space name)) presets
