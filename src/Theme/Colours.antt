-- ===== src/Theme/Colours.antt =====
-- internal/theme: validate.go and themes.go, hexadecimal colours and the colours of a theme.
use sshush.Prelude.{
  ℕ, ◌≡◌, refl, ap, subst, ◌↔◌, ◌<◌, ◌≤◌, ◌+◌, ◌*◌, ◌⊎◌, Bool, true, ◌&&◌, some, List, [], ◌∷◌,
  Bytes, bytes_eq, arith, Bool-cases, inl, inr,
}
use sshush.Theme.{
  Theme, Rgba, is_hex, valid_hex, merged, merge_with_default, hex_value, hex_to_rgba, rgba_of,
  default_theme, presets, find_preset, resolve_theme,
}

-- All five colours are valid.
unfoldable pub IsValid : Theme → Type 0
IsValid t =
    (valid_hex t.text ≡ true)
    × (valid_hex t.focus ≡ true)
    × (valid_hex t.accent ≡ true)
    × (valid_hex t.error ≡ true)
    × (valid_hex t.warning ≡ true)

unfoldable AreValid : List (Bytes × Theme) → Type 0
AreValid [] = Unit
AreValid ((n, t) ∷ ts) = IsValid t × AreValid ts

all_valid : List (Bytes × Theme) → Bool
all_valid [] = true
all_valid ((n, t) ∷ ts) =
    valid_hex t.text
    && valid_hex t.focus
    && valid_hex t.accent
    && valid_hex t.error
    && valid_hex t.warning
    && all_valid ts

all_valid-AreValid : (ts : List (Bytes × Theme)) → all_valid ts ≡ true → AreValid ts
unfolding all_valid AreValid IsValid
all_valid-AreValid [] h = tt
all_valid-AreValid ((n, t) ∷ ts) h = ground (arith, all_valid-AreValid ts)

presets-AreValid : AreValid presets
unfolding all_valid valid_hex is_hex
presets-AreValid = all_valid-AreValid presets refl

find_preset-IsValid :
    (name : Bytes) (ts : List (Bytes × Theme)) {t : Theme}
    → AreValid ts
    → find_preset name ts ≡ some t
    → IsValid t
unfolding AreValid find_preset
find_preset-IsValid name [] v h = cc
find_preset-IsValid name ((n, s) ∷ ts) {t} (v, vs) h = elim (Bool-cases (bytes_eq n name)) [
  | inl same ↦ subst IsValid (ground arith) v
  | inr other ↦ find_preset-IsValid name ts {t = t} vs (ground arith)
]

-- A hexadecimal digit, of either case, and its value.
abbrev pub IsDigit : ℕ → ℕ → Type 0
IsDigit c v = ((v < 10) × (c ≡ 48 + v)) ⊎ ((10 ≤ v) × (v < 16) × ((c ≡ 55 + v) ⊎ (c ≡ 87 + v)))

abbrev pub IsByte : ℕ → ℕ → ℕ → Type 0
IsByte c d v = (m : ℕ) × (n : ℕ) × IsDigit c m × IsDigit d n × (v ≡ 16 * m + n)

-- A text is `#`, two digits of red, two of green and two of blue, and the colour is opaque.
unfoldable pub Spells : Bytes → Rgba → Type 0
Spells s c =
    (r1 r2 g1 g2 b1 b2 : ℕ) × (s ≡ 35 ∷ r1 ∷ r2 ∷ g1 ∷ g2 ∷ b1 ∷ b2 ∷ [])
    × IsByte r1 r2 c.red
    × IsByte g1 g2 c.green
    × IsByte b1 b2 c.blue
    × (c.alpha ≡ 255)

hex_value-IsDigit : (c : ℕ) → is_hex c ≡ true → IsDigit c (hex_value c)
unfolding is_hex hex_value
hex_value-IsDigit c h = ground arith

digit-is_hex : (c v : ℕ) → IsDigit c v → is_hex c ≡ true
unfolding is_hex
digit-is_hex c v h = ground arith

digit-hex_value : (c v : ℕ) → IsDigit c v → hex_value c ≡ v
unfolding hex_value
digit-hex_value c v h = ground arith

merged-valid :
    (custom standard : Bytes)
    → valid_hex standard ≡ true
    → valid_hex (merged custom standard) ≡ true
merged-valid custom standard v = ground arith

merge_with_default-IsValid :
    (custom standard : Theme) → IsValid standard → IsValid (merge_with_default custom standard)
unfolding IsValid merge_with_default
merge_with_default-IsValid custom standard (t, f, a, e, w) = (
  merged-valid custom.text standard.text t,
  merged-valid custom.focus standard.focus f,
  merged-valid custom.accent standard.accent a,
  merged-valid custom.error standard.error e,
  merged-valid custom.warning standard.warning w,
)

-- A preset and the default theme are valid, and so is what is merged with it.
pub resolve_theme-IsValid : (name : Bytes) (t : Theme) → resolve_theme name ≡ some t → IsValid t
unfolding resolve_theme
resolve_theme-IsValid name t h = find_preset-IsValid _ presets {t = t} presets-AreValid h

pub default_theme-IsValid : IsValid default_theme
unfolding IsValid valid_hex is_hex
default_theme-IsValid = (refl, refl, refl, refl, refl)

pub merged-IsValid : (custom : Theme) → IsValid (merge_with_default custom default_theme)
merged-IsValid custom = merge_with_default-IsValid custom default_theme default_theme-IsValid

-- What the check says of seven characters.
valid_hex-parts :
    (h a b d e f g : ℕ)
    → valid_hex (h ∷ a ∷ b ∷ d ∷ e ∷ f ∷ g ∷ []) ≡ true
    → (h ≡ 35)
      × (is_hex a ≡ true)
      × (is_hex b ≡ true)
      × (is_hex d ≡ true)
      × (is_hex e ≡ true)
      × (is_hex f ≡ true)
      × (is_hex g ≡ true)
unfolding valid_hex
valid_hex-parts h a b d e f g v = ground arith

accepted :
    (s : Bytes) (c : Rgba) → hex_to_rgba s ≡ some c → (valid_hex s ≡ true) × (rgba_of s ≡ some c)
unfolding hex_to_rgba
accepted s c h = elim (Bool-cases (valid_hex s)) [
  | inl valid ↦ (valid, rw valid at h)
  | inr bad ↦ absurd (ground arith)
]

spelt : (s : Bytes) (c : Rgba) → valid_hex s ≡ true → rgba_of s ≡ some c → Spells s c
unfolding valid_hex Spells hex_value
spelt (h ∷ a ∷ b ∷ d ∷ e ∷ f ∷ g ∷ []) c valid same =
    let (sharp, ha, hb, hd, he, hf, hg) = valid_hex-parts h a b d e f g valid in
    (
      a,
      b,
      d,
      e,
      f,
      g,
      ap (λ t. t ∷ a ∷ b ∷ d ∷ e ∷ f ∷ g ∷ []) sharp,
      (hex_value a, hex_value b, hex_value-IsDigit a ha, hex_value-IsDigit b hb, ground arith),
      (hex_value d, hex_value e, hex_value-IsDigit d hd, hex_value-IsDigit e he, ground arith),
      (hex_value f, hex_value g, hex_value-IsDigit f hf, hex_value-IsDigit g hg, ground arith),
      ground arith,
    )
spelt other c valid same = cc

-- The bytes of six digits.
read_digits :
    (a b d e f g m n o p q r : ℕ)
    → IsDigit a m
    → IsDigit b n
    → IsDigit d o
    → IsDigit e p
    → IsDigit f q
    → IsDigit g r
    → hex_to_rgba (35 ∷ a ∷ b ∷ d ∷ e ∷ f ∷ g ∷ [])
      ≡ some (record { red = 16 * m + n; green = 16 * o + p; blue = 16 * q + r; alpha = 255 })
unfolding hex_to_rgba valid_hex
read_digits a b d e f g m n o p q r ha hb hd he hf hg =
    rw
      (
        digit-is_hex a m ha,
        digit-is_hex b n hb,
        digit-is_hex d o hd,
        digit-is_hex e p he,
        digit-is_hex f q hf,
        digit-is_hex g r hg,
        digit-hex_value a m ha,
        digit-hex_value b n hb,
        digit-hex_value d o hd,
        digit-hex_value e p he,
        digit-hex_value f q hf,
        digit-hex_value g r hg,
      )
      refl

read_back : (s : Bytes) (c : Rgba) → Spells s c → hex_to_rgba s ≡ some c
unfolding Spells
read_back s c
      (
        a,
        b,
        d,
        e,
        f,
        g,
        same,
        (m, n, ha, hb, red),
        (o, p, hd, he, green),
        (q, r, hf, hg, blue),
        alpha,
      ) =
    rw (same, read_digits a b d e f g m n o p q r ha hb hd he hf hg) (ground arith)

-- HexToRGBA gives a colour for just the texts that are `#` and six hexadecimal digits of either case:
-- the opaque colour whose red, green and blue are what the three pairs of digits stand for.
pub hex_to_rgba_iff : (s : Bytes) (c : Rgba) → (hex_to_rgba s ≡ some c) ↔ Spells s c
hex_to_rgba_iff s c =
    (λ h. let (valid, same) = accepted s c h in spelt s c valid same, read_back s c)
