-- ===== src/Prelude/Text.antt =====
-- strings.TrimSpace, strings.Fields and strings.Join over UTF-8. A space is a code point with
-- Unicode's White_Space property; since no continuation byte starts one, the text can be scanned
-- byte by byte.
use Prim.Native.Nat.{ℕ, zero, suc, ◌≤◌}
use mathlib.Core.Path.{◌≡◌, refl}
use mathlib.Core.Bool.{Bool, ◌&&◌, ◌||◌}
use mathlib.Core.List.{List, [], ◌∷◌, ◌++◌, reverse}
use sshush.Prelude.Tests.{leb, ◌==◌, if◌then◌else◌}
use sshush.Prelude.Lists.{length, drop, length-drop}
use native.Mathlib.Omega.{arith}
use native.Mathlib.Decide.{ℕ_discrete}
use sshush.Prelude.ByteStrings.{Bytes, codes}

-- Tab to carriage return, and the space.
is_ascii_space : ℕ → Bool
is_ascii_space c = (leb 9 c && leb c 13) || c == 32

-- U+0085 and U+00A0.
is_space2 : ℕ → ℕ → Bool
is_space2 a b = a == 0xc2 && (b == 0x85 || b == 0xa0)

-- U+1680, U+2000 to U+200A, U+2028, U+2029, U+202F, U+205F and U+3000.
is_space3 : ℕ → ℕ → ℕ → Bool
is_space3 a b c =
    (a == 0xe1 && b == 0x9a && c == 0x80)
    || (a == 0xe2
        && b == 0x80
        && ((leb 0x80 c && leb c 0x8a) || c == 0xa8 || c == 0xa9 || c == 0xaf))
    || (a == 0xe2 && b == 0x81 && c == 0x9f)
    || (a == 0xe3 && b == 0x80 && c == 0x80)

-- The number of bytes of the space that a text starts with, or 0.
unfoldable pub space_width : Bytes → ℕ
unfolding is_ascii_space is_space2 is_space3
space_width [] = 0
space_width (a ∷ []) = if is_ascii_space a then 1 else 0
space_width (a ∷ b ∷ []) = if is_ascii_space a then 1 else if is_space2 a b then 2 else 0
space_width (a ∷ b ∷ c ∷ s) =
    if is_ascii_space a then 1 else if is_space2 a b then 2 else if is_space3 a b c then 3 else 0

-- The same of a text that is given from its end.
unfoldable pub space_width_back : Bytes → ℕ
unfolding is_ascii_space is_space2 is_space3
space_width_back [] = 0
space_width_back (a ∷ []) = if is_ascii_space a then 1 else 0
space_width_back (b ∷ a ∷ []) = if is_ascii_space b then 1 else if is_space2 a b then 2 else 0
space_width_back (c ∷ b ∷ a ∷ s) =
    if is_ascii_space c then 1 else if is_space2 b c then 2 else if is_space3 a b c then 3 else 0

-- Dropping spaces from the front, with `width` as the test; each round drops a byte at least.
unfoldable pub strip : ℕ → (Bytes → ℕ) → Bytes → Bytes
strip zero width s = s
strip (suc f) width s =
    let rest = strip f width (drop (width s) s) in if width s == 0 then s else rest

unfoldable pub trim_space : Bytes → Bytes
unfolding strip space_width space_width_back
trim_space s =
    let left = strip (length s) space_width s in
    reverse (strip (length left) space_width_back (reverse left))

-- `word` is what has been read of the current field.
add_field : Bytes → List Bytes → List Bytes
add_field [] fs = fs
add_field (c ∷ word) fs = (c ∷ word) ∷ fs

fields_loop : ℕ → Bytes → Bytes → List Bytes
fields_loop zero word s = []
fields_loop (suc f) word [] = add_field word []
fields_loop (suc f) word (c ∷ s) =
    let in_field = fields_loop f (word ++ c ∷ []) s in
    let after = add_field word (fields_loop f [] (drop (space_width (c ∷ s)) (c ∷ s))) in
    if space_width (c ∷ s) == 0 then in_field else after

unfoldable pub fields : Bytes → List Bytes
unfolding fields_loop add_field space_width
fields s = fields_loop (suc (length s)) [] s

unfoldable pub join : List Bytes → Bytes → Bytes
join [] sep = []
join (w ∷ []) sep = w
join (w ∷ v ∷ ws) sep = w ++ sep ++ join (v ∷ ws) sep

-- strings.Split at a byte: the parts between, of which there is one at least.
add_to_first : ℕ → List Bytes → List Bytes
add_to_first c [] = (c ∷ []) ∷ []
add_to_first c (word ∷ words) = (c ∷ word) ∷ words

unfoldable pub split_on : ℕ → Bytes → List Bytes
unfolding add_to_first
split_on sep [] = [] ∷ []
split_on sep (c ∷ s) =
    let rest = split_on sep s in if c == sep then [] ∷ rest else add_to_first c rest

-- `strings.SplitN(s, sep, 2)[0]`
unfoldable pub before : ℕ → Bytes → Bytes
before sep [] = []
before sep (c ∷ s) = let rest = before sep s in if c == sep then [] else c ∷ rest

trim_space_test : trim_space (codes " \t a b\n") ≡ codes "a b"
unfolding trim_space
trim_space_test = refl

fields_test : join (fields (codes " a  bc\td ")) (codes " ") ≡ codes "a bc d"
unfolding fields join
fields_test = refl

-- Fuel of the text's length is enough: what is left starts with no space.
width-strip :
    (f : ℕ) (width : Bytes → ℕ) (s : Bytes)
    → width [] ≡ 0
    → length s ≤ f
    → width (strip f width s) ≡ 0
unfolding strip
width-strip zero width [] h le = h
width-strip zero width (c ∷ s) h le = absurd (omega arith)
width-strip (suc f) width [] h le = rw h h
width-strip (suc f) width (c ∷ s) h le = elim (ℕ_discrete (width (c ∷ s)) 0) [
  | yes e ↦ ground arith
  | no n ↦ ground (
    arith,
    length-drop {0} (width (c ∷ s)) (c ∷ s),
    width-strip f width (drop (width (c ∷ s)) (c ∷ s)) h
        (omega (arith, length-drop {0} (width (c ∷ s)) (c ∷ s))),
  )
]
