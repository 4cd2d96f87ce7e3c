-- ===== src/Prelude/Utf8.antt =====
-- The code points that Go reads from a string, one after another: a byte that starts no valid
-- sequence is U+FFFD, and one byte wide (unicode/utf8).
use Prim.Native.Nat.{ℕ, zero, suc, ◌+◌, ◌*◌, ◌%◌, ◌≤◌}
use native.Mathlib.Omega.{arith}
use mathlib.Core.Path.{◌≡◌, refl, ap}
use mathlib.Core.Bool.{Bool, ◌&&◌}
use mathlib.Core.List.{List, [], ◌∷◌, ◌++◌}
use sshush.Prelude.Tests.{ltb, leb, ◌==◌, if◌then◌else◌}
use sshush.Prelude.Lists.{length, drop, take, length-drop}
use sshush.Prelude.ByteStrings.{Bytes}

abbrev pub rune_error : ℕ
rune_error = 0xfffd

between : ℕ → ℕ → ℕ → Bool
between lo hi b = leb lo b && leb b hi

is_continuation : ℕ → Bool
unfolding between
is_continuation = between 0x80 0xbf

-- The second byte of a sequence that starts with `a`.
second_fits : ℕ → ℕ → Bool
unfolding between
second_fits a b =
    if a == 0xe0
    then between 0xa0 0xbf b
    else if a == 0xed
    then between 0x80 0x9f b
    else if a == 0xf0
    then between 0x90 0xbf b
    else if a == 0xf4
    then between 0x80 0x8f b
    else between 0x80 0xbf b

-- The first code point of a text that is not empty, and its width.
decode2 : ℕ → ℕ → ℕ × ℕ
unfolding second_fits between
decode2 a b =
    if between 0xc2 0xdf a && second_fits a b then (a % 32 * 64 + b % 64, 2) else (rune_error, 1)

decode3 : ℕ → ℕ → ℕ → ℕ × ℕ
unfolding decode2 is_continuation
decode3 a b c =
    if between 0xe0 0xef a && (second_fits a b && is_continuation c)
    then (a % 16 * 4096 + b % 64 * 64 + c % 64, 3)
    else decode2 a b

decode4 : ℕ → ℕ → ℕ → ℕ → ℕ × ℕ
unfolding decode3
decode4 a b c d =
    if between 0xf0 0xf4 a && (second_fits a b && (is_continuation c && is_continuation d))
    then (a % 8 * 262144 + b % 64 * 4096 + c % 64 * 64 + d % 64, 4)
    else decode3 a b c

unfoldable pub decode_rune : Bytes → ℕ × ℕ
unfolding decode4
decode_rune [] = (rune_error, 0)
decode_rune (a ∷ []) = if ltb a 0x80 then (a, 1) else (rune_error, 1)
decode_rune (a ∷ b ∷ []) = if ltb a 0x80 then (a, 1) else decode2 a b
decode_rune (a ∷ b ∷ c ∷ []) = if ltb a 0x80 then (a, 1) else decode3 a b c
decode_rune (a ∷ b ∷ c ∷ d ∷ s) = if ltb a 0x80 then (a, 1) else decode4 a b c d

-- Every code point is a byte wide at least, so that the length is fuel enough.
runes_loop : ℕ → Bytes → List ℕ
unfolding decode_rune
runes_loop zero s = []
runes_loop (suc f) [] = []
runes_loop (suc f) (c ∷ s) =
    let (r, width) = decode_rune (c ∷ s) in r ∷ runes_loop f (drop width (c ∷ s))

unfoldable pub runes : Bytes → List ℕ
unfolding runes_loop
runes s = runes_loop (length s) s

runes_test :
    runes (0x61 ∷ 0xc3 ∷ 0xa9 ∷ 0xff ∷ 0xe2 ∷ 0x82 ∷ 0xac ∷ []) ≡ 0x61 ∷ 0xe9 ∷ 0xfffd ∷ 0x20ac ∷ []
unfolding runes
runes_test = refl

-- A rune takes a byte at least.
one_le_width : (c : ℕ) (s : Bytes) → 1 ≤ (decode_rune (c ∷ s)).1
unfolding decode_rune decode4 decode3 decode2
one_le_width c [] = ground arith
one_le_width c (b ∷ []) = ground arith
one_le_width c (b ∷ d ∷ []) = ground arith
one_le_width c (b ∷ d ∷ e ∷ s) = ground arith

-- Fuel of the text's length is enough: more of it changes nothing.
runes_loop-fuel :
    (f g : ℕ) (s : Bytes) → length s ≤ f → length s ≤ g → runes_loop f s ≡ runes_loop g s
unfolding runes_loop
runes_loop-fuel zero zero s h k = refl
runes_loop-fuel zero (suc g) [] h k = refl
runes_loop-fuel zero (suc g) (c ∷ s) h k = absurd (omega arith)
runes_loop-fuel (suc f) zero [] h k = refl
runes_loop-fuel (suc f) zero (c ∷ s) h k = absurd (omega arith)
runes_loop-fuel (suc f) (suc g) [] h k = refl
runes_loop-fuel (suc f) (suc g) (c ∷ s) h k = ap (◌∷◌ (decode_rune (c ∷ s)).0) (
    runes_loop-fuel f g (drop (decode_rune (c ∷ s)).1 (c ∷ s))
      (omega (arith, one_le_width c s, length-drop {0} (decode_rune (c ∷ s)).1 (c ∷ s)))
      (omega (arith, one_le_width c s, length-drop {0} (decode_rune (c ∷ s)).1 (c ∷ s))))

-- A byte that starts no valid sequence is written as U+FFFD, in the three bytes of its encoding.
valid_loop : ℕ → Bytes → Bytes
unfolding decode_rune
valid_loop zero s = []
valid_loop (suc f) [] = []
valid_loop (suc f) (c ∷ s) =
    let (r, width) = decode_rune (c ∷ s) in
    let rest = valid_loop f (drop width (c ∷ s)) in
    if r == rune_error && width == 1 then 0xef ∷ 0xbf ∷ 0xbd ∷ rest else take width (c ∷ s) ++ rest

-- What encoding/json writes of a string, and reads back.
unfoldable pub to_valid_utf8 : Bytes → Bytes
unfolding valid_loop
to_valid_utf8 s = valid_loop (length s) s

to_valid_utf8_test :
    to_valid_utf8 (0x61 ∷ 0xc3 ∷ 0xa9 ∷ 0xff ∷ 0xe2 ∷ 0x82 ∷ [])
    ≡ 0x61 ∷ 0xc3 ∷ 0xa9 ∷ 0xef ∷ 0xbf ∷ 0xbd ∷ 0xef ∷ 0xbf ∷ 0xbd ∷ 0xef ∷ 0xbf ∷ 0xbd ∷ []
unfolding to_valid_utf8
to_valid_utf8_test = refl

-- More fuel changes nothing here either.
valid_loop-fuel :
    (f g : ℕ) (s : Bytes) → length s ≤ f → length s ≤ g → valid_loop f s ≡ valid_loop g s
unfolding valid_loop
valid_loop-fuel zero zero s h k = refl
valid_loop-fuel zero (suc g) [] h k = refl
valid_loop-fuel zero (suc g) (c ∷ s) h k = absurd (omega arith)
valid_loop-fuel (suc f) zero [] h k = refl
valid_loop-fuel (suc f) zero (c ∷ s) h k = absurd (omega arith)
valid_loop-fuel (suc f) (suc g) [] h k = refl
valid_loop-fuel (suc f) (suc g) (c ∷ s) h k =
    ap
      (λ rest.
        if (decode_rune (c ∷ s)).0 == rune_error && (decode_rune (c ∷ s)).1 == 1
        then 0xef ∷ 0xbf ∷ 0xbd ∷ rest
        else take (decode_rune (c ∷ s)).1 (c ∷ s) ++ rest)
      (valid_loop-fuel f g (drop (decode_rune (c ∷ s)).1 (c ∷ s))
        (omega (arith, one_le_width c s, length-drop {0} (decode_rune (c ∷ s)).1 (c ∷ s)))
        (omega (arith, one_le_width c s, length-drop {0} (decode_rune (c ∷ s)).1 (c ∷ s))))
