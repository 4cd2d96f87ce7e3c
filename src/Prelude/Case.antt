-- ===== src/Prelude/Case.antt =====
-- strings.ToLower, where its result is compared with ASCII names: a letter whose lower case is not
-- ASCII is left as it is. Besides A to Z, the Kelvin sign and the capital I with a dot have a lower
-- case that is ASCII.
use Prim.Native.Nat.{ℕ, zero, suc, ◌+◌}
use mathlib.Core.Path.{◌≡◌, refl}
use mathlib.Core.Bool.{◌&&◌}
use mathlib.Core.List.{[], ◌∷◌}
use sshush.Prelude.Tests.{leb, ◌==◌, if◌then◌else◌}
use sshush.Prelude.ByteStrings.{Bytes, codes}
use sshush.Prelude.FilePath.{has_prefix}

-- The lower case of the letter that starts with a byte, and how many bytes of it follow.
lowered : ℕ → Bytes → ℕ × ℕ
lowered c s =
    if leb 65 c && leb c 90
    then (c + 32, 0)
    else if c == 0xe2 && has_prefix s (0x84 ∷ 0xaa ∷ [])
    then (107, 2)
    else if c == 0xc4 && has_prefix s (0xb0 ∷ [])
    then (105, 1)
    else (c, 0)

lower_from : ℕ → Bytes → Bytes
lower_from n [] = []
lower_from (suc n) (c ∷ s) = lower_from n s
lower_from zero (c ∷ s) = let (d, more) = lowered c s in d ∷ lower_from more s

unfoldable pub to_lower : Bytes → Bytes
unfolding lower_from lowered has_prefix
to_lower s = lower_from 0 s

to_lower_test : to_lower (codes "VsCode-1") ≡ codes "vscode-1"
unfolding to_lower
to_lower_test = refl
