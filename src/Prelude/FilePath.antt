-- ===== src/Prelude/FilePath.antt =====
-- strings.HasPrefix and strings.HasSuffix, and path/filepath's Clean, Join, Base and Dir where the
-- separator is `/`.
use Prim.Native.Nat.{ℕ}
use mathlib.Core.Path.{◌≡◌, refl}
use mathlib.Core.Bool.{Bool, true, false, ◌&&◌}
use mathlib.Core.List.{List, [], ◌∷◌, ◌++◌, reverse}
use native.Mathlib.Omega.{arith}
use sshush.Prelude.Tests.{◌==◌, if◌then◌else◌, ==_iff}
use sshush.Prelude.Lists.{is_empty, drop, length}
use sshush.Prelude.ByteStrings.{Bytes, codes, bytes_eq}
use sshush.Prelude.Text.{join, split_on}

abbrev pub separator : ℕ
separator = 47

unfoldable pub has_prefix : Bytes → Bytes → Bool
has_prefix s [] = true
has_prefix [] (p ∷ ps) = false
has_prefix (c ∷ s) (p ∷ ps) = (c == p) && has_prefix s ps

unfoldable pub has_suffix : Bytes → Bytes → Bool
unfolding has_prefix
has_suffix s suffix = has_prefix (reverse s) (reverse suffix)

-- `..` takes the last part away; above the root there is none, and a relative path keeps it.
unfoldable pub step_up : Bool → List Bytes → List Bytes
step_up true [] = []
step_up false [] = codes ".." ∷ []
step_up rooted (part ∷ back) = if bytes_eq part (codes "..") then codes ".." ∷ part ∷ back else back

-- `back` are the parts so far, the last one first.
unfoldable pub push_part : Bool → List Bytes → Bytes → List Bytes
unfolding step_up
push_part rooted back part =
    if is_empty part
    then back
    else if bytes_eq part (codes ".")
    then back
    else if bytes_eq part (codes "..")
    then step_up rooted back
    else part ∷ back

unfoldable pub clean_parts : Bool → List Bytes → List Bytes → List Bytes
clean_parts rooted back [] = reverse back
clean_parts rooted back (part ∷ rest) = clean_parts rooted (push_part rooted back part) rest

unfoldable pub is_abs : Bytes → Bool
is_abs [] = false
is_abs (c ∷ s) = c == separator

unfoldable pub clean : Bytes → Bytes
unfolding is_abs clean_parts split_on join push_part
clean path =
    let body = join (clean_parts (is_abs path) [] (split_on separator path)) (separator ∷ []) in
    if is_abs path then separator ∷ body else if is_empty body then codes "." else body

-- filepath.Join of two elements: an empty one is left out.
unfoldable pub join_path : Bytes → Bytes → Bytes
join_path [] [] = []
join_path [] (b ∷ q) = clean (b ∷ q)
join_path (a ∷ p) [] = clean (a ∷ p)
join_path (a ∷ p) (b ∷ q) = clean ((a ∷ p) ++ separator ∷ b ∷ q)

-- From the end of a path: without the separators it ends in, and up to the next one.
drop_separators : Bytes → Bytes
drop_separators [] = []
drop_separators (c ∷ s) = let rest = drop_separators s in if c == separator then rest else c ∷ s

to_separator : Bytes → Bytes
to_separator [] = []
to_separator (c ∷ s) = let rest = to_separator s in if c == separator then [] else c ∷ rest

from_separator : Bytes → Bytes
from_separator [] = []
from_separator (c ∷ s) = let rest = from_separator s in if c == separator then c ∷ s else rest

unfoldable pub base : Bytes → Bytes
unfolding drop_separators to_separator
base [] = codes "."
base (c ∷ s) =
    let last = reverse (to_separator (drop_separators (reverse (c ∷ s)))) in
    if is_empty last then separator ∷ [] else last

unfoldable pub dir : Bytes → Bytes
unfolding from_separator clean
dir path = clean (reverse (from_separator (reverse path)))

clean_test : clean (codes "/a/./b//../c/") ≡ codes "/a/c"
unfolding clean bytes_eq
clean_test = refl

clean_relative_test : clean (codes "a/../../b") ≡ codes "../b"
unfolding clean bytes_eq
clean_relative_test = refl

base_test : base (codes "/home/u/.ssh/id_rsa") ≡ codes "id_rsa"
unfolding base
base_test = refl

dir_test : dir (codes "/var/x/vault.json") ≡ codes "/var/x"
unfolding dir bytes_eq
dir_test = refl

-- What a prefix is.
pub has_prefix-append : (p s : Bytes) → has_prefix (p ++ s) p ≡ true
unfolding has_prefix
has_prefix-append [] s = refl
has_prefix-append (c ∷ p) s = ground (arith, has_prefix-append p s)

pub has_prefix-drop : (s p : Bytes) → has_prefix s p ≡ true → p ++ drop (length p) s ≡ s
unfolding has_prefix
has_prefix-drop s [] h = refl
has_prefix-drop [] (p ∷ ps) h = cc
has_prefix-drop (c ∷ s) (p ∷ ps) h = ground (arith, has_prefix-drop s ps, ==_iff c p)
