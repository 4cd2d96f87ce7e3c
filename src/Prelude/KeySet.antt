-- ===== src/Prelude/KeySet.antt =====
-- Go's `map[string]struct{}` as the list of its keys: membership, insertion and deletion.
use mathlib.Core.Path.{◌≡◌, refl}
use mathlib.Core.Bool.{Bool, false, ◌||◌}
use mathlib.Core.List.{List, [], ◌∷◌}
use native.Mathlib.Omega.{arith}
use sshush.Prelude.Tests.{if◌then◌else◌}
use sshush.Prelude.ByteStrings.{Bytes, bytes_eq, bytes_eq_iff}

abbrev pub KeySet : Type 0
KeySet = List Bytes

-- `_, ok := set[k]`
unfoldable pub contains : Bytes → KeySet → Bool
contains k [] = false
contains k (j ∷ s) = bytes_eq j k || contains k s

-- `set[k] = struct{}{}`
unfoldable pub insert : Bytes → KeySet → KeySet
insert k s = k ∷ s

-- `delete(set, k)`
unfoldable pub delete : Bytes → KeySet → KeySet
delete k [] = []
delete k (j ∷ s) = let rest = delete k s in if bytes_eq j k then rest else j ∷ rest

pub contains-insert :
    (k j : Bytes) (s : KeySet) → contains j (insert k s) ≡ (bytes_eq k j || contains j s)
unfolding contains insert
contains-insert k j s = refl

pub contains-delete :
    (k j : Bytes) (s : KeySet)
    → contains j (delete k s) ≡ (if bytes_eq k j then false else contains j s)
unfolding contains delete
contains-delete k j [] = ground arith
contains-delete k j (i ∷ s) =
    ground (arith, contains-delete k j s, bytes_eq_iff i k, bytes_eq_iff i j, bytes_eq_iff k j)

pub contains-empty : (k : Bytes) → contains k [] ≡ false
unfolding contains
contains-empty k = refl

pub ruleset key_set_laws = (contains-insert, contains-delete, contains-empty)
