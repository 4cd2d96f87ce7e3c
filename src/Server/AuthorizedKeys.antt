-- ===== src/Server/AuthorizedKeys.antt =====
-- internal/server/auth_file.go: the lines of a file of authorized keys.
use sshush.Prelude.{ℕ, ◌≢◌, ◌≡◌, ◌++◌, Option, some, List, ◌∷◌, Bytes}
use sshush.External.{PublicKey}
use sshush.Server.Auth.{line_text}

-- A text that is not empty and does not begin with `#`, which is 35.
unfoldable pub IsEntry : Bytes → Type 0
IsEntry text = (c : ℕ) × (rest : Bytes) × (text ≡ c ∷ rest) × (c ≢ 35)

-- A line of which, without the white space around it, something is left that is no comment and is
-- parsed to the key.
unfoldable pub HasLine : (Bytes → Option PublicKey) → List Bytes → Bytes → Type 0
HasLine parse lines blob =
    (before : List Bytes) × (line : Bytes) × (after : List Bytes) × (k : PublicKey) × (lines
      ≡ before ++ line ∷ after)
    × IsEntry (line_text line)
    × (parse (line_text line) ≡ some k)
    × (k.blob ≡ blob)
