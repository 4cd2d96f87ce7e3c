-- ===== src/EditComment.antt =====
-- internal/editcomment: a comment that the user edits, and the agent that is told of it.
use sshush.Prelude.{
  Bool, true, false, not, ◌||◌, ◌⊎◌, inl, inr, Option, none, some, List, [], ◌∷◌, ◌++◌, Bytes,
  codes, bytes_eq, is_empty, if◌then◌else◌, ◌==◌,
}
use sshush.Prelude.Text.{trim_space, fields}
use sshush.Prelude.Outcome.{ok, err, panic}
use sshush.External.{External, PublicKey}
use sshush.Op
use sshush.Paths.{Host, Stat, no_entry, is_directory, is_other}
use sshush.KeyFiles.{KeyReader, FileKey, Read, KeyFileError, AddKey, parse_key_from_path}
use sshush.Session
use sshush.Session.{Client, Backend}

-- `strings.ContainsAny(comment, "\r\n")`
unfoldable pub has_line_break : Bytes → Bool
has_line_break [] = false
has_line_break (c ∷ s) = c == 13 || c == 10 || has_line_break s

unfoldable pub validate : Bytes → Bool
unfolding has_line_break
validate comment = not (has_line_break comment)

pub data EditError : Type 0 where
  no_temp_file not_written invalid_editor editor_failed not_read exited_without_saving : EditError
  has_newlines : EditError

-- What the editor leaves in the file, or why there is nothing.
pub data EditorRun : Type 0 where
  cannot_create cannot_write failed_to_run cannot_read : EditorRun
  left : Bytes → EditorRun

abbrev edited_comment : Bytes → Bytes → Bytes ⊎ EditError
edited_comment current edited =
    if bytes_eq edited (trim_space current)
    then inr exited_without_saving
    else if validate edited
    then inl edited
    else inr has_newlines

-- The editor runs on the current comment and a line feed.
unfoldable pub edit_comment_with_editor :
    (List Bytes → Bytes → EditorRun) → Bytes → Bytes → Bytes ⊎ EditError
unfolding validate trim_space fields
edit_comment_with_editor run current editor = elim (run (fields editor) (current ++ codes "\n")) [
  | cannot_create ↦ inr no_temp_file
  | cannot_write ↦ inr not_written
  | failed_to_run ↦ if is_empty (fields editor) then inr invalid_editor else inr editor_failed
  | cannot_read ↦ if is_empty (fields editor) then inr invalid_editor else inr not_read
  | left content ↦
      if is_empty (fields editor)
      then inr invalid_editor
      else edited_comment current (trim_space content)
]

pub data SyncError : Type 0 where
  list_failed file_not_read : SyncError
  vault_refused : Op.OpError → SyncError
  agent_refused : SyncError
  key_not_read : KeyFileError → SyncError

pub record SyncResult : Type 0 where
  pub reload : Option (Option SyncError)
  pub vault : Option (Option Op.OpError)

-- ReloadErr and Reloaded are those of `reload`, which is `none` where it was not attempted; VaultErr and
-- VaultSynced are those of `vault`.
abbrev nothing_synced : SyncResult
nothing_synced = record { reload = none; vault = none }

abbrev exists : Stat → Bool
exists no_entry = false
exists is_directory = true
exists is_other = true

module _ {S : Type 0} (x : External) (r : KeyReader) (h : Host) (parse : Bytes → Option PublicKey)
    (c : Client S) (add : AddKey S) where
  abbrev has_fingerprint : Bytes → Option PublicKey → Bool
  has_fingerprint fp none = false
  has_fingerprint fp (some k) = bytes_eq (x.fingerprint_sha256 k) fp

  unfoldable pub is_listed : Bytes → List PublicKey → Bool
  is_listed fp [] = false
  is_listed fp (k ∷ ks) = has_fingerprint fp (parse k.blob) || is_listed fp ks

  abbrev loaded_in : Bytes → S × Option (List PublicKey) → S × Bool
  loaded_in fp (s, none) = (s, false)
  loaded_in fp (s, some ks) = (s, is_listed fp ks)

  unfoldable pub is_key_loaded_in_agent : Bytes → S → S × Bool
  unfolding is_listed
  is_key_loaded_in_agent fp s = loaded_in fp (c.list s)

  abbrev remove_parsed : Option PublicKey → S → S
  remove_parsed none s = s
  remove_parsed (some k) s = (c.remove k s).0

  -- The loop that removes the first key with the fingerprint; the error of Remove is dropped.
  unfoldable pub remove_first : Bytes → List PublicKey → S → S
  remove_first fp [] s = s
  remove_first fp (k ∷ ks) s =
      let rest = remove_first fp ks s in
      if has_fingerprint fp (parse k.blob) then remove_parsed (parse k.blob) s else rest

  abbrev remove_file_key : List PublicKey → Read FileKey → S → S
  remove_file_key ks (ok k) s = remove_first (x.fingerprint_sha256 k.public_key) ks s
  remove_file_key ks (err e) s = s
  remove_file_key ks panic s = s

  abbrev vault_result : S × Op.Op (Unit {0}) → S × Option SyncError
  vault_result (s, ok u) = (s, none)
  vault_result (s, err e) = (s, some (vault_refused e))
  vault_result (s, panic) = (s, some agent_refused)

  -- With autoload on, whatever it was.
  abbrev add_to_vault : Bytes → Option Bytes → S → S × Option SyncError
  add_to_vault path none s = (s, some file_not_read)
  add_to_vault path (some pem) s = vault_result (Session.add_private_key_file c pem path true s)

  abbrev agent_result : S × Bool → S × Option SyncError
  agent_result (s, true) = (s, none)
  agent_result (s, false) = (s, some agent_refused)

  abbrev add_to_agent : Read FileKey → S → S × Option SyncError
  add_to_agent (ok k) s = agent_result (add k.private_key k.comment s)
  add_to_agent (err e) s = (s, some (key_not_read e))
  add_to_agent panic s = (s, some file_not_read)

  abbrev add_again : Backend → Bytes → S → S × Option SyncError
  add_again b path s =
      let to_vault = add_to_vault path (h.read_file path) s in
      let to_agent = add_to_agent (parse_key_from_path x r h path) s in
      if b.is_vault then to_vault else to_agent

  abbrev reload_listed : Backend → Bytes → S × Option (List PublicKey) → S × Option SyncError
  reload_listed b path (s, none) = (s, some list_failed)
  reload_listed b path (s, some ks) =
      let removed = remove_file_key ks (parse_key_from_path x r h path) s in
      add_again b path (if exists (h.stat path) then removed else s)

  unfoldable pub reload_key_in_agent : Backend → Bytes → S → S × Option SyncError
  unfolding remove_first parse_key_from_path
  reload_key_in_agent b path s = reload_listed b path (c.list s)

  abbrev comment_error : S × Op.Op (Unit {0}) → S × Option Op.OpError
  comment_error (s, ok u) = (s, none)
  comment_error (s, err e) = (s, some e)
  comment_error (s, panic) = (s, none)

  abbrev sync_comment : Backend → Bytes → Bytes → S × Option (Option SyncError) → S × SyncResult
  sync_comment b fp comment (s, reload) =
      let (t, e) = comment_error (Session.set_comment c fp comment s) in
      if b.is_vault
      then (t, record { reload = reload; vault = some e })
      else (s, record { reload = reload; vault = none })

  abbrev attempted : S × Option SyncError → S × Option (Option SyncError)
  attempted (s, e) = (s, some e)

  abbrev sync_reload : Backend → Bytes → S × Bool → S × Option (Option SyncError)
  sync_reload b path (s, loaded) =
      let reloaded = attempted (reload_key_in_agent b path s) in
      if loaded then reloaded else (s, none)

  abbrev sync_backend : Bytes → Bytes → Bytes → S × Op.Op Backend → S × SyncResult
  sync_backend fp path comment (s, ok b) =
      sync_comment b fp comment (sync_reload b path (is_key_loaded_in_agent fp s))
  sync_backend fp path comment (s, err e) = (s, nothing_synced)
  sync_backend fp path comment (s, panic) = (s, nothing_synced)

  -- On a session that is not nil.
  unfoldable pub sync_agent : Bytes → Bytes → Bytes → S → S × SyncResult
  unfolding reload_key_in_agent is_key_loaded_in_agent
  sync_agent fp path comment s = sync_backend fp path comment (Session.backend c s)
