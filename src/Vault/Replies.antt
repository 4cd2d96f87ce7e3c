-- ===== src/Vault/Replies.antt =====
-- Rules for what the replies of internal/vault/op.go leave behind, branch by branch of the dispatch.
use mathlib.Core.Path.{subst}
use mathlib.Core.Option.{some-injective}
use sshush.Prelude.{ℕ, ◌≡◌, refl, Bool, true, false, some, Bytes, if◌then◌else◌}
use sshush.Prelude.Outcome.{Outcome, panic}
use sshush.External.{External}
use sshush.Op.{OpError, decode_op_request}
use sshush.Vault.Payload.{Parsed}
use sshush.Vault.State.{World, VaultAgent, Step}
use sshush.Vault.Serve.{
  Reply, answered, crashed, reply, handle_op, dispatch, dispatch_decoded, with_parsed,
  with_fingerprint, bad_request,
}
use sshush.Vault.Calls.{state_after}

-- The state that a reply leaves behind, if the process goes on.
pub data Keeps (P : VaultAgent → Type 0) : Reply → Type 0 where
  keeps : {a : VaultAgent} {body : Bytes} → P a → Keeps P (answered a body)
  gone : Keeps P crashed

module _ {P : VaultAgent → Type 0} where
  pub if-Keeps : (b : Bool) (r s : Reply) → Keeps P r → Keeps P s → Keeps P (if b then r else s)
  if-Keeps true r s h k = h
  if-Keeps false r s h k = k

  pub reply-Keeps : (s : Step) → P s.0 → Keeps P (reply s)
  unfolding reply
  reply-Keeps (a, r) v = keeps v

  pub bad_request-Keeps : (a : VaultAgent) → P a → Keeps P (bad_request a)
  unfolding bad_request
  bad_request-Keeps a v = keeps v

  pub with_parsed-Keeps :
      {A : Type 0} (a : VaultAgent) (p : Parsed A) (op : A → Step)
      → P a
      → ((args : A) → P (op args).0)
      → Keeps P (with_parsed a p op)
  unfolding with_parsed
  with_parsed-Keeps a (Outcome.ok args) op v k = reply-Keeps (op args) (k args)
  with_parsed-Keeps a (Outcome.err e) op v k = bad_request-Keeps a v
  with_parsed-Keeps a panic op v k = gone

  pub with_fingerprint-Keeps :
      (a : VaultAgent) (fp : Bytes) (op : Bytes → Step)
      → P a
      → P (op fp).0
      → Keeps P (with_fingerprint a fp op)
  unfolding with_fingerprint
  with_fingerprint-Keeps a fp op v h =
      if-Keeps _ _ _ (bad_request-Keeps a v) (reply-Keeps (op fp) h)

  pub answered-Keeps : (a : VaultAgent) (body : Bytes) → P a → Keeps P (answered a body)
  answered-Keeps a body v = keeps v

pub ruleset keeps_rules = (
  if-Keeps, answered-Keeps, reply-Keeps, bad_request-Keeps, with_parsed-Keeps,
  with_fingerprint-Keeps,
)

module _ {P : VaultAgent → Type 0} where
  decoded-Keeps :
      (x : External) (w : World) (a : VaultAgent) (d : Outcome OpError (ℕ × Bytes))
      → P a
      → ((op : ℕ) (payload : Bytes)
          → d ≡ Outcome.ok (op, payload)
          → Keeps P (dispatch x w op payload a))
      → Keeps P (dispatch_decoded x w a d)
  decoded-Keeps x w a (Outcome.ok (op, payload)) h k = k op payload refl
  decoded-Keeps x w a (Outcome.err e) h k = bad_request-Keeps a h
  decoded-Keeps x w a panic h k = gone

  pub handle_op-Keeps :
      (x : External) (w : World) (contents : Bytes) (a : VaultAgent)
      → P a
      → ((op : ℕ) (payload : Bytes)
          → decode_op_request contents ≡ Outcome.ok (op, payload)
          → Keeps P (dispatch x w op payload a))
      → Keeps P (handle_op x w contents a)
  unfolding handle_op
  handle_op-Keeps x w contents a h k = decoded-Keeps x w a (decode_op_request contents) h k

module _ (P : VaultAgent → Type 0) where
  pub from_some : {a b : VaultAgent} → some a ≡ some b → P a → P b
  from_some e v = subst P (some-injective _ _ e) v

  pub from_reply : (r : Reply) {b : VaultAgent} → state_after r ≡ some b → Keeps P r → P b
  from_reply (answered a body) e (keeps v) = from_some e v
  from_reply crashed e v = cc
