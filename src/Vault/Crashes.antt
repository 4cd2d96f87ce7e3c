-- ===== src/Vault/Crashes.antt =====
-- internal/vault/op.go: requests that end the agent's process.
use sshush.Prelude.{
  ℕ, ◌≡◌, ◌≢◌, ◌↔◌, refl, sym, subst, ◌∙◌, Bool, true, false, Bytes, ◌==◌, ==_iff, arith, inl, inr,
  if◌then◌else◌, Option-cases, Bool-cases, is_empty,
}
use sshush.Prelude.Outcome.{Outcome-cases, Outcome, panic}
use sshush.External.{External}
use sshush.Op.{encode_op_request, op_add_key}
use sshush.Op.RoundTrip.{decode-encode_op_request}
use sshush.Vault.Payload.{Parsed, split_add_key_opts}
use sshush.Vault.Payload.Panics.{parsers-ne-panic}
use sshush.Vault.State.{World, VaultAgent, Step}
use sshush.Vault.Serve.{
  Reply, crashed, reply, with_parsed, with_fingerprint, bad_request, dispatch, handle_op,
  parse_add_key_opts, added_key_from_pem,
}

-- A reply that is an answer.
abbrev Answers : Reply → Type 0
Answers r = r ≢ crashed

reply-Answers : (s : Step) → Answers (reply s)
unfolding reply
reply-Answers (a, r) h = cc

with_parsed-Answers :
    {A : Type 0} (a : VaultAgent) (p : Parsed A) (op : A → Step)
    → p ≢ panic
    → Answers (with_parsed a p op)
unfolding with_parsed bad_request
with_parsed-Answers a (Outcome.ok x) op n = reply-Answers (op x)
with_parsed-Answers a (Outcome.err e) op n = λ h. cc
with_parsed-Answers a panic op n = absurd (n refl)

if-Answers : (b : Bool) (r s : Reply) → Answers r → Answers s → Answers (if b then r else s)
if-Answers true r s h k = h
if-Answers false r s h k = k

with_fingerprint-Answers :
    (a : VaultAgent) (fp : Bytes) (op : Bytes → Step) → Answers (with_fingerprint a fp op)
unfolding with_fingerprint bad_request
with_fingerprint-Answers a fp op = if-Answers (is_empty fp) _ _ (λ h. cc) (reply-Answers (op fp))

added_key-ne-panic : (x : External) (pem : Bytes) → added_key_from_pem x pem ≢ panic
unfolding added_key_from_pem
added_key-ne-panic x pem h = elim (Option-cases (x.parse_raw_private_key pem)) [
  | inl e ↦ ground arith
  | inr (k, e) ↦ ground arith
]

parse_add_key_opts-panic :
    (x : External) (c : Bytes) → parse_add_key_opts x c ≡ panic → split_add_key_opts c ≡ panic
unfolding parse_add_key_opts
parse_add_key_opts-panic x c h = elim (Outcome-cases (split_add_key_opts c)) [
  | inl ((pem, on, path), e) ↦ elim (Outcome-cases (added_key_from_pem x pem)) [
    | inl (k, q) ↦ absurd (ground arith)
    | inr (inl (f, q)) ↦ absurd (ground arith)
    | inr (inr q) ↦ absurd (added_key-ne-panic x pem q)
  ]
  | inr (inl (f, e)) ↦ absurd (ground arith)
  | inr (inr e) ↦ e
]

module _ (x : External) (w : World) (payload : Bytes) (a : VaultAgent) where
  other_op-Answers : (op : ℕ) → (op == op_add_key) ≡ false → Answers (dispatch x w op payload a)
  unfolding dispatch
  other_op-Answers op h =
      if-Answers (op == 1) _ _ (λ e. cc)
        (if-Answers (op == 3) _ _ (reply-Answers _) (
          if-Answers (op == 2) _ _ (reply-Answers _) (
            if-Answers (op == 4) _ _ (reply-Answers _) (
              if-Answers (op == 5) _ _ (with_fingerprint-Answers a _ _) (
                if-Answers (op == 6) _ _ (with_fingerprint-Answers a _ _) (
                  if-Answers (op == 7) _ _ (with_parsed-Answers a _ _ (parsers-ne-panic payload).0)
                    (if-Answers (op == 8) _ _
                      (with_parsed-Answers a _ _ (parsers-ne-panic payload).1)
                      (rw h (λ e. cc)))))))))

  decoded : (op : ℕ) → handle_op x w (encode_op_request op payload) a ≡ dispatch x w op payload a
  unfolding handle_op
  decoded op = rw (decode-encode_op_request op payload) refl

  add_key-crashed : dispatch x w op_add_key payload a ≡ crashed → split_add_key_opts payload ≡ panic
  unfolding dispatch
  add_key-crashed h = elim (Outcome-cases (parse_add_key_opts x payload)) [
    | inl (args, e) ↦ absurd (with_parsed-Answers a _ _ (λ q. cc) h)
    | inr (inl (f, e)) ↦ absurd (with_parsed-Answers a _ _ (λ q. cc) h)
    | inr (inr e) ↦ parse_add_key_opts-panic x payload e
  ]

  add_key-crashes : split_add_key_opts payload ≡ panic → dispatch x w op_add_key payload a ≡ crashed
  unfolding dispatch parse_add_key_opts with_parsed
  add_key-crashes h = rw h refl

  -- A request ends the agent's process by a run-time panic exactly if it asks to add a key and
  -- the splitter of its body panics; every other request is answered.
  pub handle_op-crashed_iff :
      (op : ℕ)
      → (handle_op x w (encode_op_request op payload) a ≡ crashed)
        ↔ ((op ≡ op_add_key) × (split_add_key_opts payload ≡ panic))
  handle_op-crashed_iff op = (
    λ h. elim (Bool-cases (op == op_add_key)) [
      | inl t ↦
          let same = (==_iff op op_add_key).0 t in
          (
            same,
            add_key-crashed
                (subst (λ o. dispatch x w o payload a ≡ crashed) same (sym (decoded op) ∙ h)),
          )
      | inr f ↦ absurd (other_op-Answers op f (sym (decoded op) ∙ h))
    ],
    λ h.
        decoded op
        ∙ subst (λ o. dispatch x w o payload a ≡ crashed) (sym h.0) (add_key-crashes h.1),
  )
