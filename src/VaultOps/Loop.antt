-- ===== src/VaultOps/Loop.antt =====
-- The loops of internal/vaultops/keys.go and session.go: one step for each path or selector, up to
-- the first failure.
use sshush.Prelude.{List, [], ◌∷◌}
use sshush.Prelude.Outcome.{ok, err, panic}
use sshush.VaultOps.Conn.{Result}

abbrev pub Report : Type 0 → Type 0
Report R = R × Result (Unit {0})

abbrev cons_report : {B S : Type 0} → B → S × Report (List B) → S × Report (List B)
cons_report b (s, (bs, e)) = (s, (b ∷ bs, e))

abbrev go_on : {B S : Type 0} → (S → S × Report (List B)) → S × Result B → S × Report (List B)
go_on rest (s, ok b) = cons_report b (rest s)
go_on rest (s, err e) = (s, ([], err e))
go_on rest (s, panic) = (s, ([], panic))

module _ {A B S : Type 0} where
  -- What was done before the first failure stays done.
  unfoldable pub until_failure : (A → S → S × Result B) → List A → S → S × Report (List B)
  until_failure step [] s = (s, ([], ok tt))
  until_failure step (a ∷ more) s = go_on (until_failure step more) (step a s)
