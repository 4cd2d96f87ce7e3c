-- ===== src/ReadyPipe/Signals.antt =====
-- internal/readypipe: what a child does, and what Wait tells the parent.
use sshush.Prelude.{◌≡◌, refl, true, false, List, [], ◌∷◌, Bytes, is_empty, if◌then◌else◌}
use sshush.ReadyPipe.{
  Pipe, new, attach, close_write, WaitResult, is_ready, start_failed, not_ready_in_time, wait,
  ready, fail, die,
}

pub data Act : Type 0 where
  signals_ready : Act
  signals_failure : Bytes → Act
  dies : Act

unfoldable pub act : Act → Pipe → Pipe
unfolding ready fail die
act signals_ready p = ready p
act (signals_failure text) p = fail text p
act dies p = die p

unfoldable pub run : List Act → Pipe → Pipe
unfolding act
run [] p = p
run (a ∷ more) p = run more (act a p)

-- The parent's pipe when it waits: attached, the child started, and its own write end closed.
abbrev pub started : Pipe
started = close_write (attach new)

abbrev pub told : Bytes → WaitResult
told text = if is_empty text then is_ready else start_failed text

-- What the first act of a child comes to; a child that does nothing is not ready in time.
unfoldable pub outcome : List Act → WaitResult
outcome [] = not_ready_in_time
outcome (signals_ready ∷ more) = is_ready
outcome (signals_failure text ∷ more) = told text
outcome (dies ∷ more) = is_ready

-- The pipe when the child has let go of it.
abbrev let_go : Bytes → Pipe
let_go text = record {
  content = text;
  parent_writes = false;
  parent_reads = true;
  child_writes = false;
}

run-let_go : (acts : List Act) (text : Bytes) → run acts (let_go text) ≡ let_go text
unfolding run act ready fail die
run-let_go [] text = refl
run-let_go (signals_ready ∷ acts) text = run-let_go acts text
run-let_go (signals_failure reason ∷ acts) text = run-let_go acts text
run-let_go (dies ∷ acts) text = run-let_go acts text

-- Whatever a child does, the parent that started it and closed its own write end is told what the
-- child's first act comes to: that it is ready where the child signals so, fails with an empty text or
-- dies without a word, and else the text of its failure.
pub wait-run : (acts : List Act) → wait true (run acts started) ≡ outcome acts
unfolding wait run act ready fail die new attach close_write outcome
wait-run [] = refl
wait-run (signals_ready ∷ acts) = rw (run-let_go acts []) refl
wait-run (signals_failure text ∷ acts) = rw (run-let_go acts text) refl
wait-run (dies ∷ acts) = rw (run-let_go acts []) refl
