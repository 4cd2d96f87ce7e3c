-- ===== src/ReadyPipe.antt =====
-- internal/readypipe: how a daemon tells the process that started it that it is ready, or why it is not.
pub mod Signals
use sshush.Prelude.{
  ℕ, zero, suc, Bool, true, false, not, ◌&&◌, ◌||◌, Option, none, some, List, [], ◌∷◌, ◌++◌, Bytes,
  codes, leb, ◌==◌, is_empty, if◌then◌else◌,
}
use sshush.Version.{digits_value, max_int}

-- The pipe, with the ends that are open: the child's copy of the write end is the one of Child.
pub record Pipe : Type 0 where
  pub content : Bytes
  pub parent_writes : Bool
  pub parent_reads : Bool
  pub child_writes : Bool

unfoldable pub new : Pipe
new = record { content = []; parent_writes = true; parent_reads = true; child_writes = false }

-- Attach, and the start of the child, which inherits the write end.
unfoldable pub attach : Pipe → Pipe
attach p = record p { child_writes = p.parent_writes }

unfoldable pub close_write : Pipe → Pipe
close_write p = record p { parent_writes = false }

unfoldable pub close : Pipe → Pipe
unfolding close_write
close p = record (close_write p) { parent_reads = false }

-- What Wait comes back with: nil, the child's error text, or an error of its own.
pub data WaitResult : Type 0 where
  is_ready : WaitResult
  start_failed : Bytes → WaitResult
  not_ready_in_time already_closed read_failed : WaitResult

-- Reading ends when no write end is open; until then it waits for the deadline. `reads` is whether
-- the deadline can be set and the pipe be read.
unfoldable pub wait : Bool → Pipe → WaitResult
wait reads p =
    if not p.parent_reads
    then already_closed
    else if not reads
    then read_failed
    else if p.parent_writes || p.child_writes
    then not_ready_in_time
    else if is_empty p.content
    then is_ready
    else start_failed p.content

-- Ready and Fail are of no effect on a Child whose end is closed.
unfoldable pub ready : Pipe → Pipe
ready p = if p.child_writes then record p { child_writes = false } else p

unfoldable pub fail : Bytes → Pipe → Pipe
fail text p =
    if p.child_writes then record p { content = p.content ++ text; child_writes = false } else p

-- The system closes the write end of a child that ends.
unfoldable pub die : Pipe → Pipe
die p = record p { child_writes = false }

abbrev in_range : Option ℕ → Option ℕ
in_range none = none
in_range (some n) = if leb n max_int then some n else none

-- A negative number is no descriptor; -0 is 0.
abbrev not_negative : Option ℕ → Option ℕ
not_negative none = none
not_negative (some n) = if n == 0 then some 0 else none

abbrev digits : Bytes → Option ℕ
digits [] = none
digits (c ∷ s) = in_range (digits_value 0 (c ∷ s))

-- The descriptor that FromEnv takes from SSHUSH_READY_FD.
unfoldable pub from_env : Bytes → Option ℕ
unfolding digits_value
from_env [] = none
from_env (c ∷ s) =
    if c == 43 then digits s else if c == 45 then not_negative (digits s) else digits (c ∷ s)
