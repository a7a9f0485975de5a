-- ===== src/Startup/Cli/Stopping.antt =====
-- src/cli.ts: `stop` and the end of the process. `exited` is the code that the process ended with.
use secure_mcp.Shared.{
  ℕ, Bool, true, false, not, ◌||◌, Option, none, some, List, [], ◌∷◌, ltb, if◌then◌else◌,
}

pub data Closing : Type 0 where
  not_asked waiting : Closing

pub record Process : Type 0 where
  pub closing : Closing
  pub protocol_failed : Bool
  pub exited : Option ℕ

-- What may happen: a signal or the end of the input, the close of the server (with what remains and
-- the health of the audit), its failure, the forced timer, and an error of the protocol.
pub data Event : Type 0 where
  stop_called close_failed forced protocol_error : Event
  close_done : ℕ → Bool → Event

-- `process.exit(remaining || protocolFailed || !runtime.audit.healthy ? 1 : 0)`
abbrev pub exit_code : ℕ → Bool → Bool → ℕ
exit_code remaining protocol_failed healthy =
    if ltb 0 remaining || (protocol_failed || not healthy) then 1 else 0

abbrev pub is_waiting : Closing → Bool
is_waiting not_asked = false
is_waiting waiting = true

-- A step of a process that has not ended.
abbrev pub alive : Process → Event → Process
alive p stop_called = record p { closing = waiting }
alive p protocol_error = record p { protocol_failed = true }
alive p forced = if is_waiting p.closing then record p { exited = some 1 } else p
alive p close_failed = if is_waiting p.closing then record p { exited = some 1 } else p
alive p (close_done remaining healthy) =
    if is_waiting p.closing
    then record p { exited = some (exit_code remaining p.protocol_failed healthy) }
    else p

unfoldable pub step : Process → Event → Process
step p e = elim p.exited [ none ↦ alive p e | some _ ↦ p ]

unfoldable pub steps : Process → List Event → Process
unfolding step
steps p [] = p
steps p (e ∷ es) = steps (step p e) es

unfoldable pub started : Process
started = record { closing = not_asked; protocol_failed = false; exited = none }
