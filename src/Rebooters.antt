-- ===== src/Rebooters.antt =====
-- pkg/reboot: how a node is rebooted.
use kured.Common.{
  Bool, false, Option, none, some, List, [], ◌∷◌, ◌++◌, Text, codes, ℤ, text_eq, is_positive,
  if◌then◌else◌,
}

pub record CommandRebooter : Type 0 where
  pub reboot_command : List Text

abbrev pub wrapped : Option (List Text) → Option CommandRebooter
wrapped none = none
wrapped (some parsed) = some (record {
  reboot_command =
      (codes "/usr/bin/nsenter" ∷ codes "-m/proc/1/ns/mnt" ∷ codes "--" ∷ []) ++ parsed;
})

-- `NewCommandRebooter`, with `shlex.Split` as an argument; `none` is an error.
unfoldable pub new_command_rebooter :
    (split : Text → Option (List Text)) → Text → Option CommandRebooter
new_command_rebooter split reboot_command =
    if text_eq reboot_command [] then none else wrapped (split reboot_command)

pub record SignalRebooter : Type 0 where
  pub signal : ℤ

-- `NewSignalRebooter`: `sig < 1` is an error.
unfoldable pub new_signal_rebooter : ℤ → Option SignalRebooter
new_signal_rebooter sig = if is_positive sig then some (record { signal = sig }) else none

-- What `Reboot` does: it returns, with an error or not, or it indexes an empty command.
pub data Outcome : Type 0 where
  returned : (ok : Bool) → Outcome
  panics : Outcome

-- `Reboot` of a command; `run` tells if a command and its arguments run without an error.
unfoldable pub reboot_by_command : (run : Text → List Text → Bool) → CommandRebooter → Outcome
reboot_by_command run c = by_command c.reboot_command
  where
    by_command : List Text → Outcome
    by_command [] = panics
    by_command (command ∷ args) = returned (run command args)

-- `Reboot` by a signal to the process 1; `find` tells if the process is found, `send` if the signal is
-- sent.
unfoldable pub reboot_by_signal : (find : Bool) → (send : ℤ → Bool) → SignalRebooter → Outcome
reboot_by_signal find send c = if find then returned (send c.signal) else returned false
