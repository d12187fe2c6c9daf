-- ===== src/Internal.antt =====
-- internal/validators.go: the choice of the rebooter and of the checker.
pub mod Choice
mod Examples
use kured.Common.{
  ℕ, Bool, true, false, not, Option, none, some, List, [], ◌∷◌, Text, codes, ℤ, pos, text_eq,
  if◌then◌else◌,
}
use kured.Checkers.{CommandChecker, FileRebootChecker, new_command_checker, new_file_reboot_checker}
use kured.Rebooters.{CommandRebooter, SignalRebooter, new_command_rebooter, new_signal_rebooter}

-- The implementations of the interfaces `Rebooter` and `Checker`.
pub data Rebooter : Type 0 where
  by_command : CommandRebooter → Rebooter
  by_signal : SignalRebooter → Rebooter

pub data Checker : Type 0 where
  command : CommandChecker → Checker
  file : FileRebootChecker → Checker

abbrev pub as_command_rebooter : Option CommandRebooter → Option Rebooter
as_command_rebooter none = none
as_command_rebooter (some c) = some (by_command c)

abbrev pub as_signal_rebooter : Option SignalRebooter → Option Rebooter
as_signal_rebooter none = none
as_signal_rebooter (some c) = some (by_signal c)

abbrev pub as_command_checker : Option CommandChecker → Option Checker
as_command_checker none = none
as_command_checker (some c) = some (command c)

abbrev pub as_file_checker : Option FileRebootChecker → Option Checker
as_file_checker none = none
as_file_checker (some c) = some (file c)

-- `NewRebooter`; `none` is an error.
unfoldable pub new_rebooter :
    (split : Text → Option (List Text)) → Text → Text → ℤ → Option Rebooter
unfolding new_command_rebooter new_signal_rebooter
new_rebooter split reboot_method reboot_command reboot_signal =
    if text_eq reboot_method (codes "command")
    then as_command_rebooter (new_command_rebooter split reboot_command)
    else if text_eq reboot_method (codes "signal")
    then as_signal_rebooter (new_signal_rebooter reboot_signal)
    else none

-- `NewRebootChecker`.
unfoldable pub new_reboot_checker :
    (split : Text → Option (List Text)) → Text → Text → Option Checker
unfolding new_command_checker
new_reboot_checker split sentinel_command sentinel_file =
    if not (text_eq sentinel_command [])
    then as_command_checker (new_command_checker split sentinel_command (pos 1) true)
    else as_file_checker (new_file_reboot_checker sentinel_file)
