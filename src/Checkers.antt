-- ===== src/Checkers.antt =====
-- pkg/checkers/checker.go: whether a reboot is required.
pub mod Decimal
use kured.Common.{
  ℕ, zero, suc, ◌+◌, ◌/◌, ◌%◌, Bool, true, false, not, Option, none, some, List, [], ◌∷◌, ◌++◌,
  Text, codes, ℤ, pos, negsuc, ltb, if◌then◌else◌,
}

-- `%d` of a number, with fuel above the number.
unfoldable pub decimal_from : ℕ → ℕ → Text → Text
decimal_from zero n rest = rest
decimal_from (suc fuel) n rest =
    let more = decimal_from fuel (n / 10) ((48 + n % 10) ∷ rest) in
    if ltb n 10 then (48 + n) ∷ rest else more

unfoldable pub decimal : ℤ → Text
unfolding decimal_from
decimal (pos n) = decimal_from (suc n) n []
decimal (negsuc n) = b'-' ∷ decimal_from (suc (suc n)) (suc n) []

pub record CommandChecker : Type 0 where
  pub check_command : List Text
  pub namespace_pid : ℤ
  pub privileged : Bool

-- The wrapper of a privileged command.
abbrev pub nsenter : ℤ → List Text
nsenter pid =
    codes "/usr/bin/nsenter"
    ∷ (codes "-m/proc/" ++ decimal pid ++ codes "/ns/mnt")
    ∷ codes "--"
    ∷ []

abbrev pub with_command : ℤ → Bool → Option (List Text) → Option CommandChecker
with_command pid privileged none = none
with_command pid privileged (some parsed) = some (record {
  check_command = (if privileged then nsenter pid else []) ++ parsed;
  namespace_pid = pid;
  privileged = privileged;
})

-- `NewCommandChecker`, with `shlex.Split` as an argument; `none` is an error.
unfoldable pub new_command_checker :
    (split : Text → Option (List Text)) → Text → ℤ → Bool → Option CommandChecker
unfolding decimal
new_command_checker split sentinel_command pid privileged =
    with_command pid privileged (split sentinel_command)

-- How a command ends: well, with an exit code, or not started.
pub data Run : Type 0 where
  succeeded : Run
  exit_error : ℤ → Run
  not_run : Run

-- What `RebootRequired` does: it returns, it ends the process, or it indexes an empty command.
pub data Answer : Type 0 where
  answered : Bool → Answer
  fatal panics : Answer

abbrev pub by_run : Run → Answer
by_run succeeded = answered true
by_run (exit_error code) = answered false
by_run not_run = fatal

-- `RebootRequired` of a command; `run` is the outcome of a command and its arguments.
unfoldable pub command_required : (run : Text → List Text → Run) → CommandChecker → Answer
command_required run rc = by_command rc.check_command
  where
    by_command : List Text → Answer
    by_command [] = panics
    by_command (command ∷ args) = by_run (run command args)

pub record FileRebootChecker : Type 0 where
  pub file_path : Text

-- `RebootRequired` of a file; `stat` tells if `os.Stat` returns no error.
abbrev pub file_required : (stat : Text → Bool) → FileRebootChecker → Bool
file_required stat rc = stat rc.file_path

-- `NewFileRebootChecker`, which never fails.
abbrev pub new_file_reboot_checker : Text → Option FileRebootChecker
new_file_reboot_checker file_path = some (record { file_path = file_path })
