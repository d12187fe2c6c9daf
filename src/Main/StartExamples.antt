-- ===== src/Main/StartExamples.antt =====
-- The start of cmd/kured/main.go at concrete flags.
use kured.Common.{
  ◌≡◌, ◌≢◌, ◌↔◌, refl, Bool, true, false, none, some, List, [], ◌∷◌, Text, codes, text_eq, ℤ, pos,
  arith, lookup, ◌==◌,
}
use kured.Checkers
use kured.Checkers.{Run, exit_error}
use kured.Rebooters
use kured.Internal.Choice.{reboot, reboot_required}
use kured.Blockers.{reboot_blocked}
use kured.Blockers.Prometheus.{vector}
use kured.TimeWindow.Examples.{load_utc}
use kured.TimeWindow.Window.{TimeWindow, contains_time, new}
use kured.Kube.{is_blocked}
use kured.Kube.Trace.{World, done, exec}
use kured.Main.Settings.{Settings, default_settings}
use kured.Main.Start.{
  Parts, Packages, started, start, build_block_checkers, Cluster, blocks, numbered,
}
use kured.Main.Start.Blocking.{AnswersFor, AlertsPermit, PodsPermit, reboot_blocked-Permit}
use kured.Main.Start.Accepted.{IsStarted, IsAccepted, start-IsAccepted}
use kured.Main.Start.Safe.{IsLockFor, start-IsSafe}
use kured.Main.Start.Defaults.{default_settings-contains}
use kured.Main.Examples.{all_well}

abbrev packages : Packages
packages = record {
  Regexp = Text;
  match_string = text_eq;
  parse = λ url. none;
  load_location = load_utc;
  split = λ t. some (t ∷ []);
  has_config = true;
  has_client = true;
}

abbrev settings : Settings Text
settings = record default_settings {
  node_id = codes "a";
  concurrency = pos 2;
  prometheus_url = codes "http://p";
  pod_selectors = some (codes "app=db" ∷ []);
}

record Begun : Type 0 where
  parts : Parts
  begun : start packages settings ≡ started parts

begun_parts : Begun
unfolding start text_eq lookup
begun_parts = record { parts = _; begun = refl }

start-IsAccepted_example :
    IsStarted packages settings (start packages settings) ↔ IsAccepted packages settings
start-IsAccepted_example = start-IsAccepted packages settings

abbrev runs : Text → List Text → Bool
runs command args = true

abbrev sends : ℤ → Bool
sends signal = false

abbrev exits : Text → List Text → Run
exits command args = exit_error (pos 2)

abbrev absent : Text → Bool
absent path = false

start-IsSafe_example :
    (reboot runs true sends begun_parts.parts.rebooter ≢ Rebooters.panics)
    × (reboot_required exits absent begun_parts.parts.checker ≢ Checkers.panics)
    × IsLockFor packages settings begun_parts.parts.lock
start-IsSafe_example =
    start-IsSafe packages settings runs true sends exits absent begun_parts.parts begun_parts.begun

-- No alert is active, and a pod of the database is on the node.
abbrev cluster : Cluster
cluster = record {
  has_init_error = λ address. false;
  query = λ address. some (vector []);
  list = λ selector fields. some (record { items = codes "db-0" ∷ []; continues = false });
}

abbrev with_database : World
with_database h (is_blocked k) = k == 1
with_database h c = all_well h c

database_answers : AnswersFor cluster with_database 0 (build_block_checkers packages settings)
unfolding build_block_checkers blocks text_eq
database_answers = (λ h. refl, (λ h. refl, tt))

reboot_blocked-Permit_example :
    ((exec with_database []
        (reboot_blocked (numbered 0 (build_block_checkers packages settings)))).0
      ≡ done false)
    ↔ (AlertsPermit packages cluster settings
        × PodsPermit packages cluster settings.node_id settings.pod_selectors)
reboot_blocked-Permit_example =
    reboot_blocked-Permit packages cluster settings with_database [] database_answers

record AnyTime : Type 0 where
  window : TimeWindow
  made :
      let s : Settings Text = default_settings in
      new load_utc s.reboot_days s.reboot_start s.reboot_end s.timezone ≡ some window

any_time : AnyTime
unfolding new text_eq lookup
any_time = record { window = _; made = refl }

default_settings-contains_example : contains_time any_time.window 5 ≡ true
unfolding any_time
default_settings-contains_example =
    default_settings-contains Text load_utc any_time.window 5 5 any_time.made (omega arith)
      (omega arith, λ h m s n. omega arith)
