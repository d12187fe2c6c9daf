-- ===== src/Main/Flags.antt =====
-- cmd/kured/main.go: the flags that the loops read, and constants.
use kured.Common.{ℕ, Bool, Option, List, Text, codes, ℤ}

-- A flag that the code compares with nil is an option; `blockers` are the block checkers that `main`
-- builds.
pub record Flags : Type 0 where
  pub node_id : Text
  pub force_reboot : Bool
  pub drain_delay : ℤ
  pub reboot_delay : ℤ
  pub notify_url : Text
  pub message_template_drain : Text
  pub message_template_reboot : Text
  pub message_template_uncordon : Text
  pub pre_reboot_node_labels : Option (List Text)
  pub post_reboot_node_labels : Option (List Text)
  pub annotate_nodes : Bool
  pub prefer_no_schedule_taint_name : Text
  pub blockers : List ℕ

abbrev pub reboot_in_progress_annotation : Text
reboot_in_progress_annotation = codes "weave.works/kured-reboot-in-progress"

abbrev pub most_recent_reboot_needed_annotation : Text
most_recent_reboot_needed_annotation = codes "weave.works/kured-most-recent-reboot-needed"

-- `v1.TaintEffectPreferNoSchedule`.
abbrev pub taint_effect_prefer_no_schedule : Text
taint_effect_prefer_no_schedule = codes "PreferNoSchedule"
