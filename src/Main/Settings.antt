-- ===== src/Main/Settings.antt =====
-- cmd/kured/main.go: the variables of the command line flags, with the flags that `main` declares for
-- them and their defaults.
use kured.Common.{◌*◌, Bool, false, Option, none, List, [], ◌∷◌, Text, codes, ℤ, pos, negsuc}
use kured.TimeWindow.Days.{every_day}
use kured.Main.Env.{Flag}
use kured.Main.Pflags.{RegexpValue}

-- A slice that may be nil is an option, as the code compares it with nil.
pub record Settings (Regexp : Type 0) : Type 0 where
  pub force_reboot : Bool
  pub drain_delay : ℤ
  pub drain_timeout : ℤ
  pub reboot_delay : ℤ
  pub reboot_method : Text
  pub period : ℤ
  pub metrics_host : Text
  pub metrics_port : ℤ
  pub drain_grace_period : ℤ
  pub drain_pod_selector : Text
  pub skip_wait_for_delete_timeout_seconds : ℤ
  pub ds_namespace : Text
  pub ds_name : Text
  pub lock_annotation : Text
  pub lock_ttl : ℤ
  pub lock_release_delay : ℤ
  pub prometheus_url : Text
  pub prefer_no_schedule_taint_name : Text
  pub alert_filter : RegexpValue Regexp
  pub alert_filter_match_only : Bool
  pub alert_firing_only : Bool
  pub reboot_sentinel_file : Text
  pub reboot_sentinel_command : Text
  pub notify_url : Text
  pub slack_hook_url : Text
  pub slack_username : Text
  pub slack_channel : Text
  pub message_template_drain : Text
  pub message_template_reboot : Text
  pub message_template_uncordon : Text
  pub pod_selectors : Option (List Text)
  pub reboot_command : Text
  pub reboot_signal : ℤ
  pub log_format : Text
  pub pre_reboot_node_labels : Option (List Text)
  pub post_reboot_node_labels : Option (List Text)
  pub node_id : Text
  pub concurrency : ℤ
  pub reboot_days : List Text
  pub reboot_start : Text
  pub reboot_end : Text
  pub timezone : Text
  pub annotate_nodes : Bool

-- `time.Minute*60`, in nanoseconds.
abbrev pub one_hour : ℤ
one_hour = pos (60000000000 * 60)

abbrev pub default_settings : {Regexp : Type 0} → Settings Regexp
default_settings = record {
  force_reboot = false;
  drain_delay = pos 0;
  drain_timeout = pos 0;
  reboot_delay = pos 0;
  reboot_method = codes "command";
  period = one_hour;
  metrics_host = [];
  metrics_port = pos 8080;
  drain_grace_period = negsuc 0;
  drain_pod_selector = [];
  skip_wait_for_delete_timeout_seconds = pos 0;
  ds_namespace = codes "kube-system";
  ds_name = codes "kured";
  lock_annotation = codes "weave.works/kured-node-lock";
  lock_ttl = pos 0;
  lock_release_delay = pos 0;
  prometheus_url = [];
  prefer_no_schedule_taint_name = [];
  alert_filter = record { regexp = none };
  alert_filter_match_only = false;
  alert_firing_only = false;
  reboot_sentinel_file = codes "/var/run/reboot-required";
  reboot_sentinel_command = [];
  notify_url = [];
  slack_hook_url = [];
  slack_username = codes "kured";
  slack_channel = [];
  message_template_drain = codes "Draining node %s";
  message_template_reboot = codes "Rebooting node %s";
  message_template_uncordon = codes "Node %s rebooted & uncordoned successfully!";
  pod_selectors = none;
  reboot_command = codes "/bin/systemctl reboot";
  reboot_signal = pos 39;
  log_format = codes "text";
  pre_reboot_node_labels = none;
  post_reboot_node_labels = none;
  node_id = [];
  concurrency = pos 1;
  reboot_days = every_day;
  reboot_start = codes "0:00";
  reboot_end = codes "23:59:59";
  timezone = codes "UTC";
  annotate_nodes = false;
}

abbrev pub typed : Text → Text → Flag
typed name type_ = record { name = name; type_ = type_ }

abbrev pub declared_flags : List Flag
declared_flags =
    typed (codes "node-id") (codes "string")
    ∷ typed (codes "force-reboot") (codes "bool")
    ∷ typed (codes "metrics-host") (codes "string")
    ∷ typed (codes "metrics-port") (codes "int")
    ∷ typed (codes "drain-grace-period") (codes "int")
    ∷ typed (codes "drain-pod-selector") (codes "string")
    ∷ typed (codes "skip-wait-for-delete-timeout") (codes "int")
    ∷ typed (codes "drain-delay") (codes "duration")
    ∷ typed (codes "drain-timeout") (codes "duration")
    ∷ typed (codes "reboot-delay") (codes "duration")
    ∷ typed (codes "reboot-method") (codes "string")
    ∷ typed (codes "period") (codes "duration")
    ∷ typed (codes "ds-namespace") (codes "string")
    ∷ typed (codes "ds-name") (codes "string")
    ∷ typed (codes "lock-annotation") (codes "string")
    ∷ typed (codes "lock-ttl") (codes "duration")
    ∷ typed (codes "lock-release-delay") (codes "duration")
    ∷ typed (codes "prometheus-url") (codes "string")
    ∷ typed (codes "alert-filter-regexp") (codes "regexp")
    ∷ typed (codes "alert-filter-match-only") (codes "bool")
    ∷ typed (codes "alert-firing-only") (codes "bool")
    ∷ typed (codes "reboot-sentinel") (codes "string")
    ∷ typed (codes "prefer-no-schedule-taint") (codes "string")
    ∷ typed (codes "reboot-sentinel-command") (codes "string")
    ∷ typed (codes "reboot-command") (codes "string")
    ∷ typed (codes "concurrency") (codes "int")
    ∷ typed (codes "reboot-signal") (codes "int")
    ∷ typed (codes "slack-hook-url") (codes "string")
    ∷ typed (codes "slack-username") (codes "string")
    ∷ typed (codes "slack-channel") (codes "string")
    ∷ typed (codes "notify-url") (codes "string")
    ∷ typed (codes "message-template-uncordon") (codes "string")
    ∷ typed (codes "message-template-drain") (codes "string")
    ∷ typed (codes "message-template-reboot") (codes "string")
    ∷ typed (codes "blocking-pod-selector") (codes "stringArray")
    ∷ typed (codes "reboot-days") (codes "stringSlice")
    ∷ typed (codes "start-time") (codes "string")
    ∷ typed (codes "end-time") (codes "string")
    ∷ typed (codes "time-zone") (codes "string")
    ∷ typed (codes "annotate-nodes") (codes "bool")
    ∷ typed (codes "log-format") (codes "string")
    ∷ typed (codes "pre-reboot-node-labels") (codes "stringSlice")
    ∷ typed (codes "post-reboot-node-labels") (codes "stringSlice")
    ∷ []
