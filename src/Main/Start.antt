-- ===== src/Main/Start.antt =====
-- cmd/kured/main.go: `main`, from the flags that have been read to the start of its two goroutines:
-- what it checks, and what it builds. The log lines are left out.
pub mod Blocking
pub mod Built
pub mod Accepted
pub mod Safe
pub mod Defaults
use kured.Common.{
  ℕ, suc, Bool, not, Option, none, some, List, [], ◌∷◌, ◌++◌, Text, text_eq, if◌then◌else◌,
}
use kured.DaemonSetLock.Value.{Lock}
use kured.DaemonSetLock.Multi.{new_lock}
use kured.TimeWindow.Window.{Location, TimeWindow, new}
use kured.Internal.{Rebooter, Checker, new_rebooter, new_reboot_checker}
use kured.Blockers.Prometheus.{Value, is_blocked}
use kured.Blockers.Pods.{PodList, KubernetesBlockingChecker, pods_block}
use kured.Main.Flags.{Flags}
use kured.Main.Settings.{Settings}
use kured.Main.Notification.{validate_notification_url}

-- Why `main` gives up: `log.Fatal`.
pub data StartError : Type 0 where
  no_node_id bad_window bad_rebooter bad_checker no_config no_client : StartError

-- The implementations of the interface `RebootBlocker`. That of alerts has the address of its
-- Prometheus, which it asks when it is called.
pub data RebootBlocker : Type 0 where
  prometheus :
      (address : Text) (filter : Option (Text → Bool)) (firing_only filter_match_only : Bool)
      → RebootBlocker
  pods : KubernetesBlockingChecker → RebootBlocker

-- What `main` hands to `rebootAsRequired`.
pub record Parts : Type 0 where
  pub notify_url : Text
  pub window : TimeWindow
  pub rebooter : Rebooter
  pub checker : Checker
  pub block_checkers : List RebootBlocker
  pub lock : Lock

pub data Started : Type 0 where
  refused : StartError → Started
  started : Parts → Started

-- What `main` uses of other packages: `url.Parse` by the path of a URL, `time.LoadLocation`,
-- `shlex.Split`, the test of a regular expression, and whether the configuration of the cluster and a
-- client for it can be had.
pub record Packages : Type 1 where
  pub Regexp : Type 0
  pub match_string : Regexp → Text → Bool
  pub parse : Text → Option Text
  pub load_location : Text → Option Location
  pub split : Text → Option (List Text)
  pub has_config : Bool
  pub has_client : Bool

module _ (p : Packages) where
  open p use {Regexp, match_string, parse, load_location, split, has_config, has_client}

  abbrev pub filter_of : Option Regexp → Option (Text → Bool)
  filter_of none = none
  filter_of (some r) = some (match_string r)

  abbrev pub prometheus_blockers : Settings Regexp → List RebootBlocker
  prometheus_blockers s =
      if not (text_eq s.prometheus_url [])
      then prometheus s.prometheus_url (filter_of s.alert_filter.regexp) s.alert_firing_only
          s.alert_filter_match_only
        ∷ []
      else []

  abbrev pub pod_blockers : Text → Option (List Text) → List RebootBlocker
  pod_blockers node_id none = []
  pod_blockers node_id (some pod_selectors) =
      pods (record { node_name = node_id; filter = pod_selectors }) ∷ []

  unfoldable pub build_block_checkers : Settings Regexp → List RebootBlocker
  build_block_checkers s = prometheus_blockers s ++ pod_blockers s.node_id s.pod_selectors

  abbrev pub build_lock : Settings Regexp → Lock
  build_lock s =
      new_lock s.node_id s.ds_namespace s.ds_name s.lock_annotation s.lock_ttl s.concurrency
        s.lock_release_delay

  -- The steps of `main`, from the last to the first.
  abbrev pub with_client : Settings Regexp → TimeWindow → Rebooter → Checker → Started
  with_client s window rebooter checker =
      if not has_config
      then refused no_config
      else if not has_client
      then refused no_client
      else started (record {
        notify_url = validate_notification_url parse s.notify_url s.slack_hook_url;
        window = window;
        rebooter = rebooter;
        checker = checker;
        block_checkers = build_block_checkers s;
        lock = build_lock s;
      })

  abbrev pub with_checker : Settings Regexp → TimeWindow → Rebooter → Option Checker → Started
  with_checker s window rebooter none = refused bad_checker
  with_checker s window rebooter (some checker) = with_client s window rebooter checker

  abbrev pub with_rebooter : Settings Regexp → TimeWindow → Option Rebooter → Started
  with_rebooter s window none = refused bad_rebooter
  with_rebooter s window (some rebooter) =
      with_checker s window rebooter
        (new_reboot_checker split s.reboot_sentinel_command s.reboot_sentinel_file)

  abbrev pub with_window : Settings Regexp → Option TimeWindow → Started
  with_window s none = refused bad_window
  with_window s (some window) =
      with_rebooter s window (new_rebooter split s.reboot_method s.reboot_command s.reboot_signal)

  -- `validateNodeLabels` only warns.
  unfoldable pub start : Settings Regexp → Started
  unfolding build_block_checkers validate_notification_url new_rebooter new_reboot_checker new
  start s =
      if text_eq s.node_id []
      then refused no_node_id
      else with_window s (new load_location s.reboot_days s.reboot_start s.reboot_end s.timezone)

-- What a blocker's `IsBlocked` asks: whether a client for the address can be made and what it answers,
-- and the lists of pods.
pub record Cluster : Type 0 where
  pub has_init_error : Text → Bool
  pub query : Text → Option Value
  pub list : Text → Text → Option PodList

unfoldable pub blocks : Cluster → RebootBlocker → Bool
unfolding is_blocked pods_block
blocks c (prometheus address filter firing_only filter_match_only) = is_blocked (record {
  filter = filter;
  firing_only = firing_only;
  filter_match_only = filter_match_only;
  has_init_error = c.has_init_error address;
  query = c.query address;
})
blocks c (pods kb) = pods_block c.list kb

-- The flags that the loops of `rebootAsRequired` read; the blockers are numbered from 0 on.
abbrev pub numbered : {A : Type 0} → ℕ → List A → List ℕ
numbered i [] = []
numbered i (b ∷ bs) = i ∷ numbered (suc i) bs

abbrev pub loop_flags : {Regexp : Type 0} → Settings Regexp → Parts → Flags
loop_flags s parts = record {
  node_id = s.node_id;
  force_reboot = s.force_reboot;
  drain_delay = s.drain_delay;
  reboot_delay = s.reboot_delay;
  notify_url = parts.notify_url;
  message_template_drain = s.message_template_drain;
  message_template_reboot = s.message_template_reboot;
  message_template_uncordon = s.message_template_uncordon;
  pre_reboot_node_labels = s.pre_reboot_node_labels;
  post_reboot_node_labels = s.post_reboot_node_labels;
  annotate_nodes = s.annotate_nodes;
  prefer_no_schedule_taint_name = s.prefer_no_schedule_taint_name;
  blockers = numbered 0 parts.block_checkers;
}
