-- ===== src/Main/Start/Built.antt =====
-- cmd/kured/main.go: what `main` hands to the loop.
use kured.Common.{
  ◌≡◌, ◌≢◌, refl, subst, Bool, true, false, not, Option, none, some, [], text_eq, text_eq_iff,
  arith, if◌then◌else◌,
}
use kured.TimeWindow.Window.{TimeWindow, new}
use kured.Internal.{Rebooter, Checker, new_rebooter, new_reboot_checker}
use kured.Main.Notification.{validate_notification_url}
use kured.Main.Settings.{Settings}
use kured.Main.Start.{
  no_node_id, no_config, no_client, Parts, Started, refused, started, Packages,
  build_block_checkers, build_lock, with_client, with_checker, with_rebooter, with_window, start,
}

module _ (p : Packages) (s : Settings p.Regexp) where
  open p use {load_location, split, has_config, has_client}

  -- What the flags give, before it is known to be there.
  abbrev pub window_of : Option TimeWindow
  window_of = new load_location s.reboot_days s.reboot_start s.reboot_end s.timezone

  abbrev pub rebooter_of : Option Rebooter
  rebooter_of = new_rebooter split s.reboot_method s.reboot_command s.reboot_signal

  abbrev pub checker_of : Option Checker
  checker_of = new_reboot_checker split s.reboot_sentinel_command s.reboot_sentinel_file

  -- The parts are those that the flags give.
  pub record IsBuilt (parts : Parts) : Type 0 where
    pub named : s.node_id ≢ []
    pub window : window_of ≡ some parts.window
    pub rebooter : rebooter_of ≡ some parts.rebooter
    pub checker : checker_of ≡ some parts.checker
    pub config : has_config ≡ true
    pub client : has_client ≡ true
    pub notify_url :
        parts.notify_url ≡ validate_notification_url p.parse s.notify_url s.slack_hook_url
    pub block_checkers : parts.block_checkers ≡ build_block_checkers p s
    pub lock : parts.lock ≡ build_lock p s

  abbrev pub IsBuiltIf : Started → Type 0
  IsBuiltIf (refused e) = Unit
  IsBuiltIf (started parts) = IsBuilt parts

  with_client-IsBuilt :
      (w : TimeWindow) (r : Rebooter) (c : Checker)
      → s.node_id ≢ []
      → window_of ≡ some w
      → rebooter_of ≡ some r
      → checker_of ≡ some c
      → IsBuiltIf (with_client p s w r c)
  with_client-IsBuilt w r c named window rebooter checker = by has_config has_client refl refl
    where
      by :
          (a b : Bool)
          → has_config ≡ a
          → has_client ≡ b
          → IsBuiltIf (
              if not a
              then refused no_config
              else if not b
              then refused no_client
              else started (record {
                notify_url = validate_notification_url p.parse s.notify_url s.slack_hook_url;
                window = w;
                rebooter = r;
                checker = c;
                block_checkers = build_block_checkers p s;
                lock = build_lock p s;
              }))
      by false b config client = tt
      by true false config client = tt
      by true true config client = record {
        named = named;
        window = window;
        rebooter = rebooter;
        checker = checker;
        config = config;
        client = client;
        notify_url = refl;
        block_checkers = refl;
        lock = refl;
      }

  pub start-IsBuiltIf : IsBuiltIf (start p s)
  unfolding start
  start-IsBuiltIf = by_name (text_eq s.node_id []) refl
    where
      by_checker :
          s.node_id ≢ []
          → (w : TimeWindow) (r : Rebooter) → window_of ≡ some w
          → rebooter_of ≡ some r
          → (o : Option Checker) → checker_of ≡ o
          → IsBuiltIf (with_checker p s w r o)
      by_checker named w r window rebooter none e = tt
      by_checker named w r window rebooter (some c) e =
          with_client-IsBuilt w r c named window rebooter e

      by_rebooter :
          s.node_id ≢ []
          → (w : TimeWindow) → window_of ≡ some w
          → (o : Option Rebooter) → rebooter_of ≡ o
          → IsBuiltIf (with_rebooter p s w o)
      by_rebooter named w window none e = tt
      by_rebooter named w window (some r) e = by_checker named w r window e checker_of refl

      by_window :
          s.node_id ≢ [] → (o : Option TimeWindow) → window_of ≡ o → IsBuiltIf (with_window p s o)
      by_window named none e = tt
      by_window named (some w) e = by_rebooter named w e rebooter_of refl

      by_name :
          (b : Bool)
          → text_eq s.node_id [] ≡ b
          → IsBuiltIf (if b then refused no_node_id else with_window p s window_of)
      by_name true e = tt
      by_name false e = by_window (λ empty. ground (arith, text_eq_iff s.node_id [])) window_of refl

  -- What `main` hands to the loop is what the flags give, all of it.
  pub start-IsBuilt : (parts : Parts) → start p s ≡ started parts → IsBuilt parts
  start-IsBuilt parts e = subst IsBuiltIf e start-IsBuiltIf
