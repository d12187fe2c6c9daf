-- ===== src/Main/Start/Accepted.antt =====
-- cmd/kured/main.go: when `main` starts the loop.
use kured.Common.{
  ◌≡◌, ◌≢◌, ◌↔◌, refl, sym, subst, true, false, Option, none, some, [], text_eq, text_eq_iff, arith,
  if◌then◌else◌,
}
use kured.TimeWindow.Window.{TimeWindow}
use kured.Internal.{Rebooter, Checker}
use kured.Internal.Choice.{IsValid, new_rebooter-IsValid}
use kured.Main.Settings.{Settings}
use kured.Main.Start.{
  no_node_id, Parts, Started, refused, started, Packages, with_client, with_checker, with_rebooter,
  with_window, start,
}
use kured.Main.Start.Built.{window_of, rebooter_of, checker_of, IsBuilt, IsBuiltIf, start-IsBuiltIf}

module _ (p : Packages) (s : Settings p.Regexp) where
  open p use {load_location, split, has_config, has_client}

  -- What the flags and the cluster have to give.
  abbrev pub IsAccepted : Type 0
  IsAccepted =
      (s.node_id ≢ [])
      × ((window_of p s) ≢ none)
      × IsValid split s.reboot_method s.reboot_command s.reboot_signal
      × ((checker_of p s) ≢ none)
      × (has_config ≡ true)
      × (has_client ≡ true)

  abbrev pub IsStarted : Started → Type 0
  IsStarted (refused e) = ⊥
  IsStarted (started parts) = Unit

  with_client-IsStarted :
      (w : TimeWindow) (r : Rebooter) (c : Checker)
      → has_config ≡ true
      → has_client ≡ true
      → IsStarted (with_client p s w r c)
  with_client-IsStarted w r c config client = simp (config, client) tt

  accepted-IsStarted :
      (w : TimeWindow) (r : Rebooter) (c : Checker)
      → (window_of p s) ≡ some w
      → (rebooter_of p s) ≡ some r
      → (checker_of p s) ≡ some c
      → text_eq s.node_id [] ≡ false
      → has_config ≡ true
      → has_client ≡ true
      → IsStarted (start p s)
  unfolding start
  accepted-IsStarted w r c window rebooter checker named config client =
      let from_client = with_client-IsStarted w r c config client in
      let from_checker =
        subst (λ o. IsStarted (with_checker p s w r o)) (sym checker) from_client in
      let from_rebooter =
        subst (λ o. IsStarted (with_rebooter p s w o)) (sym rebooter) from_checker in
      let from_window = subst (λ o. IsStarted (with_window p s o)) (sym window) from_rebooter in
      subst (λ b. IsStarted (if b then refused no_node_id else with_window p s (window_of p s)))
        (sym named) from_window

  some-ne-none : {A : Type 0} {o : Option A} {a : A} → o ≡ some a → o ≢ none
  some-ne-none e e' = cc

  built-IsAccepted : (parts : Parts) → IsBuilt p s parts → IsAccepted
  built-IsAccepted parts b = (
    b.named,
    some-ne-none b.window,
    (new_rebooter-IsValid split s.reboot_method s.reboot_command s.reboot_signal).0
        (some-ne-none b.rebooter),
    some-ne-none b.checker,
    b.config,
    b.client,
  )

  is_there : {A : Type 0} (o : Option A) → o ≢ none → (a : A) × (o ≡ some a)
  is_there none ne = absurd (ne refl)
  is_there (some a) ne = (a, refl)

  -- `main` starts the loop exactly if there is a node ID, the texts of the window can be read, the
  -- method and its command or signal are valid, the sentinel command can be split, and there is a
  -- client for the cluster.
  pub start-IsAccepted : IsStarted (start p s) ↔ IsAccepted
  start-IsAccepted = (λ h. told (start p s) h (start-IsBuiltIf p s), made)
    where
      told : (r : Started) → IsStarted r → IsBuiltIf p s r → IsAccepted
      told (refused e) h b = absurd h
      told (started parts) h b = built-IsAccepted parts b

      made : IsAccepted → IsStarted (start p s)
      made (named, window, valid, checker, config, client) =
          let (w, window') = is_there (window_of p s) window in
          let (r, rebooter) = is_there (rebooter_of p s) (
            (new_rebooter-IsValid split s.reboot_method s.reboot_command s.reboot_signal).1
              valid) in
          let (c, checker') = is_there (checker_of p s) checker in
          accepted-IsStarted w r c window' rebooter checker'
            (ground (arith, text_eq_iff s.node_id [])) config client
