-- ===== src/Main/Start/Blocking.antt =====
-- cmd/kured/main.go: when the blockers that `main` builds let a reboot happen.
use kured.Common.{
  ℕ, suc, ◌≡◌, ◌↔◌, ◌⊎◌, inl, inr, refl, sym, Bool, true, false, not, Option, none, some, List, [],
  ◌∷◌, ◌++◌, Text, text_eq, text_eq_iff, All, arith, if◌then◌else◌,
}
use kured.Kube.{is_blocked}
use kured.Kube.Trace.{Event, event, done, World, exec}
use kured.Kube.Program.{Program, ret}
use kured.Blockers.{reboot_blocked}
use kured.Blockers.Prometheus.{PrometheusBlockingChecker}
use kured.Blockers.Prometheus.Alerts.{FindsNothing, is_blocked-IsQuiet}
use kured.Blockers.Pods.{KubernetesBlockingChecker, field_selector, HasNoPods, pods_block-HasNoPods}
use kured.Main.Settings.{Settings}
use kured.Main.Start.{
  RebootBlocker, prometheus, Packages, filter_of, prometheus_blockers, pod_blockers,
  build_block_checkers, Cluster, blocks, numbered,
}

-- The world answers for the blockers, numbered from `i` on, as they would.
abbrev pub AnswersFor : Cluster → World → ℕ → List RebootBlocker → Type 0
AnswersFor c w i [] = Unit
AnswersFor c w i (b ∷ bs) =
    ((h : List Event) → w h (is_blocked i) ≡ blocks c b) × AnswersFor c w (suc i) bs

abbrev pub NoneBlocks : Cluster → List RebootBlocker → Type 0
NoneBlocks c bs = All (λ b. blocks c b ≡ false) bs

done_false-done_true : {P : Type 0} → done true ≡ done false → P
done_false-done_true e = absurd (ground arith)

-- After the reply of the first blocker.
after_reply :
    (c : Cluster) (w : World) (h : List Event) (b : RebootBlocker) (bs : List RebootBlocker)
    (rest : Program Bool)
    → ((exec w h rest).0 ≡ done false) ↔ NoneBlocks c bs
    → (r : Bool) → r ≡ blocks c b
    → ((exec w h (elim r [ true ↦ ret true | false ↦ rest ])).0 ≡ done false)
      ↔ NoneBlocks c (b ∷ bs)
unfolding exec
after_reply c w h b bs rest (to, from) true e =
    (λ e'. done_false-done_true e', λ n. absurd (ground arith))
after_reply c w h b bs rest (to, from) false e = (λ e'. (sym e, to e'), λ n. from n.1)

reboot_blocked-NoneBlocks :
    (c : Cluster) (w : World) (h : List Event) (i : ℕ) (bs : List RebootBlocker)
    → AnswersFor c w i bs
    → ((exec w h (reboot_blocked (numbered i bs))).0 ≡ done false) ↔ NoneBlocks c bs
unfolding exec reboot_blocked
reboot_blocked-NoneBlocks c w h i [] a = (λ e. tt, λ n. refl)
reboot_blocked-NoneBlocks c w h i (b ∷ bs) (first, later) =
    after_reply c w (event (is_blocked i) (w h (is_blocked i)) ∷ h) b bs
      (reboot_blocked (numbered (suc i) bs))
      (reboot_blocked-NoneBlocks c w (event (is_blocked i) (w h (is_blocked i)) ∷ h) (suc i) bs
        later)
      (w h (is_blocked i)) (first h)

module _ (p : Packages) (c : Cluster) where
  -- The alerts let the node reboot: there is no address to ask, or the query finds no alert that counts.
  abbrev pub AlertsPermit : Settings p.Regexp → Type 0
  AlertsPermit s =
      (s.prometheus_url ≡ [])
      ⊎ FindsNothing (record {
        filter = filter_of p s.alert_filter.regexp;
        firing_only = s.alert_firing_only;
        filter_match_only = s.alert_filter_match_only;
        has_init_error = c.has_init_error s.prometheus_url;
        query = c.query s.prometheus_url;
      })

  -- The pods do: every selector of the flag finds none on the node.
  abbrev pub PodsPermit : Text → Option (List Text) → Type 0
  PodsPermit node_id none = Unit
  PodsPermit node_id (some selectors) = All (HasNoPods c.list (field_selector node_id)) selectors

  alerts-permit : (s : Settings p.Regexp) → NoneBlocks c (prometheus_blockers p s) ↔ AlertsPermit s
  unfolding blocks
  alerts-permit s = by_address (text_eq s.prometheus_url []) refl
    where
      pb : PrometheusBlockingChecker
      pb = record {
        filter = filter_of p s.alert_filter.regexp;
        firing_only = s.alert_firing_only;
        filter_match_only = s.alert_filter_match_only;
        has_init_error = c.has_init_error s.prometheus_url;
        query = c.query s.prometheus_url;
      }

      permitted :
          text_eq s.prometheus_url [] ≡ false
          → (s.prometheus_url ≡ []) ⊎ FindsNothing pb
          → FindsNothing pb
      permitted e (inl unset) = absurd (ground (arith, text_eq_iff s.prometheus_url []))
      permitted e (inr quiet) = quiet

      by_address :
          (b : Bool)
          → text_eq s.prometheus_url [] ≡ b
          → NoneBlocks c (
              if not b
              then prometheus s.prometheus_url
                  (filter_of p s.alert_filter.regexp)
                  s.alert_firing_only
                  s.alert_filter_match_only
                ∷ []
              else [])
            ↔ AlertsPermit s
      by_address true e = (λ n. inl ((text_eq_iff s.prometheus_url []).0 e), λ a. tt)
      by_address false e = (
        λ n. inr ((is_blocked-IsQuiet pb).0 n.0),
        λ a. ((is_blocked-IsQuiet pb).1 (permitted e a), tt),
      )

  pods-permit :
      (node_id : Text) (selectors : Option (List Text))
      → NoneBlocks c (pod_blockers p node_id selectors) ↔ PodsPermit node_id selectors
  unfolding blocks
  pods-permit node_id none = (λ n. tt, λ n. tt)
  pods-permit node_id (some selectors) =
      let kb : KubernetesBlockingChecker = record { node_name = node_id; filter = selectors } in
      (λ n. (pods_block-HasNoPods c.list kb).0 n.0, λ n. ((pods_block-HasNoPods c.list kb).1 n, tt))

  NoneBlocks-append :
      (bs cs : List RebootBlocker) → NoneBlocks c (bs ++ cs) ↔ (NoneBlocks c bs × NoneBlocks c cs)
  NoneBlocks-append [] cs = (λ n. (tt, n), λ n. n.1)
  NoneBlocks-append (b ∷ bs) cs =
      let (to, from) = NoneBlocks-append bs cs in
      (λ n. ((n.0, (to n.1).0), (to n.1).1), λ n. (n.0.0, from (n.0.1, n.1)))

  -- When the world answers for the blockers that `main` builds, `RebootBlocked` blocks no reboot
  -- exactly if there is no Prometheus to ask or it shows no alert that counts, and every selector of
  -- pods finds none on the node: an error of either blocks.
  pub reboot_blocked-Permit :
      (s : Settings p.Regexp) (w : World) (h : List Event)
      → AnswersFor c w 0 (build_block_checkers p s)
      → ((exec w h (reboot_blocked (numbered 0 (build_block_checkers p s)))).0 ≡ done false)
        ↔ (AlertsPermit s × PodsPermit s.node_id s.pod_selectors)
  unfolding build_block_checkers
  reboot_blocked-Permit s w h a =
      let alerts = prometheus_blockers p s in
      let pods_ = pod_blockers p s.node_id s.pod_selectors in
      let (to, from) = reboot_blocked-NoneBlocks c w h 0 (alerts ++ pods_) a in
      let (split, join) = NoneBlocks-append alerts pods_ in
      let (to', from') = alerts-permit s in
      let (to'', from'') = pods-permit s.node_id s.pod_selectors in
      (
        λ e. (to' (split (to e)).0, to'' (split (to e)).1),
        λ permits. from (join (from' permits.0, from'' permits.1)),
      )
