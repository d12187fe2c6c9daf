-- ===== src/Blockers/Examples.antt =====
-- Alerts and pods that block a reboot, or do not: pkg/blockers at concrete inputs.
use kured.Common.{
  ◌≡◌, refl, true, false, Option, none, some, List, [], ◌∷◌, Text, codes, text_eq, lookup, insert,
  if◌then◌else◌,
}
use kured.Blockers.Prometheus.{Sample, vector, PrometheusBlockingChecker, is_blocked}
use kured.Blockers.Pods.{PodList, KubernetesBlockingChecker, pods_block}

abbrev alert : Text → Sample
alert name = record { metric = (codes "alertname", name) ∷ []; is_nonzero = true }

abbrev samples : List Sample
samples = alert (codes "Low") ∷ alert (codes "Disk") ∷ alert (codes "Low") ∷ []

-- No filter.
abbrev checker : PrometheusBlockingChecker
checker = record {
  filter = none;
  firing_only = false;
  filter_match_only = false;
  has_init_error = false;
  query = some (vector samples);
}

abbrev alerts : List Text
alerts = codes "Disk" ∷ codes "Low" ∷ []

blocked : is_blocked checker ≡ true
unfolding is_blocked lookup insert text_eq
blocked = refl

-- One node with a pod that matches the second selector.
abbrev pods : Text → Text → Option PodList
pods selector fields =
    if text_eq selector (codes "b")
    then some (record { items = codes "db-0" ∷ []; continues = false })
    else some (record { items = []; continues = false })

abbrev on_node : KubernetesBlockingChecker
on_node = record { node_name = codes "n"; filter = codes "a" ∷ codes "b" ∷ [] }

pods_found : pods_block pods on_node ≡ true
unfolding pods_block text_eq
pods_found = refl
