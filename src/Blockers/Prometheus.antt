-- ===== src/Blockers/Prometheus.antt =====
-- pkg/blockers/prometheus.go: the alerts that block a reboot.
pub mod Alerts
use kured.Common.{
  ℕ, Bool, true, false, ◌&&◌, ◌||◌, not, Option, none, some, List, [], ◌∷◌, ◌++◌, map, Text, codes,
  text_eq, lookup, insert, ltb, ◌==◌, if◌then◌else◌,
}

-- A sample of a query's vector. Its value is a float that the code only compares with zero.
pub record Sample : Type 0 where
  pub metric : List (Text × Text)
  pub is_nonzero : Bool

pub data Value : Type 0 where
  vector : List Sample → Value
  other : Value

-- The filter is the test of a regular expression, and `query` what the API answers to the query
-- "ALERTS", or `none` for an error.
pub record PrometheusBlockingChecker : Type 0 where
  pub filter : Option (Text → Bool)
  pub firing_only : Bool
  pub filter_match_only : Bool
  pub has_init_error : Bool
  pub query : Option Value

-- `==` on booleans.
abbrev pub same : Bool → Bool → Bool
same true b = b
same false b = not b

abbrev pub matches_regex : Option (Text → Bool) → Text → Bool → Bool
matches_regex none alert_name filter_match_only = true
matches_regex (some match_string) alert_name filter_match_only =
    same (match_string alert_name) filter_match_only

abbrev pub is_firing : Option Text → Bool
is_firing none = false
is_firing (some state) = text_eq state (codes "firing")

-- The tests of the loop of `ActiveAlerts`, on a sample with a name.
abbrev pub is_active : PrometheusBlockingChecker → Sample → Text → Bool
is_active pb sample name =
    sample.is_nonzero
    && (matches_regex pb.filter name pb.filter_match_only
        && (not pb.firing_only || is_firing (lookup (codes "alertstate") sample.metric)))

abbrev pub add_alert :
    PrometheusBlockingChecker → Sample → Option Text → List (Text × Bool) → List (Text × Bool)
add_alert pb sample none set = set
add_alert pb sample (some name) set = if is_active pb sample name then insert name true set else set

-- The loop that fills the set, with its variable `activeAlertSet`.
unfoldable pub alert_set :
    PrometheusBlockingChecker → List Sample → List (Text × Bool) → List (Text × Bool)
alert_set pb [] set = set
alert_set pb (sample ∷ samples) set =
    alert_set pb samples (add_alert pb sample (lookup (codes "alertname") sample.metric) set)

-- `sort.Strings`, by bytes.
unfoldable pub text_leb : Text → Text → Bool
text_leb [] t = true
text_leb (a ∷ s) [] = false
text_leb (a ∷ s) (b ∷ t) = ltb a b || ((a == b) && text_leb s t)

unfoldable pub insert_sorted : Text → List Text → List Text
unfolding text_leb
insert_sorted t [] = t ∷ []
insert_sorted t (u ∷ us) = if text_leb t u then t ∷ u ∷ us else u ∷ insert_sorted t us

unfoldable pub sort_strings : List Text → List Text
unfolding insert_sorted
sort_strings [] = []
sort_strings (t ∷ ts) = insert_sorted t (sort_strings ts)

-- The keys of the set, in the order in which they were added; Go's order is any, before the sort.
abbrev pub keys : List (Text × Bool) → List Text
keys [] = []
keys ((k, b) ∷ set) = k ∷ keys set

abbrev pub alerts_of : PrometheusBlockingChecker → Option Value → Option (List Text)
alerts_of pb none = none
alerts_of pb (some other) = none
alerts_of pb (some (vector samples)) = some (sort_strings (keys (alert_set pb samples [])))

unfoldable pub active_alerts : PrometheusBlockingChecker → Option (List Text)
unfolding alert_set sort_strings
active_alerts pb = if pb.has_init_error then none else alerts_of pb pb.query

abbrev pub blocks : Option (List Text) → Bool
blocks none = true
blocks (some []) = false
blocks (some (t ∷ ts)) = true

unfoldable pub is_blocked : PrometheusBlockingChecker → Bool
unfolding active_alerts
is_blocked pb = blocks (active_alerts pb)
