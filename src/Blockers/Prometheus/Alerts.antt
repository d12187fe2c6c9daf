-- ===== src/Blockers/Prometheus/Alerts.antt =====
-- Which alerts pkg/blockers/prometheus.go finds, and in which order.
use kured.Common.{
  ◌≡◌, refl, subst, ◌∙◌, ◌↔◌, inl, inr, Bool, true, false, ◌&&◌, ◌||◌, Option, none, some, List, [],
  ◌∷◌, Text, codes, text_eq, text_eq_refl, lookup, lookup-insert, is_some, arith, Bool-cases,
}
use kured.Blockers.Prometheus.{
  Sample, Value, vector, other, PrometheusBlockingChecker, is_active, add_alert, alert_set,
  text_leb, insert_sorted, sort_strings, keys, alerts_of, active_alerts, blocks, is_blocked,
}

abbrev pub among : Text → List Text → Bool
among name [] = false
among name (t ∷ ts) = text_eq t name || among name ts

among-insert_sorted :
    (name t : Text) (us : List Text)
    → among name (insert_sorted t us) ≡ text_eq t name || among name us
unfolding insert_sorted
among-insert_sorted name t [] = refl
among-insert_sorted name t (u ∷ us) = ground (arith, among-insert_sorted name t us)

among-sort_strings : (name : Text) (ts : List Text) → among name (sort_strings ts) ≡ among name ts
unfolding sort_strings
among-sort_strings name [] = refl
among-sort_strings name (t ∷ ts) =
    ground (arith, among-insert_sorted name t (sort_strings ts), among-sort_strings name ts)

among-keys :
    (name : Text) (set : List (Text × Bool)) → among name (keys set) ≡ is_some (lookup name set)
unfolding lookup
among-keys name [] = refl
among-keys name ((k, b) ∷ set) = ground (arith, among-keys name set)

-- The sample is an alert of the name that counts.
abbrev named : PrometheusBlockingChecker → Sample → Text → Option Text → Bool
named pb sample name none = false
named pb sample name (some t) = text_eq t name && is_active pb sample t

abbrev pub counts : PrometheusBlockingChecker → Text → List Sample → Bool
counts pb name [] = false
counts pb name (sample ∷ samples) =
    named pb sample name (lookup (codes "alertname") sample.metric) || counts pb name samples

lookup-add_alert :
    (pb : PrometheusBlockingChecker) (name : Text) (sample : Sample) (o : Option Text)
    (set : List (Text × Bool))
    → is_some (lookup name (add_alert pb sample o set))
      ≡ named pb sample name o || is_some (lookup name set)
lookup-add_alert pb name sample none set = refl
lookup-add_alert pb name sample (some t) set = elim (Bool-cases (is_active pb sample t)) [
  | inl e ↦ ground (arith, lookup-insert t name true set)
  | inr e ↦ ground arith
]

lookup-alert_set :
    (pb : PrometheusBlockingChecker) (name : Text) (samples : List Sample)
    (set : List (Text × Bool))
    → is_some (lookup name (alert_set pb samples set))
      ≡ counts pb name samples || is_some (lookup name set)
unfolding alert_set
lookup-alert_set pb name [] set = refl
lookup-alert_set pb name (sample ∷ samples) set = ground (
  arith,
  lookup-add_alert pb name sample (lookup (codes "alertname") sample.metric) set,
  lookup-alert_set pb name samples
      (add_alert pb sample (lookup (codes "alertname") sample.metric) set),
)

-- No sample counts, whatever the name.
abbrev pub IsQuiet : PrometheusBlockingChecker → List Sample → Type 0
IsQuiet pb samples = (name : Text) → counts pb name samples ≡ false

among-alerts :
    (pb : PrometheusBlockingChecker) (samples : List Sample) (name : Text)
    → among name (sort_strings (keys (alert_set pb samples []))) ≡ counts pb name samples
unfolding lookup
among-alerts pb samples name =
    among-sort_strings name (keys (alert_set pb samples []))
    ∙ among-keys name (alert_set pb samples [])
    ∙ lookup-alert_set pb name samples []
    ∙ end (counts pb name samples)
  where
    end : (b : Bool) → (b || is_some (lookup {V = Bool} name [])) ≡ b
    end true = refl
    end false = refl

abbrev pub IsAscending : List Text → Type 0
IsAscending [] = Unit
IsAscending (t ∷ []) = Unit
IsAscending (t ∷ u ∷ us) = (text_leb t u ≡ true) × IsAscending (u ∷ us)

text_leb_total : (s t : Text) → text_leb s t ≡ false → text_leb t s ≡ true
unfolding text_leb
text_leb_total [] t e = cc
text_leb_total (a ∷ s) [] e = refl
text_leb_total (a ∷ s) (b ∷ t) e = ground (arith, text_leb_total s t)

insert_sorted-IsAscending :
    (t : Text) (us : List Text) → IsAscending us → IsAscending (insert_sorted t us)
unfolding insert_sorted
insert_sorted-IsAscending t [] h = tt
insert_sorted-IsAscending t (u ∷ []) h = elim (Bool-cases (text_leb t u)) [
  | inl e ↦ rw e (e, tt)
  | inr e ↦ rw e (text_leb_total t u e, tt)
]
insert_sorted-IsAscending t (u ∷ v ∷ vs) (le, h) = elim (Bool-cases (text_leb t u)) [
  | inl e ↦ rw e (e, (le, h))
  | inr e ↦ elim (Bool-cases (text_leb t v)) [
    | inl e' ↦ rw (e, e') (text_leb_total t u e, (e', h))
    | inr e' ↦
        let later : insert_sorted t (v ∷ vs) ≡ v ∷ insert_sorted t vs = rw e' refl in
        let rest = insert_sorted-IsAscending t (v ∷ vs) h in
        rw (e, e') (le, subst IsAscending later rest)
  ]
]

sort_strings-IsAscending : (ts : List Text) → IsAscending (sort_strings ts)
unfolding sort_strings
sort_strings-IsAscending [] = tt
sort_strings-IsAscending (t ∷ ts) =
    insert_sorted-IsAscending t (sort_strings ts) (sort_strings-IsAscending ts)

-- The alerts that `ActiveAlerts` returns are in ascending order.
pub active_alerts-IsAscending :
    (pb : PrometheusBlockingChecker) (alerts : List Text)
    → active_alerts pb ≡ some alerts
    → IsAscending alerts
unfolding active_alerts
active_alerts-IsAscending pb alerts e = elim (Bool-cases pb.has_init_error) [
  | inl bad ↦ absurd (ground arith)
  | inr ok ↦ ascends pb.query refl (ground arith)
]
  where
    ascends : (o : Option Value) → pb.query ≡ o → alerts_of pb o ≡ some alerts → IsAscending alerts
    ascends none asked given = absurd (cc)
    ascends (some other) asked given = absurd (cc)
    ascends (some (vector samples)) asked given =
        let found : sort_strings (keys (alert_set pb samples [])) ≡ alerts = cc in
        subst IsAscending found (sort_strings-IsAscending (keys (alert_set pb samples [])))

among-head : (t : Text) (ts : List Text) → among t (t ∷ ts) ≡ true
among-head t ts = rw (text_eq_refl t) refl

abbrev pub FindsNothing : PrometheusBlockingChecker → Type 0
FindsNothing pb =
    (pb.has_init_error ≡ false)
    × ((samples : List Sample) × (pb.query ≡ some (vector samples)) × IsQuiet pb samples)

pub is_blocked-IsQuiet :
    (pb : PrometheusBlockingChecker) → (is_blocked pb ≡ false) ↔ FindsNothing pb
unfolding is_blocked active_alerts
is_blocked-IsQuiet pb = (quiet, free)
  where
    empty : (ts : List Text) → blocks (some ts) ≡ false → (name : Text) → among name ts ≡ false
    empty [] e name = refl
    empty (t ∷ ts) e name = absurd (cc)

    asked :
        (o : Option Value)
        → pb.query ≡ o
        → blocks (alerts_of pb o) ≡ false
        → (samples : List Sample) × (pb.query ≡ some (vector samples)) × IsQuiet pb samples
    asked none q e = absurd (cc)
    asked (some other) q e = absurd (cc)
    asked (some (vector samples)) q e = (
      samples,
      q,
      λ name.
          rw (← among-alerts pb samples name)
            (empty (sort_strings (keys (alert_set pb samples []))) e name),
    )

    quiet : is_blocked pb ≡ false → FindsNothing pb
    quiet e = elim (Bool-cases pb.has_init_error) [
      | inl bad ↦ absurd (ground arith)
      | inr ok ↦ (ok, asked pb.query refl (ground arith))
    ]

    nothing : (ts : List Text) → ((name : Text) → among name ts ≡ false) → blocks (some ts) ≡ false
    nothing [] h = refl
    nothing (t ∷ ts) h = let first = among-head t ts in let no = h t in absurd (cc)

    free : FindsNothing pb → is_blocked pb ≡ false
    free (ok, (samples, q, calm)) =
        rw (ok, q)
          (nothing (sort_strings (keys (alert_set pb samples [])))
            (λ name. among-alerts pb samples name ∙ calm name))
