-- ===== src/Main/EnvExamples.antt =====
-- The environment of cmd/kured/main.go at concrete variables.
use kured.Common.{
  ◌≡◌, refl, Bool, false, Option, none, some, List, [], ◌∷◌, Text, codes, text_eq, lookup, insert,
  lookup-insert, All, is_some, if◌then◌else◌,
}
use kured.TimeWindow.Days.{atoi}
use kured.Main.Env.{Flag, FlagSet, load_from_env, set_from_env}
use kured.Main.Env.Outcomes.{Outcome, load_from_env-Outcome}
use kured.Main.Env.Validity.{all_ok, load_from_env-is_some}
use kured.Main.Settings.{typed}

abbrev text_or_empty : Option Text → Text
text_or_empty none = []
text_or_empty (some t) = t

abbrev value_of : List (Text × Text) → Text → Text
value_of s name = text_or_empty (lookup name s)

value_of-other :
    (name other text : Text) (s s' : List (Text × Text))
    → some (insert name text s) ≡ some s'
    → text_eq name other ≡ false
    → value_of s' other ≡ value_of s other
value_of-other name other text s s' e ne =
    let same : insert name text s ≡ s' = cc in
    rw (← same) (rw (lookup-insert name other text s, ne) refl)

-- Flags whose values are texts, and that take any text.
abbrev flag_set : FlagSet
flag_set = record {
  State = List (Text × Text);
  set = λ name text s. some (insert name text s);
  value = value_of;
  set_other = value_of-other;
}

abbrev two_flags : List Flag
two_flags =
    typed (codes "concurrency") (codes "int") ∷ typed (codes "ds-name") (codes "string") ∷ []

abbrev environment : Text → Option Text
environment name = if text_eq name (codes "KURED_CONCURRENCY") then some (codes "+3") else none

abbrev no_durations : Text → Bool
no_durations t = false

record Loaded : Type 0 where
  last : List (Text × Text)
  loaded : load_from_env flag_set environment no_durations two_flags [] ≡ some last

loaded_flags : Loaded
unfolding load_from_env text_eq insert atoi
loaded_flags = record { last = _; loaded = refl }

distinct : text_eq (codes "ds-name") (codes "concurrency") ≡ false
unfolding text_eq
distinct = refl

distinct' : text_eq (codes "concurrency") (codes "ds-name") ≡ false
unfolding text_eq
distinct' = refl

load_from_env-Outcome_example :
    All (λ f. Outcome flag_set environment no_durations f [] loaded_flags.last) two_flags
load_from_env-Outcome_example =
    load_from_env-Outcome flag_set environment no_durations two_flags [] loaded_flags.last
      ((distinct, tt), (distinct', tt), (tt, tt, tt)) loaded_flags.loaded

load_from_env-is_some_example :
    is_some (load_from_env flag_set environment no_durations two_flags [])
    ≡ all_ok flag_set environment no_durations two_flags
load_from_env-is_some_example =
    load_from_env-is_some flag_set environment no_durations two_flags []
      (λ v e text s d. refl, (λ v e text s d. refl, tt))

-- The pod selectors cannot be read from the environment: their variable is left alone.
ignored :
    (v : Text) (s : List (Text × Text))
    → set_from_env flag_set environment no_durations
        (typed (codes "blocking-pod-selector") (codes "stringArray"))
        v
        s
      ≡ some s
unfolding set_from_env text_eq
ignored v s = refl
