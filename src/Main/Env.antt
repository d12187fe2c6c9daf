-- ===== src/Main/Env.antt =====
-- cmd/kured/main.go: `LoadFromEnv`, and the flag of cmd/kured/pflags.go.
pub mod Numbers
pub mod Names
pub mod Assigned
pub mod Outcomes
pub mod Validity
use kured.Common.{
  ℕ, ◌-◌, Bool, true, false, ◌&&◌, ◌||◌, Option, none, some, List, [], ◌∷◌, ◌++◌, ◌≡◌, map, Text,
  codes, text_eq, ℤ, leb, ◌==◌, if◌then◌else◌,
}
use kured.Checkers.{decimal}
use kured.TimeWindow.Days.{atoi}

-- `flag.Flag`, by what the code reads of it: the name, and the name of the type of the value.
pub record Flag : Type 0 where
  pub name : Text
  pub type_ : Text

-- `strings.ReplaceAll(name, "-", "_")` and `strings.ToUpper`, a byte at a time: names are ASCII.
abbrev pub underscore : ℕ → ℕ
underscore c = if c == b'-' then b'_' else c

abbrev pub upper : ℕ → ℕ
upper c = if leb b'a' c && leb c b'z' then c - 32 else c

abbrev pub env_prefix : Text
env_prefix = codes "KURED"

unfoldable pub env_var_name : Text → Text
env_var_name name = env_prefix ++ b'_' ∷ map upper (map underscore name)

-- `strconv.ParseBool` and `strconv.FormatBool`.
abbrev pub one_of : Text → List Text → Bool
one_of t [] = false
one_of t (u ∷ us) = text_eq t u || one_of t us

abbrev pub true_texts : List Text
true_texts = codes "1" ∷ codes "t" ∷ codes "T" ∷ codes "true" ∷ codes "TRUE" ∷ codes "True" ∷ []

abbrev pub false_texts : List Text
false_texts = codes "0" ∷ codes "f" ∷ codes "F" ∷ codes "false" ∷ codes "FALSE" ∷ codes "False" ∷ []

unfoldable pub parse_bool : Text → Option Bool
parse_bool t =
    if one_of t true_texts then some true else if one_of t false_texts then some false else none

abbrev pub format_bool : Bool → Text
format_bool true = codes "true"
format_bool false = codes "false"

-- `strconv.Itoa`.
abbrev pub itoa : ℤ → Text
itoa n = decimal n

-- The flags of pflag: `flag.Set`, which may return an error, and the text of a flag's value. To set a
-- flag leaves the others as they are.
pub record FlagSet : Type 1 where
  pub State : Type 0
  pub set : (name text : Text) → State → Option State
  pub value : State → Text → Text
  pub set_other :
      (name other text : Text) (s s' : State)
      → set name text s ≡ some s'
      → text_eq name other ≡ false
      → value s' other ≡ value s other

-- `os.Exit(1)` is `none`, in a chain of steps.
abbrev pub then_with : {A B : Type 0} → Option A → (A → Option B) → Option B
then_with none k = none
then_with (some a) k = k a

module _ (flag : FlagSet) (lookup_env : Text → Option Text) (is_duration : Text → Bool) where
  open flag use {State, set}

  abbrev pub set_int : Text → Option ℤ → State → Option State
  set_int name none s = none
  set_int name (some n) s = set name (itoa n) s

  abbrev pub set_bool : Text → Option Bool → State → Option State
  set_bool name none s = none
  set_bool name (some b) s = set name (format_bool b) s

  -- The `switch` on the type, with `time.ParseDuration` as the test `is_duration`.
  unfoldable pub set_from_env : Flag → Text → State → Option State
  unfolding parse_bool atoi decimal
  set_from_env f env_value s =
      if text_eq f.type_ (codes "int")
      then set_int f.name (atoi env_value) s
      else if text_eq f.type_ (codes "string")
      then set f.name env_value s
      else if text_eq f.type_ (codes "bool")
      then set_bool f.name (parse_bool env_value) s
      else if text_eq f.type_ (codes "duration")
      then (if is_duration env_value then set f.name env_value s else none)
      else if text_eq f.type_ (codes "regexp")
      then set f.name env_value s
      else if text_eq f.type_ (codes "stringSlice")
      then set f.name env_value s
      else some s

  abbrev pub load_flag : Flag → Option Text → State → Option State
  load_flag f none s = some s
  load_flag f (some env_value) s = set_from_env f env_value s

  -- `flag.VisitAll` goes through the flags, of which `Set` changes the values only.
  unfoldable pub load_from_env : List Flag → State → Option State
  unfolding env_var_name set_from_env
  load_from_env [] s = some s
  load_from_env (f ∷ fs) s =
      then_with (load_flag f (lookup_env (env_var_name f.name)) s) (load_from_env fs)
