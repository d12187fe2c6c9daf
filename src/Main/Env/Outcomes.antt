-- ===== src/Main/Env/Outcomes.antt =====
-- cmd/kured/main.go: what `LoadFromEnv` makes of each flag.
use kured.Common.{
  ◌≡◌, ◌⊎◌, inl, inr, refl, ap, ◌∙◌, Bool, false, Option, none, some, List, [], ◌∷◌, Text, text_eq,
  arith, All,
}
use kured.Main.Env.{Flag, FlagSet, env_var_name, one_of, then_with, load_flag, load_from_env}
use kured.Main.Env.Assigned.{Denotes, supported_types, SetTo, unchanged, set_from_env-SetTo}

module _ (flag : FlagSet) (lookup_env : Text → Option Text) (is_duration : Text → Bool) where
  open flag use {State, set, value, set_other}

  -- How a flag comes out of the environment: it keeps its value if its variable is not set or its type
  -- is not supported, and else it is set from the value that it had.
  pub data Outcome (f : Flag) (s s' : State) : Type 0 where
    not_set :
        lookup_env (env_var_name f.name) ≡ none → value s' f.name ≡ value s f.name → Outcome f s s'
    not_supported :
        one_of f.type_ supported_types ≡ false → value s' f.name ≡ value s f.name → Outcome f s s'
    assigned :
        (v text : Text) (from to : State)
        → lookup_env (env_var_name f.name) ≡ some v
        → Denotes is_duration f.type_ v text
        → value from f.name ≡ value s f.name
        → set f.name text from ≡ some to
        → value s' f.name ≡ value to f.name
        → Outcome f s s'

  -- The values before and after may be told from other states.
  Outcome-between :
      (f : Flag) (a b s s' : State)
      → value a f.name ≡ value s f.name
      → value s' f.name ≡ value b f.name
      → Outcome f a b
      → Outcome f s s'
  Outcome-between f a b s s' before after (not_set e kept) = not_set e (after ∙ (kept ∙ before))
  Outcome-between f a b s s' before after (not_supported e kept) =
      not_supported e (after ∙ (kept ∙ before))
  Outcome-between f a b s s' before after (assigned v text x y e d from done to) =
      assigned v text x y e d (from ∙ before) done (after ∙ to)

  load_flag-Outcome :
      (f : Flag) (s s' : State)
      → load_flag flag lookup_env is_duration f (lookup_env (env_var_name f.name)) s ≡ some s'
      → Outcome f s s'
  load_flag-Outcome f s s' = found (lookup_env (env_var_name f.name)) refl
    where
      loaded :
          (v : Text)
          → lookup_env (env_var_name f.name) ≡ some v
          → SetTo flag lookup_env is_duration f v s s'
            ⊎ ((one_of f.type_ supported_types ≡ false) × (s' ≡ s))
          → Outcome f s s'
      loaded v e (inl (text, d, done)) = assigned v text s s' e d refl done refl
      loaded v e (inr (other, same)) = not_supported other (ap (λ t. value t f.name) same)

      found :
          (o : Option Text)
          → lookup_env (env_var_name f.name) ≡ o
          → load_flag flag lookup_env is_duration f o s ≡ some s'
          → Outcome f s s'
      found none e l =
          not_set e (ap (λ t. value t f.name) (unchanged flag lookup_env is_duration s s' l))
      found (some v) e l = loaded v e (set_from_env-SetTo flag lookup_env is_duration f v s s' l)

  -- Another flag keeps its value.
  load_flag-other :
      (f : Flag) (o : Option Text) (other : Text) (s s' : State)
      → text_eq f.name other ≡ false
      → load_flag flag lookup_env is_duration f o s ≡ some s'
      → value s' other ≡ value s other
  load_flag-other f none other s s' ne l =
      ap (λ t. value t other) (unchanged flag lookup_env is_duration s s' l)
  load_flag-other f (some v) other s s' ne l =
      by_case (set_from_env-SetTo flag lookup_env is_duration f v s s' l)
    where
      by_case :
          SetTo flag lookup_env is_duration f v s s'
            ⊎ ((one_of f.type_ supported_types ≡ false) × (s' ≡ s))
          → value s' other ≡ value s other
      by_case (inl (text, d, done)) = set_other f.name other text s s' done ne
      by_case (inr (u, same)) = ap (λ t. value t other) same

  -- The state between the first flag and the rest.
  then_with-some :
      (o : Option State) (k : State → Option State) (s' : State)
      → then_with o k ≡ some s'
      → (m : State) × (o ≡ some m) × (k m ≡ some s')
  then_with-some none k s' e = absurd (ground arith)
  then_with-some (some m) k s' e = (m, refl, e)

  first_and_rest :
      (f : Flag) (fs : List Flag) (s s' : State)
      → load_from_env flag lookup_env is_duration (f ∷ fs) s ≡ some s'
      → (m : State) × (load_flag flag lookup_env is_duration f (lookup_env (env_var_name f.name)) s
          ≡ some m)
        × (load_from_env flag lookup_env is_duration fs m ≡ some s')
  unfolding load_from_env
  first_and_rest f fs s s' e =
      then_with-some (load_flag flag lookup_env is_duration f (lookup_env (env_var_name f.name)) s)
        (load_from_env flag lookup_env is_duration fs) s' e

  abbrev Differs : Text → List Flag → Type 0
  Differs name fs = All (λ (g : Flag). text_eq g.name name ≡ false) fs

  load_from_env-other :
      (fs : List Flag) (other : Text) (s s' : State)
      → Differs other fs
      → load_from_env flag lookup_env is_duration fs s ≡ some s'
      → value s' other ≡ value s other
  unfolding load_from_env
  load_from_env-other [] other s s' d e =
      ap (λ t. value t other) (unchanged flag lookup_env is_duration s s' e)
  load_from_env-other (f ∷ fs) other s s' (ne, d) e =
      let (m, first, rest) = first_and_rest f fs s s' e in
      load_from_env-other fs other m s' d rest
      ∙ load_flag-other f (lookup_env (env_var_name f.name)) other s m ne first

  abbrev pub HaveDistinctNames : List Flag → Type 0
  HaveDistinctNames [] = Unit
  HaveDistinctNames (f ∷ fs) =
      Differs f.name fs
      × All (λ (g : Flag). text_eq f.name g.name ≡ false) fs
      × HaveDistinctNames fs

  Outcomes-from :
      (f : Flag) (m s s' : State) (fs : List Flag)
      → ((other : Text) → text_eq f.name other ≡ false → value m other ≡ value s other)
      → All (λ (g : Flag). text_eq f.name g.name ≡ false) fs
      → All (λ g. Outcome g m s') fs
      → All (λ g. Outcome g s s') fs
  Outcomes-from f m s s' [] keep ne h = tt
  Outcomes-from f m s s' (g ∷ gs) keep (ne, nes) (o, os) =
      (Outcome-between g m s' s s' (keep g.name ne) refl o, Outcomes-from f m s s' gs keep nes os)

  -- When `LoadFromEnv` returns, every flag whose variable is set and whose type is supported has been
  -- set, from the value that it had before, to a text that says what the variable says, and every
  -- other flag has the value that it had before: whatever the order of the flags, if their names are
  -- distinct.
  pub load_from_env-Outcome :
      (fs : List Flag) (s s' : State)
      → HaveDistinctNames fs
      → load_from_env flag lookup_env is_duration fs s ≡ some s'
      → All (λ f. Outcome f s s') fs
  unfolding load_from_env
  load_from_env-Outcome [] s s' d e = tt
  load_from_env-Outcome (f ∷ fs) s s' (d, d', ds) e =
      let (m, first, rest) = first_and_rest f fs s s' e in
      (
        Outcome-between f s m s s' refl (load_from_env-other fs f.name m s' d rest)
            (load_flag-Outcome f s m first),
        Outcomes-from f m s s' fs
            (λ other ne. load_flag-other f (lookup_env (env_var_name f.name)) other s m ne first) d'
            (load_from_env-Outcome fs m s' ds rest),
      )
