-- ===== src/DaemonSetLock/Retry/Outcome.antt =====
-- How the loops of pkg/daemonsetlock/daemonsetlock.go end, and that they do.
use kured.Common.{
  ℕ, ◌≡◌, ◌≢◌, refl, subst, Option, none, some, List, [], ◌∷◌, ◌++◌, arith, Option-cases, ◌⊎◌, inl, inr,
}
use kured.DaemonSetLock.Api.{DaemonSet, UpdateReply, updated, conflict, failed, ApiServer, Stores}
use kured.DaemonSetLock.Retry.{
  Decision, answer, write, Method, Turn, get_daemon_set, run, after_update, after_decision,
  after_get,
}

module _ (api : ApiServer) where
  open api use {State, stored, get, update, get_stored, update_updated}

  -- The DaemonSet that is returned is the one that is stored.
  pub get_daemon_set-stored :
      (attempts : List (State → State)) (s s' : State) (ds : DaemonSet)
      → get_daemon_set api attempts s ≡ (some ds, s')
      → ds ≡ stored s'
  unfolding get_daemon_set
  get_daemon_set-stored [] s s' ds e = cc
  get_daemon_set-stored (others ∷ rest) s s' ds e = elim (Option-cases (get (others s))) [
    | inl none' ↦ get_daemon_set-stored rest (others s) s' ds (ground arith)
    | inr (d, found) ↦ get_stored s' ds (ground arith)
  ]

  -- A round in which nothing comes between the read and a write of the version that was read.
  abbrev pub Settles : Turn api → Type 0
  Settles t =
      (s s' : State) (ds ds' : DaemonSet)
      → get_daemon_set api t.attempts s ≡ (some ds, s')
      → ds'.version ≡ ds.version
      → (update ds' (t.between s')).0 ≢ conflict

  -- The time of a round.
  abbrev pub IsTimeOf : ℕ → List (Turn api) → Type 0
  IsTimeOf now [] = ⊥
  IsTimeOf now (t ∷ ts) = (now ≡ t.now) ⊎ IsTimeOf now ts

  module _ {A : Type 0} (m : Method A) where
    -- The four ways to return: the poll timed out, the write failed, the method answered by what is
    -- stored, or it stored what it decided to write, either at the time of a round.
    pub data Outcome (ts : List (Turn api)) (a : A) (s : State) : Type 0 where
      timeout : a ≡ m.on_timeout → Outcome ts a s
      failure : a ≡ m.on_failure → Outcome ts a s
      answered :
          (now : ℕ) → IsTimeOf now ts → m.decide now (stored s) ≡ answer a → Outcome ts a s
      wrote :
          (now : ℕ) (ds ds' : DaemonSet) (before : State)
          → IsTimeOf now ts
          → m.decide now ds ≡ write ds' a
          → Stores (stored before) ds' (stored s)
          → Outcome ts a s

    -- The outcome of the rounds after the first.
    Outcome-later :
        (t : Turn api) (ts : List (Turn api)) (a : A) (s : State)
        → Outcome ts a s
        → Outcome (t ∷ ts) a s
    Outcome-later t ts a s (timeout e) = timeout e
    Outcome-later t ts a s (failure e) = failure e
    Outcome-later t ts a s (answered now at e) = answered now (inr at) e
    Outcome-later t ts a s (wrote now ds ds' before at e st) = wrote now ds ds' before (inr at) e st

    module _ (ts : List (Turn api)) (a : A) (s' : State) (retry : State → Option (A × State)) where
      module _ (again : (s : State) → retry s ≡ some (a, s') → Outcome ts a s') (now : ℕ) where
        update-Outcome :
            (ds ds' : DaemonSet) (before : State) (result : A) (p : UpdateReply × State)
            → IsTimeOf now ts
            → m.decide now ds ≡ write ds' result
            → update ds' before ≡ p
            → after_update api m result retry p ≡ some (a, s')
            → Outcome ts a s'
        update-Outcome ds ds' before result (updated, s) at decided e h =
            let same : (update ds' before).1 ≡ s' = ground arith in
            wrote now ds ds' before at (cc) (
              subst (λ x. Stores (stored before) ds' (stored x)) same
                (update_updated ds' before (ground arith)))
        update-Outcome ds ds' before result (conflict, s) at decided e h = again s h
        update-Outcome ds ds' before result (failed, s) at decided e h = failure (ground arith)

        decision-Outcome :
            (between : State → State) (ds : DaemonSet) (s : State) (d : Decision A)
            → IsTimeOf now ts
            → m.decide now ds ≡ d
            → ds ≡ stored s
            → after_decision api m between retry d s ≡ some (a, s')
            → Outcome ts a s'
        decision-Outcome between ds s (answer b) at decided read h = answered now at (cc)
        decision-Outcome between ds s (write ds' result) at decided read h =
            update-Outcome ds ds' (between s) result _ at decided refl h

      get-Outcome :
          ((s : State) → retry s ≡ some (a, s') → Outcome ts a s')
          → (t : Turn api) (p : Option DaemonSet × State) (s : State)
          → IsTimeOf t.now ts
          → get_daemon_set api t.attempts s ≡ p
          → after_get api m t retry p ≡ some (a, s')
          → Outcome ts a s'
      get-Outcome again t (none, s1) s at e h = timeout (ground arith)
      get-Outcome again t (some ds, s1) s at e h =
          decision-Outcome again t.now t.between ds s1 _ at refl
            (get_daemon_set-stored t.attempts s s1 ds e) h

    -- However many rounds it takes.
    pub run-Outcome :
        (ts : List (Turn api)) (s s' : State) (a : A) → run api m ts s ≡ some (a, s') → Outcome ts a s'
    unfolding run
    run-Outcome [] s s' a e = cc
    run-Outcome (t ∷ ts) s s' a e =
        get-Outcome (t ∷ ts) a s' (run api m ts)
          (λ s1 h. Outcome-later t ts a s' (run-Outcome ts s1 s' a h)) t _ s (inl refl) refl e

    -- The method writes back the version that it has read.
    abbrev pub WritesBack : Type 0
    WritesBack =
        (now : ℕ) (ds ds' : DaemonSet) (a : A)
        → m.decide now ds ≡ write ds' a
        → ds'.version ≡ ds.version

    decision-ne-none :
        (retry : State → Option (A × State)) (now : ℕ) (between : State → State) (ds : DaemonSet)
        (s : State) (d : Decision A)
        → m.decide now ds ≡ d
        → WritesBack
        → ((ds' : DaemonSet) → ds'.version ≡ ds.version → (update ds' (between s)).0 ≢ conflict)
        → after_decision api m between retry d s ≢ none
    decision-ne-none retry now between ds s (answer a) decided back settles e = cc
    decision-ne-none retry now between ds s (write ds' a) decided back settles e =
        settles ds' (back now ds ds' a decided) (ground arith)

    get-ne-none :
        (retry : State → Option (A × State)) (t : Turn api) (s : State)
        (p : Option DaemonSet × State)
        → get_daemon_set api t.attempts s ≡ p
        → WritesBack
        → Settles t
        → after_get api m t retry p ≢ none
    get-ne-none retry t s (none, s1) e back settles h = cc
    get-ne-none retry t s (some ds, s1) e back settles h =
        decision-ne-none retry t.now t.between ds s1 _ refl back
          (λ ds' version. settles s s1 ds ds' e version) h

    module _ (retry : State → Option (A × State)) (later : (s : State) → retry s ≢ none) where
      update-later :
          (result : A) (p : UpdateReply × State) → after_update api m result retry p ≢ none
      update-later result (updated, s) e = cc
      update-later result (conflict, s) e = later s e
      update-later result (failed, s) e = cc

      decision-later :
          (between : State → State) (d : Decision A) (s : State)
          → after_decision api m between retry d s ≢ none
      decision-later between (answer a) s e = cc
      decision-later between (write ds result) s e = update-later result _ e

      get-later : (t : Turn api) (p : Option DaemonSet × State) → after_get api m t retry p ≢ none
      get-later t (none, s) e = cc
      get-later t (some ds, s) e = decision-later t.between (m.decide t.now ds) s e

    -- Rounds enough: a round that settles ends the loop, at the latest.
    pub run-returns :
        (ts : List (Turn api)) (t : Turn api) (rest : List (Turn api)) (s : State)
        → WritesBack
        → Settles t
        → run api m (ts ++ t ∷ rest) s ≢ none
    unfolding run
    run-returns [] t rest s back settles = get-ne-none (run api m rest) t s _ refl back settles
    run-returns (u ∷ ts) t rest s back settles =
        get-later (run api m (ts ++ t ∷ rest)) (λ s1. run-returns ts t rest s1 back settles) u _
