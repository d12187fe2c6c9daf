-- ===== src/DaemonSetLock/Retry/Alone.antt =====
-- A round of the loop of pkg/daemonsetlock/daemonsetlock.go in which no other client writes.
use kured.Common.{ℕ, ◌≡◌, refl, sym, ap, some, [], ◌∷◌, arith, Option-cases, inl, inr}
use kured.DaemonSetLock.Api.{DaemonSet, UpdateReply, updated, conflict, failed, ApiServer, Stores}
use kured.DaemonSetLock.Retry.{
  Decision, answer, write, Method, Turn, get_daemon_set, run, after_update, after_decision,
}

module _ (api : ApiServer) where
  open api use {State, stored, get, update, get_stored, update_updated}

  abbrev pub alone : ℕ → Turn api
  alone now = record { attempts = (λ s. s) ∷ []; between = λ s. s; now = now }

  module _ {A : Type 0} (m : Method A) (now : ℕ) (a : A) (s : State) where
    -- How the method returns: it fails, or it answers by what is stored, which stays, or it stores
    -- what it decided to write in place of what it read.
    pub data Solo (s' : State) : Type 0 where
      timeout : a ≡ m.on_timeout → Solo s'
      failure : a ≡ m.on_failure → Solo s'
      answered : m.decide now (stored s) ≡ answer a → s ≡ s' → Solo s'
      wrote :
          (ds' : DaemonSet)
          → m.decide now (stored s) ≡ write ds' a
          → Stores (stored s) ds' (stored s')
          → Solo s'

    update-Solo :
        (s' : State) (ds' : DaemonSet) (result : A) (p : UpdateReply × State)
        → m.decide now (stored s) ≡ write ds' result
        → update ds' s ≡ p
        → after_update api m result (run api m []) p ≡ some (a, s')
        → Solo s'
    unfolding run
    update-Solo s' ds' result (updated, s1) decided e h =
        let stores = update_updated ds' s (ground arith) in
        let last : (update ds' s).1 ≡ s' = ground arith in
        let same : result ≡ a = ground arith in wrote ds' (cc) (rw (← last) stores)
    update-Solo s' ds' result (conflict, s1) decided e h = cc
    update-Solo s' ds' result (failed, s1) decided e h = failure (ground arith)

    decision-Solo :
        (s' : State) (d : Decision A)
        → m.decide now (stored s) ≡ d
        → after_decision api m (λ x. x) (run api m []) d s ≡ some (a, s')
        → Solo s'
    decision-Solo s' (answer b) e h = answered (ground arith) (ground arith)
    decision-Solo s' (write ds' result) e h = update-Solo s' ds' result (update ds' s) e refl h

    pub run-Solo : (s' : State) → run api m (alone now ∷ []) s ≡ some (a, s') → Solo s'
    unfolding run get_daemon_set
    run-Solo s' h = elim (Option-cases (get s)) [
      | inl missing ↦ timeout (ground arith)
      | inr (ds, found) ↦
          let read : ds ≡ stored s = get_stored s ds found in
          decision-Solo s' (m.decide now ds) (ap (m.decide now) (sym read)) (ground arith)
    ]
