-- ===== src/DaemonSetLock/Retry.antt =====
-- pkg/daemonsetlock/daemonsetlock.go: `GetDaemonSet`, and the loop that `Acquire` and `Release` of
-- both locks run: read the DaemonSet, decide, write it back, and start again after a conflict.
pub mod Outcome
pub mod Alone
use kured.Common.{ℕ, Bool, Option, none, some, List, [], ◌∷◌, Text}
use kured.DaemonSetLock.Api.{DaemonSet, UpdateReply, updated, conflict, failed, ApiServer}

-- What a method does with the DaemonSet that it has read: return, or write a new one and return
-- `result` if that is stored.
pub data Decision (A : Type 0) : Type 0 where
  answer : A → Decision A
  write : DaemonSet → (result : A) → Decision A

-- A method by its decision at a time, and by what it returns on an error of either call.
pub record Method (A : Type 0) : Type 0 where
  pub decide : ℕ → DaemonSet → Decision A
  pub on_timeout : A
  pub on_failure : A

module _ (api : ApiServer) where
  open api use {State, get, update}

  -- What the environment does in one round: what other clients do before each attempt to read that
  -- the poll has time for, what they do between the read and the write, and the time.
  pub record Turn : Type 0 where
    pub attempts : List (State → State)
    pub between : State → State
    pub now : ℕ

  -- The first attempt that succeeds, or `none` when the time is up.
  unfoldable pub get_daemon_set : List (State → State) → State → Option DaemonSet × State
  get_daemon_set [] s = (none, s)
  get_daemon_set (others ∷ rest) s =
      let s' = others s in
      let again = get_daemon_set rest s' in elim (get s') [ none ↦ again | some ds ↦ (some ds, s') ]

  module _ {A : Type 0} (m : Method A) where
    abbrev pub after_update :
        A → (State → Option (A × State)) → UpdateReply × State → Option (A × State)
    after_update result retry (updated, s) = some (result, s)
    after_update result retry (conflict, s) = retry s
    after_update result retry (failed, s) = some (m.on_failure, s)

    abbrev pub after_decision :
        (State → State) → (State → Option (A × State)) → Decision A → State → Option (A × State)
    after_decision between retry (answer a) s = some (a, s)
    after_decision between retry (write ds result) s =
        after_update result retry (update ds (between s))

    abbrev pub after_get :
        Turn → (State → Option (A × State)) → Option DaemonSet × State → Option (A × State)
    after_get t retry (none, s) = some (m.on_timeout, s)
    after_get t retry (some ds, s) = after_decision t.between retry (m.decide t.now ds) s

    -- One round for each turn; `none` while the method still retries.
    unfoldable pub run : List Turn → State → Option (A × State)
    unfolding get_daemon_set
    run [] s = none
    run (t ∷ ts) s = after_get t (run ts) (get_daemon_set t.attempts s)
