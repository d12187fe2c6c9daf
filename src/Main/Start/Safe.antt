-- ===== src/Main/Start/Safe.antt =====
-- cmd/kured/main.go: the lock, the rebooter and the checker that `main` hands to the loop.
use kured.Common.{
  ◌≡◌, ◌≢◌, refl, sym, subst, ◌∙◌, Bool, true, false, List, Text, ℤ, less_than_int, arith,
  if◌then◌else◌,
}
use kured.DaemonSetLock.Value.{GenericLock, DaemonSetLock, Lock, single, multi}
use kured.DaemonSetLock.Multi.{new_lock}
use kured.Checkers
use kured.Checkers.{Run}
use kured.Rebooters
use kured.Rebooters.{Outcome, returned}
use kured.Internal.Choice.{reboot, reboot-new_rebooter, reboot_required, reboot_required-ne-panics}
use kured.Main.Settings.{Settings}
use kured.Main.Start.{Parts, started, Packages, build_lock, start}
use kured.Main.Start.Built.{start-IsBuilt}

module _ (p : Packages) (s : Settings p.Regexp) where
  open p use {load_location, split, has_config, has_client}

  -- The lock that is used, and by what name.
  abbrev pub IsLockFor : Lock → Type 0
  IsLockFor (single l) =
      (less_than_int 1 s.concurrency ≡ false)
      × (l.node_id ≡ s.node_id)
      × (l.ttl ≡ s.lock_ttl)
      × (l.annotation ≡ s.lock_annotation)
  IsLockFor (multi l) =
      (less_than_int 1 s.concurrency ≡ true)
      × (l.max_owners ≡ s.concurrency)
      × (l.node_id ≡ s.node_id)
      × (l.ttl ≡ s.lock_ttl)
      × (l.annotation ≡ s.lock_annotation)

  build_lock-IsLockFor : IsLockFor (build_lock p s)
  unfolding new_lock
  build_lock-IsLockFor = by (less_than_int 1 s.concurrency) refl
    where
      generic : GenericLock
      generic = record { ttl = s.lock_ttl; release_delay = s.lock_release_delay }

      dsl : DaemonSetLock
      dsl = record {
        node_id = s.node_id;
        namespace = s.ds_namespace;
        name = s.ds_name;
        annotation = s.lock_annotation;
      }

      by :
          (b : Bool)
          → less_than_int 1 s.concurrency ≡ b
          → IsLockFor (
              if b
              then multi (record { generic = generic; lock = dsl; max_owners = s.concurrency })
              else single (record { generic = generic; lock = dsl }))
      by true e = (e, refl, refl, refl, refl)
      by false e = (e, refl, refl, refl)

  -- When `main` starts the loop, neither its rebooter nor its checker can panic, whatever commands,
  -- files and signals do, and its lock is the one for several owners exactly if the concurrency is
  -- above one, then with that many owners, and in either case in the node's name and with the TTL and
  -- the annotation of the flags.
  pub start-IsSafe :
      (run : Text → List Text → Bool) (find : Bool) (send : ℤ → Bool)
      (run_sentinel : Text → List Text → Run) (stat : Text → Bool) (parts : Parts)
      → start p s ≡ started parts
      → (reboot run find send parts.rebooter ≢ Rebooters.panics)
        × (reboot_required run_sentinel stat parts.checker ≢ Checkers.panics)
        × IsLockFor parts.lock
  start-IsSafe run find send run_sentinel stat parts e =
      let built = start-IsBuilt p s parts e in
      let (ok, returns) =
        reboot-new_rebooter split run find send s.reboot_method s.reboot_command s.reboot_signal
          parts.rebooter built.rebooter in
      (
        λ bad. returned-ne-panics ok (sym returns ∙ bad),
        reboot_required-ne-panics split run_sentinel stat s.reboot_sentinel_command
            s.reboot_sentinel_file parts.checker built.checker,
        subst IsLockFor (sym built.lock) build_lock-IsLockFor,
      )
    where
      returned-ne-panics : (ok : Bool) → returned ok ≢ Rebooters.panics
      returned-ne-panics ok e = ground arith
