-- ===== src/DaemonSetLock/Cluster/Leases.antt =====
-- What the locks of pkg/daemonsetlock/daemonsetlock.go promise, without servers, annotations or
-- conflicts: a table of leases that is changed at one node at a time, and that has room for a lease
-- when one is granted.
use kured.Common.{
  ℕ, ◌≤◌, ◌≡◌, ◌≢◌, sym, ◌∙◌, inl, inr, Bool-cases, Bool, true, false, Option, none, some, List, [],
  ◌∷◌, Text, text_eq, text_eq_iff, length, All, arith,
}
use kured.DaemonSetLock.Value.{LockAnnotationValue, is_expired}
use kured.DaemonSetLock.Single.Decide.{is_expired_mono}
use kured.DaemonSetLock.Cluster.Exclusion.{Distinct}

-- The lease that each node relies on.
pub record Leases : Type 0 where
  pub now : ℕ
  pub lease : Text → Option LockAnnotationValue

abbrev pub IsLive : Leases → Text → Type 0
IsLive a i = (v : LockAnnotationValue) × (a.lease i ≡ some v) × (is_expired a.now v ≡ false)

-- No more nodes than `max` rely on leases that have not expired.
abbrev pub HasRoom : ℕ → Leases → Type 0
HasRoom max a = (is : List Text) → Distinct is → All (IsLive a) is → length is ≤ max

-- The table `b` is `a` but for node `i`.
pub record Changed (i : Text) (o : Option LockAnnotationValue)
    (a b : Text → Option LockAnnotationValue) : Type 0 where
  pub here : b i ≡ o
  pub elsewhere : (j : Text) → i ≢ j → b j ≡ a j

-- A lease is granted to a node that has none, in its name and within the number of owners; a node
-- loses its lease only by its own doing, or in the course of time.
pub data LeaseStep (max : ℕ) (a : Leases) : Leases → Type 0 where
  wait : {t : ℕ} → a.now ≤ t → LeaseStep max a (record a { now = t })
  grant :
      (i : Text) (v : LockAnnotationValue) {b : Text → Option LockAnnotationValue}
      → a.lease i ≡ none
      → v.node_id ≡ i
      → Changed i (some v) a.lease b
      → HasRoom max (record a { lease = b })
      → LeaseStep max a (record a { lease = b })
  give_up :
      (i : Text) {b : Text → Option LockAnnotationValue}
      → Changed i none a.lease b
      → LeaseStep max a (record a { lease = b })
  keep : LeaseStep max a a

pub data LeaseReach (max : ℕ) : Leases → Type 0 where
  empty : (now : ℕ) → LeaseReach max (record { now = now; lease = λ i. none })
  next : {a b : Leases} → LeaseReach max a → LeaseStep max a b → LeaseReach max b

-- The specification keeps its own bound: a lease that is live was live before, but for one that is
-- granted, and that finds room.
disagree : {b : Bool} → b ≡ true → b ≡ false → ⊥
disagree e e' = cc

All-IsLive :
    (a b : Leases)
    → ((i : Text) → IsLive b i → IsLive a i)
    → (is : List Text) → All (IsLive b) is
    → All (IsLive a) is
All-IsLive a b sub [] h = tt
All-IsLive a b sub (i ∷ is) (live, h) = (sub i live, All-IsLive a b sub is h)

LeaseStep-HasRoom : (max : ℕ) {a b : Leases} → LeaseStep max a b → HasRoom max a → HasRoom max b
LeaseStep-HasRoom max {a} (wait {t = t} le) room =
    λ is d h. room is d (All-IsLive a (record a { now = t }) earlier is h)
  where
    earlier : (i : Text) → IsLive (record a { now = t }) i → IsLive a i
    earlier i (v, e, live) = (
      v,
      e,
      elim (Bool-cases (is_expired a.now v)) [
        | inl x ↦ absurd (disagree (is_expired_mono a.now t v le x) live)
        | inr x ↦ x
      ],
    )
LeaseStep-HasRoom max (grant i v free own changed room') room = room'
LeaseStep-HasRoom max {a} (give_up i {b = b} changed) room =
    λ is d h. room is d (All-IsLive a (record a { lease = b }) others is h)
  where
    others : (j : Text) → IsLive (record a { lease = b }) j → IsLive a j
    others j (v, e, live) = elim (Bool-cases (text_eq i j)) [
      | inl same ↦
          let at : b j ≡ none = rw (← (text_eq_iff i j).0 same) changed.here in
          absurd (ground arith)
      | inr other ↦ (v, sym (changed.elsewhere j (λ x. ground (arith, text_eq_iff i j))) ∙ e, live)
    ]
LeaseStep-HasRoom max keep room = room

none_live : (now : ℕ) (max : ℕ) → HasRoom max (record { now = now; lease = λ i. none })
none_live now max [] d h = omega arith
none_live now max (i ∷ is) d ((v, e, live), h) = absurd (ground arith)

pub LeaseReach-HasRoom : (max : ℕ) {a : Leases} → LeaseReach max a → HasRoom max a
LeaseReach-HasRoom max (empty now) = none_live now max
LeaseReach-HasRoom max (next r st) = LeaseStep-HasRoom max st (LeaseReach-HasRoom max r)
