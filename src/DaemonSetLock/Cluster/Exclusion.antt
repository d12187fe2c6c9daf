-- ===== src/DaemonSetLock/Cluster/Exclusion.antt =====
-- Mutual exclusion by the locks of pkg/daemonsetlock/daemonsetlock.go, over every interleaving.
use kured.Common.{
  suc, ◌≤◌, ◌≡◌, ◌≢◌, ◌⊎◌, inl, inr, refl, sym, ap, ◌∙◌, Bool, true, false, List, [], ◌∷◌, Text,
  length, All, arith,
}
use kured.DaemonSetLock.Value.{LockAnnotationValue, is_expired}
use kured.DaemonSetLock.Api.{ApiServer}
use kured.DaemonSetLock.Cluster.{Among, Discipline, owner, System, Reach}
use kured.DaemonSetLock.Cluster.Inv.{Reach-Inv}
use kured.DaemonSetLock.Cluster.Sound.{Sound, locks}

-- A list without one of its entries, in which all entries of other nodes stay.
data Without (v : LockAnnotationValue) (l : List LockAnnotationValue) : Type 0 where
  rest :
      (l' : List LockAnnotationValue)
      → length l ≡ suc (length l')
      → ((w : LockAnnotationValue) → w.node_id ≢ v.node_id → Among w l → Among w l')
      → Without v l

Among-Without : (v : LockAnnotationValue) (l : List LockAnnotationValue) → Among v l → Without v l
Among-Without v [] h = absurd h
Among-Without v (x ∷ l) (inl e) = rest l refl keep
  where
    keep : (w : LockAnnotationValue) → w.node_id ≢ v.node_id → (w ≡ x) ⊎ Among w l → Among w l
    keep w ne (inl e') = absurd (ne (ap (λ (u : LockAnnotationValue). u.node_id) (e' ∙ sym e)))
    keep w ne (inr h) = h
Among-Without v (x ∷ l) (inr h) = put_back (Among-Without v l h)
  where
    put_back : Without v l → Without v (x ∷ l)
    put_back (rest l' shorter keep) = rest (x ∷ l') (ap suc shorter) keep'
      where
        keep' :
            (w : LockAnnotationValue)
            → w.node_id ≢ v.node_id
            → (w ≡ x) ⊎ Among w l
            → (w ≡ x) ⊎ Among w l'
        keep' w ne (inl e) = inl e
        keep' w ne (inr h') = inr (keep w ne h')

abbrev pub Distinct : List Text → Type 0
Distinct [] = Unit
Distinct (i ∷ is) = All (λ j. i ≢ j) is × Distinct is

-- A node that has an entry in the list.
abbrev HasEntry : List LockAnnotationValue → Text → Type 0
HasEntry l i = (v : LockAnnotationValue) × Among v l × (v.node_id ≡ i)

HasEntry-Without :
    (i : Text) (v : LockAnnotationValue) (l l' : List LockAnnotationValue)
    → v.node_id ≡ i
    → ((w : LockAnnotationValue) → w.node_id ≢ v.node_id → Among w l → Among w l')
    → (is : List Text) → All (λ j. i ≢ j) is
    → All (HasEntry l) is
    → All (HasEntry l') is
HasEntry-Without i v l l' own keep [] ne h = tt
HasEntry-Without i v l l' own keep (j ∷ is) (ne, nes) ((w, among, its), hs) = (
  (w, keep w (λ same. ne (sym own ∙ sym same ∙ its)) among, its),
  HasEntry-Without i v l l' own keep is nes hs,
)

-- Distinct nodes have distinct entries.
Distinct-length :
    (is : List Text) (l : List LockAnnotationValue)
    → Distinct is
    → All (HasEntry l) is
    → length is ≤ length l
Distinct-length [] l d h = omega arith
Distinct-length (i ∷ is) l (ne, d) ((v, among, own), hs) =
    shorten (Distinct-length is) (Among-Without v l among)
  where
    shorten :
        ((k : List LockAnnotationValue) → Distinct is → All (HasEntry k) is → length is ≤ length k)
        → Without v l
        → suc (length is) ≤ length l
    shorten ih (rest l' shorter keep) =
        omega (arith, shorter, ih l' d (HasEntry-Without i v l l' own keep is ne hs))

unexpired : {P : Type 0} {b : Bool} → P ⊎ (b ≡ true) → b ≡ false → P
unexpired (inl p) live = p
unexpired (inr e) live = cc

module _ (api : ApiServer) (lock : Discipline) where
  -- A node that relies on a lock that has not expired.
  abbrev pub IsOwner : System api lock → Text → Type 0
  IsOwner s i = (v : LockAnnotationValue) × (s.pc i ≡ owner v) × (is_expired s.now v ≡ false)

  -- What an owner relies on stands in the annotation, under its name, until it expires.
  pub owner-Among :
      (s : System api lock) (i : Text) (v : LockAnnotationValue)
      → Reach api lock s
      → s.pc i ≡ owner v
      → is_expired s.now v ≡ false
      → Among v (locks lock (api.stored s.server)) × (v.node_id ≡ i)
  owner-Among s i v r at live =
      let known : Sound lock s.now (api.stored s.server) i (owner v) =
        rw at at ((Reach-Inv api lock r).sound i) in
      (unexpired known.1 live, known.0)

  IsOwner-HasEntry :
      (s : System api lock)
      → Reach api lock s
      → (is : List Text) → All (IsOwner s) is
      → All (HasEntry (locks lock (api.stored s.server))) is
  IsOwner-HasEntry s r [] h = tt
  IsOwner-HasEntry s r (i ∷ is) ((v, at, live), hs) =
      let (among, own) = owner-Among s i v r at live in
      ((v, among, own), IsOwner-HasEntry s r is hs)

  -- In every reachable state, whatever the interleaving, the conflicts and the lost replies, no more
  -- nodes rely on the lock, between `Acquire` (or `Holding`) and `Release`, than may own it.
  pub owners-le-max :
      (s : System api lock) (is : List Text)
      → Reach api lock s
      → Distinct is
      → All (IsOwner s) is
      → length is ≤ lock.max_owners
  owners-le-max s is r d h = omega (
    arith,
    Distinct-length is (locks lock (api.stored s.server)) d (IsOwner-HasEntry s r is h),
    (Reach-Inv api lock r).few,
  )
