-- ===== src/DaemonSetLock/Single/Exclusion.antt =====
-- Mutual exclusion by the single lock of pkg/daemonsetlock/daemonsetlock.go.
use kured.Common.{
  ℕ, zero, suc, ◌+◌, ◌<◌, ℤ, pos, negsuc, ◌≡◌, refl, ap, sym, ◌∙◌, false, some, Text, arith,
}
use kured.DaemonSetLock.Value.{LockAnnotationValue, ttl_expired, GenericLock}
use kured.DaemonSetLock.Api.{ApiServer, Codec, get_annotation}
use kured.DaemonSetLock.Single.Decide.{decode}
use kured.DaemonSetLock.Single.Nodes.{nodes, Among-to_list}
use kured.DaemonSetLock.Cluster.{owner, System, Reach}
use kured.DaemonSetLock.Cluster.Exclusion.{owner-Among}

-- The TTL has not passed since the creation, or there is none.
abbrev pub HasTimeLeft : ℕ → ℕ → ℤ → Type 0
HasTimeLeft now created (negsuc n) = Unit
HasTimeLeft now created (pos zero) = Unit
HasTimeLeft now created (pos (suc n)) = now < created + suc n

abbrev pub Lasts : ℕ → LockAnnotationValue → Type 0
Lasts now v = HasTimeLeft now v.created v.ttl

ttl_expired-HasTimeLeft :
    (now created : ℕ) (ttl : ℤ) → HasTimeLeft now created ttl → ttl_expired now created ttl ≡ false
unfolding ttl_expired
ttl_expired-HasTimeLeft now created (negsuc n) h = refl
ttl_expired-HasTimeLeft now created (pos zero) h = refl
ttl_expired-HasTimeLeft now created (pos (suc n)) h = ground arith

module _ (codec : Codec LockAnnotationValue) (generic : Text → GenericLock) where
  module _ (namespace name key : Text) (api : ApiServer) where
    -- Two nodes that rely on the single lock, with leases that have no TTL or whose TTL has not passed
    -- since their creation, are one node, and the leases are the one lock that the annotation holds, in
    -- every reachable state: whatever the interleaving, the conflicts and the lost replies.
    pub mutual_exclusion :
        (s : System api (nodes codec generic namespace name key)) (i j : Text)
        (v w : LockAnnotationValue)
        → Reach api (nodes codec generic namespace name key) s
        → s.pc i ≡ owner v
        → s.pc j ≡ owner w
        → Lasts s.now v
        → Lasts s.now w
        → (i ≡ j)
          × (decode codec (get_annotation key (api.stored s.server).annotations) ≡ some v)
          × (v ≡ w)
    mutual_exclusion s i j v w r at_i at_j lasts_i lasts_j =
        let live_i = ttl_expired-HasTimeLeft s.now v.created v.ttl lasts_i in
        let live_j = ttl_expired-HasTimeLeft s.now w.created w.ttl lasts_j in
        let (among_i, is_i) = owner-Among api _ s i v r at_i live_i in
        let (among_j, is_j) = owner-Among api _ s j w r at_j live_j in
        let held_i = Among-to_list v _ among_i in
        let held_j = Among-to_list w _ among_j in
        let same : v ≡ w = cc in
        (sym is_i ∙ ap (λ (l : LockAnnotationValue). l.node_id) same ∙ is_j, held_i, same)
