-- ===== src/DaemonSetLock/Cluster/Sound.antt =====
-- What a node may rely on where it stands, and that it still may after the steps of the others.
use kured.Common.{
  ℕ, ◌≤◌, ◌≡◌, ◌≢◌, ◌⊎◌, inl, inr, refl, sym, ap, subst, ◌∙◌, true, List, Text, length, text_eq,
  text_eq_iff, arith, Bool-cases,
}
use kured.DaemonSetLock.Value.{LockAnnotationValue, is_expired}
use kured.DaemonSetLock.Api.{
  DaemonSet, UpdateReply, updated, conflict, failed, ApiServer, Stores, get_annotation,
}
use kured.DaemonSetLock.Single.Decide.{is_expired_mono}
use kured.DaemonSetLock.Cluster.{
  Pc, idle, acquiring, owner, leaving, releasing, set_pc, Undisturbed, Among, Discipline,
}

pub set_pc-all :
    (P : Text → Pc → Type 0) (pc : Text → Pc) (i : Text) (p : Pc)
    → P i p
    → ((j : Text) → i ≢ j → P j (pc j))
    → (j : Text) → P j (set_pc pc i p j)
set_pc-all P pc i p hit miss j = elim (Bool-cases (text_eq i j)) [
  | inl e ↦ rw e (rw (← (text_eq_iff i j).0 e) hit)
  | inr e ↦ rw e (miss j λ same. ground (arith, text_eq_iff i j))
]

module _ (lock : Discipline) where
  open lock use {key, entries}

  abbrev pub locks : DaemonSet → List LockAnnotationValue
  locks ds = entries (get_annotation key ds.annotations)

  -- What a node may rely on where it stands: an owner's lock is in the annotation until it expires;
  -- a write that is under way leaves out no lock but expired ones, or the node's own.
  abbrev pub Sound : ℕ → DaemonSet → Text → Pc → Type 0
  Sound now cur i idle = Unit
  Sound now cur i (acquiring ds v) =
      (ds.version ≤ cur.version)
      × (v.node_id ≡ i)
      × Among v (locks ds)
      × (length (locks ds) ≤ lock.max_owners)
      × (ds.version ≡ cur.version
          → (w : LockAnnotationValue) → Among w (locks cur)
          → Among w (locks ds) ⊎ (is_expired now w ≡ true))
  Sound now cur i (owner v) = (v.node_id ≡ i) × (Among v (locks cur) ⊎ (is_expired now v ≡ true))
  Sound now cur i leaving = Unit
  Sound now cur i (releasing ds) =
      (ds.version ≤ cur.version)
      × (length (locks ds) ≤ lock.max_owners)
      × (ds.version ≡ cur.version
          → (w : LockAnnotationValue) → Among w (locks cur)
          → Among w (locks ds) ⊎ (w.node_id ≡ i))

  or_expired :
      (P : Type 0) (a b : ℕ) (w : LockAnnotationValue)
      → a ≤ b
      → P ⊎ (is_expired a w ≡ true)
      → P ⊎ (is_expired b w ≡ true)
  or_expired P a b w le (inl p) = inl p
  or_expired P a b w le (inr e) = inr (is_expired_mono a b w le e)

  pub Sound-elapse :
      (a b : ℕ) (cur : DaemonSet) (i : Text) (p : Pc) → a ≤ b → Sound a cur i p → Sound b cur i p
  Sound-elapse a b cur i idle le g = tt
  Sound-elapse a b cur i (acquiring ds v) le (older, own, value, few, free) =
      (older, own, value, few, λ same w h. or_expired _ a b w le (free same w h))
  Sound-elapse a b cur i (owner v) le (own, h) = (own, or_expired _ a b v le h)
  Sound-elapse a b cur i leaving le g = tt
  Sound-elapse a b cur i (releasing ds) le g = g

  pub Sound-others :
      (now : ℕ) (old new : DaemonSet) (i : Text) (p : Pc)
      → Undisturbed key old new
      → Sound now old i p
      → Sound now new i p
  Sound-others now old new i idle u g = tt
  Sound-others now old new i (acquiring ds v) u (older, own, value, few, free) = (
    omega arith,
    own,
    value,
    few,
    λ same w h. free (omega arith) w (subst (Among w) (ap entries u.kept) h),
  )
  Sound-others now old new i (owner v) u (own, h) =
      (own, subst (λ l. Among v l ⊎ (is_expired now v ≡ true)) (sym (ap entries u.kept)) h)
  Sound-others now old new i leaving u g = tt
  Sound-others now old new i (releasing ds) u (older, few, own) =
      (omega arith, few, λ same w h. own (omega arith) w (subst (Among w) (ap entries u.kept) h))

  -- The write of `Acquire` by node `j`.
  pub Sound-claim :
      (now : ℕ) (old ds new : DaemonSet) (j : Text) (v : LockAnnotationValue) (i : Text) (p : Pc)
      → Stores old ds new
      → Sound now old j (acquiring ds v)
      → Sound now old i p
      → Sound now new i p
  Sound-claim now old ds new j v i idle st c g = tt
  Sound-claim now old ds new j v i (acquiring ds' v') st c (older, own, value, few, free) =
      (omega arith, own, value, few, λ same w h. absurd (omega arith))
  Sound-claim now old ds new j v i (owner v') st c (own, inl h) =
      (own, rw st.taken (c.4 st.same_version v' h))
  Sound-claim now old ds new j v i (owner v') st c (own, inr e) = (own, inr e)
  Sound-claim now old ds new j v i leaving st c g = tt
  Sound-claim now old ds new j v i (releasing ds') st c (older, few, own) =
      (omega arith, few, λ same w h. absurd (omega arith))

  kept_by_other :
      (P : Type 0) (now : ℕ) (i j : Text) (v : LockAnnotationValue)
      → j ≢ i
      → v.node_id ≡ i
      → P ⊎ (v.node_id ≡ j)
      → P ⊎ (is_expired now v ≡ true)
  kept_by_other P now i j v ne own (inl p) = inl p
  kept_by_other P now i j v ne own (inr e) = absurd (ne (sym e ∙ own))

  -- The write of `Release` by node `j`.
  pub Sound-leave :
      (now : ℕ) (old ds new : DaemonSet) (j i : Text) (p : Pc)
      → Stores old ds new
      → Sound now old j (releasing ds)
      → j ≢ i
      → Sound now old i p
      → Sound now new i p
  Sound-leave now old ds new j i idle st c ne g = tt
  Sound-leave now old ds new j i (acquiring ds' v') st c ne (older, own, value, few, free) =
      (omega arith, own, value, few, λ same w h. absurd (omega arith))
  Sound-leave now old ds new j i (owner v') st c ne (own, inl h) =
      (own, rw st.taken (kept_by_other _ now i j v' ne own (c.2 st.same_version v' h)))
  Sound-leave now old ds new j i (owner v') st c ne (own, inr e) = (own, inr e)
  Sound-leave now old ds new j i leaving st c ne g = tt
  Sound-leave now old ds new j i (releasing ds') st c ne (older, few, own) =
      (omega arith, few, λ same w h. absurd (omega arith))

-- What a write does, by its reply.
pub data Wrote (api : ApiServer) (ds : DaemonSet) (s : api.State) : Type 0 where
  stored_it : Stores (api.stored s) ds (api.stored (api.update ds s).1) → Wrote api ds s
  kept_it :
      (api.update ds s).0 ≢ updated → api.stored (api.update ds s).1 ≡ api.stored s → Wrote api ds s

pub Wrote-total : (api : ApiServer) (ds : DaemonSet) (s : api.State) → Wrote api ds s
Wrote-total api ds s = by_reply (api.update ds s).0 refl
  where
    by_reply : (r : UpdateReply) → (api.update ds s).0 ≡ r → Wrote api ds s
    by_reply updated e = stored_it (api.update_updated ds s e)
    by_reply conflict e = kept_it (λ u. cc) (api.update_conflict ds s e)
    by_reply failed e = elim (api.update_failed ds s e) [
      | inl same ↦ kept_it (λ u. cc) same
      | inr st ↦ stored_it st
    ]
