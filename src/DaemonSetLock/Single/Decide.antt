-- ===== src/DaemonSetLock/Single/Decide.antt =====
-- What `Acquire`, `Holding` and `Release` of the single lock decide, in terms of the value that the
-- annotation holds.
use kured.Common.{
  ℕ, ◌≤◌, ◌≡◌, refl, true, false, Option, none, some, List, Text, text_eq_iff, text_eq_refl, lookup,
  insert, lookup-insert, lookup-delete, arith, Option-cases, inl, inr,
}
use kured.DaemonSetLock.Value.{
  NodeMeta, LockAnnotationValue, ttl_expired, is_expired, DaemonSetSingleLock,
}
use kured.DaemonSetLock.Api.{DaemonSet, get_annotation, set_annotation, delete_annotation, Codec}
use kured.DaemonSetLock.Reply.{AcquireReply, LockError}
use kured.DaemonSetLock.Retry.{write, answer}
use kured.DaemonSetLock.Single.{
  new_value, store_value, claim, acquire_decide, release_decide, holding_daemon_set,
}

-- A lock that has expired stays so.
pub is_expired_mono :
    (a b : ℕ) (v : LockAnnotationValue) → a ≤ b → is_expired a v ≡ true → is_expired b v ≡ true
unfolding ttl_expired
is_expired_mono a b v h e = ground arith

pub get_annotation-set :
    (key text : Text) (m : Option (List (Text × Text)))
    → get_annotation key (set_annotation key text m) ≡ some text
unfolding lookup insert
get_annotation-set key text none = ground (arith, text_eq_refl key)
get_annotation-set key text (some m) =
    ground (arith, lookup-insert key key text m, text_eq_refl key)

pub get_annotation-delete :
    (key : Text) (m : Option (List (Text × Text)))
    → get_annotation key (delete_annotation key m) ≡ none
get_annotation-delete key none = refl
get_annotation-delete key (some m) = ground (arith, lookup-delete key key m, text_eq_refl key)

module _ (codec : Codec LockAnnotationValue) where
  open codec use {unmarshal, marshal}

  abbrev pub decode : Option Text → Option LockAnnotationValue
  decode none = none
  decode (some text) = unmarshal text

  -- The lock that a DaemonSet's annotation holds: `none` if there is none, or no readable one.
  abbrev pub held : Text → Option (List (Text × Text)) → Option LockAnnotationValue
  held key m = decode (get_annotation key m)

module _ (codec : Codec LockAnnotationValue) (dsl : DaemonSetSingleLock) where
  open codec use {unmarshal, marshal, unmarshal-marshal}

  store_value-write :
      (ds ds' : DaemonSet) (r : AcquireReply) (o : Option Text)
      → store_value codec dsl ds o ≡ write ds' r
      → (text : Text) × (o ≡ some text)
        × (ds' ≡ record ds { annotations = set_annotation dsl.annotation text ds.annotations })
  store_value-write ds ds' r none e = cc
  store_value-write ds ds' r (some text) e = (text, refl, ground arith)

  acquire_decide-claim :
      (meta : NodeMeta) (now : ℕ) (ds ds' : DaemonSet) (r : AcquireReply)
      → acquire_decide codec dsl meta now ds ≡ write ds' r
      → claim codec dsl meta now ds ≡ write ds' r
  unfolding acquire_decide
  acquire_decide-claim meta now ds ds' r e = ground arith

  -- `Acquire` writes over no lock but an expired one, and what it writes is the node's own.
  pub acquire_decide-write :
      (meta : NodeMeta) (now : ℕ) (ds ds' : DaemonSet) (r : AcquireReply)
      → acquire_decide codec dsl meta now ds ≡ write ds' r
      → (ds'.version ≡ ds.version)
        × (held codec dsl.annotation ds'.annotations ≡ some (new_value codec dsl meta now))
        × ((w : LockAnnotationValue)
            → held codec dsl.annotation ds.annotations ≡ some w
            → is_expired now w ≡ true)
  unfolding acquire_decide
  acquire_decide-write meta now ds ds' r e =
      let (text, marshalled, stored) =
        store_value-write ds ds' r _ (acquire_decide-claim meta now ds ds' r e) in
      (
        ground arith,
        ground (
          arith,
          get_annotation-set dsl.annotation text ds.annotations,
          unmarshal-marshal (new_value codec dsl meta now) text,
        ),
        λ w h. ground arith,
      )

  -- Without a write it returns true only if the node's own lock is held and has not expired.
  pub acquire_decide-answer :
      (meta : NodeMeta) (now : ℕ) (ds : DaemonSet) (r : AcquireReply)
      → acquire_decide codec dsl meta now ds ≡ answer r
      → r.acquired ≡ true
      → (w : LockAnnotationValue) × (held codec dsl.annotation ds.annotations ≡ some w)
        × (w.node_id ≡ dsl.node_id)
        × (is_expired now w ≡ false)
  unfolding acquire_decide
  acquire_decide-answer meta now ds r e a =
      elim (Option-cases (held codec dsl.annotation ds.annotations)) [
        | inl free ↦ absurd (ground arith)
        | inr (w, h) ↦ (w, h, ground (arith, text_eq_iff w.node_id dsl.node_id), ground arith)
      ]

  -- `Holding` is true exactly for a lock of the node that has not expired, and returns it.
  pub holding_daemon_set-true :
      (now : ℕ) (ds : DaemonSet)
      → (holding_daemon_set codec dsl now (some ds)).holding ≡ true
      → (held codec dsl.annotation ds.annotations
          ≡ some (holding_daemon_set codec dsl now (some ds)).data_)
        × ((holding_daemon_set codec dsl now (some ds)).data_.node_id ≡ dsl.node_id)
        × (is_expired now (holding_daemon_set codec dsl now (some ds)).data_ ≡ false)
  holding_daemon_set-true now ds h =
      elim (Option-cases (held codec dsl.annotation ds.annotations)) [
        | inl free ↦ absurd (ground arith)
        | inr (w, e) ↦ ground (arith, text_eq_iff w.node_id dsl.node_id)
      ]

  -- `Release` removes no lock but the node's own.
  pub release_decide-write :
      (now : ℕ) (ds ds' : DaemonSet) (r : Option LockError)
      → release_decide codec dsl now ds ≡ write ds' r
      → (ds'.version ≡ ds.version)
        × (held codec dsl.annotation ds'.annotations ≡ none)
        × ((w : LockAnnotationValue)
            → held codec dsl.annotation ds.annotations ≡ some w
            → w.node_id ≡ dsl.node_id)
  unfolding release_decide
  release_decide-write now ds ds' r e = (
    ground arith,
    ground (arith, get_annotation-delete dsl.annotation ds.annotations),
    λ w h. ground (arith, text_eq_iff w.node_id dsl.node_id),
  )
