-- ===== src/DaemonSetLock/Multi/Space.antt =====
-- `canAcquireMultiple` of pkg/daemonsetlock/daemonsetlock.go against its description.
use kured.Common.{
  ℕ, suc, ◌≤◌, ◌<◌, ◌≡◌, ◌⊎◌, inl, inr, refl, sym, Bool, true, false, ◌||◌, Option, none, some,
  List, [], ◌∷◌, ◌++◌, length, length-append, ℤ, pos, less_than_int, is_none, if◌then◌else◌, arith,
  Bool-cases,
}
use mathlib.Core.List.{append_assoc, append-nil}
use kured.DaemonSetLock.Value.{
  NodeMeta, LockAnnotationValue, MultiLockAnnotationValue, no_multi_lock, elements, is_expired,
  DaemonSetLock,
}
use kured.DaemonSetLock.Multi.{drop_expired, can_acquire_multiple, append_lock}
use kured.DaemonSetLock.Cluster.{Among}

-- The locks that have not expired, in their order.
abbrev pub live : ℕ → List LockAnnotationValue → List LockAnnotationValue
live now [] = []
live now (v ∷ vs) = if is_expired now v then live now vs else v ∷ live now vs

abbrev pub any_expired : ℕ → List LockAnnotationValue → Bool
any_expired now [] = false
any_expired now (v ∷ vs) = is_expired now v || any_expired now vs

drop_expired-free :
    (now : ℕ) (vs : List LockAnnotationValue) (free : Bool)
    (kept : Option (List LockAnnotationValue))
    → (drop_expired now vs free kept).0 ≡ any_expired now vs || free
unfolding drop_expired
drop_expired-free now [] free kept = refl
drop_expired-free now (v ∷ vs) free kept = ground (
  arith,
  drop_expired-free now vs (is_expired now v || free)
      (if is_expired now v then kept else append_lock kept v),
)

drop_expired-kept :
    (now : ℕ) (vs : List LockAnnotationValue) (free : Bool)
    (kept : Option (List LockAnnotationValue))
    → elements (drop_expired now vs free kept).1 ≡ elements kept ++ live now vs
unfolding drop_expired
drop_expired-kept now [] free kept = sym (append-nil (elements kept))
drop_expired-kept now (v ∷ vs) free kept = ground (
  arith,
  drop_expired-kept now vs (is_expired now v || free)
      (if is_expired now v then kept else append_lock kept v),
  append_assoc (elements kept) (v ∷ []) (live now vs),
)

length-live-le : (now : ℕ) (vs : List LockAnnotationValue) → length (live now vs) ≤ length vs
length-live-le now [] = omega arith
length-live-le now (v ∷ vs) = ground (arith, length-live-le now vs)

length-live-lt :
    (now : ℕ) (vs : List LockAnnotationValue)
    → any_expired now vs ≡ true
    → length (live now vs) < length vs
length-live-lt now [] e = cc
length-live-lt now (v ∷ vs) e = ground (arith, length-live-le now vs, length-live-lt now vs)

pub Among-append_left :
    (w : LockAnnotationValue) (xs ys : List LockAnnotationValue) → Among w xs → Among w (xs ++ ys)
Among-append_left w [] ys h = absurd h
Among-append_left w (x ∷ xs) ys (inl e) = inl e
Among-append_left w (x ∷ xs) ys (inr h) = inr (Among-append_left w xs ys h)

pub Among-append_right :
    (w : LockAnnotationValue) (xs ys : List LockAnnotationValue) → Among w ys → Among w (xs ++ ys)
Among-append_right w [] ys h = h
Among-append_right w (x ∷ xs) ys h = inr (Among-append_right w xs ys h)

Among-live :
    (now : ℕ) (w : LockAnnotationValue) (vs : List LockAnnotationValue)
    → Among w vs
    → Among w (live now vs) ⊎ (is_expired now w ≡ true)
Among-live now w [] h = absurd h
Among-live now w (v ∷ vs) (inl e) = elim (Bool-cases (is_expired now v)) [
  | inl x ↦ inr (ground arith)
  | inr x ↦ inl (rw x (inl e))
]
Among-live now w (v ∷ vs) (inr h) = elim (Bool-cases (is_expired now v)) [
  | inl x ↦ rw x (Among-live now w vs h)
  | inr x ↦ elim (Among-live now w vs h) [ inl k ↦ inl (rw x (inr k)) | inr k ↦ inr k ]
]

module _ (dsl : DaemonSetLock) (metadata : NodeMeta) (ttl max_owners : ℤ) (now : ℕ) where
  abbrev pub own : LockAnnotationValue
  own = record { node_id = dsl.node_id; metadata = metadata; created = now; ttl = ttl }

  -- There is room without looking at the TTLs: the nil slice, or fewer locks than owners.
  abbrev pub has_room : MultiLockAnnotationValue → Bool
  has_room a = is_none a.locks || less_than_int (length (elements a.locks)) max_owners

  -- The branches of the result: with room the node's lock goes to the end of all the others; with
  -- no room but an expired lock it goes to the end of those that have not expired; else there is no
  -- result.
  pub can_acquire_multiple_lem :
      (a : MultiLockAnnotationValue)
      → ((has_room a ≡ true)
          → (can_acquire_multiple dsl a metadata ttl max_owners now ≡ (
            true,
            record { max_owners = max_owners; locks = some (elements a.locks ++ own ∷ []) },
          )))
        × ((has_room a ≡ false)
            → any_expired now (elements a.locks) ≡ true
            → (can_acquire_multiple dsl a metadata ttl max_owners now ≡ (
              true,
              record {
                max_owners = max_owners;
                locks = some (live now (elements a.locks) ++ own ∷ []);
              },
            )))
        × ((has_room a ≡ false)
            → any_expired now (elements a.locks) ≡ false
            → (can_acquire_multiple dsl a metadata ttl max_owners now ≡ (false, no_multi_lock)))
  unfolding can_acquire_multiple
  can_acquire_multiple_lem a =
      let free = drop_expired-free now (elements a.locks) false none in
      let kept = drop_expired-kept now (elements a.locks) false none in
      (λ room. ground arith, λ full e. ground (arith, free, kept), λ full e. ground (arith, free))

  abbrev with_own : List LockAnnotationValue → Bool × MultiLockAnnotationValue
  with_own l = (true, record { max_owners = max_owners; locks = some (l ++ own ∷ []) })

  -- The result, told without the loop.
  abbrev pub expected : MultiLockAnnotationValue → Bool × MultiLockAnnotationValue
  expected a =
      if has_room a
      then with_own (elements a.locks)
      else (if any_expired now (elements a.locks)
          then with_own (live now (elements a.locks))
          else (false, no_multi_lock))

  -- `canAcquireMultiple` gives what `expected` tells: with a nil slice or fewer locks than owners, the
  -- node's lock after all the others, expired or not; with no such room but an expired lock, the
  -- node's lock after those that have not expired, in their order; else no lock and the empty value.
  pub can_acquire_multiple-expected :
      (a : MultiLockAnnotationValue)
      → can_acquire_multiple dsl a metadata ttl max_owners now ≡ expected a
  can_acquire_multiple-expected a =
      let (room, expired, full) = can_acquire_multiple_lem a in
      elim (Bool-cases (has_room a)) [
        | inl r ↦ rw r (room r)
        | inr r ↦ elim (Bool-cases (any_expired now (elements a.locks))) [
          | inl x ↦ rw (r, x) (expired r x)
          | inr x ↦ rw (r, x) (full r x)
        ]
      ]

  -- The locks that an acquired lock is added to.
  data Base (a : MultiLockAnnotationValue) : Type 0 where
    base :
        (l : List LockAnnotationValue)
        → can_acquire_multiple dsl a metadata ttl max_owners now
          ≡ (true, record { max_owners = max_owners; locks = some (l ++ own ∷ []) })
        → ((w : LockAnnotationValue)
            → Among w (elements a.locks)
            → Among w l ⊎ (is_expired now w ≡ true))
        → ((m : ℕ)
            → max_owners ≡ pos (suc m)
            → length (elements a.locks) ≤ suc m
            → length l < suc m)
        → Base a

  room-length :
      (a : MultiLockAnnotationValue) (m : ℕ)
      → has_room a ≡ true
      → max_owners ≡ pos (suc m)
      → length (elements a.locks) < suc m
  room-length a m room e = ground arith

  acquired-Base :
      (a : MultiLockAnnotationValue)
      → (can_acquire_multiple dsl a metadata ttl max_owners now).0 ≡ true
      → Base a
  acquired-Base a e =
      let (room, expired, full) = can_acquire_multiple_lem a in
      elim (Bool-cases (has_room a)) [
        | inl r ↦ base (elements a.locks) (room r) (λ w h. inl h) (λ m e' few. room-length a m r e')
        | inr r ↦ elim (Bool-cases (any_expired now (elements a.locks))) [
          | inl x ↦
              base (live now (elements a.locks)) (expired r x)
                (λ w h. Among-live now w (elements a.locks) h)
                (λ m e' few. omega (arith, length-live-lt now (elements a.locks) x))
          | inr x ↦ absurd (ground (arith, full r x))
        ]
      ]

  -- What an acquired lock leaves: never more locks than owners where there were no more before, the
  -- node's lock, and every lock of before that has not expired.
  pub can_acquire_multiple-length :
      (a : MultiLockAnnotationValue) (m : ℕ)
      → max_owners ≡ pos (suc m)
      → (can_acquire_multiple dsl a metadata ttl max_owners now).0 ≡ true
      → length (elements a.locks) ≤ suc m
      → length (elements (can_acquire_multiple dsl a metadata ttl max_owners now).1.locks) ≤ suc m
  can_acquire_multiple-length a m e acquired h = elim (acquired-Base a acquired) [
    | base l r keep few ↦ rw r (omega (arith, few m e h, length-append l (own ∷ [])))
  ]

  pub can_acquire_multiple-own :
      (a : MultiLockAnnotationValue)
      → (can_acquire_multiple dsl a metadata ttl max_owners now).0 ≡ true
      → Among own (elements (can_acquire_multiple dsl a metadata ttl max_owners now).1.locks)
  can_acquire_multiple-own a acquired = elim (acquired-Base a acquired) [
    | base l r keep few ↦ rw r (Among-append_right own l (own ∷ []) (inl refl))
  ]

  pub can_acquire_multiple-keeps :
      (a : MultiLockAnnotationValue)
      → (can_acquire_multiple dsl a metadata ttl max_owners now).0 ≡ true
      → (w : LockAnnotationValue) → Among w (elements a.locks)
      → Among w (elements (can_acquire_multiple dsl a metadata ttl max_owners now).1.locks)
        ⊎ (is_expired now w ≡ true)
  can_acquire_multiple-keeps a acquired w h = elim (acquired-Base a acquired) [
    | base l r keep few ↦ elim (keep w h) [
      | inl k ↦ inl (rw r (Among-append_left w l (own ∷ []) k))
      | inr x ↦ inr x
    ]
  ]
