-- ===== src/Main/Fleet/Inv.antt =====
-- The invariant of the nodes of Main/Fleet: a tick keeps its rules, and one that has the lock is that of
-- an owner.
use kured.Common.{
  ℕ, ◌≡◌, ◌≢◌, refl, sym, subst, ◌∙◌, inl, inr, Bool, true, false, Text, text_eq, text_eq_iff,
  text_eq_refl, arith, Bool-cases,
}
use kured.DaemonSetLock.Value.{LockAnnotationValue}
use kured.DaemonSetLock.Api.{ApiServer}
use kured.DaemonSetLock.Cluster.{Pc, idle, owner, leaving, set_pc, Discipline, System, Reach, later}
use kured.Kube.{
  Call, Reply, lock_holding, lock_acquire, lock_release, cordon_or_uncordon, drain_node, reboot,
  time_now, reboot_required, is_blocked,
}
use kured.Kube.Program.{Program, call}
use kured.Kube.Trace.{Keeps, watch}
use kured.Taints.{Taint}
use kured.Main.Flags.{Flags}
use kured.Main.Status.{Status, observe, tick_monitor, GoesOn}
use kured.Main.Safety.{reboot_tick-Keeps}
use kured.Main.Fleet.{
  Tick, set_tick, is_lock_call, Fleet, begin, go_on, FleetStep, inside, other_call, holds,
  holds_not, acquires, acquires_not, releases, next_tick, starts_again, FleetReach, begun, stepped,
}

disagree : {b : Bool} → b ≡ true → b ≡ false → ⊥
disagree e e' = cc

-- Only the calls of the lock say whether it is held, and whether it was to be released.
observe-locked :
    (f : Flags) (contains : ℕ → Bool) (s : Status) (c : Call) (r : Reply c)
    → is_lock_call c ≡ false
    → (observe f contains s c r).locked ≡ true
    → (observe f contains s c r).release_tried ≡ false
    → (s.locked ≡ true) × (s.release_tried ≡ false)
observe-locked f contains s lock_holding r e h u = absurd (ground arith)
observe-locked f contains s (lock_acquire m) r e h u = absurd (ground arith)
observe-locked f contains s lock_release r e h u = absurd (ground arith)
observe-locked f contains s time_now r e h u = absurd (ground arith)
observe-locked f contains s reboot_required r e h u = (h, u)
observe-locked f contains s (is_blocked k) r e h u = (h, u)
observe-locked f contains s (cordon_or_uncordon n true) r e h u = (h, u)
observe-locked f contains s (cordon_or_uncordon n false) r e h u = (h, u)
observe-locked f contains s (drain_node i) r e h u = (h, u)
observe-locked f contains s reboot r e h u = (h, u)
observe-locked f contains s _ r e h u = (h, u)

module _ (api : ApiServer) (lock : Discipline) where
  module _ (flags : Text → Flags) (contains : Text → ℕ → Bool) where
    -- What the calls of a tick have shown.
    abbrev pub seen : Text → Tick → Status
    seen i t = watch (tick_monitor (flags i) (contains i)) t.made

    -- What is left of a tick keeps the rules, and if the tick has the lock, and has not tried to release
    -- it, then the node is an owner.
    pub record Fits (i : Text) (t : Tick) (p : Pc) : Type 0 where
      pub keeps :
          Keeps
            (tick_monitor (flags i) (contains i))
            (GoesOn (flags i) (contains i))
            (seen i t)
            t.left
      pub owns :
          (seen i t).locked ≡ true
          → (seen i t).release_tried ≡ false
          → (v : LockAnnotationValue) × (p ≡ owner v)

    begin-Fits : (i : Text) (t : Taint) (p : Pc) → Fits i (begin api lock flags contains i t) p
    begin-Fits i t p = record {
      keeps = reboot_tick-Keeps (flags i) (contains i) t;
      owns = λ e k. absurd (ground arith);
    }

    go_on-Fits :
        (i : Text) (t : Tick) (p p' : Pc) (c : Call) (r : Reply c) (k : Reply c → Program Taint)
        → Fits i t p
        → t.left ≡ call c k
        → ((observe (flags i) (contains i) (seen i t) c r).locked ≡ true
            → (observe (flags i) (contains i) (seen i t) c r).release_tried ≡ false
            → (v : LockAnnotationValue) × (p' ≡ owner v))
        → Fits i (go_on api lock flags contains t c r k) p'
    go_on-Fits i t p p' c r k fits at owns = record {
      keeps =
          (subst
              (Keeps (tick_monitor (flags i) (contains i)) (GoesOn (flags i) (contains i))
                (seen i t))
              at fits.keeps).1
            r;
      owns = owns;
    }

    pub record Inv (s : Fleet api lock flags contains) : Type 0 where
      pub reach : Reach api lock s.locks
      pub fits : (i : Text) → Fits i (s.tick i) (s.locks.pc i)

    -- A step of node `i`.
    set_tick-Fits :
        (tick : Text → Tick) (pc : Text → Pc) (i : Text) (t : Tick)
        → ((j : Text) → i ≢ j → Fits j (tick j) (pc j))
        → Fits i t (pc i)
        → (j : Text) → Fits j (set_tick tick i t j) (pc j)
    set_tick-Fits tick pc i t others own j = elim (Bool-cases (text_eq i j)) [
      | inl e ↦ rw e (subst (λ x. Fits x t (pc x)) ((text_eq_iff i j).0 e) own)
      | inr e ↦ rw e (others j (λ same. ground (arith, text_eq_iff i j)))
    ]

    -- A step of node `i` that leaves the lock alone.
    call-Inv :
        (s : Fleet api lock flags contains) (i : Text) (t : Tick)
        → Inv s
        → Fits i t (s.locks.pc i)
        → Inv (record s { tick = set_tick s.tick i t })
    call-Inv s i t inv own = record {
      reach = inv.reach;
      fits = set_tick-Fits s.tick s.locks.pc i t (λ j ne. inv.fits j) own;
    }

    -- A step of node `i` in which the lock puts it, and no other node, at `p`.
    move-Inv :
        (s : Fleet api lock flags contains) (locks : System api lock) (i : Text) (p : Pc) (t : Tick)
        → Inv s
        → Reach api lock locks
        → ((j : Text) → locks.pc j ≡ set_pc s.locks.pc i p j)
        → Fits i t p
        → Inv (record { locks = locks; tick = set_tick s.tick i t })
    move-Inv s locks i p t inv reach pcs own = record {
      reach = reach;
      fits =
          set_tick-Fits s.tick locks.pc i t
            (λ j ne. subst (Fits j (s.tick j)) (sym (pcs j ∙ other j ne)) (inv.fits j))
            (subst (Fits i t) (sym (pcs i ∙ here)) own);
    }
      where
        here : set_pc s.locks.pc i p i ≡ p
        here = simp (text_eq_refl i)

        other : (j : Text) → i ≢ j → set_pc s.locks.pc i p j ≡ s.locks.pc j
        other j ne = ground (arith, text_eq_iff i j)

    FleetStep-Inv :
        {s t : Fleet api lock flags contains}
        → FleetStep api lock flags contains s t
        → Inv s
        → Inv t
    FleetStep-Inv {s} (inside {t = t} step kept) inv = record {
      reach = later inv.reach step;
      fits = λ i. record {
        keeps = (inv.fits i).keeps;
        owns = λ e k. let (v, at) = (inv.fits i).owns e k in (v, kept i v at);
      };
    }
    FleetStep-Inv {s} (other_call i c r {k = k} at other) inv = call-Inv s i _ inv (
        go_on-Fits i (s.tick i) (s.locks.pc i) (s.locks.pc i) c r k (inv.fits i) at (λ e kept.
          let (locked, untried) =
            observe-locked (flags i) (contains i) (seen i (s.tick i)) c r other e kept in
          (inv.fits i).owns locked untried))
    FleetStep-Inv {s} (holds i r {v = v} {k = k} at owned) inv = call-Inv s i _ inv (
        go_on-Fits i (s.tick i) (s.locks.pc i) (s.locks.pc i) lock_holding r k (inv.fits i) at
          (λ e kept. (v, owned)))
    FleetStep-Inv {s} (holds_not i r {k = k} at refused) inv = call-Inv s i _ inv (
        go_on-Fits i (s.tick i) (s.locks.pc i) (s.locks.pc i) lock_holding r k (inv.fits i) at
          (λ e kept. absurd (disagree e refused)))
    FleetStep-Inv {s} (acquires i m r {v = v} {k = k} at owned) inv = call-Inv s i _ inv (
        go_on-Fits i (s.tick i) (s.locks.pc i) (s.locks.pc i) (lock_acquire m) r k (inv.fits i) at
          (λ e kept. (v, owned)))
    FleetStep-Inv {s} (acquires_not i m r {k = k} at refused) inv = call-Inv s i _ inv (
        go_on-Fits i (s.tick i) (s.locks.pc i) (s.locks.pc i) (lock_acquire m) r k (inv.fits i) at
          (λ e kept. absurd (disagree e refused)))
    FleetStep-Inv {s} (releases i r {t = t} {k = k} at step pcs) inv =
        move-Inv s t i leaving _ inv (later inv.reach step) pcs (
          go_on-Fits i (s.tick i) (s.locks.pc i) leaving lock_release r k (inv.fits i) at
            (λ e kept. absurd (disagree refl kept)))
    FleetStep-Inv {s} (next_tick i t at) inv = call-Inv s i _ inv (begin-Fits i t (s.locks.pc i))
    FleetStep-Inv {s} (starts_again i t {s' = s'} step pcs) inv =
        move-Inv s s' i idle _ inv (later inv.reach step) pcs (begin-Fits i t idle)

    pub FleetReach-Inv :
        {s : Fleet api lock flags contains} → FleetReach api lock flags contains s → Inv s
    FleetReach-Inv (begun {s = s} taint r) = record {
      reach = r;
      fits = λ i. begin-Fits i (taint i) (s.pc i);
    }
    FleetReach-Inv (stepped r step) = FleetStep-Inv step (FleetReach-Inv r)
