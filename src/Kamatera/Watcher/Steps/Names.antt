-- ===== src/Kamatera/Watcher/Steps/Names.antt =====
-- Whose server a waiter gets (internal/kamatera/watcher.go), whatever the order of the steps.
use mathlib.Core.List.{Perm}
use kamatera_autoscaler.Base.{
  ℤ, ltb_ℤ, ltb, true, String, ◌==◌, ==_self, List, [], ◌∷◌, All, All-imp, Perm-All, some, err, ◌≡◌,
  ◌≢◌, sym, subst, arith, inl, inr, Bool-cases,
}
use kamatera_autoscaler.Base.Dict.{
  Dict, lookup, lookup-insert, lookup-erase, NodupKeys, insert-NodupKeys, erase-NodupKeys,
}
use kamatera_autoscaler.Kamatera.Watcher.{
  PendingCmd, WaitResult, Watcher, Wait, commands, cancel, register, deliver_one, deliver,
  timeout_error, expire_deadlines, finish_pass, new_cmd_watcher,
}
use kamatera_autoscaler.Kamatera.Watcher.Tick.{Completion, tick_completions}
use kamatera_autoscaler.Kamatera.Watcher.Steps.{
  System, Step, Reach, polling, resting, finishing, registers, cancels, snapshots, delivers,
  expires, finishes, start, next,
}
use kamatera_autoscaler.Kamatera.Watcher.Steps.Sound.{
  IsSound, new_cmd, registered, register_cases, sent_to, deliver_one_cases, Reach-IsSound,
}

-- A command of a snapshot is still the one that is pending on its channel, if there is one.
pub record IsKnown (w : Watcher) (p : PendingCmd) : Type 0 where
  pub below : ltb p.channel w.channels ≡ true
  pub same :
      (k : String) (cur : PendingCmd)
      → lookup k w.pending ≡ some cur
      → cur.channel ≡ p.channel
      → (cur.enrich_name == p.enrich_name) ≡ true

IsKnown-prop : (w : Watcher) (p : PendingCmd) → IsProp (IsKnown w p)
IsKnown-prop w p = hlevel

-- What holds of every pending command holds of the list of them.
commands-All :
    (P : PendingCmd → Type 0) (m : Dict PendingCmd)
    → NodupKeys m
    → ((k : String) (p : PendingCmd) → lookup k m ≡ some p → P p)
    → All P (commands m)
unfolding lookup
commands-All P [] u h = tt
commands-All P ((k, p) ∷ m) (fresh, u) h =
    (h k p (ground arith), commands-All P m u (λ j q e. h j q (ground arith)))

-- The keys of the map are single, and a snapshot is of commands that are known.
pub record IsNamed (s : System) : Type 0 where
  pub nodup : NodupKeys s.watcher.pending
  pub known : (ps : List PendingCmd) → s.phase ≡ polling ps → All (IsKnown s.watcher) ps

-- The watcher behind a step has no pending commands but those in front and one on a new channel.
record IsLater (v : Watcher) (w : Watcher) : Type 0 where
  nodup : NodupKeys v.pending → NodupKeys w.pending
  known : (p : PendingCmd) → IsKnown v p → IsKnown w p

IsLater-refl : (w : Watcher) → IsLater w w
IsLater-refl w = record { nodup = λ u. u; known = λ p k. k }

IsLater-trans : (u v w : Watcher) → IsLater u v → IsLater v w → IsLater u w
IsLater-trans u v w a b = record {
  nodup = λ n. b.nodup (a.nodup n);
  known = λ p k. b.known p (a.known p k);
}

cancel-IsLater : (id : String) (w : Watcher) → IsLater w (cancel id w)
unfolding cancel
cancel-IsLater id w = record {
  nodup = erase-NodupKeys id w.pending;
  known = λ p h. record {
    below = h.below;
    same = λ k cur e c. h.same k cur (ground (arith, lookup-erase id k w.pending)) c;
  };
}

registered-IsLater : (wait : Wait) (w : Watcher) → IsLater w (registered wait w)
registered-IsLater wait w = record {
  nodup = insert-NodupKeys wait.command_id (new_cmd wait w) w.pending;
  known = λ p h. record {
    below = ground (arith, h.below);
    same = λ k cur e c.
        ground (
          arith,
          h.below,
          h.same k cur,
          lookup-insert wait.command_id k (new_cmd wait w) w.pending,
        );
  };
}

register-IsLater : (wait : Wait) (w : Watcher) → IsLater w (register wait w).1
register-IsLater wait w = elim (register_cases wait w) [
  | inl e ↦ rw e (IsLater-refl w)
  | inr (free, e) ↦ rw e (registered-IsLater wait w)
]

sent_to-IsLater :
    (cur : PendingCmd) (d : PendingCmd × WaitResult) (w : Watcher) → IsLater w (sent_to cur d w)
sent_to-IsLater cur (p, r) w = record {
  nodup = erase-NodupKeys p.command_id w.pending;
  known = λ q h. record {
    below = h.below;
    same = λ k c e f. h.same k c (ground (arith, lookup-erase p.command_id k w.pending)) f;
  };
}

deliver_one-IsLater : (d : PendingCmd × WaitResult) (w : Watcher) → IsLater w (deliver_one d w)
deliver_one-IsLater d w = elim (deliver_one_cases d w) [
  | inl e ↦ rw e (IsLater-refl w)
  | inr (cur, found, same, e) ↦ rw e (sent_to-IsLater cur d w)
]

deliver-IsLater : (ds : List Completion) (w : Watcher) → IsLater w (deliver ds w)
unfolding deliver
deliver-IsLater [] w = IsLater-refl w
deliver-IsLater (d ∷ ds) w =
    IsLater-trans w (deliver_one d w) (deliver ds (deliver_one d w)) (deliver_one-IsLater d w)
      (deliver-IsLater ds (deliver_one d w))

expire_deadlines-IsLater :
    (ps : List PendingCmd) (now : ℤ) (w : Watcher) → IsLater w (expire_deadlines ps now w)
unfolding expire_deadlines
expire_deadlines-IsLater [] now w = IsLater-refl w
expire_deadlines-IsLater (p ∷ ps) now w = elim (Bool-cases (ltb_ℤ p.deadline now)) [
  | inl late ↦
      let d : PendingCmd × WaitResult = (p, err (timeout_error p)) in
      rw late (
        IsLater-trans w (deliver_one d w) (expire_deadlines ps now (deliver_one d w))
          (deliver_one-IsLater d w) (expire_deadlines-IsLater ps now (deliver_one d w)))
  | inr early ↦ rw early (expire_deadlines-IsLater ps now w)
]

finish_pass_pending : (w : Watcher) → (finish_pass w).pending ≡ w.pending
unfolding finish_pass
finish_pass_pending w = ground arith

snapshot-IsKnown :
    (w : Watcher) (ps : List PendingCmd)
    → IsSound w
    → NodupKeys w.pending
    → Perm ps (commands w.pending)
    → All (IsKnown w) ps
snapshot-IsKnown w ps v u perm =
    Perm-All (IsKnown w) ps (commands w.pending) (IsKnown-prop w) perm (
      commands-All (IsKnown w) w.pending u (λ j p e. record {
        below = ground (arith, v.below j p e);
        same = λ k cur f c. ground (arith, v.distinct k j cur p f e c, ==_self p.enrich_name);
      }))

-- A step that the goroutine does not take.
aside-IsNamed :
    (s : System) (w : Watcher)
    → IsLater s.watcher w
    → IsNamed s
    → IsNamed (record s { watcher = w })
aside-IsNamed s w later n = record {
  nodup = later.nodup n.nodup;
  known = λ ps e. All-imp ps later.known (n.known ps e);
}

finishing_other : {ps : List PendingCmd} → finishing ≢ polling ps
finishing_other e = cc

resting_other : {ps : List PendingCmd} → resting ≢ polling ps
resting_other e = cc

Step-IsNamed : {s t : System} → Step s t → IsSound s.watcher → IsNamed s → IsNamed t
Step-IsNamed {s} (registers wait e) v n =
    rw e (aside-IsNamed s (register wait s.watcher).1 (register-IsLater wait s.watcher) n)
Step-IsNamed {s} (cancels id e) v n =
    rw e (aside-IsNamed s (cancel id s.watcher) (cancel-IsLater id s.watcher) n)
Step-IsNamed {s} (snapshots ps r g perm e) v n = rw e (record {
  nodup = n.nodup;
  known = λ qs same. ground (arith, snapshot-IsKnown s.watcher ps v n.nodup perm);
})
Step-IsNamed {s} (delivers ps queue now answer p e) v n = rw e (record {
  nodup = (deliver-IsLater (tick_completions queue now answer ps) s.watcher).nodup n.nodup;
  known = λ qs same. absurd (finishing_other same);
})
Step-IsNamed {s} (expires ps now p e) v n = rw e (record {
  nodup = (expire_deadlines-IsLater ps now s.watcher).nodup n.nodup;
  known = λ qs same. absurd (finishing_other same);
})
Step-IsNamed {s} (finishes p e) v n = rw e (record {
  nodup = subst NodupKeys (sym (finish_pass_pending s.watcher)) n.nodup;
  known = λ qs same. absurd (resting_other same);
})

pub Reach-IsNamed : {s : System} → Reach s → IsNamed s
unfolding new_cmd_watcher
Reach-IsNamed (start s e) =
    rw e (record { nodup = tt; known = λ ps same. absurd (resting_other same) })
Reach-IsNamed (next r st) = Step-IsNamed st (Reach-IsSound r) (Reach-IsNamed r)
