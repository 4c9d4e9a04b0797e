-- ===== src/Kamatera/Watcher/Steps/Protocol.antt =====
-- The steps of internal/kamatera/watcher.go follow the protocol of every waiter.
use kamatera_autoscaler.Base.{
  ℕ, ℤ, ltb_ℤ, eqb, false, String, ◌==◌, List, [], ◌∷◌, none, some, err, ◌≡◌, refl, arith, subst,
  inl, inr, Bool-cases,
}
use kamatera_autoscaler.Base.Dict.{lookup, lookup-insert, lookup-erase}
use kamatera_autoscaler.Kamatera.Watcher.{
  PendingCmd, WaitResult, Watcher, Wait, cancel, register, deliver_one, deliver, timeout_error,
  expire_deadlines, has_none, finish_pass, new_cmd_watcher,
}
use kamatera_autoscaler.Kamatera.Watcher.Tick.{tick_completions}
use kamatera_autoscaler.Kamatera.Watcher.Steps.{
  System, Step, Reach, registers, cancels, snapshots, delivers, expires, finishes, start, next,
}
use kamatera_autoscaler.Kamatera.Watcher.Steps.Sound.{
  IsSound, new_cmd, registered, register_cases, sent_to, deliver_one_cases, deliver_one-IsSound,
  Reach-IsSound,
}
use kamatera_autoscaler.Kamatera.Watcher.Steps.Waiters.{
  Status, unregistered, waiting, abandoned, answered, Leads, HasStatus, sent, Unsent-sent, Answers,
  Answers-refl, Answers-trans, Answers-Leads, HasStatus-unique,
}

-- The status behind a step, for one in front of it.
abbrev Follows : (Status → Status → Type 0) → Watcher → Watcher → Type 0
Follows R v w = (c : ℕ) (x : Status) → HasStatus v c x → (y : Status) × HasStatus w c y × R x y

sent_to-Follows :
    (cur : PendingCmd) (d : PendingCmd × WaitResult) (w : Watcher)
    → lookup d.0.command_id w.pending ≡ some cur
    → IsSound w
    → Follows Answers w (sent_to cur d w)
unfolding sent
sent_to-Follows cur (p, r) w e v c unregistered h = (unregistered, h, refl)
sent_to-Follows cur (p, r) w e v c waiting (k, q, f, g) = elim (Bool-cases (p.command_id == k)) [
  | inl same ↦ (
    answered r,
    ground (arith, v.below k q f, lookup-erase p.command_id k w.pending),
    inr (r, refl),
  )
  | inr other ↦
      (waiting, (k, q, ground (arith, lookup-erase p.command_id k w.pending), g), inl refl)
]
sent_to-Follows cur (p, r) w e v c abandoned (below, unsent, none_waits) = (
  abandoned,
  (
    below,
    ground (arith, none_waits p.command_id cur e),
    λ k q f. none_waits k q (ground (arith, lookup-erase p.command_id k w.pending)),
  ),
  refl,
)
sent_to-Follows cur (p, r) w e v c (answered a) (below, got) = (
  answered a,
  (below, ground (arith, Unsent-sent cur.channel w.delivered (v.open_channels p.command_id cur e))),
  refl,
)

deliver_one-Follows :
    (d : PendingCmd × WaitResult) (w : Watcher) → IsSound w → Follows Answers w (deliver_one d w)
deliver_one-Follows d w v c x h = elim (deliver_one_cases d w) [
  | inl e ↦ rw e (x, h, Answers-refl x)
  | inr (cur, found, same, e) ↦ rw e (sent_to-Follows cur d w found v c x h)
]

Follows-trans : (u v w : Watcher) → Follows Answers u v → Follows Answers v w → Follows Answers u w
Follows-trans u v w f g c x h =
    let (y, hy, a) = f c x h in let (z, hz, b) = g c y hy in (z, hz, Answers-trans x y z a b)

deliver-Follows :
    (ds : List (PendingCmd × WaitResult)) (w : Watcher)
    → IsSound w
    → Follows Answers w (deliver ds w)
unfolding deliver
deliver-Follows [] w v = λ c x h. (x, h, Answers-refl x)
deliver-Follows (d ∷ ds) w v =
    Follows-trans w (deliver_one d w) (deliver ds (deliver_one d w)) (deliver_one-Follows d w v)
      (deliver-Follows ds (deliver_one d w) (deliver_one-IsSound d w v))

expire_deadlines-Follows :
    (ps : List PendingCmd) (now : ℤ) (w : Watcher)
    → IsSound w
    → Follows Answers w (expire_deadlines ps now w)
unfolding expire_deadlines
expire_deadlines-Follows [] now w v = λ c x h. (x, h, Answers-refl x)
expire_deadlines-Follows (p ∷ ps) now w v = elim (Bool-cases (ltb_ℤ p.deadline now)) [
  | inl late ↦
      let d : PendingCmd × WaitResult = (p, err (timeout_error p)) in
      rw late (
        Follows-trans w (deliver_one d w) (expire_deadlines ps now (deliver_one d w))
          (deliver_one-Follows d w v)
          (expire_deadlines-Follows ps now (deliver_one d w) (deliver_one-IsSound d w v)))
  | inr early ↦ rw early (expire_deadlines-Follows ps now w v)
]

Leads-refl : (x : Status) → Leads x x
Leads-refl x = Answers-Leads x x (Answers-refl x)

registered-Follows :
    (wait : Wait) (w : Watcher)
    → lookup wait.command_id w.pending ≡ none
    → Follows Leads w (registered wait w)
registered-Follows wait w free c unregistered h = elim (Bool-cases (eqb c w.channels)) [
  | inl same ↦ (
    waiting,
    (
      wait.command_id,
      new_cmd wait w,
      ground (arith, lookup-insert wait.command_id wait.command_id (new_cmd wait w) w.pending),
      ground arith,
    ),
    inr refl,
  )
  | inr other ↦ (unregistered, ground arith, inl refl)
]
registered-Follows wait w free c waiting (k, p, e, same) = (
  waiting,
  (k, p, ground (arith, lookup-insert wait.command_id k (new_cmd wait w) w.pending), same),
  ground arith,
)
registered-Follows wait w free c abandoned (below, unsent, none_waits) = (
  abandoned,
  (
    omega arith,
    unsent,
    λ k p e.
        ground (arith, none_waits k p, lookup-insert wait.command_id k (new_cmd wait w) w.pending),
  ),
  refl,
)
registered-Follows wait w free c (answered r) (below, got) = (answered r, (omega arith, got), refl)

register-Follows : (wait : Wait) (w : Watcher) → Follows Leads w (register wait w).1
register-Follows wait w c x h = elim (register_cases wait w) [
  | inl e ↦ rw e (x, h, Leads-refl x)
  | inr (free, e) ↦ rw e (registered-Follows wait w free c x h)
]

cancel-Follows : (id : String) (w : Watcher) → IsSound w → Follows Leads w (cancel id w)
unfolding cancel
cancel-Follows id w v c unregistered h = (unregistered, h, inl refl)
cancel-Follows id w v c waiting (k, p, e, same) = elim (Bool-cases (id == k)) [
  | inl own ↦ (
    abandoned,
    (
      ground (arith, v.below k p e),
      ground (arith, Unsent-sent p.channel w.delivered (v.open_channels k p e)),
      λ j q f other. ground (arith, lookup-erase id j w.pending, v.distinct j k q p),
    ),
    ground arith,
  )
  | inr other ↦ (waiting, (k, p, ground (arith, lookup-erase id k w.pending), same), ground arith)
]
cancel-Follows id w v c abandoned (below, unsent, none_waits) = (
  abandoned,
  (below, unsent, λ k p e. none_waits k p (ground (arith, lookup-erase id k w.pending))),
  refl,
)
cancel-Follows id w v c (answered r) h = (answered r, h, refl)

with_running :
    (w : Watcher) (c : ℕ) (x : Status)
    → HasStatus w c x
    → HasStatus (record w { running = false }) c x
with_running w c unregistered h = h
with_running w c waiting h = h
with_running w c abandoned h = h
with_running w c (answered r) h = h

finish_pass-Follows : (w : Watcher) → Follows Leads w (finish_pass w)
unfolding finish_pass
finish_pass-Follows w c x h = elim (Bool-cases (has_none w.pending)) [
  | inl e ↦ rw e (x, with_running w c x h, Leads-refl x)
  | inr e ↦ rw e (x, h, Leads-refl x)
]

Follows-Leads : (v w : Watcher) → Follows Answers v w → Follows Leads v w
Follows-Leads v w f c x h = let (y, g, a) = f c x h in (y, g, Answers-Leads x y a)

-- Every step of the watcher is, for the waiter on any channel, a step of the protocol: from the status
-- that it has to one that the protocol allows behind it.
pub Step-Leads :
    {s t : System} (c : ℕ) (x : Status)
    → Reach s
    → Step s t
    → HasStatus s.watcher c x
    → (y : Status) × HasStatus t.watcher c y × Leads x y
Step-Leads {s} c x r (registers wait e) h = rw e (register-Follows wait s.watcher c x h)
Step-Leads {s} c x r (cancels id e) h = rw e (cancel-Follows id s.watcher (Reach-IsSound r) c x h)
Step-Leads c x r (snapshots ps rest g p e) h = rw e (x, h, Leads-refl x)
Step-Leads {s} c x r (delivers ps queue now answer p e) h =
    let ds = tick_completions queue now answer ps in
    rw e (
      Follows-Leads s.watcher (deliver ds s.watcher)
        (deliver-Follows ds s.watcher (Reach-IsSound r)) c x h)
Step-Leads {s} c x r (expires ps now p e) h = rw e (
    Follows-Leads s.watcher (expire_deadlines ps now s.watcher)
      (expire_deadlines-Follows ps now s.watcher (Reach-IsSound r)) c x h)
Step-Leads {s} c x r (finishes p e) h = rw e (finish_pass-Follows s.watcher c x h)

-- In every state that is reached, the waiter on any channel has a status.
Reach-HasStatus : {s : System} (c : ℕ) → Reach s → (x : Status) × HasStatus s.watcher c x
unfolding new_cmd_watcher
Reach-HasStatus c (start s e) = rw e (unregistered, ground arith)
Reach-HasStatus c (next r st) =
    let (x, h) = Reach-HasStatus c r in let (y, g, leads) = Step-Leads c x r st h in (y, g)

-- The statuses around a step, which are the only ones, are as the protocol allows.
statuses-Leads :
    {s t : System} (c : ℕ) (x y : Status)
    → Reach s
    → Step s t
    → HasStatus s.watcher c x
    → HasStatus t.watcher c y
    → Leads x y
statuses-Leads {s} {t} c x y r st h g =
    let (z, k, leads) = Step-Leads c x r st h in
    subst (Leads x) (HasStatus-unique t.watcher c z y (Reach-IsSound (next r st)) k g) leads
