-- ===== src/Kamatera/Watcher/Steps/Sound.antt =====
-- The channels of internal/kamatera/watcher.go, whatever the order of the steps.

use kamatera_autoscaler.Base.{
  ℕ, suc, ◌<◌, ℤ, ltb_ℤ, eqb, true, String, ◌==◌, List, [], ◌∷◌, All, All-imp, none, some, err, ◌≡◌,
  ◌≢◌, subst, arith, ◌⊎◌, inl, inr, Bool-cases, Option-cases,
}
use kamatera_autoscaler.Base.Dict.{lookup, insert, erase, lookup-insert, lookup-erase}
use kamatera_autoscaler.Kamatera.Watcher.{
  PendingCmd, WaitResult, Watcher, Wait, new_cmd_watcher, register, cancel, deliver_one, deliver,
  timeout_error, expire_deadlines, has_none, finish_pass,
}
use kamatera_autoscaler.Kamatera.Watcher.Tick.{tick_completions}
use kamatera_autoscaler.Kamatera.Watcher.Steps.{
  System, Step, Reach, registers, cancels, snapshots, delivers, expires, finishes, start, next,
}

-- No channel of the log is the given one.
abbrev pub Unsent : ℕ → List (ℕ × WaitResult) → Type 0
Unsent c = All (λ (d, _). d ≢ c)

-- The log names no channel twice.
abbrev pub SentOnce : List (ℕ × WaitResult) → Type 0
SentOnce [] = Unit
SentOnce ((c, _) ∷ log) = Unsent c log × SentOnce log

pub record IsSound (w : Watcher) : Type 0 where
  pub below : (k : String) (p : PendingCmd) → lookup k w.pending ≡ some p → p.channel < w.channels
  pub distinct :
      (j k : String) (p q : PendingCmd)
      → lookup j w.pending ≡ some p
      → lookup k w.pending ≡ some q
      → p.channel ≡ q.channel
      → j ≡ k
  pub sent_below : All (λ (c, _). c < w.channels) w.delivered
  pub open_channels :
      (k : String) (p : PendingCmd) → lookup k w.pending ≡ some p → Unsent p.channel w.delivered
  pub once : SentOnce w.delivered

Unsent-above : (n : ℕ) (log : List (ℕ × WaitResult)) → All (λ (c, _). c < n) log → Unsent n log
Unsent-above n log h = All-imp log (λ (c, _) l e. omega arith) h

Below_suc :
    (n : ℕ) (log : List (ℕ × WaitResult))
    → All (λ (c, _). c < n) log
    → All (λ (c, _). c < suc n) log
Below_suc n log h = All-imp log (λ (c, _) l. omega arith) h

cancel-IsSound : (id : String) (w : Watcher) → IsSound w → IsSound (cancel id w)
unfolding cancel
cancel-IsSound id w v = record {
  below = λ k p e. v.below k p (ground (arith, lookup-erase id k w.pending));
  distinct = λ j k p q e f.
      v.distinct j k p q (ground (arith, lookup-erase id j w.pending))
        (ground (arith, lookup-erase id k w.pending));
  sent_below = v.sent_below;
  open_channels = λ k p e. v.open_channels k p (ground (arith, lookup-erase id k w.pending));
  once = v.once;
}

abbrev pub new_cmd : Wait → Watcher → PendingCmd
new_cmd wait w = record {
  command_id = wait.command_id;
  enrich_name = wait.enrich_name;
  channel = w.channels;
  deadline = wait.deadline;
}

abbrev pub registered : Wait → Watcher → Watcher
registered wait w = record w {
  pending = insert wait.command_id (new_cmd wait w) w.pending;
  running = true;
  channels = suc w.channels;
}

pub register_cases :
    (wait : Wait) (w : Watcher)
    → ((register wait w).1 ≡ w)
      ⊎ ((lookup wait.command_id w.pending ≡ none) × ((register wait w).1 ≡ registered wait w))
unfolding register
register_cases wait w = ground arith

pub registered-IsSound :
    (wait : Wait) (w : Watcher)
    → lookup wait.command_id w.pending ≡ none
    → IsSound w
    → IsSound (registered wait w)
registered-IsSound wait w free v =
    let found = λ (k : String). lookup-insert wait.command_id k (new_cmd wait w) w.pending in
    record {
      below = λ k p e. ground (arith, found k, v.below k p);
      distinct = λ j k p q e f same.
          ground (arith, found j, found k, v.below j p, v.below k q, v.distinct j k p q);
      sent_below = Below_suc w.channels w.delivered v.sent_below;
      open_channels = λ k p e. elim (Bool-cases (wait.command_id == k)) [
        | inl new ↦
            subst (λ c. Unsent c w.delivered) (ground (arith, found k))
              (Unsent-above w.channels w.delivered v.sent_below)
        | inr old ↦ v.open_channels k p (ground (arith, found k))
      ];
      once = v.once;
    }

register-IsSound : (wait : Wait) (w : Watcher) → IsSound w → IsSound (register wait w).1
register-IsSound wait w v = elim (register_cases wait w) [
  | inl e ↦ rw e v
  | inr (free, e) ↦ rw e (registered-IsSound wait w free v)
]

-- A delivery sends on the channel of the command, where that is still pending under its pointer.
abbrev pub sent_to : PendingCmd → PendingCmd × WaitResult → Watcher → Watcher
sent_to cur (p, r) w = record w {
  pending = erase p.command_id w.pending;
  delivered = (cur.channel, r) ∷ w.delivered;
}

pub deliver_one_cases :
    (c : PendingCmd × WaitResult) (w : Watcher)
    → (deliver_one c w ≡ w)
      ⊎ ((cur : PendingCmd) × (lookup c.0.command_id w.pending ≡ some cur)
          × (cur.channel ≡ c.0.channel)
          × (deliver_one c w ≡ sent_to cur c w))
unfolding deliver_one
deliver_one_cases (p, r) w = elim (Option-cases (lookup p.command_id w.pending)) [
  | inl gone ↦ inl (ground arith)
  | inr (cur, e) ↦ elim (Bool-cases (eqb cur.channel p.channel)) [
    | inl same ↦ inr (cur, e, ground arith, ground arith)
    | inr other ↦ inl (ground arith)
  ]
]

pub sent_to-IsSound :
    (cur : PendingCmd) (c : PendingCmd × WaitResult) (w : Watcher)
    → lookup c.0.command_id w.pending ≡ some cur
    → IsSound w
    → IsSound (sent_to cur c w)
sent_to-IsSound cur (p, r) w e v =
    let id = p.command_id in
    let left = λ (k : String). lookup-erase id k w.pending in
    record {
      below = λ k q f. v.below k q (ground (arith, left k));
      distinct =
          λ j k a b f g. v.distinct j k a b (ground (arith, left j)) (ground (arith, left k));
      sent_below = (v.below id cur e, v.sent_below);
      open_channels = λ k q f. (
        λ same. ground (arith, left k, v.distinct id k cur q e),
        v.open_channels k q (ground (arith, left k)),
      );
      once = (v.open_channels id cur e, v.once);
    }

pub deliver_one-IsSound :
    (c : PendingCmd × WaitResult) (w : Watcher) → IsSound w → IsSound (deliver_one c w)
deliver_one-IsSound c w v = elim (deliver_one_cases c w) [
  | inl e ↦ rw e v
  | inr (cur, found, same, e) ↦ rw e (sent_to-IsSound cur c w found v)
]

pub deliver-IsSound :
    (cs : List (PendingCmd × WaitResult)) (w : Watcher) → IsSound w → IsSound (deliver cs w)
unfolding deliver
deliver-IsSound [] w v = v
deliver-IsSound (c ∷ cs) w v = deliver-IsSound cs (deliver_one c w) (deliver_one-IsSound c w v)

expire_deadlines-IsSound :
    (ps : List PendingCmd) (now : ℤ) (w : Watcher) → IsSound w → IsSound (expire_deadlines ps now w)
unfolding expire_deadlines
expire_deadlines-IsSound [] now w v = v
expire_deadlines-IsSound (p ∷ ps) now w v = elim (Bool-cases (ltb_ℤ p.deadline now)) [
  | inl late ↦
      rw late
        (expire_deadlines-IsSound ps now _ (deliver_one-IsSound (p, err (timeout_error p)) w v))
  | inr early ↦ rw early (expire_deadlines-IsSound ps now w v)
]

finish_pass-IsSound : (w : Watcher) → IsSound w → IsSound (finish_pass w)
unfolding finish_pass
finish_pass-IsSound w v = elim (Bool-cases (has_none w.pending)) [
  | inl e ↦ rw e (record {
    below = v.below;
    distinct = v.distinct;
    sent_below = v.sent_below;
    open_channels = v.open_channels;
    once = v.once;
  })
  | inr e ↦ rw e v
]

Step-IsSound : {s t : System} → Step s t → IsSound s.watcher → IsSound t.watcher
Step-IsSound {s} (registers wait e) v = rw e (register-IsSound wait s.watcher v)
Step-IsSound {s} (cancels id e) v = rw e (cancel-IsSound id s.watcher v)
Step-IsSound (snapshots ps r g p e) v = rw e v
Step-IsSound {s} (delivers ps queue now answer p e) v =
    rw e (deliver-IsSound (tick_completions queue now answer ps) s.watcher v)
Step-IsSound {s} (expires ps now p e) v = rw e (expire_deadlines-IsSound ps now s.watcher v)
Step-IsSound {s} (finishes p e) v = rw e (finish_pass-IsSound s.watcher v)

new_cmd_watcher-IsSound : IsSound new_cmd_watcher
unfolding new_cmd_watcher lookup
new_cmd_watcher-IsSound = record {
  below = λ k p e. cc;
  distinct = λ j k p q e f same. cc;
  sent_below = tt;
  open_channels = λ k p e. cc;
  once = tt;
}

-- In every state that steps of waiters, contexts and the goroutine reach, in any order, the pending
-- commands have channels of their own on which nothing was sent, and no channel was sent on twice.
pub Reach-IsSound : {s : System} → Reach s → IsSound s.watcher
Reach-IsSound (start s e) = rw e new_cmd_watcher-IsSound
Reach-IsSound (next r st) = Step-IsSound st (Reach-IsSound r)
