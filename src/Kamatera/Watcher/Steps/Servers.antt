-- ===== src/Kamatera/Watcher/Steps/Servers.antt =====
-- Whose server a waiter of internal/kamatera/watcher.go gets, whatever the order of the steps.
use kamatera_autoscaler.Base.{
  ℕ, ℤ, ltb_ℤ, String, ==→eq, List, [], ◌∷◌, All, All-imp, some, ok, err, ◌≡◌, ◌≢◌, refl, sym, ◌∙◌,
  ap, arith, inl, inr, Bool-cases,
}
use kamatera_autoscaler.Base.Dict.{lookup}
use kamatera_autoscaler.Kamatera.Types.{Server}
use kamatera_autoscaler.Kamatera.Watcher.{
  PendingCmd, WaitResult, Watcher, Wait, cancel, register, deliver_one, deliver, timeout_error,
  expire_deadlines, finish_pass,
}
use kamatera_autoscaler.Kamatera.Watcher.Tick.{Completion, tick_completions}
use kamatera_autoscaler.Kamatera.Watcher.Tick.Laws.{tick_completions-IsEnriched}
use kamatera_autoscaler.Kamatera.Watcher.Tick.Commands.{tick_completions-OfCommands}
use kamatera_autoscaler.Kamatera.Watcher.Steps.{
  System, Step, Reach, registers, cancels, snapshots, delivers, expires, finishes,
}
use kamatera_autoscaler.Kamatera.Watcher.Steps.Sound.{IsSound, deliver_one_cases, Reach-IsSound}
use kamatera_autoscaler.Kamatera.Watcher.Steps.Waiters.{sent, Unsent-sent}
use kamatera_autoscaler.Kamatera.Watcher.Steps.Names.{IsKnown, IsNamed, Reach-IsNamed}

-- A server that was sent on the channel has the name.
record IsServed (c : ℕ) (name : String) (w : Watcher) : Type 0 where
  served : (srv : Server) → sent c w.delivered ≡ some (ok srv) → srv.name ≡ name

deliver_one-IsServed :
    (c : ℕ) (name : String) (d : Completion) (w : Watcher)
    → ((srv : Server) → d.0.channel ≡ c → d.1 ≡ ok srv → srv.name ≡ name)
    → IsServed c name w
    → IsServed c name (deliver_one d w)
unfolding sent
deliver_one-IsServed c name (p, r) w right v = elim (deliver_one_cases (p, r) w) [
  | inl e ↦ rw e v
  | inr (cur, found, same, e) ↦
      rw e (record { served = λ srv got. ground (arith, right srv, v.served srv) })
]

deliver-IsServed :
    (c : ℕ) (name : String) (ds : List Completion) (w : Watcher)
    → All (λ (d : Completion). (srv : Server) → d.0.channel ≡ c → d.1 ≡ ok srv → srv.name ≡ name) ds
    → IsServed c name w
    → IsServed c name (deliver ds w)
unfolding deliver
deliver-IsServed c name [] w right v = v
deliver-IsServed c name (d ∷ ds) w (one, right) v =
    deliver-IsServed c name ds (deliver_one d w) right (deliver_one-IsServed c name d w one v)

expire_deadlines-IsServed :
    (c : ℕ) (name : String) (ps : List PendingCmd) (now : ℤ) (w : Watcher)
    → IsServed c name w
    → IsServed c name (expire_deadlines ps now w)
unfolding expire_deadlines
expire_deadlines-IsServed c name [] now w v = v
expire_deadlines-IsServed c name (p ∷ ps) now w v = elim (Bool-cases (ltb_ℤ p.deadline now)) [
  | inl late ↦
      let d : Completion = (p, err (timeout_error p)) in
      rw late (
        expire_deadlines-IsServed c name ps now (deliver_one d w)
          (deliver_one-IsServed c name d w (λ srv e f. cc) v))
  | inr early ↦ rw early (expire_deadlines-IsServed c name ps now w v)
]

both :
    (P Q : Completion → Type 0) (cs : List Completion)
    → All P cs
    → All Q cs
    → All (λ c. P c × Q c) cs
both P Q [] h g = tt
both P Q (c ∷ cs) (p, h) (q, g) = ((p, q), both P Q cs h g)

same_log-IsServed :
    {c : ℕ} {name : String} (v w : Watcher)
    → w.delivered ≡ v.delivered
    → IsServed c name v
    → IsServed c name w
same_log-IsServed {c} v w same h = record {
  served = λ srv got. h.served srv (ap (sent c) (sym same) ∙ got);
}

pending-IsServed :
    (k : String) (p : PendingCmd) (w : Watcher)
    → IsSound w
    → lookup k w.pending ≡ some p
    → IsServed p.channel p.enrich_name w
pending-IsServed k p w v found = record {
  served = λ srv got. ground (arith, Unsent-sent p.channel w.delivered (v.open_channels k p found));
}

register-log : (wait : Wait) (w : Watcher) → (register wait w).1.delivered ≡ w.delivered
unfolding register
register-log wait w = ground arith

cancel-log : (id : String) (w : Watcher) → (cancel id w).delivered ≡ w.delivered
unfolding cancel
cancel-log id w = refl

finish_pass-log : (w : Watcher) → (finish_pass w).delivered ≡ w.delivered
unfolding finish_pass
finish_pass-log w = ground arith

-- A completion that is known and enriched is right for a pending command.
known-right :
    (k : String) (p q : PendingCmd) (w : Watcher) (r : WaitResult)
    → lookup k w.pending ≡ some p
    → p.enrich_name ≢ ""
    → IsKnown w q
    → ((srv : Server) → r ≡ ok srv → q.enrich_name ≢ "" → srv.name ≡ q.enrich_name)
    → (srv : Server) → q.channel ≡ p.channel
    → r ≡ ok srv
    → srv.name ≡ p.enrich_name
known-right k p q w r found named h enriched srv same e =
    let equal = ==→eq p.enrich_name q.enrich_name (h.same k p found (sym same)) in
    enriched srv e (λ empty. named (equal ∙ empty)) ∙ sym equal

Step-IsServed :
    {s t : System} (k : String) (p : PendingCmd)
    → IsNamed s
    → Step s t
    → lookup k s.watcher.pending ≡ some p
    → p.enrich_name ≢ ""
    → IsServed p.channel p.enrich_name s.watcher
    → IsServed p.channel p.enrich_name t.watcher
Step-IsServed {s} k p n (registers wait e) found named v =
    rw e (same_log-IsServed s.watcher (register wait s.watcher).1 (register-log wait s.watcher) v)
Step-IsServed {s} k p n (cancels id e) found named v =
    rw e (same_log-IsServed s.watcher (cancel id s.watcher) (cancel-log id s.watcher) v)
Step-IsServed k p n (snapshots ps r g perm e) found named v = rw e v
Step-IsServed {s} k p n (delivers ps queue now answer phase e) found named v =
    let ds = tick_completions queue now answer ps in
    rw e (
      deliver-IsServed p.channel p.enrich_name ds s.watcher
        (All-imp ds (λ (q, r) (h, enriched). known-right k p q s.watcher r found named h enriched)
          (both (λ (q, r). IsKnown s.watcher q) _ ds
            (tick_completions-OfCommands (IsKnown s.watcher) queue now answer ps (n.known ps phase))
            (tick_completions-IsEnriched queue now answer ps)))
        v)
Step-IsServed {s} k p n (expires ps now phase e) found named v =
    rw e (expire_deadlines-IsServed p.channel p.enrich_name ps now s.watcher v)
Step-IsServed {s} k p n (finishes phase e) found named v =
    rw e (same_log-IsServed s.watcher (finish_pass s.watcher) (finish_pass-log s.watcher) v)

-- A waiter that names a server gets no other: whatever step follows a reachable state, a server that it
-- sends to the waiter of a pending command is the one that the command names.
pub Step-served :
    {s t : System} (k : String) (p : PendingCmd) (srv : Server)
    → Reach s
    → Step s t
    → lookup k s.watcher.pending ≡ some p
    → p.enrich_name ≢ ""
    → sent p.channel t.watcher.delivered ≡ some (ok srv)
    → srv.name ≡ p.enrich_name
Step-served {s} k p srv r st found named got =
    let fresh = pending-IsServed k p s.watcher (Reach-IsSound r) found in
    let served = Step-IsServed k p (Reach-IsNamed r) st found named fresh in served.served srv got
