-- ===== src/Controller/Pending/Calls/Agreement.antt =====
-- The tracker (internal/controller/pending.go) agrees with the ledger that never collects, call by call.
use kamatera_autoscaler.Base.{
  ℤ, ◌≤ℤ◌, true, false, if◌then◌else◌, String, List, [], ◌∷◌, none, is_some, ◌≡◌, refl, ap, sym,
  subst, ◌∙◌, arith, inl, inr, Bool-cases,
}
use kamatera_autoscaler.Base.Dict.{
  Dict, lookup, insert, erase, lookup-insert, lookup-erase, NodupKeys, insert-NodupKeys,
  erase-NodupKeys,
}
use kamatera_autoscaler.Controller.Pending.{
  Entry, PendingTracker, new_pending_tracker, live_entries, add, remove, count, gc_locked,
}
use kamatera_autoscaler.Controller.Pending.Laws.{
  while_live, lookup-live_entries, live_entries-NodupKeys, entries_for-live_entries,
}
use kamatera_autoscaler.Controller.Pending.Live.{
  live_count, live_count-insert, live_count-erase, live_count-live_entries, while_live-later,
  share-while_live,
}
use kamatera_autoscaler.Controller.Pending.Calls.{
  Call, adds, removes, counts, counted, answer, answers, is_held, expect, expected, InOrder,
}

-- From a time on, the tracker and the ledger hold the same entries alive.
record Agrees (ttl time : ℤ) (t : PendingTracker) (m : Dict Entry) : Type 0 where
  same_ttl : t.ttl ≡ ttl
  single : NodupKeys t.entries
  ledger_single : NodupKeys m
  flight :
      (now : ℤ) (k : String)
      → time ≤ℤ now
      → while_live ttl now (lookup k t.entries) ≡ while_live ttl now (lookup k m)
  tally :
      (now : ℤ) (pool : String)
      → time ≤ℤ now
      → live_count pool ttl now t.entries ≡ live_count pool ttl now m

later_ℤ : (a b c : ℤ) → a ≤ℤ b → b ≤ℤ c → a ≤ℤ c
later_ℤ a b c h k = omega arith

-- Collecting what has expired changes nothing from then on.
collect-Agrees :
    (ttl time now : ℤ) (t : PendingTracker) (m : Dict Entry)
    → time ≤ℤ now
    → Agrees ttl time t m
    → Agrees ttl now (record t { entries = live_entries ttl now t.entries }) m
collect-Agrees ttl time now t m h g = record {
  same_ttl = g.same_ttl;
  single = live_entries-NodupKeys ttl now t.entries g.single;
  ledger_single = g.ledger_single;
  flight = λ later k e. ground (
    arith,
    lookup-live_entries ttl now k t.entries g.single,
    while_live-later ttl now later (lookup k t.entries) e,
    g.flight later k (later_ℤ time now later h e),
  );
  tally = λ later pool e. ground (
    arith,
    live_count-live_entries pool ttl now later t.entries e,
    g.tally later pool (later_ℤ time now later h e),
  );
}

-- A new entry under a name that holds none that is alive.
insert-Agrees :
    (ttl time now : ℤ) (name : String) (e : Entry) (t : PendingTracker) (m : Dict Entry)
    → time ≤ℤ now
    → is_held ttl time (lookup name m) ≡ false
    → lookup name t.entries ≡ none
    → Agrees ttl time t m
    → Agrees ttl now (record t { entries = insert name e t.entries }) (insert name e m)
insert-Agrees ttl time now name e t m h free fresh g = record {
  same_ttl = g.same_ttl;
  single = insert-NodupKeys name e t.entries g.single;
  ledger_single = insert-NodupKeys name e m g.ledger_single;
  flight = λ later k o. ground (
    arith,
    lookup-insert name k e t.entries,
    lookup-insert name k e m,
    g.flight later k (later_ℤ time now later h o),
  );
  tally = λ later pool o.
      let since = later_ℤ time now later h o in
      ground (
        arith,
        live_count-insert pool name ttl later e t.entries,
        live_count-insert pool name ttl later e m,
        g.tally later pool since,
        g.flight later name since,
        share-while_live pool ttl later (lookup name m),
      );
}

erase-Agrees :
    (ttl time : ℤ) (name : String) (t : PendingTracker) (m : Dict Entry)
    → Agrees ttl time t m
    → Agrees ttl time (record t { entries = erase name t.entries }) (erase name m)
erase-Agrees ttl time name t m g = record {
  same_ttl = g.same_ttl;
  single = erase-NodupKeys name t.entries g.single;
  ledger_single = erase-NodupKeys name m g.ledger_single;
  flight = λ later k o.
      ground (arith, lookup-erase name k t.entries, lookup-erase name k m, g.flight later k o);
  tally = λ later pool o. ground (
    arith,
    live_count-erase pool name ttl later t.entries g.single,
    live_count-erase pool name ttl later m g.ledger_single,
    g.tally later pool o,
    g.flight later name o,
    share-while_live pool ttl later (lookup name m),
    share-while_live pool ttl later (lookup name t.entries),
  );
}

wait-Agrees :
    (ttl time now : ℤ) (t : PendingTracker) (m : Dict Entry)
    → time ≤ℤ now
    → Agrees ttl time t m
    → Agrees ttl now t m
wait-Agrees ttl time now t m h g = record {
  same_ttl = g.same_ttl;
  single = g.single;
  ledger_single = g.ledger_single;
  flight = λ later k o. g.flight later k (later_ℤ time now later h o);
  tally = λ later pool o. g.tally later pool (later_ℤ time now later h o);
}

-- What `Add` does to a collected tracker.
add_collected :
    (ttl gc_now now : ℤ) (pool name : String) (t : PendingTracker)
    → t.ttl ≡ ttl
    → let u = record t { entries = live_entries ttl gc_now t.entries } in
      add pool name gc_now now t ≡ (
        if is_some (lookup name u.entries) then (false, u) else (
          true,
          record u { entries = insert name (record { pool = pool; created_at = now }) u.entries },
        ))
unfolding add
add_collected ttl gc_now now pool name t e = rw (← e) refl

-- Whether a collected tracker has a name is whether the ledger holds it.
collected_held :
    (ttl now : ℤ) (name : String) (t : PendingTracker) (m : Dict Entry)
    → Agrees ttl now t m
    → is_some (lookup name (live_entries ttl now t.entries)) ≡ is_held ttl now (lookup name m)
collected_held ttl now name t m g =
    ap is_some
      (lookup-live_entries ttl now name t.entries g.single ∙ g.flight now name (omega arith))

-- The answers of one call agree, and so do the tracker and the ledger behind it.
answer-expect :
    (ttl time : ℤ) (c : Call) (cs : List Call) (t : PendingTracker) (m : Dict Entry)
    → InOrder time (c ∷ cs)
    → Agrees ttl time t m
    → (after : ℤ) × InOrder after cs
      × ((answer c t).0 ≡ (expect ttl c m).0)
      × Agrees ttl after (answer c t).1 (expect ttl c m).1
unfolding answer expect remove count live_count gc_locked
answer-expect ttl time (removes name) cs t m order g =
    (time, order, refl, erase-Agrees ttl time name t m g)
answer-expect ttl time (counts pool now) cs t m (h, order) g = (
  now,
  order,
  ap counted (
      entries_for-live_entries pool t.ttl now t.entries
      ∙ (ap (λ d. live_count pool d now t.entries) g.same_ttl ∙ g.tally now pool h)),
  subst (λ d. Agrees ttl now (record t { entries = live_entries d now t.entries }) m)
      (sym g.same_ttl) (collect-Agrees ttl time now t m h g),
)
answer-expect ttl time (adds pool name gc_now now) cs t m (h, k, order) g =
    let u : PendingTracker = record t { entries = live_entries ttl gc_now t.entries } in
    let new : Entry = record { pool = pool; created_at = now } in
    let collected = collect-Agrees ttl time gc_now t m h g in
    let held = collected_held ttl gc_now name t m (wait-Agrees ttl time gc_now t m h g) in
    let call = add_collected ttl gc_now now pool name t g.same_ttl in
    elim (Bool-cases (is_held ttl gc_now (lookup name m))) [
      | inl e ↦
          let same : add pool name gc_now now t ≡ (false, u) = ground (arith, call, held) in
          (now, order, rw (same, e) refl, rw (same, e) (wait-Agrees ttl gc_now now u m k collected))
      | inr e ↦
          let same : add pool name gc_now now t
              ≡ (true, record u { entries = insert name new u.entries }) =
            ground (arith, call, held) in
          let fresh : lookup name u.entries ≡ none = ground (arith, held) in
          (
            now,
            order,
            rw (same, e) refl,
            rw (same, e) (insert-Agrees ttl gc_now now name new u m k e fresh collected),
          )
    ]

answers-expected :
    (ttl time : ℤ) (cs : List Call) (t : PendingTracker) (m : Dict Entry)
    → InOrder time cs
    → Agrees ttl time t m
    → answers cs t ≡ expected ttl cs m
unfolding answers expected
answers-expected ttl time [] t m order g = refl
answers-expected ttl time (c ∷ cs) t m order g =
    let (after, rest, same, h) = answer-expect ttl time c cs t m order g in
    cc (same, answers-expected ttl after cs (answer c t).1 (expect ttl c m).1 rest h)

-- With a clock that does not go back, any sequence of calls on a new tracker gives the answers of a
-- ledger of all entries made and not removed, in which an entry counts until it has outlived the limit:
-- when the tracker collects expired entries cannot be observed.
pub new-answers-expected :
    (ttl time : ℤ) (cs : List Call)
    → InOrder time cs
    → answers cs (new_pending_tracker ttl) ≡ expected ttl cs []
unfolding new_pending_tracker live_count
new-answers-expected ttl time cs order =
    answers-expected ttl time cs (new_pending_tracker ttl) [] order (record {
      same_ttl = refl;
      single = tt;
      ledger_single = tt;
      flight = λ now k h. refl;
      tally = λ now pool h. refl;
    })
