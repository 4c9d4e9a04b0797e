-- ===== src/Kamatera/Watcher/Tick/Deadlines.antt =====
-- A pass of internal/kamatera/watcher.go leaves no expired command of its snapshot pending.
use kamatera_autoscaler.Base.{
  ap, ℤ, ltb_ℤ, true, not, List, [], ◌∷◌, map, some, Result, err, ◌≡◌, ◌≢◌, refl, arith, ◌⊎◌, inl,
  inr, if◌then◌else◌, Option-cases, Result-cases, Bool-cases, ==_self,
}
use kamatera_autoscaler.Base.Dict.{Dict, lookup, lookup-erase}
use kamatera_autoscaler.Kamatera.Types.{Server, QueueStatus}
use kamatera_autoscaler.Kamatera.Errors.{Error}
use kamatera_autoscaler.Kamatera.Watcher.{
  PendingCmd, Watcher, timeout_error, deliver_one, deliver, expire_deadlines,
}
use kamatera_autoscaler.Kamatera.Watcher.Tick.{
  Completion, queue_by_id, server_by_name, outcome, completions, wants_server, retain_completions,
  enrich, resolve, tick_completions, has_any,
}

-- The command is not pending under its pointer.
pub record IsGone (p : PendingCmd) (w : Watcher) : Type 0 where
  pub gone : (cur : PendingCmd) → lookup p.command_id w.pending ≡ some cur → cur.channel ≢ p.channel

-- A list has an element.
abbrev pub Has : {A : Type 0} → A → List A → Type 0
Has a [] = ⊥
Has a (x ∷ xs) = (x ≡ a) ⊎ Has a xs

abbrev expired : PendingCmd → Completion
expired p = (p, err (timeout_error p))

deliver_one-lookup :
    (p : PendingCmd) (c : Completion) (w : Watcher) (cur : PendingCmd)
    → lookup p.command_id (deliver_one c w).pending ≡ some cur
    → lookup p.command_id w.pending ≡ some cur
unfolding deliver_one
deliver_one-lookup p c w cur h = ground (arith, lookup-erase c.0.command_id p.command_id w.pending)

deliver_one-IsGone :
    (p : PendingCmd) (c : Completion) (w : Watcher) → IsGone p w → IsGone p (deliver_one c w)
deliver_one-IsGone p c w g = record { gone = λ cur h. g.gone cur (deliver_one-lookup p c w cur h) }

deliver_one-expired : (p : PendingCmd) (w : Watcher) → IsGone p (deliver_one (expired p) w)
unfolding deliver_one
deliver_one-expired p w = record {
  gone = λ cur h e.
      ground (arith, lookup-erase p.command_id p.command_id w.pending, ==_self p.command_id);
}

deliver-IsGone :
    (p : PendingCmd) (cs : List Completion) (w : Watcher) → IsGone p w → IsGone p (deliver cs w)
unfolding deliver
deliver-IsGone p [] w g = g
deliver-IsGone p (c ∷ cs) w g = deliver-IsGone p cs (deliver_one c w) (deliver_one-IsGone p c w g)

deliver-Has :
    (p : PendingCmd) (cs : List Completion) (w : Watcher)
    → Has (expired p) cs
    → IsGone p (deliver cs w)
unfolding deliver
deliver-Has p [] w h = absurd h
deliver-Has p (c ∷ cs) w (inl e) =
    deliver-IsGone p cs (deliver_one c w) (rw e (deliver_one-expired p w))
deliver-Has p (c ∷ cs) w (inr h) = deliver-Has p cs (deliver_one c w) h

outcome_expired :
    (now : ℤ) (queue : Dict QueueStatus) (p : PendingCmd)
    → ltb_ℤ p.deadline now ≡ true
    → outcome now queue p ≡ some (err (timeout_error p))
unfolding outcome
outcome_expired now queue p late = rw late refl

completions-Has :
    (now : ℤ) (queue : Dict QueueStatus) (p : PendingCmd) (ps : List PendingCmd)
    → Has p ps
    → ltb_ℤ p.deadline now ≡ true
    → Has (expired p) (completions now queue ps)
unfolding completions
completions-Has now queue p [] h late = absurd h
completions-Has now queue p (x ∷ ps) (inl e) late =
    rw (e, outcome_expired now queue p late, completions)
      (inl (ap (λ q. (q, err (timeout_error p))) e))
completions-Has now queue p (x ∷ ps) (inr h) late =
    let rest = completions-Has now queue p ps h late in
    elim (Option-cases (outcome now queue x)) [
      | inl waits ↦ rw (waits, completions) rest
      | inr (r, ends) ↦ rw (ends, completions) (inr rest)
    ]

retained-Has :
    (p : PendingCmd) (cs : List Completion)
    → Has (expired p) cs
    → Has (expired p) (retain_completions (λ c. not (wants_server c)) cs)
unfolding retain_completions wants_server
retained-Has p [] h = absurd h
retained-Has p (c ∷ cs) (inl e) = rw e (inl refl)
retained-Has p (c ∷ cs) (inr h) =
    let rest = retained-Has p cs h in
    elim (Bool-cases (wants_server c)) [
      | inl wanted ↦ rw wanted rest
      | inr other ↦ rw other (inr rest)
    ]

map-enrich-Has :
    (servers : Dict Server) (p : PendingCmd) (cs : List Completion)
    → Has (expired p) cs
    → Has (expired p) (map (enrich servers) cs)
unfolding enrich wants_server
map-enrich-Has servers p [] h = absurd h
map-enrich-Has servers p (c ∷ cs) (inl e) = rw e (inl refl)
map-enrich-Has servers p (c ∷ cs) (inr h) = inr (map-enrich-Has servers p cs h)

resolve-Has :
    (answer : Result Error (List Server)) (p : PendingCmd) (cs : List Completion)
    → Has (expired p) cs
    → Has (expired p) (resolve answer cs)
unfolding resolve
resolve-Has answer p cs h = elim (Bool-cases (has_any (retain_completions wants_server cs))) [
  | inr nobody ↦ rw nobody h
  | inl some_wait ↦ elim (Result-cases answer) [
    | inr (e, failed) ↦ rw (some_wait, failed) (retained-Has p cs h)
    | inl (servers, listed) ↦
        rw (some_wait, listed) (map-enrich-Has (server_by_name servers []) p cs h)
  ]
]

expire_deadlines-IsGone :
    (p : PendingCmd) (ps : List PendingCmd) (now : ℤ) (w : Watcher)
    → IsGone p w
    → IsGone p (expire_deadlines ps now w)
unfolding expire_deadlines
expire_deadlines-IsGone p [] now w g = g
expire_deadlines-IsGone p (x ∷ ps) now w g = elim (Bool-cases (ltb_ℤ x.deadline now)) [
  | inl late ↦ rw late (expire_deadlines-IsGone p ps now _ (deliver_one-IsGone p (expired x) w g))
  | inr early ↦ rw early (expire_deadlines-IsGone p ps now w g)
]

expire_deadlines-Has :
    (p : PendingCmd) (ps : List PendingCmd) (now : ℤ) (w : Watcher)
    → Has p ps
    → ltb_ℤ p.deadline now ≡ true
    → IsGone p (expire_deadlines ps now w)
unfolding expire_deadlines
expire_deadlines-Has p [] now w h late = absurd h
expire_deadlines-Has p (x ∷ ps) now w (inl e) late =
    rw (e, late) (expire_deadlines-IsGone p ps now _ (deliver_one-expired p w))
expire_deadlines-Has p (x ∷ ps) now w (inr h) late =
    expire_deadlines-Has p ps now (if ltb_ℤ x.deadline now then deliver_one (expired x) w else w) h
      late

-- A command of the snapshot that is past its deadline is no longer pending under its pointer after the
-- pass, whether the queue could be listed or not, and whatever the API answered.
pub tick_expires :
    (queue : List QueueStatus) (now : ℤ) (answer : Result Error (List Server))
    (snapshot : List PendingCmd) (w : Watcher) (p : PendingCmd)
    → Has p snapshot
    → ltb_ℤ p.deadline now ≡ true
    → IsGone p (deliver (tick_completions queue now answer snapshot) w)
      × IsGone p (expire_deadlines snapshot now w)
unfolding tick_completions
tick_expires queue now answer snapshot w p h late = (
  deliver-Has p (tick_completions queue now answer snapshot) w (
      resolve-Has answer p (completions now (queue_by_id queue []) snapshot)
        (completions-Has now (queue_by_id queue []) p snapshot h late)),
  expire_deadlines-Has p snapshot now w h late,
)
