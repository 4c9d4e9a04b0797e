-- ===== src/Kamatera/Watcher/Tick/Commands.antt =====
-- The commands of the completions of a pass (internal/kamatera/watcher.go): they come from its snapshot.
use kamatera_autoscaler.Base.{
  ℤ, List, [], ◌∷◌, All, map, Result, ◌≡◌, sym, arith, inl, inr, Bool-cases, Option-cases,
  Result-cases, not, Bool, subst,
}
use kamatera_autoscaler.Base.Dict.{Dict}
use kamatera_autoscaler.Kamatera.Types.{Server, QueueStatus}
use kamatera_autoscaler.Kamatera.Errors.{Error}
use kamatera_autoscaler.Kamatera.Watcher.{PendingCmd}
use kamatera_autoscaler.Kamatera.Watcher.Tick.{
  Completion, queue_by_id, server_by_name, outcome, completions, wants_server, retain_completions,
  enrich, resolve, tick_completions, has_any,
}

-- A property of the commands of completions, which those of the snapshot have.
abbrev pub OfCommands : (PendingCmd → Type 0) → List Completion → Type 0
OfCommands P = All (λ ((p, r) : Completion). P p)

completions-OfCommands :
    (P : PendingCmd → Type 0) (now : ℤ) (queue : Dict QueueStatus) (ps : List PendingCmd)
    → All P ps
    → OfCommands P (completions now queue ps)
unfolding completions
completions-OfCommands P now queue [] h = tt
completions-OfCommands P now queue (p ∷ ps) (one, h) =
    let rest = completions-OfCommands P now queue ps h in
    elim (Option-cases (outcome now queue p)) [
      | inl e ↦ rw (e, completions) rest
      | inr (r, e) ↦ rw (e, completions) (one, rest)
    ]

retain_completions-OfCommands :
    (P : PendingCmd → Type 0) (keep : Completion → Bool) (cs : List Completion)
    → OfCommands P cs
    → OfCommands P (retain_completions keep cs)
unfolding retain_completions
retain_completions-OfCommands P keep [] h = tt
retain_completions-OfCommands P keep (c ∷ cs) (one, h) =
    let rest = retain_completions-OfCommands P keep cs h in
    elim (Bool-cases (keep c)) [ inl e ↦ rw e (one, rest) | inr e ↦ rw e rest ]

enrich-command : (servers : Dict Server) (c : Completion) → (enrich servers c).0 ≡ c.0
unfolding enrich
enrich-command servers (p, r) = ground arith

map-enrich-OfCommands :
    (P : PendingCmd → Type 0) (servers : Dict Server) (cs : List Completion)
    → OfCommands P cs
    → OfCommands P (map (enrich servers) cs)
map-enrich-OfCommands P servers [] h = tt
map-enrich-OfCommands P servers (c ∷ cs) (one, h) =
    (subst P (sym (enrich-command servers c)) one, map-enrich-OfCommands P servers cs h)

pub tick_completions-OfCommands :
    (P : PendingCmd → Type 0) (queue : List QueueStatus) (now : ℤ)
    (answer : Result Error (List Server)) (ps : List PendingCmd)
    → All P ps
    → OfCommands P (tick_completions queue now answer ps)
unfolding tick_completions resolve
tick_completions-OfCommands P queue now answer ps h =
    let cs = completions now (queue_by_id queue []) ps in
    let all = completions-OfCommands P now (queue_by_id queue []) ps h in
    elim (Bool-cases (has_any (retain_completions wants_server cs))) [
      | inr nobody ↦ rw nobody all
      | inl some_wait ↦ elim (Result-cases answer) [
        | inr (e, failed) ↦
            rw (some_wait, failed)
              (retain_completions-OfCommands P (λ c. not (wants_server c)) cs all)
        | inl (servers, listed) ↦
            rw (some_wait, listed) (map-enrich-OfCommands P (server_by_name servers []) cs all)
      ]
    ]
