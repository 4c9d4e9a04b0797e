-- ===== src/Kamatera/Watcher/Tick.antt =====
-- What a pass of the watcher (`tick` of internal/kamatera/watcher.go) makes of a snapshot and of the
-- answers of the API: the completions that it delivers.
pub mod Laws
pub mod Deadlines
pub mod Commands
use kamatera_autoscaler.Base.{
  ℤ, ltb_ℤ, Bool, true, false, not, ◌||◌, String, ◌<>◌, ◌==◌, List, [], ◌∷◌, map, Option, none,
  some, Result, ok, err, if◌then◌else◌,
}
use kamatera_autoscaler.Base.Dict.{Dict, lookup, insert}
use kamatera_autoscaler.Kamatera.Types.{Server, QueueStatus, is_failure, is_terminal}
use kamatera_autoscaler.Kamatera.Errors.{Error, message}
use kamatera_autoscaler.Kamatera.Redact.{truncate}
use kamatera_autoscaler.Kamatera.Watcher.{PendingCmd, WaitResult, timeout_error}

abbrev pub Completion : Type 0
Completion = PendingCmd × WaitResult

-- The loop that fills `queueByID`: a later entry of the same id replaces an earlier one.
unfoldable pub queue_by_id : List QueueStatus → Dict QueueStatus → Dict QueueStatus
queue_by_id [] m = m
queue_by_id (q ∷ qs) m = queue_by_id qs (insert q.id q m)

unfoldable pub server_by_name : List Server → Dict Server → Dict Server
server_by_name [] m = m
server_by_name (s ∷ ss) m = server_by_name ss (insert s.name s m)

abbrev pub ended_error : PendingCmd → QueueStatus → Error
ended_error p q = message (
    "kamatera: command "
    <> (p.command_id <> (" ended " <> (q.status <> (": " <> truncate q.log 200)))))

abbrev pub missing_error : PendingCmd → Error
missing_error p = message (
    "kamatera: command "
    <> (p.command_id
        <> (" reached terminal state but server "
            <> (p.enrich_name <> " not in /service/server/info"))))

-- The server that a completed command names, before the enrichment.
abbrev pub named_server : String → Server
named_server name = record { id = ""; name = name; power = ""; datacenter = "" }

-- The result of one command, if it has one yet.
unfoldable pub outcome : ℤ → Dict QueueStatus → PendingCmd → Option WaitResult
outcome now queue p =
    if ltb_ℤ p.deadline now
    then some (err (timeout_error p))
    else elim (lookup p.command_id queue) [
      | none ↦ none
      | some q ↦
          if is_failure q.status
          then some (err (ended_error p q))
          else if is_terminal q.status
          then some (ok (named_server q.server))
          else none
    ]

unfoldable pub completions : ℤ → Dict QueueStatus → List PendingCmd → List Completion
completions now queue [] = []
completions now queue (p ∷ ps) =
    let rest = completions now queue ps in
    elim (outcome now queue p) [ none ↦ rest | some r ↦ (p, r) ∷ rest ]

abbrev failed : WaitResult → Bool
failed (ok s) = false
failed (err e) = true

-- A completion that is to be enriched with a server of the list.
unfoldable pub wants_server : Completion → Bool
wants_server (p, r) = not (failed r || (p.enrich_name == ""))

unfoldable pub retain_completions {ℓ} : {A : Type ℓ} → (A → Bool) → List A → List A
retain_completions keep [] = []
retain_completions keep (c ∷ cs) =
    let rest = retain_completions keep cs in if keep c then c ∷ rest else rest

unfoldable pub enrich : Dict Server → Completion → Completion
unfolding wants_server
enrich servers (p, r) =
    if wants_server (p, r)
    then (
      p,
      elim (lookup p.enrich_name servers) [ some srv ↦ ok srv | none ↦ err (missing_error p) ],
    )
    else (p, r)

abbrev pub has_any : List Completion → Bool
has_any [] = false
has_any (c ∷ cs) = true

-- The answer of the server list is looked at only where a completion wants a server. If the list could
-- not be had, such completions are put off.
unfoldable pub resolve : Result Error (List Server) → List Completion → List Completion
unfolding enrich retain_completions
resolve answer cs =
    if has_any (retain_completions wants_server cs)
    then elim answer [
      | err e ↦ retain_completions (λ c. not (wants_server c)) cs
      | ok servers ↦ map (enrich (server_by_name servers [])) cs
    ]
    else cs

-- What a pass delivers, from the queue that it could list, the time and the answer of the server list.
unfoldable pub tick_completions :
    List QueueStatus → ℤ → Result Error (List Server) → List PendingCmd → List Completion
unfolding completions resolve
tick_completions queue now answer snapshot =
    resolve answer (completions now (queue_by_id queue []) snapshot)
