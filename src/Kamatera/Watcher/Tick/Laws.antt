-- ===== src/Kamatera/Watcher/Tick/Laws.antt =====
-- What a pass of internal/kamatera/watcher.go delivers, whatever the API answers.
use kamatera_autoscaler.Base.{
  ℤ, false, not, String, List, [], ◌∷◌, All, map, some, Result, ok, ◌≡◌, ◌≢◌, arith, inl, inr,
  Result-cases, Bool-cases,
}
use kamatera_autoscaler.Base.Dict.{Dict, lookup, insert, lookup-insert}
use kamatera_autoscaler.Kamatera.Types.{Server, QueueStatus}
use kamatera_autoscaler.Kamatera.Errors.{Error}
use kamatera_autoscaler.Kamatera.Watcher.{PendingCmd}
use kamatera_autoscaler.Kamatera.Watcher.Tick.{
  Completion, queue_by_id, server_by_name, completions, wants_server, retain_completions, enrich,
  resolve, tick_completions, has_any,
}

-- The server of a list under a name, in the map of the pass, has the name.
server_by_name-name :
    (ss : List Server) (m : Dict Server) (name : String) (srv : Server)
    → ((v : Server) → lookup name m ≡ some v → v.name ≡ name)
    → lookup name (server_by_name ss m) ≡ some srv
    → srv.name ≡ name
unfolding server_by_name
server_by_name-name [] m name srv own h = own srv h
server_by_name-name (s ∷ ss) m name srv own h =
    server_by_name-name ss (insert s.name s m) name srv
      (λ v e. ground (arith, lookup-insert s.name name s m, own v)) h

-- A completion with a server for a wait that names one has the server of that name.
abbrev IsEnriched : Completion → Type 0
IsEnriched (p, r) = (srv : Server) → r ≡ ok srv → p.enrich_name ≢ "" → srv.name ≡ p.enrich_name

enrich-IsEnriched :
    (ss : List Server) (c : Completion) → IsEnriched (enrich (server_by_name ss []) c)
unfolding enrich wants_server lookup
enrich-IsEnriched ss (p, r) srv h named =
    ground (arith, server_by_name-name ss [] p.enrich_name srv (λ v e. cc))

map-enrich-All :
    (ss : List Server) (cs : List Completion)
    → All IsEnriched (map (enrich (server_by_name ss [])) cs)
map-enrich-All ss [] = tt
map-enrich-All ss (c ∷ cs) = (enrich-IsEnriched ss c, map-enrich-All ss cs)

unwanted-IsEnriched : (c : Completion) → wants_server c ≡ false → IsEnriched c
unfolding wants_server
unwanted-IsEnriched (p, r) unwanted srv h named = ground arith

retained-IsEnriched :
    (cs : List Completion) → All IsEnriched (retain_completions (λ c. not (wants_server c)) cs)
unfolding retain_completions
retained-IsEnriched [] = tt
retained-IsEnriched (c ∷ cs) = elim (Bool-cases (wants_server c)) [
  | inl wanted ↦ rw wanted (retained-IsEnriched cs)
  | inr other ↦ rw other (unwanted-IsEnriched c other, retained-IsEnriched cs)
]

none_wanted-IsEnriched :
    (cs : List Completion)
    → has_any (retain_completions wants_server cs) ≡ false
    → All IsEnriched cs
unfolding retain_completions
none_wanted-IsEnriched [] h = tt
none_wanted-IsEnriched (c ∷ cs) h = elim (Bool-cases (wants_server c)) [
  | inl wanted ↦ ground arith
  | inr other ↦ (unwanted-IsEnriched c other, none_wanted-IsEnriched cs (ground arith))
]

resolve-IsEnriched :
    (answer : Result Error (List Server)) (cs : List Completion)
    → All IsEnriched (resolve answer cs)
unfolding resolve
resolve-IsEnriched answer cs = elim (Bool-cases (has_any (retain_completions wants_server cs))) [
  | inr nobody ↦ rw nobody (none_wanted-IsEnriched cs nobody)
  | inl some_wait ↦ elim (Result-cases answer) [
    | inr (e, failed) ↦ rw (some_wait, failed) (retained-IsEnriched cs)
    | inl (servers, listed) ↦ rw (some_wait, listed) (map-enrich-All servers cs)
  ]
]

-- Whatever the queue, the time and the answer of the server list, a pass delivers a server to a wait
-- that names one only if the server has that name.
pub tick_completions-IsEnriched :
    (queue : List QueueStatus) (now : ℤ) (answer : Result Error (List Server))
    (snapshot : List PendingCmd)
    → All
        (λ ((p, r) : Completion).
          (srv : Server) → r ≡ ok srv → p.enrich_name ≢ "" → srv.name ≡ p.enrich_name)
        (tick_completions queue now answer snapshot)
unfolding tick_completions
tick_completions-IsEnriched queue now answer snapshot =
    resolve-IsEnriched answer (completions now (queue_by_id queue []) snapshot)
