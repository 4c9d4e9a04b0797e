-- ===== src/Kamatera/Create/Find.antt =====
-- What the lookup of a server by name (internal/kamatera/client.go) finds.
use kamatera_autoscaler.Base.{
  String, ◌==◌, ==→ne, List, [], ◌∷◌, ◌++◌, All, none, some, ok, err, ◌≡◌, ◌≢◌, arith, ap,
  Bool-cases, Option-cases, Result-cases, inl, inr, ◌⊎◌,
}
use kamatera_autoscaler.Kamatera.Types.{Server}
use kamatera_autoscaler.Kamatera.Errors.{server_not_found}
use kamatera_autoscaler.Kamatera.Http.{Network, Settings, State}
use kamatera_autoscaler.Kamatera.Console.{Codec, list_servers}
use kamatera_autoscaler.Kamatera.Create.{server_named, find_server_by_name}

-- The server has the name, and those before it have others.
pub record IsFirstNamed (name : String) (servers : List Server) (srv : Server) : Type 0 where
  pub before : List Server
  pub after : List Server
  pub split : servers ≡ before ++ srv ∷ after
  pub others : All (λ s. s.name ≢ name) before
  pub named : srv.name ≡ name

server_named-IsFirstNamed :
    (name : String) (ss : List Server) (srv : Server)
    → server_named name ss ≡ some srv
    → IsFirstNamed name ss srv
unfolding server_named
server_named-IsFirstNamed name [] srv h = cc
server_named-IsFirstNamed name (s ∷ ss) srv h = elim (Bool-cases (s.name == name)) [
  | inl hit ↦ record {
    before = [];
    after = ss;
    split = ground arith;
    others = tt;
    named = ground arith;
  }
  | inr miss ↦
      let r = server_named-IsFirstNamed name ss srv (ground arith) in
      record {
        before = s ∷ r.before;
        after = r.after;
        split = ap (◌∷◌ s) r.split;
        others = (==→ne s.name name miss, r.others);
        named = r.named;
      }
]

server_named-none :
    (name : String) (ss : List Server) → server_named name ss ≡ none → All (λ s. s.name ≢ name) ss
unfolding server_named
server_named-none name [] h = tt
server_named-none name (s ∷ ss) h = ground (arith, server_named-none name ss)

module _ {O : Type 0} (N : Network O) (J : Codec) (settings : Settings) where
  -- Where the servers can be listed, a lookup under a name that is not empty gives the first server of
  -- that name, or the error "not found", and then no server has the name.
  pub find_server_by_name_listed :
      (name : String) (servers : List Server) (s : State O)
      → name ≢ ""
      → (list_servers N J settings s).0 ≡ ok servers
      → ((srv : Server) × ((find_server_by_name N J settings name s).0 ≡ ok srv)
          × IsFirstNamed name servers srv)
        ⊎ (((find_server_by_name N J settings name s).0 ≡ err (server_not_found name))
            × All (λ v. v.name ≢ name) servers)
  unfolding find_server_by_name
  find_server_by_name_listed name servers s named listed =
      elim (Option-cases (server_named name servers)) [
        | inl missing ↦ inr (ground arith, server_named-none name servers missing)
        | inr (srv, found) ↦
            inl (srv, ground arith, server_named-IsFirstNamed name servers srv found)
      ]

  -- A server that a lookup gives has the name that was asked for.
  pub find_server_by_name-name :
      (name : String) (s s' : State O) (srv : Server)
      → find_server_by_name N J settings name s ≡ (ok srv, s')
      → srv.name ≡ name
  unfolding find_server_by_name
  find_server_by_name-name name s s' srv h = elim (Result-cases (list_servers N J settings s).0) [
    | inr (e, failed) ↦ ground arith
    | inl (servers, listed) ↦ elim (Option-cases (server_named name servers)) [
      | inl missing ↦ ground arith
      | inr (v, found) ↦
          let r = server_named-IsFirstNamed name servers v found in ground (arith, r.named)
    ]
  ]
