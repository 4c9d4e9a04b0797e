-- ===== src/Kamatera/Console/Queries/Stale.antt =====
-- A 401 to the token that a query read before another query renewed it
-- (internal/kamatera/console_client.go).
use kamatera_autoscaler.Base.{true, false, String, [], ◌∷◌, Result, ok, err, ◌≡◌, ◌≢◌, arith}
use kamatera_autoscaler.Kamatera.Errors.{Error}
use kamatera_autoscaler.Kamatera.Http.{Network, Settings, State}
use kamatera_autoscaler.Kamatera.Console.{Codec, is_unauthorized, ensure_token, bearer_get_with}
use kamatera_autoscaler.Kamatera.Console.Laws.{ensure_token_fresh}
use kamatera_autoscaler.Kamatera.Console.Queries.{ensures, ends, next_place, move, move_at, play}

module _ {O : Type 0} (N : Network O) (J : Codec) (settings : Settings) where
  -- Two queries are refused with 401 for the same token. The first has renewed it when the second
  -- wipes it. Then the first sends its second request with an empty token, and that request's answer
  -- is its result.
  pub play_stale :
      (path other : String) (s s1 s2 s3 s4 s5 s6 : State O) (e f : Error) (r : Result Error String)
      → ensure_token N J settings s ≡ (ok tt, s1)
      → ensure_token N J settings s1 ≡ (ok tt, s2)
      → bearer_get_with N J settings s2.token path s2 ≡ (err e, s3)
      → is_unauthorized e ≡ true
      → bearer_get_with N J settings s2.token other s3 ≡ (err f, s4)
      → is_unauthorized f ≡ true
      → ensure_token N J settings (record s4 { token = "" }) ≡ (ok tt, s5)
      → bearer_get_with N J settings "" path (record s5 { token = "" }) ≡ (r, s6)
      → (s5.token ≢ "")
        × (play N J settings
              (0 ∷ 1 ∷ 0 ∷ 1 ∷ 0 ∷ 1 ∷ 0 ∷ 0 ∷ 1 ∷ 0 ∷ 0 ∷ [])
              ((path, ensures false) ∷ (other, ensures false) ∷ [])
              s
            ≡ ((path, ends r) ∷ (other, ensures true) ∷ [], s6))
  unfolding play move_at move next_place
  play_stale path other s s1 s2 s3 s4 s5 s6 e f r ready other_ready first refused second too anew
        last =
      ((ensure_token_fresh N J settings (record s4 { token = "" }) s5 anew).0, ground arith)
