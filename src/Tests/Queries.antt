-- ===== src/Tests/Queries.antt =====
-- The theorems on queries that share the console client, at a console that has a new token.
use mathlib.Core.Option.{get_or}
use kamatera_autoscaler.Base.{
  ℕ, ℤ, pos, ◌+ℤ◌, true, false, ◌||◌, if◌then◌else◌, String, ◌==◌, List, [], ◌∷◌, none, some,
  Result, ok, err, ◌≡◌, ◌≢◌, refl, arith, text_discrete,
}
use kamatera_autoscaler.Base.Dict.{lookup}
use kamatera_autoscaler.Tests.{codec, settings, fresh_state}
use kamatera_autoscaler.Kamatera.Errors.{Error, api, as_api_error}
use kamatera_autoscaler.Kamatera.Http.{Network, State, send, now}
use kamatera_autoscaler.Kamatera.Console.{
  ensure_token, bearer_get_with, auth_request, bearer_request, authenticate, accept_token,
}
use kamatera_autoscaler.Kamatera.Console.Laws.{Asks}
use kamatera_autoscaler.Kamatera.Console.Queries.{Query, ensures, ends, play}
use kamatera_autoscaler.Kamatera.Console.Queries.Turns.{query_at, play-ends}
use kamatera_autoscaler.Kamatera.Console.Queries.Requests.{play-Asks}
use kamatera_autoscaler.Kamatera.Console.Queries.Stale.{play_stale}

-- A network whose console takes the token `token` alone.
abbrev rotated : Network ℤ
rotated = record {
  build = λ req. none;
  send = λ req t. (
    let held = get_or (lookup "Authorization" req.headers) "" in
        ok (record {
          code = if (held == "Bearer token") || (held == "") then 200 else 401;
          body = "[]";
        }),
    t,
  );
  wait = λ d t. (none, t +ℤ d);
  now = λ t. (t, t);
  ended = λ t. none;
}

-- A client that holds the token from before.
abbrev holding_old : State ℤ
holding_old = record fresh_state { token = "old"; expires_at = pos 1000000000000 }

-- A query of the watcher and one of a creation.
abbrev both : List Query
both = ("/queue", ensures false) ∷ ("/servers", ensures false) ∷ []

abbrev in_turn : List ℕ
in_turn = 0 ∷ 1 ∷ 0 ∷ 1 ∷ 0 ∷ 1 ∷ 0 ∷ 1 ∷ 0 ∷ 1 ∷ 0 ∷ 1 ∷ 0 ∷ 1 ∷ []

play-ends_example :
    (r : Result Error String) × (query_at 1 (play rotated codec settings in_turn both holding_old).0
      ≡ some ("/servers", ends r))
play-ends_example =
    play-ends rotated codec settings 1 in_turn "/servers" (ensures false) both holding_old refl
      (omega arith)

play-Asks_example :
    Asks rotated codec settings 8 holding_old
      (play rotated codec settings in_turn both holding_old).1
play-Asks_example = play-Asks rotated codec settings in_turn both holding_old

-- Both are refused, and the first renews the token.
abbrev refused : State ℤ
refused = record holding_old {
  sent =
      bearer_request rotated codec settings "old" "/servers"
      ∷ bearer_request rotated codec settings "old" "/queue"
      ∷ [];
}

abbrev first_refused : State ℤ
first_refused = record holding_old {
  sent = bearer_request rotated codec settings "old" "/queue" ∷ [];
}

abbrev renewed : State ℤ
renewed = record refused {
  token = "token";
  sent = auth_request rotated codec settings ∷ refused.sent;
}

abbrev wiped : State ℤ
wiped = record renewed {
  token = "";
  sent = bearer_request rotated codec settings "" "/queue" ∷ renewed.sent;
}

abbrev unauthorized : String → Error
unauthorized path = api (record { method = "GET"; path = path; code = 401; body = "[]" })

still_held : ensure_token rotated codec settings holding_old ≡ (ok tt, holding_old)
unfolding ensure_token now text_discrete ◌+ℤ◌
still_held = refl

refuses_old :
    bearer_get_with rotated codec settings "old" "/queue" holding_old
    ≡ (err (unauthorized "/queue"), first_refused)
unfolding bearer_get_with send lookup text_discrete bearer_request
refuses_old = refl

refuses_second :
    bearer_get_with rotated codec settings "old" "/servers" first_refused
    ≡ (err (unauthorized "/servers"), refused)
unfolding bearer_get_with send lookup text_discrete bearer_request
refuses_second = refl

renews : ensure_token rotated codec settings (record refused { token = "" }) ≡ (ok tt, renewed)
unfolding ensure_token text_discrete authenticate send lookup auth_request accept_token
renews = refl

refuses_empty :
    bearer_get_with rotated codec settings "" "/queue" (record renewed { token = "" })
    ≡ (err (unauthorized "/queue"), wiped)
unfolding bearer_get_with send lookup text_discrete bearer_request
refuses_empty = refl

play_stale_example :
    (renewed.token ≢ "")
    × (play rotated codec settings (0 ∷ 1 ∷ 0 ∷ 1 ∷ 0 ∷ 1 ∷ 0 ∷ 0 ∷ 1 ∷ 0 ∷ 0 ∷ []) both holding_old
        ≡ (("/queue", ends (err (unauthorized "/queue"))) ∷ ("/servers", ensures true) ∷ [], wiped))
unfolding as_api_error
play_stale_example =
    play_stale rotated codec settings "/queue" "/servers" holding_old holding_old holding_old
      first_refused refused renewed wiped (unauthorized "/queue") (unauthorized "/servers")
      (err (unauthorized "/queue")) still_held still_held refuses_old refl refuses_second refl
      renews refuses_empty
