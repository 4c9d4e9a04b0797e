-- ===== src/Tests/Pieces.antt =====
-- The theorems on the configuration, the matching, the tracker and the decoding at concrete data.
use kamatera_autoscaler.Base.{arith, List, ◌-ℤ◌, pos, ◌≡◌, refl, ◌↔◌, ◌⊎◌, [], ◌∷◌, none, some}
use kamatera_autoscaler.Base.Dict.{lookup}
use kamatera_autoscaler.Tests.{labels, config}
use kamatera_autoscaler.Config.{validate}
use kamatera_autoscaler.Config.Valid.{ConfigIsValid, validate-ConfigIsValid}
use kamatera_autoscaler.Kamatera.Json.{array, cons, nil, null, number}
use kamatera_autoscaler.Kamatera.CommandId.{decode_command_id}
use kamatera_autoscaler.Kamatera.CommandId.Laws.{decode_command_id_blank}
use kamatera_autoscaler.Controller.Pending.{
  Entry, PendingTracker, new_pending_tracker, add, remove, gc_locked, live_entries,
}
use kamatera_autoscaler.Controller.Pending.Calls.{Call, adds, removes, counts, answers, expected}
use kamatera_autoscaler.Controller.Pending.Calls.Agreement.{new-answers-expected}
use kamatera_autoscaler.Controller.Pending.Laws.{remove-add}

validate-ConfigIsValid_example : ((validate labels config).0 ≡ none) ↔ ConfigIsValid labels config
validate-ConfigIsValid_example = validate-ConfigIsValid labels config

-- One node in flight, started at the first second.
abbrev one : Entry
one = record { pool = "small"; created_at = pos 1 }

abbrev holding : PendingTracker
holding = record { ttl = pos 10; entries = ("small-1", one) ∷ [] }

decode_command_id_blank_example :
    (decode_command_id (some (array (cons null nil))) ≡ some "")
    ↔ ((null ≡ null) ⊎ (null ≡ number ""))
decode_command_id_blank_example = decode_command_id_blank (array (cons null nil))

remove-add_example :
    remove "small-2" (add "small" "small-2" (pos 20) (pos 20) holding).1
    ≡ gc_locked (pos 20) holding
unfolding add gc_locked live_entries lookup ◌-ℤ◌
remove-add_example = remove-add "small" "small-2" (pos 20) (pos 20) holding refl

-- A node that is added twice, outlives the limit, is added anew and removed.
abbrev calls : List Call
calls =
    adds "small" "small-1" (pos 1) (pos 1)
    ∷ adds "small" "small-1" (pos 5) (pos 5)
    ∷ counts "small" (pos 6)
    ∷ counts "small" (pos 20)
    ∷ adds "small" "small-1" (pos 20) (pos 21)
    ∷ counts "small" (pos 22)
    ∷ removes "small-1"
    ∷ counts "small" (pos 23)
    ∷ []

new-answers-expected_example :
    answers calls (new_pending_tracker (pos 10)) ≡ expected (pos 10) calls []
new-answers-expected_example = new-answers-expected (pos 10) (pos 0) calls (
  omega arith,
  omega arith,
  (
    omega arith,
    omega arith,
    (omega arith, (omega arith, (omega arith, omega arith, (omega arith, (omega arith, tt))))),
  ),
)
