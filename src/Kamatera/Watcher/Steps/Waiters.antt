-- ===== src/Kamatera/Watcher/Steps/Waiters.antt =====
-- What a single waiter sees of internal/kamatera/watcher.go: its status on its channel, and the protocol
-- that it may rely on.
use kamatera_autoscaler.Base.{
  ℕ, ◌≤◌, ◌<◌, eqb, String, List, [], ◌∷◌, Option, none, some, ◌≡◌, ◌≢◌, refl, arith, subst, ◌⊎◌,
  inl, inr, if◌then◌else◌,
}
use kamatera_autoscaler.Base.Dict.{lookup}
use kamatera_autoscaler.Kamatera.Watcher.{PendingCmd, WaitResult, Watcher}
use kamatera_autoscaler.Kamatera.Watcher.Steps.Sound.{Unsent, IsSound}

pub data Status : Type 0 where
  unregistered waiting abandoned : Status
  answered : WaitResult → Status

-- The protocol: a waiter registers, waits, and is answered once or abandoned, for good.
abbrev pub Leads : Status → Status → Type 0
Leads unregistered y = (y ≡ unregistered) ⊎ (y ≡ waiting)
Leads waiting y = y ≢ unregistered
Leads abandoned y = y ≡ abandoned
Leads (answered r) y = y ≡ answered r

-- What was sent on a channel.
unfoldable pub sent : ℕ → List (ℕ × WaitResult) → Option WaitResult
sent c [] = none
sent c ((d, r) ∷ log) = let rest = sent c log in if eqb d c then some r else rest

-- The status of the waiter on a channel.
abbrev pub HasStatus : Watcher → ℕ → Status → Type 0
HasStatus w c unregistered = w.channels ≤ c
HasStatus w c waiting =
    (k : String) × (p : PendingCmd) × (lookup k w.pending ≡ some p) × (p.channel ≡ c)
HasStatus w c abandoned =
    (c < w.channels)
    × (sent c w.delivered ≡ none)
    × ((k : String) (p : PendingCmd) → lookup k w.pending ≡ some p → p.channel ≢ c)
HasStatus w c (answered r) = (c < w.channels) × (sent c w.delivered ≡ some r)

pub Unsent-sent : (c : ℕ) (log : List (ℕ × WaitResult)) → Unsent c log → sent c log ≡ none
unfolding sent
Unsent-sent c [] u = refl
Unsent-sent c ((d, r) ∷ log) (other, u) = ground (arith, Unsent-sent c log u)

-- The part of the protocol that deliveries take.
abbrev pub Answers : Status → Status → Type 0
Answers unregistered y = y ≡ unregistered
Answers waiting y = (y ≡ waiting) ⊎ ((r : WaitResult) × (y ≡ answered r))
Answers abandoned y = y ≡ abandoned
Answers (answered r) y = y ≡ answered r

pub Answers-refl : (x : Status) → Answers x x
Answers-refl unregistered = refl
Answers-refl waiting = inl refl
Answers-refl abandoned = refl
Answers-refl (answered r) = refl

pub Answers-trans : (x y z : Status) → Answers x y → Answers y z → Answers x z
Answers-trans unregistered y z a b = subst (λ s. Answers s z) a b
Answers-trans waiting y z a b = elim a [
  | inl e ↦ subst (λ s. Answers s z) e b
  | inr (r, e) ↦ inr (r, subst (λ s. Answers s z) e b)
]
Answers-trans abandoned y z a b = subst (λ s. Answers s z) a b
Answers-trans (answered r) y z a b = subst (λ s. Answers s z) a b

pub Answers-Leads : (x y : Status) → Answers x y → Leads x y
Answers-Leads unregistered y a = inl a
Answers-Leads waiting y a = λ e. ground arith
Answers-Leads abandoned y a = a
Answers-Leads (answered r) y a = a

-- A waiter has no two statuses.
pub HasStatus-unique :
    (w : Watcher) (c : ℕ) (x y : Status) → IsSound w → HasStatus w c x → HasStatus w c y → x ≡ y
HasStatus-unique w c unregistered unregistered v h g = refl
HasStatus-unique w c unregistered waiting v h (k, p, e, same) = ground (arith, v.below k p e)
HasStatus-unique w c unregistered abandoned v h (below, none_sent, none_waits) = ground arith
HasStatus-unique w c unregistered (answered r) v h (below, g) = ground arith
HasStatus-unique w c waiting unregistered v (k, p, e, same) g = ground (arith, v.below k p e)
HasStatus-unique w c waiting waiting v h g = refl
HasStatus-unique w c waiting abandoned v (k, p, e, same) (below, none_sent, none_waits) =
    ground (arith, none_waits k p e)
HasStatus-unique w c waiting (answered r) v (k, p, e, same) (below, got) =
    ground (arith, Unsent-sent p.channel w.delivered (v.open_channels k p e))
HasStatus-unique w c abandoned unregistered v (below, none_sent, none_waits) g = ground arith
HasStatus-unique w c abandoned waiting v (below, none_sent, none_waits) (k, p, e, same) =
    ground (arith, none_waits k p e)
HasStatus-unique w c abandoned abandoned v h g = refl
HasStatus-unique w c abandoned (answered r) v (below, none_sent, none_waits) (b, got) = ground arith
HasStatus-unique w c (answered r) unregistered v (below, got) g = ground arith
HasStatus-unique w c (answered r) waiting v (below, got) (k, p, e, same) =
    ground (arith, Unsent-sent p.channel w.delivered (v.open_channels k p e))
HasStatus-unique w c (answered r) abandoned v (below, got) (b, none_sent, none_waits) = ground arith
HasStatus-unique w c (answered r) (answered q) v (below, got) (b, also) = ground arith
