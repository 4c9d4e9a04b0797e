-- ===== src/Controller/Match/Room.antt =====
-- The pods that lack room on the nodes there are (`isPendingForResources` of
-- internal/controller/pool_match.go).
use kamatera_autoscaler.Base.{
  Bool, true, List, [], ◌∷◌, ◌++◌, any, contains_text, ◌≡◌, refl, ap, arith, ◌⊎◌, inl, inr,
  Bool-cases,
}
use kamatera_autoscaler.Kube.{Pod, PodCondition}
use kamatera_autoscaler.Controller.Match.{lacks_room, is_pending_for_resources}

-- A condition that says that the scheduler found no room.
pub record SaysNoRoom (c : PodCondition) : Type 0 where
  pub kind : c.kind ≡ "PodScheduled"
  pub status : c.status ≡ "False"
  pub reason : c.reason ≡ "Unschedulable"
  pub short :
      (contains_text c.message "Insufficient cpu" ≡ true)
      ⊎ ((contains_text c.message "Insufficient memory" ≡ true)
          ⊎ (contains_text c.message "Insufficient ephemeral-storage" ≡ true))

-- A pending pod with such a condition.
pub record LacksRoom (p : Pod) : Type 0 where
  pub phase : p.phase ≡ "Pending"
  pub before : List PodCondition
  pub said : PodCondition
  pub after : List PodCondition
  pub conditions : p.conditions ≡ before ++ said ∷ after
  pub no_room : SaysNoRoom said

lacks_room-SaysNoRoom : (c : PodCondition) → lacks_room c ≡ true → SaysNoRoom c
lacks_room-SaysNoRoom c h = record {
  kind = ground arith;
  status = ground arith;
  reason = ground arith;
  short = ground arith;
}

SaysNoRoom-lacks_room : (c : PodCondition) → SaysNoRoom c → lacks_room c ≡ true
SaysNoRoom-lacks_room c h = ground (arith, h.kind, h.status, h.reason, h.short)

-- One that passes a test of `any`, and those around it.
any-split :
    {A : Type 0} (f : A → Bool) (l : List A)
    → any f l ≡ true
    → (before : List A) × (x : A) × (after : List A) × (l ≡ before ++ x ∷ after) × (f x ≡ true)
any-split f [] h = ground arith
any-split f (x ∷ l) h = elim (Bool-cases (f x)) [
  | inl hit ↦ ([], x, l, refl, hit)
  | inr miss ↦
      let (before, y, after, e, hit) = any-split f l (ground arith) in
      (x ∷ before, y, after, ap (◌∷◌ x) e, hit)
]

any-hit :
    {A : Type 0} (f : A → Bool) (before : List A) (x : A) (after : List A)
    → f x ≡ true
    → any f (before ++ x ∷ after) ≡ true
any-hit f [] x after h = ground arith
any-hit f (y ∷ before) x after h = ground (arith, any-hit f before x after h)

pub is_pending_for_resources-LacksRoom : (p : Pod) → is_pending_for_resources p ≡ true → LacksRoom p
unfolding is_pending_for_resources
is_pending_for_resources-LacksRoom p h =
    let (before, c, after, e, hit) = any-split lacks_room p.conditions (ground arith) in
    record {
      phase = ground arith;
      before = before;
      said = c;
      after = after;
      conditions = e;
      no_room = lacks_room-SaysNoRoom c hit;
    }

pub LacksRoom-is_pending_for_resources : (p : Pod) → LacksRoom p → is_pending_for_resources p ≡ true
unfolding is_pending_for_resources
LacksRoom-is_pending_for_resources p h =
    let hit = any-hit lacks_room h.before h.said h.after (SaysNoRoom-lacks_room h.said h.no_room) in
    ground (arith, h.phase, h.conditions, hit)
