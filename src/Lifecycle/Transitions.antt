-- ===== src/Lifecycle/Transitions.antt =====
-- Transitions of a room that is given by equations, as the operations' guards and writes give them.
use rolling_api.Prelude.{ℕ, ◌≡◌, ◌⊎◌, inl, inr, refl, true, some, arith}
use rolling_api.Model.{Room, RoomStatus}
use rolling_api.Viability.{is_recruiting}
use rolling_api.Admin.{is_assignable}
use rolling_api.Lifecycle.Machine.{Phase, Transition, phase, seen}

-- a transition between rows that are known by equations
pub step_by :
    (a b : Room) (p q : Phase)
    → seen a ≡ p
    → seen b ≡ q
    → Transition (some p) (some q)
    → Transition (some (seen a)) (some (seen b))
step_by a b p q e f t = rw (e, f) t

pub assign_step :
    (a b : Room) (q : ℕ)
    → is_assignable a.status ≡ true
    → seen b ≡ phase a.host_user_id RoomStatus.assigned (some q)
    → Transition (some (seen a)) (some (seen b))
assign_step a b q h e = elim (assignable_cases a.status h) [
  | inl was ↦
      step_by a b (phase a.host_user_id RoomStatus.viable a.planner_id) _ (ground (arith, was)) e
        Transition.assign
  | inr was ↦
      step_by a b (phase a.host_user_id RoomStatus.assigned a.planner_id) _ (ground (arith, was)) e
        Transition.reassign
]
  where
    assignable_cases :
        (s : RoomStatus)
        → is_assignable s ≡ true
        → (s ≡ RoomStatus.viable) ⊎ (s ≡ RoomStatus.assigned)
    assignable_cases RoomStatus.viable h = inl refl
    assignable_cases RoomStatus.assigned h = inr refl
    assignable_cases RoomStatus.draft h = cc
    assignable_cases RoomStatus.published h = cc
    assignable_cases RoomStatus.recruiting h = cc
    assignable_cases RoomStatus.confirmed h = cc
    assignable_cases RoomStatus.in_progress h = cc
    assignable_cases RoomStatus.completed h = cc
    assignable_cases RoomStatus.cancelled h = cc

pub promote_step :
    (a b : Room)
    → is_recruiting a.status ≡ true
    → seen b ≡ phase a.host_user_id RoomStatus.viable a.planner_id
    → Transition (some (seen a)) (some (seen b))
promote_step a b h e = elim (recruiting_cases a.status h) [
  | inl was ↦
      step_by a b (phase a.host_user_id RoomStatus.published a.planner_id) _ (ground (arith, was)) e
        Transition.promote
  | inr was ↦
      step_by a b (phase a.host_user_id RoomStatus.recruiting a.planner_id) _ (ground (arith, was))
        e Transition.promote_recruiting
]
  where
    recruiting_cases :
        (s : RoomStatus)
        → is_recruiting s ≡ true
        → (s ≡ RoomStatus.published) ⊎ (s ≡ RoomStatus.recruiting)
    recruiting_cases RoomStatus.published h = inl refl
    recruiting_cases RoomStatus.recruiting h = inr refl
    recruiting_cases RoomStatus.draft h = cc
    recruiting_cases RoomStatus.viable h = cc
    recruiting_cases RoomStatus.assigned h = cc
    recruiting_cases RoomStatus.confirmed h = cc
    recruiting_cases RoomStatus.in_progress h = cc
    recruiting_cases RoomStatus.completed h = cc
    recruiting_cases RoomStatus.cancelled h = cc
