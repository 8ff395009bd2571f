-- ===== src/Lifecycle/Runs.antt =====
-- A history of requests is a life of every room in the state machine of Machine.antt.
use mathlib.Core.Option
use rolling_api.Prelude.{
  ℕ, ◌≡◌, refl, inl, inr, ap, ◌∙◌, Option, none, some, [], ◌∷◌, ◌++◌, arith, ◌==◌, ==_iff, get,
  key-get, find-append, find-append_some, get-save_self, get-save_ne, Option-cases, Bool-cases,
}
use rolling_api.Model.{Db, Room, RoomStatus, room_row}
use rolling_api.Lifecycle.{RoomHistory}
use rolling_api.Lifecycle.Machine.{Phase, Transition, Life, phase, seen, phase_in}
use rolling_api.Lifecycle.Moves.{Touch, step-Touch}

-- a transition between phases that are known by equations
between : (p q p' q' : Option Phase) → p ≡ p' → q ≡ q' → Transition p' q' → Transition p q
between p q p' q' e f t = rw (e, f) t

phase-got : (db : Db) (k : ℕ) (a : Room) → get k db.rooms ≡ some a → phase_in db k ≡ some (seen a)
phase-got db k a g = ap (Option.map seen) g

-- the row is the room's first one, or the room has one already, or the row is another room's
added_step :
    (db db' : Db) (k : ℕ) (b : Room)
    → seen b ≡ phase b.host_user_id RoomStatus.draft none
    → db'.rooms ≡ db.rooms ++ b ∷ []
    → Transition (phase_in db k) (phase_in db' k)
unfolding get
added_step db db' k b f e = elim (Option-cases (get k db.rooms)) [
  | inr (a, there) ↦
      between _ _ (some (seen a)) (some (seen a)) (phase-got db k a there)
        (phase-got db' k a (rw e (find-append_some _ db.rooms (b ∷ []) a there))) Transition.stay
  | inl absent ↦
      let after : get k db'.rooms ≡ get k (b ∷ []) =
        rw e (find-append _ db.rooms (b ∷ []) absent) in
      elim (Bool-cases (b.id == k)) [
        | inl same ↦
            between _ _ none (some (phase b.host_user_id RoomStatus.draft none))
              (ap (Option.map seen) absent)
              (phase-got db' k b (ground (arith, after, same)) ∙ ap some f) Transition.create
        | inr other ↦
            let nowhere : get k db'.rooms ≡ none = ground (arith, after, other) in
            between _ _ none none (ap (Option.map seen) absent) (ap (Option.map seen) nowhere)
              Transition.stay
      ]
]

Touch-Transition :
    (db db' : Db) (k : ℕ) → Touch db db' → Transition (phase_in db k) (phase_in db' k)
unfolding get
Touch-Transition db db' k (Touch.untouched e) =
    between _ _ (phase_in db k) (phase_in db k) refl (ap (λ rs. Option.map seen (get k rs)) e)
      Transition.stay
Touch-Transition db db' k (Touch.added b l p f e) = added_step db db' k b f e
Touch-Transition db db' k (Touch.changed j old b found m e) = elim (Bool-cases (j == k)) [
  | inl same ↦
      let jk = (==_iff j k).0 same in
      let key = key-get j db.rooms old found in
      let id = m.id in
      let at_id : get b.id db.rooms ≡ some old = ground (arith, id, key, found) in
      let there = get-save_self b db.rooms old at_id in
      between _ _ (some (seen old)) (some (seen b)) (phase-got db k old (ground (arith, jk, found)))
        (phase-got db' k b (ground (arith, e, id, key, jk, there))) m.step
  | inr differs ↦
      let key = key-get j db.rooms old found in
      let id = m.id in
      let apart = get-save_ne k b db.rooms (λ q. ground (arith, differs, id, key, q)) in
      between _ _ (phase_in db k) (phase_in db k) refl
        (ap (λ rs. Option.map seen (get k rs)) e ∙ ap (Option.map seen) apart) Transition.stay
]

-- Whatever the history, every room has gone through a life of the state machine.
pub history-Life :
    (db db' : Db) (k : ℕ) → RoomHistory db db' → Life (phase_in db k) (phase_in db' k)
history-Life db db' k RoomHistory.begin = Life.begin
history-Life db db' k (RoomHistory.and_then {db' = middle} h t) =
    Life.and_then (history-Life db middle k h)
      (Touch-Transition middle db' k (step-Touch middle db' t))
