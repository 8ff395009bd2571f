-- ===== src/Api/Requests/Histories/Rules.antt =====
-- The rules by which a route is followed: each of its parts keeps that the committed and the working
-- database have come about by steps of rooms.
use rolling_api.Prelude.{ℕ, ◌≡◌, refl, Option, none, arith, Result, ok, err, ApiError}
use rolling_api.Model.{Db, User, AuditAction, EntityType, Snapshot, room_row}
use rolling_api.Credit.{list_my_credits}
use rolling_api.Admin.{log_action}
use rolling_api.Auth
use rolling_api.Auth.{Crypto}
use rolling_api.Lifecycle.{RoomStep, RoomHistory}
use rolling_api.Api.{
  Conn, Tx, proceed, ◌>>=◌, return, raise, query, read, settled, call, commit, Http, log, actor_of,
}
use rolling_api.Api.Requests.{done}

-- Both the committed and the working database have come about by steps.
pub record IsTraced (start : Db) (c : Conn) : Type 0 where
  pub stored : RoomHistory start c.stored
  pub working : RoomHistory start c.working

pub record Keeps {A : Type 0} (start : Db) (route : Tx A) : Type 0 where
  pub after : (c : Conn) → IsTraced start c → IsTraced start (route c).1

-- A service makes a step when it returns.
abbrev pub Steps : {A : Type 0} → (Db → Result (A × Db)) → Type 0
Steps {A} service = (db db' : Db) (a : A) → service db ≡ ok (a, db') → RoomStep db db'

keeps_after :
    {A B : Type 0} (start : Db) (p : Result A × Conn) (rest : A → Tx B)
    → IsTraced start p.1
    → ((a : A) → Keeps start (rest a))
    → IsTraced start (proceed p rest).1
keeps_after start (ok a, c) rest t k = (k a).after c t
keeps_after start (err e, c) rest t k = t

pub Keeps-bind :
    {A B : Type 0} {start : Db} {m : Tx A} {rest : A → Tx B}
    → Keeps start m
    → ((a : A) → Keeps start (rest a))
    → Keeps start (m >>= rest)
unfolding ◌>>=◌
Keeps-bind {start} {m} {rest} h k = record {
  after = λ c t. keeps_after start (m c) rest (h.after c t) k;
}

keeps_settled :
    {A : Type 0} (start : Db) (service : Db → Result (A × Db)) (c : Conn) (r : Result (A × Db))
    → Steps service
    → service c.working ≡ r
    → IsTraced start c
    → IsTraced start (settled c r).1
keeps_settled start service c (ok (a, db')) steps e t = record {
  stored = t.stored;
  working = RoomHistory.and_then t.working (steps c.working db' a e);
}
keeps_settled start service c (err e') steps e t = t

pub Keeps-call :
    {A : Type 0} {start : Db} {service : Db → Result (A × Db)}
    → Steps service
    → Keeps start (call service)
unfolding call
Keeps-call {start} {service} steps = record {
  after = λ c t. keeps_settled start service c (service c.working) steps refl t;
}

pub Keeps-query : {A : Type 0} {start : Db} (service : Db → Result A) → Keeps start (query service)
unfolding query
Keeps-query service = record { after = λ c t. t }

pub Keeps-read : {A : Type 0} {start : Db} (service : Db → A) → Keeps start (read service)
unfolding read
Keeps-read service = record { after = λ c t. t }

pub Keeps-return : {A : Type 0} {start : Db} (a : A) → Keeps start (return a)
unfolding return
Keeps-return a = record { after = λ c t. t }

pub Keeps-raise : {A : Type 0} {start : Db} (e : ApiError) → Keeps {A = A} start (raise e)
unfolding raise
Keeps-raise e = record { after = λ c t. t }

pub Keeps-commit : {start : Db} → Keeps start commit
unfolding commit
Keeps-commit = record { after = λ c t. record { stored = t.working; working = t.working } }

logged :
    (http : Http) (user : User) (action : AuditAction) (entity : EntityType) (k : ℕ)
    (after : Option Snapshot)
    → Steps (λ db. ok (tt, log_action db (actor_of http user) action entity k none after))
unfolding log_action
logged http user action entity k after db db' a h = RoomStep.other (ground (arith, h))

pub logout-Steps : (user : User) (now : ℕ) → Steps (λ db. ok (tt, Auth.logout db user.id now))
unfolding Auth.logout
logout-Steps user now db db' a h = RoomStep.other (ground (arith, h))

pub credits-Steps : (user : User) (now : ℕ) → Steps (λ db. ok (list_my_credits db user.id now))
unfolding list_my_credits
credits-Steps user now db db' a h = RoomStep.other (ground (arith, h))

pub Keeps-log :
    {start : Db} (http : Http) (user : User) (action : AuditAction) (entity : EntityType) (k : ℕ)
    (after : Option Snapshot)
    → Keeps start (log http user action entity k after)
Keeps-log http user action entity k after = Keeps-call (logged http user action entity k after)

pub ruleset routes =
    (Keeps-bind, Keeps-query, Keeps-read, Keeps-return, Keeps-raise, Keeps-commit, Keeps-log)

pub Keeps-write :
    {A B : Type 0} {start : Db} {service : Db → Result (A × Db)} {rest : A → Tx B}
    → Steps service
    → ((a : A) → Keeps start (rest a))
    → Keeps start (done (call service >>= rest))
Keeps-write steps k = Keeps-bind (Keeps-bind (Keeps-call steps) k) λ _. Keeps-return tt

-- The same for the planner that the first query reads.
pub Keeps-operation :
    {A B C : Type 0} {start : Db} (reading : Db → Result C) {service : C → Db → Result (A × Db)}
    {rest : C → A → Tx B}
    → ((x : C) → Steps (service x))
    → ((x : C) (a : A) → Keeps start (rest x a))
    → Keeps start (done (query reading >>= λ x. call (service x) >>= rest x))
Keeps-operation reading steps k =
    Keeps-bind (Keeps-bind (Keeps-query reading) λ x. Keeps-bind (Keeps-call (steps x)) λ a. k x a)
      λ _. Keeps-return tt
