-- ===== src/Api/Requests/Rollback/Rules.antt =====
-- The rules by which a route is followed: an error leaves what is committed as it was.
use rolling_api.Prelude.{◌≡◌, refl, ◌∙◌, Result, ok, err, ApiError}
use rolling_api.Model.{Db}
use rolling_api.Api.{Conn, Tx, proceed, ◌>>=◌, return, raise, query, read, settled, call, commit}

-- The route does not commit.
pub record Holds {A : Type 0} (route : Tx A) : Type 0 where
  pub same : (c : Conn) → (route c).1.stored ≡ c.stored

-- Where the route ends in an error, it has not committed.
pub record RollsBack {A : Type 0} (route : Tx A) : Type 0 where
  pub same : (c : Conn) (e : ApiError) → (route c).0 ≡ err e → (route c).1.stored ≡ c.stored

-- The route does not end in an error.
pub record Answers {A : Type 0} (route : Tx A) : Type 0 where
  pub value : (c : Conn) → (a : A) × ((route c).0 ≡ ok a)

pub Holds-query : {A : Type 0} (service : Db → Result A) → Holds (query service)
unfolding query
Holds-query service = record { same = λ c. refl }

pub Holds-read : {A : Type 0} (service : Db → A) → Holds (read service)
unfolding read
Holds-read service = record { same = λ c. refl }

pub Holds-return : {A : Type 0} (a : A) → Holds (return a)
unfolding return
Holds-return a = record { same = λ c. refl }

pub Holds-raise : {A : Type 0} (e : ApiError) → Holds {A = A} (raise e)
unfolding raise
Holds-raise e = record { same = λ c. refl }

stored-settled : {A : Type 0} (c : Conn) (r : Result (A × Db)) → (settled c r).1.stored ≡ c.stored
stored-settled c (ok (a, db)) = refl
stored-settled c (err e) = refl

pub Holds-call : {A : Type 0} (service : Db → Result (A × Db)) → Holds (call service)
unfolding call
Holds-call service = record { same = λ c. stored-settled c (service c.working) }

pub RollsBack-of_Holds : {A : Type 0} {route : Tx A} → Holds route → RollsBack route
RollsBack-of_Holds h = record { same = λ c e _. h.same c }

proceed_same :
    {A B : Type 0} (c : Conn) (p : Result A × Conn) (rest : A → Tx B)
    → p.1.stored ≡ c.stored
    → ((a : A) → RollsBack (rest a))
    → (e : ApiError) → (proceed p rest).0 ≡ err e
    → (proceed p rest).1.stored ≡ c.stored
proceed_same c (ok a, d) rest h k e out = (k a).same d e out ∙ h
proceed_same c (err e', d) rest h k e out = h

pub RollsBack-bind :
    {A B : Type 0} {m : Tx A} {rest : A → Tx B}
    → Holds m
    → ((a : A) → RollsBack (rest a))
    → RollsBack (m >>= rest)
unfolding ◌>>=◌
RollsBack-bind {m} {rest} h k = record {
  same = λ c e out. proceed_same c (m c) rest (h.same c) k e out;
}

ok-ne-err : {A : Type 0} (a : A) (e : ApiError) (r : Result A) → r ≡ ok a → r ≡ err e → ⊥
ok-ne-err a e r p q = cc

-- What follows the last commit answers.
pub RollsBack-of_Answers : {A : Type 0} {route : Tx A} → Answers route → RollsBack route
RollsBack-of_Answers h = record {
  same = λ c e out. absurd (ok-ne-err (h.value c).0 e _ (h.value c).1 out);
}

proceed_then :
    {A B : Type 0} (c : Conn) (p : Result A × Conn) (rest : A → Tx B)
    → ((e : ApiError) → p.0 ≡ err e → p.1.stored ≡ c.stored)
    → ((a : A) → Answers (rest a))
    → (e : ApiError) → (proceed p rest).0 ≡ err e
    → (proceed p rest).1.stored ≡ c.stored
proceed_then c (ok a, d) rest h k e out =
    absurd (ok-ne-err ((k a).value d).0 e _ ((k a).value d).1 out)
proceed_then c (err e', d) rest h k e out = h e' refl

-- What a route does after its last commit, where that answers.
pub RollsBack-then :
    {A B : Type 0} {m : Tx A} {rest : A → Tx B}
    → RollsBack m
    → ((a : A) → Answers (rest a))
    → RollsBack (m >>= rest)
unfolding ◌>>=◌
RollsBack-then {m} {rest} h k = record {
  same = λ c e out. proceed_then c (m c) rest (h.same c) k e out;
}

proceed-Answers :
    {A B : Type 0} (p : Result A × Conn) (rest : A → Tx B) (a : A)
    → p.0 ≡ ok a
    → ((a : A) → Answers (rest a))
    → (b : B) × ((proceed p rest).0 ≡ ok b)
proceed-Answers (ok a', d) rest a h k = (k a').value d
proceed-Answers (err e, d) rest a h k = cc

pub Answers-bind :
    {A B : Type 0} {m : Tx A} {rest : A → Tx B}
    → Answers m
    → ((a : A) → Answers (rest a))
    → Answers (m >>= rest)
unfolding ◌>>=◌
Answers-bind {m} {rest} h k = record {
  value = λ c. proceed-Answers (m c) rest (h.value c).0 (h.value c).1 k;
}

pub Answers-commit : Answers commit
unfolding commit
Answers-commit = record { value = λ c. (tt, refl) }

pub Answers-return : {A : Type 0} (a : A) → Answers (return a)
unfolding return
Answers-return a = record { value = λ c. (a, refl) }

pub Answers-read : {A : Type 0} (service : Db → A) → Answers (read service)
unfolding read
Answers-read service = record { value = λ c. (service c.working, refl) }

pub ruleset rollback = (
  RollsBack-bind, RollsBack-then, Holds-query, Holds-read, Holds-return, Holds-raise, Holds-call,
  RollsBack-of_Answers, Answers-bind, Answers-commit, Answers-return, Answers-read,
  RollsBack-of_Holds,
)

settled_then :
    {A B : Type 0} (c : Conn) (r : Result (A × Db)) (rest : A → Tx B)
    → ((a : A) (db : Db)
        → r ≡ ok (a, db)
        → (b : B) × ((rest a (record c { working = db })).0 ≡ ok b))
    → (e : ApiError) → (proceed (settled c r) rest).0 ≡ err e
    → (proceed (settled c r) rest).1.stored ≡ c.stored
settled_then c (ok (a, db)) rest k e out =
    absurd (ok-ne-err (k a db refl).0 e _ (k a db refl).1 out)
settled_then c (err e') rest k e out = refl

-- A service that writes, and what answers wherever the service has returned.
pub RollsBack-call :
    {A B : Type 0} (service : Db → Result (A × Db)) (rest : A → Tx B)
    → ((c : Conn) (a : A) (db : Db)
        → service c.working ≡ ok (a, db)
        → (b : B) × ((rest a (record c { working = db })).0 ≡ ok b))
    → RollsBack (call service >>= rest)
unfolding ◌>>=◌ call
RollsBack-call service rest k = record {
  same = λ c e out. settled_then c (service c.working) rest (k c) e out;
}
