-- ===== src/Db/Valid/Keeps.antt =====
-- What an action keeps of the two views of the database, one rule for each way to build an action.
use leaf_flow_chat.Prelude.{Bool, true, false, if◌then◌else◌}
use leaf_flow_chat.Errors.{Error, Result, ok, err}
use leaf_flow_chat.Db.Models.{Db}
use leaf_flow_chat.Db.Session.{
  Session, Action, pure, raise, raise_if, query, uuid4, utc_now, server_time, continue, ◌>>=◌,
}

-- `m` keeps `P` of the committed and of the working database, whether it returns or raises.
pub record Keeps {A : Type 0} (P : Db → Db → Type 0) (m : Action A) : Type 0 where
  pub at : (s : Session) → P s.committed s.working → P (m s).1.committed (m s).1.working

module _ {A : Type 0} {P : Db → Db → Type 0} where
  -- A read returns or raises something and leaves the database alone.
  pub Keeps-query : (f : Db → A) → Keeps P (query f)
  unfolding ◌>>=◌
  Keeps-query f = record { at = λ s before. before }

  pub Keeps-pure : (a : A) → Keeps P (pure a)
  unfolding ◌>>=◌
  Keeps-pure a = record { at = λ s before. before }

  pub Keeps-raise : (e : Error) → Keeps P (raise {A = A} e)
  unfolding ◌>>=◌
  Keeps-raise e = record { at = λ s before. before }

  pub Keeps-either :
      (test : Bool) (a b : Action A) → Keeps P a → Keeps P b → Keeps P (if test then a else b)
  Keeps-either true a b kept other = kept
  Keeps-either false a b other kept = kept

module _ {P : Db → Db → Type 0} where
  pub Keeps-uuid4 : Keeps P uuid4
  unfolding ◌>>=◌
  Keeps-uuid4 = record { at = λ s h. h }

  pub Keeps-utc_now : Keeps P utc_now
  unfolding ◌>>=◌
  Keeps-utc_now = record { at = λ s h. h }

  pub Keeps-server_time : Keeps P server_time
  unfolding ◌>>=◌
  Keeps-server_time = record { at = λ s h. h }

  pub Keeps-raise_if : (b : Bool) (e : Error) → Keeps P (raise_if b e)
  unfolding ◌>>=◌
  Keeps-raise_if b e = record { at = λ s h. h }

module _ {A B : Type 0} {P : Db → Db → Type 0} where
  Keeps-continue :
      (r : Result A) (f : A → Action B) (s : Session)
      → ((a : A) → Keeps P (f a))
      → P s.committed s.working
      → P (continue r f s).1.committed (continue r f s).1.working
  Keeps-continue (ok a) f s kf h = (kf a).at s h
  Keeps-continue (err e) f s kf h = h

  -- one action after another, the second for every result of the first
  pub Keeps-then :
      (first : Action A) (rest : A → Action B)
      → Keeps P first
      → ((a : A) → Keeps P (rest a))
      → Keeps P (first >>= rest)
  unfolding ◌>>=◌
  Keeps-then first rest kept kept_rest = record {
    at = λ s before. Keeps-continue (first s).0 rest (first s).1 kept_rest (kept.at s before);
  }

pub ruleset keeps_rules = (
  Keeps-pure, Keeps-raise, Keeps-query, Keeps-either, Keeps-uuid4, Keeps-utc_now, Keeps-server_time,
  Keeps-raise_if, Keeps-then,
)
