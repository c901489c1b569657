-- ===== src/Session/Hoare.antt =====
-- Reasoning about actions by what holds before, after a result, and after an exception; one rule
-- for each way to build an action.
use nudging_tool.Prelude.{
  ◌+◌, String, ◌≡◌, refl, subst, Bool, true, false, Option, none, some, if◌then◌else◌,
}
use nudging_tool.Db.{Db}
use nudging_tool.Session.{
  Error, value_error, integrity_error, Session, Result, ok, err, Exec, pure, raise, lift, query,
  modify, commit, rollback, violation, commit_checked, ◌>>=◌, except_value_error,
  except_integrity_error,
}

abbrev pub EnsuresOf :
    {A : Type 0} → (A → Session → Type 0) → (Error → Session → Type 0) → Result A → Session → Type 0
EnsuresOf Q E (ok a) s = Q a s
EnsuresOf Q E (err e) s = E e s

-- From a session with `P` the action gives a result with `Q`, or raises and leaves `E`.
pub record Hoare {A : Type 0} (P : Session → Type 0) (m : Exec A) (Q : A → Session → Type 0)
    (E : Error → Session → Type 0) : Type 0 where
  pub at : (s : Session) → P s → EnsuresOf Q E (m s).0 (m s).1

module _ {A : Type 0} {Q : A → Session → Type 0} {E : Error → Session → Type 0} where
  ensures-map :
      {Q' : A → Session → Type 0} {E' : Error → Session → Type 0} (r : Result A) (s : Session)
      → ((a : A) (t : Session) → Q a t → Q' a t)
      → ((e : Error) (t : Session) → E e t → E' e t)
      → EnsuresOf Q E r s
      → EnsuresOf Q' E' r s
  ensures-map (ok a) s q e h = q a s h
  ensures-map (err x) s q e h = e x s h

  value_error_case :
      (handler : String → Exec A) (r : Result A) (s : Session)
      → ((e : String) → Hoare (E (value_error e)) (handler e) Q E)
      → EnsuresOf Q E r s
      → EnsuresOf Q E
          (except_value_error (lift r) handler s).0
          (except_value_error (lift r) handler s).1
  unfolding except_value_error lift raise
  value_error_case handler (ok a) s k h = h
  value_error_case handler (err (value_error e)) s k h = (k e).at s h
  value_error_case handler (err (integrity_error e)) s k h = h
  value_error_case handler (err _) s k h = h

  integrity_error_case :
      (handler : String → Exec A) (r : Result A) (s : Session)
      → ((e : String) → Hoare (E (integrity_error e)) (handler e) Q E)
      → EnsuresOf Q E r s
      → EnsuresOf Q E
          (except_integrity_error (lift r) handler s).0
          (except_integrity_error (lift r) handler s).1
  unfolding except_integrity_error lift raise
  integrity_error_case handler (ok a) s k h = h
  integrity_error_case handler (err (value_error e)) s k h = h
  integrity_error_case handler (err (integrity_error e)) s k h = (k e).at s h
  integrity_error_case handler (err _) s k h = h

module _ {A : Type 0} {P : Session → Type 0} {Q : A → Session → Type 0}
    {E : Error → Session → Type 0} where
  pub Hoare-pure : (a : A) → ((s : Session) → P s → Q a s) → Hoare P (pure a) Q E
  unfolding pure
  Hoare-pure a h = record { at = h }

  pub Hoare-raise : (e : Error) → ((s : Session) → P s → E e s) → Hoare P (raise e) Q E
  unfolding raise
  Hoare-raise e h = record { at = h }

  pub Hoare-lift :
      (r : Result A)
      → ((a : A) → r ≡ ok a → (s : Session) → P s → Q a s)
      → ((e : Error) (s : Session) → P s → E e s)
      → Hoare P (lift r) Q E
  unfolding lift
  Hoare-lift (ok a) q e = record { at = q a refl }
  Hoare-lift (err x) q e = record { at = e x }

  pub Hoare-query : (f : Db → A) → ((s : Session) → P s → Q (f s.working) s) → Hoare P (query f) Q E
  unfolding query
  Hoare-query f h = record { at = h }

  pub Hoare-if :
      (b : Bool) (m n : Exec A)
      → (b ≡ true → Hoare P m Q E)
      → (b ≡ false → Hoare P n Q E)
      → Hoare P (if b then m else n) Q E
  Hoare-if true m n hm hn = hm refl
  Hoare-if false m n hm hn = hn refl

  pub Hoare-weaken :
      {P' : Session → Type 0} {m : Exec A}
      → ((s : Session) → P' s → P s)
      → Hoare P m Q E
      → Hoare P' m Q E
  Hoare-weaken w h = record { at = λ s p. h.at s (w s p) }

  pub Hoare-strengthen :
      {Q' : A → Session → Type 0} {E' : Error → Session → Type 0} {m : Exec A}
      → Hoare P m Q E
      → ((a : A) (s : Session) → Q a s → Q' a s)
      → ((e : Error) (s : Session) → E e s → E' e s)
      → Hoare P m Q' E'
  Hoare-strengthen {m} h q e = record { at = λ s p. ensures-map (m s).0 (m s).1 q e (h.at s p) }

  pub Hoare-except_value_error :
      (m : Exec A) (handler : String → Exec A)
      → Hoare P m Q E
      → ((e : String) → Hoare (E (value_error e)) (handler e) Q E)
      → Hoare P (except_value_error m handler) Q E
  unfolding except_value_error lift
  Hoare-except_value_error m handler hm hh = record {
    at = λ s p. value_error_case handler (m s).0 (m s).1 hh (hm.at s p);
  }

  pub Hoare-except_integrity_error :
      (m : Exec A) (handler : String → Exec A)
      → Hoare P m Q E
      → ((e : String) → Hoare (E (integrity_error e)) (handler e) Q E)
      → Hoare P (except_integrity_error m handler) Q E
  unfolding except_integrity_error lift
  Hoare-except_integrity_error m handler hm hh = record {
    at = λ s p. integrity_error_case handler (m s).0 (m s).1 hh (hm.at s p);
  }

module _ {P : Session → Type 0} {E : Error → Session → Type 0} where
  pub Hoare-modify :
      {Q : Unit {0} → Session → Type 0} (f : Db → Db)
      → ((s : Session) → P s → Q tt (record s { working = f s.working }))
      → Hoare P (modify f) Q E
  unfolding modify
  Hoare-modify f h = record { at = h }

  pub Hoare-rollback :
      {Q : Unit {0} → Session → Type 0}
      → ((s : Session)
          → P s
          → Q tt (record s { working = s.committed; rollbacks = s.rollbacks + 1 }))
      → Hoare P rollback Q E
  unfolding rollback
  Hoare-rollback h = record { at = h }

  -- A commit either finds no violation and makes the rows durable, or raises and changes nothing.
  pub Hoare-commit :
      {Q : Unit {0} → Session → Type 0}
      → ((s : Session)
          → P s
          → violation s.working ≡ none
          → Q tt (record s { committed = s.working }))
      → ((c : String) (s : Session)
          → P s
          → E (integrity_error c) (record s { rollbacks = s.rollbacks + 1 }))
      → Hoare P commit Q E
  unfolding commit
  Hoare-commit {Q} q e = record { at = λ s p. go s p (violation s.working) refl }
    where
      go :
          (s : Session)
          → P s
          → (v : Option String) → violation s.working ≡ v
          → EnsuresOf Q E (commit_checked v s).0 (commit_checked v s).1
      go s p none h = q s p h
      go s p (some c) h = e c s p

module _ {A B : Type 0} {E : Error → Session → Type 0} {Q : A → Session → Type 0}
    {R : B → Session → Type 0} where
  bind_case :
      (f : A → Exec B) (r : Result A) (s : Session)
      → ((a : A) → Hoare (Q a) (f a) R E)
      → EnsuresOf Q E r s
      → EnsuresOf R E (((lift r) >>= f) s).0 (((lift r) >>= f) s).1
  unfolding ◌>>=◌ lift
  bind_case f (ok a) s k h = (k a).at s h
  bind_case f (err x) s k h = h

module _ {A B : Type 0} {P : Session → Type 0} {E : Error → Session → Type 0}
    {Q : A → Session → Type 0} {R : B → Session → Type 0} where
  pub Hoare-bind :
      (m : Exec A) (f : A → Exec B)
      → Hoare P m Q E
      → ((a : A) → Hoare (Q a) (f a) R E)
      → Hoare P (m >>= f) R E
  unfolding ◌>>=◌
  Hoare-bind m f hm hf = record { at = λ s p. bind_case f (m s).0 (m s).1 hf (hm.at s p) }

module _ {A : Type 0} {P : Session → Type 0} {Q : A → Session → Type 0}
    {E : Error → Session → Type 0} {m : Exec A} where
  -- To use a triple at a session.
  pub Hoare-ok : Hoare P m Q E → (s : Session) → P s → (a : A) → (m s).0 ≡ ok a → Q a (m s).1
  Hoare-ok h s p a e = subst (λ r. EnsuresOf Q E r (m s).1) e (h.at s p)

  pub Hoare-err : Hoare P m Q E → (s : Session) → P s → (x : Error) → (m s).0 ≡ err x → E x (m s).1
  Hoare-err h s p x e = subst (λ r. EnsuresOf Q E r (m s).1) e (h.at s p)
