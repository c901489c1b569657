-- ===== src/Session/Bind.antt =====
-- Chains of actions taken apart: what a chain does from what its parts do, and the reverse.
use nudging_tool.Prelude.{◌≡◌, refl, sym, ap, none, some, List, [], ◌∷◌, length, arith}
use nudging_tool.Db.{Db}
use nudging_tool.Session.{
  Error, Session, Result, ok, err, Exec, raise, lift, modify, scalar_one_or_none, and_then, ◌>>=◌,
}

module _ {A B : Type 0} (m : Exec A) (f : A → Exec B) (s : Session) where
  pub bind-ok : (a : A) (t : Session) → m s ≡ (ok a, t) → (m >>= f) s ≡ f a t
  unfolding ◌>>=◌
  bind-ok a t h = ap (λ (o : Result A × Session). and_then o.0 f o.1) h

  pub bind-err : (e : Error) (t : Session) → m s ≡ (err e, t) → (m >>= f) s ≡ (err e, t)
  unfolding ◌>>=◌ raise
  bind-err e t h = ap (λ (o : Result A × Session). and_then o.0 f o.1) h

  -- A chain that gives a result has a first part that gives one.
  pub bind_parts :
      (b : B) (t : Session)
      → (m >>= f) s ≡ (ok b, t)
      → (a : A) × (u : Session) × (m s ≡ (ok a, u)) × (f a u ≡ (ok b, t))
  unfolding ◌>>=◌
  bind_parts b t h = go (m s).0 (m s).1 refl h
    where
      go :
          (r : Result A) (u : Session)
          → m s ≡ (r, u)
          → and_then r f u ≡ (ok b, t)
          → (a : A) × (u : Session) × (m s ≡ (ok a, u)) × (f a u ≡ (ok b, t))
      go (ok a) u e h = (a, u, e, h)
      go (err x) u e h = cc

module _ {A : Type 0} where
  pub lift_parts :
      (r : Result A) (s : Session) (a : A) (t : Session)
      → lift r s ≡ (ok a, t)
      → (r ≡ ok a) × (s ≡ t)
  unfolding lift
  lift_parts r s a t h =
      (ap (λ (o : Result A × Session). o.0) h, ap (λ (o : Result A × Session). o.1) h)

  pub scalar_none : (xs : List A) → scalar_one_or_none xs ≡ ok none → length xs ≡ 0
  scalar_none [] h = refl
  scalar_none (x ∷ []) h = cc
  scalar_none (x ∷ y ∷ rest) h = cc

  pub scalar_some : (xs : List A) (x : A) → scalar_one_or_none xs ≡ ok (some x) → length xs ≡ 1
  scalar_some [] x h = cc
  scalar_some (y ∷ []) x h = refl
  scalar_some (y ∷ z ∷ rest) x h = cc

  pub scalar_single :
      (xs : List A) → length xs ≡ 1 → (x : A) × (scalar_one_or_none xs ≡ ok (some x))
  scalar_single [] h = absurd (omega arith)
  scalar_single (x ∷ []) h = (x, refl)
  scalar_single (x ∷ y ∷ rest) h = absurd (omega (arith, h))

pub modify_parts : (f : Db → Db) (s t : Session) → modify f s ≡ (ok tt, t) → t.working ≡ f s.working
unfolding modify
modify_parts f s t h = ap (λ (o : Result Unit × Session). o.1.working) (sym h)
