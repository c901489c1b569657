-- ===== src/Session/Fallible.antt =====
-- Chains of steps that may raise and that touch no session.
use nudging_tool.Session.{Result, ok, err}

module _ {A B : Type 0} where
  infixl 5 ◌>>=◌
  abbrev pub ◌>>=◌ : Result A → (A → Result B) → Result B
  ok a >>= f = f a
  err e >>= f = err e
