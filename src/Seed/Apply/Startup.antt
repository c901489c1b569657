-- ===== src/Seed/Apply/Startup.antt =====
-- The seed at the start of the application, beside the route's.
use nudging_tool.Prelude.{String, ◌≡◌, refl, sym, Bool, false, ◌&&◌, some, [], is_nil}
use nudging_tool.Session.{Session, Result, ok, err, Exec, pure, lift, for_each, ◌>>=◌}
use nudging_tool.Env.{Env}
use nudging_tool.Seed.Columns.{Columns}
use nudging_tool.Seed.Table.{upsert_all}
use nudging_tool.Seed.Apply.{SeedData, seed_dir_of, auto_seed, upsert_seed, seed_apply}

then-pure :
    {A B : Type 0} (m : Exec A) (b : B) (s : Session) → ((m >>= (λ _. pure b)) s).1 ≡ (m s).1
unfolding ◌>>=◌ pure lift
then-pure {A} m b s = go (m s).0
  where
    go : (r : Result A) → ((lift r >>= (λ _. pure b)) (m s).1).1 ≡ (m s).1
    go (ok a) = refl
    go (err e) = refl

module _ (env : Env) (columns : Columns) (exists : String → Bool) (load : String → Result SeedData)
    (s : Session) where
  -- Where the seed directory of the settings is set and there, can be loaded, and gives a rule, a
  -- template or a preference, the application's start leaves the session that `seed_apply` leaves
  -- for the same items without their overrides.
  pub auto_seed-seed_apply :
      (dir : String) (seeds : SeedData)
      → seed_dir_of exists env.settings.seed_dir ≡ some dir
      → load dir ≡ ok seeds
      → (is_nil seeds.rules && is_nil seeds.templates && is_nil seeds.preferences) ≡ false
      → (auto_seed env columns exists load s).1
        ≡ (seed_apply env columns
            (record {
              rules = seeds.rules;
              templates = seeds.templates;
              preferences = seeds.preferences;
              overrides = [];
            })
            s).1
  unfolding auto_seed seed_apply upsert_seed upsert_all for_each pure lift ◌>>=◌
  auto_seed-seed_apply dir seeds set loaded some_items =
      rw (set, loaded, some_items)
        (sym (
          then-pure (upsert_seed env columns seeds.rules seeds.templates seeds.preferences []) _ s))
