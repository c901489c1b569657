-- ===== src/Api/SendTest/Laws.antt =====
-- What a test push counts and which subscriptions it disables.
use nudging_tool.Prelude.{
  ℕ, suc, ◌+◌, String, ◌≡◌, refl, sym, ap, ◌∙◌, Bool, true, false, ◌==◌, none, some, List, [], ◌∷◌,
  map, length, select, contains, Bool-cases, arith, eq_iff, if◌then◌else◌, inl, inr,
}
use nudging_tool.Db.{WebPushSubscription}
use nudging_tool.Session.{Session, ok, pure, query, modify, commit, violation, ◌>>=◌}
use nudging_tool.Session.Bind.{bind-ok}
use nudging_tool.Env.{Env, PushOutcome, delivered, refused, broken}
use nudging_tool.Publishers.Web.{Tally, is_gone, get_vapid, push, count_push, push_all}
use nudging_tool.Api.SendTest.{
  SendTestRequest, SendTestResponse, is_test_target, test_push, send_test,
}

-- Whether the push service says that the subscription is gone.
abbrev pub outcome_gone : PushOutcome → Bool
outcome_gone delivered = false
outcome_gone (refused code error) = is_gone code
outcome_gone (broken e) = false

abbrev pub is_delivered : PushOutcome → Bool
is_delivered delivered = true
is_delivered _ = false

abbrev pub is_refused : PushOutcome → Bool
is_refused (refused code error) = true
is_refused _ = false

abbrev pub is_broken : PushOutcome → Bool
is_broken (broken e) = true
is_broken _ = false

-- The pushes whose outcome passes a test, where the first is the call of the given number.
abbrev pub pushes : (PushOutcome → Bool) → Env → ℕ → List WebPushSubscription → ℕ
pushes p env n [] = 0
pushes p env n (sub ∷ subs) =
    let rest = pushes p env (n + 1) subs in if p (env.webpush n sub) then rest + 1 else rest

abbrev one : Bool → ℕ
one true = 1
one false = 0

pushes-cons :
    (p : PushOutcome → Bool) (env : Env) (n : ℕ) (sub : WebPushSubscription)
    (subs : List WebPushSubscription)
    → pushes p env n (sub ∷ subs) ≡ one (p (env.webpush n sub)) + pushes p env (n + 1) subs
pushes-cons p env n sub subs = elim (Bool-cases (p (env.webpush n sub))) [
  | inl e ↦ rw e (omega arith)
  | inr e ↦ rw e (omega arith)
]

-- The subscriptions that are gone, where the first is pushed to by the call of the given number.
abbrev pub gone_ids : Env → ℕ → List WebPushSubscription → List String
gone_ids env n [] = []
gone_ids env n (sub ∷ subs) =
    let rest = gone_ids env (n + 1) subs in
    if outcome_gone (env.webpush n sub) then sub.id ∷ rest else rest

-- The rows with those of the ids disabled, and no other.
abbrev pub disable_all : List String → List WebPushSubscription → List WebPushSubscription
disable_all ids =
    map (λ (x : WebPushSubscription). if contains x.id ids then record x { enabled = false } else x)

abbrev disable_row : String → WebPushSubscription → WebPushSubscription
disable_row id x = if x.id == id then record x { enabled = false } else x

disable_all-cons :
    (id : String) (ids : List String) (rows : List WebPushSubscription)
    → disable_all ids (map (disable_row id) rows) ≡ disable_all (id ∷ ids) rows
disable_all-cons id ids [] = refl
disable_all-cons id ids (x ∷ rows) =
    ground (arith, eq_iff x.id id, eq_iff id x.id, disable_all-cons id ids rows)

disable_all-nil : (rows : List WebPushSubscription) → disable_all [] rows ≡ rows
disable_all-nil [] = refl
disable_all-nil (x ∷ rows) = ap (λ rest. x ∷ rest) (disable_all-nil rows)

-- The session after the pushes to a list of subscriptions.
abbrev pushed : Env → List WebPushSubscription → Session → Session
pushed env subs s = record s {
  calls = s.calls + length subs;
  working = record s.working {
    subscriptions = disable_all (gone_ids env s.calls subs) s.working.subscriptions;
  };
}

-- The session after one push, whose subscription is gone or not.
abbrev turned : Bool → String → Session → Session
turned gone id s = record s {
  calls = s.calls + 1;
  working = record s.working {
    subscriptions =
        if gone then map (disable_row id) s.working.subscriptions else s.working.subscriptions;
  };
}

abbrev no_pushes : Tally
no_pushes = record { sent = 0; failed = 0; last_error = none }

commits :
    (s : Session)
    → violation s.working ≡ none
    → commit s ≡ (ok tt, record s { committed = s.working })
unfolding commit
commits s h = rw h refl

still_valid :
    (env : Env) (subs : List WebPushSubscription) (s : Session)
    → violation s.working ≡ none
    → violation (pushed env subs s).working ≡ none
unfolding violation
still_valid env subs s h = h

one-false : (b : Bool) → one b ≡ 0 → b ≡ false
one-false true h = ground arith
one-false false h = refl

module _ (env : Env) where
  count_push-turned :
      (sub : WebPushSubscription) (outcome : PushOutcome) (t : Tally) (s : Session)
      → is_broken outcome ≡ false
      → (t' : Tally) × (count_push env sub outcome t (record s { calls = s.calls + 1 })
          ≡ (ok t', turned (outcome_gone outcome) sub.id s))
        × (t'.sent ≡ t.sent + one (is_delivered outcome))
        × (t'.failed ≡ t.failed + one (is_refused outcome))
  unfolding count_push pure modify ◌>>=◌
  count_push-turned sub delivered t s h = (record t { sent = t.sent + 1 }, refl, refl, omega arith)
  count_push-turned sub (refused code error) t s h = (
    record t { failed = t.failed + 1; last_error = some error },
    elim (Bool-cases (is_gone code)) [ inl e ↦ rw e refl | inr e ↦ rw e refl ],
    omega arith,
    refl,
  )
  count_push-turned sub (broken e) t s h = ground arith

  pushed-turned :
      (sub : WebPushSubscription) (subs : List WebPushSubscription) (s : Session)
      → pushed env subs (turned (outcome_gone (env.webpush s.calls sub)) sub.id s)
        ≡ pushed env (sub ∷ subs) s
  pushed-turned sub subs s =
      let calls : s.calls + 1 + length subs ≡ s.calls + suc (length subs) = omega arith in
      let rows = go (outcome_gone (env.webpush s.calls sub)) in
      λ i. record s { calls = calls i; working = record s.working { subscriptions = rows i } }
    where
      go :
          (gone : Bool)
          → disable_all (gone_ids env (s.calls + 1) subs) (
              if gone
              then map (disable_row sub.id) s.working.subscriptions
              else s.working.subscriptions)
            ≡ disable_all
                (if gone
                  then sub.id ∷ gone_ids env (s.calls + 1) subs
                  else gone_ids env (s.calls + 1) subs)
                s.working.subscriptions
      go true = disable_all-cons sub.id (gone_ids env (s.calls + 1) subs) s.working.subscriptions
      go false = refl

  push_all-pushed :
      (subs : List WebPushSubscription) (t : Tally) (s : Session)
      → pushes is_broken env s.calls subs ≡ 0
      → (t' : Tally) × (push_all env subs t s ≡ (ok t', pushed env subs s))
        × (t'.sent ≡ t.sent + pushes is_delivered env s.calls subs)
        × (t'.failed ≡ t.failed + pushes is_refused env s.calls subs)
  unfolding push_all pure push ◌>>=◌
  push_all-pushed [] t s h = (
    t,
    (let calls : s.calls ≡ s.calls + 0 = omega arith in
        let rows = sym (disable_all-nil s.working.subscriptions) in
        λ i. (
          ok t,
          record s { calls = calls i; working = record s.working { subscriptions = rows i } },
        )),
    omega arith,
    omega arith,
  )
  push_all-pushed (sub ∷ subs) t s h =
      let heads = pushes-cons is_broken env s.calls sub subs in
      let calm = one-false (is_broken (env.webpush s.calls sub)) (omega (arith, heads, h)) in
      let calm' : pushes is_broken env (s.calls + 1) subs ≡ 0 = omega (arith, heads, h) in
      let outcome = env.webpush s.calls sub in
      let next = turned (outcome_gone outcome) sub.id s in
      let (t1, counted, sum, fails) = count_push-turned sub outcome t s calm in
      let (t2, rest, sum', fails') = push_all-pushed subs t1 next calm' in
      (
        t2,
        bind-ok (count_push env sub outcome t) (λ t'. push_all env subs t')
              (record s { calls = s.calls + 1 }) t1 next counted
            ∙ rest
            ∙ ap (λ x. (ok t2, x)) (pushed-turned sub subs s),
        omega (arith, sum, sum', pushes-cons is_delivered env s.calls sub subs),
        omega (arith, fails, fails', pushes-cons is_refused env s.calls sub subs),
      )

  -- Where the VAPID settings are there, the rows of the session break no constraint, the filters find
  -- a subscription, and no push raises an exception other than a `WebPushException`, a test push
  -- answers: `sent` is the number of the pushes that were delivered and `failed` of those that were
  -- refused, each subscription found got one push, and what is durable is the rows of the session
  -- with exactly the subscriptions disabled of which the push service said that they are gone (404
  -- or 410).
  pub send_test-counts :
      (body : SendTestRequest) (key : String) (s : Session) (sub : WebPushSubscription)
      → (subs : List WebPushSubscription) → get_vapid env s ≡ (ok key, s)
      → violation s.working ≡ none
      → select (is_test_target body) s.working.subscriptions ≡ sub ∷ subs
      → pushes is_broken env s.calls (sub ∷ subs) ≡ 0
      → (r : SendTestResponse) × (t : Session) × (send_test env body s ≡ (ok r, t))
        × (r.sent ≡ pushes is_delivered env s.calls (sub ∷ subs))
        × (r.failed ≡ pushes is_refused env s.calls (sub ∷ subs))
        × (t.calls ≡ s.calls + length (sub ∷ subs))
        × (t.committed ≡ record s.working {
          subscriptions = disable_all (gone_ids env s.calls (sub ∷ subs)) s.working.subscriptions;
        })
  unfolding send_test test_push query ◌>>=◌ pure
  send_test-counts body key s sub subs configured valid found calm =
      let (t, done, sum, fails) = push_all-pushed (sub ∷ subs) no_pushes s calm in
      let u = pushed env (sub ∷ subs) s in
      let final : Session = record u { committed = u.working } in
      (
        record { status = "ok"; sent = t.sent; failed = t.failed },
        final,
        ap (λ rows. test_push env rows s) found
            ∙ bind-ok (get_vapid env) _ s key s configured
            ∙ bind-ok (push_all env (sub ∷ subs) no_pushes) _ s t u done
            ∙ bind-ok commit _ u tt final (commits u (still_valid env (sub ∷ subs) s valid)),
        omega (arith, sum),
        omega (arith, fails),
        refl,
        refl,
      )
