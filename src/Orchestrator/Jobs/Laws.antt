-- ===== src/Orchestrator/Jobs/Laws.antt =====
-- The jobs of a nudge.
use nudging_tool.Prelude.{
  String, ◌<>◌, ◌≡◌, refl, ap, ◌∙◌, Bool-cases, inl, inr, Option, none, some, List, [], ◌∷◌, ◌++◌,
  map, All, is_empty, if◌then◌else◌,
}
use text.Mathlib.Text.{starts_with}
use nudging_tool.Orchestrator.Recipients.{explicit_email_recipients}
use nudging_tool.Db.{NudgeLog, Notification, UserPreference}
use nudging_tool.Session.{Session, ok, Exec, traverse, ◌>>=◌}
use nudging_tool.Env.{Env, uuid4}
use nudging_tool.Delivery.{Channel, web, email, DeliveryJob}
use nudging_tool.Orchestrator.Jobs.{
  is_email_only_ingest, web_destination, preferred_email, job_recipients, make_job, job_targets,
  build_delivery_jobs,
}

-- A job carries what its nudge and its notification say.
abbrev pub Carries : NudgeLog → Notification → DeliveryJob → Type 0
Carries n notification job =
    (job.nudge_id ≡ n.id)
    × (job.user_id ≡ n.user_id)
    × (job.rule_id ≡ n.rule_id)
    × (job.community_id ≡ n.community_id)
    × (job.dedup_key ≡ n.dedup_key)
    × (job.notification_id ≡ some notification.id)
    × (job.title ≡ notification.title)
    × (job.body ≡ notification.body)

-- The parts of a session that building jobs leaves alone.
abbrev pub SameRows : Session → Session → Type 0
SameRows s t = (t.committed ≡ s.committed) × (t.working ≡ s.working) × (t.calls ≡ s.calls)

abbrev pub target : DeliveryJob → Channel × String
target job = (job.channel, job.destination)

abbrev push_destination : String → Option String → String
push_destination user_id none = "web:" <> user_id
push_destination user_id (some c) =
    if is_empty c then "web:" <> user_id else "web:" <> user_id <> ":" <> c

-- The address of a preference, where mail is switched on.
abbrev mail_targets : Option UserPreference → List (Channel × String)
mail_targets none = []
mail_targets (some pref) =
    if pref.channel_email
    then elim pref.email [ none ↦ [] | some a ↦ if is_empty a then [] else (email, a) ∷ [] ]
    else []

-- Where the jobs of a nudge go, by the addresses that its event names.
abbrev pub wanted_targets : List String → NudgeLog → Option UserPreference → List (Channel × String)
wanted_targets [] n pref = (web, push_destination n.user_id n.community_id) ∷ mail_targets pref
wanted_targets (r ∷ rs) n pref =
    if starts_with n.user_id "email-ingest:"
    then map (λ a. (email, a)) (r ∷ rs)
    else (web, push_destination n.user_id n.community_id) ∷ map (λ a. (email, a)) (r ∷ rs)

web_destination-push : (u : String) (c : Option String) → web_destination u c ≡ push_destination u c
web_destination-push u none = refl
web_destination-push u (some String.[]) = refl
web_destination-push u (some (String.◌∷◌ c s)) = refl

recipients-mail :
    (pref : Option UserPreference)
    → map (λ (r : String). let x : Channel × String = (email, r) in x) (job_recipients [] pref)
      ≡ mail_targets pref
recipients-mail none = refl
recipients-mail (some pref) = elim (Bool-cases pref.channel_email) [
  | inl e ↦ rw e (address pref.email)
  | inr e ↦ rw e refl
]
  where
    address :
        (a : Option String)
        → map (λ (r : String). let x : Channel × String = (email, r) in x) (preferred_email a)
          ≡ elim a [ none ↦ [] | some a ↦ if is_empty a then [] else (email, a) ∷ [] ]
    address none = refl
    address (some String.[]) = refl
    address (some (String.◌∷◌ c s)) = refl

targets_from :
    (n : NudgeLog) (pref : Option UserPreference) (explicit : List String)
    → ((if is_email_only_ingest n explicit
          then []
          else (web, web_destination n.user_id n.community_id) ∷ [])
        ++ map (λ r. (email, r)) (job_recipients explicit pref))
      ≡ wanted_targets explicit n pref
unfolding is_email_only_ingest
targets_from n pref [] =
    let push = web_destination-push n.user_id n.community_id in
    let mail = recipients-mail pref in λ i. (web, push i) ∷ mail i
targets_from n pref (r ∷ rs) = elim (Bool-cases (starts_with n.user_id "email-ingest:")) [
  | inl e ↦ rw e refl
  | inr e ↦ rw (e, web_destination-push n.user_id n.community_id) refl
]

job_targets-wanted :
    (env : Env) (n : NudgeLog) (notification : Notification) (pref : Option UserPreference)
    → job_targets env n notification pref
      ≡ wanted_targets (explicit_email_recipients env.lower_other n.payload) n pref
unfolding job_targets
job_targets-wanted env n notification pref =
    targets_from n pref (explicit_email_recipients env.lower_other n.payload)

abbrev job_for : Env → NudgeLog → Notification → String → Channel × String → DeliveryJob
job_for env n notification id t = record {
  user_id = n.user_id;
  community_id = n.community_id;
  job_id = id;
  rule_id = n.rule_id;
  nudge_id = n.id;
  notification_id = some notification.id;
  channel = t.0;
  destination = t.1;
  title = notification.title;
  body = notification.body;
  dedup_key = n.dedup_key;
}

module _ (env : Env) (n : NudgeLog) (notification : Notification) where
  abbrev jobs_of : List (Channel × String) → Exec (List DeliveryJob)
  jobs_of targets = traverse (λ t. make_job env n notification t.0 t.1) targets

  -- What building jobs for a list of targets gives.
  record Built (wanted : List (Channel × String)) (s : Session) : Type 0 where
    jobs : List DeliveryJob
    result : (jobs_of wanted s).0 ≡ ok jobs
    targets : map target jobs ≡ wanted
    carries : All (Carries n notification) jobs
    rows : SameRows s (jobs_of wanted s).1

  build : (wanted : List (Channel × String)) (s : Session) → Built wanted s
  unfolding traverse make_job ◌>>=◌ uuid4
  build [] s = record {
    jobs = [];
    result = refl;
    targets = refl;
    carries = tt;
    rows = (refl, refl, refl);
  }
  build (t ∷ ts) s =
      let rest : Built ts (make_job env n notification t.0 t.1 s).1 = build ts _ in
      record {
        jobs = job_for env n notification (env.uuid s.draws) t ∷ rest.jobs;
        result = rw rest.result refl;
        targets = ap (λ xs. t ∷ xs) rest.targets;
        carries = ((refl, refl, refl, refl, refl, refl, refl, refl), rest.carries);
        rows = rw rest.result rest.rows;
      }

  -- Building the jobs of a nudge never fails and leaves the rows as they are. The jobs go to the
  -- push channel of the user and community, unless the event names addresses and its user is one of
  -- the ingest by e-mail; then to each address that the event names, or, where it names none, to
  -- that of the preference, if mail is switched on and there is one. Each job carries the nudge and
  -- the notification.
  pub build_delivery_jobs-Carries :
      (pref : Option UserPreference) (s : Session)
      → (jobs : List DeliveryJob) × ((build_delivery_jobs env n notification pref s).0 ≡ ok jobs)
        × (map target jobs
            ≡ wanted_targets (explicit_email_recipients env.lower_other n.payload) n pref)
        × All (Carries n notification) jobs
        × SameRows s (build_delivery_jobs env n notification pref s).1
  unfolding build_delivery_jobs
  build_delivery_jobs-Carries pref s =
      let b = build (job_targets env n notification pref) s in
      (b.jobs, b.result, b.targets ∙ job_targets-wanted env n notification pref, b.carries, b.rows)
