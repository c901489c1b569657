-- ===== src/Seed/Items/Laws.antt =====
-- The four tables of the seed keep the laws that the theorems on repeated upserts need.
use nudging_tool.Prelude.{
  ◌+◌, String, true, ◌&&◌, ◌≡◌, ◌↔◌, refl, sym, ap, ◌∙◌, Option, none, some, ◌==◌, eq_iff, arith,
}
use nudging_tool.Db.{Rule, RuleOverride, Template, UserPreference}
use nudging_tool.Json.{Dict, str, get, or_else}
use nudging_tool.Session.{Session, Result, ok, lift, pure, ◌>>=◌}
use nudging_tool.Session.Bind.{bind_parts, lift_parts}
use nudging_tool.Env.{Env, uuid4, utc_now}
use nudging_tool.Seed.Columns.{Columns}
use nudging_tool.Seed.Table.{IsTable}
use nudging_tool.Seed.Items.{
  rule_table, override_table, template_table, preference_table, lang_after, assigned, new_rule,
  new_override, new_template, added_preference, first_lang, tpl_id, same_option, same_owner,
  assign_preference,
}

result_parts :
    {A : Type 0} (a b : A) (s t : Session)
    → (let x : Result A × Session = (ok a, s) in x) ≡ (ok b, t)
    → (a ≡ b) × (s ≡ t)
result_parts a b s t h = (cc, cc)

pair_iff : (a b : String × String) → ((a.0 == b.0 && a.1 == b.1) ≡ true) ↔ (a ≡ b)
pair_iff a b = (
  λ h.
      (let e0 = (eq_iff a.0 b.0).0 (ground arith) in
        let e1 = (eq_iff a.1 b.1).0 (ground arith) in λ i. (e0 i, e1 i)),
  λ h. ground (
    arith,
    eq_iff a.0 b.0,
    eq_iff a.1 b.1,
    ap (λ (o : String × String). o.0) h,
    ap (λ (o : String × String). o.1) h,
  ),
)

option_iff : (a b : Option String) → (same_option a b ≡ true) ↔ (a ≡ b)
option_iff none none = (λ h. refl, λ h. refl)
option_iff none (some b) = (λ h. cc, λ h. cc)
option_iff (some a) none = (λ h. cc, λ h. cc)
option_iff (some a) (some b) = (λ h. ap some ((eq_iff a b).0 h), λ h. (eq_iff a b).1 cc)

owner_iff : (a b : String × Option String) → (same_owner a b ≡ true) ↔ (a ≡ b)
owner_iff a b = (
  λ h.
      (let e0 = (eq_iff a.0 b.0).0 (ground arith) in
        let e1 = (option_iff a.1 b.1).0 (ground arith) in λ i. (e0 i, e1 i)),
  λ h. ground (
    arith,
    (eq_iff a.0 b.0).1 (ap (λ (o : String × Option String). o.0) h),
    (option_iff a.1 b.1).1 (ap (λ (o : String × Option String). o.1) h),
  ),
)

lang_after_idem :
    (d : String) (p : Option String) (x : String)
    → lang_after d p (lang_after d p x) ≡ lang_after d p x
lang_after_idem d none x = ground arith
lang_after_idem d (some v) x = refl

lang_after_after :
    (d : String) (p q : Option String) (x y : String)
    → lang_after d p x ≡ lang_after d p y
    → lang_after d p (lang_after d q x) ≡ lang_after d p (lang_after d q y)
lang_after_after d p (some v) x y h = refl
lang_after_after d (some w) none x y h = refl
lang_after_after d none none x y h = ap (lang_after d none) h

module _ {A : Type 0} where
  assigned_idem : (p : Option A) (x : A) → assigned p (assigned p x) ≡ assigned p x
  assigned_idem none x = refl
  assigned_idem (some v) x = refl

  assigned_after :
      (p q : Option A) (x y : A)
      → assigned p x ≡ assigned p y
      → assigned p (assigned q x) ≡ assigned p (assigned q y)
  assigned_after p (some v) x y h = refl
  assigned_after (some w) none x y h = refl
  assigned_after none none x y h = h

module _ (columns : Columns) where
  pub rule_table-IsTable : IsTable (rule_table columns)
  unfolding new_rule pure
  rule_table-IsTable = record {
    rows-set_rows = λ xs db. refl;
    set_rows-set_rows = λ xs ys db. refl;
    set_rows-rows = λ db. refl;
    same_iff = eq_iff;
    key_of-new_row = λ k item s t r h.
        (let (made, kept) = result_parts _ r s t h in
          (ap (λ (x : Rule). x.id) (sym made), ap (λ (x : Session). x.working) (sym kept)));
    key_of-assign = λ p r. refl;
    assign_idem = λ p r. refl;
    assign_after = λ p q x y h. h;
  }

  pub override_table-IsTable : IsTable (override_table columns)
  unfolding new_override pure
  override_table-IsTable = record {
    rows-set_rows = λ xs db. refl;
    set_rows-set_rows = λ xs ys db. refl;
    set_rows-rows = λ db. refl;
    same_iff = pair_iff;
    key_of-new_row = λ k item s t r h.
        (let (made, kept) = result_parts _ r s t h in
          (
            ap (λ (x : RuleOverride). (x.rule_id, x.community_id)) (sym made),
            ap (λ (x : Session). x.working) (sym kept),
          ));
    key_of-assign = λ p r. refl;
    assign_idem = λ p r i. record r {
      enabled_override = assigned_idem p.enabled_override r.enabled_override i;
      definition_override = assigned_idem p.definition_override r.definition_override i;
    };
    assign_after = λ p q x y h.
        (let enabled =
            assigned_after p.enabled_override q.enabled_override x.enabled_override
              y.enabled_override (ap (λ (o : RuleOverride). o.enabled_override) h) in
          let definition =
            assigned_after p.definition_override q.definition_override x.definition_override
              y.definition_override (ap (λ (o : RuleOverride). o.definition_override) h) in
          λ i. record (h i) { enabled_override = enabled i; definition_override = definition i });
  }

module _ (env : Env) (columns : Columns) where
  template_made :
      (k : String × String) (t : Dict) (s u : Session) (r : Template)
      → new_template env columns k t s ≡ (ok r, u)
      → ((let x : String × String = (r.rule_id, r.lang) in x) ≡ k) × (u.working ≡ s.working)
  unfolding new_template pure
  template_made k t s u r h =
      let (id, v, read, made) =
        bind_parts
          (lift (columns.text "templates.id" (or_else (get "id" t) (str (tpl_id k.0 k.1))))) _ s r u
          h in
      let (e, same) = lift_parts _ s id v read in
      let (row, kept) = result_parts _ r v u made in
      (
        ap (λ (x : Template). (x.rule_id, x.lang)) (sym row),
        ap (λ (x : Session). x.working) (sym (same ∙ kept)),
      )

  pub template_table-IsTable : IsTable (template_table env columns)
  unfolding new_template
  template_table-IsTable = record {
    rows-set_rows = λ xs db. refl;
    set_rows-set_rows = λ xs ys db. refl;
    set_rows-rows = λ db. refl;
    same_iff = pair_iff;
    key_of-new_row = template_made;
    key_of-assign = λ p r. refl;
    assign_idem = λ p r. refl;
    assign_after = λ p q x y h. h;
  }

  preference_made :
      (k : String × Option String) (p : Dict) (s u : Session) (r : UserPreference)
      → added_preference env columns k p s ≡ (ok r, u)
      → ((let x : String × Option String = (r.user_id, r.community_id) in x) ≡ k)
        × (u.working ≡ s.working)
  unfolding added_preference uuid4 utc_now pure ◌>>=◌
  preference_made k p s u r h =
      let drawn : Session = record s { draws = s.draws + 1; ticks = s.ticks + 1 } in
      let (lang, v, read, made) = bind_parts (lift (first_lang env columns p)) _ drawn r u h in
      let (e, same) = lift_parts _ drawn lang v read in
      let (row, kept) = result_parts _ r v u made in
      (
        ap (λ (x : UserPreference). (x.user_id, x.community_id)) (sym row),
        ap (λ (x : Session). x.working) (sym (same ∙ kept)),
      )

  pub preference_table-IsTable : IsTable (preference_table env columns)
  unfolding added_preference uuid4 utc_now pure ◌>>=◌
  preference_table-IsTable = record {
    rows-set_rows = λ xs db. refl;
    set_rows-set_rows = λ xs ys db. refl;
    set_rows-rows = λ db. refl;
    same_iff = owner_iff;
    key_of-new_row = preference_made;
    key_of-assign = λ p r. refl;
    assign_idem = λ p r i. record (assign_preference env columns p r) {
      lang = lang_after_idem env.settings.default_lang p.lang r.lang i;
    };
    assign_after = λ p q x y h.
        (let lang =
            lang_after_after env.settings.default_lang p.lang q.lang x.lang y.lang
              (ap (λ (o : UserPreference). o.lang) h) in
          λ i. record (h i) { lang = lang i });
  }
