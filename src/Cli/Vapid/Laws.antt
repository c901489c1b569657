-- ===== src/Cli/Vapid/Laws.antt =====
-- The keys that are set after `gen`.
use nudging_tool.Prelude.{
  String, ◌<>◌, ◌≡◌, refl, ap, ◌∙◌, Bool, true, false, not, ◌&&◌, ◌||◌, Option, some, List, [], ◌∷◌,
  ◌++◌, any, Bool-cases, arith, inl, inr, if◌then◌else◌,
}
use nudging_tool.Cli.Vapid.Lines.{and-left, and-right}
use nudging_tool.Cli.Vapid.Keys.{
  env_has_key-append, env_has_key-rstrip, env_has_key-unlines, env_has_key-line,
}
use nudging_tool.Security.Auth.{starts_with}
use nudging_tool.Cli.Vapid.{
  Outcome, text_of_file, is_break, env_has_key, unlines, rstrip_newlines, is_subject, public_key,
  private_key, subject_key, is_written, line_if, vapid_lines, pem_to_env_value, gen, show,
}

any-append :
    {A : Type 0} (p : A → Bool) (xs ys : List A) → any p (xs ++ ys) ≡ (any p xs || any p ys)
any-append p [] ys = refl
any-append p (x ∷ xs) ys = let rest = any-append p xs ys in ground (arith, rest)

any-line_if :
    (p : String → Bool) (b : Bool) (line : String) → p line ≡ true → any p (line_if b line) ≡ b
any-line_if p true line h = ap (λ x. x || false) h
any-line_if p false line h = refl

-- The text after `gen`, for a key whose line is among the new ones or which was set before.
env_has_key-written :
    (key existing : String) (ls : List String)
    → starts_with key "" ≡ false
    → (env_has_key key existing || any (env_has_key key) ls) ≡ true
    → env_has_key key (rstrip_newlines existing <> ("\n" <> unlines ls)) ≡ true
env_has_key-written key existing ls e h =
    env_has_key-append key (rstrip_newlines existing) (unlines ls) e
    ∙ ap (λ x. x || env_has_key key (unlines ls)) (env_has_key-rstrip key existing e)
    ∙ ap (λ x. env_has_key key existing || x) (env_has_key-unlines key ls e)
    ∙ h

abbrev pub all_set : Bool × Bool × Bool
all_set = (true, true, true)

abbrev triple : Bool → Bool → Bool → Bool × Bool × Bool
triple a b c = (a, b, c)

triple-set : {a b c : Bool} → a ≡ true → b ≡ true → c ≡ true → triple a b c ≡ all_set
triple-set {a} {b} {c} h k m =
    ap (λ x. triple x b c) h ∙ ap (λ x. triple true x c) k ∙ ap (triple true true) m

module _ (force : Bool) (existing public pem subject : String) where
  abbrev lines_of : List String
  lines_of = vapid_lines force existing public pem subject

  any_lines :
      (p : String → Bool)
      → any p lines_of ≡ (
          p "\n# VAPID — Web Push"
          || ((any p (line_if (is_written force public_key existing) (public_key <> public))
                || any p (
                    line_if
                      (is_written force private_key existing)
                      (private_key <> pem_to_env_value pem)))
              || any p (line_if (is_written force subject_key existing) (subject_key <> subject))))
  unfolding vapid_lines
  any_lines p =
      let publics = line_if (is_written force public_key existing) (public_key <> public) in
      let privates =
        line_if (is_written force private_key existing) (private_key <> pem_to_env_value pem) in
      let subjects = line_if (is_written force subject_key existing) (subject_key <> subject) in
      let first = any-append p (publics ++ privates) subjects in
      let second = any-append p publics privates in
      ap (λ x. p "\n# VAPID — Web Push" || x) first
      ∙ ap (λ x. p "\n# VAPID — Web Push" || (x || any p subjects)) second

  public_set : (env_has_key public_key existing || any (env_has_key public_key) lines_of) ≡ true
  unfolding starts_with is_break
  public_set =
      let line = env_has_key-line public_key public refl refl refl in
      let new =
        any-line_if (env_has_key public_key) (is_written force public_key existing) _ line in
      let all = any_lines (env_has_key public_key) in ground (arith, new, all)

  private_set : (env_has_key private_key existing || any (env_has_key private_key) lines_of) ≡ true
  unfolding starts_with is_break
  private_set =
      let line = env_has_key-line private_key (pem_to_env_value pem) refl refl refl in
      let new =
        any-line_if (env_has_key private_key) (is_written force private_key existing) _ line in
      let all = any_lines (env_has_key private_key) in ground (arith, new, all)

  subject_set : (env_has_key subject_key existing || any (env_has_key subject_key) lines_of) ≡ true
  unfolding starts_with is_break
  subject_set =
      let line = env_has_key-line subject_key subject refl refl refl in
      let new =
        any-line_if (env_has_key subject_key) (is_written force subject_key existing) _ line in
      let all = any_lines (env_has_key subject_key) in ground (arith, new, all)

  show-written : show (some (rstrip_newlines existing <> ("\n" <> unlines lines_of))) ≡ all_set
  unfolding show starts_with
  show-written =
      triple-set (env_has_key-written public_key existing lines_of refl public_set)
        (env_has_key-written private_key existing lines_of refl private_set)
        (env_has_key-written subject_key existing lines_of refl subject_set)

show-present :
    (file : Option String)
    → (env_has_key public_key (text_of_file file)
        && env_has_key private_key (text_of_file file)
        && env_has_key subject_key (text_of_file file))
      ≡ true
    → show file ≡ all_set
unfolding show
show-present file h =
    let existing = text_of_file file in
    let two = and-left (env_has_key public_key existing && env_has_key private_key existing) _ h in
    triple-set (and-left _ (env_has_key private_key existing) two)
      (and-right (env_has_key public_key existing) _ two)
      (and-right (env_has_key public_key existing && env_has_key private_key existing) _ h)

-- When the subject is a `mailto:` or an `https:` one, `gen` ends with status 0, and `show` then finds
-- the three keys set, whatever the file had.
pub gen-show :
    (public pem : String) (file : Option String) (subject : String) (force : Bool)
    → is_subject subject ≡ true
    → ((gen public pem file subject force).0 ≡ 0)
      × (show (gen public pem file subject force).1 ≡ all_set)
unfolding gen
gen-show public pem file subject force h =
    let existing = text_of_file file in
    let lines = vapid_lines force existing public pem subject in
    let new : Outcome = (0, some (rstrip_newlines existing <> ("\n" <> unlines lines))) in
    let old : Outcome = (0, file) in
    let present =
      (env_has_key public_key existing
        && env_has_key private_key existing
        && env_has_key subject_key existing)
      && not force in
    let from : Bool → Outcome = (λ b. if not b then (1, file) else if present then old else new) in
    let into : Bool → Outcome = (λ b. if b then old else new) in
    elim (Bool-cases present) [
      | inl t ↦
          let e = ap from h ∙ ap into t in
          (ap (λ o. o.0) e, ap (λ o. show o.1) e ∙ show-present file (and-left _ _ t))
      | inr f ↦
          let e = ap from h ∙ ap into f in
          (ap (λ o. o.0) e, ap (λ o. show o.1) e ∙ show-written force existing public pem subject)
    ]
