-- ===== src/Cli/Vapid/Keys.antt =====
-- Which keys a text sets, by its parts.
use nudging_tool.Prelude.{
  Char, code, String, ◌<>◌, ◌≡◌, refl, sym, ap, ◌∙◌, Bool, true, false, not, ◌&&◌, ◌||◌, List, [],
  ◌∷◌, any, eqb, arith, if◌then◌else◌,
}
use nudging_tool.Cli.Vapid.Lines.{
  any_head, head_test, any_head_self, any_split, any_rstrip, any_step, rest_tests, cr_breaks,
}
use Prim.Native.String.append
use nudging_tool.Security.Auth.{starts_with}
use nudging_tool.Cli.Vapid.{
  is_break, lines_from, split_lines, env_has_key, unlines, rstrip_newlines,
}

-- Whether a line sets the key.
abbrev sets : String → String → Bool
sets key line = not (starts_with "#" line) && starts_with key line

-- A line that sets a key follows a text whose own settings stay.
pub env_has_key-append :
    (key a b : String)
    → starts_with key "" ≡ false
    → env_has_key key (a <> ("\n" <> b)) ≡ (env_has_key key a || env_has_key key b)
unfolding env_has_key split_lines starts_with
env_has_key-append key a b e =
    sym (any_head_self (sets key) (lines_from false (a <> ("\n" <> b))) e)
    ∙ any_split (sets key) (sets key) false a b e
    ∙ ap (λ x. x || env_has_key key b) (any_head_self (sets key) (lines_from false a) e)

pub env_has_key-rstrip :
    (key a : String)
    → starts_with key "" ≡ false
    → env_has_key key (rstrip_newlines a) ≡ env_has_key key a
unfolding env_has_key split_lines starts_with
env_has_key-rstrip key a e =
    sym (any_head_self (sets key) (lines_from false (rstrip_newlines a)) e)
    ∙ any_rstrip (sets key) (sets key) false a e
    ∙ any_head_self (sets key) (lines_from false a) e

pub env_has_key-unlines :
    (key : String) (ls : List String)
    → starts_with key "" ≡ false
    → env_has_key key (unlines ls) ≡ any (env_has_key key) ls
unfolding unlines env_has_key split_lines lines_from
env_has_key-unlines key [] e = refl
env_has_key-unlines key (l ∷ ls) e =
    env_has_key-append key l (unlines ls) e
    ∙ ap (λ x. env_has_key key l || x) (env_has_key-unlines key ls e)

abbrev is_plain : String → Bool
is_plain String.[] = true
is_plain (String.◌∷◌ c s) = not (is_break c) && is_plain s

any_head-all :
    (p q : String → Bool) (ls : List String) → ((w : String) → q w ≡ true) → any_head q p ls ≡ true
any_head-all p q [] h = h ""
any_head-all p q (l ∷ ls) h = ap (λ x. x || any p ls) (h l)

-- The first line keeps a start that has no line break.
first_line :
    (p q : String → Bool) (k v : String)
    → p "" ≡ false
    → is_plain k ≡ true
    → ((w : String) → q (k <> w) ≡ true)
    → any_head q p (lines_from false (k <> v)) ≡ true
first_line p q String.[] v e n h =
    any_head-all p q (lines_from false (String.[] <> v)) (λ w. ap q (sym (append.nil w)) ∙ h w)
first_line p q (String.◌∷◌ c k) v e n h =
    let q' : String → Bool = (λ l. q (String.◌∷◌ c l)) in
    let b : is_break c ≡ false = ground arith in
    let r : is_plain k ≡ true = ground arith in
    ap (λ s. any_head q p (lines_from false s)) (append.cons c k v)
    ∙ any_step p q false c (k <> v) e
    ∙ ap (λ x. if x then q "" || rest_tests p p c (k <> v) else rest_tests p q' c (k <> v)) b
    ∙ ap (λ x. any_head (head_test x p q') p (lines_from x (k <> v))) (cr_breaks c b)
    ∙ first_line p q' k v e r (λ w. ap q (sym (append.cons c k w)) ∙ h w)

eqb_self : (c : Char) → eqb (code c) (code c) ≡ true
eqb_self c = ground arith

starts_with-append : (k w : String) → starts_with k (k <> w) ≡ true
unfolding starts_with
starts_with-append String.[] w = refl
starts_with-append (String.◌∷◌ c k) w =
    ap (starts_with (String.◌∷◌ c k)) (append.cons c k w)
    ∙ ground (arith, eqb_self c, starts_with-append k w)

sets-append :
    (k w : String) → starts_with k "" ≡ false → starts_with "#" k ≡ false → sets k (k <> w) ≡ true
unfolding starts_with
sets-append String.[] w e h = ground arith
sets-append (String.◌∷◌ c k) w e h =
    let tail = starts_with-append k w in
    let same = eqb_self c in
    ap (sets (String.◌∷◌ c k)) (append.cons c k w) ∙ ground (arith, tail, same)

-- A line that starts with the key sets it.
pub env_has_key-line :
    (key v : String)
    → starts_with key "" ≡ false
    → starts_with "#" key ≡ false
    → is_plain key ≡ true
    → env_has_key key (key <> v) ≡ true
unfolding env_has_key split_lines starts_with
env_has_key-line key v e h n =
    sym (any_head_self (sets key) (lines_from false (key <> v)) e)
    ∙ first_line (sets key) (sets key) key v e n (λ w. sets-append key w e h)
