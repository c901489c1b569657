-- ===== src/Cli/Vapid/Lines.antt =====
-- The lines of a text under `splitlines`, and a test of each of them.
use nudging_tool.Prelude.{
  Char, code, String, ◌<>◌, ◌≡◌, refl, sym, ap, ◌∙◌, Bool, true, false, ◌&&◌, ◌||◌, List, [], ◌∷◌,
  any, eqb, Bool-cases, is_empty, arith, inl, inr, if◌then◌else◌,
}
use Prim.Native.String.append
use nudging_tool.Cli.Vapid.{is_break, push_char, lines_from, rstrip_newlines}

-- A test of the first line, and one of the lines after; no line is an empty first line.
abbrev pub any_head : (String → Bool) → (String → Bool) → List String → Bool
any_head q p [] = q ""
any_head q p (l ∷ ls) = q l || any p ls

pub any_head_self :
    (p : String → Bool) (ls : List String) → p "" ≡ false → any_head p p ls ≡ any p ls
any_head_self p [] e = e
any_head_self p (l ∷ ls) e = refl

any_head-push_char :
    (q p : String → Bool) (c : Char) (ls : List String)
    → any_head q p (push_char c ls) ≡ any_head (λ l. q (String.◌∷◌ c l)) p ls
any_head-push_char q p c [] = ground arith
any_head-push_char q p c (l ∷ ls) = refl

-- The test of the first line, which the character after a carriage return always starts.
abbrev pub head_test : Bool → (String → Bool) → (String → Bool) → String → Bool
head_test true p q = p
head_test false p q = q

pub cr_breaks : (c : Char) → is_break c ≡ false → eqb (code c) 13 ≡ false
unfolding is_break
cr_breaks c h = ground arith

-- The tests after a first character: q tests the first line, when that starts with it.
abbrev pub rest_tests : (p q : String → Bool) → Char → String → Bool
rest_tests p q c s = any_head (head_test (eqb (code c) 13) p q) p (lines_from (eqb (code c) 13) s)

abbrev step_tests : (p q : String → Bool) → Bool → Char → String → Bool
step_tests p q cr c s =
    if cr && eqb (code c) 10
    then rest_tests p p c s
    else if is_break c
    then head_test cr p q "" || rest_tests p p c s
    else rest_tests p (λ l. head_test cr p q (String.◌∷◌ c l)) c s

head_test_self : (p : String → Bool) (cr : Bool) → head_test cr p p ≡ p
head_test_self p true = refl
head_test_self p false = refl

rest_tests_self :
    (p : String → Bool) (c : Char) (s : String)
    → p "" ≡ false
    → rest_tests p p c s ≡ any p (lines_from (eqb (code c) 13) s)
rest_tests_self p c s e =
    ap (λ q. any_head q p (lines_from (eqb (code c) 13) s)) (head_test_self p (eqb (code c) 13))
    ∙ any_head_self p (lines_from (eqb (code c) 13) s) e

rest_tests-later :
    (p q : String → Bool) (c : Char) (s : String)
    → is_break c ≡ false
    → rest_tests p q c s ≡ any_head q p (lines_from (eqb (code c) 13) s)
rest_tests-later p q c s h =
    ap (λ b. any_head (head_test b p q) p (lines_from (eqb (code c) 13) s)) (cr_breaks c h)

rest_tests-all :
    (p : String → Bool) (c : Char) (s : String)
    → any_head p p (lines_from (eqb (code c) 13) s) ≡ rest_tests p p c s
rest_tests-all p c s =
    ap (λ q. any_head q p (lines_from (eqb (code c) 13) s))
      (sym (head_test_self p (eqb (code c) 13)))

any_break :
    (p q : String → Bool) (c : Char) (s : String)
    → p "" ≡ false
    → any_head q p (
        if is_break c
        then "" ∷ lines_from (eqb (code c) 13) s
        else push_char c (lines_from (eqb (code c) 13) s))
      ≡ (if is_break c
          then q "" || rest_tests p p c s
          else rest_tests p (λ l. q (String.◌∷◌ c l)) c s)
any_break p q c s e =
    let L = lines_from (eqb (code c) 13) s in
    let later = rest_tests-later p (λ l. q (String.◌∷◌ c l)) c s in
    elim (Bool-cases (is_break c)) [
      | inl t ↦
          ap (λ b. any_head q p (if b then "" ∷ L else push_char c L)) t
          ∙ ap (λ x. q "" || x) (sym (rest_tests_self p c s e))
          ∙ sym (
              ap
                (λ b.
                  if b
                  then q "" || rest_tests p p c s
                  else rest_tests p (λ l. q (String.◌∷◌ c l)) c s)
                t)
      | inr f ↦
          ap (λ b. any_head q p (if b then "" ∷ L else push_char c L)) f
          ∙ any_head-push_char q p c L
          ∙ sym (later f)
          ∙ sym (
              ap
                (λ b.
                  if b
                  then q "" || rest_tests p p c s
                  else rest_tests p (λ l. q (String.◌∷◌ c l)) c s)
                f)
    ]

any_if :
    (p : String → Bool) (b : Bool) (xs ys : List String) {x y : Bool}
    → any_head p p xs ≡ x
    → any_head p p ys ≡ y
    → any_head p p (if b then xs else ys) ≡ (if b then x else y)
any_if p true xs ys h k = h
any_if p false xs ys h k = k

pub any_step :
    (p q : String → Bool) (cr : Bool) (c : Char) (s : String)
    → p "" ≡ false
    → any_head (head_test cr p q) p (lines_from cr (String.◌∷◌ c s)) ≡ step_tests p q cr c s
unfolding lines_from
any_step p q false c s e = any_break p q c s e
any_step p q true c s e =
    any_if p (eqb (code c) 10) _ _ (rest_tests-all p c s) (any_break p p c s e)

feed-append : (b : String) → String.[] <> ("\n" <> b) ≡ String.◌∷◌ "\n" b
feed-append b =
    append.nil ("\n" <> b) ∙ append.cons "\n" "" b ∙ ap (λ s. String.◌∷◌ "\n" s) (append.nil b)

feed_split :
    (p q : String → Bool) (cr : Bool) (b : String)
    → p "" ≡ false
    → any_head (head_test cr p q) p (lines_from cr (String.◌∷◌ "\n" b))
      ≡ (head_test cr p q "" || any p (lines_from false b))
unfolding lines_from is_break
feed_split p q true b e =
    any_head_self p (lines_from false b) e ∙ sym (ap (λ x. x || any p (lines_from false b)) e)
feed_split p q false b e = refl

-- A text after a line feed has its lines to itself.
pub any_split :
    (p q : String → Bool) (cr : Bool) (a b : String)
    → p "" ≡ false
    → any_head (head_test cr p q) p (lines_from cr (a <> ("\n" <> b)))
      ≡ (any_head (head_test cr p q) p (lines_from cr a) || any p (lines_from false b))
unfolding lines_from
any_split p q cr String.[] b e =
    ap (λ s. any_head (head_test cr p q) p (lines_from cr s)) (feed-append b)
    ∙ feed_split p q cr b e
any_split p q cr (String.◌∷◌ c a) b e =
    let B = any p (lines_from false b) in
    let first = any_split p p (eqb (code c) 13) a b e in
    let later = any_split p (λ l. head_test cr p q (String.◌∷◌ c l)) (eqb (code c) 13) a b e in
    ap (λ s. any_head (head_test cr p q) p (lines_from cr s)) (append.cons c a ("\n" <> b))
    ∙ any_step p q cr c (a <> ("\n" <> b)) e
    ∙ ground (arith, first, later)
    ∙ ap (λ x. x || B) (sym (any_step p q cr c a e))

feed_breaks : (c : Char) → eqb (code c) 10 ≡ true → is_break c ≡ true
unfolding is_break
feed_breaks c h = ground arith

-- A line feed before a text that passes no test.
feed_tests :
    (p q : String → Bool) (cr : Bool) (c : Char) (s : String)
    → p "" ≡ false
    → eqb (code c) 10 ≡ true
    → rest_tests p p c s ≡ false
    → head_test cr p q "" ≡ step_tests p q cr c s
feed_tests p q true c s e h r = ground arith
feed_tests p q false c s e h r = ground (arith, feed_breaks c h)

is_empty-nil : (s : String) → is_empty s ≡ true → s ≡ ""
is_empty-nil String.[] h = refl
is_empty-nil (String.◌∷◌ c s) h = ground arith

pub and-left : (a b : Bool) → (a && b) ≡ true → a ≡ true
and-left a b h = ground arith

pub and-right : (a b : Bool) → (a && b) ≡ true → b ≡ true
and-right a b h = ground arith

empty_tests :
    (p : String → Bool) (c : Char) (s : String)
    → p "" ≡ false
    → is_empty s ≡ true
    → rest_tests p p c s ≡ false
unfolding lines_from
empty_tests p c s e h =
    ap (rest_tests p p c) (is_empty-nil s h)
    ∙ ap (λ q. q "") (head_test_self p (eqb (code c) 13))
    ∙ e

-- The line feeds at the end have no line that passes.
pub any_rstrip :
    (p q : String → Bool) (cr : Bool) (a : String)
    → p "" ≡ false
    → any_head (head_test cr p q) p (lines_from cr (rstrip_newlines a))
      ≡ any_head (head_test cr p q) p (lines_from cr a)
unfolding rstrip_newlines lines_from
any_rstrip p q cr String.[] e = refl
any_rstrip p q cr (String.◌∷◌ c s) e =
    let rest = rstrip_newlines s in
    let first = any_rstrip p p (eqb (code c) 13) s e in
    let later = any_rstrip p (λ l. head_test cr p q (String.◌∷◌ c l)) (eqb (code c) 13) s e in
    let tests : String → Bool = (λ x. any_head (head_test cr p q) p (lines_from cr x)) in
    let pick : Bool → Bool = (λ b. tests (if b then "" else String.◌∷◌ c rest)) in
    elim (Bool-cases (is_empty rest && eqb (code c) 10)) [
      | inl t ↦
          ap pick t
          ∙ feed_tests p q cr c s e (and-right _ _ t)
              (sym first ∙ empty_tests p c rest e (and-left _ _ t))
          ∙ sym (any_step p q cr c s e)
      | inr f ↦
          ap pick f
          ∙ any_step p q cr c rest e
          ∙ ground (arith, first, later)
          ∙ sym (any_step p q cr c s e)
    ]
