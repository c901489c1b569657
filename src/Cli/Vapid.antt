-- ===== src/Cli/Vapid.antt =====
-- cli/vapid.py: the commands `gen` and `show`, on the text that `read_text` gives. The generated
-- pair of keys is a parameter; what is printed is left out.
pub mod Lines
pub mod Keys
pub mod Laws
mod Tests
use nudging_tool.Prelude.{
  ℕ, Char, code, String, ◌<>◌, Bool, true, false, not, ◌&&◌, ◌||◌, Option, none, some, List, [],
  ◌∷◌, ◌++◌, any, eqb, leb, is_empty, if◌then◌else◌,
}
use nudging_tool.Text.{strip}
use nudging_tool.Security.Auth.{starts_with}

-- The characters at which `splitlines` ends a line.
unfoldable pub is_break : Char → Bool
is_break ch =
    let c = code ch in
    (leb 10 c && leb c 13) || (leb 28 c && leb c 30) || eqb c 0x85 || eqb c 0x2028 || eqb c 0x2029

abbrev pub push_char : Char → List String → List String
push_char c [] = String.◌∷◌ c "" ∷ []
push_char c (l ∷ ls) = String.◌∷◌ c l ∷ ls

-- `text.splitlines()`; `after_cr` says that a carriage return comes before, which a line feed joins.
unfoldable pub lines_from : (after_cr : Bool) → String → List String
lines_from after_cr String.[] = []
lines_from after_cr (String.◌∷◌ c s) =
    let rest = lines_from (eqb (code c) 13) s in
    if after_cr && eqb (code c) 10 then rest else if is_break c then "" ∷ rest else push_char c rest

unfoldable pub split_lines : String → List String
unfolding lines_from
split_lines text = lines_from false text

-- `_env_has_key`, for a key with its `=`. A line that starts with `#` is skipped, which no key does.
unfoldable pub env_has_key : (key text : String) → Bool
unfolding split_lines
env_has_key key text =
    any (λ line. not (starts_with "#" line) && starts_with key line) (split_lines text)

-- The lines joined by a line feed, and one more at the end.
unfoldable pub unlines : List String → String
unlines [] = ""
unlines (l ∷ ls) = l <> ("\n" <> unlines ls)

abbrev join_from : String → List String → String
join_from sep [] = ""
join_from sep (l ∷ ls) = sep <> (l <> join_from sep ls)

abbrev join : String → List String → String
join sep [] = ""
join sep (l ∷ ls) = l <> join_from sep ls

-- `_pem_to_env_value`: the lines, joined by a backslash and an `n`.
unfoldable pub pem_to_env_value : String → String
pem_to_env_value pem = join "\\n" (split_lines (strip pem))

-- `text.rstrip("\n")`
unfoldable pub rstrip_newlines : String → String
rstrip_newlines String.[] = ""
rstrip_newlines (String.◌∷◌ c s) =
    let rest = rstrip_newlines s in
    if is_empty rest && eqb (code c) 10 then "" else String.◌∷◌ c rest

abbrev is_newline : Char → Bool
is_newline c = eqb (code c) 10

-- `.+`
abbrev has_any : String → Bool
has_any String.[] = false
has_any (String.◌∷◌ c s) = not (is_newline c)

-- `.+@.+`, where `seen` says whether a character was met.
unfoldable pub has_at : (seen : Bool) → String → Bool
has_at seen String.[] = false
has_at seen (String.◌∷◌ c s) =
    let rest = has_at true s in
    if is_newline c then false else (seen && eqb (code c) b'@' && has_any s) || rest

abbrev drop_prefix : String → String → String
drop_prefix String.[] text = text
drop_prefix (String.◌∷◌ p ps) String.[] = ""
drop_prefix (String.◌∷◌ p ps) (String.◌∷◌ c cs) = drop_prefix ps cs

-- The pattern of a subject.
unfoldable pub is_subject : String → Bool
unfolding has_at
is_subject subject =
    (starts_with "mailto:" subject && has_at false (drop_prefix "mailto:" subject))
    || (starts_with "https://" subject && has_any (drop_prefix "https://" subject))

abbrev pub public_key : String
public_key = "VAPID_PUBLIC_KEY="

abbrev pub private_key : String
private_key = "VAPID_PRIVATE_KEY="

abbrev pub subject_key : String
subject_key = "VAPID_SUBJECT="

-- Whether a key is written: it is missing, or the command is forced.
abbrev pub is_written : (force : Bool) → (key existing : String) → Bool
is_written force key existing = not (env_has_key key existing) || force

abbrev pub line_if : Bool → String → List String
line_if true line = line ∷ []
line_if false line = []

-- The lines that `gen` adds.
unfoldable pub vapid_lines : (force : Bool) → (existing public pem subject : String) → List String
unfolding pem_to_env_value
vapid_lines force existing public pem subject =
    "\n# VAPID — Web Push" ∷ line_if (is_written force public_key existing) (public_key <> public)
    ++ line_if (is_written force private_key existing) (private_key <> pem_to_env_value pem)
    ++ line_if (is_written force subject_key existing) (subject_key <> subject)

-- The exit status, and the text that the file has after.
abbrev pub Outcome : Type 0
Outcome = ℕ × Option String

abbrev pub text_of_file : Option String → String
text_of_file none = ""
text_of_file (some text) = text

-- `gen`, on the text of the file, if it is there.
unfoldable pub gen :
    (public pem : String) → (file : Option String) → (subject : String) → (force : Bool) → Outcome
unfolding is_subject env_has_key vapid_lines unlines
gen public pem file subject force =
    let existing = text_of_file file in
    if not (is_subject subject)
    then (1, file)
    else if (env_has_key public_key existing
          && env_has_key private_key existing
          && env_has_key subject_key existing)
        && not force
    then (0, file)
    else (
      0,
      some (
          rstrip_newlines existing
          <> ("\n" <> unlines (vapid_lines force existing public pem subject))),
    )

-- `show`: which of the three keys are set.
unfoldable pub show : (file : Option String) → Bool × Bool × Bool
unfolding env_has_key
show file = (
  env_has_key public_key (text_of_file file),
  env_has_key private_key (text_of_file file),
  env_has_key subject_key (text_of_file file),
)
