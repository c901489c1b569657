-- ===== src/Text.antt =====
-- What the program uses of Python's `str` and `re`: the tests on characters, `strip`, `lower`, and
-- the e-mail pattern of orchestrator/orchestrator.py and api/routes/admin/ingest.py.
pub mod Laws
use nudging_tool.Prelude.{
  ℕ, ◌+◌, Char, code, String, ◌<>◌, Bool, true, false, not, ◌&&◌, ◌||◌, List, [], ◌∷◌, ltb, leb,
  eqb, if◌then◌else◌, is_empty,
}

-- `str.isspace`, which is also what `\s` matches.
unfoldable pub is_space : Char → Bool
is_space ch =
    let c = code ch in
    (leb 9 c && leb c 13)
    || (leb 28 c && leb c 32)
    || eqb c 0x85
    || eqb c 0xa0
    || eqb c 0x1680
    || (leb 0x2000 c && leb c 0x200a)
    || eqb c 0x2028
    || eqb c 0x2029
    || eqb c 0x202f
    || eqb c 0x205f
    || eqb c 0x3000

-- The first digit of each block of ten decimal digits of Unicode (category Nd); the mathematical
-- digits at 0x1d7ce are five blocks.
abbrev digit_blocks : List ℕ
digit_blocks =
    0x30 ∷ 0x660 ∷ 0x6f0 ∷ 0x7c0 ∷ 0x966 ∷ 0x9e6 ∷ 0xa66 ∷ 0xae6 ∷ 0xb66 ∷ 0xbe6 ∷ 0xc66 ∷ 0xce6
    ∷ 0xd66 ∷ 0xde6 ∷ 0xe50 ∷ 0xed0 ∷ 0xf20 ∷ 0x1040 ∷ 0x1090 ∷ 0x17e0 ∷ 0x1810 ∷ 0x1946 ∷ 0x19d0
    ∷ 0x1a80 ∷ 0x1a90 ∷ 0x1b50 ∷ 0x1bb0 ∷ 0x1c40 ∷ 0x1c50 ∷ 0xa620 ∷ 0xa8d0 ∷ 0xa900 ∷ 0xa9d0
    ∷ 0xa9f0 ∷ 0xaa50 ∷ 0xabf0 ∷ 0xff10 ∷ 0x104a0 ∷ 0x10d30 ∷ 0x11066 ∷ 0x110f0 ∷ 0x11136 ∷ 0x111d0
    ∷ 0x112f0 ∷ 0x11450 ∷ 0x114d0 ∷ 0x11650 ∷ 0x116c0 ∷ 0x11730 ∷ 0x118e0 ∷ 0x11950 ∷ 0x11c50
    ∷ 0x11d50 ∷ 0x11da0 ∷ 0x16a60 ∷ 0x16ac0 ∷ 0x16b50 ∷ 0x1d7ce ∷ 0x1d7d8 ∷ 0x1d7e2 ∷ 0x1d7ec
    ∷ 0x1d7f6 ∷ 0x1e140 ∷ 0x1e2f0 ∷ 0x1e950 ∷ 0x1fbf0 ∷ []

in_blocks : ℕ → List ℕ → Bool
in_blocks c [] = false
in_blocks c (b ∷ bs) = (leb b c && ltb c (b + 10)) || in_blocks c bs

-- `\d` of a text pattern.
unfoldable pub is_digit : Char → Bool
unfolding in_blocks
is_digit ch = in_blocks (code ch) digit_blocks

unfoldable pub lstrip : String → String
unfolding is_space
lstrip String.[] = ""
lstrip (String.◌∷◌ c s) = if is_space c then lstrip s else String.◌∷◌ c s

unfoldable pub rstrip : String → String
unfolding is_space
rstrip String.[] = ""
rstrip (String.◌∷◌ c s) =
    let rest = rstrip s in if is_empty rest && is_space c then "" else String.◌∷◌ c rest

unfoldable pub strip : String → String
unfolding lstrip rstrip
strip s = rstrip (lstrip s)

-- One character by a table of two rows; the character itself where the first row lacks it.
translate : Char → String → String → String
translate ch (String.◌∷◌ u us) (String.◌∷◌ l ls) =
    let rest = translate ch us ls in if eqb (code u) (code ch) then String.◌∷◌ l "" else rest
translate ch _ _ = String.◌∷◌ ch ""

-- `str.lower`: by the table below 128, and above it by `other`, which stands for the case tables of
-- Unicode.
unfoldable pub lower : (Char → String) → String → String
unfolding translate
lower other String.[] = ""
lower other (String.◌∷◌ c s) =
    (if leb 128 (code c)
      then other c
      else translate c "ABCDEFGHIJKLMNOPQRSTUVWXYZ" "abcdefghijklmnopqrstuvwxyz")
    <> lower other s

-- `[^@\s]`
unfoldable pub is_plain : Char → Bool
unfolding is_space
is_plain c = not (eqb (code c) b'@') && not (is_space c)

unfoldable pub all_plain : String → Bool
unfolding is_plain
all_plain String.[] = true
all_plain (String.◌∷◌ c s) = is_plain c && all_plain s

-- A dot with a character behind it.
unfoldable pub has_dot_before_end : String → Bool
has_dot_before_end String.[] = false
has_dot_before_end (String.◌∷◌ c s) =
    (eqb (code c) b'.' && not (is_empty s)) || has_dot_before_end s

-- `[^@\s]+\.[^@\s]+$`
unfoldable pub is_domain : String → Bool
unfolding all_plain has_dot_before_end
is_domain String.[] = false
is_domain (String.◌∷◌ c s) = is_plain c && all_plain s && has_dot_before_end s

-- The part before the `@`; `seen` says whether it has a character already.
unfoldable pub is_email_from : Bool → String → Bool
unfolding is_plain is_domain
is_email_from seen String.[] = false
is_email_from seen (String.◌∷◌ c s) =
    let rest = is_email_from true s in
    if eqb (code c) b'@' then seen && is_domain s else is_plain c && rest

-- `_EMAIL_RE.match` on a text with no trailing newline (both callers strip it).
unfoldable pub is_email : String → Bool
unfolding is_email_from
is_email s = is_email_from false s
