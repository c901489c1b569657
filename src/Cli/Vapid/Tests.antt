-- ===== src/Cli/Vapid/Tests.antt =====
-- `gen` on a file that has one of the three keys.
use nudging_tool.Prelude.{String, ◌≡◌, refl, false, Option, some}
use nudging_tool.Cli.Vapid.{gen, show, Outcome, is_subject}
use nudging_tool.Cli.Vapid.Laws.{all_set, gen-show}

abbrev some_file : Option String
some_file = some "A=1\n# VAPID_PUBLIC_KEY=x\nVAPID_SUBJECT=mailto:a@b\n\n"

abbrev some_pem : String
some_pem = "-----BEGIN\nkey\n"

abbrev added : Outcome
added = gen "pub" some_pem some_file "https://x" false

gen_text :
    added.1
    ≡ some
        "A=1\n# VAPID_PUBLIC_KEY=x\nVAPID_SUBJECT=mailto:a@b\n\n# VAPID — Web Push\nVAPID_PUBLIC_KEY=pub\nVAPID_PRIVATE_KEY=-----BEGIN\\nkey\n"
unfolding gen nudging_tool.Security.Auth.starts_with nudging_tool.Cli.Vapid.is_break
    nudging_tool.Cli.Vapid.rstrip_newlines nudging_tool.Text.strip
gen_text = refl

bad_subject : gen "pub" some_pem some_file "mailto:@b" false ≡ (1, some_file)
unfolding gen nudging_tool.Security.Auth.starts_with
bad_subject = refl

gen-show_example : (added.0 ≡ 0) × (show added.1 ≡ all_set)
unfolding is_subject nudging_tool.Security.Auth.starts_with
gen-show_example = gen-show "pub" some_pem some_file "https://x" false refl
