-- ===== src/Examples/Names.antt =====
-- An alias that is slugged, one that the cut spoils, and a session that registers.
use claude_ipc.Base.{
  ℕ, Text, txt, Bool, true, false, Option, none, some, List, [], ◌∷◌, ◌++◌, ◌≡◌, ◌≢◌, refl, arith,
  text_discrete,
}
use claude_ipc.Base.Map
use claude_ipc.Aliases.{sanitize_alias}
use claude_ipc.Aliases.Safe.{IsSafe, sanitize_alias-IsSafe, sanitize_alias-sanitize_alias}
use claude_ipc.Registry.{Registered}
use claude_ipc.Router.Sessions.{RegisterArgs, register}
use claude_ipc.Router.Admission.{Admissible, register-Admissible}
use claude_ipc.Examples.Roster.{roster, at}

sanitize_alias-IsSafe_example : IsSafe (txt "fix-auth-bug")
unfolding sanitize_alias claude_ipc.Base.trim
sanitize_alias-IsSafe_example =
    sanitize_alias-IsSafe (txt " Fix auth_bug!") (txt "fix-auth-bug") refl

abbrev sixteen : Text
sixteen = txt "abcdefghijklmnop"

-- 63 letters and a dash.
abbrev spoiled : Text
spoiled = sixteen ++ sixteen ++ sixteen ++ txt "abcdefghijklmno-"

sanitize_alias-sanitize_alias_example : sanitize_alias spoiled ≢ some spoiled
unfolding sanitize_alias claude_ipc.Base.trim
sanitize_alias-sanitize_alias_example =
    sanitize_alias-sanitize_alias (spoiled ++ txt "pq") spoiled refl refl

abbrev newcomer : RegisterArgs
newcomer = record {
  alias = some (txt "eve-2");
  session_id = some (txt "s5");
  cwd = some (txt "/w");
  caps = none;
  pid = none;
  tty = none;
  service = false;
}

abbrev welcome : Registered
welcome = record { ok = true; replaced = false; token = some (116 ∷ 0 ∷ []) }

register-Admissible_example : (self : Text) × Admissible newcomer self
unfolding register Map.get sanitize_alias claude_ipc.Base.trim claude_ipc.Registry.register
register-Admissible_example =
    register-Admissible (at 200) roster (register (at 200) roster newcomer none).0 newcomer none
      welcome refl
