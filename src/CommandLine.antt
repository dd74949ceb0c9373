-- ===== src/CommandLine.antt =====
-- The loop of main in src/main.cpp over its arguments.
pub mod RoundTrip
pub mod Tests
use nano_ngfw.Prelude.{
  ℕ, Bool, true, false, ◌||◌, List, [], ◌∷◌, Option, none, some, ◌==◌, if◌then◌else◌, ◌>>=◌, Text,
  codes, text_eq, ℤ, pos, negsuc,
}
use nano_ngfw.Strings.{strtol}
use nano_ngfw.Addresses.{parse_ip}

-- The variables that the loop sets; none is the null pointer.
pub record Options : Type 0 where
  pub path : Option Text
  pub policy_path : Option Text
  pub html_path : Option Text
  pub nat_ip : ℕ
  pub midstream : Bool
  pub stats_only : Bool
  pub detail_id : ℤ

abbrev pub no_options : Options
no_options = record {
  path = none;
  policy_path = none;
  html_path = none;
  nat_ip = 0;
  midstream = false;
  stats_only = false;
  detail_id = negsuc 0;
}

-- `arg[0] == '-'`.
abbrev pub is_option : Text → Bool
is_option [] = false
is_option (c ∷ cs) = c == b'-'

-- The round of an argument that stands alone: none is the call of usage.
abbrev pub lone_argument : Text → Options → Option Options
lone_argument arg o =
    if text_eq arg (codes "--midstream")
    then some (record o { midstream = true })
    else if text_eq arg (codes "--stats-only")
    then some (record o { stats_only = true })
    else if is_option arg
    then none
    else some (record o { path = some arg })

abbrev pub takes_value : Text → Bool
takes_value arg =
    text_eq arg (codes "--policy")
    || (text_eq arg (codes "--nat")
        || (text_eq arg (codes "--html") || text_eq arg (codes "--session")))

-- The round of an option that takes the next argument.
abbrev pub set_value : Text → Text → Options → Options
set_value arg value o =
    if text_eq arg (codes "--policy")
    then record o { policy_path = some value }
    else if text_eq arg (codes "--nat")
    then record o { nat_ip = parse_ip value }
    else if text_eq arg (codes "--html")
    then record o { html_path = some value }
    else record o { detail_id = strtol value }

-- The loop, over the arguments that are left.
unfoldable pub arguments : List Text → Options → Option Options
arguments [] o = some o
arguments (arg ∷ []) o = lone_argument arg o
arguments (arg ∷ value ∷ rest) o =
    if takes_value arg
    then arguments rest (set_value arg value o)
    else (lone_argument arg o >>= arguments (value ∷ rest))

-- Null if there is no path, where main calls usage.
abbrev pub with_path : Options → Option (Text × Options)
with_path o = o.path >>= λ path. some (path, o)

-- What the arguments ask for, unless main calls usage.
unfoldable pub command : List Text → Option (Text × Options)
command args = arguments args no_options >>= with_path
