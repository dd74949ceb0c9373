-- ===== src/CommandLine/RoundTrip.antt =====
-- The argument loop of src/main.cpp on a command line that is written for given options.
use nano_ngfw.Prelude.{
  ℕ, ◌<◌, ◌^◌, ◌≡◌, ◌∙◌, refl, sym, ap, Bool, true, false, List, [], ◌∷◌, Option, none, some, ◌>>=◌,
  Text, codes, ℤ, pos, negsuc, arith,
}
use nano_ngfw.Strings.{to_string}
use nano_ngfw.Addresses.{ipv4_to_string}
use nano_ngfw.Addresses.Quads.{strtol_number, parse_ip-ipv4_to_string}
use nano_ngfw.CommandLine.{
  Options, no_options, is_option, lone_argument, takes_value, arguments, command,
}

-- An option that is given only if it has a value.
abbrev pub given : Text → Option Text → List Text → List Text
given name none rest = rest
given name (some value) rest = name ∷ value ∷ rest

abbrev pub flag : Text → Bool → List Text → List Text
flag name false rest = rest
flag name true rest = name ∷ rest

-- The session to show, if its number is not negative.
abbrev pub session : ℤ → Option Text
session (pos n) = some (to_string n)
session (negsuc n) = none

-- The arguments that ask for these options and this capture.
abbrev pub command_line : Text → Options → List Text
command_line path o = given (codes "--policy") o.policy_path (
    given (codes "--nat") (some (ipv4_to_string o.nat_ip)) (
      given (codes "--html") o.html_path (
        given (codes "--session") (session o.detail_id) (
          flag (codes "--midstream") o.midstream
            (flag (codes "--stats-only") o.stats_only (path ∷ []))))))

-- A session number of a `long`, or -1 for none.
abbrev pub IsSession : ℤ → Type 0
IsSession (pos n) = n < 2 ^ 63
IsSession (negsuc n) = n ≡ 0

pub record IsCommand (capture : Text) (o : Options) : Type 0 where
  pub asked : o.path ≡ some capture
  pub operand : is_option capture ≡ false
  pub address : o.nat_ip < 2 ^ 32
  pub detail : IsSession o.detail_id

bind_some {ℓ} :
    {A : Type ℓ} (o : Option A) (f : A → Option A) → ((a : A) → f a ≡ some a) → (o >>= f) ≡ o
bind_some none f h = refl
bind_some (some a) f h = h a

arguments_lone :
    (arg : Text) (rest : List Text) (o : Options)
    → takes_value arg ≡ false
    → arguments (arg ∷ rest) o ≡ (lone_argument arg o >>= arguments rest)
unfolding arguments
arguments_lone arg [] o h = sym (bind_some (lone_argument arg o) _ λ a. refl)
arguments_lone arg (v ∷ rest) o h = rw h refl

module _ (rest : List Text) where
  policy_argument :
      (v : Option Text)
      → arguments (given (codes "--policy") v rest) no_options
        ≡ arguments rest (record no_options { policy_path = v })
  unfolding arguments
  policy_argument none = refl
  policy_argument (some v) = refl

  nat_argument :
      (p : Option Text) (addr : ℕ)
      → addr < 2 ^ 32
      → arguments
          (given (codes "--nat") (some (ipv4_to_string addr)) rest)
          (record no_options { policy_path = p })
        ≡ arguments rest (record no_options { policy_path = p; nat_ip = addr })
  unfolding arguments
  nat_argument p addr h =
      ap (λ a. arguments rest (record no_options { policy_path = p; nat_ip = a }))
        (parse_ip-ipv4_to_string addr h)

  html_argument :
      (p : Option Text) (addr : ℕ) (v : Option Text)
      → arguments
          (given (codes "--html") v rest)
          (record no_options { policy_path = p; nat_ip = addr })
        ≡ arguments rest (record no_options { policy_path = p; nat_ip = addr; html_path = v })
  unfolding arguments
  html_argument p addr none = refl
  html_argument p addr (some v) = refl

  session_argument :
      (p : Option Text) (addr : ℕ) (v : Option Text) (d : ℤ)
      → IsSession d
      → arguments
          (given (codes "--session") (session d) rest)
          (record no_options { policy_path = p; nat_ip = addr; html_path = v })
        ≡ arguments rest
            (record no_options { policy_path = p; nat_ip = addr; html_path = v; detail_id = d })
  unfolding arguments
  session_argument p addr v (pos n) h =
      ap
        (λ d.
          arguments rest
            (record no_options { policy_path = p; nat_ip = addr; html_path = v; detail_id = d }))
        (strtol_number n h)
  session_argument p addr v (negsuc n) h =
      ap
        (λ k. arguments rest (record no_options {
          policy_path = p;
          nat_ip = addr;
          html_path = v;
          detail_id = negsuc k;
        }))
        (sym h)

  midstream_argument :
      (o : Options) (b : Bool)
      → o.midstream ≡ false
      → arguments (flag (codes "--midstream") b rest) o
        ≡ arguments rest (record o { midstream = b })
  midstream_argument o false h = ap (λ b. arguments rest (record o { midstream = b })) h
  midstream_argument o true h = arguments_lone (codes "--midstream") rest o refl

  stats_argument :
      (o : Options) (b : Bool)
      → o.stats_only ≡ false
      → arguments (flag (codes "--stats-only") b rest) o
        ≡ arguments rest (record o { stats_only = b })
  stats_argument o false h = ap (λ b. arguments rest (record o { stats_only = b })) h
  stats_argument o true h = arguments_lone (codes "--stats-only") rest o refl

-- A word that begins with no `-` is none of the options.
operand_lem :
    (capture : Text) (o : Options)
    → is_option capture ≡ false
    → arguments (capture ∷ []) o ≡ some (record o { path = some capture })
unfolding arguments
operand_lem [] o h = refl
operand_lem (c ∷ cs) o h = ground (arith)

-- Let the options ask for a capture whose name begins with no `-`, a 32-bit address and a session
-- number that is -1 or a `long` that is not negative. The arguments written for them are read as
-- exactly these options and this capture, also where the value of an option looks like an option.
pub command-command_line :
    (capture : Text) (o : Options)
    → IsCommand capture o
    → command (command_line capture o) ≡ some (capture, o)
unfolding command
command-command_line capture o v =
    let last : List Text = capture ∷ [] in
    let stats = flag (codes "--stats-only") o.stats_only last in
    let midstream = flag (codes "--midstream") o.midstream stats in
    let session = given (codes "--session") (session o.detail_id) midstream in
    let html = given (codes "--html") o.html_path session in
    let nat = given (codes "--nat") (some (ipv4_to_string o.nat_ip)) html in
    let set = record no_options {
      policy_path = o.policy_path;
      nat_ip = o.nat_ip;
      html_path = o.html_path;
      detail_id = o.detail_id;
    } in
    let read : arguments (command_line capture o) no_options
        ≡ some (record o { path = some capture }) =
      policy_argument nat o.policy_path
      ∙ nat_argument html o.policy_path o.nat_ip v.address
      ∙ html_argument session o.policy_path o.nat_ip o.html_path
      ∙ session_argument midstream o.policy_path o.nat_ip o.html_path o.detail_id v.detail
      ∙ midstream_argument stats set o.midstream refl
      ∙ stats_argument last (record set { midstream = o.midstream }) o.stats_only refl
      ∙ operand_lem capture _ v.operand in
    rw read (ap (λ p. some (capture, record o { path = p })) (sym v.asked))
