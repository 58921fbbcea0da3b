-- ===== src/Gateway/GitUrl.antt =====
-- `validateGitURL`, `parseGitHost`, `isBlockedHostname`, `stripHostPort` and `isBlockedIP` of
-- pkg/gateway/validation.go. What they use of `net`, `net/url` and `strings.ToLower` is a parameter.
use Prim.Native.Char.{code}
pub mod Allowed
pub mod Tests
use docker_faas.Base.{
  ℕ, ◌+◌, String, Bool, true, false, not, ◌&&◌, ◌||◌, Option, none, some, List, [], ◌∷◌,
  if◌then◌else◌, ◌==◌, on_option, contains, Result, ok, err, nat_eq, string_eq, bool_eq,
}
use docker_faas.Base.Text.{
  codes, trim_space, to_lower, has_prefix, contains_text, cut_suffix, cut, after_last, ◌<>◌,
}

-- `url.Parse`, as scheme and host; `net.ParseIP`, `net.LookupIP`, the host of `net.SplitHostPort`,
-- `strings.ToLower`, and the tests of an address.
pub record Net (A : Type 0) : Type 0 where
  pub parse_url : String → Result (String × String)
  pub parse_ip : String → Option A
  pub lookup_ip : String → Result (List A)
  pub split_host_port : String → Result String
  pub to_lower : String → String
  pub is_loopback : A → Bool
  pub is_multicast : A → Bool
  pub is_unspecified : A → Bool
  pub is_link_local_unicast : A → Bool
  pub is_link_local_multicast : A → Bool
  pub is_global_unicast : A → Bool
  pub is_private : A → Bool

is_bracket : ℕ → Bool
is_bracket c = c == b'[' || c == b']'

-- `strings.Trim(s, "[]")`: from the left, and the empty text where only brackets are left
trim_end : String → String
unfolding is_bracket
trim_end String.[] = ""
trim_end (String.◌∷◌ c s) =
    let rest = trim_end s in if rest == "" && is_bracket (code c) then "" else String.◌∷◌ c rest

trim_start : String → String
unfolding is_bracket
trim_start String.[] = ""
trim_start (String.◌∷◌ c s) =
    let rest = trim_start s in if is_bracket (code c) then rest else String.◌∷◌ c s

unfoldable pub trim_brackets : String → String
unfolding trim_end trim_start
trim_brackets s = trim_end (trim_start s)

-- `strings.Count` of one character
unfoldable pub count_code : ℕ → String → ℕ
count_code sep String.[] = 0
count_code sep (String.◌∷◌ c s) =
    let rest = count_code sep s in if code c == sep then rest + 1 else rest

abbrev pub has_suffix : String → String → Bool
has_suffix s suffix = elim (cut_suffix s suffix) [ none ↦ false | some rest ↦ true ]

unfoldable pub is_blocked_hostname : String → Bool
is_blocked_hostname host =
    if host == "localhost" || host == "localhost.localdomain"
    then true
    else has_suffix host ".local" || has_suffix host ".internal" || has_suffix host ".lan"

abbrev pub is_supported_scheme : String → Bool
is_supported_scheme scheme = scheme == "" || contains ("https" ∷ "http" ∷ "git" ∷ "ssh" ∷ []) scheme

-- The host of a text without a scheme: what is between the last `@` and the next `:`
abbrev user_host : Option String → Result (String × String)
user_host none = err "git url must include a scheme or user@host:path"
user_host (some rest) = elim (cut b':' rest) [
  | none ↦ err "git url must include a scheme or user@host:path"
  | some sides ↦ if sides.0 == "" then err "git url host is required" else ok ("ssh", sides.0)
]

abbrev split_or : Result String → String → String
split_or (ok host) other = host
split_or (err e) other = other

module _ {A : Type 0} where
  abbrev url_host : Net A → Result (String × String) → Result (String × String)
  url_host net (err e) = err ("invalid git url: " <> e)
  url_host net (ok parsed) =
      if parsed.1 == ""
      then err "git url host is required"
      else ok (net.to_lower parsed.0, parsed.1)

  unfoldable pub parse_git_host : Net A → String → Result (String × String)
  parse_git_host net raw =
      if contains_text (codes raw) (codes "://")
      then url_host net (net.parse_url raw)
      else user_host (after_last b'@' raw)

  unfoldable pub strip_host_port : Net A → String → String
  unfolding trim_brackets count_code
  strip_host_port net hostport =
      let split = net.split_host_port hostport in
      if has_prefix (codes hostport) (codes "[")
      then trim_brackets (split_or split hostport)
      else if count_code b':' hostport == 1
      then split_or split hostport
      else hostport

  unfoldable pub is_blocked_ip : Net A → A → Bool
  is_blocked_ip net ip =
      if net.is_loopback ip
        || net.is_multicast ip
        || net.is_unspecified ip
        || net.is_link_local_unicast ip
        || net.is_link_local_multicast ip
      then true
      else if not (net.is_global_unicast ip)
      then true
      else net.is_private ip

  unfoldable pub check_resolved : Net A → String → List A → Result (Unit {0})
  check_resolved net host [] = ok tt
  check_resolved net host (ip ∷ ips) =
      let rest = check_resolved net host ips in
      if is_blocked_ip net ip
      then err ("git url host resolves to private address: " <> host)
      else rest

  abbrev pub check_lookup : Net A → String → Result (List A) → Result (Unit {0})
  check_lookup net host (err e) = err ("failed to resolve git host: " <> host)
  check_lookup net host (ok ips) = check_resolved net host ips

  unfoldable pub check_address : Net A → String → Option A → Result (Unit {0})
  unfolding check_resolved is_blocked_ip
  check_address net host (some ip) =
      if is_blocked_ip net ip then err ("git url host is not allowed: " <> host) else ok tt
  check_address net host none = check_lookup net host (net.lookup_ip host)

  -- `strings.ToLower(strings.TrimSuffix(host, "."))`
  abbrev pub plain_host : Net A → String → String
  plain_host net host = net.to_lower (on_option (cut_suffix host ".") host (λ rest. rest))

  unfoldable pub check_host : Net A → String → Result (Unit {0})
  unfolding is_blocked_hostname strip_host_port check_address
  check_host net host =
      if host == ""
      then err "git url host is required"
      else if is_blocked_hostname host
      then err ("git url host is not allowed: " <> host)
      else check_address net (strip_host_port net host) (net.parse_ip (strip_host_port net host))

  abbrev pub check_parsed : Net A → Result (String × String) → Result (Unit {0})
  check_parsed net (err e) = err e
  check_parsed net (ok (scheme, host)) =
      if is_supported_scheme scheme
      then check_host net (plain_host net host)
      else err ("unsupported git url scheme: " <> scheme)

  unfoldable pub validate_git_url : Net A → String → Result (Unit {0})
  unfolding parse_git_host check_host
  validate_git_url net raw =
      if trim_space raw == ""
      then err "git url is required"
      else check_parsed net (parse_git_host net (trim_space raw))
