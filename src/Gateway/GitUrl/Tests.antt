-- ===== src/Gateway/GitUrl/Tests.antt =====
-- The checks of git URLs over a network of concrete addresses.
use docker_faas.Base.{
  ℕ, ◌≡◌, refl, ◌↔◌, true, false, none, some, [], ◌∷◌, if◌then◌else◌, ◌==◌, contains, ok, err,
  nat_eq, string_eq, bool_eq,
}
use docker_faas.Base.Text.{trim_space, has_prefix, contains_text, cut_suffix, cut, after_last}
use docker_faas.Gateway.GitUrl.{Net, trim_brackets, is_blocked_hostname, validate_git_url}
use docker_faas.Gateway.GitUrl.Allowed.{IsAllowed, validate_git_url_iff}

-- An address is a number: 8 is public, 10 private and 127 the loopback.
abbrev net : Net ℕ
net = record {
  parse_url = λ raw.
      if raw == "https://8.8.8.8/repo.git"
      then ok ("https", "8.8.8.8")
      else if raw == "git://host.lan:90/x"
      then ok ("git", "host.lan:90")
      else if raw == "//8.8.8.8/a://b"
      then ok ("", "8.8.8.8")
      else ok ("http", "[::1]:80");
  parse_ip = λ host. if host == "8.8.8.8" then some 8 else if host == "::1" then some 127 else none;
  lookup_ip = λ host. ok (8 ∷ 10 ∷ []);
  split_host_port = λ host. if host == "[::1]:80" then ok "::1" else ok "host.lan";
  to_lower = λ s. s;
  is_loopback = λ ip. ip == 127;
  is_multicast = λ ip. false;
  is_unspecified = λ ip. ip == 0;
  is_link_local_unicast = λ ip. false;
  is_link_local_multicast = λ ip. false;
  is_global_unicast = λ ip. true;
  is_private = λ ip. ip == 10;
}

-- A blocked name with a port passes the check of the name, and its addresses are checked.
checked :
    (validate_git_url net "" ≡ err "git url is required")
    × (validate_git_url net "git@localhost:repo.git" ≡ err "git url host is not allowed: localhost")
    × (validate_git_url net "git@example.org:repo.git"
        ≡ err "git url host resolves to private address: example.org")
    × (validate_git_url net "git://host.lan:90/x"
        ≡ err "git url host resolves to private address: host.lan")
    × (validate_git_url net "http://[::1]:80/x" ≡ err "git url host is not allowed: ::1")
    × (is_blocked_hostname "host.lan:90" ≡ false)
    × (trim_brackets "[[::1]]" ≡ "::1")
unfolding validate_git_url is_blocked_hostname trim_brackets trim_space contains_text after_last cut
    contains cut_suffix has_prefix
checked = (refl, refl, refl, refl, refl, refl, refl)

validate_git_url_iff_example :
    (validate_git_url net " https://8.8.8.8/repo.git" ≡ ok tt)
    ↔ IsAllowed net " https://8.8.8.8/repo.git"
validate_git_url_iff_example = validate_git_url_iff net " https://8.8.8.8/repo.git"

public_url : validate_git_url net " https://8.8.8.8/repo.git" ≡ ok tt
unfolding validate_git_url trim_space contains_text contains cut_suffix has_prefix
public_url = refl

-- A text without a scheme that has `://` in its path
schemeless : validate_git_url net "//8.8.8.8/a://b" ≡ ok tt
unfolding validate_git_url trim_space contains_text contains cut_suffix has_prefix
schemeless = refl
