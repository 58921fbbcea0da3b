-- ===== src/Gateway/GitUrl/Allowed.antt =====
-- Which git URLs `validateGitURL` lets through.
use docker_faas.Base.{
  String, ◌≡◌, refl, sym, ◌≢◌, ◌↔◌, ◌⊎◌, inl, inr, true, false, Option, none, some, List, [], ◌∷◌,
  arith, eq_iff, ◌==◌, Bool-cases, All, contains, In, Result, ok, err, nat_eq, string_eq, bool_eq,
}
use docker_faas.Base.Text.{trim_space}
use docker_faas.Gateway.GitUrl.{
  Net, is_blocked_hostname, is_supported_scheme, parse_git_host, strip_host_port, is_blocked_ip,
  check_resolved, check_lookup, check_address, plain_host, check_host, check_parsed,
  validate_git_url,
}

abbrev pub schemes : List String
schemes = "https" ∷ "http" ∷ "git" ∷ "ssh" ∷ []

contains_iff : (l : List String) (s : String) → (contains l s ≡ true) ↔ In s l
unfolding contains
contains_iff [] s = (λ e. absurd (cc e), λ h. absurd h)
contains_iff (x ∷ l) s =
    let rest = contains_iff l s in
    elim (Bool-cases (x == s)) [
      | inl e ↦ rw e (λ h. inl (sym ((eq_iff x s).0 e)), λ h. refl)
      | inr e ↦ rw e (
        λ h. inr (rest.0 h),
        λ h. elim h [ inl p ↦ absurd (cc ((eq_iff x s).1 (sym p))) | inr k ↦ rest.1 k ],
      )
    ]

supported_iff :
    (scheme : String) → (is_supported_scheme scheme ≡ true) ↔ ((scheme ≡ "") ⊎ In scheme schemes)
supported_iff scheme =
    let named = contains_iff schemes scheme in
    let empty = eq_iff scheme "" in
    elim (Bool-cases (scheme == "")) [
      | inl e ↦ rw e (λ h. inl (empty.0 e), λ h. refl)
      | inr e ↦ rw e (
        λ h. inr (named.0 h),
        λ h. elim h [ inl p ↦ absurd (cc (empty.1 p)) | inr k ↦ named.1 k ],
      )
    ]

filled_iff : (s : String) → ((s == "") ≡ false) ↔ (s ≢ "")
filled_iff s = elim (Bool-cases (s == "")) [
  | inl e ↦ (λ h. absurd (cc h), λ n. absurd (n ((eq_iff s "").0 e)))
  | inr e ↦ (λ h p. absurd (cc ((eq_iff s "").1 p)), λ n. e)
]

module _ {A : Type 0} (net : Net A) where
  -- A unicast address of the public network
  abbrev pub IsPublic : A → Type 0
  IsPublic ip =
      (net.is_loopback ip ≡ false)
      × (net.is_multicast ip ≡ false)
      × (net.is_unspecified ip ≡ false)
      × (net.is_link_local_unicast ip ≡ false)
      × (net.is_link_local_multicast ip ≡ false)
      × (net.is_global_unicast ip ≡ true)
      × (net.is_private ip ≡ false)

  -- What a host stands for: itself, where it is an address, or else what it resolves to
  abbrev pub StandsFor : String → List A → Type 0
  StandsFor host ips =
      ((ip : A) × (net.parse_ip host ≡ some ip) × (ips ≡ ip ∷ []))
      ⊎ (net.parse_ip host ≡ none) × (net.lookup_ip host ≡ ok ips)

  abbrev pub IsAllowed : String → Type 0
  IsAllowed raw =
      (trim_space raw ≢ "")
      × ((scheme : String) × (host : String) × (parse_git_host net (trim_space raw)
            ≡ ok (scheme, host))
          × ((scheme ≡ "") ⊎ In scheme schemes)
          × (plain_host net host ≢ "")
          × (is_blocked_hostname (plain_host net host) ≡ false)
          × ((ips : List A) × StandsFor (strip_host_port net (plain_host net host)) ips
              × All IsPublic ips))

  blocked_iff : (ip : A) → (is_blocked_ip net ip ≡ false) ↔ IsPublic ip
  unfolding is_blocked_ip
  blocked_iff ip = ground arith

  resolved_iff :
      (host : String) (ips : List A) → (check_resolved net host ips ≡ ok tt) ↔ All IsPublic ips
  unfolding check_resolved
  resolved_iff host [] = (λ e. tt, λ h. refl)
  resolved_iff host (ip ∷ ips) =
      let rest = resolved_iff host ips in
      elim (Bool-cases (is_blocked_ip net ip)) [
        | inl e ↦ rw e (λ h. absurd (cc h), λ (p, h). absurd (cc ((blocked_iff ip).1 p)))
        | inr e ↦ rw e (λ h. ((blocked_iff ip).0 e, rest.0 h), λ (p, h). rest.1 h)
      ]

  looked_iff :
      (host : String) (answer : Result (List A))
      → (check_lookup net host answer ≡ ok tt)
        ↔ ((ips : List A) × (answer ≡ ok ips) × All IsPublic ips)
  looked_iff host (ok ips) = (
    λ h. (ips, refl, (resolved_iff host ips).0 h),
    λ (l, e, h). (resolved_iff host ips).1 (let same : ips ≡ l = cc e in rw same h),
  )
  looked_iff host (err e) = (λ h. absurd (cc h), λ (l, q, h). absurd (cc q))

  StandsFor-IsPublic :
      (host : String) (ip : A) (ips : List A)
      → net.parse_ip host ≡ some ip
      → StandsFor host ips
      → All IsPublic ips
      → IsPublic ip
  StandsFor-IsPublic host ip ips p (inl (other, q, r)) a =
      let same : other ≡ ip = cc (p, q) in
      let one : All IsPublic (other ∷ []) = rw r at a in rw (sym same) one.0
  StandsFor-IsPublic host ip ips p (inr (q, e)) a = absurd (cc (p, q))

  address_iff :
      (host : String) (found : Option A)
      → net.parse_ip host ≡ found
      → (check_address net host found ≡ ok tt)
        ↔ ((ips : List A) × StandsFor host ips × All IsPublic ips)
  unfolding check_address
  address_iff host none p =
      let looked = looked_iff host (net.lookup_ip host) in
      (
        λ h. let (ips, e, a) = looked.0 h in (ips, inr (p, e), a),
        λ (ips, st, a). elim st [
          | inl (ip, q, r) ↦ absurd (cc (p, q))
          | inr (q, e) ↦ looked.1 (ips, e, a)
        ],
      )
  address_iff host (some ip) p = elim (Bool-cases (is_blocked_ip net ip)) [
    | inl e ↦ rw e (
      λ h. absurd (cc h),
      λ (ips, st, a). absurd (cc ((blocked_iff ip).1 (StandsFor-IsPublic host ip ips p st a), e)),
    )
    | inr e ↦ rw e (λ h. (ip ∷ [], inl (ip, p, refl), ((blocked_iff ip).0 e, tt)), λ h. refl)
  ]

  host_iff :
      (host : String)
      → (check_host net host ≡ ok tt) ↔ (
          (host ≢ "")
          × (is_blocked_hostname host ≡ false)
          × ((ips : List A) × StandsFor (strip_host_port net host) ips × All IsPublic ips))
  unfolding check_host
  host_iff host =
      let plain = strip_host_port net host in
      let address = address_iff plain (net.parse_ip plain) refl in
      let filled = filled_iff host in
      elim (Bool-cases (host == "")) [
        | inl e ↦ rw e (λ h. absurd (cc h), λ (n, q, h). absurd (cc (filled.1 n, e)))
        | inr e ↦ elim (Bool-cases (is_blocked_hostname host)) [
          | inl b ↦ rw (e, b) (λ h. absurd (cc h), λ (n, q, h). absurd (cc q))
          | inr b ↦ rw (e, b) (λ h. (filled.0 e, refl, address.0 h), λ (n, q, h). address.1 h)
        ]
      ]

  parsed_iff :
      (scheme host : String)
      → (check_parsed net (ok (scheme, host)) ≡ ok tt)
        ↔ (((scheme ≡ "") ⊎ In scheme schemes) × (check_host net (plain_host net host) ≡ ok tt))
  parsed_iff scheme host =
      let supported = supported_iff scheme in
      elim (Bool-cases (is_supported_scheme scheme)) [
        | inl e ↦ rw e (λ h. (supported.0 e, h), λ (s, h). h)
        | inr e ↦ rw e (λ h. absurd (cc h), λ (s, h). absurd (cc (supported.1 s, e)))
      ]

  allowed :
      (raw : String) (answer : Result (String × String))
      → trim_space raw ≢ ""
      → parse_git_host net (trim_space raw) ≡ answer
      → check_parsed net answer ≡ ok tt
      → IsAllowed raw
  allowed raw (ok (scheme, host)) n p h =
      let (s, c) = (parsed_iff scheme host).0 h in
      let (m, b, st) = (host_iff (plain_host net host)).0 c in (n, (scheme, host, p, s, m, b, st))
  allowed raw (err e) n p h = absurd (cc h)

  -- `validateGitURL` answers no error exactly if the text is not blank, a host can be read from it, its
  -- scheme is missing or one of the four, the host, without its last dot and in lower case, is neither
  -- empty nor a blocked name, and each address that it stands for without its port is public.
  pub validate_git_url_iff : (raw : String) → (validate_git_url net raw ≡ ok tt) ↔ IsAllowed raw
  unfolding validate_git_url
  validate_git_url_iff raw =
      let filled = filled_iff (trim_space raw) in
      elim (Bool-cases (trim_space raw == "")) [
        | inl e ↦ rw e (λ h. absurd (cc h), λ (n, h). absurd (cc (filled.1 n, e)))
        | inr e ↦ rw e (
          λ h. allowed raw (parse_git_host net (trim_space raw)) (filled.0 e) refl h,
          λ (n, (scheme, host, p, s, m, b, st)).
              rw p ((parsed_iff scheme host).1 (s, (host_iff (plain_host net host)).1 (m, b, st))),
        )
      ]
