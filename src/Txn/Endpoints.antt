-- ===== src/Txn/Endpoints.antt =====
-- What the allowlist lets through (djinn/crates/coordin8-txn/src/allowlist.rs).
use coordin.Common.{
  ℕ, ◌≤◌, String, Bool, true, false, Option, none, some, Result, ok, err, map_err, and_then-ok,
  map_err-ok, ◌≡◌, ◌↔◌, ◌⊎◌, In, any-In, In-any, In-append_left, In-append_right, here, eqb, ◌/◌,
  ◌%◌, ◌^◌, refl, arith, ◌==◌, eq_refl, if◌then◌else◌, Bool-cases, Option-cases, inl, inr, ap,
  subst,
}
use coordin.Common.Chars.{to_ascii_lowercase, parse_uint, parse_uint_bound}
use coordin.Error.{invalid_argument}
use coordin.Txn.Allowlist.{
  IpAddr, v4, v6, Entry, Host, name, ip_literal, ParticipantAllowlist, host_matches, matches,
  parse_port, port_of, parse_host, bad, with_host, with_parts, split_host_port, valid_hostname,
  with_entry, is_allow_all, canon, same_ip, pattern_of, parse_endpoint, with_implicit_endpoint,
  verdict, check,
}

contradicted : {a : Bool} → a ≡ true → a ≡ false → ⊥
contradicted t f = cc

parse_port_bounds : (p : String) (n : ℕ) → parse_port p ≡ ok n → (1 ≤ n) × (n ≤ 65535)
unfolding parse_port
parse_port_bounds p n e = elim (Option-cases (parse_uint 65535 p)) [
  | inl x ↦ ground arith
  | inr (m, x) ↦ (let bound = parse_uint_bound 65535 m p x in ground arith)
]

not_refused :
    {A : Type 0} (b : Bool) (text : String) (r : Result String A) {a : A}
    → (if b then err text else r) ≡ ok a
    → r ≡ ok a
not_refused true text r e = cc
not_refused false text r e = e

port_of_bounds :
    (endpoint : String) (p : Option String) (n : ℕ)
    → port_of endpoint p ≡ ok n
    → (1 ≤ n) × (n ≤ 65535)
port_of_bounds endpoint none n e = cc
port_of_bounds endpoint (some p) n e =
    parse_port_bounds p n (map_err-ok (bad endpoint) (parse_port p) e)

restricted :
    (b : Bool) (list : ParticipantAllowlist) (r : Result String ParticipantAllowlist)
    {a : ParticipantAllowlist}
    → b ≡ false
    → (if b then ok list else r) ≡ ok a
    → r ≡ ok a
restricted true list r f e = cc
restricted false list r f e = e

abbrev ported : ℕ → Result String (Host × ℕ) → ℕ
ported n (ok x) = x.1
ported n (err e) = n

abbrev found_in : Host × ℕ → Result String (Host × ℕ) → Host × ℕ
found_in d (ok x) = x
found_in d (err e) = d

abbrev list_in : ParticipantAllowlist → Result String ParticipantAllowlist → ParticipantAllowlist
list_in d (ok x) = x
list_in d (err e) = d

matches_self :
    (host : Host) (n : ℕ)
    → host_matches (pattern_of host) host ≡ true
    → matches (record { host = pattern_of host; port = some n }) host n ≡ true
unfolding matches
matches_self host n e = rw e (ground arith)

module _ (parse_ip : String → Option IpAddr) where
  with_host-ok :
      (endpoint h : String) (n : ℕ) (host : Host) (port : ℕ)
      → with_host parse_ip endpoint h n ≡ ok (host, port)
      → n ≡ port
  with_host-ok endpoint h n host port e =
      let (a, (p, q)) =
        and_then-ok (map_err (bad endpoint) (parse_host parse_ip h)) (λ x. ok (x, n)) e in
      ap (ported n) q

  -- A port that an endpoint names is between 1 and 65535.
  endpoint_bounds :
      (endpoint : String) (host : Host) (port : ℕ)
      → parse_endpoint parse_ip endpoint ≡ ok (host, port)
      → (1 ≤ port) × (port ≤ 65535)
  unfolding parse_endpoint
  endpoint_bounds endpoint host port e =
      let (parts, (p, q)) =
        and_then-ok (map_err (bad endpoint) (split_host_port endpoint))
          (with_parts parse_ip endpoint) (not_refused _ _ _ e) in
      let (n, (r, t)) =
        and_then-ok (port_of endpoint parts.1) (with_host parse_ip endpoint parts.0) q in
      subst (λ k. (1 ≤ k) × (k ≤ 65535)) (with_host-ok endpoint parts.0 n host port t)
        (port_of_bounds endpoint parts.1 n r)

  verdict-ok :
      (list : ParticipantAllowlist) (endpoint : String) (found : Host × ℕ)
      → verdict list endpoint found ≡ ok tt
      → (is_allow_all list ≡ true)
        ⊎ ((e : Entry) × (In e list.entries × (matches e found.0 found.1 ≡ true)))
  verdict-ok list endpoint found e = elim (Bool-cases (is_allow_all list)) [
    | inl x ↦ inl x
    | inr x ↦ inr (any-In (λ e. matches e found.0 found.1) list.entries (ground arith))
  ]

  ok-verdict :
      (list : ParticipantAllowlist) (endpoint : String) (found : Host × ℕ)
      → (is_allow_all list ≡ true)
        ⊎ ((e : Entry) × (In e list.entries × (matches e found.0 found.1 ≡ true)))
      → verdict list endpoint found ≡ ok tt
  ok-verdict list endpoint found (inl x) = rw x refl
  ok-verdict list endpoint found (inr (e, (m, t))) =
      let some_match = In-any (λ e. matches e found.0 found.1) list.entries e m t in ground arith

  -- An endpoint that the list lets through: it names a host and a port, and nothing is restricted or an
  -- entry matches them.
  pub record Admission (list : ParticipantAllowlist) (endpoint : String) : Type 0 where
    pub host : Host
    pub port : ℕ
    pub parsed : parse_endpoint parse_ip endpoint ≡ ok (host, port)
    pub not_zero : 1 ≤ port
    pub in_range : port ≤ 65535
    pub permitted :
        (is_allow_all list ≡ true)
        ⊎ ((e : Entry) × (In e list.entries × (matches e host port ≡ true)))

  -- The check of an endpoint succeeds exactly if the endpoint names a host and a port from 1 to 65535,
  -- and either the list restricts nothing or an entry of it matches them.
  pub check_iff :
      (list : ParticipantAllowlist) (endpoint : String)
      → (check parse_ip list endpoint ≡ ok tt) ↔ Admission list endpoint
  unfolding check
  check_iff list endpoint = (
    λ e.
        let (found, (p, q)) =
          and_then-ok (map_err invalid_argument (parse_endpoint parse_ip endpoint))
            (verdict list endpoint) e in
        let parsed = map_err-ok invalid_argument (parse_endpoint parse_ip endpoint) p in
        let bounds = endpoint_bounds endpoint found.0 found.1 parsed in
        record {
          host = found.0;
          port = found.1;
          parsed = parsed;
          not_zero = bounds.0;
          in_range = bounds.1;
          permitted = verdict-ok list endpoint found q;
        },
    λ a. rw a.parsed (ok-verdict list endpoint (a.host, a.port) a.permitted),
  )

  same_ip_refl : (a : IpAddr) → same_ip a a ≡ true
  same_ip_refl (v4 a) = ground arith
  same_ip_refl (v6 a) = ground arith

  canon_idem : (a : IpAddr) → canon (canon a) ≡ canon a
  canon_idem (v4 a) = unfold canon in refl
  canon_idem (v6 a) = elim (Bool-cases (eqb (a / 2 ^ 32) 65535)) [
    | inl e ↦
        let c : canon (v6 a) ≡ v4 (a % 2 ^ 32) = unfold canon in rw e refl in
        rw c (unfold canon in refl)
    | inr e ↦ let c : canon (v6 a) ≡ v6 a = unfold canon in rw e refl in rw (c, c) refl
  ]

  -- A host that was parsed is matched by the pattern that stands for it.
  parse_host_self :
      (h : String) (host : Host)
      → parse_host parse_ip h ≡ ok host
      → host_matches (pattern_of host) host ≡ true
  unfolding parse_host host_matches
  parse_host_self h host e = elim (Bool-cases (h == "")) [
    | inl x ↦ ground arith
    | inr x ↦ elim (Option-cases (parse_ip h)) [
      | inl y ↦ elim (Bool-cases (valid_hostname (to_ascii_lowercase h))) [
        | inl z ↦
            let same : name (to_ascii_lowercase h) ≡ host = ground arith in
            rw (← same) (eq_refl (to_ascii_lowercase h))
        | inr z ↦ ground arith
      ]
      | inr (a, y) ↦
          let same : ip_literal (canon a) ≡ host = ground arith in
          rw (← same) (rw (canon_idem a) (same_ip_refl (canon a)))
    ]
  ]

  parse_endpoint_self :
      (endpoint : String) (found : Host × ℕ)
      → parse_endpoint parse_ip endpoint ≡ ok found
      → matches (record { host = pattern_of found.0; port = some found.1 }) found.0 found.1 ≡ true
  unfolding parse_endpoint matches
  parse_endpoint_self endpoint found e =
      let (parts, (p, q)) =
        and_then-ok (map_err (bad endpoint) (split_host_port endpoint))
          (with_parts parse_ip endpoint) (not_refused _ _ _ e) in
      let (n, (r, t)) =
        and_then-ok (port_of endpoint parts.1) (with_host parse_ip endpoint parts.0) q in
      let (host, (u, v)) =
        and_then-ok (map_err (bad endpoint) (parse_host parse_ip parts.0)) (λ x. ok (x, n)) t in
      let self =
        parse_host_self parts.0 host (map_err-ok (bad endpoint) (parse_host parse_ip parts.0) u) in
      subst
        (λ (f : Host × ℕ).
          matches (record { host = pattern_of f.0; port = some f.1 }) f.0 f.1 ≡ true)
        (ap (found_in (host, n)) v) (matches_self host n self)

  -- Where a list restricts something, adding an endpoint that can be parsed lets that endpoint through
  -- and keeps everything admitted that was.
  with_implicit_endpoint-Admission :
      (list extended : ParticipantAllowlist) (endpoint : String)
      → is_allow_all list ≡ false
      → with_implicit_endpoint parse_ip list endpoint ≡ ok extended
      → Admission extended endpoint
        × ((other : String) → Admission list other → Admission extended other)
  unfolding with_implicit_endpoint
  with_implicit_endpoint-Admission list extended endpoint some_entries e =
      let (found, (p, q)) =
        and_then-ok (parse_endpoint parse_ip endpoint) (λ found. ok (with_entry list found))
          (restricted (is_allow_all list) list _ some_entries e) in
      let same = ap (list_in list) q in
      let bounds = endpoint_bounds endpoint found.0 found.1 p in
      subst
        (λ x. Admission x endpoint × ((other : String) → Admission list other → Admission x other))
        same
        (
          record {
            host = found.0;
            port = found.1;
            parsed = p;
            not_zero = bounds.0;
            in_range = bounds.1;
            permitted = inr (
              record { host = pattern_of found.0; port = some found.1 },
              (In-append_right list.entries _ (here refl), parse_endpoint_self endpoint found p),
            );
          },
          λ other a. record {
            host = a.host;
            port = a.port;
            parsed = a.parsed;
            not_zero = a.not_zero;
            in_range = a.in_range;
            permitted = elim a.permitted [
              | inl x ↦ elim (contradicted x some_entries) [ ]
              | inr (k, (m, t)) ↦ inr (k, (In-append_left list.entries _ m, t))
            ];
          },
        )
