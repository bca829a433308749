-- ===== src/Txn/Allowlist.antt =====
-- The allowlist of participant endpoints (djinn/crates/coordin8-txn/src/allowlist.rs). `parse_ip` is
-- the standard library's parser of IP literals. An IPv4 address is a number below `2 ^ 32`, an IPv6
-- address one below `2 ^ 128`.
use Prim.Native.Nat.{bit_and}
use Prim.Native.String.{len, ◌++◌ as concat}
use text.Mathlib.Text.{starts_with, find?}
use coordin.Common.{
  ℕ, ◌+◌, ◌-◌, ◌*◌, ◌/◌, ◌%◌, ◌^◌, String, Bool, true, false, not, Option, none, some, List, [],
  ◌∷◌, ◌++◌, Result, ok, err, and_then, map_err, ltb, leb, eqb, any, all, is_some, ◌==◌, ◌&&◌, ◌||◌,
  if◌then◌else◌,
}
use coordin.Common.Chars.{
  split_once, split, count_char, all_chars, strip_suffix, trim, parse_uint, to_ascii_lowercase,
}
use coordin.Common.Text.{strip_prefix, show_u64}
use coordin.Error.{Error, invalid_argument, permission_denied}

pub data IpAddr : Type 0 where
  v4 : ℕ → IpAddr
  v6 : ℕ → IpAddr

pub data HostPattern : Type 0 where
  exact : String → HostPattern
  suffix : String → HostPattern
  ip : IpAddr → HostPattern
  cidr : IpAddr → ℕ → HostPattern

pub record Entry : Type 0 where
  pub host : HostPattern
  pub port : Option ℕ

pub data Host : Type 0 where
  name : String → Host
  ip_literal : IpAddr → Host

pub record ParticipantAllowlist : Type 0 where
  pub entries : List Entry

-- Letters, digits, `-` and `_`.
unfoldable pub label_char : ℕ → Bool
label_char c =
    (leb 48 c && leb c 57)
    || ((leb 65 c && leb c 90) || ((leb 97 c && leb c 122) || (eqb c 45 || eqb c 95)))

abbrev valid_label : String → Bool
valid_label l = not (l == "") && all_chars label_char l

unfoldable pub valid_hostname : String → Bool
valid_hostname h = not (h == "") && all valid_label (split 46 h)

-- `to_ipv4_mapped`: the address `::ffff:a.b.c.d`.
abbrev pub to_ipv4_mapped : ℕ → Option ℕ
to_ipv4_mapped a = if eqb (a / 2 ^ 32) 65535 then some (a % 2 ^ 32) else none

abbrev v4_or : ℕ → Option ℕ → IpAddr
v4_or a none = v6 a
v4_or a (some b) = v4 b

unfoldable pub canon : IpAddr → IpAddr
canon (v4 a) = v4 a
canon (v6 a) = v4_or a (to_ipv4_mapped a)

unfoldable pub parse_port : String → Result String ℕ
parse_port p = elim (parse_uint 65535 p) [
  | none ↦ err (concat "invalid port '" (concat p "'"))
  | some n ↦ if eqb n 0 then err (concat "invalid port '" (concat p "'")) else ok n
]

-- What follows a `]`.
abbrev bracketed : String → String → Result String (String × Option String)
bracketed host tail = if tail == "" then ok (host, none) else elim (strip_prefix ":" tail) [
  | some p ↦ ok (host, some p)
  | none ↦ err "unexpected text after ']'"
]

abbrev at_colon : String → Option (String × String) → Result String (String × Option String)
at_colon s none = ok (s, none)
at_colon s (some (h, p)) = ok (h, some p)

unfoldable pub split_host_port : String → Result String (String × Option String)
split_host_port s = elim (strip_prefix "[" s) [
  | some rest ↦ elim (split_once 93 rest) [
    | none ↦ err "missing ']'"
    | some parts ↦ bracketed parts.0 parts.1
  ]
  | none ↦ if eqb (count_char 58 s) 1 then at_colon s (split_once 58 s) else ok (s, none)
]

abbrev pub pattern_of : Host → HostPattern
pattern_of (name n) = exact n
pattern_of (ip_literal a) = ip a

-- `u32::MAX << (width - len)`, of `width` bits, and no bit for a length of zero.
abbrev mask : ℕ → ℕ → ℕ
mask width n = if eqb n 0 then 0 else ((2 ^ width - 1) * 2 ^ (width - n)) % 2 ^ width

unfoldable pub cidr_contains : IpAddr → ℕ → IpAddr → Bool
cidr_contains (v4 net) n (v4 a) = eqb (bit_and net (mask 32 n)) (bit_and a (mask 32 n))
cidr_contains (v6 net) n (v6 a) = eqb (bit_and net (mask 128 n)) (bit_and a (mask 128 n))
cidr_contains _ n _ = false

abbrev pub same_ip : IpAddr → IpAddr → Bool
same_ip (v4 a) (v4 b) = eqb a b
same_ip (v6 a) (v6 b) = eqb a b
same_ip _ _ = false

abbrev before_dot : Option String → Bool
before_dot none = false
before_dot (some p) = is_some (strip_suffix "." p)

abbrev pub suffix_matches : String → String → Bool
suffix_matches s h = ltb (len s + 1) (len h) && before_dot (strip_suffix s h)

unfoldable pub host_matches : HostPattern → Host → Bool
host_matches (exact e) (name h) = e == h
host_matches (suffix s) (name h) = suffix_matches s h
host_matches (ip a) (ip_literal b) = same_ip (canon a) b
host_matches (cidr net n) (ip_literal b) = cidr_contains net n b
host_matches _ _ = false

abbrev other_port : Option ℕ → ℕ → Bool
other_port none port = false
other_port (some p) port = not (eqb p port)

-- `Entry::matches`
unfoldable pub matches : Entry → Host → ℕ → Bool
matches e host port = if other_port e.port port then false else host_matches e.host host

abbrev pub allow_all : ParticipantAllowlist
allow_all = record { entries = [] }

abbrev no_entries : List Entry → Bool
no_entries [] = true
no_entries (e ∷ es) = false

unfoldable pub is_allow_all : ParticipantAllowlist → Bool
is_allow_all list = no_entries list.entries

abbrev pub bad : String → String → String
bad endpoint why =
    concat "participant_endpoint '"
      (concat endpoint (concat "' must be host:port (" (concat why ")")))

abbrev pub port_of : String → Option String → Result String ℕ
port_of endpoint none = err (bad endpoint "missing port")
port_of endpoint (some p) = map_err (bad endpoint) (parse_port p)

abbrev not_permitted : String → Error
not_permitted endpoint = permission_denied (
    concat "participant endpoint '"
      (concat endpoint "' is not permitted by COORDIN8_TXN_PARTICIPANT_ALLOW"))

abbrev pub verdict : ParticipantAllowlist → String → Host × ℕ → Result Error Unit
verdict list endpoint found =
    if is_allow_all list || any (λ e. matches e found.0 found.1) list.entries
    then ok tt
    else err (not_permitted endpoint)

abbrev pub with_entry : ParticipantAllowlist → Host × ℕ → ParticipantAllowlist
with_entry list found = record {
  entries = list.entries ++ record { host = pattern_of found.0; port = some found.1 } ∷ [];
}

module _ (parse_ip : String → Option IpAddr) where
  unfoldable pub parse_host : String → Result String Host
  parse_host h = if h == "" then err "empty host" else elim (parse_ip h) [
    | some a ↦ ok (ip_literal (canon a))
    | none ↦
        if valid_hostname (to_ascii_lowercase h)
        then ok (name (to_ascii_lowercase h))
        else err (concat "invalid host '" (concat h "'"))
  ]

  abbrev max_length : IpAddr → ℕ
  max_length (v4 a) = 32
  max_length (v6 a) = 128

  -- `address/length`
  unfoldable pub parse_cidr : String → String → Result String Entry
  parse_cidr addr length = elim (parse_ip addr) [
    | none ↦ err (concat "invalid CIDR address '" (concat addr "'"))
    | some net ↦ elim (parse_uint 255 length) [
      | none ↦ err (concat "invalid CIDR prefix length '" (concat length "'"))
      | some n ↦
          if ltb (max_length net) n
          then err (
              concat "CIDR prefix length "
                (concat (show_u64 n) (concat " exceeds " (show_u64 (max_length net)))))
          else ok (record { host = cidr net n; port = none })
    ]
  ]

  abbrev parse_some_port : Option String → Result String (Option ℕ)
  parse_some_port none = ok none
  parse_some_port (some p) = and_then (parse_port p) λ n. ok (some n)

  abbrev wildcard : String → String → Option ℕ → Result String Entry
  wildcard h s port =
      if valid_hostname s
      then ok (record { host = suffix s; port = port })
      else err (concat "invalid wildcard host '" (concat h "'"))

  unfoldable pub parse_named : String → Option ℕ → Result String Entry
  parse_named h port = elim (strip_prefix "*." h) [
    | some s ↦ wildcard h (to_ascii_lowercase s) port
    | none ↦
        if is_some (find? h "*")
        then err (concat "'" (concat h "': wildcards are only supported as a leading '*.'"))
        else and_then (parse_host h) λ found. ok (record { host = pattern_of found; port = port })
  ]

  unfoldable pub parse_entry : String → Result String Entry
  parse_entry text =
      let raw = trim text in
      if raw == "" then err "empty entry" else elim (split_once 47 raw) [
        | some parts ↦ parse_cidr parts.0 parts.1
        | none ↦
            and_then (split_host_port raw)
              λ parts. and_then (parse_some_port parts.1) λ port. parse_named parts.0 port
      ]

  abbrev pub with_host : String → String → ℕ → Result String (Host × ℕ)
  with_host endpoint h port =
      and_then (map_err (bad endpoint) (parse_host h)) λ host. ok (host, port)

  abbrev pub with_parts : String → String × Option String → Result String (Host × ℕ)
  with_parts endpoint parts = and_then (port_of endpoint parts.1) (with_host endpoint parts.0)

  -- Strictly `host:port` or `[v6]:port`.
  unfoldable pub parse_endpoint : String → Result String (Host × ℕ)
  parse_endpoint endpoint =
      if ltb 1 (count_char 58 endpoint) && not (starts_with endpoint "[")
      then err (bad endpoint "IPv6 literals must be bracketed")
      else and_then (map_err (bad endpoint) (split_host_port endpoint)) (with_parts endpoint)

  abbrev bad_entry : String → String → String
  bad_entry raw e =
      concat "COORDIN8_TXN_PARTICIPANT_ALLOW: bad entry '" (concat (trim raw) (concat "': " e))

  unfoldable pub parse_entries : List String → Result String (List Entry)
  parse_entries [] = ok []
  parse_entries (raw ∷ rest) =
      and_then (map_err (bad_entry raw) (parse_entry raw))
        λ e. and_then (parse_entries rest) λ es. ok (e ∷ es)

  unfoldable pub parse : String → Result String ParticipantAllowlist
  parse spec =
      if trim spec == ""
      then ok allow_all
      else and_then (parse_entries (split 44 spec)) λ es. ok (record { entries = es })

  -- The environment variable, if it is set.
  unfoldable pub from_env : Option String → Result String ParticipantAllowlist
  from_env none = ok allow_all
  from_env (some v) = parse v

  unfoldable pub with_implicit_endpoint :
      ParticipantAllowlist → String → Result String ParticipantAllowlist
  with_implicit_endpoint list endpoint =
      if is_allow_all list
      then ok list
      else and_then (parse_endpoint endpoint) λ found. ok (with_entry list found)

  unfoldable pub check : ParticipantAllowlist → String → Result Error Unit
  check list endpoint =
      and_then (map_err invalid_argument (parse_endpoint endpoint)) (verdict list endpoint)
