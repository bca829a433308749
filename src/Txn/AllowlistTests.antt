-- ===== src/Txn/AllowlistTests.antt =====
-- Runs of the allowlist of participants, and its theorems at concrete inputs.
use Prim.Native.String.{◌++◌ as concat}
use coordin.Common.{
  String, true, Option, none, some, List, [], ◌∷◌, ok, ◌≡◌, ◌≢◌, ◌↔◌, refl, any, all, All,
  if◌then◌else◌, ◌==◌,
}
use coordin.Common.Text.{strip_prefix, show_u64}
use coordin.Common.Chars.{
  split, split_once, count_char, strip_suffix, all_chars, parse_uint, to_ascii_lowercase,
  trim_start, trim_end, is_whitespace,
}
use coordin.Lease.Leasing.{Leasing}
use coordin.Txn.Participants.{Network}
use coordin.Txn.Allowlist.{
  IpAddr, v4, exact, suffix, cidr, ParticipantAllowlist, suffix_matches, is_allow_all, parse,
  parse_entries, parse_entry, parse_named, parse_cidr, parse_endpoint, split_host_port, parse_port,
  parse_host, valid_hostname, label_char, matches, host_matches, canon, cidr_contains,
  with_implicit_endpoint, check,
}
use coordin.Txn.Endpoints.{Admission, check_iff}
use coordin.Txn.Wildcards.{suffix_matches_iff}
use coordin.Txn.History.{Call, begins, enlists, commits, run}
use coordin.Txn.Dialled.{callee}
use coordin.Txn.Permitted.{run-Admission}

-- A parser that knows two addresses.
abbrev parse_ip : String → Option IpAddr
parse_ip s =
    if s == "10.0.0.0"
    then some (v4 167772160)
    else if s == "10.1.2.3"
    then some (v4 167838211)
    else none

abbrev list : ParticipantAllowlist
list = record {
  entries =
      record { host = exact "space"; port = some 9006 }
      ∷ record { host = suffix "internal"; port = none }
      ∷ record { host = cidr (v4 167772160) 8; port = none }
      ∷ [];
}

parse_run : parse parse_ip "Space:9006, *.internal,10.0.0.0/8" ≡ ok list
unfolding parse trim_start trim_end is_whitespace parse_entries parse_entry parse_named parse_cidr
    show_u64 count_char split split_once strip_suffix all_chars parse_uint to_ascii_lowercase
    strip_prefix any all is_allow_all parse_endpoint split_host_port parse_port parse_host
    valid_hostname label_char matches host_matches canon cidr_contains
parse_run = refl

check_port : check parse_ip list "space:9006" ≡ ok tt
unfolding check count_char split split_once strip_suffix all_chars parse_uint to_ascii_lowercase
    strip_prefix any all is_allow_all parse_endpoint split_host_port parse_port parse_host
    valid_hostname label_char matches host_matches canon cidr_contains
check_port = refl

check_cidr : check parse_ip list "10.1.2.3:1" ≡ ok tt
unfolding check count_char split split_once strip_suffix all_chars parse_uint to_ascii_lowercase
    strip_prefix any all is_allow_all parse_endpoint split_host_port parse_port parse_host
    valid_hostname label_char matches host_matches canon cidr_contains
check_cidr = refl

suffix_matches_iff_example :
    (suffix_matches "internal" "a.internal" ≡ true)
    ↔ ((p : String) × ((p ≢ "") × ("a.internal" ≡ concat p (concat "." "internal"))))
suffix_matches_iff_example = suffix_matches_iff "internal" "a.internal"

check_iff_example :
    (check parse_ip list "space:9006" ≡ ok tt) ↔ Admission parse_ip list "space:9006"
check_iff_example = check_iff parse_ip list "space:9006"

abbrev extended : ParticipantAllowlist
extended = record {
  entries =
      record { host = exact "space"; port = some 9006 }
      ∷ record { host = suffix "internal"; port = none }
      ∷ record { host = cidr (v4 167772160) 8; port = none }
      ∷ record { host = exact "djinn"; port = some 9006 }
      ∷ [];
}

extended_run : with_implicit_endpoint parse_ip list "djinn:9006" ≡ ok extended
unfolding with_implicit_endpoint count_char split split_once strip_suffix all_chars parse_uint
    to_ascii_lowercase strip_prefix all is_allow_all parse_endpoint split_host_port parse_port
    parse_host valid_hostname label_char canon
extended_run = refl

abbrev grantor : Leasing Unit
grantor = record {
  grant = λ resource ttl s. (
    ok (record {
      lease_id = "l1";
      resource_id = resource;
      granted_at = 0;
      expires_at = ttl;
      ttl_seconds = ttl;
    }),
    s,
  );
  renew = λ lease_id ttl s. (
    ok (record {
      lease_id = lease_id;
      resource_id = "";
      granted_at = 0;
      expires_at = ttl;
      ttl_seconds = ttl;
    }),
    s,
  );
  cancel = λ lease_id s. (ok tt, s);
}

abbrev net : Network
net = record { answer = λ calls c. ok 0 }

-- The second endpoint is refused.
abbrev calls : List Call
calls =
    begins 5 "t1" 30
    ∷ enlists "t1" "space:9006" 0
    ∷ enlists "t1" "evil.example:80" 0
    ∷ commits "t1"
    ∷ []

run-Admission_example :
    All
      (λ c. Admission parse_ip list (callee c))
      (run grantor net
        (check parse_ip list)
        calls
        (record { store = []; leases = tt; calls = [] })).calls
run-Admission_example = run-Admission grantor net parse_ip list tt calls
