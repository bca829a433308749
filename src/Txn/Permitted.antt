-- ===== src/Txn/Permitted.antt =====
-- The coordinator dials only endpoints that pass the check of `enlist`
-- (djinn/crates/coordin8-txn/src/manager.rs), through any sequence of calls.
use Prim.Native.String.{◌++◌ as concat}
use coordin.Common.{
  ℕ, String, Bool, true, false, Option, none, some, List, [], ◌∷◌, ◌++◌, Result, ok, err, ◌≡◌, refl,
  raise, lift, ◌>>◌, All, All-of_In, In-of_All, Bool-cases, Option-cases, inl, inr,
}
use coordin.Common.Dict
use coordin.Common.Dict.{get-insert}
use coordin.Error.{Error, Method}
use coordin.Lease.Leasing.{Leasing}
use coordin.Txn.{
  TransactionState, active, voting, committed, aborted, prepared, same_state, PrepareVote,
  TransactionRecord, ParticipantRecord,
}
use coordin.Txn.Store
use coordin.Txn.Store.{InMemoryTxnStore}
use coordin.Txn.Participants.{prepare, prepare_and_commit, Network}
use coordin.Txn.Calls.{prepares, prepare_calls_state}
use coordin.Txn.Manager.{
  TxnManager, on_store, on_leases, fetch, transition, begin, enlist, prepare_calls, tally, Tally,
  go_ahead, give_up, release, commit_none, single_vote, commit_single, decide, commit_two_phase,
  commit_claimed, commit_refused, commit, abort_refused, abort, abort_found, after_expiry,
  abort_expired,
}
use coordin.Txn.Allowlist
use coordin.Txn.Allowlist.{IpAddr, ParticipantAllowlist}
use coordin.Txn.Endpoints.{Admission, check_iff}
use coordin.Txn.History.{Call, begins, enlists, commits, aborts, expires, step, run}
use coordin.Txn.Dialled.{
  callee, Passes, AllPass, Any, All-map, All-append, IsGuarded, Guards, bind-Guards, then-Guards,
  raise-Guards, pure-Guards, if-Guards, put-IsGuarded, update_state_if-Guards, get-Guards,
  fetch-Guards, transition-Guards, calls-IsGuarded, aborts-Guards, commits-Guards, tally-Passes,
  votes-Passes,
}

module _ {L : Type 0} (check : String → Result Error Unit) (leasing : Leasing L)
    (net : Network) where
  release-Guards : (r : TransactionRecord) → Guards check (release leasing net r) Any
  release-Guards r s w = (record { enlisted = w.enlisted; dialled = w.dialled }, λ a x. tt)

  settle-Guards :
      (id : String) (r : TransactionRecord) (from to : TransactionState)
      → Guards check (transition id from to >> release leasing net r) Any
  settle-Guards id r from to =
      then-Guards check Any _ _ (transition-Guards check id from to) (release-Guards r)

  refuse-Guards :
      (r : TransactionRecord) (e : Error)
      → Guards check (release leasing net r >> raise e) (Any {A = Unit})
  refuse-Guards r e = then-Guards check Any _ _ (release-Guards r) (raise-Guards check Any e)

  vote-Guards :
      (id : String) (r : TransactionRecord) (vote : Result Error PrepareVote)
      → Guards check (single_vote leasing net id r vote) Any
  vote-Guards id r (ok PrepareVote.prepared) = settle-Guards id r voting committed
  vote-Guards id r (ok PrepareVote.not_changed) = settle-Guards id r voting committed
  vote-Guards id r (ok PrepareVote.aborted) =
      then-Guards check Any _ _ (transition-Guards check id voting aborted) (refuse-Guards r _)
  vote-Guards id r (err e) = raise-Guards check Any _

  decide-Guards :
      (id : String) (r : TransactionRecord) (t : Tally)
      → AllPass check r.participants
      → ((eps : List String) → t ≡ go_ahead eps → All (Passes check) eps)
      → Guards check (decide leasing net id r t) Any
  decide-Guards id r (give_up reason) a h =
      then-Guards check Any _ _ (transition-Guards check id voting aborted)
        (then-Guards check Any _ _ (aborts-Guards check id r.participants a) (refuse-Guards r _))
  decide-Guards id r (go_ahead eps) a h =
      then-Guards check Any _ _ (transition-Guards check id voting prepared) (
        then-Guards check Any _ _ (commits-Guards check id eps (h eps refl))
          (settle-Guards id r prepared committed))

  single-Guards :
      (id : String) (p : ParticipantRecord) (r : TransactionRecord)
      → Passes check p.endpoint
      → Guards check (commit_single leasing net id p r) Any
  unfolding commit_single
  single-Guards id p r a s w =
      vote-Guards id r _ _
        (calls-IsGuarded check (prepare_and_commit p.endpoint id ∷ []) s w (a, tt))

  two_phase-Guards :
      (id : String) (r : TransactionRecord)
      → AllPass check r.participants
      → Guards check (commit_two_phase leasing net id r) Any
  unfolding commit_two_phase
  two_phase-Guards id r a s w =
      decide-Guards id r (tally [] (prepare_calls net id r.participants s).0) a
        (λ eps e.
          tally-Passes check eps [] (prepare_calls net id r.participants s).0 tt
            (votes-Passes check net id r.participants s a) e)
        (prepare_calls net id r.participants s).1
        (rw (prepare_calls_state net id r.participants s) (
          calls-IsGuarded check (prepares id r.participants) s w
            (All-map _ (λ (p : ParticipantRecord). prepare p.endpoint id) r.participants a)))

  claimed-Guards :
      (id : String) (r : TransactionRecord) (ps : List ParticipantRecord)
      → AllPass check r.participants
      → AllPass check ps
      → Guards check (commit_claimed leasing net id r ps) Any
  claimed-Guards id r [] a b = unfold commit_none in settle-Guards id r voting committed
  claimed-Guards id r (p ∷ []) a b = single-Guards id p r b.0
  claimed-Guards id r (p ∷ q ∷ ps) a b = two_phase-Guards id r a

  commit_refused-Guards :
      (id : String) (state : TransactionState)
      → Guards check (commit_refused leasing net id state) Any
  commit_refused-Guards id active = raise-Guards check Any _
  commit_refused-Guards id voting = raise-Guards check Any _
  commit_refused-Guards id prepared = raise-Guards check Any _
  commit_refused-Guards id committed = pure-Guards check tt
  commit_refused-Guards id aborted = raise-Guards check Any _

  commit-Guards : (id : String) → Guards check (commit leasing net id) Any
  unfolding commit
  commit-Guards id =
      bind-Guards check Any Any (on_store (Store.update_state_if id active voting)) _
        (update_state_if-Guards check id active voting)
        (λ claimed h.
          bind-Guards check (λ r. AllPass check r.participants) Any (fetch id) _
            (fetch-Guards check id)
            (λ r a.
              if-Guards check Any claimed _ _ (claimed-Guards id r r.participants a a)
                (commit_refused-Guards id r.state)))

  abort_refused-Guards :
      (id : String) (state : TransactionState)
      → Guards check (abort_refused leasing net id state) Any
  abort_refused-Guards id active = raise-Guards check Any _
  abort_refused-Guards id voting = raise-Guards check Any _
  abort_refused-Guards id prepared = raise-Guards check Any _
  abort_refused-Guards id committed = raise-Guards check Any _
  abort_refused-Guards id aborted = pure-Guards check tt

  abort-Guards : (id : String) → Guards check (abort leasing net id) Any
  unfolding abort
  abort-Guards id =
      bind-Guards check Any Any (on_store (Store.update_state_if id active aborted)) _
        (update_state_if-Guards check id active aborted)
        (λ claimed h.
          bind-Guards check (λ r. AllPass check r.participants) Any (fetch id) _
            (fetch-Guards check id)
            (λ r a.
              if-Guards check Any claimed _ _
                (then-Guards check Any _ _ (aborts-Guards check id r.participants a)
                  (release-Guards r))
                (abort_refused-Guards id r.state)))

  found-Guards :
      (id : String) (o : Option TransactionRecord)
      → ((r : TransactionRecord) → o ≡ some r → AllPass check r.participants)
      → Guards check (λ s. (ok tt, abort_found leasing net id o s)) Any
  found-Guards id none h s w = (w, λ a x. tt)
  found-Guards id (some r) h s w = aborts-Guards check id r.participants (h r refl) s w

  expired-Guards :
      (id : String) (claimed : Bool) → Guards check (after_expiry leasing net id (ok claimed)) Any
  expired-Guards id true =
      bind-Guards check (λ o. (r : TransactionRecord) → o ≡ some r → AllPass check r.participants)
        Any (on_store (Store.get id)) _ (get-Guards check id) (λ o h. found-Guards id o h)
  expired-Guards id false = pure-Guards check tt

  abort_expired-Guards : (id : String) → Guards check (abort_expired leasing net id) Any
  unfolding abort_expired Store.update_state_if
  abort_expired-Guards id s w = elim (Option-cases (Dict.get id s.store)) [
    | inl e ↦ rw (e, abort_expired, Store.update_state_if) (w, λ a x. tt)
    | inr (r, e) ↦ elim (Bool-cases (same_state r.state active)) [
      | inl x ↦
          rw (e, abort_expired, Store.update_state_if, x)
            (expired-Guards id true _
              (put-IsGuarded check id (record r { state = aborted }) s w (w.enlisted id r e)))
      | inr x ↦ rw (e, abort_expired, Store.update_state_if, x) (w, λ a y. tt)
    ]
  ]

  on_leases-Guards : {A : Type 0} (m : Method L A) → Guards check (on_leases m) Any
  on_leases-Guards m s w = (record { enlisted = w.enlisted; dialled = w.dialled }, λ a x. tt)

  create-Guards :
      (r : TransactionRecord)
      → AllPass check r.participants
      → Guards {L = L} check (on_store (Store.create r)) Any
  unfolding Store.create
  create-Guards r a s w = (put-IsGuarded check r.txn_id r s w a, λ b x. tt)

  begin-Guards : (now : ℕ) (id : String) (ttl : ℕ) → Guards check (begin leasing net now id ttl) Any
  unfolding begin
  begin-Guards now id ttl =
      bind-Guards check Any Any (on_leases (leasing.grant (concat "txn:" id) ttl)) _
        (on_leases-Guards (leasing.grant (concat "txn:" id) ttl))
        (λ lease h. then-Guards check Any _ _ (create-Guards _ tt) (pure-Guards check _))

  add-Guards :
      (id : String) (p : ParticipantRecord)
      → Passes check p.endpoint
      → Guards {L = L} check (on_store (Store.add_participant id p)) Any
  unfolding Store.add_participant
  add-Guards id p a s w = elim (Option-cases (Dict.get id s.store)) [
    | inl e ↦ rw (e, Store.add_participant) (w, λ b x. tt)
    | inr (r, e) ↦ elim (Bool-cases (same_state r.state active)) [
      | inl x ↦
          rw (e, Store.add_participant, x)
            (
              put-IsGuarded check id (record r { participants = r.participants ++ p ∷ [] }) s w
                  (All-append _ r.participants _ (w.enlisted id r e) (a, tt)),
              λ b y. tt,
            )
      | inr x ↦ rw (e, Store.add_participant, x) (w, λ b y. tt)
    ]
  ]

  enlist-Guards :
      (id endpoint : String) (crash_count : ℕ)
      → Guards {L = L} check (enlist check id endpoint crash_count) Any
  unfolding enlist
  enlist-Guards id endpoint crash_count =
      bind-Guards check (λ a. Passes check endpoint) Any (lift (check endpoint)) _
        (λ s w. (w, λ a e. e)) (λ a passes. add-Guards id _ passes)

  step-IsGuarded :
      (c : Call) (s : TxnManager L)
      → IsGuarded check s
      → IsGuarded check (step leasing net check c s)
  step-IsGuarded (begins now id ttl) s w = (begin-Guards now id ttl s w).0
  step-IsGuarded (enlists id endpoint crash_count) s w =
      (enlist-Guards id endpoint crash_count s w).0
  step-IsGuarded (commits id) s w = (commit-Guards id s w).0
  step-IsGuarded (aborts id) s w = (abort-Guards id s w).0
  step-IsGuarded (expires id) s w = (abort_expired-Guards id s w).0

  -- Through any calls on the coordinator and any expiries, every participant that is recorded and
  -- every endpoint that is dialled passes the check, if so at the start.
  pub run-IsGuarded :
      (cs : List Call) (s : TxnManager L)
      → IsGuarded check s
      → IsGuarded check (run leasing net check cs s)
  run-IsGuarded [] s w = w
  run-IsGuarded (c ∷ cs) s w = run-IsGuarded cs (step leasing net check c s) (step-IsGuarded c s w)

module _ {L : Type 0} (leasing : Leasing L) (net : Network) where
  -- A coordinator that starts with no transactions and checks endpoints by an allowlist dials, in any
  -- sequence of calls and expiries, only endpoints that the list admits.
  pub run-Admission :
      (parse_ip : String → Option IpAddr) (list : ParticipantAllowlist) (leases : L)
      (cs : List Call)
      → All
          (λ c. Admission parse_ip list (callee c))
          (run leasing net
            (Allowlist.check parse_ip list)
            cs
            (record { store = []; leases = leases; calls = [] })).calls
  unfolding Dict.get
  run-Admission parse_ip list leases cs =
      let w =
        run-IsGuarded (Allowlist.check parse_ip list) leasing net cs
          (record { store = []; leases = leases; calls = [] })
          (record { enlisted = λ id r e. cc; dialled = tt }) in
      All-of_In _ _ (λ c i. (check_iff parse_ip list (callee c)).0 (In-of_All _ _ w.dialled c i))
