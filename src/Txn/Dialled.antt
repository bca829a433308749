-- ===== src/Txn/Dialled.antt =====
-- Only endpoints that pass the check are dialled (djinn/crates/coordin8-txn/src/manager.rs).
use coordin.Common.{
  String, Bool, true, false, Option, none, some, List, [], ◌∷◌, ◌++◌, map, Result, ok, err, ◌≡◌,
  refl, sym, subst, ◌∙◌, pure, raise, ok_or, continue, ◌>>=◌, ◌>>◌, if◌then◌else◌, ◌==◌, All,
  Bool-cases, Option-cases, inl, inr,
}
use coordin.Common.Dict
use coordin.Common.Dict.{get-insert}
use coordin.Error.{Error, Method}
use coordin.Txn.{TransactionState, same_state, PrepareVote, TransactionRecord, ParticipantRecord}
use coordin.Txn.Store
use coordin.Txn.Store.{InMemoryTxnStore}
use coordin.Txn.Participants.{
  Call, prepare, commit as commit_call, abort as abort_call, prepare_and_commit, Network,
}
use coordin.Txn.Calls.{commits, aborts, commit_calls_lem, do_abort_participants_lem}
use coordin.Txn.Manager.{
  TxnManager, on_store, fetch, transition, prepare_calls, tally, go_ahead, Votes,
  do_abort_participants, commit_calls,
}

-- Whom a call goes to.
abbrev pub callee : Call → String
callee (prepare endpoint txn_id) = endpoint
callee (commit_call endpoint txn_id) = endpoint
callee (abort_call endpoint txn_id) = endpoint
callee (prepare_and_commit endpoint txn_id) = endpoint

pub All-append :
    {A : Type 0} (P : A → Type 0) (xs ys : List A) → All P xs → All P ys → All P (xs ++ ys)
All-append P [] ys a b = b
All-append P (x ∷ xs) ys a b = (a.0, All-append P xs ys a.1 b)

pub All-map :
    {A B : Type 0} (P : B → Type 0) (f : A → B) (xs : List A)
    → All (λ x. P (f x)) xs
    → All P (map f xs)
All-map P f [] a = tt
All-map P f (x ∷ xs) a = (a.0, All-map P f xs a.1)

abbrev pub Passes : (String → Result Error Unit) → String → Type 0
Passes check endpoint = check endpoint ≡ ok tt

abbrev pub AllPass : (String → Result Error Unit) → List ParticipantRecord → Type 0
AllPass check = All (λ p. Passes check p.endpoint)

abbrev pub Any : {A : Type 0} → A → Type 0
Any a = Unit

-- Whom the votes lead to is among the voters.
pub tally-Passes :
    (check : String → Result Error Unit) (eps sofar : List String) (votes : Votes)
    → All (Passes check) sofar
    → All (λ v. Passes check v.0) votes
    → tally sofar votes ≡ go_ahead eps
    → All (Passes check) eps
unfolding tally
tally-Passes check eps sofar [] a b e =
    let same : sofar ≡ eps = cc in subst (All (Passes check)) same a
tally-Passes check eps sofar ((ep, ok PrepareVote.prepared) ∷ votes) a b e =
    tally-Passes check eps (sofar ++ ep ∷ []) votes (All-append _ sofar _ a (b.0, tt)) b.1 e
tally-Passes check eps sofar ((ep, ok PrepareVote.not_changed) ∷ votes) a b e =
    tally-Passes check eps sofar votes a b.1 e
tally-Passes check eps sofar ((ep, ok PrepareVote.aborted) ∷ votes) a b e = cc
tally-Passes check eps sofar ((ep, err x) ∷ votes) a b e = cc

module _ {L : Type 0} (check : String → Result Error Unit) where
  -- Every participant that is recorded and every endpoint that was dialled passed the check.
  pub record IsGuarded (s : TxnManager L) : Type 0 where
    pub enlisted :
        (txn_id : String) (r : TransactionRecord)
        → Dict.get txn_id s.store ≡ some r
        → AllPass check r.participants
    pub dialled : All (λ c. Passes check (callee c)) s.calls

  -- A method keeps the guard, and what it returns satisfies `Q`.
  abbrev pub Guards : {A : Type 0} → Method (TxnManager L) A → (A → Type 0) → Type 0
  Guards {A} m Q =
      (s : TxnManager L) → IsGuarded s → IsGuarded (m s).1 × ((a : A) → (m s).0 ≡ ok a → Q a)

  continue-Guards :
      {A B : Type 0} (Q : A → Type 0) (R : B → Type 0) (r : Result Error A)
      (f : A → Method (TxnManager L) B) (t : TxnManager L)
      → IsGuarded t
      → ((a : A) → r ≡ ok a → Q a)
      → ((a : A) → Q a → Guards (f a) R)
      → IsGuarded (continue r f t).1 × ((b : B) → (continue r f t).0 ≡ ok b → R b)
  continue-Guards Q R (ok a) f t g q h = h a (q a refl) t g
  continue-Guards Q R (err e) f t g q h = (g, λ b x. cc)

  pub bind-Guards :
      {A B : Type 0} (Q : A → Type 0) (R : B → Type 0) (m : Method (TxnManager L) A)
      (f : A → Method (TxnManager L) B)
      → Guards m Q
      → ((a : A) → Q a → Guards (f a) R)
      → Guards (m >>= f) R
  bind-Guards Q R m f g h s w = continue-Guards Q R (m s).0 f (m s).1 (g s w).0 (g s w).1 h

  pub then-Guards :
      {A B : Type 0} (R : B → Type 0) (m : Method (TxnManager L) A) (n : Method (TxnManager L) B)
      → Guards m Any
      → Guards n R
      → Guards (m >> n) R
  then-Guards R m n g h = bind-Guards Any R m (λ a. n) g (λ a q. h)

  pub raise-Guards : {A : Type 0} (Q : A → Type 0) (e : Error) → Guards (raise e) Q
  raise-Guards Q e s w = (w, λ a x. cc)

  pub pure-Guards : {A : Type 0} (a : A) → Guards (pure a) Any
  pure-Guards a s w = (w, λ b x. tt)

  pub if-Guards :
      {A : Type 0} (Q : A → Type 0) (b : Bool) (m n : Method (TxnManager L) A)
      → Guards m Q
      → Guards n Q
      → Guards (if b then m else n) Q
  if-Guards Q true m n g h = g
  if-Guards Q false m n g h = h

  put_found :
      (b : Bool) (k : String) (r x : TransactionRecord) (s : TxnManager L)
      → IsGuarded s
      → AllPass check r.participants
      → (if b then some r else Dict.get k s.store) ≡ some x
      → AllPass check x.participants
  put_found true k r x s w a e =
      let same : r ≡ x = cc in
      subst (λ (y : TransactionRecord). AllPass check y.participants) same a
  put_found false k r x s w a e = w.enlisted k x e

  -- A record put under an id whose participants pass the check.
  pub put-IsGuarded :
      (id : String) (r : TransactionRecord) (s : TxnManager L)
      → IsGuarded s
      → AllPass check r.participants
      → IsGuarded (record s { store = Dict.insert id r s.store })
  put-IsGuarded id r s w a = record {
    enlisted = λ k x e. put_found (id == k) k r x s w a (sym (get-insert id k r s.store) ∙ e);
    dialled = w.dialled;
  }

  pub update_state_if-Guards :
      (id : String) (from to : TransactionState)
      → Guards (on_store (Store.update_state_if id from to)) Any
  unfolding Store.update_state_if
  update_state_if-Guards id from to s w = elim (Option-cases (Dict.get id s.store)) [
    | inl e ↦ rw (e, Store.update_state_if) (w, λ a x. tt)
    | inr (r, e) ↦ elim (Bool-cases (same_state r.state from)) [
      | inl x ↦
          rw (e, Store.update_state_if, x)
            (put-IsGuarded id (record r { state = to }) s w (w.enlisted id r e), λ a x. tt)
      | inr x ↦ rw (e, Store.update_state_if, x) (w, λ a x. tt)
    ]
  ]

  ok_or-Guards :
      (o : Option TransactionRecord) (e : Error)
      → ((r : TransactionRecord) → o ≡ some r → AllPass check r.participants)
      → Guards (ok_or e o) (λ r. AllPass check r.participants)
  ok_or-Guards none e h s w = (w, λ r x. cc)
  ok_or-Guards (some r) e h s w = (
    w,
    λ x q.
        let same : r ≡ x = cc in
        subst (λ (y : TransactionRecord). AllPass check y.participants) same (h r refl),
  )

  pub get-Guards :
      (id : String)
      → Guards
          (on_store (Store.get id))
          (λ o. (r : TransactionRecord) → o ≡ some r → AllPass check r.participants)
  unfolding Store.get
  get-Guards id s w = (w, λ o q r e. w.enlisted id r cc)

  pub fetch-Guards : (id : String) → Guards (fetch id) (λ r. AllPass check r.participants)
  unfolding fetch
  fetch-Guards id =
      bind-Guards (λ o. (r : TransactionRecord) → o ≡ some r → AllPass check r.participants) _
        (on_store (Store.get id)) _ (get-Guards id) (λ o h. ok_or-Guards o _ h)

  pub transition-Guards :
      (id : String) (from to : TransactionState) → Guards (transition id from to) Any
  unfolding transition
  transition-Guards id from to =
      bind-Guards Any Any (on_store (Store.update_state_if id from to)) _
        (update_state_if-Guards id from to)
        (λ moved h. if-Guards Any moved _ _ (pure-Guards tt) (raise-Guards Any _))

  -- Calls to endpoints that pass keep the guard.
  pub calls-IsGuarded :
      (cs : List Call) (s : TxnManager L)
      → IsGuarded s
      → All (λ c. Passes check (callee c)) cs
      → IsGuarded (record s { calls = s.calls ++ cs })
  calls-IsGuarded cs s w a = record {
    enlisted = w.enlisted;
    dialled = All-append (λ c. Passes check (callee c)) s.calls cs w.dialled a;
  }

  pub aborts-Guards :
      (id : String) (ps : List ParticipantRecord)
      → AllPass check ps
      → Guards (λ s. (ok tt, do_abort_participants id ps s)) Any
  aborts-Guards id ps a s w = (
    rw (do_abort_participants_lem id ps s) (
        calls-IsGuarded (aborts id ps) s w
          (All-map _ (λ (p : ParticipantRecord). abort_call p.endpoint id) ps a)),
    λ b x. tt,
  )

  pub commits-Guards :
      (id : String) (eps : List String)
      → All (Passes check) eps
      → Guards (λ s. (ok tt, commit_calls id eps s)) Any
  commits-Guards id eps a s w = (
    rw (commit_calls_lem id eps s)
        (calls-IsGuarded (commits id eps) s w (All-map _ (λ ep. commit_call ep id) eps a)),
    λ b x. tt,
  )

  pub votes-Passes :
      (net : Network) (id : String) (ps : List ParticipantRecord) (s : TxnManager L)
      → AllPass check ps
      → All (λ v. Passes check v.0) (prepare_calls net id ps s).0
  unfolding prepare_calls
  votes-Passes net id [] s a = tt
  votes-Passes net id (p ∷ ps) s a = (a.0, votes-Passes net id ps _ a.1)
