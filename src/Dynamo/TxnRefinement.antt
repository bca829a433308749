-- ===== src/Dynamo/TxnRefinement.antt =====
-- The transactions in DynamoDB (djinn/providers/dynamo/src/txn_store.rs) answer as those in memory do.
use coordin.Common.{
  ℕ, String, true, false, Option, none, some, List, [], ◌∷◌, ◌++◌, Result, ok, err, ◌≡◌, refl, ap,
  ◌∙◌, if◌then◌else◌, ◌==◌, Bool-cases, inl, inr, All,
}
use coordin.Common.Dict
use coordin.Error.{Error, transaction_not_found, transaction_terminal}
use coordin.Txn.{TransactionState, active, TransactionRecord, ParticipantRecord, same_state}
use coordin.Txn.Store
use coordin.Txn.Store.{InMemoryTxnStore}
use coordin.Dynamo.{str, list, Item, Client, Formats}
use coordin.Dynamo.Items.{to_values}
use coordin.Dynamo.Tables.{Table, Calm}
use coordin.Dynamo.Matching.{
  IsOk-eq, IsRefusal-eq, Matches-cases, Same-insert, Same-remove, Same-kept,
}
use coordin.Dynamo.RoundTrips.{Counted}
use coordin.Dynamo.TxnStore
use coordin.Dynamo.TxnStore.{
  DynamoTxnStore, state_to_str, state_from_str, participants_to_av, participant_to_av,
  record_from_item, read_found, item_of, conditional, or_absent,
}
use coordin.Dynamo.TxnCalls
use coordin.Dynamo.TxnCalls.{
  TxnExpressions, Holds, Same, Call, create, get, update_state, update_state_if, add_participant,
  remove, local, remote, answers, InRange, append_values,
}
use coordin.Dynamo.TxnMatching.{
  append_values-map, All-snoc, record_from_item-Holds, read_found-Matches, item_of-Holds, test-same,
  test-absent,
}

-- The same answer, and the same transactions after it.
abbrev Agrees :
    {W A : Type 0}
    → Formats
    → (W → String → Option Item)
    → Result Error A × W
    → Result Error A × InMemoryTxnStore
    → Type 0
Agrees formats rows a b = (a.0 ≡ b.0) × Same formats rows a.1 b.1

abbrev state_name : Dict.Dict String
state_name = ("#s", "state") ∷ []

module _ {W : Type 0} (client : Client W) (formats : Formats) (store : DynamoTxnStore)
    (t : Table client store.table_name "txn_id") (x : TxnExpressions t)
    (reads : (n : ℕ) → formats.parse_date (formats.to_rfc3339 n) ≡ ok n) (w : W) (calm : t.quiet w)
    (m : InMemoryTxnStore) (h : Same formats t.rows w m) where
  create-Agrees :
      (r : TransactionRecord)
      → All Counted r.participants
      → Agrees formats t.rows (TxnStore.create client formats store r w) (Store.create r m)
  unfolding TxnStore.create Store.create
  create-Agrees r fits =
      let row = item_of-Holds formats reads r fits in
      let (accepted, changed) = t.put r.txn_id (item_of formats r) w calm row.txn_id in
      let (u, e) = IsOk-eq _ accepted in
      rw e (refl, Same-insert (Holds formats) t.rows r.txn_id _ r w _ m changed row h)

  get-Agrees :
      (id : String)
      → Agrees formats t.rows (TxnStore.get client formats store id w) (Store.get id m)
  unfolding TxnStore.get Store.get
  get-Agrees id = rw (t.get id w calm, read_found-Matches formats reads id _ _ (h id)) (refl, h)

  remove-Agrees :
      (id : String)
      → Agrees formats t.rows (TxnStore.remove client formats store id w) (Store.remove id m)
  unfolding TxnStore.remove Store.remove
  remove-Agrees id =
      let (accepted, changed) = t.delete id w calm in
      let (u, e) = IsOk-eq _ accepted in
      rw e (refl, Same-remove (Holds formats) t.rows id w _ m changed h)

  -- The row with another state holds the transaction with that state.
  set-Holds :
      (id update name : String) (values : Item) (r : TransactionRecord) (state : TransactionState)
      (item : Item)
      → ((k : String)
          → Dict.get k (t.updated update state_name values item)
            ≡ (if "state" == k then Dict.get name values else Dict.get k item))
      → Dict.get name values ≡ some (str (state_to_str state))
      → Holds formats id r item
      → Holds formats id (record r { state = state }) (t.updated update state_name values item)
  set-Holds id update name values r state item set e held = record {
    named = held.named;
    txn_id = set "txn_id" ∙ held.txn_id;
    lease_id = set "lease_id" ∙ held.lease_id;
    state = set "state" ∙ e;
    begun_at = set "begun_at" ∙ held.begun_at;
    participants = set "participants" ∙ held.participants;
    counted = held.counted;
  }

  update_state-Agrees :
      (id : String) (state : TransactionState)
      → Agrees formats t.rows
          (TxnStore.update_state client formats store id state w)
          (Store.update_state id state m)
  unfolding TxnStore.update_state Store.update_state Dict.get
  update_state-Agrees id state =
      let values : Item = (":s", str (state_to_str state)) ∷ [] in
      let update =
        t.update_if id "SET #s = :s" "attribute_exists(txn_id)" state_name values w calm in
      elim (Matches-cases (Holds formats) id _ _ (h id)) [
        | inl (e, f) ↦
            let (refusal, (kept, still)) = rw (e, x.exists) at update in
            let (z, (q, c)) = IsRefusal-eq _ refusal in
            rw (q, c, Store.update_state, f) (refl, Same-kept (Holds formats) t.rows w _ m kept h)
        | inr (item, (r, (e, (f, held)))) ↦
            let (accepted, changed) = rw (e, x.exists, held.txn_id) at update in
            let (u, q) = IsOk-eq _ accepted in
            rw (q, Store.update_state, f)
              (
                refl,
                Same-insert (Holds formats) t.rows id _ _ w _ m changed
                    (set-Holds id "SET #s = :s" ":s" values r state item (x.set values item) refl
                      held)
                    h,
              )
      ]

  -- A conditional update, where the condition holds, fails on a row, and fails for want of a row.
  module _ {A : Type 0} (id update condition : String) (values : Item)
      (accepted refused : Result Error A) where
    abbrev attempt : Result Error A × W
    attempt = conditional client formats store id accepted refused (
        client.update_item
          (record {
            return_new = false;
            table_name = store.table_name;
            key = ("txn_id", str id) ∷ [];
            update = update;
            attribute_names = state_name;
            attribute_values = values;
            condition = some condition;
          })
          w)

    attempt_made :
        (item : Item) (r : TransactionRecord)
        → t.rows w id ≡ some item
        → t.holds condition state_name values item ≡ true
        → Holds formats id r (t.updated update state_name values item)
        → Agrees formats t.rows attempt (accepted, Dict.insert id r m)
    attempt_made item r e passes held =
        let (taken, changed) =
          rw (e, passes) at (t.update_if id update condition state_name values w calm) in
        let (u, q) = IsOk-eq _ taken in
        rw q (refl, Same-insert (Holds formats) t.rows id _ r w _ m changed held h)

    attempt_fails :
        (item : Item) (r : TransactionRecord)
        → t.rows w id ≡ some item
        → Holds formats id r item
        → t.holds condition state_name values item ≡ false
        → Agrees formats t.rows attempt (refused, m)
    unfolding TxnStore.get
    attempt_fails item r e held fails =
        let (refusal, (kept, still)) =
          rw (e, fails) at (t.update_if id update condition state_name values w calm) in
        let (z, (q, c)) = IsRefusal-eq _ refusal in
        rw (q, c, t.get id _ still, kept, e, record_from_item-Holds formats reads id r item held)
          (refl, Same-kept (Holds formats) t.rows w _ m kept h)

    attempt_absent :
        t.rows w id ≡ none
        → t.holds condition state_name values [] ≡ false
        → Agrees formats t.rows attempt (err (transaction_not_found id), m)
    unfolding TxnStore.get
    attempt_absent e fails =
        let (refusal, (kept, still)) =
          rw (e, fails) at (t.update_if id update condition state_name values w calm) in
        let (z, (q, c)) = IsRefusal-eq _ refusal in
        rw (q, c, t.get id _ still, kept, e) (refl, Same-kept (Holds formats) t.rows w _ m kept h)

  update_state_if-Agrees :
      (id : String) (expected new : TransactionState)
      → Agrees formats t.rows
          (TxnStore.update_state_if client formats store id expected new w)
          (Store.update_state_if id expected new m)
  unfolding TxnStore.update_state_if Store.update_state_if state_to_str Dict.get
  update_state_if-Agrees id expected new =
      let values : Item =
        (":new", str (state_to_str new)) ∷ (":exp", str (state_to_str expected)) ∷ [] in
      let law = λ (row : Item). x.expected (state_to_str expected) values row refl in
      elim (Matches-cases (Holds formats) id _ _ (h id)) [
        | inl (e, f) ↦
            rw (Store.update_state_if, f)
              (attempt_absent id "SET #s = :new" "#s = :exp" values (ok true) (ok false) e
                (test-absent _ (state_to_str expected) (law [])))
        | inr (item, (r, (e, (f, held)))) ↦
            let test = test-same formats _ id r item expected (law item) held in
            elim (Bool-cases (same_state r.state expected)) [
              | inl same ↦
                  rw (Store.update_state_if, f, same)
                    (attempt_made id "SET #s = :new" "#s = :exp" values (ok true) (ok false) item _
                      e (test ∙ same)
                      (set-Holds id "SET #s = :new" ":new" values r new item (x.set_new values item)
                        refl held))
              | inr other ↦
                  rw (Store.update_state_if, f, other)
                    (attempt_fails id "SET #s = :new" "#s = :exp" values (ok true) (ok false) item r
                      e held (test ∙ other))
            ]
      ]

  -- The row with another participant holds the transaction with that participant.
  append-Holds :
      (id : String) (values : Item) (r : TransactionRecord) (p : ParticipantRecord) (item : Item)
      → Dict.get ":p" values ≡ some (list (to_values (participant_to_av p ∷ [])))
      → Counted p
      → Holds formats id r item
      → Holds formats id
          (record r { participants = r.participants ++ p ∷ [] })
          (t.updated "SET participants = list_append(participants, :p)" state_name values item)
  unfolding participants_to_av
  append-Holds id values r p item e counted held =
      let set = λ (k : String). x.append values item _ _ k held.participants e in
      record {
        named = held.named;
        txn_id = set "txn_id" ∙ held.txn_id;
        lease_id = set "lease_id" ∙ held.lease_id;
        state = set "state" ∙ held.state;
        begun_at = set "begun_at" ∙ held.begun_at;
        participants =
            set "participants" ∙ ap (λ vs. some (list vs)) (append_values-map r.participants p);
        counted = All-snoc r.participants p held.counted counted;
      }

  add_participant-Agrees :
      (id : String) (p : ParticipantRecord)
      → Counted p
      → Agrees formats t.rows
          (TxnStore.add_participant client formats store id p w)
          (Store.add_participant id p m)
  unfolding TxnStore.add_participant Store.add_participant state_to_str Dict.get
  add_participant-Agrees id p counted =
      let values : Item =
        (":p", list (to_values (participant_to_av p ∷ [])))
        ∷ (":active", str (state_to_str active))
        ∷ [] in
      let update : String = "SET participants = list_append(participants, :p)" in
      let law = λ (row : Item). x.is_active (state_to_str active) values row refl in
      elim (Matches-cases (Holds formats) id _ _ (h id)) [
        | inl (e, f) ↦
            rw (Store.add_participant, f)
              (attempt_absent id update "#s = :active" values (ok tt)
                (err (transaction_terminal id)) e (test-absent _ (state_to_str active) (law [])))
        | inr (item, (r, (e, (f, held)))) ↦
            let test = test-same formats _ id r item active (law item) held in
            elim (Bool-cases (same_state r.state active)) [
              | inl same ↦
                  rw (Store.add_participant, f, same)
                    (attempt_made id update "#s = :active" values (ok tt)
                      (err (transaction_terminal id)) item _ e (test ∙ same)
                      (append-Holds id values r p item refl counted held))
              | inr other ↦
                  rw (Store.add_participant, f, other)
                    (attempt_fails id update "#s = :active" values (ok tt)
                      (err (transaction_terminal id)) item r e held (test ∙ other))
            ]
      ]

  -- Each call.
  step-Agrees :
      (c : Call)
      → InRange c
      → ((remote client formats store c w).0 ≡ (local c m).0)
        × Same formats t.rows (remote client formats store c w).1 (local c m).1
  step-Agrees (create r) fits = let (a, b) = create-Agrees r fits in (ap TxnCalls.done a, b)
  step-Agrees (get id) fits = let (a, b) = get-Agrees id in (ap TxnCalls.found a, b)
  step-Agrees (update_state id state) fits =
      let (a, b) = update_state-Agrees id state in (ap TxnCalls.done a, b)
  step-Agrees (update_state_if id expected new) fits =
      let (a, b) = update_state_if-Agrees id expected new in (ap TxnCalls.updated a, b)
  step-Agrees (add_participant id p) fits =
      let (a, b) = add_participant-Agrees id p fits in (ap TxnCalls.done a, b)
  step-Agrees (remove id) fits = let (a, b) = remove-Agrees id in (ap TxnCalls.done a, b)

module _ {W : Type 0} (client : Client W) (formats : Formats) (store : DynamoTxnStore)
    (t : Table client store.table_name "txn_id") (x : TxnExpressions t)
    (reads : (n : ℕ) → formats.parse_date (formats.to_rfc3339 n) ≡ ok n) where
  -- Whatever calls are made on transactions, one after the other, the table answers them as the store
  -- in memory does, refusals of a state or of a participant included, and holds the same transactions
  -- at the end, if it did at the start: where the service takes the calls as documented, each call
  -- finds that the earlier writes have reached every replica and that nobody else changes the table,
  -- dates are read back from their texts, and the counters of participants are a `u64`.
  pub answers_agree :
      (calls : List Call) (w : W) (m : InMemoryTxnStore)
      → All InRange calls
      → Calm t.quiet (remote client formats store) calls w
      → Same formats t.rows w m
      → ((answers (remote client formats store) calls w).0 ≡ (answers local calls m).0)
        × Same formats t.rows
            (answers (remote client formats store) calls w).1
            (answers local calls m).1
  answers_agree [] w m fits calm h = (refl, h)
  answers_agree (c ∷ calls) w m fits calm h =
      let (a, b) = step-Agrees client formats store t x reads w calm.0 m h c fits.0 in
      let (rest, same) = answers_agree calls _ _ fits.1 calm.1 b in (cc, same)
