-- ===== src/Dynamo/TxnMatching.antt =====
-- Rows of the transaction table beside entries in memory, and conditions on the state of one
-- (djinn/providers/dynamo/src/txn_store.rs).
use coordin.Common.{
  ℕ, String, Bool, true, false, Option, none, some, List, [], ◌∷◌, ◌++◌, Result, ok, ◌≡◌, refl, sym,
  ap, ◌∙◌, ◌↔◌, Bool-cases, inl, inr, All, map,
}
use coordin.Common.Dict
use coordin.Error.{Error}
use coordin.Txn.{
  TransactionState, active, voting, prepared, committed, aborted, TransactionRecord,
  ParticipantRecord, same_state,
}
use coordin.Dynamo.{AttributeValue, str, cons, Item, Formats}
use coordin.Dynamo.Items.{to_values}
use coordin.Dynamo.Matching.{Matches}
use coordin.Dynamo.RoundTrips.{Counted, state_from_str-state_to_str, participants_read}
use coordin.Dynamo.TxnStore.{
  state_to_str, state_from_str, participants_to_av, participant_to_av, record_from_item, read_found,
  item_of,
}
use coordin.Dynamo.TxnCalls.{Holds, append_values}

-- Two states are the same exactly when their texts are.
pub same_state_refl : (a : TransactionState) → same_state a a ≡ true
same_state_refl active = refl
same_state_refl voting = refl
same_state_refl prepared = refl
same_state_refl committed = refl
same_state_refl aborted = refl

pub same_state-eq : (a b : TransactionState) → same_state a b ≡ true → a ≡ b
same_state-eq active active h = refl
same_state-eq voting voting h = refl
same_state-eq prepared prepared h = refl
same_state-eq committed committed h = refl
same_state-eq aborted aborted h = refl
same_state-eq _ _ h = cc

pub state_to_str-same :
    (a b : TransactionState) → state_to_str a ≡ state_to_str b → same_state a b ≡ true
state_to_str-same a b h =
    let same : ◌≡◌ {A = Result Error TransactionState} (ok a) (ok b) =
      sym (state_from_str-state_to_str a) ∙ ap state_from_str h ∙ state_from_str-state_to_str b in
    let e : a ≡ b = cc in rw e (same_state_refl b)

pub append_values-map :
    (ps : List ParticipantRecord) (p : ParticipantRecord)
    → append_values (to_values (map participant_to_av ps)) (to_values (participant_to_av p ∷ []))
      ≡ to_values (map participant_to_av (ps ++ p ∷ []))
append_values-map [] p = refl
append_values-map (q ∷ ps) p = ap (λ vs. cons (participant_to_av q) vs) (append_values-map ps p)

pub All-snoc :
    (ps : List ParticipantRecord) (p : ParticipantRecord)
    → All Counted ps
    → Counted p
    → All Counted (ps ++ p ∷ [])
All-snoc [] p h c = (c, tt)
All-snoc (q ∷ ps) p h c = (h.0, All-snoc ps p h.1 c)

module _ (formats : Formats)
    (reads : (n : ℕ) → formats.parse_date (formats.to_rfc3339 n) ≡ ok n) where
  pub record_from_item-Holds :
      (k : String) (r : TransactionRecord) (item : Item)
      → Holds formats k r item
      → record_from_item formats item ≡ ok r
  unfolding record_from_item participants_to_av
  record_from_item-Holds k r item h =
      rw
        (
          h.txn_id,
          h.lease_id,
          h.state,
          state_from_str-state_to_str,
          h.begun_at,
          reads,
          h.participants,
          participants_read r.participants h.counted,
        )
        refl

  pub read_found-Matches :
      (k : String) (row : Option Item) (entry : Option TransactionRecord)
      → Matches (Holds formats) k row entry
      → read_found formats row ≡ ok entry
  read_found-Matches k none none h = refl
  read_found-Matches k none (some r) h = elim h [ ]
  read_found-Matches k (some item) none h = elim h [ ]
  read_found-Matches k (some item) (some r) h = rw (record_from_item-Holds k r item h) refl

  pub item_of-Holds :
      (r : TransactionRecord)
      → All Counted r.participants
      → Holds formats r.txn_id r (item_of formats r)
  unfolding item_of Dict.get
  item_of-Holds r h = record {
    named = refl;
    txn_id = refl;
    lease_id = refl;
    state = refl;
    begun_at = refl;
    participants = refl;
    counted = h;
  }

-- A condition on the state is the comparison in memory, and fails where there is no row.
pub test-same :
    (formats : Formats) (b : Bool) (k : String) (r : TransactionRecord) (item : Item)
    (state : TransactionState)
    → (b ≡ true) ↔ (Dict.get "state" item ≡ some (str (state_to_str state)))
    → Holds formats k r item
    → b ≡ same_state r.state state
test-same formats b k r item state law held = elim (Bool-cases (same_state r.state state)) [
  | inl same ↦ rw same (
      law.1 (held.state ∙ ap (λ a. some (str (state_to_str a))) (same_state-eq r.state state same)))
  | inr other ↦ elim (Bool-cases b) [
    | inr e ↦ rw (e, other) refl
    | inl e ↦
        let both : some (str (state_to_str r.state)) ≡ some (str (state_to_str state)) =
          sym held.state ∙ law.0 e in
        let text : state_to_str r.state ≡ state_to_str state = cc in
        let same = state_to_str-same r.state state text in cc
  ]
]

pub test-absent :
    (b : Bool) (text : String)
    → (b ≡ true) ↔ (◌≡◌ {A = Option AttributeValue} none (some (str text)))
    → b ≡ false
test-absent b text law = elim (Bool-cases b) [ inr e ↦ e | inl e ↦ let e' = law.0 e in cc ]
