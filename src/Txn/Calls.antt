-- ===== src/Txn/Calls.antt =====
-- What each phase dials, and how the votes are read (djinn/crates/coordin8-txn/src/manager.rs).
use coordin.Common.{
  String, Bool, true, false, List, [], ◌∷◌, ◌++◌, map, filter, all, Result, ok, err, ◌≡◌, refl,
  append_assoc, append-nil,
}
use coordin.Error.{Error}
use coordin.Txn.{PrepareVote, ParticipantRecord}
use coordin.Txn.Participants.{Call, prepare, commit, abort, Network}
use coordin.Txn.Manager.{
  TxnManager, Votes, Tally, go_ahead, give_up, tally, commit_calls, do_abort_participants,
  prepare_calls,
}

abbrev pub prepares : String → List ParticipantRecord → List Call
prepares txn_id = map (λ p. prepare p.endpoint txn_id)

abbrev pub commits : String → List String → List Call
commits txn_id = map (λ ep. commit ep txn_id)

abbrev pub aborts : String → List ParticipantRecord → List Call
aborts txn_id = map (λ p. abort p.endpoint txn_id)

-- A vote that lets the transaction commit.
abbrev pub is_yes : String × Result Error PrepareVote → Bool
is_yes (ep, ok PrepareVote.prepared) = true
is_yes (ep, ok PrepareVote.not_changed) = true
is_yes (ep, ok PrepareVote.aborted) = false
is_yes (ep, err e) = false

-- A vote of a participant that has something to commit.
abbrev pub is_prepared : String × Result Error PrepareVote → Bool
is_prepared (ep, ok PrepareVote.prepared) = true
is_prepared (ep, ok PrepareVote.not_changed) = false
is_prepared (ep, ok PrepareVote.aborted) = false
is_prepared (ep, err e) = false

abbrev pub prepared_voters : Votes → List String
prepared_voters votes = map (λ v. v.0) (filter is_prepared votes)

abbrev is_give_up : Tally → Bool
is_give_up (go_ahead eps) = false
is_give_up (give_up reason) = true

-- The votes lead on exactly if all are a yes, and then to the participants that voted `Prepared`.
pub tally-yes :
    (eps : List String) (votes : Votes)
    → all is_yes votes ≡ true
    → tally eps votes ≡ go_ahead (eps ++ prepared_voters votes)
unfolding tally all filter
tally-yes eps [] h = rw append-nil
tally-yes eps ((ep, ok PrepareVote.prepared) ∷ votes) h =
    rw (tally-yes (eps ++ ep ∷ []) votes h) (rw append_assoc)
tally-yes eps ((ep, ok PrepareVote.not_changed) ∷ votes) h = tally-yes eps votes h
tally-yes eps ((ep, ok PrepareVote.aborted) ∷ votes) h = cc
tally-yes eps ((ep, err e) ∷ votes) h = cc

pub tally-no :
    (eps : List String) (votes : Votes)
    → all is_yes votes ≡ false
    → (reason : String) × (tally eps votes ≡ give_up reason)
unfolding tally all
tally-no eps [] h = cc
tally-no eps ((ep, ok PrepareVote.prepared) ∷ votes) h = tally-no (eps ++ ep ∷ []) votes h
tally-no eps ((ep, ok PrepareVote.not_changed) ∷ votes) h = tally-no eps votes h
tally-no eps ((ep, ok PrepareVote.aborted) ∷ votes) h = (_, refl)
tally-no eps ((ep, err e) ∷ votes) h = (_, refl)

module _ {L : Type 0} where
  pub commit_calls_lem :
      (txn_id : String) (eps : List String) (s : TxnManager L)
      → commit_calls txn_id eps s ≡ record s { calls = s.calls ++ commits txn_id eps }
  unfolding commit_calls
  commit_calls_lem txn_id [] s = rw append-nil
  commit_calls_lem txn_id (ep ∷ eps) s =
      rw (commit_calls_lem txn_id eps (record s { calls = s.calls ++ commit ep txn_id ∷ [] }))
        (rw append_assoc)

  pub do_abort_participants_lem :
      (txn_id : String) (ps : List ParticipantRecord) (s : TxnManager L)
      → do_abort_participants txn_id ps s ≡ record s { calls = s.calls ++ aborts txn_id ps }
  unfolding do_abort_participants
  do_abort_participants_lem txn_id [] s = rw append-nil
  do_abort_participants_lem txn_id (p ∷ ps) s =
      rw
        (do_abort_participants_lem txn_id ps
          (record s { calls = s.calls ++ abort p.endpoint txn_id ∷ [] }))
        (rw append_assoc)

  pub prepare_calls_state :
      (net : Network) (txn_id : String) (ps : List ParticipantRecord) (s : TxnManager L)
      → (prepare_calls net txn_id ps s).1 ≡ record s { calls = s.calls ++ prepares txn_id ps }
  unfolding prepare_calls
  prepare_calls_state net txn_id [] s = rw append-nil
  prepare_calls_state net txn_id (p ∷ ps) s =
      rw
        (prepare_calls_state net txn_id ps
          (record s { calls = s.calls ++ prepare p.endpoint txn_id ∷ [] }))
        (rw append_assoc)
