-- ===== src/Txn/Participants.antt =====
-- The calls that the coordinator makes to its participants
-- (djinn/crates/coordin8-txn/src/manager.rs). What a participant answers is the environment's: a
-- function of the calls made so far and of the call. An `i32` is its 32-bit pattern.
use Prim.Native.String.{◌++◌}
use coordin.Common.{ℕ, String, Result, ok, err, List, if◌then◌else◌, eqb}
use coordin.Error.{Error, internal}
use coordin.Txn.{PrepareVote}

pub data Call : Type 0 where
  prepare commit abort prepare_and_commit : String → String → Call

-- Why a call got no answer: the endpoint is no URI, the connection failed, or the call did.
pub data Failure : Type 0 where
  invalid_endpoint connect_failed rpc_failed : String → Failure

-- The answers: a number, read as a vote where the call asks for one.
pub record Network : Type 0 where
  pub answer : List Call → Call → Result Failure ℕ

-- Only the two committable votes are recognised.
unfoldable pub vote_from_i32 : ℕ → PrepareVote
vote_from_i32 v =
    if eqb v 0
    then PrepareVote.prepared
    else if eqb v 1
    then PrepareVote.not_changed
    else PrepareVote.aborted

unfoldable pub call_error : String → String → Failure → Error
call_error rpc endpoint (invalid_endpoint e) =
    internal ("invalid endpoint '" ++ endpoint ++ "': " ++ e)
call_error rpc endpoint (connect_failed e) =
    internal ("connect to " ++ endpoint ++ " failed: " ++ e)
call_error rpc endpoint (rpc_failed e) =
    internal (rpc ++ " rpc to " ++ endpoint ++ " failed: " ++ e)

abbrev to_vote : String → String → Result Failure ℕ → Result Error PrepareVote
to_vote rpc endpoint (ok v) = ok (vote_from_i32 v)
to_vote rpc endpoint (err f) = err (call_error rpc endpoint f)

abbrev to_unit : String → String → Result Failure ℕ → Result Error Unit
to_unit rpc endpoint (ok v) = ok tt
to_unit rpc endpoint (err f) = err (call_error rpc endpoint f)

module _ (net : Network) where
  unfoldable pub call_prepare : String → String → List Call → Result Error PrepareVote
  call_prepare endpoint txn_id calls =
      to_vote "prepare" endpoint (net.answer calls (prepare endpoint txn_id))

  unfoldable pub call_commit : String → String → List Call → Result Error Unit
  call_commit endpoint txn_id calls =
      to_unit "commit" endpoint (net.answer calls (commit endpoint txn_id))

  unfoldable pub call_abort : String → String → List Call → Result Error Unit
  call_abort endpoint txn_id calls =
      to_unit "abort" endpoint (net.answer calls (abort endpoint txn_id))

  unfoldable pub call_prepare_and_commit : String → String → List Call → Result Error PrepareVote
  call_prepare_and_commit endpoint txn_id calls =
      to_vote "prepare_and_commit" endpoint (net.answer calls (prepare_and_commit endpoint txn_id))
