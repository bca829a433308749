-- ===== src/Event/Streams.antt =====
-- What the streams of `receive` deliver (djinn/crates/coordin8-event/src/service.rs).
use coordin.Common.{
  ℕ, String, true, List, [], ◌∷◌, ◌++◌, map, filter, ok, err, Bool-cases, inl, inr, ◌≡◌, refl, In,
  All, Option, none, some, ◌⊎◌,
}
use coordin.Common.Dict
use coordin.Common.Dict.{Dict}
use coordin.Error.{Error}
use coordin.Event.{EventRecord}
use coordin.Event.Store
use coordin.Event.Store.{Entries, Mailbox}
use coordin.Event.Manager
use coordin.Event.Manager.{EventManager}
use coordin.Event.Service.{
  Event, event_record_to_proto, Next, received, lagged, forwards, lag_status, best_effort_loop,
  Action, sent, Stream, ended, waiting,
}

-- The events, all taken by the client, and then what follows.
abbrev pub taken_then : List EventRecord → List Next → List Next
taken_then es rest = map (λ e. received e true) es ++ rest

-- To a client that takes what it is sent, a best-effort stream sends exactly the events of its source
-- that its template accepts, in their order; when it misses some it says so and ends, and nothing that
-- came later is sent.
best_effort_exact :
    (source : String) (template : Dict String) (handback : List ℕ) (es : List EventRecord)
    (rest : List Next)
    → best_effort_loop source template handback (taken_then es (lagged ∷ rest))
      ≡ map (λ e. ok (event_record_to_proto e handback)) (filter (forwards source template) es)
        ++ err lag_status ∷ []
unfolding best_effort_loop filter
best_effort_exact source template handback [] rest = refl
best_effort_exact source template handback (e ∷ es) rest =
    elim (Bool-cases (forwards source template e)) [
      | inl x ↦ rw (x, best_effort_exact source template handback es rest) refl
      | inr x ↦ rw (x, best_effort_exact source template handback es rest) refl
    ]

abbrev pub trace_of : {L : Type 0} → Stream L → List Action
trace_of (ended trace s) = trace
trace_of (waiting ds cursor trace s) = trace

abbrev pub state_of : {L : Type 0} → Stream L → EventManager L
state_of (ended trace s) = s
state_of (waiting ds cursor trace s) = s

abbrev pub entries_in : Option Mailbox → Entries
entries_in none = []
entries_in (some m) = m.entries

-- What the mailbox of a subscription holds: events, each with its number.
abbrev pub entries_of : {L : Type 0} → String → EventManager L → Entries
entries_of id s = entries_in (Dict.get id s.store.mailboxes)

-- An event of the number was sent.
abbrev pub WasSent : ℕ → List Action → Type 0
WasSent n trace = (e : Event) × (In (sent e) trace × (e.seq_num ≡ n))

-- The mailbox has an entry of the number.
abbrev pub IsHeld : {L : Type 0} → String → ℕ → EventManager L → Type 0
IsHeld id n s = (e : EventRecord) × In (n, e) (entries_of id s)

-- What others do leaves each number in the mailbox there.
abbrev pub Spares : {L : Type 0} → String → (EventManager L → EventManager L) → Type 0
Spares id f = (s : EventManager _) (n : ℕ) → IsHeld id n s → IsHeld id n (f s)

module _ {L : Type 0} (registration_id : String) (handback : List ℕ) (n : ℕ) where
  -- The number is in the mailbox, or its event was sent.
  abbrev Safe : List Action → EventManager L → Type 0
  Safe trace s = IsHeld registration_id n s ⊎ WasSent n trace

  -- What others do during the deliveries to come leaves the mailbox's entries there.
  abbrev Calm : Stream L → Type 0
  Calm (ended trace s) = Unit
  Calm (waiting ds cursor trace s) = All (λ d. Spares registration_id d.meanwhile) ds

  abbrev SafeIn : Stream L → Type 0
  SafeIn stream = Safe (trace_of stream) (state_of stream) × Calm stream
