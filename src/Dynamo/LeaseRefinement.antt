-- ===== src/Dynamo/LeaseRefinement.antt =====
-- The leases in DynamoDB (djinn/providers/dynamo/src/lease_store.rs) answer as those in memory do.
use coordin.Common.{
  ℕ, ◌≤◌, String, true, false, Option, none, some, List, [], ◌∷◌, ◌++◌, Result, ok, ◌≡◌, refl, sym,
  ap, ◌∙◌, arith, eqb, Bool-cases, Result-cases, inl, inr, All,
}
use coordin.Common.Dict
use coordin.Common.Dict.{Dict, get-insert, get-remove}
use coordin.Common.Text.{show_u64}
use coordin.Error.{Error}
use coordin.Lease.{Chrono, LeaseRecord, lease_forever}
use coordin.Lease.Store
use coordin.Lease.Store.{InMemoryLeaseStore}
use coordin.Dynamo.{AttributeValue, str, num, Item, Client, Formats}
use coordin.Dynamo.Items.{u64_max}
use coordin.Dynamo.Tables.{Table, attributes, Calm}
use coordin.Dynamo.LeaseStore
use coordin.Dynamo.LeaseStore.{
  DynamoLeaseStore, update_expression, read_found, ttl_values, ttl_epoch, expires_epoch, item_of,
}
use coordin.Dynamo.LeaseRows.{IsRow, record_from_item-IsRow, item_of-IsRow}
use coordin.Dynamo.LeaseCalls
use coordin.Dynamo.LeaseCalls.{
  LeaseExpressions, Holds, Same, Call, create, get, renew, cancel, remove_if_unchanged, local,
  remote, answers, InRange,
}
use coordin.Dynamo.Matching.{
  IsOk-eq, IsRefusal-eq, Matches-cases, Same-insert, Same-remove, Same-kept,
}
use coordin.Dynamo.LeaseMatching.{expiry_for-eq, read_found-Matches}

-- The same answer, and the same leases after it.
abbrev Agrees :
    {W A : Type 0}
    → Formats
    → (W → String → Option Item)
    → Result Error A × W
    → Result Error A × InMemoryLeaseStore
    → Type 0
Agrees formats rows a b = (a.0 ≡ b.0) × Same formats rows a.1 b.1

module _ {W : Type 0} (client : Client W) (chrono : Chrono) (formats : Formats)
    (store : DynamoLeaseStore) (t : Table client store.table_name "lease_id")
    (x : LeaseExpressions t) (reads : (n : ℕ) → formats.parse_date (formats.to_rfc3339 n) ≡ ok n)
    (w : W) (calm : t.quiet w) (s : InMemoryLeaseStore) (h : Same formats t.rows w s) where
  create-Agrees :
      (now : ℕ) (uuid resource : String) (ttl : ℕ)
      → ttl ≤ u64_max
      → Agrees formats t.rows
          (LeaseStore.create client chrono formats store now uuid resource ttl w)
          (Store.create chrono now uuid resource ttl s)
  unfolding LeaseStore.create Store.create
  create-Agrees now uuid resource ttl fits =
      rw expiry_for-eq (elim (Result-cases (Store.expiry_for chrono now ttl)) [
        | inr (e, q) ↦ rw (q, Store.create) (refl, h)
        | inl (at, q) ↦
            let r : LeaseRecord = record {
              lease_id = uuid;
              resource_id = resource;
              granted_at = now;
              expires_at = at;
              ttl_seconds = ttl;
            } in
            let row = item_of-IsRow formats r fits in
            let (accepted, changed) = t.put uuid (item_of formats r) w calm row.lease_id in
            let (u, e) = IsOk-eq _ accepted in
            rw (q, e, Store.create)
              (refl, Same-insert (Holds formats) t.rows uuid _ r w _ s changed (refl, row) h)
      ])

  get-Agrees :
      (id : String)
      → Agrees formats t.rows (LeaseStore.get client chrono formats store id w) (Store.get id s)
  unfolding LeaseStore.get Store.get
  get-Agrees id = rw (t.get id w calm, read_found-Matches formats reads id _ _ (h id)) (refl, h)

  cancel-Agrees :
      (id : String)
      → Agrees formats t.rows
          (LeaseStore.cancel client chrono formats store id w)
          (Store.cancel id s)
  unfolding LeaseStore.cancel Store.cancel
  cancel-Agrees id =
      let (accepted, changed) = t.delete id w calm in
      let (u, e) = IsOk-eq _ accepted in
      rw e (refl, Same-remove (Holds formats) t.rows id w _ s changed h)

  -- The row that a renewal leaves holds the renewed lease.
  renewed-IsRow :
      (r : LeaseRecord) (item : Item) (at ttl : ℕ)
      → ttl ≤ u64_max
      → IsRow formats r item
      → IsRow formats
          (record r { expires_at = at; ttl_seconds = ttl })
          (t.updated
            (update_expression formats (ttl_epoch formats at ttl))
            (("#ttl_field", "ttl") ∷ [])
            ((":ea", str (formats.to_rfc3339 at)) ∷ (":ts", num (show_u64 ttl)) ∷ []
              ++ ttl_values formats at (ttl_epoch formats at ttl))
            item)
  unfolding ttl_epoch expires_epoch Dict.get
  renewed-IsRow r item at ttl fits row = elim (Bool-cases (eqb ttl lease_forever)) [
    | inl e ↦ rw e (record {
      lease_id = x.set_and_remove _ item "lease_id" ∙ row.lease_id;
      resource_id = x.set_and_remove _ item "resource_id" ∙ row.resource_id;
      granted_at = x.set_and_remove _ item "granted_at" ∙ row.granted_at;
      expires_at = x.set_and_remove _ item "expires_at";
      ttl_seconds = x.set_and_remove _ item "ttl_seconds";
      epoch = x.set_and_remove _ item "expires_epoch" ∙ rw (e, expires_epoch) refl;
      in_range = fits;
    })
    | inr e ↦ rw e (record {
      lease_id = x.set _ item "lease_id" ∙ row.lease_id;
      resource_id = x.set _ item "resource_id" ∙ row.resource_id;
      granted_at = x.set _ item "granted_at" ∙ row.granted_at;
      expires_at = x.set _ item "expires_at";
      ttl_seconds = x.set _ item "ttl_seconds";
      epoch = x.set _ item "expires_epoch" ∙ rw (e, expires_epoch) refl;
      in_range = fits;
    })
  ]

  renew-Agrees :
      (now : ℕ) (id : String) (ttl at : ℕ)
      → ttl ≤ u64_max
      → Store.expiry_for chrono now ttl ≡ ok at
      → Agrees formats t.rows
          (LeaseStore.renew client chrono formats store now id ttl w)
          (Store.renew chrono now id ttl s)
  unfolding LeaseStore.renew LeaseStore.get Store.renew
  renew-Agrees now id ttl at fits q = elim (Matches-cases (Holds formats) id _ _ (h id)) [
    | inl (e, f) ↦ rw (t.get id w calm, e, q, Store.renew, f) (refl, h)
    | inr (item, (r, (e, (f, (named, row))))) ↦
        let values =
          (":ea", str (formats.to_rfc3339 at)) ∷ (":ts", num (show_u64 ttl)) ∷ []
          ++ ttl_values formats at (ttl_epoch formats at ttl) in
        let there : t.holds "attribute_exists(lease_id)" (("#ttl_field", "ttl") ∷ []) values item
            ≡ true =
          rw (x.exists, row.lease_id) refl in
        let (accepted, changed) =
          rw (e, there) at
            (t.update_if id (update_expression formats (ttl_epoch formats at ttl))
              "attribute_exists(lease_id)" (("#ttl_field", "ttl") ∷ []) values w calm) in
        let (u, g) = IsOk-eq _ accepted in
        rw
          (
            t.get id w calm,
            e,
            record_from_item-IsRow formats reads r item row,
            expiry_for-eq,
            q,
            g,
            Store.renew,
            f,
          )
          (
            refl,
            Same-insert (Holds formats) t.rows id _ _ w _ s changed
                (named, renewed-IsRow r item at ttl fits row) h,
          )
  ]

  -- The condition of a removal fails, or holds, as the comparison of the expiries in memory does.
  removal_refused :
      (old : LeaseRecord)
      → t.holds "expires_at = :listed" []
          ((":listed", str (formats.to_rfc3339 old.expires_at)) ∷ [])
          (attributes (t.rows w old.lease_id))
        ≡ false
      → Agrees formats t.rows
          (LeaseStore.remove_if_unchanged client chrono formats store old w)
          (ok false, s)
  unfolding LeaseStore.remove_if_unchanged
  removal_refused old fails =
      let (refusal, (kept, still)) = rw fails at (
        t.delete_if old.lease_id "expires_at = :listed"
          ((":listed", str (formats.to_rfc3339 old.expires_at)) ∷ []) w calm) in
      let (e, (q, c)) = IsRefusal-eq _ refusal in
      rw (q, c) (refl, Same-kept (Holds formats) t.rows w _ s kept h)

  removal_made :
      (old : LeaseRecord)
      → t.holds "expires_at = :listed" []
          ((":listed", str (formats.to_rfc3339 old.expires_at)) ∷ [])
          (attributes (t.rows w old.lease_id))
        ≡ true
      → Agrees formats t.rows
          (LeaseStore.remove_if_unchanged client chrono formats store old w)
          (ok true, Dict.remove old.lease_id s)
  unfolding LeaseStore.remove_if_unchanged
  removal_made old passes =
      let (accepted, changed) = rw passes at (
        t.delete_if old.lease_id "expires_at = :listed"
          ((":listed", str (formats.to_rfc3339 old.expires_at)) ∷ []) w calm) in
      let (u, q) = IsOk-eq _ accepted in
      rw q (refl, Same-remove (Holds formats) t.rows old.lease_id w _ s changed h)

  remove_if_unchanged-Agrees :
      (old : LeaseRecord)
      → Agrees formats t.rows
          (LeaseStore.remove_if_unchanged client chrono formats store old w)
          (Store.remove_if_unchanged old s)
  unfolding Store.remove_if_unchanged Dict.get
  remove_if_unchanged-Agrees old =
      let text = formats.to_rfc3339 old.expires_at in
      let values : Item = (":listed", str text) ∷ [] in
      elim (Matches-cases (Holds formats) old.lease_id _ _ (h old.lease_id)) [
        | inl (e, f) ↦ elim (Bool-cases (t.holds "expires_at = :listed" [] values [])) [
          | inl yes_holds ↦
              let none_there : ◌≡◌ {A = Option AttributeValue} none (some (str text)) =
                (x.equals text values [] refl).0 yes_holds in
              cc
          | inr no_holds ↦ rw f (removal_refused old (rw e no_holds))
        ]
        | inr (item, (r, (e, (f, (named, row))))) ↦
            elim (Bool-cases (eqb r.expires_at old.expires_at)) [
              | inl same ↦
                  let at : r.expires_at ≡ old.expires_at = ground arith in
                  rw (f, same)
                    (removal_made old (
                      rw e (
                        (x.equals text values item refl).1
                          (row.expires_at ∙ ap (λ n. some (str (formats.to_rfc3339 n))) at))))
              | inr other ↦ elim (Bool-cases (t.holds "expires_at = :listed" [] values item)) [
                | inr no_holds ↦ rw (f, other) (removal_refused old (rw e no_holds))
                | inl yes_holds ↦
                    let there : Dict.get "expires_at" item ≡ some (str text) =
                      (x.equals text values item refl).0 yes_holds in
                    let one : some (str (formats.to_rfc3339 r.expires_at)) ≡ some (str text) =
                      sym row.expires_at ∙ there in
                    let same_text : formats.to_rfc3339 r.expires_at ≡ text = cc in
                    let same_date : ◌≡◌ {A = Result String ℕ} (ok r.expires_at)
                        (ok old.expires_at) =
                      sym (reads r.expires_at)
                      ∙ ap formats.parse_date same_text
                      ∙ reads old.expires_at in
                    absurd (ground arith)
              ]
            ]
      ]

  -- Each call.
  step-Agrees :
      (c : Call)
      → InRange chrono c
      → ((remote client chrono formats store c w).0 ≡ (local chrono c s).0)
        × Same formats t.rows (remote client chrono formats store c w).1 (local chrono c s).1
  step-Agrees (create now uuid resource ttl) fits =
      let (a, b) = create-Agrees now uuid resource ttl fits in (ap LeaseCalls.lease a, b)
  step-Agrees (get id) fits = let (a, b) = get-Agrees id in (ap LeaseCalls.found a, b)
  step-Agrees (renew now id ttl) (fits, (at, q)) =
      let (a, b) = renew-Agrees now id ttl at fits q in (ap LeaseCalls.lease a, b)
  step-Agrees (cancel id) fits = let (a, b) = cancel-Agrees id in (ap LeaseCalls.done a, b)
  step-Agrees (remove_if_unchanged old) fits =
      let (a, b) = remove_if_unchanged-Agrees old in (ap LeaseCalls.removed a, b)

module _ {W : Type 0} (client : Client W) (chrono : Chrono) (formats : Formats)
    (store : DynamoLeaseStore) (t : Table client store.table_name "lease_id")
    (x : LeaseExpressions t)
    (reads : (n : ℕ) → formats.parse_date (formats.to_rfc3339 n) ≡ ok n) where
  -- Whatever calls are made, one after the other, the leases in DynamoDB give the answers that the
  -- leases in memory give, and hold the same leases at the end, if they did at the start: where the
  -- service takes the calls as documented, each call finds that the earlier writes have reached every
  -- replica and that neither others nor the time to live change the table, dates are read back from
  -- their texts, a TTL is a `u64`, and the new expiry of each renewal can be represented.
  pub answers-Refines :
      (calls : List Call) (w : W) (s : InMemoryLeaseStore)
      → All (InRange chrono) calls
      → Calm t.quiet (remote client chrono formats store) calls w
      → Same formats t.rows w s
      → ((answers (remote client chrono formats store) calls w).0
          ≡ (answers (local chrono) calls s).0)
        × Same formats t.rows
            (answers (remote client chrono formats store) calls w).1
            (answers (local chrono) calls s).1
  answers-Refines [] w s fits calm h = (refl, h)
  answers-Refines (c ∷ calls) w s fits calm h =
      let (a, b) = step-Agrees client chrono formats store t x reads w calm.0 s h c fits.0 in
      let (rest, same) = answers-Refines calls _ _ fits.1 calm.1 b in (cc, same)
