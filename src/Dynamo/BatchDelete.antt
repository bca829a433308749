-- ===== src/Dynamo/BatchDelete.antt =====
-- That a batch of deletes that succeeds deletes every key
-- (djinn/providers/dynamo/src/event_store.rs).
use coordin.Common.{
  ℕ, zero, suc, ◌-◌, String, Option, none, some, List, [], ◌∷◌, ◌++◌, append_assoc, append-nil,
  Result, ok, err, ◌≡◌, refl, sym, ap, ◌∙◌, subst, arith, ◌⊎◌, inl, inr, Result-cases, In, here,
  there, In-append_left, In-append_right,
}
use coordin.Dynamo.{Item, Client, Formats}
use coordin.Dynamo.EventStore.{DynamoEventStore}
use coordin.Dynamo.EventStore.Mailbox.{
  chunks, chunks_from, flush, flush_chunks, batch_delete, batch_delete_max_attempts, left_of,
}

-- The lists, one after the other.
abbrev concat : List (List Item) → List Item
concat [] = []
concat (xs ∷ rest) = xs ++ concat rest

chunks_from-concat :
    (size room : ℕ) (chunk xs : List Item) → concat (chunks_from size room chunk xs) ≡ chunk ++ xs
unfolding chunks_from
chunks_from-concat size room [] [] = refl
chunks_from-concat size room (x ∷ chunk) [] = refl
chunks_from-concat size zero chunk (x ∷ xs) =
    ap (λ l. chunk ++ l) (chunks_from-concat size (size - 1) (x ∷ []) xs)
chunks_from-concat size (suc room) chunk (x ∷ xs) =
    chunks_from-concat size room (chunk ++ x ∷ []) xs ∙ append_assoc chunk (x ∷ []) xs

-- In which part of two lists a key stands.
In-split : (xs ys : List Item) (key : Item) → In key (xs ++ ys) → In key xs ⊎ In key ys
In-split [] ys key m = inr m
In-split (x ∷ xs) ys key (here e) = inl (here e)
In-split (x ∷ xs) ys key (there m) = elim (In-split xs ys key m) [
  | inl a ↦ inl (there a)
  | inr b ↦ inr b
]

-- What is documented of a batch of deletes: each key that it does not name as unprocessed is gone
-- after it, and nothing comes back. `Gone` says that the table has no item under the key.
pub record Deletes {W : Type 0} (client : Client W) (table : String) (Gone : W → Item → Type 0)
    : Type 0 where
  pub processed :
      (keys : List Item) (w : W) (unprocessed : Option (coordin.Common.Dict.Dict (List Item)))
      → (client.batch_write_item table keys w).0 ≡ ok unprocessed
      → (key : Item) → In key keys
      → In key (left_of table unprocessed) ⊎ Gone (client.batch_write_item table keys w).1 key
  pub keeps :
      (keys : List Item) (w : W) (key : Item)
      → Gone w key
      → Gone (client.batch_write_item table keys w).1 key

module _ {W : Type 0} (client : Client W) (formats : Formats) (store : DynamoEventStore)
    (Gone : W → Item → Type 0) (d : Deletes client store.mailbox_table Gone) where
  flush_keeps :
      (left attempt : ℕ) (pending : List Item) (w : W) (key : Item)
      → Gone w key
      → Gone (flush client formats store left attempt pending w).1 key
  unfolding flush
  flush_keeps zero attempt [] w key g = g
  flush_keeps (suc left) attempt [] w key g = g
  flush_keeps zero attempt (k ∷ ks) w key g = g
  flush_keeps (suc left) attempt (k ∷ ks) w key g =
      let h = d.keeps (k ∷ ks) w key g in
      elim (Result-cases (client.batch_write_item store.mailbox_table (k ∷ ks) w).0) [
        | inl (u, e) ↦ rw e (flush_keeps left (suc attempt) _ _ key h)
        | inr (x, e) ↦ rw e h
      ]

  flush_deletes :
      (left attempt : ℕ) (pending : List Item) (w : W)
      → (flush client formats store left attempt pending w).0 ≡ ok tt
      → (key : Item) → In key pending
      → Gone (flush client formats store left attempt pending w).1 key
  unfolding flush
  flush_deletes left attempt [] w done key m = elim m [ ]
  flush_deletes zero attempt (k ∷ ks) w done key m = cc
  flush_deletes (suc left) attempt (k ∷ ks) w done key m =
      elim (Result-cases (client.batch_write_item store.mailbox_table (k ∷ ks) w).0) [
        | inl (u, e) ↦
            let later = rw e at done in
            rw e (elim (d.processed (k ∷ ks) w u e key m) [
              | inl again ↦ flush_deletes left (suc attempt) _ _ later key again
              | inr gone ↦ flush_keeps left (suc attempt) _ _ key gone
            ])
        | inr (x, e) ↦ let failed = rw e at done in cc
      ]

  chunks_keep :
      (cs : List (List Item)) (w : W) (key : Item)
      → Gone w key
      → Gone (flush_chunks client formats store cs w).1 key
  unfolding flush_chunks
  chunks_keep [] w key g = g
  chunks_keep (c ∷ cs) w key g =
      let h = flush_keeps batch_delete_max_attempts 0 c w key g in
      elim (Result-cases (flush client formats store batch_delete_max_attempts 0 c w).0) [
        | inl (u, e) ↦ rw e (chunks_keep cs _ key h)
        | inr (x, e) ↦ rw e h
      ]

  chunks_delete :
      (cs : List (List Item)) (w : W)
      → (flush_chunks client formats store cs w).0 ≡ ok tt
      → (key : Item) → In key (concat cs)
      → Gone (flush_chunks client formats store cs w).1 key
  unfolding flush_chunks
  chunks_delete [] w done key m = elim m [ ]
  chunks_delete (c ∷ cs) w done key m =
      elim (Result-cases (flush client formats store batch_delete_max_attempts 0 c w).0) [
        | inl (u, e) ↦
            let later = rw e at done in
            rw e (elim (In-split c (concat cs) key m) [
              | inl first ↦
                  chunks_keep cs _ key (flush_deletes batch_delete_max_attempts 0 c w e key first)
              | inr rest ↦ chunks_delete cs _ later key rest
            ])
        | inr (x, e) ↦ let failed = rw e at done in cc
      ]

  -- If a batch of deletes succeeds, however many keys it has and whatever the service left unprocessed
  -- at each attempt, then none of its keys has an item any more.
  pub batch_delete-Gone :
      (keys : List Item) (w : W)
      → (batch_delete client formats store keys w).0 ≡ ok tt
      → (key : Item) → In key keys
      → Gone (batch_delete client formats store keys w).1 key
  unfolding batch_delete chunks
  batch_delete-Gone keys w done key m =
      chunks_delete (chunks_from 25 25 [] keys) w done key
        (subst (λ l. In key l) (sym (chunks_from-concat 25 25 [] keys)) m)
