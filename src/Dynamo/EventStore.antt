-- ===== src/Dynamo/EventStore.antt =====
-- Subscriptions and mailboxes in DynamoDB (djinn/providers/dynamo/src/event_store.rs). The pauses
-- between the attempts of a batch are left out.
pub mod Mailbox
use Prim.Native.String.{◌++◌}
use coordin.Common.{
  ℕ, String, Bool, true, false, Option, none, some, List, [], ◌∷◌, ◌++◌ as append, Result, ok, err,
  and_then, lift, pure, ◌>>=◌, ◌>>◌, if◌then◌else◌, ◌==◌,
}
use coordin.Common.Dict
use coordin.Common.Dict.{Dict}
use coordin.Common.Text.{show_u64}
use coordin.Error.{Error, Method, storage}
use coordin.Event.{EventRecord, SubscriptionRecord, DeliveryMode, durable, best_effort}
use coordin.Dynamo.{AttributeValue, str, num, bin, obj, Item, Client, Formats, Page, send}
use coordin.Dynamo.Items.{
  texts_in, bytes_in, bytes_field, get_s, as_n, get_date, get_u64, text_map, read_texts, parse_u64,
}
use coordin.Dynamo.Paging.{pages, or_empty, first}

pub record DynamoEventStore : Type 0 where
  pub sub_table : String
  pub mailbox_table : String

unfoldable pub delivery_to_str : DeliveryMode → String
delivery_to_str durable = "Durable"
delivery_to_str best_effort = "BestEffort"

unfoldable pub delivery_from_str : String → Result Error DeliveryMode
delivery_from_str s =
    if s == "Durable"
    then ok durable
    else if s == "BestEffort"
    then ok best_effort
    else err (storage ("unknown delivery mode: " ++ s))

abbrev ok_or_zero : Result String ℕ → ℕ
ok_or_zero (ok n) = n
ok_or_zero (err e) = 0

abbrev number_or_zero : Option String → ℕ
number_or_zero none = 0
number_or_zero (some t) = ok_or_zero (parse_u64 t)

unfoldable pub sub_from_item : Item → Result Error SubscriptionRecord
sub_from_item item = and_then (get_s "registration_id" item) λ registration_id.
    and_then (get_s "source" item) λ source. and_then (get_s "lease_id" item) λ lease_id.
      and_then (and_then (get_s "delivery" item) delivery_from_str) λ delivery.
        and_then (texts_in "template" (Dict.get "template" item)) λ template. ok (record {
          registration_id = registration_id;
          source = source;
          template = template;
          delivery = delivery;
          lease_id = lease_id;
          handback = bytes_in (Dict.get "handback" item);
          initial_seq_num = number_or_zero (as_n (Dict.get "initial_seq_num" item));
        })

-- The item that `create_subscription` puts.
unfoldable pub sub_to_item : SubscriptionRecord → Item
sub_to_item sub =
    append
      (("registration_id", str sub.registration_id)
        ∷ ("source", str sub.source)
        ∷ ("lease_id", str sub.lease_id)
        ∷ ("delivery", str (delivery_to_str sub.delivery))
        ∷ ("template", obj (text_map sub.template))
        ∷ ("initial_seq_num", num (show_u64 sub.initial_seq_num))
        ∷ [])
      (bytes_field "handback" sub.handback)

module _ (formats : Formats) where
  unfoldable pub event_from_item : Item → Result Error EventRecord
  event_from_item item = and_then (get_s "event_id" item) λ event_id.
      and_then (get_s "source" item) λ source. and_then (get_s "event_type" item) λ event_type.
        and_then (get_u64 "seq_num" item) λ seq_num.
          and_then (get_date formats "emitted_at" item) λ emitted_at.
            and_then (texts_in "attrs" (Dict.get "attrs" item)) λ attrs. ok (record {
              event_id = event_id;
              source = source;
              event_type = event_type;
              seq_num = seq_num;
              attrs = attrs;
              payload = bytes_in (Dict.get "payload" item);
              emitted_at = emitted_at;
            })

  -- The item that `enqueue` puts, with its number in the mailbox.
  unfoldable pub event_to_item : String → ℕ → EventRecord → Item
  event_to_item registration_id seq event =
      append
        (("registration_id", str registration_id)
          ∷ ("seq_num", num (show_u64 seq))
          ∷ ("event_id", str event.event_id)
          ∷ ("source", str event.source)
          ∷ ("event_type", str event.event_type)
          ∷ ("emitted_at", str (formats.to_rfc3339 event.emitted_at))
          ∷ ("attrs", obj (text_map event.attrs))
          ∷ [])
        (bytes_field "payload" event.payload)

abbrev pub push_sub : Item → List SubscriptionRecord → Result Error (List SubscriptionRecord)
push_sub item subs = and_then (sub_from_item item) λ sub. ok (append subs (sub ∷ []))

abbrev pub read_found : Option Item → Result Error (Option SubscriptionRecord)
read_found none = ok none
read_found (some item) = and_then (sub_from_item item) λ sub. ok (some sub)
