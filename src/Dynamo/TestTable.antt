-- ===== src/Dynamo/TestTable.antt =====
-- A table in memory that takes every call, and dates as tallies: what the hypotheses on the service and
-- on dates are tested with.
use coordin.Common.{
  ℕ, zero, suc, String, Bool, true, false, Option, none, some, [], ◌∷◌, ok, err, ◌≡◌, refl, sym,
  subst, ap, ◌↔◌, if◌then◌else◌, ◌==◌, eq_iff, eq_refl, Bool-cases, inl, inr,
}
use coordin.Common.Dict
use coordin.Common.Dict.{Dict, get-insert, get-remove}
use coordin.Common.Int.{pos}
use coordin.Dynamo.{AttributeValue, str, num, bin, bool, list, obj, Item, SdkError, Client, Formats}
use coordin.Dynamo.Tables.{Table, attributes, IsOk, IsRefusal}

-- Dates as tallies.
unfoldable pub tally : ℕ → String
tally zero = String.[]
tally (suc n) = String.◌∷◌ "|" (tally n)

unfoldable pub count : String → ℕ
count String.[] = 0
count (String.◌∷◌ c t) = suc (count t)

count-tally : (n : ℕ) → count (tally n) ≡ n
unfolding count tally
count-tally zero = refl
count-tally (suc n) = ap (λ (k : ℕ). suc k) (count-tally n)

abbrev pub formats : Formats
formats = record { to_rfc3339 = tally; parse_date = λ t. ok (count t); timestamp = λ n. pos n }

pub formats_read : (n : ℕ) → formats.parse_date (formats.to_rfc3339 n) ≡ ok n
formats_read n = ap (λ (k : ℕ). ok k) (count-tally n)

-- The rows of one table, by their key.
abbrev pub World : Type 0
World = Dict Item

abbrev pub id_of : Option AttributeValue → String
id_of (some (str id)) = id
id_of _ = ""

abbrev pub key_in : String → Item → String
key_in name item = id_of (Dict.get name item)

abbrev pub refusal : SdkError
refusal = record {
  is_conditional_check_failed = true;
  is_resource_in_use = false;
  message = "the conditional request failed";
}

abbrev pub put_or : String → Option AttributeValue → Item → Item
put_or k none row = Dict.remove k row
put_or k (some v) row = Dict.insert k v row

pub get-put_or :
    (k j : String) (v : Option AttributeValue) (row : Item)
    → Dict.get j (put_or k v row) ≡ (if k == j then v else Dict.get j row)
get-put_or k j none row = get-remove k j row
get-put_or k j (some v) row = get-insert k j v row

abbrev pub same_text : Option AttributeValue → Option AttributeValue → Bool
same_text (some (str a)) (some (str b)) = a == b
same_text _ _ = false

pub text_equals :
    (o : Option AttributeValue) (text : String)
    → (same_text o (some (str text)) ≡ true) ↔ (o ≡ some (str text))
text_equals none text = (λ h. cc, λ h. cc)
text_equals (some (str t)) text = (
  λ h. ap (λ u. some (str u)) ((eq_iff t text).0 h),
  λ h. let e : t ≡ text = cc in rw e (eq_refl text),
)
text_equals (some (num t)) text = (λ h. cc, λ h. cc)
text_equals (some (bool t)) text = (λ h. cc, λ h. cc)
text_equals (some (bin t)) text = (λ h. cc, λ h. cc)
text_equals (some (list t)) text = (λ h. cc, λ h. cc)
text_equals (some (obj t)) text = (λ h. cc, λ h. cc)

module _ (key_name : String) (holds : String → Dict String → Item → Item → Bool)
    (updated : String → Dict String → Item → Item → Item) where
  abbrev pub holds_or : Option String → Item → Item → Dict String → Bool
  holds_or none values row names = true
  holds_or (some condition) values row names = holds condition names values row

  -- A table that takes every call.
  abbrev pub client : Client World
  client = record {
    put_item = λ q w. (ok tt, Dict.insert (key_in key_name q.item) q.item w);
    get_item = λ q w. (ok (Dict.get (key_in key_name q.key) w), w);
    delete_item = λ q w.
        let id = key_in key_name q.key in
        if holds_or q.condition q.attribute_values (attributes (Dict.get id w)) []
        then (ok none, Dict.remove id w)
        else (err refusal, w);
    update_item = λ q w.
        let id = key_in key_name q.key in
        let row = attributes (Dict.get id w) in
        if holds_or q.condition q.attribute_values row q.attribute_names
        then (ok none, Dict.insert id (updated q.update q.attribute_names q.attribute_values row) w)
        else (err refusal, w);
    query = λ q w. (ok (record { items = none; last_evaluated_key = none }), w);
    scan = λ q w. (ok (record { items = some (Dict.values w); last_evaluated_key = none }), w);
    batch_write_item = λ table keys w. (ok none, w);
    create_table = λ q w. (ok tt, w);
    update_time_to_live = λ table attribute w. (ok tt, w);
  }

  key_self : (id : String) → key_in key_name ((key_name, str id) ∷ []) ≡ id
  unfolding Dict.get
  key_self id = rw (eq_refl key_name) refl

  pub table_put :
      (table id : String) (item : Item) (w : World)
      → Dict.get key_name item ≡ some (str id)
      → let answer =
          client.put_item (record { table_name = table; item = item; condition = none }) w in
        IsOk answer.0
        × ((j : String) → Dict.get j answer.1 ≡ (if id == j then some item else Dict.get j w))
  table_put table id item w e =
      let named : key_in key_name item ≡ id = ap id_of e in
      (
        tt,
        λ j.
            subst
              (λ k.
                Dict.get j (Dict.insert k item w) ≡ (if id == j then some item else Dict.get j w))
              (sym named) (get-insert id j item w),
      )

  pub table_delete_if :
      (table id condition : String) (values : Item) (w : World)
      → let answer =
          client.delete_item
            (record {
              return_old = false;
              table_name = table;
              key = (key_name, str id) ∷ [];
              condition = some condition;
              attribute_values = values;
            })
            w in
        if holds condition [] values (attributes (Dict.get id w))
        then IsOk answer.0
          × ((j : String) → Dict.get j answer.1 ≡ (if id == j then none else Dict.get j w))
        else IsRefusal answer.0 × (((j : String) → Dict.get j answer.1 ≡ Dict.get j w) × Unit {0})
  table_delete_if table id condition values w =
      elim (Bool-cases (holds condition [] values (attributes (Dict.get id w)))) [
        | inl e ↦ rw (key_self, e) (tt, λ j. get-remove id j w)
        | inr e ↦ rw (key_self, e) (refl, (λ j. refl, tt))
      ]

  pub table_update_if :
      (table id update condition : String) (names : Dict String) (values : Item) (w : World)
      → let row = attributes (Dict.get id w) in
        let answer =
          client.update_item
            (record {
              return_new = false;
              table_name = table;
              key = (key_name, str id) ∷ [];
              update = update;
              attribute_names = names;
              attribute_values = values;
              condition = some condition;
            })
            w in
        if holds condition names values row
        then IsOk answer.0
          × ((j : String)
              → Dict.get j answer.1
                ≡ (if id == j then some (updated update names values row) else Dict.get j w))
        else IsRefusal answer.0 × (((j : String) → Dict.get j answer.1 ≡ Dict.get j w) × Unit {0})
  table_update_if table id update condition names values w =
      elim (Bool-cases (holds condition names values (attributes (Dict.get id w)))) [
        | inl e ↦ rw (key_self, e) (tt, λ j. get-insert id j _ w)
        | inr e ↦ rw (key_self, e) (refl, (λ j. refl, tt))
      ]

  pub table_get :
      (table id : String) (w : World)
      → client.get_item (record { table_name = table; key = (key_name, str id) ∷ [] }) w
        ≡ (ok (Dict.get id w), w)
  table_get table id w = rw key_self refl

  pub table_delete :
      (table id : String) (w : World)
      → let answer =
          client.delete_item
            (record {
              return_old = false;
              table_name = table;
              key = (key_name, str id) ∷ [];
              condition = none;
              attribute_values = [];
            })
            w in
        IsOk answer.0
        × ((j : String) → Dict.get j answer.1 ≡ (if id == j then none else Dict.get j w))
  table_delete table id w = (tt, λ j. rw key_self (get-remove id j w))

  abbrev pub table : (table_name : String) → Table client table_name key_name
  table table_name = record {
    rows = λ w id. Dict.get id w;
    quiet = λ w. Unit;
    holds = holds;
    updated = updated;
    put = λ id item w c. table_put table_name id item w;
    get = λ id w c. table_get table_name id w;
    delete = λ id w c. table_delete table_name id w;
    delete_if = λ id condition values w c. table_delete_if table_name id condition values w;
    update_if = λ id update condition names values w c.
        table_update_if table_name id update condition names values w;
  }
