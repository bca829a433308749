-- ===== src/Dynamo/Tables.antt =====
-- What is documented of a DynamoDB table whose key is one text attribute: what a call answers and how
-- it changes the rows, where the service takes the call.
use coordin.Common.{
  List, false, String, Bool, true, Option, none, some, [], ◌∷◌, Result, ok, err, ◌≡◌, ◌==◌,
  if◌then◌else◌,
}
use coordin.Common.Dict
use coordin.Common.Dict.{Dict}
use coordin.Dynamo.{str, Item, SdkError, Client}

-- The attributes of a row; none where there is no row.
abbrev pub attributes : Option Item → Item
attributes none = []
attributes (some item) = item

-- A call that failed by its condition.
abbrev pub IsRefusal : {A : Type 0} → Result SdkError A → Type 0
IsRefusal (ok a) = ⊥
IsRefusal (err e) = e.is_conditional_check_failed ≡ true

abbrev pub IsOk : {A : Type 0} → Result SdkError A → Type 0
IsOk (ok a) = Unit
IsOk (err e) = ⊥

-- `rows` is the table in a world. A condition is read with the names and the values of its request on
-- the row's attributes, and an update gives the new ones. A read that does not ask for consistency may
-- miss a recent write, and the service deletes rows by their time to live: the calls are described
-- where the table is `quiet`, that is, where the writes so far have reached every replica, and nobody
-- else writes to the table, nor does the service delete rows. A refused write changes nothing, so that
-- a quiet table stays so.
pub record Table {W : Type 0} (client : Client W) (table_name key_name : String) : Type 1 where
  pub rows : W → String → Option Item
  pub quiet : W → Type 0
  pub holds : String → Dict String → Item → Item → Bool
  pub updated : String → Dict String → Item → Item → Item
  pub put :
      (id : String) (item : Item) (w : W)
      → quiet w
      → Dict.get key_name item ≡ some (str id)
      → let answer =
          client.put_item (record { table_name = table_name; item = item; condition = none }) w in
        IsOk answer.0 × ((j : String) → rows answer.1 j ≡ (if id == j then some item else rows w j))
  pub get :
      (id : String) (w : W)
      → quiet w
      → client.get_item (record { table_name = table_name; key = (key_name, str id) ∷ [] }) w
        ≡ (ok (rows w id), w)
  pub delete :
      (id : String) (w : W)
      → quiet w
      → let answer =
          client.delete_item
            (record {
              return_old = false;
              table_name = table_name;
              key = (key_name, str id) ∷ [];
              condition = none;
              attribute_values = [];
            })
            w in
        IsOk answer.0 × ((j : String) → rows answer.1 j ≡ (if id == j then none else rows w j))
  pub delete_if :
      (id condition : String) (values : Item) (w : W)
      → quiet w
      → let answer =
          client.delete_item
            (record {
              return_old = false;
              table_name = table_name;
              key = (key_name, str id) ∷ [];
              condition = some condition;
              attribute_values = values;
            })
            w in
        if holds condition [] values (attributes (rows w id))
        then IsOk answer.0 × ((j : String) → rows answer.1 j ≡ (if id == j then none else rows w j))
        else IsRefusal answer.0 × (((j : String) → rows answer.1 j ≡ rows w j) × quiet answer.1)
  pub update_if :
      (id update condition : String) (names : Dict String) (values : Item) (w : W)
      → quiet w
      → let row = attributes (rows w id) in
        let answer =
          client.update_item
            (record {
              return_new = false;
              table_name = table_name;
              key = (key_name, str id) ∷ [];
              update = update;
              attribute_names = names;
              attribute_values = values;
              condition = some condition;
            })
            w in
        if holds condition names values row
        then IsOk answer.0
          × ((j : String)
              → rows answer.1 j
                ≡ (if id == j then some (updated update names values row) else rows w j))
        else IsRefusal answer.0 × (((j : String) → rows answer.1 j ≡ rows w j) × quiet answer.1)

-- Each of the calls, one after the other, finds the table quiet.
abbrev pub Calm :
    {W Call Answer : Type 0} → (W → Type 0) → (Call → W → Answer × W) → List Call → W → Type 0
Calm quiet step [] w = Unit
Calm quiet step (c ∷ cs) w = quiet w × Calm quiet step cs (step c w).1
