-- ===== src/Dynamo.antt =====
-- The DynamoDB provider (djinn/providers/dynamo/src/lib.rs) and what it uses of the AWS SDK: the types
-- of requests and answers, and a client whose calls are a parameter. A request keeps its expressions
-- as the texts that the code writes.
pub mod Items
pub mod Paging
pub mod Tables
pub mod Matching
pub mod Creation
pub mod TxnStore
pub mod RegistryStore
pub mod EventStore
pub mod SpaceStore
pub mod RoundTrips
pub mod BatchDelete
pub mod TxnCalls
pub mod TxnMatching
pub mod TxnRefinement
pub mod LeaseStore
pub mod LeaseRows
pub mod LeaseCalls
pub mod LeaseMatching
pub mod LeaseRefinement
pub mod LeaseExpiry
pub mod SpaceReads
pub mod SpaceEnding
mod TestTable
mod Tests
mod TxnTests
mod SpaceTests
use coordin.Common.{
  ℕ, String, Bool, true, false, Option, none, some, List, [], ◌∷◌, Exec, Result, ok, err, ◌==◌,
  ◌||◌, if◌then◌else◌,
}
use Prim.Native.String.{◌++◌}
use coordin.Common.Chars.{to_ascii_lowercase}
use coordin.Common.Dict.{Dict}
use coordin.Common.Int.{ℤ}
use coordin.Error.{Error, Method, storage}

-- `AttributeValue::S`, `N`, `B`, `Bool`, `L` and `M`.
mutual
  pub data AttributeValue : Type 0 where
    str : String → AttributeValue
    num : String → AttributeValue
    bin : List ℕ → AttributeValue
    bool : Bool → AttributeValue
    list : Values → AttributeValue
    obj : Fields → AttributeValue

  pub data Values : Type 0 where
    nil : Values
    cons : AttributeValue → Values → Values

  pub data Fields : Type 0 where
    end : Fields
    field : String → AttributeValue → Fields → Fields

abbrev pub Item : Type 0
Item = Dict AttributeValue

-- What the code asks of an `SdkError`, and its text.
pub record SdkError : Type 0 where
  pub is_conditional_check_failed : Bool
  pub is_resource_in_use : Bool
  pub message : String

pub record PutItem : Type 0 where
  pub table_name : String
  pub item : Item
  pub condition : Option String

pub record GetItem : Type 0 where
  pub table_name : String
  pub key : Item

pub record DeleteItem : Type 0 where
  pub table_name : String
  pub return_old : Bool
  pub key : Item
  pub condition : Option String
  pub attribute_values : Item

pub record UpdateItem : Type 0 where
  pub table_name : String
  pub return_new : Bool
  pub key : Item
  pub update : String
  pub attribute_names : Dict String
  pub attribute_values : Item
  pub condition : Option String

pub record Query : Type 0 where
  pub table_name : String
  pub index_name : Option String
  pub key_condition : String
  pub attribute_values : Item
  pub limit : Option ℕ
  pub scan_index_forward : Option Bool
  pub exclusive_start_key : Option Item

pub record Scan : Type 0 where
  pub table_name : String
  pub filter : Option String
  pub attribute_names : Dict String
  pub attribute_values : Item
  pub limit : Option ℕ
  pub exclusive_start_key : Option Item

-- The answer to a query or a scan.
pub record Page : Type 0 where
  pub items : Option (List Item)
  pub last_evaluated_key : Option Item

pub data KeyType : Type 0 where
  hash range : KeyType

pub data ScalarAttributeType : Type 0 where
  text_type number_type : ScalarAttributeType

-- Every index that the code creates projects all attributes.
pub record GlobalSecondaryIndex : Type 0 where
  pub index_name : String
  pub key_schema : List (String × KeyType)

-- The code always asks for payment per request.
pub record CreateTable : Type 0 where
  pub table_name : String
  pub attribute_definitions : List (String × ScalarAttributeType)
  pub key_schema : List (String × KeyType)
  pub global_secondary_indexes : List GlobalSecondaryIndex

-- `Client`, for a world `W` that holds the tables. `update_item` and `delete_item` return attributes
-- where they are asked to; `batch_write_item` deletes by key and returns what it left, by table;
-- `update_time_to_live` takes the table and the attribute.
pub record Client (W : Type 0) : Type 0 where
  pub put_item : PutItem → Exec SdkError W Unit
  pub get_item : GetItem → Exec SdkError W (Option Item)
  pub delete_item : DeleteItem → Exec SdkError W (Option Item)
  pub update_item : UpdateItem → Exec SdkError W (Option Item)
  pub query : Query → Exec SdkError W Page
  pub scan : Scan → Exec SdkError W Page
  pub batch_write_item : String → List Item → Exec SdkError W (Option (Dict (List Item)))
  pub create_table : CreateTable → Exec SdkError W Unit
  pub update_time_to_live : String → String → Exec SdkError W Unit

-- What the code calls of chrono's formats: `to_rfc3339`, the parser of a `DateTime<Utc>` with its
-- error as a text, and `timestamp`.
pub record Formats : Type 0 where
  pub to_rfc3339 : ℕ → String
  pub parse_date : String → Result String ℕ
  pub timestamp : ℕ → ℤ

-- The environment variable `COORDIN8_AUTO_CREATE_TABLES`.
unfoldable pub auto_create_enabled : Option String → Bool
auto_create_enabled none = false
auto_create_enabled (some v) = to_ascii_lowercase v == "true" || to_ascii_lowercase v == "1"

-- `.map_err(|e| Error::Storage(format!("{call} failed: {e}")))?`
abbrev pub failed : {A : Type 0} → String → Result SdkError A → Result Error A
failed call (ok a) = ok a
failed call (err e) = err (storage (call ++ " failed: " ++ e.message))

abbrev pub send : {W A : Type 0} → String → Exec SdkError W A → Method W A
send call m w = (failed call (m w).0, (m w).1)

-- How a failed conditional call is answered.
abbrev pub or_failed : {A : Type 0} → String → Result Error A → SdkError → Result Error A
or_failed call refused e = if e.is_conditional_check_failed then refused else failed call (err e)
