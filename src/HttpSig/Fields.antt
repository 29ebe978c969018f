-- ===== src/HttpSig/Fields.antt =====
-- What src/http_sig calls of the structured field crate `sfv`, as parameters: its parser for
-- dictionaries, its checks of keys, strings and integers, and its serializers. The types are the
-- views of its values that the sources match on.
use aqua_auth.Prelude.{Bool, List, Option}
use aqua_auth.Prelude.Int.{ℤ}
use aqua_auth.Text.{Text, Bytes}

pub data BareItem : Type 0 where
  integer : ℤ → BareItem
  string : Text → BareItem
  byte_sequence : Bytes → BareItem
  other_item : BareItem

-- `Parameters`, in their order
abbrev pub Parameters : Type 0
Parameters = List (Text × BareItem)

-- an `Item`
pub record Item : Type 0 where
  pub bare_item : BareItem
  pub item_params : Parameters

pub data ListEntry : Type 0 where
  item : Item → ListEntry
  inner_list : List Item → Parameters → ListEntry

-- `Dictionary`, in the order of its members
abbrev pub Dictionary : Type 0
Dictionary = List (Text × ListEntry)

pub record Sfv : Type 0 where
  -- `Parser::new(header).parse()`
  pub parse_dictionary : Text → Option Dictionary
  -- `KeyRef::from_str`, `StringRef::from_str`, `Integer::try_from`
  pub is_key : Text → Bool
  pub is_string : Text → Bool
  pub is_integer : ℤ → Bool
  -- a `ListSerializer` and a `DictSerializer` that write one inner list of strings with parameters
  pub write_list : List Text → Parameters → Option Text
  pub write_dictionary : Text → List Text → Parameters → Option Text
  -- a `DictSerializer` that writes one byte sequence
  pub write_bytes : Text → Bytes → Option Text
