-- ===== src/Cbor/Value.antt =====
-- The values of crates/datboi-core/src/cbor.rs, its errors and its constants. A text is the list
-- of its UTF-8 bytes.
use datboi.Base.{ℕ, List, suc}

-- `Items` is `Vec<Value>` and `Entries` is `Vec<(u64, Value)>`.
mutual
  pub data Value : Type 0 where
    uint : ℕ → Value
    bytes : List ℕ → Value
    text : List ℕ → Value
    array : Items → Value
    map : Entries → Value

  pub data Items : Type 0 where
    nil : Items
    cons : Value → Items → Items

  pub data Entries : Type 0 where
    end : Entries
    entry : ℕ → Value → Entries → Entries

pub data EncodeError : Type 0 where
  duplicate_key : ℕ → EncodeError

-- The texts of `DecodeError::Forbidden`.
pub data Forbidden : Type 0 where
  reserved_info indefinite_length negative_integer non_integer_key tag float_or_simple : Forbidden

pub data DecodeError : Type 0 where
  unexpected_eof : ℕ → DecodeError
  forbidden : ℕ → Forbidden → DecodeError
  non_minimal : ℕ → DecodeError
  key_order : ℕ → DecodeError
  length_exceeds : ℕ → DecodeError
  utf8 : ℕ → DecodeError
  depth : ℕ → DecodeError
  trailing : ℕ → DecodeError

abbrev pub major_uint : ℕ
major_uint = 0

abbrev pub major_nint : ℕ
major_nint = 1

abbrev pub major_bytes : ℕ
major_bytes = 2

abbrev pub major_text : ℕ
major_text = 3

abbrev pub major_array : ℕ
major_array = 4

abbrev pub major_map : ℕ
major_map = 5

abbrev pub major_tag : ℕ
major_tag = 6

abbrev pub max_depth : ℕ
max_depth = 128

-- `Vec::len`.
abbrev pub length_items : Items → ℕ
length_items nil = 0
length_items (cons v vs) = suc (length_items vs)

abbrev pub length_entries : Entries → ℕ
length_entries end = 0
length_entries (entry k v es) = suc (length_entries es)

-- Where in the input a decoding error was found.
abbrev pub error_offset : DecodeError → ℕ
error_offset (unexpected_eof p) = p
error_offset (forbidden p w) = p
error_offset (non_minimal p) = p
error_offset (key_order p) = p
error_offset (length_exceeds p) = p
error_offset (utf8 p) = p
error_offset (depth p) = p
error_offset (trailing p) = p
