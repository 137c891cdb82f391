-- ===== src/Examples/Sample.antt =====
-- Concrete libraries for the tests: JSON values as data, and codecs that leave the bytes alone.
use xus_miner.Common.{
  ℕ, ◌≤◌, ◌≡◌, List, [], ◌∷◌, Bool, true, false, Option, none, some, leb, ltb, if◌then◌else◌, Str,
  str_eq, u64_max, codes, arith, length,
}
use xus_miner.Common.Json.{Json}
use xus_miner.Job.{BlockHeaderWire, Codecs, Bytes}

mutual
  pub data Value : Type 0 where
    null : Value
    flag : Bool → Value
    number : ℕ → Value
    text : Str → Value
    array : Items → Value
    object : Fields → Value

  pub data Items : Type 0 where
    nil : Items
    cons : Value → Items → Items

  pub data Fields : Type 0 where
    end : Fields
    field : Str → Value → Fields → Fields

abbrev values : Items → List Value
values nil = []
values (cons v vs) = v ∷ values vs

abbrev find : Fields → Str → Option Value
find end name = none
find (field found v fs) name = let rest = find fs name in if str_eq found name then some v else rest

abbrev lookup : Value → Str → Option Value
lookup (object fs) name = find fs name
lookup _ name = none

abbrev in_range : Value → Option ℕ
in_range (number n) = if leb n u64_max then some n else none
in_range _ = none

pub in_range_le : (v : Value) {n : ℕ} → in_range v ≡ some n → n ≤ u64_max
in_range_le null e = cc
in_range_le (flag b) e = cc
in_range_le (number n) e = ground arith
in_range_le (text s) e = cc
in_range_le (array vs) e = cc
in_range_le (object fs) e = cc

abbrev as_text : Value → Option Str
as_text (text s) = some s
as_text _ = none

abbrev as_flag : Value → Option Bool
as_flag (flag b) = some b
as_flag _ = none

abbrev as_items : Value → Option (List Value)
as_items (array vs) = some (values vs)
as_items _ = none

abbrev is_obj : Value → Bool
is_obj (object fs) = true
is_obj _ = false

abbrev is_nothing : Value → Bool
is_nothing null = true
is_nothing _ = false

abbrev pub sample_json : Json
sample_json = record {
  Value = Value;
  field? = lookup;
  as_u64 = in_range;
  as_str = as_text;
  as_bool = as_flag;
  as_array = as_items;
  is_object = is_obj;
  is_null = is_nothing;
  as_u64_le = in_range_le;
}

-- The header that every blob of at least ten bytes encodes.
abbrev pub sample_header : BlockHeaderWire
sample_header = record {
  height = 7;
  timestamp_ms = 99;
  proposer = codes "alice";
  version_bits = 0;
  bits = 0x1d00ffff;
}

abbrev pub header_of : Bytes → Option BlockHeaderWire
header_of blob = if ltb (length blob) 10 then none else some sample_header

abbrev pub sample_codecs : Codecs
sample_codecs = record {
  json = sample_json;
  hex_decode = some;
  hex_encode = λ bytes. bytes;
  decode_header = header_of;
  blake3 = λ bytes. bytes;
}
