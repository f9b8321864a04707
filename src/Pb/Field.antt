-- ===== src/Pb/Field.antt =====
-- Pods/nanopb/pb.h: the field types and the descriptor `pb_field_t`.
use get_together.Common.{ℕ, Bool, true, false, ℤ, pos}

-- PB_LTYPE_...
pub data LType : Type 0 where
  varint uvarint svarint fixed32 fixed64 bytes string submessage extension : LType
  fixed_length_bytes : LType

-- PB_HTYPE_...
pub data HType : Type 0 where
  required optional repeated oneof : HType

-- PB_ATYPE_...; `reserved` is the pattern 0xC0 of the mask, which has no name.
pub data AType : Type 0 where
  static callback pointer reserved : AType

-- pb_wire_type_t. A wire type read from input may have any three bits: `wt_other`.
pub data WireType : Type 0 where
  wt_varint wt_64bit wt_string wt_32bit : WireType
  wt_other : ℕ → WireType

-- The numbers of pb_wire_type_t.
unfoldable pub wire_code : WireType → ℕ
wire_code wt_varint = 0
wire_code wt_64bit = 1
wire_code wt_string = 2
wire_code wt_32bit = 5
wire_code (wt_other n) = n

-- PB_LTYPE(type) <= PB_LTYPE_LAST_PACKABLE
unfoldable pub is_packable : LType → Bool
is_packable varint = true
is_packable uvarint = true
is_packable svarint = true
is_packable fixed32 = true
is_packable fixed64 = true
is_packable _ = false

-- pb_field_t, its `type` byte taken apart by PB_LTYPE, PB_HTYPE and PB_ATYPE. `ptr` is an address.
pub record Field : Type 0 where
  pub tag : ℕ
  pub ltype : LType
  pub htype : HType
  pub atype : AType
  pub data_offset : ℕ
  pub size_offset : ℤ
  pub data_size : ℕ
  pub array_size : ℕ
  pub ptr : ℕ

-- PB_LAST_FIELD
abbrev pub last_field : Field
last_field = record {
  tag = 0;
  ltype = varint;
  htype = required;
  atype = static;
  data_offset = 0;
  size_offset = pos 0;
  data_size = 0;
  array_size = 0;
  ptr = 0;
}
