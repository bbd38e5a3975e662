-- ===== src/Wire/Tags.antt =====
-- The type tags (services.go, ctr_marketplace.go).
use nextendo_demonware.Common.{ℕ}

abbrev pub tag_bool : ℕ
tag_bool = 0x01

abbrev pub tag_u8 : ℕ
tag_u8 = 0x03

abbrev pub tag_u16 : ℕ
tag_u16 = 0x06

abbrev pub tag_u32 : ℕ
tag_u32 = 0x08

abbrev pub tag_i64 : ℕ
tag_i64 = 0x09

abbrev pub tag_u64 : ℕ
tag_u64 = 0x0A

abbrev pub tag_string : ℕ
tag_string = 0x10

abbrev pub tag_blob : ℕ
tag_blob = 0x13

abbrev pub tag_struct : ℕ
tag_struct = 0x17
