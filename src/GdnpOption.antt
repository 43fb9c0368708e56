-- ===== src/GdnpOption.antt =====
-- Option.h and Option.cpp: the options that a message carries, and their layout in memory.
pub mod Fields
pub mod Roundtrip
pub mod Overflow
pub mod Uniform
use ietf_anima_signaling_pro.Base.{
  ◌>>=◌, ℕ, ◌+◌, ◌*◌, ◌/◌, ◌^◌, bit_or, ◌==◌, if◌then◌else◌, u8, u16, Endian, store16, load16, List,
  ◌++◌, drop, memcpy, strncpy, zeros, Option, none, some, Bool,
}

pub data OptionType : Type 0 where
  divert accept decline waiting_time locator discovery negotiation synchronization : OptionType

unfoldable pub option_type_code : OptionType → ℕ
option_type_code divert = 0
option_type_code accept = 1
option_type_code decline = 2
option_type_code waiting_time = 3
option_type_code locator = 4
option_type_code discovery = 5
option_type_code negotiation = 6
option_type_code synchronization = 7

-- The `switch` of both `parse_bits`. A number that it has no case for leaves the variable `type`
-- without a value.
unfoldable pub option_type_of : ℕ → Option OptionType
option_type_of n =
    if n == 0
    then some divert
    else if n == 1
    then some accept
    else if n == 2
    then some decline
    else if n == 3
    then some waiting_time
    else if n == 4
    then some locator
    else if n == 5
    then some discovery
    else if n == 6
    then some negotiation
    else if n == 7
    then some synchronization
    else none

-- `class Option`. `value` is the block that the pointer reaches, `none` the null pointer.
pub record GdnpOption : Type 0 where
  pub type : OptionType
  pub len : ℕ
  pub value : Option (List ℕ)

-- `class Objective_Option`, which adds two bytes.
pub record ObjectiveOption : Type 0 where
  pub base : GdnpOption
  pub open base use *
  pub loop_count : ℕ
  pub flag : ℕ

abbrev pub option_len_except_value : ℕ
option_len_except_value = 4

abbrev pub objective_len_except_value : ℕ
objective_len_except_value = 6

abbrev pub flag_bits_len : ℕ
flag_bits_len = 8

-- `get_value`: the empty string stands for the null pointer.
unfoldable pub get_value : GdnpOption → List ℕ
get_value o = elim o.value [ none ↦ zeros 1 | some v ↦ v ]

-- The value field of both `to_bits`: `len` zero bytes, and the value over them unless it is null.
unfoldable pub value_field : GdnpOption → Option (List ℕ)
value_field o = elim o.value [ none ↦ some (zeros o.len) | some v ↦ memcpy (zeros o.len) v o.len ]

-- The block that `Option::to_bits` returns.
unfoldable pub to_bits : Endian → GdnpOption → Option (List ℕ)
to_bits e o = do
  field ← value_field o
  some (store16 e (option_type_code o.type) ++ (store16 e o.len ++ field))

-- The third word of `Objective_Option::to_bits`.
abbrev pub loop_and_flag : ObjectiveOption → ℕ
loop_and_flag o = bit_or (u16 (o.loop_count * 2 ^ flag_bits_len)) o.flag

-- The block that `Objective_Option::to_bits` returns.
unfoldable pub objective_to_bits : Endian → ObjectiveOption → Option (List ℕ)
objective_to_bits e o = do
  field ← value_field o.base
  some (
      store16 e (option_type_code o.type)
      ++ (store16 e o.len ++ (store16 e (loop_and_flag o) ++ field)))

-- The value that both `parse_bits` make: null for the length 0, and otherwise `len` characters
-- copied to `chunk`, the bytes that can be reached in the block that `malloc` returned for two bytes:
-- two of them are promised, and a value that is longer than the block is written past its end.
unfoldable pub copy_value : List ℕ → List ℕ → ℕ → Option (Option (List ℕ))
copy_value chunk source len =
    if len == 0 then some none else (strncpy chunk source len >>= λ v. some (some v))

-- `Option::parse_bits`. `none`: the type is one that the switch does not know, the bits end too
-- early, or the copy passes the end of a block.
unfoldable pub parse_bits : Endian → List ℕ → List ℕ → Option GdnpOption
parse_bits e chunk bits = do
  number ← load16 e bits
  type ← option_type_of number
  len ← load16 e (drop 2 bits)
  value ← copy_value chunk (drop 4 bits) len
  some (record { type = type; len = len; value = value })

-- `Objective_Option::parse_bits`.
unfoldable pub objective_parse_bits : Endian → List ℕ → List ℕ → Option ObjectiveOption
objective_parse_bits e chunk bits = do
  number ← load16 e bits
  type ← option_type_of number
  len ← load16 e (drop 2 bits)
  word ← load16 e (drop 4 bits)
  value ← copy_value chunk (drop 6 bits) len
  some (record {
    base = record { type = type; len = len; value = value };
    loop_count = u8 (word / 2 ^ flag_bits_len);
    flag = u8 word;
  })
