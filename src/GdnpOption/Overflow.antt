-- ===== src/GdnpOption/Overflow.antt =====
-- The block that both `parse_bits` copy the value to has the size of the length field, two bytes.
use ietf_anima_signaling_pro.Base.{
  ℕ, ◌<◌, ◌≡◌, Endian, load16, List, drop, length, strncpy_overflow, some, none, arith,
}
use ietf_anima_signaling_pro.GdnpOption.{parse_bits, objective_parse_bits, copy_value}

copy_value_overflow :
    (chunk source : List ℕ) (len : ℕ) → length chunk < len → copy_value chunk source len ≡ none
unfolding copy_value
copy_value_overflow chunk source len h = ground (arith, strncpy_overflow len chunk source h)

-- An option whose length field exceeds the room of the block makes both parsers write past it,
-- whatever the rest of the bits is.
pub parse_bits_overflow :
    (e : Endian) (chunk bits : List ℕ) (len : ℕ)
    → load16 e (drop 2 bits) ≡ some len
    → length chunk < len
    → (parse_bits e chunk bits ≡ none) × (objective_parse_bits e chunk bits ≡ none)
unfolding parse_bits objective_parse_bits
parse_bits_overflow e chunk bits len h o = (
  ground (arith, copy_value_overflow chunk (drop 4 bits) len o),
  ground (arith, copy_value_overflow chunk (drop 6 bits) len o),
)
