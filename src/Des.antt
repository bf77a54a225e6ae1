-- ===== src/Des.antt =====
-- src/security/des.rs: the DES block cipher. A u64 is a number below 2 ^ 64.
use rust_vnc.Common.{
  ℕ, zero, suc, ◌+◌, ◌-◌, ◌*◌, ◌/◌, ◌%◌, ◌^◌, List, [], ◌∷◌, ◌++◌, map, bit_and, bit_or, bit_xor,
}
use rust_vnc.Common.{length, get_or, drop, take, replicate}
use mathlib.Core.List.{reverse}
use Tables.{e_table, ip_table, p_table, pc1_table, pc2_table, fp_table, shift_table, s_tables}
pub mod Permute
mod Tests
pub mod Feistel
pub mod Bytes
pub mod Chunks
pub mod RoundTrip
mod Tables

abbrev shl : ℕ → ℕ → ℕ
shl x k = x * 2 ^ k % 2 ^ 64

abbrev shr : ℕ → ℕ → ℕ
shr x k = x / 2 ^ k

abbrev first_bit : ℕ
first_bit = 1 * 2 ^ 63

abbrev half_key_size : ℕ
half_key_size = 28

-- The loop over the table, at position `pos`.
swap_loop : ℕ → ℕ → ℕ → List ℕ → ℕ
swap_loop key pos result [] = result
swap_loop key pos result (index ∷ table) =
    let bit = bit_and (shl key (index - 1)) first_bit in
    swap_loop key (suc pos) (bit_or result (shr bit pos)) table

pub swap_bits : ℕ → List ℕ → ℕ
unfolding swap_loop
swap_bits key table = swap_loop key 0 0 table

pub e : ℕ → ℕ
e block = swap_bits block e_table

pub ip : ℕ → ℕ
ip message = swap_bits message ip_table

pub p : ℕ → ℕ
p block = swap_bits block p_table

pub pc1 : ℕ → ℕ
pc1 key = swap_bits key pc1_table

pub pc2 : ℕ → ℕ
pc2 key = swap_bits key pc2_table

pub fp : ℕ → ℕ
fp message = swap_bits message fp_table

-- One half of the key, turned left by one place.
turn : ℕ → ℕ
turn n = bit_or (shl n 1) (shr (bit_and n first_bit) (half_key_size - 1))

pub circular_left_shift : ℕ → ℕ → ℕ → ℕ × ℕ
unfolding turn
circular_left_shift n1 n2 zero = (n1, n2)
circular_left_shift n1 n2 (suc shift_count) = circular_left_shift (turn n1) (turn n2) shift_count

-- One round's key from the last one's.
next_key : ℕ → ℕ → ℕ
unfolding circular_left_shift
next_key last_key shift_count =
    let last_ci = bit_and last_key 0xFFFF_FFF0_0000_0000 in
    let last_di = shl last_key half_key_size in
    let (ci, di) = circular_left_shift last_ci last_di shift_count in
    bit_or ci (shr di half_key_size)

-- The keys behind `last_key`, one for each entry of the table.
key_loop : ℕ → List ℕ → List ℕ
key_loop last_key [] = []
key_loop last_key (shift_count ∷ table) =
    let current_key = next_key last_key shift_count in current_key ∷ key_loop current_key table

pub compute_subkeys : ℕ → List ℕ
compute_subkeys key = map pc2 (key_loop (pc1 key) shift_table)

-- `tables[box_id][i][j]`
pub s : ℕ → ℕ → ℕ
s box_id block =
    let i = bit_or (shr (bit_and block 0x20) 4) (bit_and block 1) in
    let j = shr (bit_and block 0x1E) 1 in get_or (get_or (get_or s_tables box_id []) i []) j 0

-- The loop over the eight boxes, with `rounds` to go from box `i` on.
s_loop : ℕ → ℕ → ℕ → ℕ → ℕ
s_loop zero i intermediate result = result
s_loop (suc rounds) i intermediate result =
    let block = shr (bit_and intermediate 0xFC00_0000_0000_0000) 58 in
    s_loop rounds (suc i) (shl intermediate 6) (bit_or (shl result 4) (s i block))

pub feistel : ℕ → ℕ → ℕ
feistel half_block subkey =
    let expanded = e half_block in p (shl (s_loop 8 0 (bit_xor expanded subkey) 0) 32)

-- The loop over the subkeys, on the two halves of a block.
pub rounds : List ℕ → ℕ → ℕ → ℕ × ℕ
rounds [] li ri = (li, ri)
rounds (subkey ∷ subkeys) li ri = rounds subkeys ri (bit_xor li (feistel ri subkey))

pub des_block : List ℕ → ℕ → ℕ
des_block subkeys block =
    let permuted = ip block in
    let (li, ri) = rounds subkeys (bit_and permuted 0xFFFF_FFFF_0000_0000) (shl permuted 32) in
    fp (bit_or ri (shr li 32))

key_loop_u64 : ℕ → List ℕ → ℕ
key_loop_u64 result [] = result
key_loop_u64 result (part ∷ key) = key_loop_u64 ((shl result 8 + part) % 2 ^ 64) key

pub key_to_u64 : List ℕ → ℕ
unfolding key_loop_u64
key_to_u64 key = key_loop_u64 0 key

-- A chunk of at most eight bytes, filled up with zeros.
pub to_key : List ℕ → List ℕ
to_key slice = slice ++ replicate (8 - length slice) 0

-- `chunks(8)`, on fuel: each chunk takes a byte at least.
chunk_loop : ℕ → List ℕ → List (List ℕ)
chunk_loop zero bytes = []
chunk_loop (suc fuel) [] = []
chunk_loop (suc fuel) (b ∷ bytes) = take 8 (b ∷ bytes) ∷ chunk_loop fuel (drop 8 (b ∷ bytes))

pub chunks : List ℕ → List (List ℕ)
chunks bytes = chunk_loop (length bytes) bytes

pub message_to_u64s : List ℕ → List ℕ
message_to_u64s message = map (λ m. key_to_u64 (to_key m)) (chunks message)

pub to_u8_vec : ℕ → List ℕ
to_u8_vec num =
    shr (bit_and num 0xFF00_0000_0000_0000) 56
    ∷ shr (bit_and num 0x00FF_0000_0000_0000) 48
    ∷ shr (bit_and num 0x0000_FF00_0000_0000) 40
    ∷ shr (bit_and num 0x0000_00FF_0000_0000) 32
    ∷ shr (bit_and num 0x0000_0000_FF00_0000) 24
    ∷ shr (bit_and num 0x0000_0000_00FF_0000) 16
    ∷ shr (bit_and num 0x0000_0000_0000_FF00) 8
    ∷ bit_and num 0x0000_0000_0000_00FF
    ∷ []

-- The loop over the blocks; `cipher` grows by eight bytes a block.
block_loop : List ℕ → List ℕ → List ℕ → List ℕ
block_loop subkeys cipher [] = cipher
block_loop subkeys cipher (block ∷ blocks) =
    block_loop subkeys (cipher ++ to_u8_vec (des_block subkeys block)) blocks

pub des : List ℕ → List ℕ → List ℕ
des message subkeys = block_loop subkeys [] (message_to_u64s message)

pub encrypt : List ℕ → List ℕ → List ℕ
encrypt message key = des message (compute_subkeys (key_to_u64 key))

pub decrypt : List ℕ → List ℕ → List ℕ
decrypt cipher key = des cipher (reverse (compute_subkeys (key_to_u64 key)))
