-- ===== src/Block.antt =====
-- Enclave/leveldb/table/block_builder.cpp and block.cpp: the blocks of a table, and walking one forward.
-- The builder's vector of digests (BLT) is filled with zeros and never read, and is left out.
pub mod Entries
pub mod Walk
use e_lsm_p.Base.{
  ℕ, zero, suc, ◌+◌, ◌-◌, ◌*◌, ◌/◌, ◌%◌, ◌^◌, bit_or, Bool, true, false, Option, none, some, List,
  [], ◌∷◌, ◌++◌, length, take, drop, ltb, ◌==◌, ◌&&◌, if◌then◌else◌, ◌>>=◌,
}
use e_lsm_p.Coding.Fixed.{put_fixed32, decode_fixed32}
use e_lsm_p.Coding.Varint.{put_varint32, get_varint32_ptr}
use e_lsm_p.Status.{Status, ok, corruption, bytes}

pub record BlockBuilder : Type 0 where
  pub buffer : List ℕ
  pub restarts : List ℕ
  pub counter : ℕ
  pub total : ℕ
  pub finished : Bool
  pub last_key : List ℕ

abbrev pub new_block_builder : BlockBuilder
new_block_builder = record {
  buffer = [];
  restarts = 0 ∷ [];
  counter = 0;
  total = 0;
  finished = false;
  last_key = [];
}

unfoldable pub reset : BlockBuilder → BlockBuilder
reset b = record b { buffer = []; restarts = 0 ∷ []; counter = 0; finished = false; last_key = [] }

abbrev pub current_size_estimate : BlockBuilder → ℕ
current_size_estimate b = length b.buffer + length b.restarts * 4 + 4

unfoldable pub put_restarts : List ℕ → List ℕ → List ℕ
put_restarts buffer [] = buffer
put_restarts buffer (r ∷ restarts) = put_restarts (put_fixed32 buffer r) restarts

-- BlockBuilder::Finish; the slice it returns is the buffer.
unfoldable pub finish : BlockBuilder → BlockBuilder
unfolding put_restarts
finish b = record b {
  buffer = put_fixed32 (put_restarts b.buffer b.restarts) (length b.restarts % 2 ^ 32);
  finished = true;
}

-- The loop that counts the bytes that two keys share at the front.
unfoldable pub shared_length : List ℕ → List ℕ → ℕ
shared_length [] key = 0
shared_length (x ∷ last) [] = 0
shared_length (x ∷ last) (y ∷ key) =
    let rest = shared_length last key in if x == y then suc rest else 0

-- BlockBuilder::Add, for options with the given block_restart_interval.
unfoldable pub add : ℕ → BlockBuilder → List ℕ → List ℕ → BlockBuilder
unfolding shared_length
add interval b key value =
    let sharing = ltb b.counter interval in
    let shared = if sharing then shared_length b.last_key key else 0 in
    let non_shared = length key - shared in
    let sizes =
      put_varint32 (put_varint32 (put_varint32 b.buffer (shared % 2 ^ 32)) (non_shared % 2 ^ 32))
        (length value % 2 ^ 32) in
    record b {
      buffer = (sizes ++ drop shared key) ++ value;
      restarts = if sharing then b.restarts else b.restarts ++ (length b.buffer % 2 ^ 32 ∷ []);
      counter = suc (if sharing then b.counter else 0);
      total = suc b.total;
      last_key = take shared b.last_key ++ drop shared key;
    }

-- The end of DecodeEntry: the sum of the two lengths is a uint32_t.
abbrev pub checked : ℕ → ℕ → ℕ → List ℕ → Option (ℕ × ℕ × ℕ × List ℕ)
checked shared non_shared value_length p =
    if ltb (length p % 2 ^ 32) ((non_shared + value_length) % 2 ^ 32)
    then none
    else some (shared, non_shared, value_length, p)

abbrev pub third : ℕ → ℕ → Option (ℕ × List ℕ) → Option (ℕ × ℕ × ℕ × List ℕ)
third shared non_shared none = none
third shared non_shared (some (value_length, p)) = checked shared non_shared value_length p

abbrev pub second : ℕ → Option (ℕ × List ℕ) → Option (ℕ × ℕ × ℕ × List ℕ)
second shared none = none
second shared (some (non_shared, p)) = third shared non_shared (get_varint32_ptr p)

abbrev pub first : Option (ℕ × List ℕ) → Option (ℕ × ℕ × ℕ × List ℕ)
first none = none
first (some (shared, p)) = second shared (get_varint32_ptr p)

-- DecodeEntry, on the bytes from `p` to `limit`: the three lengths and the bytes behind them, or
-- `none` for NULL.
unfoldable pub decode_entry : List ℕ → Option (ℕ × ℕ × ℕ × List ℕ)
decode_entry [] = none
decode_entry (a ∷ []) = none
decode_entry (a ∷ b ∷ []) = none
decode_entry (a ∷ b ∷ c ∷ p) =
    if ltb (bit_or (bit_or a b) c) 128
    then checked a b c p
    else first (get_varint32_ptr (a ∷ b ∷ c ∷ p))

-- Block::Iter. `value_` is the slice of `value_size` bytes at the offset `value_start`.
pub record BlockIter : Type 0 where
  pub contents : List ℕ
  pub restarts : ℕ
  pub num_restarts : ℕ
  pub current : ℕ
  pub restart_index : ℕ
  pub key : List ℕ
  pub value_start : ℕ
  pub value_size : ℕ
  pub status : Status

abbrev pub value_of : BlockIter → List ℕ
value_of it = take it.value_size (drop it.value_start it.contents)

abbrev pub is_valid : BlockIter → Bool
is_valid it = ltb it.current it.restarts

abbrev pub next_entry_offset : BlockIter → ℕ
next_entry_offset it = (it.value_start + it.value_size) % 2 ^ 32

abbrev pub get_restart_point : BlockIter → ℕ → ℕ
get_restart_point it index = decode_fixed32 (drop (it.restarts + index * 4) it.contents)

unfoldable pub seek_to_restart_point : BlockIter → ℕ → BlockIter
seek_to_restart_point it index = record it {
  key = [];
  restart_index = index;
  value_start = get_restart_point it index;
  value_size = 0;
}

unfoldable pub corruption_error : BlockIter → BlockIter
corruption_error it = record it {
  current = it.restarts;
  restart_index = it.num_restarts;
  status = corruption (bytes "bad entry in block") [];
  key = [];
  value_size = 0;
}

-- The loop that moves restart_index_ on; it ends at num_restarts_.
unfoldable pub advance_restart : ℕ → BlockIter → ℕ → ℕ
advance_restart zero it index = index
advance_restart (suc fuel) it index =
    let next = advance_restart fuel it (index + 1) in
    if ltb (index + 1) it.num_restarts && ltb (get_restart_point it (index + 1)) it.current
    then next
    else index

-- What ParseNextKey does with a decoded entry; the bytes behind it end at `limit`.
unfoldable pub take_entry : BlockIter → Option (ℕ × ℕ × ℕ × List ℕ) → Bool × BlockIter
unfolding corruption_error advance_restart
take_entry it none = (false, corruption_error it)
take_entry it (some (shared, non_shared, value_length, p)) =
    if ltb (length it.key) shared then (false, corruption_error it) else (
      true,
      record it {
        key = take shared it.key ++ take non_shared p;
        value_start = it.restarts - length p + non_shared;
        value_size = value_length;
        restart_index = advance_restart it.num_restarts it it.restart_index;
      },
    )

unfoldable pub parse_next_key : BlockIter → Bool × BlockIter
unfolding take_entry decode_entry
parse_next_key it =
    let at = next_entry_offset it in
    let entry = decode_entry (drop at (take it.restarts it.contents)) in
    if ltb at it.restarts
    then take_entry (record it { current = at }) entry
    else (false, record it { current = it.restarts; restart_index = it.num_restarts })

unfoldable pub seek_to_first : BlockIter → BlockIter
unfolding seek_to_restart_point parse_next_key
seek_to_first it = (parse_next_key (seek_to_restart_point it 0)).1

unfoldable pub next : BlockIter → BlockIter
unfolding parse_next_key
next it = (parse_next_key it).1
