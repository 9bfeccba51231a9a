-- ===== src/Examples/Tables.antt =====
-- Blocks, tables, filters and masks at concrete inputs.
use e_lsm_p.Base.{
  ℕ, ◌+◌, ◌%◌, ◌^◌, ◌<◌, ◌≡◌, refl, ap, true, false, some, none, List, [], ◌∷◌, ◌++◌, length, All,
  drop, replicate, arith, ◌≢◌, ◌↔◌,
}
use e_lsm_p.Coding.Fixed.{IsU32, put_fixed32}
use e_lsm_p.Coding.Varint.{encode_varint32, put_varint32}
use e_lsm_p.Comparator.{bytewise}
use e_lsm_p.Status.{ok, status_ok}
use e_lsm_p.Block.{
  BlockBuilder, new_block_builder, add, BlockIter, value_of, parse_next_key, next_entry_offset,
}
use e_lsm_p.Block
use e_lsm_p.Block.Entries.{entry_bytes}
use e_lsm_p.Block.Walk.{shared_of, IsBehind, parse_next_key-add}
use e_lsm_p.Bloom.{probes, create_filter, key_may_match}
use e_lsm_p.Bloom.Complete.{create_filter-key_may_match}
use e_lsm_p.TableBuilder.{WritableFile, FilterBuilder, Crc, Options, Rep, choose, write_block}
use e_lsm_p.TableBuilder.Blocks.{read_of, Relies, write_block-read_block}
use e_lsm_p.TableFormat.{new_block_handle, Footer, encode_footer, decode_footer, Snappy, read_block}
use e_lsm_p.TableFormat.Footers.{IsHandle, decode_footer-encode, encode_footer_asserts}

abbrev small_footer : Footer
small_footer = record {
  metaindex_handle = record { offset = 300; size = 8 };
  index_handle = record { offset = 313; size = 40 };
}

abbrev empty_footer : Footer
empty_footer = record { metaindex_handle = new_block_handle; index_handle = new_block_handle }

metaindex_fits : IsHandle (small_footer.metaindex_handle)
metaindex_fits = (omega arith, omega arith)

index_fits : IsHandle (small_footer.index_handle)
index_fits = (omega arith, omega arith)

decode_footer-encode_example :
    (e : List ℕ) × (encode_footer small_footer [] ≡ some e)
    × (length e ≡ 48)
    × (decode_footer (e ++ (1 ∷ [])) empty_footer
        ≡ record { status = ok; footer = small_footer; input = 1 ∷ [] })
decode_footer-encode_example =
    decode_footer-encode small_footer (1 ∷ []) metaindex_fits index_fits empty_footer

encode_footer_asserts_example :
    (encode_footer small_footer (replicate 41 7) ≢ none) ↔ (length (replicate {A = ℕ} 41 7) ≡ 0)
encode_footer_asserts_example = encode_footer_asserts small_footer (replicate 41 7)

create_filter-key_may_match_example :
    All
      (λ key.
        key_may_match key
          (drop 1 (create_filter 10 (probes 6) ((1 ∷ []) ∷ (2 ∷ 3 ∷ []) ∷ []) (9 ∷ [])))
        ≡ true)
      ((1 ∷ []) ∷ (2 ∷ 3 ∷ []) ∷ [])
create_filter-key_may_match_example =
    create_filter-key_may_match 10 6 ((1 ∷ []) ∷ (2 ∷ 3 ∷ []) ∷ []) (9 ∷ []) (omega arith)

-- A block of two entries that share two bytes, in front of its second entry.
abbrev one_added : BlockBuilder
one_added = add 16 new_block_builder (97 ∷ 98 ∷ []) (1 ∷ [])

abbrev entries : List ℕ
entries = 0 ∷ 2 ∷ 1 ∷ 97 ∷ 98 ∷ 1 ∷ 2 ∷ 1 ∷ 1 ∷ 99 ∷ 5 ∷ []

abbrev at_second : BlockIter
at_second = record {
  contents = entries ++ (0 ∷ 0 ∷ 0 ∷ 0 ∷ 1 ∷ 0 ∷ 0 ∷ 0 ∷ []);
  restarts = 11;
  num_restarts = 1;
  current = 0;
  restart_index = 0;
  key = 97 ∷ 98 ∷ [];
  value_start = 5;
  value_size = 1;
  status = ok;
}

at_second-IsBehind :
    IsBehind one_added.buffer
      (entry_bytes (shared_of 16 one_added (97 ∷ 98 ∷ 99 ∷ [])) (97 ∷ 98 ∷ 99 ∷ []) (5 ∷ []) ++ [])
      (0 ∷ 0 ∷ 0 ∷ 0 ∷ 1 ∷ 0 ∷ 0 ∷ 0 ∷ [])
      one_added.last_key
      at_second
unfolding add encode_varint32 put_varint32
at_second-IsBehind = record {
  contents_is = refl;
  restarts_is = refl;
  restarts_fits = omega arith;
  offset_is = refl;
  key_is = refl;
}

parse_next_key-add_example :
    ((parse_next_key at_second).0 ≡ true)
    × ((parse_next_key at_second).1.key ≡ 97 ∷ 98 ∷ 99 ∷ [])
    × (value_of (parse_next_key at_second).1 ≡ 5 ∷ [])
    × ((parse_next_key at_second).1.current ≡ length one_added.buffer)
    × IsBehind
        (add 16 one_added (97 ∷ 98 ∷ 99 ∷ []) (5 ∷ [])).buffer
        []
        (0 ∷ 0 ∷ 0 ∷ 0 ∷ 1 ∷ 0 ∷ 0 ∷ 0 ∷ [])
        (add 16 one_added (97 ∷ 98 ∷ 99 ∷ []) (5 ∷ [])).last_key
        (parse_next_key at_second).1
parse_next_key-add_example =
    parse_next_key-add 16 one_added (97 ∷ 98 ∷ 99 ∷ []) (5 ∷ []) []
      (0 ∷ 0 ∷ 0 ∷ 0 ∷ 1 ∷ 0 ∷ 0 ∷ 0 ∷ []) at_second (omega arith) (omega arith) at_second-IsBehind

-- A file that is the list of its bytes, no filter, the sum of the bytes for the CRC, and a
-- compression that knows a run of forty zeros.
abbrev pub memory_file : WritableFile (List ℕ)
memory_file = record { append = λ f s. (ok, f ++ s); flush = λ f. (ok, f) }

abbrev no_filter : FilterBuilder (List ℕ)
no_filter = record { add_key = λ b key. b; start_block = λ b n. b; finish = λ b. b }

abbrev pub weigh : ℕ → List ℕ → ℕ
weigh sum [] = sum
weigh sum (b ∷ bs) = weigh ((sum + b) % 2 ^ 32) bs

pub weigh-append : (sum : ℕ) (a b : List ℕ) → weigh (weigh sum a) b ≡ weigh sum (a ++ b)
weigh-append sum [] b = refl
weigh-append sum (x ∷ a) b = weigh-append ((sum + x) % 2 ^ 32) a b

pub weigh-IsU32 : (sum : ℕ) (a : List ℕ) → IsU32 sum → IsU32 (weigh sum a)
weigh-IsU32 sum [] h = h
weigh-IsU32 sum (x ∷ a) h = weigh-IsU32 ((sum + x) % 2 ^ 32) a (omega arith)

abbrev pub toy_crc : Crc
toy_crc = record { value = weigh 0; extend = weigh }

abbrev keeping : Snappy
keeping = record { compress = λ a. some a; uncompressed = λ a. some a }

memory_file-Relies : Relies memory_file (λ f. f) toy_crc keeping
memory_file-Relies = record {
  append_adds = λ f s e. refl;
  extend_value = λ a b. weigh-append 0 a b;
  value_fits = λ a. weigh-IsU32 0 a (omega arith);
  uncompress_compress = λ a b e. ap some (injected a b e);
}
  where
    injected : (a b : List ℕ) → some a ≡ some b → b ≡ a
    injected a b e = cc

abbrev toy_options : Options
toy_options = record {
  comparator = bytewise;
  block_size = 4096;
  block_restart_interval = 16;
  snappy = true;
  filter_name = [];
}

abbrev fresh_rep : Rep (List ℕ) (List ℕ)
fresh_rep = record {
  file = 9 ∷ [];
  offset = 1;
  status = ok;
  data_block = new_block_builder;
  index_block = new_block_builder;
  last_key = [];
  num_entries = 0;
  closed = false;
  filter_block = none;
  pending_index_entry = false;
  pending_handle = new_block_handle;
}

small_enough : 1 + length (choose keeping true (Block.finish one_added).buffer).0 + 5 < 2 ^ 64
unfolding add Block.finish put_fixed32 put_varint32
small_enough = omega arith

written_ok :
    status_ok
      (write_block memory_file no_filter toy_crc keeping toy_options one_added fresh_rep).1.1.status
    ≡ true
unfolding write_block
written_ok = refl

write_block-read_block_example :
    let written =
      write_block memory_file no_filter toy_crc keeping toy_options one_added fresh_rep in
    (read_block (weigh 0) keeping (read_of (written.1.1.file ++ (3 ∷ []))) true written.1.0
      ≡ (ok, (Block.finish one_added).buffer))
    × (length written.1.1.file ≡ written.1.1.offset)
write_block-read_block_example =
    write_block-read_block memory_file no_filter toy_crc keeping toy_options (λ f. f)
      memory_file-Relies one_added fresh_rep true (3 ∷ []) refl small_enough written_ok
