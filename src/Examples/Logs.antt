-- ===== src/Examples/Logs.antt =====
-- A log of three records in a file that is the list of its bytes.
use e_lsm_p.Base.{ℕ, ◌<◌, ◌≡◌, refl, List, [], ◌∷◌, length, take, drop, some, arith}
use e_lsm_p.Status.{ok}
use e_lsm_p.Log.{Writer, new_writer}
use e_lsm_p.Log.Reader.{SequentialFile, new_reader}
use e_lsm_p.Log.Fragments.{IsWritable}
use e_lsm_p.Log.Physical.{IsReadable}
use e_lsm_p.Log.Parts.{IsCrc}
use e_lsm_p.Log.Replay.{write_all, read_all, read_all-write_all}
use e_lsm_p.Examples.Tables.{memory_file, toy_crc, weigh-append, weigh-IsU32}

abbrev memory_input : SequentialFile (List ℕ)
memory_input = record { read = λ n f. (ok, take n f, drop n f); skip = λ n f. (ok, drop n f) }

memory_file-IsWritable : IsWritable memory_file (λ f. f)
memory_file-IsWritable = record { appends = λ f s. (_, refl, refl); flushes = λ f. (_, refl, refl) }

memory_input-IsReadable : IsReadable memory_input (λ f. f)
memory_input-IsReadable = record { reads = λ n f. (_, refl, refl) }

toy_crc-IsCrc : IsCrc toy_crc
toy_crc-IsCrc = record {
  extend_value = λ a b. weigh-append 0 a b;
  value_fits = λ a. weigh-IsU32 0 a (omega arith);
}

abbrev three_records : List (List ℕ)
three_records = (1 ∷ 2 ∷ 3 ∷ []) ∷ [] ∷ (255 ∷ []) ∷ []

read_all-write_all_example :
    (w' : Writer (List ℕ)) × (write_all memory_file toy_crc three_records
        (new_writer memory_file toy_crc [] 0)
      ≡ some w')
    × ((g : List ℕ) (rounds : ℕ)
        → g ≡ w'.dest
        → length w'.dest < rounds
        → read_all memory_input toy_crc (λ n. n ∷ []) 4 rounds (new_reader 0 g)
          ≡ some three_records)
read_all-write_all_example =
    read_all-write_all memory_file (λ f. f) memory_file-IsWritable memory_input (λ f. f)
      memory_input-IsReadable toy_crc toy_crc-IsCrc (λ n. n ∷ []) three_records [] refl
