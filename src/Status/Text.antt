-- ===== src/Status/Text.antt =====
-- An error keeps its code and its text.
use e_lsm_p.Base.{
  ℕ, suc, ◌+◌, ◌%◌, ◌^◌, ◌≡◌, refl, ap, false, some, List, [], ◌∷◌, ◌++◌, length, take, ◌==◌, arith,
  append-nil, length-append,
}
use e_lsm_p.Coding.Fixed.{IsU32, memory_bytes, memory_value}
use e_lsm_p.Status.{
  Code, not_found_code, corruption_code, io_error_code, new_status, status_ok, status_code,
  to_string, bytes, code_value, is_ok, not_supported_code, invalid_argument_code, type_text,
  text_or,
}

take-whole : (xs : List ℕ) → take (length xs) xs ≡ xs
take-whole [] = refl
take-whole (x ∷ xs) = ap (λ (t : List ℕ). x ∷ t) (take-whole xs)

-- The text of an error: its message, and the second one behind a colon where there is one.
abbrev pub joined : List ℕ → List ℕ → List ℕ
joined msg [] = msg
joined msg (b ∷ msg2) = msg ++ (bytes ": " ++ (b ∷ msg2))

small : (n : ℕ) → IsU32 n → n % 2 ^ 32 ≡ n
small n h = omega arith

pub state_text :
    (c : Code) (msg msg2 : List ℕ)
    → IsU32 (length msg + (2 + length msg2))
    → new_status c msg msg2
      ≡ some (memory_bytes 4 (length (joined msg msg2)) ++ (code_value c ∷ joined msg msg2))
unfolding new_status
state_text c msg [] h =
    let size : (length msg + 0) % 2 ^ 32 ≡ length msg = omega arith in
    rw (small (length msg) (omega arith), size, take-whole msg, append-nil msg)
state_text c msg (b ∷ msg2) h =
    let some_more : (suc (length msg2) == 0) ≡ false = ground arith in
    let size : (length msg + (2 + suc (length msg2))) % 2 ^ 32 ≡ length (joined msg (b ∷ msg2)) =
      omega (arith, length-append msg (bytes ": " ++ (b ∷ msg2))) in
    rw (
      small (length msg) (omega arith),
      small (suc (length msg2)) (omega arith),
      some_more,
      size,
      take-whole msg,
      take-whole msg2,
    )

-- What ToString writes in front of the message.
abbrev pub code_text : Code → List ℕ
code_text is_ok = bytes "OK"
code_text not_found_code = bytes "NotFound: "
code_text corruption_code = bytes "Corruption: "
code_text not_supported_code = bytes "Not implemented: "
code_text invalid_argument_code = bytes "Invalid argument: "
code_text io_error_code = bytes "IO error: "

text_of_code :
    (unknown : List ℕ) (c : Code) → text_or unknown (type_text (code_value c)) ≡ code_text c
text_of_code unknown is_ok = refl
text_of_code unknown not_found_code = refl
text_of_code unknown corruption_code = refl
text_of_code unknown not_supported_code = refl
text_of_code unknown invalid_argument_code = refl
text_of_code unknown io_error_code = refl

stored_length : (n : ℕ) (rest : List ℕ) → IsU32 n → memory_value 4 (memory_bytes 4 n ++ rest) ≡ n
stored_length n rest h = omega arith

-- An error whose messages fit 32 bits is not ok, keeps its code, and prints as the name of the code
-- followed by the messages.
pub new_status_text :
    (print_code : ℕ → List ℕ) (c : Code) (msg msg2 : List ℕ)
    → IsU32 (length msg + (2 + length msg2))
    → (status_ok (new_status c msg msg2) ≡ false)
      × (status_code (new_status c msg msg2) ≡ code_value c)
      × (to_string print_code (new_status c msg msg2) ≡ code_text c ++ joined msg msg2)
new_status_text print_code c msg msg2 h =
    let text = joined msg msg2 in
    rw (state_text c msg msg2 h) (
      refl,
      (unfold status_code in refl),
      (unfold to_string in
          rw (
            text_of_code (print_code (code_value c)) c,
            stored_length (length text) (code_value c ∷ text) (joined_fits msg msg2 h),
            take-whole text,
          )),
    )
  where
    joined_fits :
        (msg msg2 : List ℕ)
        → IsU32 (length msg + (2 + length msg2))
        → IsU32 (length (joined msg msg2))
    joined_fits msg [] h = omega arith
    joined_fits msg (b ∷ msg2) h = omega (arith, length-append msg (bytes ": " ++ (b ∷ msg2)))
