-- ===== src/Plugin.antt =====
-- The conformance plugin reads a program in hexadecimal (src/conformance/plugin.cpp).
pub mod RoundTrip
use bpf_tv.Common.{
  ℕ, ◌+◌, ◌-◌, ◌*◌, ◌%◌, leb, ◌==◌, ◌&&◌, ◌||◌, not, if◌then◌else◌, Bool, true, false, Option, none,
  some, List, [], ◌∷◌, ◌++◌, Result, ok, err, message, length,
}
use bpf_tv.Mc.Block.{McBasicBlock}
use bpf_tv.Streamer.{McInstrAnalysis}
use bpf_tv.Bytes.{Disassembler, run_bytes}

-- The value of a hexadecimal digit, by its character code; `isxdigit` accepts those that have one.
unfoldable pub hex_value : ℕ → Option ℕ
hex_value c =
    if leb 48 c && leb c 57
    then some (c - 48)
    else if leb 65 c && leb c 70
    then some (c - 55)
    else if leb 97 c && leb c 102
    then some (c - 87)
    else none

abbrev pub push_digit : Option ℕ → List ℕ → List ℕ
push_digit none ds = ds
push_digit (some d) ds = d ∷ ds

-- The digits of `clean`.
unfoldable pub clean_digits : List ℕ → List ℕ
unfolding hex_value
clean_digits [] = []
clean_digits (c ∷ cs) = push_digit (hex_value c) (clean_digits cs)

-- Two digits make a byte; a last one that is left is a byte too.
unfoldable pub bytes_of_digits : List ℕ → List ℕ
bytes_of_digits [] = []
bytes_of_digits (d ∷ []) = d ∷ []
bytes_of_digits (d ∷ e ∷ ds) = (d * 16 + e) ∷ bytes_of_digits ds

unfoldable pub parse_hex : List ℕ → List ℕ
unfolding clean_digits bytes_of_digits
parse_hex cs = bytes_of_digits (clean_digits cs)

-- The lines of the standard input, without line ends.
abbrev pub join_lines : List (List ℕ) → List ℕ
join_lines [] = []
join_lines (l ∷ ls) = l ++ join_lines ls

-- `main` up to the code that is lifted.
unfoldable pub lift_input :
    Disassembler → McInstrAnalysis → List (List ℕ) → Result (List McBasicBlock)
unfolding parse_hex run_bytes
lift_input d ia lines =
    let prog = parse_hex (join_lines lines) in
    if (length prog == 0) || not (length prog % 8 == 0)
    then err (message "invalid program size")
    else run_bytes d ia prog
