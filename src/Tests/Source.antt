-- ===== src/Tests/Source.antt =====
-- The theorems on frame slots, on the checks of the source and on hexadecimal input, applied.
use bpf_tv.Common.{ℕ, true, false, none, some, List, [], ◌∷◌, ok, err, fault, All, ◌≡◌, refl, arith}
use mathlib.Core.List.{Perm}
use bpf_tv.Words.{pos, negsuc, ltb_ℤ, add_ℤ}
use bpf_tv.Backend.{FrameObject, StackSlot, slot_of_size, slot_of, collect, read_slots}
use bpf_tv.Backend.Disjoint.{InFrame, Below, Apart, Pairwise, read_slots-Disjoint}
use bpf_tv.Backend.Complete.{read_slots-Perm}
use bpf_tv.Support.{IrType, CallConv, InstKind, SourceFunction}
use bpf_tv.Support.Adjust.{ReturnStep, adjust_src, check_return, widened}
use bpf_tv.Lifter.State.{Lifter}
use bpf_tv.Mc.Opcode.{Opcode}
use bpf_tv.Mc.Inst.{mc_inst}
use bpf_tv.Plugin.{hex_value, parse_hex}
use bpf_tv.Plugin.RoundTrip.{print_hex, parse_hex-print_hex}

-- Two slots of 8 bytes side by side, and a spill slot without an alloca.
abbrev objects : List FrameObject
objects =
    record {
      is_dead = false;
      allocation = some (some 4);
      size = pos 8;
      offset = negsuc 7;
      align = 8;
    }
    ∷ record {
      is_dead = false;
      allocation = some (some 3);
      size = pos 8;
      offset = negsuc 15;
      align = 8;
    }
    ∷ record { is_dead = false; allocation = none; size = pos 8; offset = negsuc 23; align = 8 }
    ∷ []

read_slots-Disjoint_example : All InFrame (read_slots objects) × Pairwise Apart (read_slots objects)
read_slots-Disjoint_example = read_slots-Disjoint objects

objects-Apart : Pairwise Apart (collect objects)
unfolding collect slot_of slot_of_size ltb_ℤ add_ℤ
objects-Apart = (((λ k x y. omega arith), tt), (tt, tt))

read_slots-Perm_example :
    Perm (read_slots objects) (collect objects) × Pairwise Below (read_slots objects)
read_slots-Perm_example = read_slots-Perm objects objects-Apart

abbrev type_size : IrType → ℕ
type_size (IrType.integer w) = w
type_size (IrType.pointer s) = 64
type_size _ = 0

-- A function of a pointer and a 16-bit integer, with two escaping objects and a slot for each.
abbrev source : SourceFunction
source = record {
  conv = CallConv.fast_conv;
  is_available_externally = false;
  has_personality = false;
  args =
      record { type = IrType.pointer 0; is_byval = false; is_sext = false; is_zext = true }
      ∷ record { type = IrType.integer 16; is_byval = false; is_sext = false; is_zext = true }
      ∷ [];
  ret_type = IrType.integer 8;
  ret_sext = true;
  ret_zext = false;
  insts =
      record {
        type = IrType.pointer 0;
        operands = IrType.integer 32 ∷ [];
        is_volatile = false;
        is_atomic = false;
        is_asm = false;
        kind = InstKind.alloca true (some 8);
      }
      ∷ [];
  rets = some (IrType.integer 8) ∷ some (IrType.integer 8) ∷ [];
  transfers = [];
  escaped = some 3 ∷ some 4 ∷ [];
}

abbrev slots : List StackSlot
slots =
    record { offset = negsuc 15; size = 8; align = 8; line = 3 }
    ∷ record { offset = negsuc 7; size = 8; align = 8; line = 4 }
    ∷ []

abbrev empty_function : Lifter
empty_function = record {
  bb = 0;
  count = 1;
  names = λ b. "";
  blocks = λ b. [];
  next = 0;
  reg_file = λ n. none;
  unspecified_off = 0;
  cur_inst = mc_inst Opcode.nop [] none;
  succs = [];
}

-- A `void` function with an extension attribute: the missing value is used.
void_faults :
    adjust_src type_size (record source { ret_type = IrType.void_ty; rets = none ∷ [] }) ≡ err fault
unfolding adjust_src check_return widened
void_faults = refl

source_is_widened :
    adjust_src type_size source
    ≡ ok (record {
      orig_ret_width = 8;
      has_ret_attr = true;
      actual_ret_type = IrType.integer 64;
      steps = ReturnStep.sext_to 32 ∷ ReturnStep.zext_to 64 ∷ [];
      rets = some (IrType.integer 64) ∷ some (IrType.integer 64) ∷ [];
    })
unfolding adjust_src check_return widened
source_is_widened = refl

-- Bytes with a space and a line end after each.
space-IsOther : All (λ c. hex_value c ≡ none) (32 ∷ 10 ∷ [])
unfolding hex_value
space-IsOther = (refl, (refl, tt))

parse_hex-print_hex_example :
    parse_hex (print_hex (32 ∷ 10 ∷ []) (183 ∷ 5 ∷ 255 ∷ [])) ≡ 183 ∷ 5 ∷ 255 ∷ []
parse_hex-print_hex_example =
    parse_hex-print_hex (32 ∷ 10 ∷ []) (183 ∷ 5 ∷ 255 ∷ []) space-IsOther
      (omega arith, (omega arith, (omega arith, tt)))
