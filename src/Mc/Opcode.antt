-- ===== src/Mc/Opcode.antt =====
-- The opcodes of `bpf2llvm::lift`, in the groups of its switch (src/lifter/bpf2llvm.cpp).

-- 64-bit ALU; `_rr` has a register and `_ri` an immediate as second source.
pub data Alu64 : Type 0 where
  add_rr add_ri sub_rr sub_ri mul_rr mul_ri and_rr and_ri or_rr or_ri xor_rr xor_ri : Alu64
  sll_rr sll_ri srl_rr srl_ri sra_rr sra_ri : Alu64
  div_rr div_ri mod_rr mod_ri sdiv_rr sdiv_ri smod_rr smod_ri neg_64 : Alu64

-- 32-bit ALU.
pub data Alu32 : Type 0 where
  add_rr_32 add_ri_32 sub_rr_32 sub_ri_32 mul_rr_32 mul_ri_32 : Alu32
  and_rr_32 and_ri_32 or_rr_32 or_ri_32 xor_rr_32 xor_ri_32 : Alu32
  sll_rr_32 sll_ri_32 srl_rr_32 srl_ri_32 sra_rr_32 sra_ri_32 : Alu32
  div_rr_32 div_ri_32 mod_rr_32 mod_ri_32 sdiv_rr_32 sdiv_ri_32 smod_rr_32 smod_ri_32 : Alu32
  neg_32 : Alu32

pub data Move : Type 0 where
  mov_rr mov_ri mov_rr_32 mov_ri_32 mov_32_64 : Move
  movsx_rr_8 movsx_rr_16 movsx_rr_32 movsx_rr_32_8 movsx_rr_32_16 ld_imm64 : Move

pub data Endian : Type 0 where
  be16 be32 be64 le16 le32 le64 bswap16 bswap32 bswap64 : Endian

pub data Memory : Type 0 where
  ldd ldw ldh ldb ldwsx ldhsx ldbsx ldw32 ldh32 ldb32 : Memory
  std stw sth stb stw32 sth32 stb32 std_imm stw_imm sth_imm stb_imm : Memory

pub data Jump : Type 0 where
  jmp jmpl : Jump
  jeq_rr jeq_ri jne_rr jne_ri jugt_rr jugt_ri juge_rr juge_ri jult_rr jult_ri jule_rr jule_ri : Jump
  jsgt_rr jsgt_ri jsge_rr jsge_ri jslt_rr jslt_ri jsle_rr jsle_ri : Jump
  jeq_rr_32 jeq_ri_32 jne_rr_32 jne_ri_32 jugt_rr_32 jugt_ri_32 juge_rr_32 juge_ri_32 : Jump
  jult_rr_32 jult_ri_32 jule_rr_32 jule_ri_32 jsgt_rr_32 jsgt_ri_32 jsge_rr_32 jsge_ri_32 : Jump
  jslt_rr_32 jslt_ri_32 jsle_rr_32 jsle_ri_32 jset_rr jset_ri jset_rr_32 jset_ri_32 : Jump

pub data Atomic : Type 0 where
  xaddw xaddw32 xaddd xandw32 xandd xorw32 xord xxorw32 xxord : Atomic
  xfaddw32 xfaddd xfandw32 xfandd xforw32 xford xfxorw32 xfxord xchgw32 xchgd : Atomic

-- `unsupported` stands for every opcode that the switch does not name.
pub data Opcode : Type 0 where
  nop jal ret cmpxchgd cmpxchgw32 unsupported : Opcode
  alu64 : Alu64 → Opcode
  alu32 : Alu32 → Opcode
  move : Move → Opcode
  endian : Endian → Opcode
  memory : Memory → Opcode
  jump : Jump → Opcode
  atomic : Atomic → Opcode
