-- ===== src/Tests/Timer.antt =====
-- The table of the MultiProcessor specification on a small memory.
use ftl.Base.{ℕ, ◌+◌, ◌≡◌, refl, arith, true, some, List, [], ◌∷◌, done, All}
use ftl.Base.Bytes.{to_le_bytes}
use ftl.Base.Ram.{Ram, store, load}
use ftl.Base.Held.{holds, holds-Holds}
use ftl.Arch.Direct.{kernel_base, paddr2vaddr}
use ftl.Arch.Mp.{
  MpPointerTable, MpConfigTable, MpTableEntry, processor, bus, io_apic, io_interrupt_assignment,
  find_mpfp_table, find_from, is_signature, is_isa, init,
}
use ftl.Arch.Mp.Format.{IsEntry, write_entries, write_entry}
use ftl.Arch.Mp.Found.{write_pointer, write_config, write_table, init-write_table}
use ftl.Arch.Mp.Expected.{isa_buses, io_apics, timers, pin_of, expected_pin}

abbrev text : List ℕ
text = b'_' ∷ b'M' ∷ b'P' ∷ b'_' ∷ []

abbrev pointer_table : MpPointerTable
pointer_table = record {
  signature = text;
  physical_addr_pointer = 0x90000;
  length_of = 1;
  spec_rev = 4;
  checksum = 0;
  mp_feature_bytes = 0 ∷ 0 ∷ 0 ∷ 0 ∷ 0 ∷ [];
}

abbrev config : MpConfigTable
config = record {
  signature = b'P' ∷ b'C' ∷ b'M' ∷ b'P' ∷ [];
  length_of = 104;
  spec_rev = 4;
  checksum = 0;
  oem_id = 0 ∷ 0 ∷ 0 ∷ 0 ∷ 0 ∷ 0 ∷ 0 ∷ 0 ∷ [];
  product_id = 0 ∷ 0 ∷ 0 ∷ 0 ∷ 0 ∷ 0 ∷ 0 ∷ 0 ∷ 0 ∷ 0 ∷ 0 ∷ 0 ∷ [];
  oem_table_pointer = 0;
  oem_table_size = 0;
  entry_count = 6;
  local_apic_pointer = 0xfee00000;
  extended_table_length = 0;
  extended_table_checksum = 0;
  reserved = 0;
}

abbrev assignment : ℕ → ℕ → MpTableEntry
assignment irq pin = io_interrupt_assignment (record {
  interrupt_type = 0;
  flag = 0;
  source_bus_id = 1;
  source_bus_irq = irq;
  dest_io_apic_id = 2;
  dest_io_apic_intin = pin;
})

abbrev entries : List MpTableEntry
entries =
    processor (record {
      local_apic_id = 0;
      local_apic_version = 20;
      cpu_flags = 3;
      cpu_signature = 0;
      feature_flags = 0;
      reserved = 0 ∷ 0 ∷ 0 ∷ 0 ∷ 0 ∷ 0 ∷ 0 ∷ 0 ∷ [];
    })
    ∷ bus (record { bus_id = 0; bus_string = b'P' ∷ b'C' ∷ b'I' ∷ b' ' ∷ b' ' ∷ b' ' ∷ [] })
    ∷ bus (record { bus_id = 1; bus_string = b'I' ∷ b'S' ∷ b'A' ∷ b' ' ∷ b' ' ∷ b' ' ∷ [] })
    ∷ io_apic (record {
      io_apic_id = 2;
      io_apic_version = 32;
      io_apic_flags = 1;
      io_apic_address = 0xfec00000;
    })
    ∷ assignment 1 1
    ∷ assignment 0 2
    ∷ []

abbrev memory : Ram
memory =
    store (store (λ _. 0) (kernel_base + 0x80000) (write_pointer pointer_table))
      (kernel_base + 0x90000) (write_table config entries)

pointer_held : holds memory (paddr2vaddr 0x80000) (write_pointer pointer_table) ≡ true
unfolding holds store write_pointer write_config write_entries write_entry to_le_bytes paddr2vaddr
pointer_held = refl

table_held : holds memory (paddr2vaddr 0x90000) (write_table config entries) ≡ true
unfolding holds store write_pointer write_config write_entries write_entry to_le_bytes paddr2vaddr
table_held = refl

found : find_mpfp_table memory ≡ some 0x80000
unfolding find_mpfp_table find_from is_signature load store write_pointer write_config write_entries
    write_entry to_le_bytes paddr2vaddr
found = refl

entries_fit : All IsEntry entries
entries_fit = (
  (omega arith, omega arith, refl),
  (refl, (refl, (omega arith, (omega arith, (omega arith, tt))))),
)

pin :
    expected_pin (isa_buses entries) (io_apics entries) (λ bus_id. timers bus_id entries)
    ≡ done (0xfec00000, 2)
unfolding expected_pin isa_buses io_apics timers is_isa pin_of
pin = refl

init-write_table_example :
    init memory
    ≡ expected_pin (isa_buses entries) (io_apics entries) (λ bus_id. timers bus_id entries)
init-write_table_example =
    init-write_table memory 0x80000 pointer_table config entries found refl (omega arith)
      (holds-Holds memory (paddr2vaddr 0x80000) (write_pointer pointer_table) pointer_held)
      (refl, refl, refl, omega arith) entries_fit refl
      (holds-Holds memory (paddr2vaddr 0x90000) (write_table config entries) table_held)
