-- ===== src/Arch/Mp.antt =====
-- kernel/src/arch/x64/mp_table.rs: finding the timer's interrupt in the table of the MultiProcessor specification. The
-- address of the table has 32 bits and each entry at most 20 bytes, so that no address overflows.
pub mod Expected
pub mod Format
pub mod Found
use ftl.Base.{
  ℕ, zero, suc, ◌+◌, ◌==◌, ltb, if◌then◌else◌, ◌&&◌, Bool, true, false, Option, none, some, List,
  [], ◌∷◌, Exec, done, panic, ◌>>=◌, ◌>>◌, assert, unwrap,
}
use ftl.Base.Ram.{Ram, load}
use ftl.Base.Held.{word}
use ftl.Arch.Direct.{paddr2vaddr}

pub record MpPointerTable : Type 0 where
  pub signature : List ℕ
  pub physical_addr_pointer : ℕ
  pub length_of : ℕ
  pub spec_rev : ℕ
  pub checksum : ℕ
  pub mp_feature_bytes : List ℕ

pub record MpConfigTable : Type 0 where
  pub signature : List ℕ
  pub length_of : ℕ
  pub spec_rev : ℕ
  pub checksum : ℕ
  pub oem_id : List ℕ
  pub product_id : List ℕ
  pub oem_table_pointer : ℕ
  pub oem_table_size : ℕ
  pub entry_count : ℕ
  pub local_apic_pointer : ℕ
  pub extended_table_length : ℕ
  pub extended_table_checksum : ℕ
  pub reserved : ℕ

pub record ProcessorEntry : Type 0 where
  pub local_apic_id : ℕ
  pub local_apic_version : ℕ
  pub cpu_flags : ℕ
  pub cpu_signature : ℕ
  pub feature_flags : ℕ
  pub reserved : List ℕ

pub record BusEntry : Type 0 where
  pub bus_id : ℕ
  pub bus_string : List ℕ

pub record IoApicEntry : Type 0 where
  pub io_apic_id : ℕ
  pub io_apic_version : ℕ
  pub io_apic_flags : ℕ
  pub io_apic_address : ℕ

pub record IoInterruptAssignmentEntry : Type 0 where
  pub interrupt_type : ℕ
  pub flag : ℕ
  pub source_bus_id : ℕ
  pub source_bus_irq : ℕ
  pub dest_io_apic_id : ℕ
  pub dest_io_apic_intin : ℕ

-- The first field of each structure, the type of the entry, is left out.
pub data MpTableEntry : Type 0 where
  processor : ProcessorEntry → MpTableEntry
  bus : BusEntry → MpTableEntry
  io_apic : IoApicEntry → MpTableEntry
  io_interrupt_assignment : IoInterruptAssignmentEntry → MpTableEntry
  unknown : MpTableEntry

abbrev pub config_table_size : ℕ
config_table_size = 44

unfoldable pub read_pointer_table : Ram → ℕ → MpPointerTable
read_pointer_table ram at = record {
  signature = load ram at 4;
  physical_addr_pointer = word ram (at + 4) 4;
  length_of = ram (at + 8);
  spec_rev = ram (at + 9);
  checksum = ram (at + 10);
  mp_feature_bytes = load ram (at + 11) 5;
}

unfoldable pub read_config_table : Ram → ℕ → MpConfigTable
read_config_table ram at = record {
  signature = load ram at 4;
  length_of = word ram (at + 4) 2;
  spec_rev = ram (at + 6);
  checksum = ram (at + 7);
  oem_id = load ram (at + 8) 8;
  product_id = load ram (at + 16) 12;
  oem_table_pointer = word ram (at + 28) 4;
  oem_table_size = word ram (at + 32) 2;
  entry_count = word ram (at + 34) 2;
  local_apic_pointer = word ram (at + 36) 4;
  extended_table_length = word ram (at + 40) 2;
  extended_table_checksum = ram (at + 42);
  reserved = ram (at + 43);
}

unfoldable pub read_processor : Ram → ℕ → ProcessorEntry
read_processor ram at = record {
  local_apic_id = ram (at + 1);
  local_apic_version = ram (at + 2);
  cpu_flags = ram (at + 3);
  cpu_signature = word ram (at + 4) 4;
  feature_flags = word ram (at + 8) 4;
  reserved = load ram (at + 12) 8;
}

unfoldable pub read_bus : Ram → ℕ → BusEntry
read_bus ram at = record { bus_id = ram (at + 1); bus_string = load ram (at + 2) 6 }

unfoldable pub read_io_apic : Ram → ℕ → IoApicEntry
read_io_apic ram at = record {
  io_apic_id = ram (at + 1);
  io_apic_version = ram (at + 2);
  io_apic_flags = ram (at + 3);
  io_apic_address = word ram (at + 4) 4;
}

unfoldable pub read_assignment : Ram → ℕ → IoInterruptAssignmentEntry
read_assignment ram at = record {
  interrupt_type = ram (at + 1);
  flag = word ram (at + 2) 2;
  source_bus_id = ram (at + 4);
  source_bus_irq = ram (at + 5);
  dest_io_apic_id = ram (at + 6);
  dest_io_apic_intin = ram (at + 7);
}

-- `magic == b"_MP_"`
unfoldable pub is_signature : List ℕ → Bool
is_signature (a ∷ b ∷ c ∷ d ∷ []) = a == b'_' && b == b'M' && c == b'P' && d == b'_'
is_signature _ = false

-- The search through `n` places, four bytes apart.
unfoldable pub find_from : Ram → ℕ → ℕ → Option ℕ
find_from ram zero paddr = none
find_from ram (suc n) paddr =
    let rest = find_from ram n (paddr + 4) in
    if is_signature (load ram (paddr2vaddr paddr) 4) then some paddr else rest

-- The physical address of the floating pointer table: in 0x80000..0x81000, or in 0xf0000..0x100000.
unfoldable pub find_mpfp_table : Ram → Option ℕ
find_mpfp_table ram = elim (find_from ram 0x400 0x80000) [
  | some paddr ↦ some paddr
  | none ↦ find_from ram 0x4000 0xf0000
]

unfoldable pub entry_size : ℕ → ℕ
entry_size entry_type = if entry_type == 0 then 20 else 8

-- The match on the type of the entry.
unfoldable pub read_entry : Ram → ℕ → MpTableEntry
read_entry ram at =
    if ram at == 0
    then processor (read_processor ram at)
    else if ram at == 1
    then bus (read_bus ram at)
    else if ram at == 2
    then io_apic (read_io_apic ram at)
    else if ram at == 3
    then io_interrupt_assignment (read_assignment ram at)
    else unknown

pub record MpTableIter : Type 0 where
  pub mp_config : MpConfigTable
  pub index : ℕ
  pub entry_addr : ℕ

-- `MpTableIter::new`
unfoldable pub new : Ram → MpPointerTable → MpTableIter
new ram mp_table = record {
  mp_config = read_config_table ram (paddr2vaddr mp_table.physical_addr_pointer);
  index = 0;
  entry_addr = mp_table.physical_addr_pointer + config_table_size;
}

-- `next`: the entry, and the iterator behind it. At the end the iterator stays as it is.
unfoldable pub next : Ram → MpTableIter → Option (MpTableEntry × MpTableIter)
next ram iter = elim (ltb iter.index iter.mp_config.entry_count) [
  | false ↦ none
  | true ↦ some (
    read_entry ram (paddr2vaddr iter.entry_addr),
    record iter {
      index = iter.index + 1;
      entry_addr = iter.entry_addr + entry_size (ram (paddr2vaddr iter.entry_addr));
    },
  )
]

-- What a loop over the iterator sees, in at most `rounds` rounds.
unfoldable pub collect : ℕ → Ram → MpTableIter → List MpTableEntry
collect zero ram iter = []
collect (suc rounds) ram iter = elim (next ram iter) [
  | none ↦ []
  | some step ↦ step.0 ∷ collect rounds ram step.1
]

-- `entry.bus_string.as_slice() == b"ISA   "`
unfoldable pub is_isa : List ℕ → Bool
is_isa (a ∷ b ∷ c ∷ d ∷ e ∷ f ∷ []) =
    a == b'I' && b == b'S' && c == b'A' && d == b' ' && e == b' ' && f == b' '
is_isa _ = false

-- The loop that finds the ISA bus and the I/O APIC; more than one of either is a panic.
unfoldable pub find_devices :
    List MpTableEntry
    → Option BusEntry
    → Option IoApicEntry
    → Exec (Option BusEntry × Option IoApicEntry)
find_devices [] isa_bus ioapic = done (isa_bus, ioapic)
find_devices (bus e ∷ es) isa_bus ioapic =
    if is_isa e.bus_string
    then (elim isa_bus [ none ↦ find_devices es (some e) ioapic | some _ ↦ panic ])
    else find_devices es isa_bus ioapic
find_devices (io_apic e ∷ es) isa_bus ioapic = elim ioapic [
  | none ↦ find_devices es isa_bus (some e)
  | some _ ↦ panic
]
find_devices (processor e ∷ es) isa_bus ioapic = find_devices es isa_bus ioapic
find_devices (io_interrupt_assignment e ∷ es) isa_bus ioapic = find_devices es isa_bus ioapic
find_devices (unknown ∷ es) isa_bus ioapic = find_devices es isa_bus ioapic

-- The loop that finds the mapping of the timer.
unfoldable pub find_timer :
    List MpTableEntry
    → ℕ
    → Option IoInterruptAssignmentEntry
    → Exec (Option IoInterruptAssignmentEntry)
find_timer [] bus_id mapping = done mapping
find_timer (io_interrupt_assignment e ∷ es) bus_id mapping =
    if e.source_bus_id == bus_id && e.source_bus_irq == 0
    then (elim mapping [ none ↦ find_timer es bus_id (some e) | some _ ↦ panic ])
    else find_timer es bus_id mapping
find_timer (processor e ∷ es) bus_id mapping = find_timer es bus_id mapping
find_timer (bus e ∷ es) bus_id mapping = find_timer es bus_id mapping
find_timer (io_apic e ∷ es) bus_id mapping = find_timer es bus_id mapping
find_timer (unknown ∷ es) bus_id mapping = find_timer es bus_id mapping

-- `init`, up to the I/O APIC: its address, and the pin of the timer.
unfoldable pub locate_timer : List MpTableEntry → Exec (ℕ × ℕ)
locate_timer entries = do
  (isa_bus, ioapic) ← find_devices entries none none
  isa_bus' ← unwrap isa_bus
  ioapic' ← unwrap ioapic
  mapping ← find_timer entries isa_bus'.bus_id none
  mapping' ← unwrap mapping
  assert (mapping'.dest_io_apic_id == ioapic'.io_apic_id)
  done (ioapic'.io_apic_address, mapping'.dest_io_apic_intin)

unfoldable pub init : Ram → Exec (ℕ × ℕ)
init ram = do
  mp_table ← unwrap (find_mpfp_table ram)
  let iter = new ram (read_pointer_table ram (paddr2vaddr mp_table))
  locate_timer (collect iter.mp_config.entry_count ram iter)
