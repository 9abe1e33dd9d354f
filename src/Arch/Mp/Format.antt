-- ===== src/Arch/Mp/Format.antt =====
-- Tables of the MultiProcessor specification in memory, and what kernel/src/arch/x64/mp_table.rs reads of them.
use ftl.Base.{
  ℕ, suc, ◌+◌, ◌*◌, ◌^◌, ◌<◌, ◌≤◌, ◌≡◌, refl, ap, ap₂, sym, subst, ◌∙◌, arith, ltb, ◌==◌, true,
  false, some, List, [], ◌∷◌, ◌++◌, length, length-append, All,
}
use ftl.Base.Bytes.{to_le_bytes, length-to_le_bytes}
use ftl.Base.Ram.{Ram, load}
use ftl.Base.Held.{word, Holds, Holds-append, load-Holds, word-Holds}
use ftl.Arch.Direct.{paddr2vaddr}
use ftl.Arch.Boot.{HoldsAt, HoldsAt-append}
use ftl.Arch.Mp.{
  MpTableEntry, MpTableIter, ProcessorEntry, BusEntry, IoApicEntry, IoInterruptAssignmentEntry,
  processor, bus, io_apic, io_interrupt_assignment, unknown, read_processor, read_bus, read_io_apic,
  read_assignment, entry_size, read_entry, next, collect,
}

-- An entry in memory. One of an unknown type has eight bytes.
unfoldable pub write_entry : MpTableEntry → List ℕ
write_entry (processor e) =
    0
    ∷ e.local_apic_id
    ∷ e.local_apic_version
    ∷ e.cpu_flags
    ∷ (to_le_bytes 4 e.cpu_signature ++ (to_le_bytes 4 e.feature_flags ++ e.reserved))
write_entry (bus e) = 1 ∷ e.bus_id ∷ e.bus_string
write_entry (io_apic e) =
    2 ∷ e.io_apic_id ∷ e.io_apic_version ∷ e.io_apic_flags ∷ to_le_bytes 4 e.io_apic_address
write_entry (io_interrupt_assignment e) =
    3
    ∷ e.interrupt_type
    ∷ (to_le_bytes 2 e.flag
        ++ (e.source_bus_id ∷ e.source_bus_irq ∷ e.dest_io_apic_id ∷ e.dest_io_apic_intin ∷ []))
write_entry unknown = 4 ∷ 0 ∷ 0 ∷ 0 ∷ 0 ∷ 0 ∷ 0 ∷ 0 ∷ []

-- The numbers fit in their bytes, and the texts have their lengths.
abbrev pub IsEntry : MpTableEntry → Type 0
IsEntry (processor e) =
    (e.cpu_signature < 2 ^ 32) × (e.feature_flags < 2 ^ 32) × (length e.reserved ≡ 8)
IsEntry (bus e) = length e.bus_string ≡ 6
IsEntry (io_apic e) = e.io_apic_address < 2 ^ 32
IsEntry (io_interrupt_assignment e) = e.flag < 2 ^ 16
IsEntry unknown = Unit

unfoldable pub write_entries : List MpTableEntry → List ℕ
write_entries [] = []
write_entries (e ∷ es) = write_entry e ++ write_entries es

abbrev pub type_of : MpTableEntry → ℕ
type_of (processor e) = 0
type_of (bus e) = 1
type_of (io_apic e) = 2
type_of (io_interrupt_assignment e) = 3
type_of unknown = 4

length-write_entry :
    (e : MpTableEntry) → IsEntry e → length (write_entry e) ≡ entry_size (type_of e)
unfolding write_entry entry_size
length-write_entry (processor e) (_, _, h) = omega (
  arith,
  length-append (to_le_bytes 4 e.cpu_signature) (to_le_bytes 4 e.feature_flags ++ e.reserved),
  length-append (to_le_bytes 4 e.feature_flags) e.reserved,
  length-to_le_bytes 4 e.cpu_signature,
  length-to_le_bytes 4 e.feature_flags,
)
length-write_entry (bus e) h = omega arith
length-write_entry (io_apic e) h = omega (arith, length-to_le_bytes 4 e.io_apic_address)
length-write_entry (io_interrupt_assignment e) h = omega (
  arith,
  length-append (to_le_bytes 2 e.flag)
      (e.source_bus_id ∷ e.source_bus_irq ∷ e.dest_io_apic_id ∷ e.dest_io_apic_intin ∷ []),
  length-to_le_bytes 2 e.flag,
)
length-write_entry unknown h = refl

entry_size-at_most : (t : ℕ) → entry_size t ≤ 20
unfolding entry_size
entry_size-at_most t = ground arith

-- An entry has at most twenty bytes.
pub length-write_entries :
    (es : List MpTableEntry) → All IsEntry es → length (write_entries es) ≤ 20 * length es
unfolding write_entries
length-write_entries [] f = omega arith
length-write_entries (e ∷ es) (is, f) = omega (
  arith,
  length-append (write_entry e) (write_entries es),
  length-write_entry e is,
  entry_size-at_most (type_of e),
  length-write_entries es f,
)

first_byte :
    (ram : Ram) (at : ℕ) (e : MpTableEntry) → Holds ram at (write_entry e) → ram at ≡ type_of e
unfolding write_entry
first_byte ram at (processor e) h = h.0
first_byte ram at (bus e) h = h.0
first_byte ram at (io_apic e) h = h.0
first_byte ram at (io_interrupt_assignment e) h = h.0
first_byte ram at unknown h = h.0

-- What stands at a place that is written another way.
byte_there : (ram : Ram) (a b v : ℕ) → a ≡ b → ram a ≡ v → ram b ≡ v
byte_there ram a b v e h = ap ram (sym e) ∙ h

bytes_there :
    (ram : Ram) (a b n : ℕ) (bs : List ℕ)
    → a ≡ b
    → length bs ≡ n
    → Holds ram a bs
    → load ram b n ≡ bs
bytes_there ram a b n bs e l h =
    ap₂ (λ (x y : ℕ). load ram x y) (sym e) (sym l) ∙ load-Holds ram a bs h

pub word_there :
    (ram : Ram) (a b k n : ℕ)
    → a ≡ b
    → n < 256 ^ k
    → Holds ram a (to_le_bytes k n)
    → word ram b k ≡ n
word_there ram a b k n e small h =
    ap (λ (x : ℕ). word ram x k) (sym e) ∙ word-Holds ram a k n h small

module _ (ram : Ram) (at : ℕ) where
  read_processor-Holds :
      (e : ProcessorEntry)
      → Holds ram at (write_entry (processor e))
      → IsEntry (processor e)
      → read_processor ram at ≡ e
  unfolding read_processor write_entry
  read_processor-Holds e (_, (b1, (b2, (b3, rest)))) (small, small', size) =
      let (w, rest') =
        Holds-append ram (at + 1 + 1 + 1 + 1) (to_le_bytes 4 e.cpu_signature)
          (to_le_bytes 4 e.feature_flags ++ e.reserved) rest in
      let l = length-to_le_bytes 4 e.cpu_signature in
      let (w', rest'') =
        Holds-append ram (at + 1 + 1 + 1 + 1 + length (to_le_bytes 4 e.cpu_signature))
          (to_le_bytes 4 e.feature_flags) e.reserved rest' in
      let l' = length-to_le_bytes 4 e.feature_flags in
      λ t. record {
        local_apic_id = b1 t;
        local_apic_version =
            byte_there ram (at + 1 + 1) (at + 2) e.local_apic_version (omega arith) b2 t;
        cpu_flags = byte_there ram (at + 1 + 1 + 1) (at + 3) e.cpu_flags (omega arith) b3 t;
        cpu_signature =
            word_there ram (at + 1 + 1 + 1 + 1) (at + 4) 4 e.cpu_signature (omega arith) small w t;
        feature_flags =
            word_there ram (at + 1 + 1 + 1 + 1 + length (to_le_bytes 4 e.cpu_signature)) (at + 8) 4
              e.feature_flags (omega (arith, l)) small' w' t;
        reserved =
            bytes_there ram
              (at
                + 1
                + 1
                + 1
                + 1
                + length (to_le_bytes 4 e.cpu_signature)
                + length (to_le_bytes 4 e.feature_flags))
              (at + 12) 8 e.reserved (omega (arith, l, l')) size rest'' t;
      }

  read_bus-Holds :
      (e : BusEntry) → Holds ram at (write_entry (bus e)) → IsEntry (bus e) → read_bus ram at ≡ e
  unfolding read_bus write_entry
  read_bus-Holds e (_, (b1, rest)) size = λ t. record {
    bus_id = b1 t;
    bus_string = bytes_there ram (at + 1 + 1) (at + 2) 6 e.bus_string (omega arith) size rest t;
  }

  read_io_apic-Holds :
      (e : IoApicEntry)
      → Holds ram at (write_entry (io_apic e))
      → IsEntry (io_apic e)
      → read_io_apic ram at ≡ e
  unfolding read_io_apic write_entry
  read_io_apic-Holds e (_, (b1, (b2, (b3, rest)))) small = λ t. record {
    io_apic_id = b1 t;
    io_apic_version = byte_there ram (at + 1 + 1) (at + 2) e.io_apic_version (omega arith) b2 t;
    io_apic_flags = byte_there ram (at + 1 + 1 + 1) (at + 3) e.io_apic_flags (omega arith) b3 t;
    io_apic_address =
        word_there ram (at + 1 + 1 + 1 + 1) (at + 4) 4 e.io_apic_address (omega arith) small rest t;
  }

  read_assignment-Holds :
      (e : IoInterruptAssignmentEntry)
      → Holds ram at (write_entry (io_interrupt_assignment e))
      → IsEntry (io_interrupt_assignment e)
      → read_assignment ram at ≡ e
  unfolding read_assignment write_entry
  read_assignment-Holds e (_, (b1, rest)) small =
      let tail : List ℕ =
        e.source_bus_id ∷ e.source_bus_irq ∷ e.dest_io_apic_id ∷ e.dest_io_apic_intin ∷ [] in
      let (w, rest') = Holds-append ram (at + 1 + 1) (to_le_bytes 2 e.flag) tail rest in
      let l = length-to_le_bytes 2 e.flag in
      let (b4, (b5, (b6, (b7, _)))) : Holds ram (at + 4) tail =
        subst (λ (x : ℕ). Holds ram x tail) (omega (arith, l)) rest' in
      λ t. record {
        interrupt_type = b1 t;
        flag = word_there ram (at + 1 + 1) (at + 2) 2 e.flag (omega arith) small w t;
        source_bus_id = b4 t;
        source_bus_irq = byte_there ram (at + 4 + 1) (at + 5) e.source_bus_irq (omega arith) b5 t;
        dest_io_apic_id =
            byte_there ram (at + 4 + 1 + 1) (at + 6) e.dest_io_apic_id (omega arith) b6 t;
        dest_io_apic_intin =
            byte_there ram (at + 4 + 1 + 1 + 1) (at + 7) e.dest_io_apic_intin (omega arith) b7 t;
      }

  read_entry-write_entry :
      (e : MpTableEntry) → Holds ram at (write_entry e) → IsEntry e → read_entry ram at ≡ e
  unfolding read_entry
  read_entry-write_entry (processor e) h f =
      let t = first_byte ram at (processor e) h in
      let is0 : (ram at == 0) ≡ true = ground arith in
      rw (read_entry, is0) (ap processor (read_processor-Holds e h f))
  read_entry-write_entry (bus e) h f =
      let t = first_byte ram at (bus e) h in
      let is0 : (ram at == 0) ≡ false = ground arith in
      let is1 : (ram at == 1) ≡ true = ground arith in
      rw (read_entry, is0, is1) (ap bus (read_bus-Holds e h f))
  read_entry-write_entry (io_apic e) h f =
      let t = first_byte ram at (io_apic e) h in
      let is0 : (ram at == 0) ≡ false = ground arith in
      let is1 : (ram at == 1) ≡ false = ground arith in
      let is2 : (ram at == 2) ≡ true = ground arith in
      rw (read_entry, is0, is1, is2) (ap io_apic (read_io_apic-Holds e h f))
  read_entry-write_entry (io_interrupt_assignment e) h f =
      let t = first_byte ram at (io_interrupt_assignment e) h in
      let is0 : (ram at == 0) ≡ false = ground arith in
      let is1 : (ram at == 1) ≡ false = ground arith in
      let is2 : (ram at == 2) ≡ false = ground arith in
      let is3 : (ram at == 3) ≡ true = ground arith in
      rw (read_entry, is0, is1, is2, is3) (ap io_interrupt_assignment (read_assignment-Holds e h f))
  read_entry-write_entry unknown h f =
      let t = first_byte ram at unknown h in
      let is0 : (ram at == 0) ≡ false = ground arith in
      let is1 : (ram at == 1) ≡ false = ground arith in
      let is2 : (ram at == 2) ≡ false = ground arith in
      let is3 : (ram at == 3) ≡ false = ground arith in rw (read_entry, is0, is1, is2, is3) refl

next-step :
    (ram : Ram) (iter : MpTableIter) (e : MpTableEntry) (size : ℕ)
    → iter.index < iter.mp_config.entry_count
    → read_entry ram (paddr2vaddr iter.entry_addr) ≡ e
    → entry_size (ram (paddr2vaddr iter.entry_addr)) ≡ size
    → next ram iter
      ≡ some (e, record iter { index = iter.index + 1; entry_addr = iter.entry_addr + size })
unfolding next
next-step ram iter e size h r s =
    let more : ltb iter.index iter.mp_config.entry_count ≡ true = ground arith in
    rw (next, more, r, s) refl

collect-step :
    (rounds : ℕ) (ram : Ram) (iter : MpTableIter) (e : MpTableEntry) (size : ℕ)
    → iter.index < iter.mp_config.entry_count
    → read_entry ram (paddr2vaddr iter.entry_addr) ≡ e
    → entry_size (ram (paddr2vaddr iter.entry_addr)) ≡ size
    → collect (suc rounds) ram iter
      ≡ e
        ∷ collect rounds ram
            (record iter { index = iter.index + 1; entry_addr = iter.entry_addr + size })
unfolding collect
collect-step rounds ram iter e size h r s =
    let one = next-step ram iter e size h r s in rw (collect, one) refl

collect-zero : (ram : Ram) (iter : MpTableIter) → collect 0 ram iter ≡ []
unfolding collect
collect-zero ram iter = refl

-- The iterator gives the entries.
pub collect-write_entries :
    (es : List MpTableEntry) (ram : Ram) (iter : MpTableIter)
    → iter.mp_config.entry_count ≡ iter.index + length es
    → iter.entry_addr + length (write_entries es) < 2 ^ 47
    → HoldsAt ram iter.entry_addr (write_entries es)
    → All IsEntry es
    → collect (length es) ram iter ≡ es
unfolding write_entries
collect-write_entries [] ram iter count low h f = collect-zero ram iter
collect-write_entries (e ∷ es) ram iter count low h (is, f) =
    let at = iter.entry_addr in
    let size = length-write_entry e is in
    let whole = length-append (write_entry e) (write_entries es) in
    let (front, back) = HoldsAt-append ram at (write_entry e) (write_entries es) (omega arith) h in
    let r = read_entry-write_entry ram (paddr2vaddr at) e front is in
    let s = ap entry_size (first_byte ram (paddr2vaddr at) e front) ∙ sym size in
    let iter' : MpTableIter = record iter {
      index = iter.index + 1;
      entry_addr = at + length (write_entry e);
    } in
    collect-step (length es) ram iter e (length (write_entry e)) (omega arith) r s
    ∙ ap (◌∷◌ e) (collect-write_entries es ram iter' (omega arith) (omega arith) back f)
