-- ===== src/Arch/Mp/Found.antt =====
-- A whole table of the MultiProcessor specification in memory, and `init` of kernel/src/arch/x64/mp_table.rs over it.
use ftl.Base.{
  ℕ, ◌+◌, ◌^◌, ◌<◌, ◌≡◌, refl, ap, sym, subst, ◌∙◌, arith, some, List, [], ◌∷◌, ◌++◌, length,
  length-append, All,
}
use ftl.Base.Bytes.{to_le_bytes, length-to_le_bytes}
use ftl.Base.Ram.{Ram}
use ftl.Base.Held.{Holds, Holds-append}
use ftl.Arch.Direct.{paddr2vaddr}
use ftl.Arch.Boot.{HoldsAt, HoldsAt-append}
use ftl.Arch.Mp.{
  MpPointerTable, MpConfigTable, MpTableEntry, read_pointer_table, read_config_table,
  find_mpfp_table, new, collect, locate_timer, init,
}
use ftl.Arch.Mp.Expected.{isa_buses, io_apics, timers, expected_pin, locate_timer_lem}
use ftl.Arch.Mp.Format.{
  IsEntry, write_entries, length-write_entries, collect-write_entries, word_there,
}

-- The table up to the number of its entries.
abbrev config_head : MpConfigTable → List ℕ
config_head c =
    c.signature
    ++ (to_le_bytes 2 c.length_of
        ++ ((c.spec_rev ∷ c.checksum ∷ [])
            ++ (c.oem_id
                ++ (c.product_id
                    ++ (to_le_bytes 4 c.oem_table_pointer ++ to_le_bytes 2 c.oem_table_size)))))

abbrev config_tail : MpConfigTable → List ℕ
config_tail c =
    to_le_bytes 4 c.local_apic_pointer
    ++ (to_le_bytes 2 c.extended_table_length ++ (c.extended_table_checksum ∷ c.reserved ∷ []))

unfoldable pub write_config : MpConfigTable → List ℕ
write_config c = config_head c ++ (to_le_bytes 2 c.entry_count ++ config_tail c)

unfoldable pub write_pointer : MpPointerTable → List ℕ
write_pointer p =
    p.signature
    ++ (to_le_bytes 4 p.physical_addr_pointer
        ++ (p.length_of ∷ p.spec_rev ∷ p.checksum ∷ p.mp_feature_bytes))

length-config_head :
    (c : MpConfigTable)
    → length c.signature ≡ 4
    → length c.oem_id ≡ 8
    → length c.product_id ≡ 12
    → length (config_head c) ≡ 34
length-config_head c s o p =
    let x5 = to_le_bytes 4 c.oem_table_pointer ++ to_le_bytes 2 c.oem_table_size in
    let x4 = c.product_id ++ x5 in
    let x3 = c.oem_id ++ x4 in
    let x2 : List ℕ = (c.spec_rev ∷ c.checksum ∷ []) ++ x3 in
    let x1 = to_le_bytes 2 c.length_of ++ x2 in
    omega (
      arith,
      length-append c.signature x1,
      length-append (to_le_bytes 2 c.length_of) x2,
      length-append c.oem_id x4,
      length-append c.product_id x5,
      length-append (to_le_bytes 4 c.oem_table_pointer) (to_le_bytes 2 c.oem_table_size),
      length-to_le_bytes 2 c.length_of,
      length-to_le_bytes 4 c.oem_table_pointer,
      length-to_le_bytes 2 c.oem_table_size,
    )

abbrev pub IsConfig : MpConfigTable → Type 0
IsConfig c =
    (length c.signature ≡ 4)
    × (length c.oem_id ≡ 8)
    × (length c.product_id ≡ 12)
    × (c.entry_count < 2 ^ 16)

-- The table, and then the entries.
abbrev pub write_table : MpConfigTable → List MpTableEntry → List ℕ
write_table c es = write_config c ++ write_entries es

length-write_config : (c : MpConfigTable) → IsConfig c → length (write_config c) ≡ 44
unfolding write_config
length-write_config c (s, o, p, small) =
    let x3 : List ℕ = c.extended_table_checksum ∷ c.reserved ∷ [] in
    let x2 = to_le_bytes 2 c.extended_table_length ++ x3 in
    let count = to_le_bytes 2 c.entry_count in
    omega (
      arith,
      length-append (config_head c) (count ++ config_tail c),
      length-append count (config_tail c),
      length-append (to_le_bytes 4 c.local_apic_pointer) x2,
      length-append (to_le_bytes 2 c.extended_table_length) x3,
      length-config_head c s o p,
      length-to_le_bytes 2 c.entry_count,
      length-to_le_bytes 4 c.local_apic_pointer,
      length-to_le_bytes 2 c.extended_table_length,
    )

entry_count-Holds :
    (ram : Ram) (at : ℕ) (c : MpConfigTable)
    → IsConfig c
    → Holds ram at (write_config c)
    → (read_config_table ram at).entry_count ≡ c.entry_count
unfolding read_config_table write_config
entry_count-Holds ram at c (s, o, p, small) h =
    let count = to_le_bytes 2 c.entry_count in
    let (_, behind) = Holds-append ram at (config_head c) (count ++ config_tail c) h in
    let (field, _) = Holds-append ram (at + length (config_head c)) count (config_tail c) behind in
    word_there ram (at + length (config_head c)) (at + 34) 2 c.entry_count
      (omega (arith, length-config_head c s o p)) small field

pointer-Holds :
    (ram : Ram) (at : ℕ) (t : MpPointerTable)
    → length t.signature ≡ 4
    → t.physical_addr_pointer < 2 ^ 32
    → Holds ram at (write_pointer t)
    → (read_pointer_table ram at).physical_addr_pointer ≡ t.physical_addr_pointer
unfolding read_pointer_table write_pointer
pointer-Holds ram at t s small h =
    let field = to_le_bytes 4 t.physical_addr_pointer in
    let rest : List ℕ = t.length_of ∷ t.spec_rev ∷ t.checksum ∷ t.mp_feature_bytes in
    let (_, behind) = Holds-append ram at t.signature (field ++ rest) h in
    let (here, _) = Holds-append ram (at + length t.signature) field rest behind in
    word_there ram (at + length t.signature) (at + 4) 4 t.physical_addr_pointer (omega arith) small
      here

init-step :
    (ram : Ram) (p : ℕ)
    → find_mpfp_table ram ≡ some p
    → init ram ≡ (
        let iter = new ram (read_pointer_table ram (paddr2vaddr p)) in
        locate_timer (collect iter.mp_config.entry_count ram iter))
unfolding init
init-step ram p h = rw (init, h) refl

-- All the entries are collected.
collect-new :
    (ram : Ram) (t : MpPointerTable) (c : MpConfigTable) (es : List MpTableEntry)
    → t.physical_addr_pointer < 2 ^ 32
    → IsConfig c
    → All IsEntry es
    → c.entry_count ≡ length es
    → HoldsAt ram t.physical_addr_pointer (write_table c es)
    → collect ((new ram t).mp_config.entry_count) ram (new ram t) ≡ es
unfolding new
collect-new ram t c es low is f n h =
    let at = t.physical_addr_pointer in
    let size = length-write_config c is in
    let bound = length-write_entries es f in
    let (front, back) = HoldsAt-append ram at (write_config c) (write_entries es) (omega arith) h in
    let count : (new ram t).mp_config.entry_count ≡ length es =
      entry_count-Holds ram (paddr2vaddr at) c is front ∙ n in
    let there = subst (λ (x : ℕ). HoldsAt ram (at + x) (write_entries es)) size back in
    ap (λ (k : ℕ). collect k ram (new ram t)) count
    ∙ collect-write_entries es ram (new ram t) (omega arith) (omega arith) there f

-- If memory holds a floating pointer table where `find_mpfp_table` looks, and the configuration table and its entries where
-- that points, `init` gives the address of the I/O APIC and the pin that the entries say: there is one ISA bus, one I/O APIC
-- and one assignment of the bus's interrupt 0, to that I/O APIC. Otherwise it panics.
pub init-write_table :
    (ram : Ram) (p : ℕ) (t : MpPointerTable) (c : MpConfigTable) (es : List MpTableEntry)
    → find_mpfp_table ram ≡ some p
    → length t.signature ≡ 4
    → t.physical_addr_pointer < 2 ^ 32
    → HoldsAt ram p (write_pointer t)
    → IsConfig c
    → All IsEntry es
    → c.entry_count ≡ length es
    → HoldsAt ram t.physical_addr_pointer (write_table c es)
    → init ram ≡ expected_pin (isa_buses es) (io_apics es) (λ bus_id. timers bus_id es)
init-write_table ram p t c es at s low pointer is f n h =
    let read = read_pointer_table ram (paddr2vaddr p) in
    let there = pointer-Holds ram (paddr2vaddr p) t s low pointer in
    let table = subst (λ (x : ℕ). HoldsAt ram x (write_table c es)) (sym there) h in
    init-step ram p at
    ∙ ap locate_timer (collect-new ram read c es (omega arith) is f n table)
    ∙ locate_timer_lem es
