-- ===== src/Arch/Pvh/Format.antt =====
-- What kernel/src/arch/x64/pvh.rs reads from memory that holds boot information in the format of the protocol.
use ftl.Base.{
  ℕ, zero, suc, ◌+◌, ◌^◌, ◌<◌, ◌≡◌, ◌≢◌, refl, ap, sym, subst, ◌∙◌, arith, ◌==◌, if◌then◌else◌,
  Bool-cases, inl, inr, true, false, some, List, [], ◌∷◌, ◌++◌, map, length, take, get_elem?, All,
  done, ◌>>=◌,
}
use ftl.Base.Word.{IsUsize, add-done}
use ftl.Base.Bytes.{write_fields, field_offset, length-write_fields}
use ftl.Base.Ram.{Ram}
use ftl.Base.Held.{word, Holds, Holds-append, load-Holds, field-Holds}
use ftl.Elf.Parse.{Fit}
use ftl.Arch.Direct.{paddr2vaddr}
use ftl.Arch.Boot.{push_or_drop, push_each, push_each-take}
use ftl.Arch.Pvh.{
  HvmStartInfo, HvmModuleEntry, HvmMemoryMapEntry, magic, is_magic, read_start_info, read_module,
  read_memory_map, cstr_loop, cstr2slice, add_modules, add_memory, parse_start_info,
}
use ftl.Memory.Visit.{Range, range}
use ftl.Memory.Init.{FreeRam}

abbrev pub module_fields : HvmModuleEntry → List (ℕ × ℕ)
module_fields m = (8, m.paddr) ∷ (8, m.size) ∷ (8, m.cmdline_paddr) ∷ (8, m.reserved) ∷ []

abbrev pub memory_fields : HvmMemoryMapEntry → List (ℕ × ℕ)
memory_fields e = (8, e.addr) ∷ (8, e.size) ∷ (4, e.mem_type) ∷ (4, e.reserved) ∷ []

-- The fields behind the magic number.
abbrev pub info_fields : HvmStartInfo → List (ℕ × ℕ)
info_fields i =
    (4, i.version)
    ∷ (4, i.flags)
    ∷ (4, i.nr_modules)
    ∷ (8, i.modlist_paddr)
    ∷ (8, i.cmdline_paddr)
    ∷ (8, i.rsdp_paddr)
    ∷ (8, i.memmap_paddr)
    ∷ (4, i.memmap_entries)
    ∷ (4, i.reserved)
    ∷ []

-- Structures of one kind, one after the other.
unfoldable pub write_all {ℓ} : {A : Type ℓ} → (A → List (ℕ × ℕ)) → List A → List ℕ
write_all fields [] = []
write_all fields (x ∷ xs) = write_fields (fields x) ++ write_all fields xs

abbrev pub region_of : HvmModuleEntry → Range
region_of m = range m.paddr (m.paddr + m.size)

-- The entries that are RAM.
unfoldable pub free_of : List HvmMemoryMapEntry → List FreeRam
free_of [] = []
free_of (e ∷ es) =
    if e.mem_type == 1 then record { addr = e.addr; size = e.size } ∷ free_of es else free_of es

read_module-Holds :
    (ram : Ram) (at : ℕ) (m : HvmModuleEntry)
    → Holds ram at (write_fields (module_fields m))
    → Fit (module_fields m)
    → read_module ram at ≡ m
unfolding read_module
read_module-Holds ram at m h (f0, (f1, (f2, (f3, _)))) =
    let field = field-Holds ram (module_fields m) at in
    let first : at + 0 ≡ at = omega arith in
    λ t. record {
      paddr = subst (λ (q : ℕ). word ram q 8 ≡ m.paddr) first (field 0 8 m.paddr h refl f0) t;
      size = field 1 8 m.size h refl f1 t;
      cmdline_paddr = field 2 8 m.cmdline_paddr h refl f2 t;
      reserved = field 3 8 m.reserved h refl f3 t;
    }

read_memory_map-Holds :
    (ram : Ram) (at : ℕ) (e : HvmMemoryMapEntry)
    → Holds ram at (write_fields (memory_fields e))
    → Fit (memory_fields e)
    → read_memory_map ram at ≡ e
unfolding read_memory_map
read_memory_map-Holds ram at e h (f0, (f1, (f2, (f3, _)))) =
    let field = field-Holds ram (memory_fields e) at in
    let first : at + 0 ≡ at = omega arith in
    λ t. record {
      addr = subst (λ (q : ℕ). word ram q 8 ≡ e.addr) first (field 0 8 e.addr h refl f0) t;
      size = field 1 8 e.size h refl f1 t;
      mem_type = field 2 4 e.mem_type h refl f2 t;
      reserved = field 3 4 e.reserved h refl f3 t;
    }

read_start_info-Holds :
    (ram : Ram) (at : ℕ) (i : HvmStartInfo)
    → i.magic ≡ magic
    → Holds ram at (magic ++ write_fields (info_fields i))
    → Fit (info_fields i)
    → read_start_info ram at ≡ i
unfolding read_start_info
read_start_info-Holds ram at i m h (f0, (f1, (f2, (f3, (f4, (f5, (f6, (f7, (f8, _))))))))) =
    let (front, back) = Holds-append ram at magic (write_fields (info_fields i)) h in
    let at_place =
      λ (j k n p : ℕ) (e : get_elem? (info_fields i) j ≡ some (k, n)) (small : n < 256 ^ k)
          (place : at + 4 + field_offset (info_fields i) j ≡ p).
        subst (λ (q : ℕ). word ram q k ≡ n) place
          (field-Holds ram (info_fields i) (at + 4) j k n back e small) in
    λ t. record {
      magic = (load-Holds ram at magic front ∙ sym m) t;
      version = at_place 0 4 i.version (at + 4) refl f0 (omega arith) t;
      flags = at_place 1 4 i.flags (at + 8) refl f1 (omega arith) t;
      nr_modules = at_place 2 4 i.nr_modules (at + 12) refl f2 (omega arith) t;
      modlist_paddr = at_place 3 8 i.modlist_paddr (at + 16) refl f3 (omega arith) t;
      cmdline_paddr = at_place 4 8 i.cmdline_paddr (at + 24) refl f4 (omega arith) t;
      rsdp_paddr = at_place 5 8 i.rsdp_paddr (at + 32) refl f5 (omega arith) t;
      memmap_paddr = at_place 6 8 i.memmap_paddr (at + 40) refl f6 (omega arith) t;
      memmap_entries = at_place 7 4 i.memmap_entries (at + 48) refl f7 (omega arith) t;
      reserved = at_place 8 4 i.reserved (at + 52) refl f8 (omega arith) t;
    }

add_modules-push_each :
    (ms : List HvmModuleEntry) (ram : Ram) (at : ℕ) (acc : List Range)
    → Holds ram at (write_all module_fields ms)
    → All (λ m. Fit (module_fields m) × IsUsize (m.paddr + m.size)) ms
    → add_modules (length ms) ram at acc ≡ done (push_each acc (map region_of ms))
unfolding add_modules write_all push_each
add_modules-push_each [] ram at acc h f = refl
add_modules-push_each (m ∷ ms) ram at acc h ((fit, small), f) =
    let (front, back) =
      Holds-append ram at (write_fields (module_fields m)) (write_all module_fields ms) h in
    let place : at + length (write_fields (module_fields m)) ≡ at + 32 =
      ap (λ (n : ℕ). at + n) (length-write_fields (module_fields m)) in
    let back' = subst (λ (a : ℕ). Holds ram a (write_all module_fields ms)) place back in
    let e = read_module-Holds ram at m front fit in
    let sum = add-done m.paddr m.size small in
    rw (add_modules, e, sum, ◌>>=◌)
      (add_modules-push_each ms ram (at + 32) (push_or_drop acc (region_of m)) back' f)

add_memory-push_each :
    (es : List HvmMemoryMapEntry) (ram : Ram) (at : ℕ) (acc : List FreeRam)
    → Holds ram at (write_all memory_fields es)
    → All (λ e. Fit (memory_fields e)) es
    → add_memory (length es) ram at acc ≡ push_each acc (free_of es)
unfolding add_memory write_all push_each free_of
add_memory-push_each [] ram at acc h f = refl
add_memory-push_each (e ∷ es) ram at acc h (fit, f) =
    let (front, back) =
      Holds-append ram at (write_fields (memory_fields e)) (write_all memory_fields es) h in
    let place : at + length (write_fields (memory_fields e)) ≡ at + 24 =
      ap (λ (n : ℕ). at + n) (length-write_fields (memory_fields e)) in
    let back' = subst (λ (a : ℕ). Holds ram a (write_all memory_fields es)) place back in
    let r = read_memory_map-Holds ram at e front fit in
    elim (Bool-cases (e.mem_type == 1)) [
      | inl is ↦
          rw (add_memory, r, is)
            (add_memory-push_each es ram (at + 24)
              (push_or_drop acc (record { addr = e.addr; size = e.size })) back' f)
      | inr other ↦ rw (add_memory, r, other) (add_memory-push_each es ram (at + 24) acc back' f)
    ]

cstr_loop-Holds :
    (bytes : List ℕ) (ram : Ram) (at rounds : ℕ)
    → Holds ram at (bytes ++ (0 ∷ []))
    → All (λ b. b ≢ 0) bytes
    → length bytes < rounds
    → cstr_loop rounds ram at ≡ some bytes
unfolding cstr_loop
cstr_loop-Holds bytes ram at zero h f room = absurd (omega arith)
cstr_loop-Holds [] ram at (suc rounds) (e, h) f room =
    let zero_there : (ram at == 0) ≡ true = ground arith in rw (cstr_loop, zero_there) refl
cstr_loop-Holds (b ∷ bs) ram at (suc rounds) (e, h) (ne, f) room =
    let more : (ram at == 0) ≡ false = ground arith in
    let rest = cstr_loop-Holds bs ram (at + 1) rounds h f (omega arith) in
    rw (cstr_loop, more, rest, e) refl

magic-is_magic : is_magic magic ≡ true
unfolding is_magic
magic-is_magic = refl

-- Boot information in memory: a command line that is a C string, modules and a memory map.
pub record IsBootable (rounds : ℕ) (ram : Ram) (start_info : ℕ) (i : HvmStartInfo)
    (cmdline : List ℕ) (modules : List HvmModuleEntry) (memory : List HvmMemoryMapEntry)
    : Type 0 where
  pub magic_number : i.magic ≡ magic
  pub info : Holds ram (paddr2vaddr start_info) (magic ++ write_fields (info_fields i))
  pub info_fit : Fit (info_fields i)
  pub cmdline_there : i.cmdline_paddr ≢ 0
  pub cmdline_held : Holds ram (paddr2vaddr i.cmdline_paddr) (cmdline ++ (0 ∷ []))
  pub cmdline_bytes : All (λ b. b ≢ 0) cmdline
  pub cmdline_short : length cmdline < rounds
  pub num_modules : i.nr_modules ≡ length modules
  pub modules_held : Holds ram (paddr2vaddr i.modlist_paddr) (write_all module_fields modules)
  pub modules_fit : All (λ m. Fit (module_fields m) × IsUsize (m.paddr + m.size)) modules
  pub num_entries : i.memmap_entries ≡ length memory
  pub memory_held : Holds ram (paddr2vaddr i.memmap_paddr) (write_all memory_fields memory)
  pub memory_fit : All (λ e. Fit (memory_fields e)) memory

-- From boot information in the format of PVH, the parser makes its command line up to the zero byte, its first eight
-- modules and the first eight of its entries that are RAM.
pub parse_start_info_lem :
    (rounds : ℕ) (ram : Ram) (start_info : ℕ) (i : HvmStartInfo) (cmdline : List ℕ)
    (modules : List HvmModuleEntry) (memory : List HvmMemoryMapEntry)
    → IsBootable rounds ram start_info i cmdline modules memory
    → parse_start_info rounds ram start_info
      ≡ done (
          some (record {
            cmdline = cmdline;
            modules = take 8 (map region_of modules);
            free_rams = take 8 (free_of memory);
          }))
unfolding parse_start_info cstr2slice
parse_start_info_lem rounds ram start_info i cmdline modules memory b =
    let read =
      read_start_info-Holds ram (paddr2vaddr start_info) i b.magic_number b.info b.info_fit in
    let there : (i.cmdline_paddr == 0) ≡ false = let ne = b.cmdline_there in ground arith in
    let line =
      cstr_loop-Holds cmdline ram (paddr2vaddr i.cmdline_paddr) rounds b.cmdline_held
        b.cmdline_bytes b.cmdline_short in
    let ms =
      ap (λ (n : ℕ). add_modules n ram (paddr2vaddr i.modlist_paddr) []) b.num_modules
      ∙ add_modules-push_each modules ram (paddr2vaddr i.modlist_paddr) [] b.modules_held
          b.modules_fit
      ∙ ap done (push_each-take (map region_of modules) [] (omega arith)) in
    let es =
      ap (λ (n : ℕ). add_memory n ram (paddr2vaddr i.memmap_paddr) []) b.num_entries
      ∙ add_memory-push_each memory ram (paddr2vaddr i.memmap_paddr) [] b.memory_held b.memory_fit
      ∙ push_each-take (free_of memory) [] (omega arith) in
    let right : is_magic i.magic ≡ true = ap is_magic b.magic_number ∙ magic-is_magic in
    rw (parse_start_info, read, right, cstr2slice, there, line, read, ms, ◌>>=◌, es) refl
