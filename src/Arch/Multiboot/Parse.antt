-- ===== src/Arch/Multiboot/Parse.antt =====
-- The parser of kernel/src/arch/x64/multiboot.rs on boot information in the format of Multiboot2.
use ftl.Base.{
  ℕ, zero, suc, ◌+◌, ◌-◌, ◌*◌, ◌/◌, ◌^◌, ◌<◌, ◌≡◌, ◌≢◌, refl, ap, ap₂, sym, subst, ◌∙◌, arith, ltb,
  ◌==◌, Bool-cases, inl, inr, true, false, none, some, List, [], ◌∷◌, ◌++◌, length, length-append,
  length-replicate, take, replicate, All, done, ◌>>=◌, bit_and,
}
use ftl.Base.Bits.{bit_and_clear}
use ftl.Base.Word.{complement}
use ftl.Base.Bytes.{write_fields, length-write_fields}
use ftl.Base.Ram.{Ram, load}
use ftl.Base.Held.{word, Holds, Holds-append, load-Holds, field-Holds}
use ftl.Elf.Parse.{Fit}
use ftl.Arch.Direct.{paddr2vaddr, paddr2vaddr-add}
use ftl.Arch.Boot.{
  HoldsAt, HoldsAt-append, push_or_drop, push_each, push_each-take, push_each-append,
}
use ftl.Arch.Multiboot.{
  MemoryMapEntry, read_entry, until_null, add_entries, add_memory_map, add_module, set_cmdline,
  parse_tag, parse_tags, parse_multiboot2_info,
}
use ftl.Arch.Multiboot.Format.{
  Tag, cmdline, module_range, memory_map, other, entry_fields, write_entries, type_of, body_of,
  size_of, padded, header_of, write_tag, write_tags, IsTag, available, line_of, modules_of, rams_of,
}
use ftl.Memory.Visit.{Range, range}
use ftl.Memory.Init.{FreeRam, BootInfo}

read_entry-Holds :
    (ram : Ram) (at : ℕ) (e : MemoryMapEntry)
    → Holds ram at (write_fields (entry_fields e))
    → Fit (entry_fields e)
    → read_entry ram at ≡ e
unfolding read_entry
read_entry-Holds ram at e h (f0, (f1, (f2, (f3, _)))) =
    let field = field-Holds ram (entry_fields e) at in
    let first : at + 0 ≡ at = omega arith in
    λ t. record {
      base_addr =
          subst (λ (q : ℕ). word ram q 8 ≡ e.base_addr) first (field 0 8 e.base_addr h refl f0) t;
      length_of = field 1 8 e.length_of h refl f1 t;
      mem_type = field 2 4 e.mem_type h refl f2 t;
      reserved = field 3 4 e.reserved h refl f3 t;
    }

length-write_entries : (es : List MemoryMapEntry) → length (write_entries es) ≡ 24 * length es
unfolding write_entries
length-write_entries [] = refl
length-write_entries (e ∷ es) = omega (
  arith,
  length-append (write_fields (entry_fields e)) (write_entries es),
  length-write_fields (entry_fields e),
  length-write_entries es,
)

add_entries-push_each :
    (es : List MemoryMapEntry) (ram : Ram) (at : ℕ) (acc : List FreeRam)
    → at + 24 * length es < 2 ^ 47
    → HoldsAt ram at (write_entries es)
    → All (λ e. Fit (entry_fields e)) es
    → add_entries (length es) ram at 24 acc ≡ push_each acc (available es)
unfolding add_entries write_entries push_each available
add_entries-push_each [] ram at acc small h f = refl
add_entries-push_each (e ∷ es) ram at acc small h (fit, f) =
    let width = length-write_fields (entry_fields e) in
    let (front, back) =
      HoldsAt-append ram at (write_fields (entry_fields e)) (write_entries es)
        (omega (arith, width)) h in
    let back' = subst (λ (n : ℕ). HoldsAt ram (at + n) (write_entries es)) width back in
    let r = read_entry-Holds ram (paddr2vaddr at) e front fit in
    elim (Bool-cases (e.mem_type == 1)) [
      | inl is ↦
          rw (add_entries, r, is)
            (add_entries-push_each es ram (at + 24)
              (push_or_drop acc (record { addr = e.base_addr; size = e.length_of })) (omega arith)
              back' f)
      | inr no_ram ↦
          rw (add_entries, r, no_ram)
            (add_entries-push_each es ram (at + 24) acc (omega arith) back' f)
    ]

until_null-line : (line : List ℕ) → All (λ b. b ≢ 0) line → until_null (line ++ (0 ∷ [])) ≡ line
unfolding until_null
until_null-line [] h = refl
until_null-line (b ∷ bs) (ne, h) =
    let more : (b == 0) ≡ false = ground arith in rw more (ap (◌∷◌ b) (until_null-line bs h))

-- The effect of a tag.
unfoldable pub apply : Tag → BootInfo → BootInfo
apply (cmdline line) b = record b { cmdline = line }
apply (module_range start end name) b = record b {
  modules = push_or_drop b.modules (range start end);
}
apply (memory_map entries) b = record b { free_rams = push_each b.free_rams (available entries) }
apply (other n body) b = b

-- The bodies, behind the header of eight bytes.
module _ (ram : Ram) (at : ℕ) (b : BootInfo) where
  body_at :
      (t : Tag)
      → at + size_of t < 2 ^ 47
      → HoldsAt ram at (header_of t ++ body_of t)
      → HoldsAt ram (at + 8) (body_of t)
  body_at t small h =
      let width = length-write_fields ((4, type_of t) ∷ (4, size_of t) ∷ []) in
      let (_, back) = HoldsAt-append ram at (header_of t) (body_of t) (omega (arith, width)) h in
      subst (λ (n : ℕ). HoldsAt ram (at + n) (body_of t)) width back

  apply_cmdline :
      (line : List ℕ)
      → HoldsAt ram (at + 8) (line ++ (0 ∷ []))
      → All (λ c. c ≢ 0) line
      → set_cmdline ram at (8 + length (line ++ (0 ∷ []))) b ≡ record b { cmdline = line }
  unfolding set_cmdline
  apply_cmdline line h f =
      let size : 8 + length (line ++ (0 ∷ [])) - 8 ≡ length (line ++ (0 ∷ [])) = omega arith in
      let bytes =
        ap (load ram (paddr2vaddr (at + 8))) size
        ∙ load-Holds ram (paddr2vaddr (at + 8)) (line ++ (0 ∷ [])) h in
      ap (λ (l : List ℕ). record b { cmdline = until_null l }) bytes
      ∙ ap (λ (l : List ℕ). record b { cmdline = l }) (until_null-line line f)

  next_words :
      (n m : ℕ) (rest : List ℕ)
      → at + 16 < 2 ^ 47
      → n < 2 ^ 32
      → m < 2 ^ 32
      → HoldsAt ram (at + 8) (write_fields ((4, n) ∷ (4, m) ∷ []) ++ rest)
      → (word ram (paddr2vaddr at + 8) 4 ≡ n) × (word ram (paddr2vaddr at + 12) 4 ≡ m)
  next_words n m rest small hn hm h =
      let fs : List (ℕ × ℕ) = (4, n) ∷ (4, m) ∷ [] in
      let (front, _) = Holds-append ram (paddr2vaddr (at + 8)) (write_fields fs) rest h in
      let here = paddr2vaddr-add at (omega arith) in
      let there = paddr2vaddr-add (at + 8) (omega arith) in
      let first : paddr2vaddr (at + 8) + 0 ≡ paddr2vaddr at + 8 = omega arith in
      let second : paddr2vaddr (at + 8) + 4 ≡ paddr2vaddr at + 12 = omega arith in
      (
        subst (λ (q : ℕ). word ram q 4 ≡ n) first
            (field-Holds ram fs (paddr2vaddr (at + 8)) 0 4 n front refl hn),
        subst (λ (q : ℕ). word ram q 4 ≡ m) second
            (field-Holds ram fs (paddr2vaddr (at + 8)) 1 4 m front refl hm),
      )

  apply_memory_map :
      (es : List MemoryMapEntry)
      → at + (16 + 24 * length es) < 2 ^ 47
      → HoldsAt ram (at + 8) (write_fields ((4, 24) ∷ (4, 0) ∷ []) ++ write_entries es)
      → All (λ e. Fit (entry_fields e)) es
      → add_memory_map ram at (16 + 24 * length es) b
        ≡ done (record b { free_rams = push_each b.free_rams (available es) })
  unfolding add_memory_map
  apply_memory_map es small h f =
      let (entry_size, _) =
        next_words 24 0 (write_entries es) (omega arith) (omega arith) (omega arith) h in
      let width = length-write_fields ((4, 24) ∷ (4, 0) ∷ []) in
      let (_, back) =
        HoldsAt-append ram (at + 8) (write_fields ((4, 24) ∷ (4, 0) ∷ [])) (write_entries es)
          (omega (arith, width)) h in
      let place : at + 8 + length (write_fields ((4, 24) ∷ (4, 0) ∷ [])) ≡ at + 16 =
        omega (arith, width) in
      let back' = subst (λ (a : ℕ). HoldsAt ram a (write_entries es)) place back in
      let count : (16 + 24 * length es) / 24 ≡ length es = omega arith in
      let added = add_entries-push_each es ram (at + 16) b.free_rams (omega arith) back' f in
      rw (add_memory_map, entry_size, count, added) refl

  apply_lem :
      (t : Tag)
      → at + size_of t < 2 ^ 47
      → HoldsAt ram at (header_of t ++ body_of t)
      → IsTag t
      → parse_tag ram at (type_of t) (size_of t) b ≡ done (apply t b)
  unfolding parse_tag apply body_of add_module
  apply_lem (cmdline line) small h f =
      ap done (apply_cmdline line (body_at (cmdline line) small h) f)
  apply_lem (module_range start end name) small h (hs, he) =
      let body = body_at (module_range start end name) small h in
      let width = length-write_fields ((4, start) ∷ (4, end) ∷ []) in
      let size = length-append (write_fields ((4, start) ∷ (4, end) ∷ [])) name in
      let (s, e) = next_words start end name (omega arith) hs he body in rw (add_module, s, e) refl
  apply_lem (memory_map es) small h f =
      let body = body_at (memory_map es) small h in
      let size = length-append (write_fields ((4, 24) ∷ (4, 0) ∷ [])) (write_entries es) in
      let width = length-write_fields ((4, 24) ∷ (4, 0) ∷ []) in
      let entries = length-write_entries es in
      let total : size_of (memory_map es) ≡ 16 + 24 * length es = omega arith in
      ap (λ (n : ℕ). add_memory_map ram at n b) total ∙ apply_memory_map es (omega arith) body f
  apply_lem (other n body) small h (_, n1, n3, n6) =
      let e1 : (n == 1) ≡ false = ground arith in
      let e3 : (n == 3) ≡ false = ground arith in
      let e6 : (n == 6) ≡ false = ground arith in rw (parse_tag, e1, e6, e3) refl

type_small : (t : Tag) → IsTag t → type_of t < 2 ^ 32
type_small (cmdline line) f = omega arith
type_small (module_range start end name) f = omega arith
type_small (memory_map es) f = omega arith
type_small (other n body) f = f.0

next_offset : (size : ℕ) → size < 2 ^ 32 → bit_and (size + 7) (complement 7) ≡ padded size
next_offset size h = bit_and_clear 3 61 (size + 7) (omega arith)

length-write_tag : (t : Tag) → length (write_tag t) ≡ padded (size_of t)
unfolding write_tag
length-write_tag t =
    let pad : List ℕ = replicate (padded (size_of t) - size_of t) 0 in
    let p : length pad ≡ padded (size_of t) - size_of t =
      length-replicate (padded (size_of t) - size_of t) 0 in
    omega (
      arith,
      length-append (header_of t ++ body_of t) pad,
      length-append (header_of t) (body_of t),
      length-write_fields ((4, type_of t) ∷ (4, size_of t) ∷ []),
    )

-- The two words of the header.
header_words :
    (ram : Ram) (at : ℕ) (t : Tag)
    → HoldsAt ram at (header_of t ++ body_of t)
    → IsTag t
    → size_of t < 2 ^ 32
    → (word ram (paddr2vaddr at) 4 ≡ type_of t) × (word ram (paddr2vaddr at + 4) 4 ≡ size_of t)
header_words ram at t h f small =
    let fs : List (ℕ × ℕ) = (4, type_of t) ∷ (4, size_of t) ∷ [] in
    let (front, _) = Holds-append ram (paddr2vaddr at) (write_fields fs) (body_of t) h in
    let first : paddr2vaddr at + 0 ≡ paddr2vaddr at = omega arith in
    (
      subst (λ (q : ℕ). word ram q 4 ≡ type_of t) first
          (field-Holds ram fs (paddr2vaddr at) 0 4 (type_of t) front refl (type_small t f)),
      field-Holds ram fs (paddr2vaddr at) 1 4 (size_of t) front refl small,
    )

-- A tag without its padding.
tag_at :
    (ram : Ram) (at : ℕ) (t : Tag)
    → HoldsAt ram at (write_tag t)
    → HoldsAt ram at (header_of t ++ body_of t)
unfolding write_tag
tag_at ram at t h =
    let (front, _) =
      Holds-append ram (paddr2vaddr at) (header_of t ++ body_of t)
        (replicate (padded (size_of t) - size_of t) 0) h in
    front

apply_all : List Tag → BootInfo → BootInfo
apply_all [] b = b
apply_all (t ∷ ts) b = apply_all ts (apply t b)

-- One round.
parse_tags-step :
    (rounds : ℕ) (ram : Ram) (info total offset : ℕ) (b b' : BootInfo) (tag_type size next : ℕ)
    → offset < total
    → word ram (paddr2vaddr (info + offset)) 4 ≡ tag_type
    → word ram (paddr2vaddr (info + offset) + 4) 4 ≡ size
    → parse_tag ram (info + offset) tag_type size b ≡ done b'
    → bit_and (size + 7) (complement 7) ≡ next
    → parse_tags (suc rounds) ram info total offset b
      ≡ parse_tags rounds ram info total (offset + next) b'
unfolding parse_tags
parse_tags-step rounds ram info total offset b b' tag_type size next h t s p n =
    let more : ltb offset total ≡ true = ground arith in
    rw (parse_tags, more, t, s, p, ◌>>=◌, n) refl

parse_tags-apply_all :
    (ts : List Tag) (rounds : ℕ) (ram : Ram) (info total offset : ℕ) (b : BootInfo)
    → info + total < 2 ^ 47
    → total < 2 ^ 32
    → offset + length (write_tags ts) ≡ total
    → length ts < rounds
    → HoldsAt ram (info + offset) (write_tags ts)
    → All IsTag ts
    → parse_tags rounds ram info total offset b ≡ done (some (apply_all ts b))
unfolding parse_tags write_tags apply_all
parse_tags-apply_all ts zero ram info total offset b low small all_there room h f =
    absurd (omega arith)
parse_tags-apply_all [] (suc rounds) ram info total offset b low small all_there room h f =
    let over : ltb offset total ≡ false = ground arith in rw (parse_tags, over) refl
parse_tags-apply_all (t ∷ ts) (suc rounds) ram info total offset b low small all_there room h
      (is, f) =
    let width = length-write_tag t in
    let whole = length-append (write_tag t) (write_tags ts) in
    let (front, back) =
      HoldsAt-append ram (info + offset) (write_tag t) (write_tags ts) (omega arith) h in
    let tag = tag_at ram (info + offset) t front in
    let (kind, size) = header_words ram (info + offset) t tag is (omega arith) in
    let applied = apply_lem ram (info + offset) b t (omega arith) tag is in
    let place : info + offset + length (write_tag t) ≡ info + (offset + padded (size_of t)) =
      omega arith in
    parse_tags-step rounds ram info total offset b (apply t b) (type_of t) (size_of t)
      (padded (size_of t)) (omega arith) kind size applied (next_offset (size_of t) (omega arith))
    ∙ parse_tags-apply_all ts rounds ram info total (offset + padded (size_of t)) (apply t b) low
        small (omega arith) (omega arith)
        (subst (λ (a : ℕ). HoldsAt ram a (write_tags ts)) place back) f

apply_all-parts :
    (ts : List Tag) (b : BootInfo)
    → apply_all ts b ≡ record {
      cmdline = line_of ts b.cmdline;
      modules = push_each b.modules (modules_of ts);
      free_rams = push_each b.free_rams (rams_of ts);
    }
unfolding apply_all apply line_of modules_of rams_of push_each
apply_all-parts [] b = refl
apply_all-parts (cmdline line ∷ ts) b = apply_all-parts ts (record b { cmdline = line })
apply_all-parts (module_range start end name ∷ ts) b =
    apply_all-parts ts (record b { modules = push_or_drop b.modules (range start end) })
apply_all-parts (memory_map es ∷ ts) b =
    apply_all-parts ts (record b { free_rams = push_each b.free_rams (available es) })
    ∙ ap
        (λ (l : List FreeRam). record {
          cmdline = line_of ts b.cmdline;
          modules = push_each b.modules (modules_of ts);
          free_rams = l;
        })
        (sym (push_each-append b.free_rams (available es) (rams_of ts)))
apply_all-parts (other n body ∷ ts) b = apply_all-parts ts b

-- From boot information in the format of Multiboot2 below 2 ^ 47, the parser makes the last command line, the first eight
-- modules and the first eight of the entries that are available RAM, and more rounds than tags are enough for it.
pub parse_multiboot2_info_lem :
    (ts : List Tag) (rounds reserved : ℕ) (ram : Ram) (info : ℕ)
    → info + (8 + length (write_tags ts)) < 2 ^ 47
    → 8 + length (write_tags ts) < 2 ^ 32
    → length ts < rounds
    → HoldsAt ram info
        (write_fields ((4, 8 + length (write_tags ts)) ∷ (4, reserved) ∷ []) ++ write_tags ts)
    → All IsTag ts
    → parse_multiboot2_info rounds ram info
      ≡ done (
          some (record {
            cmdline = line_of ts [];
            modules = take 8 (modules_of ts);
            free_rams = take 8 (rams_of ts);
          }))
unfolding parse_multiboot2_info
parse_multiboot2_info_lem ts rounds reserved ram info low small room h f =
    let total : ℕ = 8 + length (write_tags ts) in
    let fs : List (ℕ × ℕ) = (4, total) ∷ (4, reserved) ∷ [] in
    let width = length-write_fields fs in
    let (front, back) =
      HoldsAt-append ram info (write_fields fs) (write_tags ts) (omega (arith, width)) h in
    let first : paddr2vaddr info + 0 ≡ paddr2vaddr info = omega arith in
    let size =
      subst (λ (q : ℕ). word ram q 4 ≡ total) first
        (field-Holds ram fs (paddr2vaddr info) 0 4 total front refl small) in
    let tags = subst (λ (n : ℕ). HoldsAt ram (info + n) (write_tags ts)) width back in
    let empty : BootInfo = record { cmdline = []; modules = []; free_rams = [] } in
    ap (λ (n : ℕ). parse_tags rounds ram info n 8 empty) size
    ∙ parse_tags-apply_all ts rounds ram info total 8 empty low small refl room tags f
    ∙ ap (λ (b : BootInfo). done (some b)) (apply_all-parts ts empty)
    ∙ ap₂
        (λ (m : List Range) (r : List FreeRam).
          done (some (record { cmdline = line_of ts []; modules = m; free_rams = r })))
        (push_each-take (modules_of ts) [] (omega arith))
        (push_each-take (rams_of ts) [] (omega arith))

-- At a tag of size 0 and of an unknown type the loop does not end, whatever the number of its rounds.
pub parse_tags-stuck :
    (rounds : ℕ) (ram : Ram) (info total offset : ℕ) (b : BootInfo) (n : ℕ)
    → offset < total
    → word ram (paddr2vaddr (info + offset)) 4 ≡ n
    → word ram (paddr2vaddr (info + offset) + 4) 4 ≡ 0
    → n ≢ 1
    → n ≢ 3
    → n ≢ 6
    → parse_tags rounds ram info total offset b ≡ done none
unfolding parse_tags parse_tag
parse_tags-stuck zero ram info total offset b n h t s n1 n3 n6 = refl
parse_tags-stuck (suc rounds) ram info total offset b n h t s n1 n3 n6 =
    let e1 : (n == 1) ≡ false = ground arith in
    let e3 : (n == 3) ≡ false = ground arith in
    let e6 : (n == 6) ≡ false = ground arith in
    let unknown : parse_tag ram (info + offset) n 0 b ≡ done b = rw (parse_tag, e1, e6, e3) refl in
    let here : offset + 0 ≡ offset = omega arith in
    parse_tags-step rounds ram info total offset b b n 0 0 h t s unknown refl
    ∙ ap (λ (o : ℕ). parse_tags rounds ram info total o b) here
    ∙ parse_tags-stuck rounds ram info total offset b n h t s n1 n3 n6
