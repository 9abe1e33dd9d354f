-- ===== src/Arch/Mp/Expected.antt =====
-- The tables of the MultiProcessor specification in memory, and what kernel/src/arch/x64/mp_table.rs makes of them.
use ftl.Base.{
  ℕ, zero, suc, ◌+◌, ◌*◌, ◌^◌, ◌<◌, ◌≤◌, ◌≡◌, ◌≢◌, refl, ap, ap₂, sym, subst, ◌∙◌, arith, ltb, ◌==◌,
  if◌then◌else◌, ◌&&◌, Bool, Bool-cases, inl, inr, true, false, Option, none, some, List, [], ◌∷◌,
  ◌++◌, length, length-append, get_elem?, All, Exec, done, panic, ◌>>=◌, unwrap, assert,
}
use ftl.Base
use ftl.Arch.Mp.{
  MpTableEntry, BusEntry, IoApicEntry, IoInterruptAssignmentEntry, processor, bus, io_apic,
  io_interrupt_assignment, unknown, is_isa, find_devices, find_timer, locate_timer,
}

-- The entries of each kind that `init` looks for.
unfoldable pub isa_buses : List MpTableEntry → List BusEntry
isa_buses [] = []
isa_buses (bus e ∷ es) = if is_isa e.bus_string then e ∷ isa_buses es else isa_buses es
isa_buses (processor e ∷ es) = isa_buses es
isa_buses (io_apic e ∷ es) = isa_buses es
isa_buses (io_interrupt_assignment e ∷ es) = isa_buses es
isa_buses (unknown ∷ es) = isa_buses es

unfoldable pub io_apics : List MpTableEntry → List IoApicEntry
io_apics [] = []
io_apics (io_apic e ∷ es) = e ∷ io_apics es
io_apics (bus e ∷ es) = io_apics es
io_apics (processor e ∷ es) = io_apics es
io_apics (io_interrupt_assignment e ∷ es) = io_apics es
io_apics (unknown ∷ es) = io_apics es

unfoldable pub timers : ℕ → List MpTableEntry → List IoInterruptAssignmentEntry
timers bus_id [] = []
timers bus_id (io_interrupt_assignment e ∷ es) =
    if e.source_bus_id == bus_id && e.source_bus_irq == 0
    then e ∷ timers bus_id es
    else timers bus_id es
timers bus_id (io_apic e ∷ es) = timers bus_id es
timers bus_id (bus e ∷ es) = timers bus_id es
timers bus_id (processor e ∷ es) = timers bus_id es
timers bus_id (unknown ∷ es) = timers bus_id es

-- What the table says, if there is one of each.
unfoldable pub pin_of : IoApicEntry → List IoInterruptAssignmentEntry → Exec (ℕ × ℕ)
pin_of a (m ∷ []) =
    if m.dest_io_apic_id == a.io_apic_id
    then done (a.io_apic_address, m.dest_io_apic_intin)
    else panic
pin_of a _ = panic

unfoldable pub expected_pin :
    List BusEntry → List IoApicEntry → (ℕ → List IoInterruptAssignmentEntry) → Exec (ℕ × ℕ)
expected_pin (b ∷ []) (a ∷ []) mappings = pin_of a (mappings b.bus_id)
expected_pin _ _ mappings = panic

-- Of a list of at most one.
unfoldable at_most_one : {A : Type 0} → List A → Exec (Option A)
at_most_one [] = done none
at_most_one (a ∷ []) = done (some a)
at_most_one (a ∷ b ∷ rest) = panic

abbrev found : {A : Type 0} → Option A → List A
found none = []
found (some a) = a ∷ []

-- A panic in the second step.
bind_panic : {A B : Type 0} (m : Exec A) → Base.◌>>=◌ {B = B} m (λ _. panic) ≡ panic
bind_panic (done a) = refl
bind_panic panic = refl

unfoldable both : List BusEntry → List IoApicEntry → Exec (Option BusEntry × Option IoApicEntry)
both bs as' = Base.◌>>=◌ (at_most_one bs) (λ b. Base.◌>>=◌ (at_most_one as') (λ a. done (b, a)))

find_devices_lem :
    (es : List MpTableEntry) (b : Option BusEntry) (a : Option IoApicEntry)
    → find_devices es b a ≡ both (found b ++ isa_buses es) (found a ++ io_apics es)
unfolding find_devices isa_buses io_apics at_most_one both
find_devices_lem [] none none = refl
find_devices_lem [] none (some a) = refl
find_devices_lem [] (some b) none = refl
find_devices_lem [] (some b) (some a) = refl
find_devices_lem (bus e ∷ es) b a = elim (Bool-cases (is_isa e.bus_string)) [
  | inr no_isa ↦ rw no_isa (find_devices_lem es b a)
  | inl isa ↦
      elim b
        as (λ x.
          find_devices (bus e ∷ es) x a
          ≡ both (found x ++ isa_buses (bus e ∷ es)) (found a ++ io_apics (bus e ∷ es))) [
            | none ↦ rw isa (find_devices_lem es (some e) a)
            | some old ↦ rw isa refl
          ]
]
find_devices_lem (io_apic e ∷ es) b none = find_devices_lem es b (some e)
find_devices_lem (io_apic e ∷ es) b (some old) =
    sym (bind_panic (at_most_one (found b ++ isa_buses es)))
find_devices_lem (processor e ∷ es) b a = find_devices_lem es b a
find_devices_lem (io_interrupt_assignment e ∷ es) b a = find_devices_lem es b a
find_devices_lem (unknown ∷ es) b a = find_devices_lem es b a

find_timer_lem :
    (es : List MpTableEntry) (bus_id : ℕ) (m : Option IoInterruptAssignmentEntry)
    → find_timer es bus_id m ≡ at_most_one (found m ++ timers bus_id es)
unfolding find_timer timers at_most_one
find_timer_lem [] bus_id none = refl
find_timer_lem [] bus_id (some m) = refl
find_timer_lem (io_interrupt_assignment e ∷ es) bus_id m =
    elim (Bool-cases (e.source_bus_id == bus_id && e.source_bus_irq == 0)) [
      | inr elsewhere ↦ rw elsewhere (find_timer_lem es bus_id m)
      | inl here ↦
          elim m
            as (λ x.
              find_timer (io_interrupt_assignment e ∷ es) bus_id x
              ≡ at_most_one (found x ++ timers bus_id (io_interrupt_assignment e ∷ es))) [
                | none ↦ rw here (find_timer_lem es bus_id (some e))
                | some old ↦ rw here refl
              ]
    ]
find_timer_lem (processor e ∷ es) bus_id m = find_timer_lem es bus_id m
find_timer_lem (bus e ∷ es) bus_id m = find_timer_lem es bus_id m
find_timer_lem (io_apic e ∷ es) bus_id m = find_timer_lem es bus_id m
find_timer_lem (unknown ∷ es) bus_id m = find_timer_lem es bus_id m

guarded :
    {A : Type 0} (t : Bool) (x : A) → Base.◌>>◌ (assert t) (done x) ≡ (if t then done x else panic)
guarded true x = refl
guarded false x = refl

one_mapping :
    (ms : List IoInterruptAssignmentEntry) (a : IoApicEntry)
    → Base.◌>>=◌ (at_most_one ms) (λ mapping. Base.◌>>=◌ (unwrap mapping) (λ m.
      Base.◌>>◌
        (assert (m.dest_io_apic_id == a.io_apic_id))
        (done (a.io_apic_address, m.dest_io_apic_intin))))
      ≡ pin_of a ms
unfolding at_most_one pin_of
one_mapping [] a = refl
one_mapping (m ∷ []) a =
    guarded (m.dest_io_apic_id == a.io_apic_id) (a.io_apic_address, m.dest_io_apic_intin)
one_mapping (m ∷ n ∷ ms) a = refl

-- The steps behind the two loops.
rest_of_locate :
    (es : List MpTableEntry) (bs : List BusEntry) (apics : List IoApicEntry)
    → find_devices es none none ≡ both bs apics
    → locate_timer es ≡ expected_pin bs apics (λ bus_id. timers bus_id es)
unfolding locate_timer expected_pin both at_most_one
rest_of_locate es [] [] e = rw (locate_timer, e) refl
rest_of_locate es [] (a ∷ []) e = rw (locate_timer, e) refl
rest_of_locate es [] (a ∷ c ∷ rest) e = rw (locate_timer, e) refl
rest_of_locate es (b ∷ c ∷ bs) apics e = rw (locate_timer, e) refl
rest_of_locate es (b ∷ []) [] e = rw (locate_timer, e) refl
rest_of_locate es (b ∷ []) (a ∷ c ∷ rest) e = rw (locate_timer, e) refl
rest_of_locate es (b ∷ []) (a ∷ []) e =
    rw (locate_timer, e, find_timer_lem es b.bus_id none) (one_mapping (timers b.bus_id es) a)

-- `init` takes the pin of the one mapping of the timer, where there are one ISA bus, one I/O APIC and one such mapping, to
-- that I/O APIC; else it panics.
pub locate_timer_lem :
    (es : List MpTableEntry)
    → locate_timer es ≡ expected_pin (isa_buses es) (io_apics es) (λ bus_id. timers bus_id es)
locate_timer_lem es = rest_of_locate es (isa_buses es) (io_apics es) (find_devices_lem es none none)
