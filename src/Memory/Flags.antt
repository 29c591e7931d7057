-- ===== src/Memory/Flags.antt =====
-- `VmFlags` of library/core/src/memory/vmflags.rs over the bits of a `u32`, and the layout of
-- `MMUFlags` (library/machine/src/memory/paging.rs), whose bits are the low ones.
pub mod Laws
use akarin.Base.{
  ℕ, Bool, true, false, ◌&&◌, ◌||◌, Option, none, some, ltb, ◌==◌, ◌+◌, if◌then◌else◌,
}
use akarin.Base.Bits.{Bits, bit, none_set, ◌∪◌, ◌∩◌, contains, equal}

abbrev pub Flags : Type 0
Flags = Bits

abbrev pub read : Flags
read = bit 2

abbrev pub write : Flags
write = bit 3

abbrev pub execute : Flags
execute = bit 4

abbrev pub user : Flags
user = bit 5

abbrev pub huge_page : Flags
huge_page = bit 6

abbrev pub device : Flags
device = bit 7

abbrev pub global : Flags
global = bit 8

abbrev pub map_right : Flags
map_right = bit 16

-- `VM_ACCESS_MASK`
abbrev pub access_mask : Flags
access_mask = read ∪ write ∪ execute ∪ user ∪ huge_page ∪ device ∪ global

-- All the bits that `VmFlags` declares.
abbrev pub known_flags : Flags
known_flags = bit 0 ∪ bit 1 ∪ access_mask ∪ map_right ∪ bit 17 ∪ bit 18 ∪ bit 19 ∪ bit 20

-- `VmFlags::from_bits`: nothing if a bit is set that has no name.
unfoldable pub from_bits : Bits → Option Flags
from_bits b = if contains known_flags b then some b else none

-- `from_mmu_flags`: a `u16` of bits, widened.
unfoldable pub from_mmu_flags : Bits → Flags
from_mmu_flags mmu i = mmu i && ltb i 16

unfoldable pub allows_mmu : Flags → Flags → Bool
unfolding equal
allows_mmu flags requested = equal (flags ∩ access_mask ∩ requested) (requested ∩ access_mask)

-- `mmu_flags`: the low half, of which `from_bits_truncate` keeps the bits that `MMUFlags` declares.
unfoldable pub mmu_flags : Flags → Bits
mmu_flags flags i = flags i && ltb i 16 && (i == 0 || i == 1 || access_mask i)

-- `extension_bits`
unfoldable pub extension_bits : Flags → Bits
extension_bits flags i = flags (i + 16)
