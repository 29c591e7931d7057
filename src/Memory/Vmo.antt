-- ===== src/Memory/Vmo.antt =====
-- What the address space asks of a VMO (library/core/src/memory/vmo.rs): its size, its rights, and
-- the classification of a fault. The page index, the child chain and the pager are seen through the
-- three questions that the classification asks of them.
pub mod Method
pub mod RangeIndex
use Prim.Native.Nat.{bit_and}
use akarin.Base.{ℕ, ◌-◌, Bool, true, false, not, ◌&&◌, Option, none, some, ltb, if◌then◌else◌}
use akarin.Base.Bits.{Bits, contains, ◌∪◌, ◌∖◌}
use akarin.Memory.Flags.{
  Flags, map_right, read, write, execute, user, device, global, huge_page, from_mmu_flags,
}
use akarin.Memory.Range.{word}

pub data VmoChildKind : Type 0 where
  shared_view private_cow : VmoChildKind

pub data VmoFaultPolicy : Type 0 where
  immediate private_cow pager_backed : VmoFaultPolicy

pub data VmFaultResolution : Type 0 where
  retry_after_map protection_denied unresolved private_cow pager_backed : VmFaultResolution
  invalid_range : VmFaultResolution

-- `owns` and `has_page` answer for a page's offset whether the VMO itself owns a page there, and
-- whether it has one there, its own or its parent's.
pub record Vmo : Type 0 where
  pub size : ℕ
  pub page_size : ℕ
  pub flags : Flags
  pub child : Option VmoChildKind
  pub pager_cookie : Option ℕ
  pub owns : ℕ → Bool
  pub has_page : ℕ → Bool

abbrev pub is_private_cow : Option VmoChildKind → Bool
is_private_cow (some VmoChildKind.private_cow) = true
is_private_cow _ = false

abbrev pub is_bound : Option ℕ → Bool
is_bound (some cookie) = true
is_bound none = false

unfoldable pub fault_policy : Vmo → VmoFaultPolicy
fault_policy vmo =
    if is_private_cow vmo.child
    then VmoFaultPolicy.private_cow
    else if is_bound vmo.pager_cookie
    then VmoFaultPolicy.pager_backed
    else immediate

unfoldable pub can_map : Vmo → Flags → Bool
can_map vmo flags =
    if not (contains vmo.flags map_right)
    then false
    else if contains flags read && not (contains vmo.flags read)
    then false
    else if contains flags write && not (contains vmo.flags write)
    then false
    else if contains flags execute && not (contains vmo.flags execute)
    then false
    else true

unfoldable pub contains_offset : Vmo → ℕ → Bool
contains_offset vmo offset = ltb offset vmo.size

-- `offset & !(page_size - 1)`
abbrev pub page_offset : Vmo → ℕ → ℕ
page_offset vmo offset = bit_and offset (word - 1 - (vmo.page_size - 1))

abbrev pub by_policy : VmoFaultPolicy → VmFaultResolution
by_policy immediate = unresolved
by_policy VmoFaultPolicy.private_cow = VmFaultResolution.private_cow
by_policy VmoFaultPolicy.pager_backed = VmFaultResolution.pager_backed

unfoldable pub resolve_fault : Vmo → ℕ → Bits → VmFaultResolution
unfolding contains_offset fault_policy
resolve_fault vmo offset access =
    if not (contains_offset vmo offset)
    then invalid_range
    else if not (can_map vmo (from_mmu_flags access ∖ (user ∪ device ∪ global ∪ huge_page)))
    then protection_denied
    else if is_private_cow vmo.child
        && contains access write
        && not (vmo.owns (page_offset vmo offset))
    then VmFaultResolution.private_cow
    else if vmo.has_page (page_offset vmo offset)
    then retry_after_map
    else by_policy (fault_policy vmo)
