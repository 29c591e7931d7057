-- ===== src/Memory/Purpose.antt =====
-- `RegionPurpose` of library/core/src/memory/vmar.rs.
use akarin.Base.{ℕ, ◌≡◌, Bool, true, false, Option, none, some, ◌==◌, if◌then◌else◌, ◌↔◌, arith}

pub data RegionPurpose : Type 0 where
  general kernel_text kernel_data kernel_heap kernel_stack page_table device_mmio : RegionPurpose
  user : RegionPurpose

unfoldable pub is_resident : RegionPurpose → Bool
is_resident kernel_text = true
is_resident kernel_data = true
is_resident page_table = true
is_resident _ = false

-- `x as usize`, and `TryFrom<usize>`.
unfoldable pub purpose_code : RegionPurpose → ℕ
purpose_code general = 0
purpose_code kernel_text = 1
purpose_code kernel_data = 2
purpose_code kernel_heap = 3
purpose_code kernel_stack = 4
purpose_code page_table = 5
purpose_code device_mmio = 6
purpose_code user = 7

unfoldable pub purpose_of : ℕ → Option RegionPurpose
unfolding purpose_code
purpose_of value =
    if value == purpose_code general
    then some general
    else if value == purpose_code kernel_text
    then some kernel_text
    else if value == purpose_code kernel_data
    then some kernel_data
    else if value == purpose_code kernel_heap
    then some kernel_heap
    else if value == purpose_code kernel_stack
    then some kernel_stack
    else if value == purpose_code page_table
    then some page_table
    else if value == purpose_code device_mmio
    then some device_mmio
    else if value == purpose_code user
    then some user
    else none

-- The number of a purpose reads back as the purpose, and no other number reads as one.
pub purpose_of_iff :
    (value : ℕ) (p : RegionPurpose) → (purpose_of value ≡ some p) ↔ (value ≡ purpose_code p)
unfolding purpose_of
purpose_of_iff value general = ground arith
purpose_of_iff value _ = ground arith

-- `purpose == RegionPurpose::DeviceMmio`
abbrev pub is_device : RegionPurpose → Bool
is_device device_mmio = true
is_device _ = false
