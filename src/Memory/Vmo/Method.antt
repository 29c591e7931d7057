-- ===== src/Memory/Vmo/Method.antt =====
-- The methods and interface rights of a VMO handle (library/core/src/memory/vmo.rs).
use akarin.Base.{ℕ, ◌≡◌, ◌↔◌, Option, none, some, ◌==◌, if◌then◌else◌, arith}
use akarin.Base.Bits.{Bits, bit, ◌∪◌}

pub data VmoMethod : Type 0 where
  create_child get_size get_stream_size op_range read replace_as_executable : VmoMethod
  set_cache_policy set_size set_stream_size transfer_data write query_child : VmoMethod

-- `x as usize`
unfoldable pub method_code : VmoMethod → ℕ
method_code create_child = 0
method_code get_size = 1
method_code get_stream_size = 2
method_code op_range = 3
method_code read = 4
method_code replace_as_executable = 5
method_code set_cache_policy = 6
method_code set_size = 7
method_code set_stream_size = 8
method_code transfer_data = 9
method_code write = 10
method_code query_child = 11

-- `VmoMethod::try_from`
unfoldable pub method_of : ℕ → Option VmoMethod
unfolding method_code
method_of value =
    if value == method_code create_child
    then some create_child
    else if value == method_code get_size
    then some get_size
    else if value == method_code get_stream_size
    then some get_stream_size
    else if value == method_code op_range
    then some op_range
    else if value == method_code read
    then some read
    else if value == method_code replace_as_executable
    then some replace_as_executable
    else if value == method_code set_cache_policy
    then some set_cache_policy
    else if value == method_code set_size
    then some set_size
    else if value == method_code set_stream_size
    then some set_stream_size
    else if value == method_code transfer_data
    then some transfer_data
    else if value == method_code write
    then some write
    else if value == method_code query_child
    then some query_child
    else none

abbrev pub v_read_data : Bits
v_read_data = bit 0

abbrev pub v_write_data : Bits
v_write_data = bit 1

abbrev pub v_get_size : Bits
v_get_size = bit 2

abbrev pub v_set_size : Bits
v_set_size = bit 3

abbrev pub v_set_policy : Bits
v_set_policy = bit 4

abbrev pub v_transfer : Bits
v_transfer = bit 5

abbrev pub v_create_child : Bits
v_create_child = bit 6

abbrev pub vmo_default_interface_caps : Bits
vmo_default_interface_caps =
    v_read_data ∪ v_write_data ∪ v_get_size ∪ v_set_size ∪ v_set_policy ∪ v_create_child

abbrev pub vmo_admin_interface_caps : Bits
vmo_admin_interface_caps = v_transfer

-- The number of a method of a VMO reads back as the method, and no other number reads as one.
pub vmo_method_of_iff :
    (value : ℕ) (m : VmoMethod) → (method_of value ≡ some m) ↔ (value ≡ method_code m)
unfolding method_of
vmo_method_of_iff value create_child = ground arith
vmo_method_of_iff value _ = ground arith
