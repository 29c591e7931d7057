-- ===== src/Examples/Calls.antt =====
-- System calls on the region of `Spaces`, and the theorems on them.
use akarin.Base.{ℕ, ◌≢◌, refl, true, none, some, inr}
use akarin.Memory.Flags.{read}
use akarin.Memory.Vmo.{Vmo}
use akarin.Memory.Vmar.{Outcome}
use akarin.Memory.Space.{allocate_child_any}
use akarin.Memory.Space.Tree.{IsTree}
use akarin.Memory.Space.Steps.{allocate_child_any-IsTree}
use akarin.Memory.Control.{vmar_default_interface_caps}
use akarin.Memory.Control.Dispatch.{Caller, write}
use akarin.Memory.Control.Dispatch.Safety.{write-IsTree}
use akarin.Examples.Regions.{filled}
use akarin.Examples.Spaces.{one_vmar, one_vmar-IsTree}

-- A task whose handles all name VMO 0, and which maps two pages with an offset of 0.
abbrev task : Caller
task = record {
  map_args = λ addr.
      some (record { base = 0x404000; size = 0x2000; vmo_offset = 0; flags = read; purpose = 0 });
  protect_args = λ addr. none;
  share_vmo = λ handle. inr 0;
  create_object = λ child. inr 7;
  destroy_object = λ slot. inr tt;
}

abbrev some_vmo : ℕ → Vmo
some_vmo i = record {
  size = 0x2000;
  page_size = 0x1000;
  flags = read;
  child = none;
  pager_cookie = none;
  owns = λ offset. true;
  has_page = λ offset. true;
}

write-IsTree_example :
    IsTree (write task some_vmo vmar_default_interface_caps one_vmar 0 7 0x402000 0).0
write-IsTree_example =
    write-IsTree task some_vmo vmar_default_interface_caps one_vmar 0 filled.0 7 0x402000 0
      one_vmar-IsTree refl

allocate_child_any-IsTree_example :
    IsTree (allocate_child_any one_vmar 0 0x3000).0
    × ((allocate_child_any one_vmar 0 0x3000).1 ≢ Outcome.panic)
allocate_child_any-IsTree_example =
    allocate_child_any-IsTree one_vmar 0 filled.0 0x3000 one_vmar-IsTree refl
