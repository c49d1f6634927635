-- ===== src/Memory/Items.antt =====
-- The lookup that the in-memory repositories share.
use Prim.Native.String.{◌++◌}
use service_order_os_service.Prelude.{String, none, some}
use service_order_os_service.Prelude.Dict.{Dict, lookup}
use service_order_os_service.Exec.{Result, ok, err, key_error}

-- `self._items[key]`, whose `KeyError` is raised anew with a message.
unfoldable pub get_item : {V : Type 0} → String → String → Dict V → Result V
get_item what key items = elim (lookup key items) [
  | none ↦ err (key_error (what ++ key))
  | some v ↦ ok v
]
