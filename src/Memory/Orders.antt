-- ===== src/Memory/Orders.antt =====
-- src/infrastructure/repositories/in_memory_service_order_repository.py
use service_order_os_service.Prelude.{
  false, String, some, [], ◌∷◌, ◌≡◌, ◌⊎◌, inl, arith, ◌==◌, eq_refl, if◌then◌else◌,
}
use service_order_os_service.Prelude.Dict.{Dict, lookup, insert, lookup-insert}
use service_order_os_service.Exec.{Exec, Result, Exn, ok, err, modify}
use service_order_os_service.Memory.Items.{get_item}
use service_order_os_service.Domain.Order.Base.{ServiceOrder}
use service_order_os_service.App.Ports.{OrderPort}

unfoldable pub save : ServiceOrder → Exec (Dict ServiceOrder) (Unit {0})
save o = modify (insert o.service_order_id o)

unfoldable pub get : String → Dict ServiceOrder → Result ServiceOrder
unfolding get_item
get = get_item "Service order not found: "

unfoldable pub clear : Exec (Dict ServiceOrder) (Unit {0})
clear = modify (λ items. [])

pub get-save_lem :
    (o : ServiceOrder) (j : String) (s t : Dict ServiceOrder)
    → save o s ≡ (ok tt, t)
    → get j t ≡ (if o.service_order_id == j then ok o else get j s)
unfolding save get
get-save_lem o j s t e = ground (arith, lookup-insert o.service_order_id j o s)

pub save_atomic_lem :
    (o : ServiceOrder) (x : Exn) (s t : Dict ServiceOrder) → save o s ≡ (err x, t) → t ≡ s
unfolding save
save_atomic_lem o x s t e = cc

pub get-written_lem :
    (k j : String) (o o' : ServiceOrder) (s : Dict ServiceOrder)
    → get k s ≡ ok o'
    → (k == j) ≡ false
    → get j (insert k o s) ≡ get j s
unfolding get
get-written_lem k j o o' s g ne = ground (arith, lookup-insert k j o s)

pub get-written_self_lem :
    (k : String) (o o' : ServiceOrder) (s : Dict ServiceOrder)
    → get k s ≡ ok o'
    → (get k (insert k o s) ≡ ok o) ⊎ (get k (insert k o s) ≡ ok o')
unfolding get
get-written_self_lem k o o' s g = inl (ground (arith, lookup-insert k k o s, eq_refl k))

insert_same :
    (k : String) (o : ServiceOrder) (s : Dict ServiceOrder) → lookup k s ≡ some o → insert k o s ≡ s
unfolding lookup insert
insert_same k o [] g = cc
insert_same k o ((j, w) ∷ s) g = ground (arith, insert_same k o s)

pub written_same_lem :
    (k : String) (o : ServiceOrder) (s : Dict ServiceOrder) → get k s ≡ ok o → insert k o s ≡ s
unfolding get
written_same_lem k o s g = ground (arith, insert_same k o s)

-- The object that `get` returns is the one that the dict holds, so writing to it writes to the dict.
abbrev pub memory_orders : OrderPort (Dict ServiceOrder)
memory_orders = record {
  save = save;
  get = get;
  written = insert;
  get-save = get-save_lem;
  save_atomic = save_atomic_lem;
  get-written = get-written_lem;
  get-written_self = get-written_self_lem;
  written_same = written_same_lem;
}
