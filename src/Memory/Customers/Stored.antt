-- ===== src/Memory/Customers/Stored.antt =====
-- src/infrastructure/repositories/in_memory_customer_repository.py as a repository for its use cases.
use service_order_os_service.Prelude.{
  String, some, arith, ◌≡◌, ap, subst, ◌==◌, eq_iff, Option-cases, inl, inr, if◌then◌else◌,
}
use service_order_os_service.Prelude.Dict.{Dict, lookup, insert, lookup-insert}
use service_order_os_service.Exec.{Result, ok}
use service_order_os_service.Domain.Party.{Customer}
use service_order_os_service.App.Customers.Stored.{IsStore}
use service_order_os_service.Memory.Items.{get_item}
use service_order_os_service.Memory.Customers.{memory_customers, get, save, update}

-- Every customer is kept under its identifier.
abbrev pub IsKeyed : Dict Customer → Type 0
IsKeyed d = (k : String) (c : Customer) → lookup k d ≡ some c → c.customer_id ≡ k

get_lookup : (k : String) (c : Customer) (d : Dict Customer) → get k d ≡ ok c → lookup k d ≡ some c
unfolding get get_item
get_lookup k c d h = elim (Option-cases (lookup k d)) [
  | inl missing ↦ absurd (ground (arith, missing, h))
  | inr (x, there) ↦ ground (arith, there, h)
]

get-insert :
    (c : Customer) (j : String) (d : Dict Customer)
    → get j (insert c.customer_id c d) ≡ (if c.customer_id == j then ok c else get j d)
unfolding get get_item
get-insert c j d = ground (arith, lookup-insert c.customer_id j c d)

insert-IsKeyed : (c : Customer) (d : Dict Customer) → IsKeyed d → IsKeyed (insert c.customer_id c d)
insert-IsKeyed c d h k x e =
    ground (arith, lookup-insert c.customer_id k c d, eq_iff c.customer_id k, h k x, e)

module _ (c : Customer) (s t : Dict Customer) where
  saved_state : save c s ≡ (ok tt, t) → insert c.customer_id c s ≡ t
  unfolding save
  saved_state h = ap (λ (x : Result (Unit {0}) × Dict Customer). x.1) h

  updated_state : update c s ≡ (ok tt, t) → insert c.customer_id c s ≡ t
  unfolding update
  updated_state h = ap (λ (x : Result (Unit {0}) × Dict Customer). x.1) h

pub memory_customers-IsStore :
    (casefold : String → String) → IsStore (memory_customers casefold) IsKeyed
memory_customers-IsStore casefold = record {
  named = λ k c s sound h. sound k c (get_lookup k c s h);
  get-save = λ c j s t h.
      subst (λ x. get j x ≡ (if c.customer_id == j then ok c else get j s)) (saved_state c s t h)
        (get-insert c j s);
  get-update = λ c old j s t there made h.
      subst (λ x. get j x ≡ (if c.customer_id == j then ok c else get j s)) (updated_state c s t h)
        (get-insert c j s);
  save-Sound = λ c s t sound h. subst IsKeyed (saved_state c s t h) (insert-IsKeyed c s sound);
  update-Sound = λ c s t sound h. subst IsKeyed (updated_state c s t h) (insert-IsKeyed c s sound);
}
