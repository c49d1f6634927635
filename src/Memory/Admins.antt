-- ===== src/Memory/Admins.antt =====
-- src/infrastructure/repositories/in_memory_admin_user_repository.py
use service_order_os_service.Prelude.{Bool, String, Option, ◌==◌}
use service_order_os_service.Prelude.Dict.{Dict, insert, values}
use service_order_os_service.Prelude.Unique.{find}
use service_order_os_service.Exec.{Exec, ok, modify}
use service_order_os_service.App.PartyPorts.{AdminUserPort}
use service_order_os_service.Domain.Party.{AdminUser}

unfoldable pub save : AdminUser → Exec (Dict AdminUser) (Unit {0})
save u = modify (insert u.user_id u)

abbrev pub has_email : (String → String) → String → AdminUser → Bool
has_email casefold email u = casefold u.email == casefold email

unfoldable pub find_by_email : (String → String) → String → Dict AdminUser → Option AdminUser
find_by_email casefold email items = find (has_email casefold email) (values items)

abbrev pub memory_admins : (String → String) → AdminUserPort (Dict AdminUser)
memory_admins casefold = record {
  save = save;
  find_by_email = λ t s. ok (find_by_email casefold t s);
}
