-- ===== src/Http/Vehicles/Laws.antt =====
-- Vehicles through the routes.
use service_order_os_service.Prelude.{true, String, arith, ◌≡◌}
use service_order_os_service.Exec.{ok}
use service_order_os_service.Domain.Validation.{is_valid_br_plate, normalize_plate}
use service_order_os_service.Domain.Validation.Plate.{
  normalize_plate_idem, is_valid_br_plate-normalize,
}
use service_order_os_service.Http.Vehicles.{validate_plate}

-- A plate that the request's check lets pass is valid, is normalized, and passes again as it is.
pub validated_plate :
    (value t : String)
    → validate_plate value ≡ ok t
    → (is_valid_br_plate t ≡ true) × (normalize_plate t ≡ t) × (validate_plate t ≡ ok t)
unfolding validate_plate
validated_plate value t h =
    ground (arith, is_valid_br_plate-normalize value, normalize_plate_idem value)
