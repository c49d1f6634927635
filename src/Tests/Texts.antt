-- ===== src/Tests/Texts.antt =====
-- Documents and plates.
use service_order_os_service.Prelude.{◌-◌, code}
use service_order_os_service.Domain.Validation.{Decimals, is_digit}

-- The ten digits of ASCII.
abbrev ascii : Decimals
ascii = record { is_decimal = is_digit; digit_value = λ c. code c - 48 }
