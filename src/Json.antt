-- ===== src/Json.antt =====
-- The values that `json.loads` gives and that a payload (`dict[str, Any]`) holds.
use service_order_os_service.Prelude.{String, Bool, true, false, ◌≡◌, refl, ap, [], ◌∷◌, ◌==◌, not}
use service_order_os_service.Prelude.Dict.{Dict}

-- A number is kept by what the program observes of it: whether it is 0, and its `str`.
mutual
  pub data Json : Type 0 where
    null : Json
    bool : Bool → Json
    number : Bool → String → Json
    str : String → Json
    arr : Items → Json
    obj : Fields → Json

  pub data Items : Type 0 where
    nil : Items
    cons : Json → Items → Items

  pub data Fields : Type 0 where
    end : Fields
    field : String → Json → Fields → Fields

-- The items of an object, as a dict, and back.
unfoldable pub entries : Fields → Dict Json
entries end = []
entries (field k v fs) = (k, v) ∷ entries fs

unfoldable pub of_entries : Dict Json → Fields
of_entries [] = end
of_entries ((k, v) ∷ d) = field k v (of_entries d)

pub entries-of_entries : (d : Dict Json) → entries (of_entries d) ≡ d
unfolding entries of_entries
entries-of_entries [] = refl
entries-of_entries ((k, v) ∷ d) = ap (λ (e : Dict Json). (k, v) ∷ e) (entries-of_entries d)

-- `bool(value)`
unfoldable pub truthy : Json → Bool
truthy null = false
truthy (bool b) = b
truthy (number zero? shown) = not zero?
truthy (str s) = not (s == "")
truthy (arr nil) = false
truthy (arr (cons x xs)) = true
truthy (obj end) = false
truthy (obj (field k v fs)) = true
