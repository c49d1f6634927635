-- ===== src/Sql/Orders.antt =====
-- src/infrastructure/repositories/sqlalchemy_service_order_repository.py
pub mod Laws
use Prim.Native.String.{◌++◌}
use service_order_os_service.Prelude.{
  Bool, true, false, String, Option, none, some, List, [], ◌∷◌, ◌==◌, if◌then◌else◌,
}
use service_order_os_service.Prelude.Dict.{lookup}
use service_order_os_service.Exec.{
  Exec, Result, ok, err, value_error, key_error, other_error, and_then,
}
use service_order_os_service.Json.{
  Json, Items, Fields, null, bool, number, str, arr, obj, nil, cons, end, field, entries,
}
use service_order_os_service.Domain.Event.{Instant}
use service_order_os_service.Domain.Order.Base.{
  Status, opened, quote_requested, quote_failed, quote_approved, payment_pending, payment_confirmed,
  payment_failed, execution_requested, execution_enqueue_failed, execution_in_progress,
  execution_failed, completed, value, HistoryEntry, ServiceOrder,
}
use service_order_os_service.Sql.Table.{Table}

-- The table `service_orders`.
pub record OrderRow : Type 0 where
  pub service_order_id : String
  pub customer_id : String
  pub vehicle_id : String
  pub description : String
  pub status : String
  pub history : Json

-- `ServiceOrderStatus(text)`
unfoldable pub parse_status : String → Result Status
parse_status t =
    if t == "OPENED"
    then ok opened
    else if t == "QUOTE_REQUESTED"
    then ok quote_requested
    else if t == "QUOTE_FAILED"
    then ok quote_failed
    else if t == "QUOTE_APPROVED"
    then ok quote_approved
    else if t == "PAYMENT_PENDING"
    then ok payment_pending
    else if t == "PAYMENT_CONFIRMED"
    then ok payment_confirmed
    else if t == "PAYMENT_FAILED"
    then ok payment_failed
    else if t == "EXECUTION_REQUESTED"
    then ok execution_requested
    else if t == "EXECUTION_ENQUEUE_FAILED"
    then ok execution_enqueue_failed
    else if t == "EXECUTION_IN_PROGRESS"
    then ok execution_in_progress
    else if t == "EXECUTION_FAILED"
    then ok execution_failed
    else if t == "COMPLETED"
    then ok completed
    else err (value_error ("'" ++ (t ++ "' is not a valid ServiceOrderStatus")))

-- `entry[key]` of a value that `json` gave
unfoldable pub item_of : String → Json → Result Json
item_of key (obj fs) = elim (lookup key (entries fs)) [ none ↦ err (key_error key) | some v ↦ ok v ]
item_of key v = err (other_error "indices must be integers, or the value has none")

-- What the repository uses of Python: `str`, `json.loads`, `datetime.isoformat` and `fromisoformat`.
pub record Codec : Type 0 where
  pub show : Json → String
  pub loads : String → Result Json
  pub isoformat : Instant → String
  pub fromisoformat : String → Result Instant

module _ (py : Codec) where
  -- The values that `save` writes.
  unfoldable pub entry_value : HistoryEntry → Json
  entry_value e = obj (
      field "status" (str (value e.status))
        (field "reason" (str e.reason) (field "created_at" (str (py.isoformat e.created_at)) end)))

  unfoldable pub history_values : List HistoryEntry → Items
  history_values [] = nil
  history_values (e ∷ h) = cons (entry_value e) (history_values h)

  unfoldable pub to_row : ServiceOrder → OrderRow
  to_row o = record {
    service_order_id = o.service_order_id;
    customer_id = o.customer_id;
    vehicle_id = o.vehicle_id;
    description = o.description;
    status = value o.status;
    history = arr (history_values o.history);
  }

  -- One entry of `_from_row`, whose three fields are read in this order.
  unfoldable pub read_entry : Json → Result HistoryEntry
  read_entry v = and_then (item_of "status" v) λ s. and_then (parse_status (py.show s)) λ status.
      and_then (item_of "reason" v) λ r. and_then (item_of "created_at" v) λ c.
        and_then (py.fromisoformat (py.show c))
          λ at. ok (record { status = status; reason = py.show r; created_at = at })

  unfoldable pub read_items : Items → Result (List HistoryEntry)
  read_items nil = ok []
  read_items (cons v vs) = and_then (read_entry v) λ e. and_then (read_items vs) λ h. ok (e ∷ h)

  -- The iteration over `raw_history`: a dict gives its keys and a text its characters, which have no
  -- fields.
  unfoldable pub read_history : Json → Result (List HistoryEntry)
  read_history (arr vs) = read_items vs
  read_history (obj end) = ok []
  read_history (obj (field k v fs)) = err (other_error "string indices must be integers")
  read_history (str t) =
      if t == "" then ok [] else err (other_error "string indices must be integers")
  read_history v = err (other_error "object is not iterable")

  -- `if isinstance(raw_history, str): raw_history = json.loads(raw_history)`
  unfoldable pub raw_history : Json → Result Json
  raw_history (str t) = py.loads t
  raw_history v = ok v

  -- `_from_row`
  unfoldable pub from_row : OrderRow → Result ServiceOrder
  from_row row = and_then (raw_history row.history) λ raw.
      and_then (parse_status row.status) λ status. and_then (read_history raw) λ history.
        ok (record {
          customer_id = row.customer_id;
          vehicle_id = row.vehicle_id;
          description = row.description;
          service_order_id = row.service_order_id;
          status = status;
          history = history;
        })

  module _ {T : Type 0} (table : Table T OrderRow (λ r. r.service_order_id)) where
    -- What `save` does, given the rows that it found: `scalar_one_or_none` refuses more than one.
    unfoldable pub upsert : List OrderRow → ServiceOrder → Exec T (Unit {0})
    upsert [] o s = table.insert (to_row o) s
    upsert (r ∷ []) o s = table.update o.service_order_id (λ r. to_row o) s
    upsert (r ∷ r' ∷ rs) o s =
        (err (other_error "Multiple rows were found when one or none was required"), s)

    -- `save`
    unfoldable pub save : ServiceOrder → Exec T (Unit {0})
    unfolding upsert
    save o s = upsert (table.select (λ r. r.service_order_id == o.service_order_id) s) o s

    -- What `get` does with the rows that it found.
    unfoldable pub first_order : String → List OrderRow → Result ServiceOrder
    first_order k [] = err (key_error ("Service order not found: " ++ k))
    first_order k (r ∷ rs) = from_row r

    -- `get`
    unfoldable pub get : String → T → Result ServiceOrder
    unfolding first_order
    get k s = first_order k (table.select (λ r. r.service_order_id == k) s)
