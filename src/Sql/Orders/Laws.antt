-- ===== src/Sql/Orders/Laws.antt =====
-- The repository of service orders over SQL as what the use cases ask of one.
use service_order_os_service.Prelude.{
  String, Option, none, some, List, [], ◌∷◌, arith, ◌≡◌, inl, inr, refl, ◌==◌, Option-cases,
  if◌then◌else◌,
}
use service_order_os_service.Prelude.Dict.{lookup}
use service_order_os_service.Exec.{Result, Exn, ok, err}
use service_order_os_service.Json.{str, entries}
use service_order_os_service.Domain.Event.{Instant}
use service_order_os_service.Domain.Order.Base.{Status, value, HistoryEntry, ServiceOrder}
use service_order_os_service.App.Ports.{OrderPort}
use service_order_os_service.Sql.Table.{Table}
use service_order_os_service.Sql.Orders.{
  OrderRow, Codec, parse_status, item_of, entry_value, history_values, to_row, read_entry,
  read_items, read_history, raw_history, from_row, upsert, save, first_order, get,
}

parse_status-value : (s : Status) → parse_status (value s) ≡ ok s
unfolding parse_status value
parse_status-value Status.opened = refl
parse_status-value Status.quote_requested = refl
parse_status-value Status.quote_failed = refl
parse_status-value Status.quote_approved = refl
parse_status-value Status.payment_pending = refl
parse_status-value Status.payment_confirmed = refl
parse_status-value Status.payment_failed = refl
parse_status-value Status.execution_requested = refl
parse_status-value Status.execution_enqueue_failed = refl
parse_status-value Status.execution_in_progress = refl
parse_status-value Status.execution_failed = refl
parse_status-value Status.completed = refl

-- `str` leaves a text as it is, and `fromisoformat` reads what `isoformat` writes.
pub record IsCodec (py : Codec) : Type 0 where
  pub shows : (t : String) → py.show (str t) ≡ t
  pub reads : (at : Instant) → py.fromisoformat (py.isoformat at) ≡ ok at

module _ (py : Codec) (lawful : IsCodec py) where
  read_entry-entry_value : (e : HistoryEntry) → read_entry py (entry_value py e) ≡ ok e
  unfolding read_entry entry_value item_of lookup entries
  read_entry-entry_value e =
      rw
        (
          lawful.shows (value e.status),
          parse_status-value e.status,
          lawful.shows e.reason,
          lawful.shows (py.isoformat e.created_at),
          lawful.reads e.created_at,
        )
        refl

  read_items-history_values : (h : List HistoryEntry) → read_items py (history_values py h) ≡ ok h
  unfolding read_items history_values
  read_items-history_values [] = refl
  read_items-history_values (e ∷ h) =
      rw (read_entry-entry_value e, read_items-history_values h) refl

  -- Reading the row that an order is written as gives the order back, with its whole history.
  pub from_row-to_row : (o : ServiceOrder) → from_row py (to_row py o) ≡ ok o
  unfolding from_row to_row raw_history read_history
  from_row-to_row o = rw (parse_status-value o.status, read_items-history_values o.history) refl

  module _ {T : Type 0} (table : Table T OrderRow (λ r. r.service_order_id)) where
    -- The order of a row, where there is one.
    abbrev found : String → Option OrderRow → Result ServiceOrder
    found k none = first_order py table k []
    found k (some r) = from_row py r

    get_found : (k : String) (s : T) → get py table k s ≡ found k (table.at k s)
    unfolding get first_order
    get_found k s = rw (table.select_key k s) (ground arith)

    saved_at :
        (o : ServiceOrder) (j : String) (s t : T)
        → save py table o s ≡ (ok tt, t)
        → table.at j t ≡ (if o.service_order_id == j then some (to_row py o) else table.at j s)
    unfolding save upsert to_row
    saved_at o j s t e = elim (Option-cases (table.at o.service_order_id s)) [
      | inl absent ↦
          ground (arith, table.select_key o.service_order_id s, table.at-insert (to_row py o) j s t)
      | inr (r, there) ↦ ground (
        arith,
        table.select_key o.service_order_id s,
        table.at-update o.service_order_id j (λ r. to_row py o) s t (λ r h. refl),
      )
    ]

    -- An order that was saved is what `get` gives under its identifier, with its whole history, and every
    -- other identifier gives what it gave before.
    pub sql_get-save :
        (o : ServiceOrder) (j : String) (s t : T)
        → save py table o s ≡ (ok tt, t)
        → get py table j t ≡ (if o.service_order_id == j then ok o else get py table j s)
    sql_get-save o j s t e =
        rw (get_found j t, get_found j s, saved_at o j s t e) (ground (arith, from_row-to_row o))

    pub sql_save_atomic :
        (o : ServiceOrder) (x : Exn) (s t : T) → save py table o s ≡ (err x, t) → t ≡ s
    unfolding save upsert
    sql_save_atomic o x s t e = elim (Option-cases (table.at o.service_order_id s)) [
      | inl absent ↦
          ground
            (arith, table.select_key o.service_order_id s, table.insert_atomic (to_row py o) x s t)
      | inr (r, there) ↦ ground (
        arith,
        table.select_key o.service_order_id s,
        table.update_atomic o.service_order_id (λ r. to_row py o) x s t,
      )
    ]

    -- `get` returns a new object, so changing it changes no row.
    abbrev pub sql_orders : OrderPort T
    sql_orders = record {
      save = save py table;
      get = get py table;
      written = λ k o s. s;
      get-save = sql_get-save;
      save_atomic = sql_save_atomic;
      get-written = λ k j o o' s g ne. refl;
      get-written_self = λ k o o' s g. inr g;
      written_same = λ k o s g. refl;
    }
