-- ===== src/Deploy/PrepareEnv/Laws.antt =====
-- The lists that scripts/deploy/prepare_env.py rewrites, as src/infrastructure/config/settings.py reads them.
use Prim.Native.String.{String}
use service_order_os_service.Prelude.{
  Bool, true, false, List, [], ◌∷◌, arith, ◌≡◌, refl, ap, subst, ◌==◌, eq_iff, Bool-cases, inl, inr,
  if◌then◌else◌,
}
use service_order_os_service.Prelude.Dict.{Dict, insert, lookup-insert}
use service_order_os_service.Exec.{Result, ok, err, and_then}
use service_order_os_service.Json.{Json, null, bool, number, arr, str, obj}
use service_order_os_service.Text.{strip}
use service_order_os_service.Text.Search.{starts_with, split_on, clean}
use service_order_os_service.Config.Settings.{text, shown_items, items_of, parse_csv_or_json_list}
use service_order_os_service.Config.Settings.Laws.{texts, shown_texts, clean_idem}
use service_order_os_service.Deploy.EnvFile.{value_or_empty}
use service_order_os_service.Deploy.EnvFields.{EnvReader, require_non_empty}
use service_order_os_service.Deploy.PrepareEnv.{
  array_items, list_items, is_empty, normalize_list_field,
}

-- What `json` does with a list of texts: its array begins with a bracket, has no space around it and is
-- read back, and `str` of a text is that text.
pub record ReadsLists (py : EnvReader) : Type 0 where
  pub shows : (t : String) → py.settings.show (str t) ≡ t
  pub loaded : (ts : List String) → py.settings.loads (py.dumps ts) ≡ ok (arr (texts ts))
  pub bracketed : (ts : List String) → starts_with (py.dumps ts) "[" ≡ true
  pub trimmed : (ts : List String) → strip (py.dumps ts) ≡ py.dumps ts

ok_inj : {s t : List String} → ok s ≡ ok t → s ≡ t
ok_inj {s = s} h = ap (λ (r : Result (List String)). elim r [ ok x ↦ x | err x ↦ s ]) h

nothing_starts : starts_with "" "[" ≡ false
unfolding starts_with
nothing_starts = refl

-- A list is clean: no item has a space around it, and none is empty.
abbrev Cleaned : List String → Type 0
Cleaned ts = clean ts ≡ ts

module _ (py : EnvReader) where
  array_items_lem :
      (key : String) (r : Result Json) (ts : List String)
      → array_items py key r ≡ ok ts
      → (and_then r (items_of py.settings) ≡ ok ts) × Cleaned ts
  unfolding array_items items_of
  array_items_lem key (ok (arr vs)) ts h =
      (h, subst Cleaned (ok_inj h) (clean_idem (shown_items py.settings vs)))
  array_items_lem key (ok null) ts h = absurd (ground arith)
  array_items_lem key (ok (bool b)) ts h = absurd (ground arith)
  array_items_lem key (ok (number z t)) ts h = absurd (ground arith)
  array_items_lem key (ok (str t)) ts h = absurd (ground arith)
  array_items_lem key (ok (obj fs)) ts h = absurd (ground arith)
  array_items_lem key (err x) ts h = absurd (ground arith)

  list_items_lem :
      (key v : String) (ts : List String)
      → (strip v == "") ≡ false
      → list_items py key (strip v) ≡ ok ts
      → (parse_csv_or_json_list py.settings (text v) ≡ ok ts) × Cleaned ts
  list_items_lem key v ts there h = go (starts_with (strip v) "[") refl
    where
      opened : list_items py key (strip v) ≡ (
          if starts_with (strip v) "["
          then array_items py key (py.settings.loads (strip v))
          else ok (clean (split_on "," (strip v))))
      opened = unfold list_items in refl

      parsed : parse_csv_or_json_list py.settings (text v) ≡ (
          if starts_with (strip v) "["
          then and_then (py.settings.loads (strip v)) (items_of py.settings)
          else ok (clean (split_on "," (strip v))))
      parsed = unfold parse_csv_or_json_list in rw there refl

      go :
          (b : Bool)
          → starts_with (strip v) "[" ≡ b
          → (parse_csv_or_json_list py.settings (text v) ≡ ok ts) × Cleaned ts
      go true e =
          let (read, cleaned) =
            array_items_lem key (py.settings.loads (strip v)) ts (cc (opened, h, e)) in
          (cc (parsed, e, read), cleaned)
      go false e =
          let same : clean (split_on "," (strip v)) ≡ ts = ok_inj (cc (opened, h, e)) in
          (cc (parsed, e, same), subst Cleaned same (clean_idem (split_on "," (strip v))))

  dumped_items :
      ReadsLists py
      → (ts : List String) → Cleaned ts
      → parse_csv_or_json_list py.settings (text (py.dumps ts)) ≡ ok ts
  unfolding parse_csv_or_json_list items_of
  dumped_items reads ts c = rw (reads.trimmed ts) (
      rw (reads.bracketed ts) (
        rw (reads.loaded ts) (
          rw (shown_texts py.settings reads.shows ts)
            (rw c (ground (arith, eq_iff (py.dumps ts) "", reads.bracketed ts, nothing_starts))))))

  value_after : (key v : String) (d : Dict String) → value_or_empty (insert key v d) key ≡ v
  unfolding value_or_empty
  value_after key v d = ground (arith, lookup-insert key key v d, eq_iff key key)

  abbrev FieldWritten : String → Dict String → Dict String → Type 0
  FieldWritten key d d' =
      (ts : List String) × (list_items py key (strip (value_or_empty d key)) ≡ ok ts)
      × ((strip (value_or_empty d key) == "") ≡ false)
      × (is_empty py ts ≡ false)
      × (d' ≡ insert key (py.dumps ts) d)

  field_written :
      (key : String) (d d' : Dict String)
      → normalize_list_field py key d ≡ (ok tt, d')
      → FieldWritten key d d'
  unfolding normalize_list_field require_non_empty
  field_written key d d' h = elim (Bool-cases (strip (value_or_empty d key) == "")) [
    | inl blank ↦ absurd (ground (arith, blank, h))
    | inr there ↦ go there (list_items py key (strip (value_or_empty d key))) refl
  ]
    where
      go :
          (strip (value_or_empty d key) == "") ≡ false
          → (r : Result (List String)) → list_items py key (strip (value_or_empty d key)) ≡ r
          → FieldWritten key d d'
      go there (err x) e = absurd (ground (arith, there, e, h))
      go there (ok []) e = absurd (ground (arith, there, e, h))
      go there (ok (t ∷ ts)) e = (t ∷ ts, e, there, refl, ground (arith, there, e, h))

  -- A list field that was normalized: the settings read from the new value the list, not empty, that they
  -- read from the old one, where `json` reads back the arrays that it writes.
  pub normalized_list_read :
      ReadsLists py
      → (key : String) (d d' : Dict String) → normalize_list_field py key d ≡ (ok tt, d')
      → (ts : List String) × (is_empty py ts ≡ false)
        × (parse_csv_or_json_list py.settings (text (value_or_empty d key)) ≡ ok ts)
        × (parse_csv_or_json_list py.settings (text (value_or_empty d' key)) ≡ ok ts)
  normalized_list_read reads key d d' h =
      let (ts, items, there, full, written) = field_written key d d' h in
      let (read, cleaned) = list_items_lem key (value_or_empty d key) ts there items in
      (ts, full, read, cc (written, value_after key (py.dumps ts) d, dumped_items reads ts cleaned))
