-- ===== src/Tests/ListText.antt =====
-- A way to write lists of texts, in which every character stands behind a stroke.
use service_order_os_service.Prelude.{
  Bool, true, false, Char, String, List, [], ◌∷◌, ◌≡◌, refl, ◌==◌, eq_iff, Bool-cases, inl, inr,
  if◌then◌else◌,
}
use service_order_os_service.Exec.{Result, ok, err, value_error}
use service_order_os_service.Json.{Json, arr}
use service_order_os_service.Text.{is_space, lstrip, rstrip, strip}
use service_order_os_service.Text.Search.{same_char}
use service_order_os_service.Config.Settings.Laws.{texts}

-- The characters of a text, before what follows it.
unfoldable written : String → String → String
written String.[] k = k
written (String.◌∷◌ c t) k = String.◌∷◌ "|" (String.◌∷◌ c (written t k))

unfoldable items_text : List String → String
items_text [] = "]"
items_text (t ∷ ts) = String.◌∷◌ "," (written t (items_text ts))

unfoldable pub dump_list : List String → String
unfolding items_text written
dump_list ts = String.◌∷◌ "[" (items_text ts)

abbrev onto : Char → String × List String → String × List String
onto c (t, ts) = (String.◌∷◌ c t, ts)

abbrev begin_item : String × List String → String × List String
begin_item (t, ts) = ("", t ∷ ts)

-- The rest of an item and the items behind it; the flag is set behind a stroke.
unfoldable read_items : Bool → String → String × List String
read_items b String.[] = ("", [])
read_items true (String.◌∷◌ c s) = onto c (read_items false s)
read_items false (String.◌∷◌ c s) =
    let rest = read_items false s in
    let next = read_items true s in
    if same_char c "|" then next else if same_char c "," then begin_item rest else ("", [])

unfoldable pub load_list : String → Result Json
unfolding read_items
load_list String.[] = err (value_error "Expecting value")
load_list (String.◌∷◌ c s) = ok (arr (texts (read_items false s).1))

read_written :
    (t k : String) (ts : List String)
    → read_items false k ≡ ("", ts)
    → read_items false (written t k) ≡ (t, ts)
unfolding read_items written
read_written String.[] k ts h = h
read_written (String.◌∷◌ c t) k ts h = rw (read_written t k ts h) refl

read_items_text : (ts : List String) → read_items false (items_text ts) ≡ ("", ts)
unfolding read_items items_text
read_items_text [] = refl
read_items_text (t ∷ ts) = rw (read_written t (items_text ts) ts (read_items_text ts)) refl

pub load_list-dump_list : (ts : List String) → load_list (dump_list ts) ≡ ok (arr (texts ts))
unfolding load_list dump_list
load_list-dump_list ts = rw (read_items_text ts) refl

-- A text that ends with no space.
abbrev Solid : String → Type 0
Solid k = (rstrip k ≡ k) × ((k == "") ≡ false)

cons_full : (c : Char) (k : String) → (String.◌∷◌ c k == "") ≡ false
cons_full c k = elim (Bool-cases (String.◌∷◌ c k == "")) [
  | inl e ↦ absurd (cc ((eq_iff (String.◌∷◌ c k) "").0 e))
  | inr e ↦ e
]

Solid-cons : (c : Char) (k : String) → Solid k → Solid (String.◌∷◌ c k)
unfolding rstrip
Solid-cons c k (h, e) = (rw (h, e) refl, cons_full c k)

Solid-written : (t k : String) → Solid k → Solid (written t k)
unfolding written
Solid-written String.[] k h = h
Solid-written (String.◌∷◌ c t) k h =
    Solid-cons "|" (String.◌∷◌ c (written t k)) (Solid-cons c (written t k) (Solid-written t k h))

Solid-items_text : (ts : List String) → Solid (items_text ts)
unfolding items_text rstrip is_space
Solid-items_text [] = (refl, refl)
Solid-items_text (t ∷ ts) =
    Solid-cons "," (written t (items_text ts))
      (Solid-written t (items_text ts) (Solid-items_text ts))

pub strip-dump_list : (ts : List String) → strip (dump_list ts) ≡ dump_list ts
unfolding strip lstrip is_space dump_list
strip-dump_list ts = (Solid-cons "[" (items_text ts) (Solid-items_text ts)).0
