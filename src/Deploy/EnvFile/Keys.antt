-- ===== src/Deploy/EnvFile/Keys.antt =====
-- The keys that `load_env_file` of scripts/deploy/prepare_env.py takes from a file's lines.
use Prim.Native.String.{String, ◌++◌}
use text.Mathlib.TextLemmas.{cons≢nil}
use service_order_os_service.Prelude.{
  true, false, Char, List, [], ◌∷◌, All, arith, ◌≡◌, refl, sym, ap, ◌∙◌, ◌⊎◌, Bool-cases, inl, inr,
  ◌==◌, eq_iff,
}
use service_order_os_service.Prelude.Dict.{Dict, insert}
use service_order_os_service.Text.{is_space, lstrip, rstrip, strip}
use service_order_os_service.Text.Strip.{lstrip_head, lstrip_keeps, rstrip_keeps, strip_idem}
use service_order_os_service.Text.Search.{same_char, starts_with, has_char, before}
use service_order_os_service.Text.Search.Laws.{
  lacks, lacks-strip, lacks-before, lacks-before_self, lstrip-before, before-append, behind-append,
  has_char-append, nil-append, cons-append,
}
use service_order_os_service.Deploy.EnvFile.{
  is_break, is_setting, key_of, value_of, Entry, raw, kv, load_lines,
}
use service_order_os_service.Deploy.EnvFile.Laws.{load_lines_setting, load_lines_other}
use service_order_os_service.Deploy.EnvFile.Lines.{IsLine, char-append}

-- A text that an environment file can hold as a key.
pub record IsKey (k : String) : Type 0 where
  pub stripped : strip k ≡ k
  pub no_equals : lacks (λ c. same_char c "=") k ≡ true
  pub no_comment : starts_with k "#" ≡ false
  pub in_line : IsLine k

-- What the loader makes of one line.
abbrev pub IsEntry : Entry → Type 0
IsEntry (raw l) = (is_setting l ≡ false) × IsLine l
IsEntry (kv k) = IsKey k

-- A text that begins with no space keeps its first character.
strip_first :
    (c : Char) (t : String) → is_space c ≡ false → strip (String.◌∷◌ c t) ≡ String.◌∷◌ c (rstrip t)
unfolding strip
strip_first c t h = ap rstrip (lstrip_keeps c t h) ∙ rstrip_keeps c t h

cons-is_not_empty : (c : Char) (t : String) → (String.◌∷◌ c t == "") ≡ false
cons-is_not_empty c t = elim (Bool-cases (String.◌∷◌ c t == "")) [
  | inl same ↦ absurd (cons≢nil ((eq_iff (String.◌∷◌ c t) "").0 same))
  | inr other ↦ other
]

starts_with_hash : (c : Char) (t : String) → starts_with (String.◌∷◌ c t) "#" ≡ same_char c "#"
unfolding starts_with
starts_with_hash c t = ground arith

-- A text is blank, or strips to one that begins with no space.
strip_head :
    (s : String)
    → (lstrip s ≡ "")
      ⊎ ((c : Char) × (t : String) × (lstrip s ≡ String.◌∷◌ c t)
          × (strip s ≡ String.◌∷◌ c (rstrip t))
          × (is_space c ≡ false))
unfolding strip
strip_head s = elim (lstrip_head s) [
  | inl empty ↦ inl empty
  | inr (c, t, e, black) ↦ inr (c, t, e, ap rstrip e ∙ rstrip_keeps c t black, black)
]

rstrip_empty : rstrip "" ≡ ""
unfolding rstrip
rstrip_empty = refl

strip_blank : (s : String) → lstrip s ≡ "" → strip s ≡ ""
unfolding strip
strip_blank s e = ap rstrip e ∙ rstrip_empty

-- A key is empty, or begins with a character that is neither a space nor a number sign.
key_head :
    (k : String)
    → IsKey k
    → (k ≡ "")
      ⊎ ((c : Char) × (t : String) × (k ≡ String.◌∷◌ c t)
          × (is_space c ≡ false)
          × (same_char c "#" ≡ false))
key_head k h = elim (strip_head k) [
  | inl blank ↦ inl (sym h.stripped ∙ strip_blank k blank)
  | inr (c, t, _, e, black) ↦
      let whole = sym h.stripped ∙ e in
      inr (
        c,
        rstrip t,
        whole,
        black,
        sym (starts_with_hash c (rstrip t))
            ∙ ap (λ s. starts_with s "#") (sym whole)
            ∙ h.no_comment,
      )
]

begins_setting :
    (c : Char) (t : String)
    → is_space c ≡ false
    → same_char c "#" ≡ false
    → has_char "=" (String.◌∷◌ c t) ≡ true
    → is_setting (String.◌∷◌ c t) ≡ true
unfolding is_setting
begins_setting c t black hash equals =
    rw
      (
        strip_first c t black,
        cons-is_not_empty c (rstrip t),
        starts_with_hash c (rstrip t),
        hash,
        equals,
      )
      refl

equals_setting : (v : String) → is_setting (String.◌∷◌ "=" v) ≡ true
unfolding is_space has_char
equals_setting v = begins_setting "=" v refl refl refl

module _ (k v : String) (h : IsKey k) where
  pub is_setting-rendered : is_setting (k ++ ("=" ++ v)) ≡ true
  is_setting-rendered = rw (char-append "=" v) (elim (key_head k h) [
    | inl empty ↦ rw (empty, nil-append (String.◌∷◌ "=" v)) (equals_setting v)
    | inr (c, t, e, black, hash) ↦
        let line = cons-append c t (String.◌∷◌ "=" v) in
        rw (e, line)
          (begins_setting c (t ++ String.◌∷◌ "=" v) black hash
            (ap (has_char "=") (sym line) ∙ has_char-append "=" (String.◌∷◌ c t) v))
  ])

  pub key_of-rendered : key_of (k ++ ("=" ++ v)) ≡ k
  key_of-rendered =
      ap (λ s. key_of (k ++ s)) (char-append "=" v)
      ∙ ap strip (before-append "=" k v h.no_equals)
      ∙ h.stripped

  pub value_of-rendered : value_of (k ++ ("=" ++ v)) ≡ strip v
  value_of-rendered =
      ap (λ s. value_of (k ++ s)) (char-append "=" v) ∙ ap strip (behind-append "=" k v h.no_equals)

not_comment : (l : String) → is_setting l ≡ true → starts_with (strip l) "#" ≡ false
unfolding is_setting
not_comment l s = ground (arith, s)

before_here : (c : Char) (t : String) → same_char c "=" ≡ true → before "=" (String.◌∷◌ c t) ≡ ""
unfolding before
before_here c t h = rw h refl

before_later :
    (c : Char) (t : String)
    → same_char c "=" ≡ false
    → before "=" (String.◌∷◌ c t) ≡ String.◌∷◌ c (before "=" t)
unfolding before
before_later c t h = rw h refl

not_comment_key : (l : String) → is_setting l ≡ true → starts_with (key_of l) "#" ≡ false
unfolding starts_with strip is_space
not_comment_key l s = elim (strip_head l) [
  | inl blank ↦ rw (cut, blank) (unfold before rstrip in refl)
  | inr (c, t, e, whole, black) ↦ elim (Bool-cases (same_char c "=")) [
    | inl equals ↦ rw (cut, e, before_here c t equals) (unfold rstrip in refl)
    | inr other ↦
        rw (cut, e, before_later c t other, rstrip_keeps c (before "=" t) black)
          (starts_with_hash c (rstrip (before "=" t))
            ∙ sym (starts_with_hash c (rstrip t))
            ∙ ap (λ s. starts_with s "#") (sym whole)
            ∙ not_comment l s)
  ]
]
  where
    cut : lstrip (before "=" l) ≡ before "=" (lstrip l)
    cut = lstrip-before "=" l refl

-- The key of a line that sets a value.
key_of-IsKey : (l : String) → is_setting l ≡ true → IsLine l → IsKey (key_of l)
key_of-IsKey l s h = record {
  stripped = strip_idem (before "=" l);
  no_equals = lacks-strip (λ c. same_char c "=") (before "=" l) (lacks-before_self "=" l);
  no_comment = not_comment_key l s;
  in_line = lacks-strip is_break (before "=" l) (lacks-before is_break "=" l h);
}

pub load_lines-IsEntry :
    (values : Dict String) (ls : List String)
    → All IsLine ls
    → All IsEntry (load_lines values ls).entries
load_lines-IsEntry values [] h = unfold load_lines in tt
load_lines-IsEntry values (l ∷ ls) (h, hs) = elim (Bool-cases (is_setting l)) [
  | inl sets ↦
      rw (load_lines_setting values l ls sets)
        (key_of-IsKey l sets h, load_lines-IsEntry (insert (key_of l) (value_of l) values) ls hs)
  | inr other ↦
      rw (load_lines_other values l ls other) ((other, h), load_lines-IsEntry values ls hs)
]
