-- ===== src/Deploy/EnvFile/Lines.antt =====
-- The lines of an environment file: `splitlines` of scripts/deploy/prepare_env.py and what it joins.
use Prim.Native.String.{String, ◌++◌}
use text.Mathlib.TextLemmas.{append_assoc}
use service_order_os_service.Prelude.{
  true, false, Char, List, [], ◌∷◌, All, arith, ◌≡◌, refl, ap, ◌∙◌, Bool-cases, inl, inr,
}
use service_order_os_service.Text.Search.Laws.{lacks, nil-append, cons-append}
use service_order_os_service.Deploy.EnvFile.{is_break, onto_line, splitlines, join_lines}

-- No character of the text ends a line.
abbrev pub IsLine : String → Type 0
IsLine l = lacks is_break l ≡ true

pub char-append : (c : Char) (s : String) → String.◌∷◌ c "" ++ s ≡ String.◌∷◌ c s
char-append c s = cons-append c "" s ∙ ap (String.◌∷◌ c) (nil-append s)

splitlines_at_break : (s : String) → splitlines (String.◌∷◌ "\n" s) ≡ "" ∷ splitlines s
unfolding splitlines is_break
splitlines_at_break s = refl

splitlines_within :
    (c : Char) (s : String)
    → is_break c ≡ false
    → splitlines (String.◌∷◌ c s) ≡ onto_line c (splitlines s)
unfolding splitlines
splitlines_within c s h = rw h refl

IsLine-cons : (c : Char) (s : String) → IsLine (String.◌∷◌ c s) → (is_break c ≡ false) × IsLine s
unfolding lacks
IsLine-cons c s h = ground (arith, h)

splitlines-append : (l s : String) → IsLine l → splitlines (l ++ ("\n" ++ s)) ≡ l ∷ splitlines s
splitlines-append String.[] s h =
    ap splitlines (nil-append ("\n" ++ s) ∙ char-append "\n" s) ∙ splitlines_at_break s
splitlines-append (String.◌∷◌ c l) s h =
    let (inside, rest) = IsLine-cons c l h in
    ap splitlines (cons-append c l ("\n" ++ s))
    ∙ splitlines_within c (l ++ ("\n" ++ s)) inside
    ∙ ap (onto_line c) (splitlines-append l s rest)

splitlines_empty : splitlines "" ≡ []
unfolding splitlines
splitlines_empty = refl

pub splitlines-join_lines :
    (l : String) (ls : List String)
    → All IsLine (l ∷ ls)
    → splitlines (join_lines (l ∷ ls) ++ "\n") ≡ l ∷ ls
unfolding join_lines
splitlines-join_lines l [] (h, hs) = splitlines-append l "" h ∙ ap (l ∷◌) splitlines_empty
splitlines-join_lines l (l' ∷ ls) (h, hs) =
    ap splitlines (
      append_assoc l ("\n" ++ join_lines (l' ∷ ls)) "\n"
      ∙ ap (l ++◌) (append_assoc "\n" (join_lines (l' ∷ ls)) "\n"))
    ∙ splitlines-append l (join_lines (l' ∷ ls) ++ "\n") h
    ∙ ap (l ∷◌) (splitlines-join_lines l' ls hs)

IsLine-empty : IsLine ""
unfolding lacks
IsLine-empty = refl

onto_line-lines :
    (c : Char) (ls : List String) → is_break c ≡ false → All IsLine ls → All IsLine (onto_line c ls)
unfolding lacks
onto_line-lines c [] e h = (rw e refl, tt)
onto_line-lines c (l ∷ ls) e (h, hs) = (rw e h, hs)

pub splitlines-lines : (s : String) → All IsLine (splitlines s)
unfolding splitlines
splitlines-lines String.[] = tt
splitlines-lines (String.◌∷◌ c s) = elim (Bool-cases (is_break c)) [
  | inl end ↦ rw end (IsLine-empty, splitlines-lines s)
  | inr inside ↦ rw inside (onto_line-lines c (splitlines s) inside (splitlines-lines s))
]
