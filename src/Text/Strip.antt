-- ===== src/Text/Strip.antt =====
-- `str.strip`.
use Prim.Native.String.{[], ◌∷◌}
use service_order_os_service.Prelude.{
  false, ◌&&◌, String, Char, arith, ◌≡◌, ◌⊎◌, inl, inr, refl, ◌==◌, Bool-cases, if◌then◌else◌,
}
use service_order_os_service.Text.{is_space, lstrip, rstrip, strip}

-- What is left of a text begins with no space.
pub lstrip_head :
    (s : String)
    → (lstrip s ≡ "") ⊎ ((c : Char) × (t : String) × (lstrip s ≡ c ∷ t) × (is_space c ≡ false))
unfolding lstrip
lstrip_head [] = inl refl
lstrip_head (c ∷ s) = elim (Bool-cases (is_space c)) [
  | inl space ↦ rw space (lstrip_head s)
  | inr other ↦ inr (c, s, rw other refl, other)
]

pub lstrip_keeps : (c : Char) (t : String) → is_space c ≡ false → lstrip (c ∷ t) ≡ c ∷ t
unfolding lstrip
lstrip_keeps c t h = rw h

pub rstrip_keeps : (c : Char) (t : String) → is_space c ≡ false → rstrip (c ∷ t) ≡ c ∷ rstrip t
unfolding rstrip
rstrip_keeps c t h = ground arith

pub rstrip-cons :
    (c : Char) (s : String)
    → rstrip (c ∷ s) ≡ (if rstrip s == "" && is_space c then "" else c ∷ rstrip s)
unfolding rstrip
rstrip-cons c s = refl

rstrip_empty : rstrip "" ≡ ""
unfolding rstrip
rstrip_empty = refl

rstrip_idem : (s : String) → rstrip (rstrip s) ≡ rstrip s
rstrip_idem [] = ground (arith, rstrip_empty)
rstrip_idem (c ∷ s) =
    ground (arith, rstrip_idem s, rstrip-cons c s, rstrip-cons c (rstrip s), rstrip_empty)

-- Stripping a text again changes nothing.
pub strip_idem : (s : String) → strip (strip s) ≡ strip s
unfolding strip
strip_idem s = elim (lstrip_head s) [
  | inl empty ↦ rw empty (unfold lstrip rstrip in refl)
  | inr (c, t, e, h) ↦ rw e (
      rw (rstrip_keeps c t h)
        (rw (lstrip_keeps c (rstrip t) h) (rw (rstrip_keeps c (rstrip t) h, rstrip_idem t) refl)))
]
