-- ===== src/App/Reads.antt =====
-- Calls of src/application/use_cases.py that read a repository, or raise, before one that writes it.
use service_order_os_service.Prelude.{true, false, Bool, arith, ◌≡◌, sym, ap, subst}
use service_order_os_service.Exec.{
  Exec, Result, ok, err, Exn, pure, lift, raise_if, bind_returned, ◌>>=◌, ◌>>◌,
}
use service_order_os_service.App.Customers.{asks}

module _ {S : Type 0} where
  -- A call that returned and leaves the state alone, before another.
  pub bind_reads :
      {A B : Type 0} (m : Exec S A) (k : A → Exec S B) (b : B) (s t : S)
      → ((r : S) (a : A) → m s ≡ (ok a, r) → r ≡ s)
      → (m >>= k) s ≡ (ok b, t)
      → (a : A) × (m s ≡ (ok a, s)) × (k a s ≡ (ok b, t))
  bind_reads m k b s t stays h =
      let (a, r, called, rest) = bind_returned m k b s t h in
      let same = stays r a called in
      (a, subst (λ x. m s ≡ (ok a, x)) same called, subst (λ x. k a x ≡ (ok b, t)) same rest)

  pub asks_stays : {A : Type 0} (f : S → Result A) (s r : S) (a : A) → asks f s ≡ (ok a, r) → r ≡ s
  asks_stays {A} f s r a h = sym (ap (λ (x : Result A × S). x.1) h)

  -- A call behind a test that let it pass.
  pub passed :
      {B : Type 0} (c : Bool) (e : Exn) (m : Exec S B) (b : B) (s t : S)
      → (raise_if c e >> m) s ≡ (ok b, t)
      → m s ≡ (ok b, t)
  passed true e m b s t h = absurd (ground (arith, h))
  passed false e m b s t h = h

  pub raise_stays :
      (c : Bool) (e : Exn) (s r : S) (u : Unit {0}) → raise_if c e s ≡ (ok u, r) → r ≡ s
  raise_stays true e s r u h = absurd (ground (arith, h))
  raise_stays false e s r u h = sym (ap (λ (x : Result (Unit {0}) × S). x.1) h)

  -- A call that returns what it wrote.
  pub wrote :
      {A : Type 0} (m : Exec S (Unit {0})) (a b : A) (s t : S)
      → (m >> pure a) s ≡ (ok b, t)
      → (m s ≡ (ok tt, t)) × (a ≡ b)
  wrote {A} m a b s t h =
      let (u, r, called, rest) = bind_returned m (λ _. pure a) b s t h in
      let same : r ≡ t = ap (λ (x : Result A × S). x.1) rest in
      (
        subst (λ x. m s ≡ (ok tt, x)) same called,
        ap (λ (x : Result A × S). elim (x.0) as (λ _. A) [ ok z ↦ z | err z ↦ a ]) rest,
      )

  pub lift_stays : {A : Type 0} (f : Result A) (s r : S) (a : A) → lift f s ≡ (ok a, r) → r ≡ s
  lift_stays {A} f s r a h = sym (ap (λ (x : Result A × S). x.1) h)
