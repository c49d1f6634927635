-- ===== src/App/Vehicles/Stored.antt =====
-- What `CreateVehicleUseCase` and `UpdateVehicleUseCase` of src/application/use_cases.py leave in a repository,
-- of whatever kind.
use service_order_os_service.Prelude.{
  String, Option, is_some, arith, ◌≡◌, sym, ap, subst, ◌∙◌, ◌==◌, Bool-cases, inl, inr,
  if◌then◌else◌,
}
use service_order_os_service.Exec.{Exec, Result, ok, value_error, pure, lift, raise_if, ◌>>=◌, ◌>>◌}
use service_order_os_service.Domain.Event.{Instant}
use service_order_os_service.Domain.Party.{Customer, Vehicle, Birth}
use service_order_os_service.App.PartyPorts.{CustomerPort, VehiclePort}
use service_order_os_service.App.Reads.{
  bind_reads, asks_stays, lift_stays, passed, raise_stays, wrote,
}
use service_order_os_service.App.Customers.{asks}
use service_order_os_service.App.Vehicles.{
  CreateVehicleCommand, UpdateVehicleCommand, is_other, create, update, new_vehicle, revised,
  check_plate,
}

-- A repository of vehicles that gives back what it was given, from sound states.
pub record IsStore {S : Type 0} (port : VehiclePort S) (Sound : S → Type 0) : Type 0 where
  pub named : (k : String) (v : Vehicle) (s : S) → Sound s → port.get k s ≡ ok v → v.vehicle_id ≡ k
  pub get-save :
      (v : Vehicle) (j : String) (s t : S)
      → port.save v s ≡ (ok tt, t)
      → port.get j t ≡ (if v.vehicle_id == j then ok v else port.get j s)
  pub get-update :
      (v old : Vehicle) (j : String) (s t : S)
      → port.get v.vehicle_id s ≡ ok old
      → v.created_at ≡ old.created_at
      → port.update v s ≡ (ok tt, t)
      → port.get j t ≡ (if v.vehicle_id == j then ok v else port.get j s)
  pub save-Sound : (v : Vehicle) (s t : S) → Sound s → port.save v s ≡ (ok tt, t) → Sound t
  pub update-Sound : (v : Vehicle) (s t : S) → Sound s → port.update v s ≡ (ok tt, t) → Sound t

module _ {S C : Type 0} (port : VehiclePort S) (customer_port : CustomerPort C)
    (customers : C) where
  created_writes :
      (cmd : CreateVehicleCommand) (b : Birth) (v : Vehicle) (s t : S)
      → create port customer_port customers cmd b s ≡ (ok v, t)
      → (owner : Customer) × (customer_port.get cmd.customer_id customers ≡ ok owner)
        × (port.save v s ≡ (ok tt, t))
        × (new_vehicle cmd b ≡ v)
  unfolding create
  created_writes cmd b v s t h =
      let (owner, known, h1) =
        bind_reads (lift (customer_port.get cmd.customer_id customers)) (λ _. checked) v s t
          (lift_stays (customer_port.get cmd.customer_id customers) s) h in
      let (other, _, h2) =
        bind_reads (asks (port.find_by_plate cmd.plate)) saved v s t
          (asks_stays (port.find_by_plate cmd.plate) s) h1 in
      let h3 =
        passed (is_some other) (value_error "Vehicle plate already registered") saving v s t h2 in
      let (written, same) = wrote (port.save (new_vehicle cmd b)) (new_vehicle cmd b) v s t h3 in
      (
        owner,
        ap (λ (x : Result Customer × S). x.0) known,
        subst (λ x. port.save x s ≡ (ok tt, t)) same written,
        same,
      )
    where
      saving : Exec S Vehicle
      saving = port.save (new_vehicle cmd b) >> pure (new_vehicle cmd b)

      saved : Option Vehicle → Exec S Vehicle
      saved other =
          raise_if (is_some other) (value_error "Vehicle plate already registered") >> saving

      checked : Exec S Vehicle
      checked = asks (port.find_by_plate cmd.plate) >>= saved

  check_plate_stays :
      (cmd : UpdateVehicleCommand) (v : Vehicle) (s r : S) (u : Unit {0})
      → check_plate port customer_port customers cmd v s ≡ (ok u, r)
      → r ≡ s
  unfolding check_plate
  check_plate_stays cmd v s r u h = elim (Bool-cases (cmd.plate == v.plate)) [
    | inl same ↦ ground (arith, same, h)
    | inr new ↦
        let (other, _, rest) =
          bind_reads (asks (port.find_by_plate cmd.plate)) refused u s r
            (asks_stays (port.find_by_plate cmd.plate) s) (ground (arith, new, h)) in
        raise_stays (is_other cmd.vehicle_id other) (value_error "Vehicle plate already registered")
          s r u rest
  ]
    where
      refused : Option Vehicle → Exec S (Unit {0})
      refused other =
          raise_if (is_other cmd.vehicle_id other) (value_error "Vehicle plate already registered")

  updated_writes :
      (cmd : UpdateVehicleCommand) (now : Instant) (v : Vehicle) (s t : S)
      → update port customer_port customers cmd now s ≡ (ok v, t)
      → (old : Vehicle) × (port.get cmd.vehicle_id s ≡ ok old)
        × ((owner : Customer) × (customer_port.get cmd.customer_id customers ≡ ok owner))
        × (port.update v s ≡ (ok tt, t))
        × (revised cmd now old ≡ v)
  unfolding update
  updated_writes cmd now v s t h =
      let (old, found, h1) =
        bind_reads (asks (port.get cmd.vehicle_id)) owner_checked v s t
          (asks_stays (port.get cmd.vehicle_id) s) h in
      let (owner, known, h2) =
        bind_reads (lift (customer_port.get cmd.customer_id customers)) (λ _. plate_checked old) v s
          t (lift_stays (customer_port.get cmd.customer_id customers) s) h1 in
      let (_, _, h3) =
        bind_reads (check_plate port customer_port customers cmd old) (λ _. updating old) v s t
          (check_plate_stays cmd old s) h2 in
      let (written, same) =
        wrote (port.update (revised cmd now old)) (revised cmd now old) v s t h3 in
      (
        old,
        ap (λ (x : Result Vehicle × S). x.0) found,
        (owner, ap (λ (x : Result Customer × S). x.0) known),
        subst (λ x. port.update x s ≡ (ok tt, t)) same written,
        same,
      )
    where
      updating : Vehicle → Exec S Vehicle
      updating old = port.update (revised cmd now old) >> pure (revised cmd now old)

      plate_checked : Vehicle → Exec S Vehicle
      plate_checked old = check_plate port customer_port customers cmd old >> updating old

      owner_checked : Vehicle → Exec S Vehicle
      owner_checked old = lift (customer_port.get cmd.customer_id customers) >> plate_checked old

  module _ (Sound : S → Type 0) (store : IsStore port Sound) where
    -- A vehicle that creation returned has an owner among the customers, and is what the repository then
    -- gives under its identifier; every other identifier gives what it gave before, and the state stays
    -- sound.
    pub created_vehicle_is_stored :
        (cmd : CreateVehicleCommand) (b : Birth) (v : Vehicle) (s t : S)
        → Sound s
        → create port customer_port customers cmd b s ≡ (ok v, t)
        → ((owner : Customer) × (customer_port.get v.customer_id customers ≡ ok owner))
          × ((j : String) → port.get j t ≡ (if v.vehicle_id == j then ok v else port.get j s))
          × Sound t
    created_vehicle_is_stored cmd b v s t sound h =
        let (owner, known, written, same) = created_writes cmd b v s t h in
        (
          (
            owner,
            subst (λ (x : Vehicle). customer_port.get x.customer_id customers ≡ ok owner) same
                known,
          ),
          λ j. store.get-save v j s t written,
          store.save-Sound v s t sound written,
        )

    -- A vehicle that an update returned has the identifier of the command and an owner among the
    -- customers, and is what the repository then gives under that identifier; every other identifier
    -- gives what it gave before, and the state stays sound.
    pub updated_vehicle_is_stored :
        (cmd : UpdateVehicleCommand) (now : Instant) (v : Vehicle) (s t : S)
        → Sound s
        → update port customer_port customers cmd now s ≡ (ok v, t)
        → (v.vehicle_id ≡ cmd.vehicle_id)
          × ((owner : Customer) × (customer_port.get v.customer_id customers ≡ ok owner))
          × ((j : String) → port.get j t ≡ (if cmd.vehicle_id == j then ok v else port.get j s))
          × Sound t
    updated_vehicle_is_stored cmd now v s t sound h =
        let (old, found, (owner, known), written, same) = updated_writes cmd now v s t h in
        let named : v.vehicle_id ≡ cmd.vehicle_id =
          ap (λ (x : Vehicle). x.vehicle_id) (sym same)
          ∙ store.named cmd.vehicle_id old s sound found in
        let made : v.created_at ≡ old.created_at = ap (λ (x : Vehicle). x.created_at) (sym same) in
        let there : port.get v.vehicle_id s ≡ ok old =
          subst (λ k. port.get k s ≡ ok old) (sym named) found in
        (
          named,
          (
            owner,
            subst (λ (x : Vehicle). customer_port.get x.customer_id customers ≡ ok owner) same
                known,
          ),
          λ j.
              subst (λ k. port.get j t ≡ (if k == j then ok v else port.get j s)) named
                (store.get-update v old j s t there made written),
          store.update-Sound v s t sound written,
        )
