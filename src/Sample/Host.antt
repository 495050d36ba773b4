-- ===== src/Sample/Host.antt =====
-- A host that keeps mediated devices by their UUIDs, and nothing else.
use k8s_cex_dra_driver.Prelude.{
  ℕ, Text, List, [], ◌∷◌, ◌++◌, Bool, true, false, ◌&&◌, ◌||◌, Option, none, some, ◌≡◌, refl, ◌∙◌,
  sym, ap, ◌==◌, text_eq, text_beq_iff, drop, contains, contains-insert, insert, insert-IsNodup,
  IsNodup, All, All-insert, Bool-cases, inl, inr, arith, ==→eq, ==_refl, subst, if◌then◌else◌,
  nat_beq,
}
use mathlib.Core.Path.{fun_ext}
use k8s_cex_dra_driver.Prelude.Exec.{Result, ok, err, Exec, is_ok}
use k8s_cex_dra_driver.Prelude.Strings.{bytes, all}
use k8s_cex_dra_driver.Os.{Os, FilePath, IoError, not_exist}
use k8s_cex_dra_driver.Mdev.{
  Apqn, apqn_eq, apqn_beq_iff, vfio_ap_matrix_path, attribute_path, mdev_create_path,
}
use k8s_cex_dra_driver.Mdev.Matrix.{IsHex, is_hex_digit, print_matrix}
use k8s_cex_dra_driver.DeviceState.Matrix.{cross, contains-cross}
use k8s_cex_dra_driver.Binding.{driver_override_path, device_unbind_path, drivers_probe_path}
use k8s_cex_dra_driver.Cdi.{spec_path}
use k8s_cex_dra_driver.Metadata.{claim_dir}
use k8s_cex_dra_driver.DeviceState.Quiet.{metadata_path}
use k8s_cex_dra_driver.DeviceState.Guests.{
  Guest, Guests, IsNumber, new_guest, no_guest, assign_adapter_path, assign_domain_path,
}

pub record Assigned : Type 0 where
  pub adapters : List Text
  pub domains : List Text

abbrev pub Host : Type 0
Host = Text → Option Assigned

abbrev set : Text → Option Assigned → Host → Host
set uuid a h other = if uuid == other then a else h other

abbrev pub is_hex : Text → Bool
is_hex t = all is_hex_digit t

-- The queues whose numbers are hexadecimal, each once.
unfoldable pub hex_rows : List Apqn → List Apqn → List Apqn
hex_rows [] out = out
hex_rows (q ∷ qs) out = hex_rows qs (if is_hex q.apid && is_hex q.apqi then insert q out else out)

abbrev pub rows_of : Assigned → List Apqn
rows_of a = hex_rows (cross a.adapters a.domains) []

abbrev pub view : Option Assigned → Guest
view none = no_guest
view (some a) = record {
  present = true;
  adapters = λ t. contains a.adapters t && is_hex t;
  domains = λ t. contains a.domains t && is_hex t;
  rows = rows_of a;
}

abbrev change : Text → Text → Assigned → Option Assigned
change name text a =
    if name == bytes "remove"
    then none
    else if name == bytes "assign_adapter"
    then some (record a { adapters = insert (drop 2 text) a.adapters })
    else if name == bytes "assign_domain"
    then some (record a { domains = insert (drop 2 text) a.domains })
    else some a

abbrev attribute : Text → Text → Text → Option Assigned → Exec Host IoError (Unit {0})
attribute uuid name text none h = (err not_exist, h)
attribute uuid name text (some a) h = (ok tt, set uuid (change name text a) h)

unfoldable pub write : FilePath → Text → Exec Host IoError (Unit {0})
write (_ ∷ uuid ∷ name ∷ []) text h = attribute uuid name text (h uuid) h
write (_ ∷ _ ∷ _ ∷ attr ∷ []) text h =
    if attr == bytes "create"
    then (ok tt, set text (some (record { adapters = []; domains = [] })) h)
    else (ok tt, h)
write _ text h = (ok tt, h)

abbrev matrix_file : Option Assigned → Result IoError Text
matrix_file none = err not_exist
matrix_file (some a) = ok (print_matrix (rows_of a))

unfoldable pub content : FilePath → Host → Result IoError Text
content (_ ∷ uuid ∷ name ∷ []) h = matrix_file (h uuid)
content _ h = err not_exist

abbrev there : Option Assigned → Result IoError (Unit {0})
there none = err not_exist
there (some a) = ok tt

unfoldable pub found : FilePath → Host → Result IoError (Unit {0})
found (_ ∷ uuid ∷ []) h = there (h uuid)
found _ h = err not_exist

abbrev pub host_os : Os
host_os = record {
  World = Host;
  read_file = λ p h. (content p h, h);
  write_file = write;
  stat = λ p h. (found p h, h);
  read_dir = λ p h. (err not_exist, h);
  read_link = λ p h. (ok (bytes "kernel" ∷ bytes "iommu_groups" ∷ bytes "7" ∷ []), h);
  remove = λ p h. (ok tt, h);
  remove_all = λ p h. (ok tt, h);
  mkdir_all = λ p h. (ok tt, h);
  glob = λ p h. (ok [], h);
}

contains-hex_rows :
    (qs out : List Apqn) (q : Apqn)
    → contains (hex_rows qs out) q
      ≡ (contains out q || (contains qs q && (is_hex q.apid && is_hex q.apqi)))
unfolding hex_rows contains
contains-hex_rows [] out q = ground arith
contains-hex_rows (p ∷ qs) out q = elim (Bool-cases (is_hex p.apid && is_hex p.apqi)) [
  | inl hex ↦ rw hex (
      ground (
        arith,
        contains-hex_rows qs (insert p out) q,
        contains-insert p out q,
        apqn_beq_iff p q,
        hex,
      ))
  | inr other ↦ rw other (ground (arith, contains-hex_rows qs out q, apqn_beq_iff p q, other))
]

hex_rows-IsNodup : (qs out : List Apqn) → IsNodup out → IsNodup (hex_rows qs out)
unfolding hex_rows
hex_rows-IsNodup [] out u = u
hex_rows-IsNodup (p ∷ qs) out u = elim (Bool-cases (is_hex p.apid && is_hex p.apqi)) [
  | inl hex ↦ rw hex (hex_rows-IsNodup qs (insert p out) (insert-IsNodup p out u))
  | inr other ↦ rw other (hex_rows-IsNodup qs out u)
]

ground-IsHex : (q : Apqn) → (is_hex q.apid && is_hex q.apqi) ≡ true → IsHex q
ground-IsHex q h = record { apid_hex = ground arith; apqi_hex = ground arith }

hex_rows-IsHex : (qs out : List Apqn) → All IsHex out → All IsHex (hex_rows qs out)
unfolding hex_rows
hex_rows-IsHex [] out h = h
hex_rows-IsHex (p ∷ qs) out h = elim (Bool-cases (is_hex p.apid && is_hex p.apqi)) [
  | inl hex ↦
      rw hex (hex_rows-IsHex qs (insert p out) (All-insert IsHex p out h (ground-IsHex p hex)))
  | inr other ↦ rw other (hex_rows-IsHex qs out h)
]

-- What `Guests` asks of the host.
stat_law :
    (uuid : Text) (h : Host)
    → is_ok (found (vfio_ap_matrix_path ++ (uuid ∷ [])) h) ≡ (view (h uuid)).present
unfolding found vfio_ap_matrix_path
stat_law uuid h = go (h uuid)
  where
    go : (a : Option Assigned) → is_ok (there a) ≡ (view a).present
    go none = refl
    go (some a) = refl

cross_law :
    (h : Host) (uuid a d : Text)
    → (view (h uuid)).adapters a ≡ true
    → (view (h uuid)).domains d ≡ true
    → (q : Apqn)
    → contains (view (h uuid)).rows q
      ≡ ((view (h uuid)).adapters q.apid && (view (h uuid)).domains q.apqi)
cross_law h uuid a d ha hd q = go (h uuid)
  where
    go :
        (o : Option Assigned)
        → contains (view o).rows q ≡ ((view o).adapters q.apid && (view o).domains q.apqi)
    go none = unfold contains in refl
    go (some x) =
        let rows = contains-hex_rows (cross x.adapters x.domains) [] q in
        let none_yet : contains [] q ≡ false = unfold contains in refl in
        ground (arith, rows, none_yet, contains-cross x.adapters x.domains q)

rows-IsHex : (o : Option Assigned) → All IsHex (view o).rows
rows-IsHex none = tt
rows-IsHex (some x) = hex_rows-IsHex (cross x.adapters x.domains) [] tt

rows-IsNodup : (o : Option Assigned) → IsNodup (view o).rows
rows-IsNodup none = tt
rows-IsNodup (some x) = hex_rows-IsNodup (cross x.adapters x.domains) [] tt

abbrev guest : Host → Text → Guest
guest h uuid = view (h uuid)

matrix_law :
    (uuid text : Text) (h : Host)
    → content (attribute_path uuid (bytes "matrix")) h ≡ ok text
    → text ≡ print_matrix (guest h uuid).rows
unfolding content attribute_path vfio_ap_matrix_path
matrix_law uuid text h e = go (h uuid) e
  where
    go : (o : Option Assigned) → matrix_file o ≡ ok text → text ≡ print_matrix (view o).rows
    go none f = absurd (ground arith)
    go (some a) f = cc

create_law :
    (uuid : Text) (h : Host) (other : Text)
    → let r = write mdev_create_path uuid h in
      guest r.1 other ≡ (if is_ok r.0 && uuid == other then new_guest else guest h other)
unfolding write mdev_create_path vfio_ap_matrix_path bytes contains cross hex_rows
    k8s_cex_dra_driver.Prelude.text_beq
create_law uuid h other = elim (Bool-cases (uuid == other)) [
  | inl same ↦ rw same refl
  | inr apart ↦ rw apart refl
]

remove_law :
    (uuid : Text) (h : Host) (other : Text)
    → let r = write (attribute_path uuid (bytes "remove")) (bytes "1") h in
      guest r.1 other ≡ (if is_ok r.0 && uuid == other then no_guest else guest h other)
unfolding write attribute_path vfio_ap_matrix_path bytes k8s_cex_dra_driver.Prelude.text_beq
remove_law uuid h other = go (h uuid)
  where
    go :
        (o : Option Assigned)
        → let r = attribute uuid (bytes "remove") (bytes "1") o h in
          guest r.1 other ≡ (if is_ok r.0 && uuid == other then no_guest else guest h other)
    go none = refl
    go (some a) = elim (Bool-cases (uuid == other)) [
      | inl same ↦ rw same refl
      | inr apart ↦ rw apart refl
    ]

attribute_law :
    (uuid name text : Text) (h : Host) (other : Text)
    → (uuid == other) ≡ false
    → guest (write (attribute_path uuid name) text h).1 other ≡ guest h other
unfolding write attribute_path vfio_ap_matrix_path
attribute_law uuid name text h other apart = go (h uuid)
  where
    go : (o : Option Assigned) → guest (attribute uuid name text o h).1 other ≡ guest h other
    go none = refl
    go (some a) = rw apart refl

control_domain_law :
    (uuid t : Text) (h : Host)
    → guest (write (attribute_path uuid (bytes "assign_control_domain")) t h).1 ≡ guest h
unfolding write attribute_path vfio_ap_matrix_path bytes k8s_cex_dra_driver.Prelude.text_beq
control_domain_law uuid t h = go (h uuid) refl
  where
    go :
        (o : Option Assigned)
        → h uuid ≡ o
        → guest (attribute uuid (bytes "assign_control_domain") t o h).1 ≡ guest h
    go none e = refl
    go (some a) e = fun_ext λ other. elim (Bool-cases (uuid == other)) [
      | inl same ↦ rw same (ap view (sym e) ∙ ap (λ u. guest h u) (==→eq same))
      | inr apart ↦ rw apart refl
    ]

set_here : (uuid : Text) (a : Option Assigned) (h : Host) → set uuid a h uuid ≡ a
set_here uuid a h = rw (==_refl uuid) refl

-- A number that is written as the module prints it joins those that were assigned.
joined :
    (t : Text) (ts : List Text)
    → is_hex t ≡ true
    → (x : Text) → (contains (insert t ts) x && is_hex x) ≡ ((contains ts x && is_hex x) || t == x)
joined t ts hex x = elim (Bool-cases (t == x)) [
  | inl same ↦
      let x_hex = subst (λ u. is_hex u ≡ true) (==→eq same) hex in
      ground (arith, contains-insert t ts x)
  | inr apart ↦ ground (arith, contains-insert t ts x)
]

adapter_law :
    (uuid t : Text) (h : Host)
    → IsNumber 2 t
    → let r = write (assign_adapter_path uuid) (bytes "0x" ++ t) h in
      r.0 ≡ ok tt
      → ((guest r.1 uuid).present ≡ (guest h uuid).present)
        × ((guest r.1 uuid).domains ≡ (guest h uuid).domains)
        × ((x : Text) → (guest r.1 uuid).adapters x ≡ ((guest h uuid).adapters x || t == x))
unfolding write attribute_path vfio_ap_matrix_path bytes k8s_cex_dra_driver.Prelude.text_beq drop
adapter_law uuid t h (two, hex) = go (h uuid) refl
  where
    go :
        (o : Option Assigned)
        → h uuid ≡ o
        → let r = attribute uuid (bytes "assign_adapter") (bytes "0x" ++ t) o h in
          r.0 ≡ ok tt
          → ((guest r.1 uuid).present ≡ (guest h uuid).present)
            × ((guest r.1 uuid).domains ≡ (guest h uuid).domains)
            × ((x : Text) → (guest r.1 uuid).adapters x ≡ ((guest h uuid).adapters x || t == x))
    go none f e = absurd (ground arith)
    go (some a) f e =
        rw (set_here uuid (change (bytes "assign_adapter") (bytes "0x" ++ t) a) h)
          (rw f (refl, refl, joined t a.adapters hex))

domain_law :
    (uuid t : Text) (h : Host)
    → IsNumber 4 t
    → let r = write (assign_domain_path uuid) (bytes "0x" ++ t) h in
      r.0 ≡ ok tt
      → ((guest r.1 uuid).present ≡ (guest h uuid).present)
        × ((guest r.1 uuid).adapters ≡ (guest h uuid).adapters)
        × ((x : Text) → (guest r.1 uuid).domains x ≡ ((guest h uuid).domains x || t == x))
unfolding write attribute_path vfio_ap_matrix_path bytes k8s_cex_dra_driver.Prelude.text_beq drop
domain_law uuid t h (four, hex) = go (h uuid) refl
  where
    go :
        (o : Option Assigned)
        → h uuid ≡ o
        → let r = attribute uuid (bytes "assign_domain") (bytes "0x" ++ t) o h in
          r.0 ≡ ok tt
          → ((guest r.1 uuid).present ≡ (guest h uuid).present)
            × ((guest r.1 uuid).adapters ≡ (guest h uuid).adapters)
            × ((x : Text) → (guest r.1 uuid).domains x ≡ ((guest h uuid).domains x || t == x))
    go none f e = absurd (ground arith)
    go (some a) f e =
        rw (set_here uuid (change (bytes "assign_domain") (bytes "0x" ++ t) a) h)
          (rw f (refl, refl, joined t a.domains hex))

override_law :
    (apid apqi text : Text) (h : Host)
    → guest (write (driver_override_path apid apqi) text h).1 ≡ guest h
unfolding write driver_override_path bytes k8s_cex_dra_driver.Prelude.text_beq
override_law apid apqi text h = refl

unbind_law :
    (apid apqi text : Text) (h : Host)
    → guest (write (device_unbind_path apid apqi) text h).1 ≡ guest h
unfolding write device_unbind_path
unbind_law apid apqi text h = refl

probe_law : (text : Text) (h : Host) → guest (write drivers_probe_path text h).1 ≡ guest h
unfolding write drivers_probe_path
probe_law text h = refl

spec_law : (root uid text : Text) (h : Host) → guest (write (spec_path root uid) text h).1 ≡ guest h
unfolding write spec_path
spec_law root uid text h = refl

metadata_law :
    (dir uid request text : Text) (h : Host)
    → guest (write (metadata_path dir uid request) text h).1 ≡ guest h
unfolding write claim_dir bytes k8s_cex_dra_driver.Prelude.text_beq
metadata_law dir uid request text h = refl

pub host : Guests host_os
host = record {
  guest = guest;
  apart = record {
    read_file = λ p h. refl;
    stat = λ p h. refl;
    read_dir = λ p h. refl;
    read_link = λ p h. refl;
    glob = λ p h. refl;
    remove = λ p h. refl;
    remove_all = λ p h. refl;
    mkdir_all = λ p h. refl;
    write_spec = spec_law;
    write_metadata = metadata_law;
  };
  override_write = override_law;
  unbind_write = unbind_law;
  probe_write = probe_law;
  rows_cross = cross_law;
  rows_IsHex = λ h uuid. rows-IsHex (h uuid);
  rows_IsNodup = λ h uuid. rows-IsNodup (h uuid);
  matrix_read = matrix_law;
  stat_present = stat_law;
  create_write = create_law;
  remove_write = remove_law;
  adapter_write = adapter_law;
  domain_write = domain_law;
  control_domain_write = control_domain_law;
  attribute_other = attribute_law;
}

pub host_guest : (h : Host) (uuid : Text) → host.guest h uuid ≡ view (h uuid)
unfolding host
host_guest h uuid = refl
