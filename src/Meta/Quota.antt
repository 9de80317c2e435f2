-- ===== src/Meta/Quota.antt =====
-- internal/adapters/metadata/sqlite.go: the table namespace_reservations.
use fileupload.Base.{
  ℕ, ◌+◌, ◌≤◌, ◌≡◌, false, not, List, [], ◌∷◌, Bytes, ◌==◌, eq_iff, if◌then◌else◌, select, arith,
}
use fileupload.World.{Reservation}

-- SELECT COALESCE(SUM(bytes), 0) FROM namespace_reservations WHERE namespace = ?
unfoldable pub reserved_bytes : Bytes → List Reservation → ℕ
reserved_bytes ns [] = 0
reserved_bytes ns (r ∷ rs) = (if r.namespace == ns then r.bytes else 0) + reserved_bytes ns rs

-- SELECT COALESCE(bytes, 0) FROM namespace_reservations WHERE reservation_id = ?; no row reads as 0
unfoldable pub current_bytes : Bytes → List Reservation → ℕ
current_bytes id [] = 0
current_bytes id (r ∷ rs) = if r.reservation_id == id then r.bytes else current_bytes id rs

-- INSERT INTO namespace_reservations ... ON CONFLICT(reservation_id) DO UPDATE
unfoldable pub upsert : Reservation → List Reservation → List Reservation
upsert n [] = n ∷ []
upsert n (r ∷ rs) = if r.reservation_id == n.reservation_id then n ∷ rs else r ∷ upsert n rs

-- DELETE FROM namespace_reservations WHERE reservation_id = ?
unfoldable pub release : Bytes → List Reservation → List Reservation
release id = select (λ r. not (r.reservation_id == id))

-- The row of a reservation, if there is one, belongs to the namespace.
abbrev pub OwnedBy : Bytes → Bytes → List Reservation → Type 0
OwnedBy id ns [] = Unit {0}
OwnedBy id ns (r ∷ rs) = (r.reservation_id ≡ id → r.namespace ≡ ns) × OwnedBy id ns rs

-- What an upsert adds to the namespace's sum is what it asks for, less what its row held.
pub reserved_bytes-upsert :
    (n : Reservation) (rs : List Reservation)
    → OwnedBy n.reservation_id n.namespace rs
    → reserved_bytes n.namespace (upsert n rs) + current_bytes n.reservation_id rs
      ≡ reserved_bytes n.namespace rs + n.bytes
unfolding reserved_bytes upsert current_bytes
reserved_bytes-upsert n [] o = ground (arith, eq_iff n.namespace n.namespace)
reserved_bytes-upsert n (r ∷ rs) o = ground (
  arith,
  eq_iff n.namespace n.namespace,
  eq_iff r.reservation_id n.reservation_id,
  eq_iff r.namespace n.namespace,
  o.0,
  reserved_bytes-upsert n rs,
)

pub current_bytes-le :
    (id ns : Bytes) (rs : List Reservation)
    → OwnedBy id ns rs
    → current_bytes id rs ≤ reserved_bytes ns rs
unfolding reserved_bytes current_bytes
current_bytes-le id ns [] o = omega arith
current_bytes-le id ns (r ∷ rs) o =
    ground
      (arith, eq_iff r.reservation_id id, eq_iff r.namespace ns, o.0, current_bytes-le id ns rs)

-- An upsert leaves the sums of the other namespaces alone.
pub reserved_bytes-upsert_ne :
    (n : Reservation) (ns : Bytes) (rs : List Reservation)
    → OwnedBy n.reservation_id n.namespace rs
    → (n.namespace == ns) ≡ false
    → reserved_bytes ns (upsert n rs) ≡ reserved_bytes ns rs
unfolding reserved_bytes upsert
reserved_bytes-upsert_ne n ns [] o h = ground arith
reserved_bytes-upsert_ne n ns (r ∷ rs) o h = ground (
  arith,
  eq_iff r.reservation_id n.reservation_id,
  eq_iff n.namespace ns,
  eq_iff r.namespace ns,
  o.0,
  reserved_bytes-upsert_ne n ns rs,
)

-- A release only lowers the sum of a namespace.
pub reserved_bytes-release_le :
    (id ns : Bytes) (rs : List Reservation)
    → reserved_bytes ns (release id rs) ≤ reserved_bytes ns rs
unfolding reserved_bytes release
reserved_bytes-release_le id ns [] = omega arith
reserved_bytes-release_le id ns (r ∷ rs) = ground (arith, reserved_bytes-release_le id ns rs)
