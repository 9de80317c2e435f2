-- ===== src/Domain/Errors.antt =====
-- internal/domain/model.go: the domain errors. A wrapped error of a backend is `backend`. The last one
-- is none of the program's: `out_of_fuel` is what a recursion gives that does not return.
use fileupload.Base.{Bool, true, false}

pub data DomainError : Type 0 where
  slice_checksum content_checksum session_not_found session_state offset_conflict : DomainError
  upload_incomplete forbidden busy corrupted not_found invalid_argument : DomainError
  path_traversal share_exhausted quota_exceeded backend out_of_fuel : DomainError

pub data Result {ℓ} (A : Type ℓ) : Type ℓ where
  ok : A → Result A
  err : DomainError → Result A

-- whether the program comes back from an action with this outcome
abbrev pub returns {ℓ} : {A : Type ℓ} → Result A → Bool
returns (ok a) = true
returns (err out_of_fuel) = false
returns (err _) = true
