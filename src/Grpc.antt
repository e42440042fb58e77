-- ===== src/Grpc.antt =====
-- What the gRPC handlers under internal share: google.golang.org/grpc/status with the codes that they
-- use, and the page and page size that a list answers with.
use event_driven_ecommerce.Base.{
  ℕ, String, ℤ, pos, leb, leb_ℤ, ◌^◌, ◌-◌, if◌then◌else◌, Action, map_error, World, Failure,
}

pub data Code : Type 0 where
  invalid_argument not_found already_exists failed_precondition internal : Code

pub record Status : Type 0 where
  pub code : Code
  pub text : String

abbrev pub status_error : Code → String → Status
status_error code text = record { code = code; text = text }

abbrev pub Rpc : Type 0 → Type 0 → Type 0
Rpc D A = Action (World D) Status A

-- A call of the service, whose error is turned into a status.
abbrev pub served :
    {D E A : Type 0} → (Failure E → Status) → Action (World D) (Failure E) A → Rpc D A
served status = map_error status

unfoldable pub answered_page : ℤ → ℤ
answered_page page = if leb_ℤ page (pos 0) then pos 1 else page

unfoldable pub answered_page_size : ℤ → ℕ → ℤ
answered_page_size page_size total =
    if leb_ℤ page_size (pos 0)
    then (if leb total (2 ^ 31 - 1) then pos total else pos (2 ^ 31 - 1))
    else page_size
