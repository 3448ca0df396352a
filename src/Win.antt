-- ===== src/Win.antt =====
-- src/win.rs: the error of a failed Win32 call. The calls themselves are Windows'. Whatever prints an
-- error takes the description of its code as the argument `message`, which is `message_of` over the
-- text that `FormatMessageW` writes.
pub mod Load
use fan_control_lian_li_wire.Base.{
  ℕ, ◌+◌, ◌-◌, ◌*◌, ◌/◌, ◌%◌, ◌^◌, ◌≤◌, ◌<◌, ◌≡◌, ◌∙◌, ◌≡⟨◌⟩◌, ◌∎, ◌≢◌, ◌↔◌, ◌⊎◌, ◌&&◌, ◌||◌, List,
  [], ◌∷◌, ◌++◌, ◌==◌, if◌then◌else◌, take, all, Bytes, bytes_eq, bytes, decimal, err, ◌>>=◌,
  trim_end, trim, from_utf16_lossy,
}

abbrev pub error_access_denied : ℕ
error_access_denied = 5

abbrev pub error_no_more_files : ℕ
error_no_more_files = 18

abbrev pub error_sharing_violation : ℕ
error_sharing_violation = 32

abbrev pub error_sem_timeout : ℕ
error_sem_timeout = 121

pub record WinError : Type 0 where
  pub call : Bytes
  pub code : ℕ

-- `WinError::message`: the units that `FormatMessageW` wrote for this code.
unfoldable pub message_of : (ℕ → List ℕ) → ℕ → Bytes
message_of written code = trim_end (from_utf16_lossy (written code))

-- `WinError::fmt`.
unfoldable pub win_error_text : (ℕ → Bytes) → WinError → Bytes
win_error_text message e =
    e.call
    ++ bytes " failed with error "
    ++ decimal e.code
    ++ (if bytes_eq (message e.code) [] then [] else bytes ": " ++ message e.code)
