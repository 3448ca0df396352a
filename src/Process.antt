-- ===== src/Process.antt =====
-- src/process.rs: which programs are running. The process list is Windows', the record `Toolhelp`.
pub mod Listing
mod Examples
use fan_control_lian_li_wire.Base.{
  ℕ, zero, suc, ◌+◌, ◌-◌, ◌*◌, ◌/◌, ◌%◌, ◌^◌, ◌≤◌, ◌<◌, ◌≡◌, ap, ◌∙◌, ◌≡⟨◌⟩◌, ◌∎, ◌≢◌, ◌↔◌, ◌⊎◌,
  Bool, not, ◌&&◌, ◌||◌, Option, none, some, List, [], ◌∷◌, ◌++◌, ◌==◌, if◌then◌else◌, any, all,
  Bytes, bytes, Result, ok, err, ◌>>=◌, eq_ignore_ascii_case, from_utf16_lossy,
}
use fan_control_lian_li_wire.Win.{error_no_more_files, WinError}

abbrev pub lconnect_service : Bytes
lconnect_service = bytes "L-Connect-Service.exe"

-- A snapshot of the process list. `first` and `next` give `szExeFile`, or nothing where the call
-- returns 0.
pub record Toolhelp : Type 1 where
  pub World : Type 0
  pub Handle : Type 0
  pub create : World → Option Handle × World
  pub first : World → Handle → Option (List ℕ) × World
  pub next : World → Handle → Option (List ℕ) × World
  pub close : World → Handle → World
  pub last_error : World → ℕ

-- The units up to the first 0.
until_zero : List ℕ → List ℕ
until_zero [] = []
until_zero (u ∷ us) = if u == 0 then [] else u ∷ until_zero us

unfoldable pub exe_name : List ℕ → Bytes
unfolding until_zero
exe_name units = from_utf16_lossy (until_zero units)

-- What follows the loop, or the rounds of the loop that are left. A `none` says that the loop goes
-- on after the rounds that it was given.
abbrev pub Walked : Type 0
Walked = Option (Result WinError (List Bytes))

module _ (th : Toolhelp) where
  -- `WinError::last`.
  abbrev pub last : Bytes → th.World → WinError
  last call w = record { call = call; code = th.last_error w }

  abbrev pub walk_end : List Bytes → th.World → Result WinError (List Bytes)
  walk_end names w =
      if th.last_error w == error_no_more_files
      then ok names
      else err (last (bytes "Process32NextW") w)

  -- The loop of `walk`: `entry` is what the last call gave.
  unfoldable pub walk_from :
      ℕ → th.World → th.Handle → Option (List ℕ) → List Bytes → Walked × th.World
  walk_from rounds w h none names = (some (walk_end names w), w)
  walk_from zero w h (some units) names = (none, w)
  walk_from (suc rounds) w h (some units) names =
      let (more, w') = th.next w h in walk_from rounds w' h more (names ++ (exe_name units ∷ []))

  unfoldable pub walk : ℕ → th.World → th.Handle → Walked × th.World
  unfolding walk_from
  walk rounds w h =
      let (more, w') = th.first w h in
      elim more [
        | none ↦ (some (err (last (bytes "Process32FirstW") w')), w')
        | some units ↦ walk_from rounds w' h (some units) []
      ]

  unfoldable pub names : ℕ → th.World → Walked × th.World
  unfolding walk
  names rounds w =
      let (snapshot, w') = th.create w in
      elim snapshot [
        | none ↦ (some (err (last (bytes "CreateToolhelp32Snapshot") w')), w')
        | some h ↦ let (result, w'') = walk rounds w' h in (result, th.close w'' h)
      ]

  abbrev pub is_running : Bytes → Result WinError (List Bytes) → Result WinError Bool
  is_running name (ok listed) = ok (any (λ n. eq_ignore_ascii_case n name) listed)
  is_running name (err e) = err e

  abbrev pub answered : Bytes → Walked × th.World → Option (Result WinError Bool) × th.World
  answered name (none, w) = (none, w)
  answered name (some listed, w) = (some (is_running name listed), w)

  unfoldable pub running : ℕ → th.World → Bytes → Option (Result WinError Bool) × th.World
  running rounds w name = answered name (names rounds w)
