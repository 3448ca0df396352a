-- ===== src/Process/Examples.antt =====
-- src/process.rs at concrete inputs: a list of two programs.
use fan_control_lian_li_wire.Base.{
  ℕ, ◌≡◌, refl, true, none, some, [], ◌∷◌, ◌++◌, arith, ◌==◌, if◌then◌else◌, bytes, ok,
  from_utf16_lossy,
}
use fan_control_lian_li_wire.Process.{lconnect_service, Toolhelp, exe_name, running}
use fan_control_lian_li_wire.Process.Listing.{done, listed, running-listed}

-- The world counts the entries that were read; the handle is closed at the end.
abbrev two_programs : Toolhelp
two_programs = record {
  World = ℕ;
  Handle = Unit {0};
  create = λ w. (some tt, w);
  first = λ w h. (some (bytes "system" ++ (0 ∷ 1 ∷ [])), 1);
  next = λ w h. if w == 1 then (some (bytes "L-CONNECT-service.EXE"), 2) else (none, 3);
  close = λ w h. 4;
  last_error = λ w. 18;
}

running-listed_example : running two_programs 2 0 lconnect_service ≡ (some (ok true), 4)
unfolding exe_name from_utf16_lossy
running-listed_example =
    running-listed two_programs 2 0 3 tt lconnect_service (bytes "system" ++ (0 ∷ 1 ∷ []))
      (bytes "L-CONNECT-service.EXE" ∷ []) refl refl (listed (listed (done refl))) (omega arith)
