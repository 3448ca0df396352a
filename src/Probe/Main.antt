-- ===== src/Probe/Main.antt =====
-- src/bin/probe.rs, `main`: which command runs, and the exit code.
use fan_control_lian_li_wire.Base.{
  ℕ, ◌||◌, Option, none, some, List, [], ◌∷◌, ◌++◌, if◌then◌else◌, Bytes, bytes_eq, bytes, Result,
  ok, err,
}
use fan_control_lian_li_wire.Probe.Session.{Stop, said, unfinished, overflow}

abbrev pub usage : Bytes
usage =
    bytes "usage: probe <command> [options]\n\ncommands:\n"
    ++ bytes "  discover [--polls N] [--share]\n"
    ++ bytes "      connect to the dongle, poll the receiver N times (default 5), and\n"
    ++ bytes "      print every device heard. Refuses to run while the L-Connect\n"
    ++ bytes "      service is running unless --share is given.\n\n"
    ++ bytes "  set <group> <percent> [seconds]\n"
    ++ bytes "      drive one fan group: send its current duty back and wait for the\n"
    ++ bytes "      acknowledgement, then hold <percent> for <seconds> (default 10)\n"
    ++ bytes "      while printing speeds, then restore the previous duty. <group> is\n"
    ++ bytes "      the start of the group's address, enough to be unique. The\n"
    ++ bytes "      heartbeat runs throughout. Refuses to run while the L-Connect\n"
    ++ bytes "      service is running.\n\n"
    ++ bytes "  run [minutes] [--every S] [--set <group>=<percent>]... [--leave]\n"
    ++ bytes "      run the engine for <minutes> (default 60), printing its log as it\n"
    ++ bytes "      happens and a status line every S seconds (default 10). Type\n"
    ++ bytes "      '<group> <percent>' during the run to change a group, or 'q' to\n"
    ++ bytes "      stop early. Afterwards the groups are put back to the duties they\n"
    ++ bytes "      started at, or left at their last targets with --leave.\n"

-- What the first argument asks for, with the arguments after it.
pub data Command : Type 0 where
  help : Command
  discovers sets runs : List Bytes → Command
  unknown : Bytes → Command

unfoldable pub command_of : List Bytes → Command
command_of [] = help
command_of (name ∷ args) =
    if bytes_eq name (bytes "-h") || bytes_eq name (bytes "--help")
    then help
    else if bytes_eq name (bytes "discover")
    then discovers args
    else if bytes_eq name (bytes "set")
    then sets args
    else if bytes_eq name (bytes "run")
    then runs args
    else unknown name

-- What is written to the standard output and the standard error, and the exit code.
pub record Exit : Type 0 where
  pub code : ℕ
  pub out : Bytes
  pub error : Bytes

-- The end of `main`; a command that was given too few rounds has no exit. Of a panic, only the
-- message is given.
unfoldable pub exit_of : Result Stop (Unit {0}) → Option Exit
exit_of (ok done) = some (record { code = 0; out = []; error = [] })
exit_of (err (said message)) =
    some (record { code = 1; out = []; error = bytes "probe: " ++ message ++ bytes "\n" })
exit_of (err unfinished) = none
exit_of (err overflow) = some (record {
  code = 101;
  out = [];
  error = bytes "overflow when subtracting duration from instant";
})

-- The commands are arguments, on a state of theirs.
module _ {W : Type 0} (discover set run : List Bytes → W → Result Stop (Unit {0}) × W) where
  abbrev pub exits : Result Stop (Unit {0}) × W → Option Exit × W
  exits (r, w) = (exit_of r, w)

  unfoldable pub main : List Bytes → W → Option Exit × W
  unfolding command_of exit_of
  main args w = elim (command_of args) [
    | help ↦ (some (record { code = 0; out = usage; error = [] }), w)
    | discovers rest ↦ exits (discover rest w)
    | sets rest ↦ exits (set rest w)
    | runs rest ↦ exits (run rest w)
    | unknown name ↦ (
      some (record {
        code = 2;
        out = [];
        error = bytes "probe: unknown command '" ++ name ++ bytes "'\n" ++ usage;
      }),
      w,
    )
  ]
