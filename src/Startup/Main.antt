-- ===== src/Startup/Main.antt =====
-- src/main.rs.
use ssh_certificate_authorit.Common.{◌≡◌, Bool, false, List, [], if◌then◌else◌, arith}
use ssh_certificate_authorit.Startup.{CliArgs, System, Effect, Exit, returned, panicked, run_server}
use ssh_certificate_authorit.Startup.Processes.{running, run_server-running}

-- `test_auth` tells whether the program is built with that feature; the arguments are parsed.
unfoldable main : Bool → System → CliArgs → List Effect × Exit
main test_auth sys args = if test_auth then ([], panicked) else run_server sys args

-- With the feature or without it, when the program returns no CA that it spawned is left running.
main-running :
    (test_auth : Bool) (sys : System) (args : CliArgs)
    → (main test_auth sys args).1 ≡ returned
    → running false (main test_auth sys args).0 ≡ false
unfolding main
main-running test_auth sys args h = ground (arith, run_server-running sys args)
