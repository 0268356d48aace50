-- ===== src/MainProcess/Options.antt =====
-- `main` of src/server/main.cpp. What `getopt_long` gives in turn, until -1, is a list of characters
-- with the `optarg` of each; a file's name is its bytes.
use fcgi_cpp_appserver.Common.{
  ℕ, ◌≡◌, refl, ap, ◌∙◌, Bool, true, false, not, ◌&&◌, ◌||◌, List, [], ◌∷◌, ◌==◌, foldl,
  if◌then◌else◌, arith,
}
use fcgi_cpp_appserver.Common.Bytes.{Bytes, codes}
use fcgi_cpp_appserver.MainProcess.{Main, create, add_function, add_entry, functions_defined}

pub record Settings : Type 0 where
  pub daemon : Bool
  pub run_main_process : Bool
  pub conf_file_path : Bytes

-- The variables as they start.
unfoldable pub defaults : Settings
defaults = record {
  daemon = true;
  run_main_process = true;
  conf_file_path = codes "wp_frontend.conf";
}

-- A round of the loop. The long options are none, so that 0 does not come.
unfoldable pub take_option : Settings → ℕ × Bytes → Settings
take_option s (c, optarg) =
    if c == b'n'
    then record s { daemon = false }
    else if c == b'm'
    then record s { run_main_process = false }
    else if c == b'c'
    then record s { conf_file_path = optarg }
    else s

unfoldable pub read_options : List (ℕ × Bytes) → Settings
unfolding take_option defaults
read_options opts = foldl take_option defaults opts

-- What `fork` gives, where it is called.
pub data Fork : Type 0 where
  in_child in_parent fork_failed : Fork

-- What the process is from then on: one that runs `MainProcess::run`, the worker itself, or at its end.
-- `detached` is that it has a session of its own and no standard files.
pub data Role : Type 0 where
  keeps_workers : (detached : Bool) → Main → Role
  works : (detached : Bool) → Role
  returns : ℕ → Role

-- The start of `MainProcess::run`.
unfoldable pub run_as : Bool → Settings → Main → Role
run_as detached s p = if s.run_main_process then keeps_workers detached p else works detached

-- Behind the loop. -1 is 255 to the caller. The worker's function has the number 0.
unfoldable pub start : Settings → Fork → Role
unfolding run_as create add_function functions_defined
start s fork =
    let p = add_function create 0 1 in
    if not (functions_defined p)
    then returns 255
    else if s.daemon
    then elim fork [ in_child ↦ run_as true s p | in_parent ↦ returns 0 | fork_failed ↦ returns 0 ]
    else run_as false s p

unfoldable pub main : List (ℕ × Bytes) → Fork → Role
unfolding read_options start
main opts fork = start (read_options opts) fork

abbrev pub given : ℕ → List (ℕ × Bytes) → Bool
given c [] = false
given c ((d, arg) ∷ opts) = d == c || given c opts

-- The argument of the last option of a kind.
abbrev pub last_of : ℕ → Bytes → List (ℕ × Bytes) → Bytes
last_of c path [] = path
last_of c path ((d, arg) ∷ opts) = last_of c (if d == c then arg else path) opts

Settings-ext :
    {s t : Settings}
    → s.daemon ≡ t.daemon
    → s.run_main_process ≡ t.run_main_process
    → s.conf_file_path ≡ t.conf_file_path
    → s ≡ t
Settings-ext a b c = λ i. record { daemon = a i; run_main_process = b i; conf_file_path = c i }

-- The options one after the other, from any settings.
taken :
    (opts : List (ℕ × Bytes)) (s : Settings)
    → foldl take_option s opts ≡ record {
      daemon = s.daemon && not (given b'n' opts);
      run_main_process = s.run_main_process && not (given b'm' opts);
      conf_file_path = last_of b'c' s.conf_file_path opts;
    }
unfolding take_option
taken [] s = Settings-ext (ground arith) (ground arith) refl
taken ((c, arg) ∷ opts) s =
    taken opts (take_option s (c, arg)) ∙ Settings-ext (ground arith) (ground arith) (ground arith)

-- What the options say.
abbrev pub wanted : Main
wanted = record { workers = []; functions = record { function = 0; running = 0; wanted = 1 } ∷ [] }

abbrev pub role_of : Bool → Bool → Role
role_of detached alone = if alone then works detached else keeps_workers detached wanted

started :
    (n m : Bool) (path : Bytes) (fork : Fork)
    → start (record { daemon = not n; run_main_process = not m; conf_file_path = path }) fork ≡ (
        if n then role_of false m else elim fork [
          | in_child ↦ role_of true m
          | in_parent ↦ returns 0
          | fork_failed ↦ returns 0
        ])
unfolding start run_as create add_function add_entry functions_defined
started true true path fork = refl
started true false path fork = refl
started false true path in_child = refl
started false false path in_child = refl
started false m path in_parent = refl
started false m path fork_failed = refl

-- What the process becomes is told by whether the options have `n` and `m`, in whatever order and
-- however often: with `n` it serves itself, and without it its child does, while the process returns 0,
-- which it does as well where there is no child; with `m` the one that serves is the worker, and without
-- it the main process, which wants one worker. And `c` is of no use.
pub main-role_of :
    (opts : List (ℕ × Bytes)) (fork : Fork)
    → main opts fork ≡ (
        if given b'n' opts then role_of false (given b'm' opts) else elim fork [
          | in_child ↦ role_of true (given b'm' opts)
          | in_parent ↦ returns 0
          | fork_failed ↦ returns 0
        ])
unfolding main read_options defaults
main-role_of opts fork =
    ap (λ s. start s fork) (taken opts defaults)
    ∙ started (given b'n' opts) (given b'm' opts) (last_of b'c' (codes "wp_frontend.conf") opts)
        fork
