-- ===== src/Tests/Threads.antt =====
-- The threads of a server, and the text of a value, at concrete inputs.
use fcgi_cpp_appserver.Common.{ℕ, ◌≡◌, refl, true, false, none, some, [], ◌∷◌, Among}
use fcgi_cpp_appserver.Common.Bytes.{Bytes, codes}
use fcgi_cpp_appserver.Common.Dict.{All}
use fcgi_cpp_appserver.Json
use fcgi_cpp_appserver.Json.{Value, integer, float, no_items, item, no_elements, element, serialize}
use fcgi_cpp_appserver.Json.Reader.{read_json}
use fcgi_cpp_appserver.Json.Text.{read_json-serialize}
use fcgi_cpp_appserver.Json.View.{view, IsNumeric, is_printable}
use fcgi_cpp_appserver.Server
use fcgi_cpp_appserver.Server.{Server}
use fcgi_cpp_appserver.Worker.{Env, Handle}
use fcgi_cpp_appserver.Worker.Once.{Runs-IsServed}
use fcgi_cpp_appserver.Worker.Counts.{IsServed}
use fcgi_cpp_appserver.Worker.Progress.{CanMove, is_returned, Runs-moves, exit_blocks}
use fcgi_cpp_appserver.Worker.Threads.{
  looping, waiting, accepting, holding, move, Process, run, moves, arrives, Runs, starts, then_step,
}

abbrev silent : Handle
silent h env params = ([], none)

abbrev empty_site : Server
empty_site = Server.create []

abbrev asked : Env
asked name = none

-- The first of the threads has accepted a request, and another one has arrived.
abbrev busy : Process
busy = record {
  threads = holding asked ∷ looping ∷ looping ∷ looping ∷ looping ∷ [];
  shared = record {
    locked = true;
    exiting = false;
    dead = false;
    queue = asked ∷ [];
    arrived = asked ∷ asked ∷ [];
    accepted = asked ∷ [];
    answered = [];
  };
}

busy-Runs : Runs silent empty_site busy
unfolding move run
busy-Runs =
    then_step
      (then_step
        (then_step
          (then_step (then_step starts (moves [] looping _ false refl))
            (moves [] waiting _ false refl))
          (arrives asked))
        (moves [] accepting _ false refl))
      (arrives asked)

Runs-IsServed_example : IsServed silent empty_site busy
Runs-IsServed_example = Runs-IsServed silent empty_site busy-Runs

Runs-moves_example : Among busy.threads (CanMove silent empty_site busy.shared)
Runs-moves_example = Runs-moves silent empty_site asked [] busy-Runs refl refl refl

exit_blocks_example :
    (p : Process) × Runs silent empty_site p
    × (p.shared.exiting ≡ true)
    × All (λ t. is_returned t ≡ false) p.threads
    × All (λ t. move silent empty_site false p.shared t ≡ none) p.threads
exit_blocks_example = exit_blocks silent empty_site

-- Each double is one half.
abbrev show_half : ℕ → Bytes
show_half n = codes "0.5"

show_half-IsNumeric : (n : ℕ) → IsNumeric (show_half n)
show_half-IsNumeric n = (refl, refl, refl)

abbrev nested : Value ℕ
nested = Json.object (
    item (codes "a\"") (Json.array (element (float 0) (element (integer true 12) no_elements)))
      (item (codes "b") (Json.string (codes "x")) no_items))

nested-is_printable : is_printable nested ≡ true
unfolding is_printable
nested-is_printable = refl

read_json-serialize_example : read_json (serialize show_half nested) ≡ some (view show_half nested)
read_json-serialize_example =
    read_json-serialize show_half show_half-IsNumeric nested nested-is_printable
