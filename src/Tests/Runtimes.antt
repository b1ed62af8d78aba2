-- ===== src/Tests/Runtimes.antt =====
-- Searches for the runtime, and what its process writes.
use meta_go.Prelude.{
  ℕ, ◌≡◌, ◌⊎◌, refl, Bool, true, false, String, List, [], ◌∷◌, map, take, Option, none, some, arith,
  ◌==◌, if◌then◌else◌,
}
use text.Mathlib.Text.{◌==◌ as str_eq}
use Prim.Native.String.{◌++◌ as joined_to}
use meta_go.Client.Timeout.{finite}
use meta_go.Runtime.Bootstrap.{
  RuntimeBootstrap, bootstrapped, Fields, string, number, ChildEvent, on_data, on_exit, on_timeout,
  start_reading, first_line, of_line, read_bootstrap,
}
use meta_go.Runtime.Bootstrap.Chunks.{read_bootstrap-chunks}
use meta_go.Runtime.Bootstrap.Outcome.{IsGood, read_bootstrap-IsGood}
use meta_go.Runtime.Process.{
  sigterm, sigkill, ManagedRuntime, start, IsHandled, start-IsHandled, stop_all, stop_all_lem,
}
use meta_go.Runtime.Stderr.{collect, no_stderr, concat, max_stderr_bytes, collect-no_stderr}
use meta_go.Runtime.Distribution.{
  Resolution, failed, Lookup, given, first_executable, runtime_target, is_platform, is_arch,
  resolve_bundled_runtime, runtime_package_name, module_missing, find_on_path, split, non_empty,
  resolve_runtime_path,
}
use meta_go.Runtime.Distribution.Search.{
  IsFirst, first_executable-IsFirst, resolve_runtime_path_lem,
}

-- A parser that takes any three bytes with a brace in front for one bootstrap.
abbrev parse : List ℕ → Option Fields
parse (b ∷ c ∷ d ∷ []) =
    if b == 123
    then some (record {
      endpoint = string "127.0.0.1:4000";
      token = string "t";
      protocol = number (finite false 1 0);
    })
    else none
parse _ = none

abbrev chunks : List (List ℕ)
chunks = (123 ∷ []) ∷ [] ∷ (49 ∷ 125 ∷ 10 ∷ 7 ∷ []) ∷ []

read_bootstrap-chunks_example :
    (read_bootstrap parse (map on_data chunks) start_reading).settled
    ≡ of_line parse (first_line (concat chunks))
unfolding concat
read_bootstrap-chunks_example = read_bootstrap-chunks parse chunks (omega arith)

abbrev happenings : List ChildEvent
happenings = on_data (123 ∷ 49 ∷ []) ∷ on_data (125 ∷ 10 ∷ []) ∷ on_exit "0" ∷ on_timeout ∷ []

read_bootstrap-IsGood_example : IsGood (read_bootstrap parse happenings start_reading).settled
read_bootstrap-IsGood_example = read_bootstrap-IsGood parse happenings

collect-no_stderr_example :
    concat (collect chunks no_stderr).chunks ≡ take max_stderr_bytes (concat chunks)
collect-no_stderr_example = collect-no_stderr chunks

abbrev join : String → String → String
join d f = joined_to d (joined_to "/" f)

abbrev can_execute : String → Bool
can_execute p = str_eq p "/usr/bin/meta-runtime"

first_executable-IsFirst_example :
    IsFirst can_execute join "meta-runtime"
      (first_executable can_execute join "meta-runtime" ("/bin" ∷ "/usr/bin" ∷ "/opt" ∷ []))
      ("/bin" ∷ "/usr/bin" ∷ "/opt" ∷ [])
first_executable-IsFirst_example =
    first_executable-IsFirst can_execute join "meta-runtime" ("/bin" ∷ "/usr/bin" ∷ "/opt" ∷ [])

-- No package is installed.
abbrev resolve : String → Resolution
resolve s = failed (some "MODULE_NOT_FOUND")

abbrev lookup : Lookup
lookup = record {
  runtime_path = none;
  env_runtime_path = some "";
  env_path = some "/bin::/usr/bin";
  platform = "linux";
  arch = "x64";
}

resolve_runtime_path_lem_example :
    (lookup.runtime_path ≡ some "/usr/bin/meta-runtime")
    ⊎ ((given lookup.runtime_path ≡ none)
        × ((lookup.env_runtime_path ≡ some "/usr/bin/meta-runtime")
            ⊎ (can_execute "/usr/bin/meta-runtime" ≡ true)))
unfolding resolve_runtime_path runtime_target is_platform is_arch resolve_bundled_runtime
    runtime_package_name module_missing find_on_path split non_empty first_executable
resolve_runtime_path_lem_example =
    resolve_runtime_path_lem resolve can_execute join ":" lookup "/usr/bin/meta-runtime" refl

abbrev bootstrap : RuntimeBootstrap
bootstrap = record {
  endpoint = string "127.0.0.1:4000";
  token = string "t";
  protocol = finite false 2 0;
}

start-IsHandled_example : IsHandled false (start (bootstrapped bootstrap) false)
start-IsHandled_example = start-IsHandled (bootstrapped bootstrap) false

abbrev runtime : ManagedRuntime
runtime = record { bootstrap = bootstrap; has_exited = false; stopped = false }

stop_all_lem_example : stop_all (false ∷ true ∷ []) runtime ≡ (
    if runtime.stopped
    then []
    else if runtime.has_exited
    then []
    else if false
    then sigterm ∷ []
    else sigterm ∷ sigkill ∷ [])
stop_all_lem_example = stop_all_lem false (true ∷ []) runtime
