-- ===== src/Executor.antt =====
-- internal/executor: the kinds of task that a node can run, and the run of a plain process.
pub mod Capped
pub mod Registry
use edge_grid.Prelude.{
  ℕ, ◌+◌, ◌-◌, Bool, true, false, not, ◌&&◌, ◌||◌, Text, List, [], ◌∷◌, ◌++◌, Option, none, some,
  take, length, ltb, is_empty, text_eq, codes, if◌then◌else◌,
}
use edge_grid.Prelude.Results.{Result, ok, err, ◌>>=◌}

-- The artifacts are counted only: a kind that has any cannot be run yet.
pub record Definition : Type 0 where
  pub kind : Text
  pub runtime : Text
  pub artifacts : List Text
  pub entrypoint : List Text

pub data ExecutorError : Type 0 where
  empty_kind : ExecutorError
  no_runtime no_entrypoint defined_twice not_supported panicked : Text → ExecutorError
  context_done no_work_root no_work_dir : ExecutorError
  run_failed output_exceeded : ExecutorError

-- The map of definitions and the names of the runtimes.
pub record Executor : Type 0 where
  pub defs : List Definition
  pub runtimes : List Text

is_nil : List Text → Bool
is_nil [] = true
is_nil (x ∷ xs) = false

unfoldable pub validate : Definition → Result ExecutorError (Unit {0})
unfolding is_empty is_nil
validate d =
    if is_empty d.kind
    then err empty_kind
    else if is_empty d.runtime
    then err (no_runtime d.kind)
    else if is_nil d.entrypoint
    then err (no_entrypoint d.kind)
    else ok tt

-- e.defs[kind]
unfoldable pub find_kind : Text → List Definition → Option Definition
find_kind kind [] = none
find_kind kind (d ∷ ds) =
    let rest = find_kind kind ds in if text_eq d.kind kind then some d else rest

is_defined : Option Definition → Bool
is_defined none = false
is_defined (some d) = true

-- The loop of New over the definitions, with those it has taken.
unfoldable pub add_definitions :
    List Definition → List Definition → Result ExecutorError (List Definition)
unfolding is_defined
add_definitions [] taken = ok taken
add_definitions (d ∷ ds) taken = validate d >>= λ _.
    if is_defined (find_kind d.kind taken)
    then err (defined_twice d.kind)
    else add_definitions ds (d ∷ taken)

unfoldable pub new : List Definition → List Text → Result ExecutorError Executor
new defs runtimes = add_definitions defs [] >>= λ ds. ok (record { defs = ds; runtimes = runtimes })

unfoldable pub has_runtime : Text → List Text → Bool
has_runtime name [] = false
has_runtime name (r ∷ rs) = text_eq r name || has_runtime name rs

pub supported_by : List Text → Option Definition → Bool
unfolding is_nil
supported_by runtimes none = false
supported_by runtimes (some d) = is_nil d.artifacts && has_runtime d.runtime runtimes

unfoldable pub supports : Executor → Text → Bool
unfolding supported_by
supports e kind = supported_by e.runtimes (find_kind kind e.defs)

-- cappedBuffer
pub record CappedBuffer : Type 0 where
  pub buf : Text
  pub limit : ℕ
  pub overflow : Bool

unfoldable pub write : Text → CappedBuffer → CappedBuffer
write p c =
    if ltb c.limit (length c.buf + length p)
    then record c { buf = c.buf ++ take (c.limit - length c.buf) p; overflow = true }
    else record c { buf = c.buf ++ p }

-- The writes of a process, in order.
unfoldable pub write_all : List Text → CappedBuffer → CappedBuffer
write_all [] c = c
write_all (p ∷ ps) c = write_all ps (write p c)

-- 1 << 20
abbrev pub max_output : ℕ
max_output = 1_048_576

abbrev pub empty_buffer : CappedBuffer
empty_buffer = record { buf = []; limit = max_output; overflow = false }

-- Bare.Run on a process that writes the pieces to its standard output, and that exits well or not.
unfoldable pub bare_run : List Text → Bool → Result ExecutorError Text
bare_run pieces exits_well =
    let stdout = write_all pieces empty_buffer in
    if not exits_well
    then err run_failed
    else if stdout.overflow
    then err output_exceeded
    else ok stdout.buf
