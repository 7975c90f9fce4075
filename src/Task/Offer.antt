-- ===== src/Task/Offer.antt =====
-- internal/task/task.go and task_process.go: offering a task, and answering an offer.
pub mod Agreement
pub mod Asked
use edge_grid.Prelude.{
  ℕ, ◌%◌, ◌^◌, ◌+◌, Bool, true, false, not, Text, List, [], ◌∷◌, ◌++◌, drop, length, Option, none,
  some, ltb, ◌==◌, is_empty, codes, show, if◌then◌else◌,
}
use edge_grid.Prelude.Int.{ℤ, pos, ltb_ℤ}
use edge_grid.Prelude.Results.{Result, ok, err, or_fail}
use edge_grid.Proc.{Proc, pure, fail, lift, refuse_when, wrap, ◌>>=◌, ◌>>◌}
use edge_grid.Net.{Conn, read_full, write, first, put_u32, u32}
use edge_grid.Json.{Codec}
use edge_grid.Blob.Validate.{show_ℤ}
use edge_grid.Blob.Wire
use edge_grid.Task.{Task, Requirements, Uuids, task_wire_version, max_task_size}

pub data InvalidTask : Type 0 where
  empty_id : InvalidTask
  bad_id : Text → InvalidTask
  empty_kind : InvalidTask
  negative_cores negative_memory : ℤ → InvalidTask

-- The errors of an offer; `verdict` wraps those of blob's verdict, a refusal among them.
pub data Error : Type 0 where
  generate_id : Error
  encode write_failed read_header read_body decode : Error
  unsupported_version : ℕ → Error
  too_long : ℕ → Error
  verdict : Wire.Error → Error
  invalid : InvalidTask → Error
  refused : Text → Error

-- `uuid.NewRandom` is the argument: the new ID, or none for its error.
unfoldable pub new : Option Text → Text → Requirements → Result Error Task
new none kind req = err generate_id
new (some id) kind req = ok (record { id = id; kind = kind; requirements = req; input = [] })

check_id : Option Text → Result InvalidTask (Unit {0})
check_id none = ok tt
check_id (some e) = err (bad_id e)

check_requirements : Requirements → Result InvalidTask (Unit {0})
check_requirements r =
    if ltb_ℤ r.cpu_cores (pos 0)
    then err (negative_cores r.cpu_cores)
    else if ltb_ℤ r.memory_mb (pos 0)
    then err (negative_memory r.memory_mb)
    else ok tt

check_kind : Task → Result InvalidTask (Unit {0}) → Result InvalidTask (Unit {0})
unfolding check_requirements
check_kind t (err e) = err e
check_kind t (ok _) = if is_empty t.kind then err empty_kind else check_requirements t.requirements

unfoldable pub validate : Uuids → Task → Result InvalidTask (Unit {0})
unfolding check_id check_kind is_empty
validate uuids t =
    if is_empty t.id then err empty_id else check_kind t (check_id (uuids.parse_error t.id))

-- The texts that go to the peer as the reason of a refusal.
unfoldable pub message : InvalidTask → Text
message empty_id = codes "task: id is empty"
message (bad_id e) = codes "task: id is not a valid uuid: " ++ e
message empty_kind = codes "task: kind is empty"
message (negative_cores n) = codes "task: negative cpu_cores " ++ show_ℤ n
message (negative_memory n) = codes "task: negative memory_mb " ++ show_ℤ n

unfoldable pub version_message : ℕ → Text
version_message v =
    codes "task: unsupported version: peer sent "
    ++ (show v ++ (codes ", this node speaks " ++ show task_wire_version))

module _ (json : Codec Task) where
  unfoldable pub write_task : Task → Proc Conn Error (Unit {0})
  write_task t = do
    body ← lift (or_fail (json.marshal t) encode)
    write ((task_wire_version ∷ put_u32 (length body % 2 ^ 32)) ++ body) write_failed

  unfoldable pub read_task : Proc Conn Error Task
  read_task = do
    hdr ← read_full 5 read_header
    refuse_when (not (first hdr == task_wire_version)) (unsupported_version (first hdr))
    refuse_when (ltb max_task_size (u32 (drop 1 hdr))) (too_long (u32 (drop 1 hdr)))
    body ← read_full (u32 (drop 1 hdr)) read_body
    lift (or_fail (json.unmarshal body) decode)

  -- Offer: a refusal of the peer comes back as `verdict (peer_refused …)`.
  unfoldable pub offer : Task → Proc Conn Error (Unit {0})
  offer t = do write_task t; wrap verdict Wire.read_verdict

-- The connection, and the state that `accept` reads and changes.
pub record Worker (S : Type 0) : Type 0 where
  pub conn : Conn
  pub policy : S

module _ {S : Type 0} where
  abbrev pub on_conn : {A : Type 0} → Proc Conn Error A → Proc (Worker S) Error A
  on_conn m s = let (r, c) = m s.conn in (r, record s { conn = c })

  -- `_ = WriteVerdict(rw, err)` and the return of the error
  unfoldable pub refuse : {A : Type 0} → Text → Error → Proc (Worker S) Error A
  refuse reason e s = (err e, record s { conn = (Wire.write_verdict (some reason) s.conn).1 })

  -- Of the errors of ReadTask only an unsupported version is answered.
  unread : Result Error Task → Proc (Worker S) Error Task
  unfolding refuse
  unread (ok t) = pure t
  unread (err (unsupported_version v)) = refuse (version_message v) (unsupported_version v)
  unread (err e) = fail e

  check_task : Result InvalidTask (Unit {0}) → Proc (Worker S) Error (Unit {0})
  unfolding refuse
  check_task (ok _) = pure tt
  check_task (err e) = refuse (message e) (invalid e)

  answered : Result Text (Unit {0}) → Proc (Worker S) Error (Unit {0})
  unfolding refuse
  answered (ok _) = pure tt
  answered (err reason) = refuse reason (refused reason)

  ask : (Task → Proc S Text (Unit {0})) → Task → Proc (Worker S) Error (Unit {0})
  unfolding answered
  ask accept t s = let (r, p) = accept t s.policy in answered r (record s { policy = p })

  read_offer : Codec Task → Proc (Worker S) Error Task
  unfolding unread
  read_offer json s = let (r, c) = read_task json s.conn in unread r (record s { conn = c })

  unfoldable pub process_task :
      Codec Task → Uuids → (Task → Proc S Text (Unit {0})) → Proc (Worker S) Error Task
  unfolding read_offer check_task ask
  process_task json uuids accept = do
    t ← read_offer json
    check_task (validate uuids t)
    ask accept t
    on_conn (wrap verdict (Wire.write_verdict none))
    pure t
