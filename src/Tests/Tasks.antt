-- ===== src/Tests/Tasks.antt =====
-- The theorems on the listeners and on main.rs of crates/logfence-daemon at concrete runs.
use mathlib.Core.List.{Perm}
use logfence.Prelude.{
  ℕ, ◌≤◌, ◌<◌, true, false, [], ◌∷◌, ◌≡◌, ◌↔◌, inr, refl, subst, arith, Option, none, Bytes, codes,
  ok, err, Outcome,
}
use logfence.Daemon.Config.{Config, ConfigError, default_validation, ValidationConfig, strict}
use logfence.Daemon.Validator.{new_validator}
use logfence.Daemon.Listener
use logfence.Daemon.Listener.Bounds.{KeepsTo, Steps-KeepsTo}
use logfence.Daemon.Listener.Drain.{Steps-drained}
use logfence.Daemon.Datagram.Pool
use logfence.Daemon.Datagram.Pool.{Item, received_item}
use logfence.Daemon.Datagram.Pool.Share.{share}
use logfence.Daemon.Datagram.Pool.Got.{AllAlive}
use logfence.Daemon.Datagram.Pool.All.{gather, Steps-all_handled}
use logfence.Daemon.Main.{Files, build_validator, SignalState}
use logfence.Daemon.Main.Build.{IsBuilt, build_validator_iff}
use logfence.Daemon.Task.{Task}
use logfence.Daemon.Listener.Task.{stream_task}
use logfence.Daemon.Datagram.Pool.Task.{datagram_task}
use logfence.Daemon.Main.Process
use logfence.Daemon.Main.Process.Lived.{Lived, Life-Lived}
use logfence.Tests.Daemon.{braces, relay}

-- With one connection at most, which is there.
abbrev serving : Listener.ListenerState
serving = record { permits = 0; sessions = 1; phase = Listener.acquiring; cancelled = false }

serving_path : Listener.Steps 1 (Listener.start 1) serving
serving_path =
    Listener.next
      (Listener.next Listener.here (Listener.acquire (Listener.start 1) refl refl (omega arith)))
      (Listener.accept
        (record { permits = 0; sessions = 0; phase = Listener.accepting; cancelled = false }) refl
        refl)

Steps-KeepsTo_example : KeepsTo 1 0 1 Listener.acquiring
Steps-KeepsTo_example = Steps-KeepsTo 1 serving (omega arith) serving_path

Steps-drained_example :
    (t : Listener.ListenerState) × Listener.Steps 1 serving t
    × (t.phase ≡ Listener.returned true)
    × (t.sessions ≡ 0)
    × (t.permits ≡ 1)
Steps-drained_example = Steps-drained 1 serving serving_path (λ all e. cc)

-- A worker that gets one datagram, of which the buffer holds three bytes.
abbrev datagram : Bytes × Option Bytes
datagram = (codes "<13>", none)

abbrev cut : Item
cut = received_item 3 datagram

abbrev got_one : Pool.Pool
got_one = record Pool.start { phase = Pool.dispatching (cut ∷ []); received = cut ∷ [] }

abbrev sent_one : Pool.Pool
sent_one = Pool.enqueued 1 cut [] got_one

abbrev waits_again : Pool.Pool
waits_again = record sent_one { phase = Pool.receiving }

abbrev handled : Pool.Pool
handled = Pool.handled_one 0 cut [] waits_again

abbrev over : Pool.Pool
over = record handled { cancelled = true; phase = Pool.returned true }

handled_path : Pool.Steps 1 3 Pool.start handled
handled_path =
    Pool.next
      (Pool.next
        (Pool.next (Pool.next Pool.here (Pool.receive Pool.start (datagram ∷ []) refl refl))
          (Pool.send got_one cut [] refl refl (omega arith)))
        (Pool.batch_done sent_one refl))
      (Pool.handle waits_again 0 cut [] (omega arith) refl refl)

only_one : (i : ℕ) → i < 1 → (handled.workers i).queue ≡ []
only_one i k =
    let first : 0 ≡ i = omega (arith, k) in subst (λ j. (handled.workers j).queue ≡ []) first refl

over-AllAlive : AllAlive 1 over.workers
over-AllAlive i k =
    let first : 0 ≡ i = omega (arith, k) in subst (λ j. (over.workers j).alive ≡ true) first refl

over_path : Pool.Steps 1 3 Pool.start over
over_path =
    Pool.next
      (Pool.next (Pool.next handled_path (Pool.cancel handled))
        (Pool.stop (record handled { cancelled = true }) refl refl))
      (Pool.finished (record handled { cancelled = true; phase = Pool.closing }) refl only_one)

Steps-all_handled_example :
    ((over.workers 0).handled ≡ share 1 0 0 (cut ∷ []))
    × Perm (gather 1 (λ j. (over.workers j).handled)) (cut ∷ [])
Steps-all_handled_example =
    Steps-all_handled 1 3 over 0 (omega arith) over_path refl over-AllAlive (omega arith)

-- A file system in which every file has an object, and the configuration cannot be read.
abbrev brace_files : Files
brace_files = record {
  read_config = err (codes "not found");
  read_to_string = λ path. inr (codes "{");
}

abbrev one_schema : ValidationConfig
one_schema = record default_validation { schemas = codes "a.json" ∷ [] }

build_validator_iff_example :
    (build_validator braces brace_files one_schema ≡ ok (new_validator braces strict (tt ∷ [])))
    ↔ IsBuilt braces brace_files one_schema (new_validator braces strict (tt ∷ []))
build_validator_iff_example =
    build_validator_iff braces brace_files one_schema (new_validator braces strict (tt ∷ []))

abbrev no_toml : Bytes → Outcome Bytes Config
no_toml text = err (codes "expected a table")

abbrev plain_text : ConfigError → Bytes
plain_text e = codes "configuration error"

abbrev watching : SignalState braces (codes "a.toml") no_toml plain_text
watching = record {
  validator = relay;
  validation = default_validation;
  cancelled = false;
  returned = false;
}

abbrev streaming : Task
streaming = stream_task 1

-- The forwarder has cancelled the token.
abbrev stopped : Process.Process braces (codes "a.toml") no_toml plain_text streaming
stopped =
    Process.listened braces (codes "a.toml") no_toml plain_text streaming
      (record (Listener.start 1) { cancelled = true })
      (Process.launched braces (codes "a.toml") no_toml plain_text streaming true watching)

stopped_path :
    Process.Life braces
      (codes "a.toml")
      no_toml
      plain_text
      streaming
      (Process.launched braces (codes "a.toml") no_toml plain_text streaming true watching)
      []
      stopped
stopped_path = Process.listen Process.begun refl refl (Listener.cancel (Listener.start 1))

Life-Lived_example :
    Lived braces (codes "a.toml") no_toml plain_text streaming true watching [] stopped
Life-Lived_example =
    Life-Lived braces (codes "a.toml") no_toml plain_text streaming true watching [] stopped refl
      refl stopped_path

one_worker : 1 ≤ 1
one_worker = omega arith

abbrev receiving : Task
receiving = datagram_task 1 3 one_worker

-- One datagram has been received, and is not sent yet.
abbrev busy : Process.Process braces (codes "a.toml") no_toml plain_text receiving
busy =
    Process.listened braces (codes "a.toml") no_toml plain_text receiving got_one
      (Process.launched braces (codes "a.toml") no_toml plain_text receiving true watching)
