-- ===== src/Daemon/Main/Failed.antt =====
-- The call that made the binding of a listener fail.
use logfence.Prelude.{
  Bool, true, false, ◌≡◌, inl, inr, refl, Option, none, some, Bytes, Bool-cases, arith, Outcome, ok,
  err, panic,
}
use logfence.Io.{IoError}
use logfence.Daemon.Config.{DaemonConfig, ListenTransport, unix_stream, unix_dgram, permission_bits}
use logfence.Daemon.Json.{JsonLibrary}
use logfence.Daemon.Forwarder.Forward.{Forwarder, is_not_connected}
use logfence.Daemon.Listener.Bind.{ask, remove_if, remove_stale, apply_socket_permissions}
use logfence.Daemon.Datagram.Bind.{recv_buffer_size, unless_not_connected, read_only}
use logfence.Daemon.Main.Start.{
  StartError, bind_failed, ListenerTask, on_stream, on_datagrams, to_task, bind_listener,
}
use logfence.Daemon.Os.{
  System, Call, remove_file, bind_stream, bind_datagram, set_permissions, set_recv_buffer_size,
  shutdown_write, open_append, open_datagram, shutdown_read, spawn_stats, as_result, M-eq-err,
}

-- The calls that `bind` makes for a configuration.
abbrev pub IsBindCall : DaemonConfig → Call → Type 0
IsBindCall cfg (remove_file path) = path ≡ cfg.listen_socket
IsBindCall cfg (bind_stream path) =
    (cfg.listen_transport ≡ unix_stream) × (path ≡ cfg.listen_socket)
IsBindCall cfg (bind_datagram path) =
    (cfg.listen_transport ≡ unix_dgram) × (path ≡ cfg.listen_socket)
IsBindCall cfg (set_permissions path bits) =
    (path ≡ cfg.listen_socket) × (bits ≡ permission_bits cfg.socket_mode)
IsBindCall cfg (set_recv_buffer_size n) =
    (cfg.listen_transport ≡ unix_dgram) × (n ≡ recv_buffer_size)
IsBindCall cfg shutdown_write = cfg.listen_transport ≡ unix_dgram
IsBindCall cfg (open_append path) = ⊥
IsBindCall cfg open_datagram = ⊥
IsBindCall cfg shutdown_read = ⊥
IsBindCall cfg (spawn_stats path) = ⊥

module _ {W : Type 0} (os : System W) where
  -- One of those calls returned the error, and nothing was done behind it.
  pub record Fails (cfg : DaemonConfig) (e : IoError) (z : W) : Type 0 where
    pub call : Call
    pub before : W
    pub of_bind : IsBindCall cfg call
    pub failed : (os.call call before).0 ≡ some e
    pub behind : z ≡ (os.call call before).1

  as_result-err :
      (p : Option IoError × W) (e : IoError) (z : W)
      → as_result p ≡ (err e, z)
      → (p.0 ≡ some e) × (z ≡ p.1)
  as_result-err (none, w) e z h = absurd (cc)
  as_result-err (some x, w) e z h = (cc, cc)

  ask-Fails :
      (cfg : DaemonConfig) (call : Call) (e : IoError) (w z : W)
      → IsBindCall cfg call
      → ask os call w ≡ (err e, z)
      → Fails cfg e z
  ask-Fails cfg call e w z known h =
      let (failed, behind) = as_result-err (os.call call w) e z h in
      record { call = call; before = w; of_bind = known; failed = failed; behind = behind }

  remove_if-Fails :
      (cfg : DaemonConfig) (there : Bool) (e : IoError) (w z : W)
      → remove_if os there cfg.listen_socket w ≡ (err e, z)
      → Fails cfg e z
  remove_if-Fails cfg true e w z h = ask-Fails cfg (remove_file cfg.listen_socket) e w z refl h
  remove_if-Fails cfg false e w z h = absurd (cc)

  unless-some : (f : Option IoError) (e : IoError) → unless_not_connected f ≡ some e → f ≡ some e
  unless-some none e h = absurd (cc)
  unless-some (some x) e h = elim (Bool-cases (is_not_connected x.kind)) [
    | inl quiet ↦ absurd (ground arith)
    | inr loud ↦ ground arith
  ]

  read_only-Fails :
      (cfg : DaemonConfig) (e : IoError) (w z : W)
      → cfg.listen_transport ≡ unix_dgram
      → read_only os w ≡ (err e, z)
      → Fails cfg e z
  read_only-Fails cfg e w z known h =
      let (failed, behind) = as_result-err _ e z h in
      record {
        call = shutdown_write;
        before = w;
        of_bind = known;
        failed = unless-some (os.call shutdown_write w).0 e failed;
        behind = behind;
      }

  bind_stream-Fails :
      (trim : Bytes → Bytes) (cfg : DaemonConfig) (fw : Forwarder) (e : IoError) (w z : W)
      → cfg.listen_transport ≡ unix_stream
      → logfence.Daemon.Listener.Bind.bind os trim cfg fw w ≡ (err e, z)
      → Fails cfg e z
  unfolding logfence.Daemon.Listener.Bind.bind
  bind_stream-Fails trim cfg fw e w z known h =
      let w1 = (remove_stale os cfg.listen_socket w).1 in
      let w2 = (ask os (bind_stream cfg.listen_socket) w1).1 in
      elim (M-eq-err _ (remove_stale os cfg.listen_socket w) h) [
        | inl stale ↦ remove_if-Fails cfg (os.exists cfg.listen_socket w) e w z stale
        | inr (d1, r1, h1) ↦ elim (M-eq-err _ (ask os (bind_stream cfg.listen_socket) w1) h1) [
          | inl unbound ↦ ask-Fails cfg (bind_stream cfg.listen_socket) e _ z (known, refl) unbound
          | inr (d2, r2, h2) ↦
              elim (M-eq-err _ (apply_socket_permissions os cfg.listen_socket cfg.socket_mode w2)
                h2) [
                  | inl kept ↦
                      ask-Fails cfg
                        (set_permissions cfg.listen_socket (permission_bits cfg.socket_mode)) e _ z
                        (refl, refl) kept
                  | inr (d3, r3, h3) ↦ absurd (cc)
                ]
        ]
      ]

  bind_datagram-Fails :
      (trim : Bytes → Bytes) (cfg : DaemonConfig) (fw : Forwarder) (e : IoError) (w z : W)
      → cfg.listen_transport ≡ unix_dgram
      → logfence.Daemon.Datagram.Bind.bind os trim cfg fw w ≡ (err e, z)
      → Fails cfg e z
  unfolding logfence.Daemon.Datagram.Bind.bind
  bind_datagram-Fails trim cfg fw e w z known h =
      let w1 = (remove_stale os cfg.listen_socket w).1 in
      let w2 = (ask os (bind_datagram cfg.listen_socket) w1).1 in
      let w3 = (apply_socket_permissions os cfg.listen_socket cfg.socket_mode w2).1 in
      let w4 = (ask os (set_recv_buffer_size recv_buffer_size) w3).1 in
      elim (M-eq-err _ (remove_stale os cfg.listen_socket w) h) [
        | inl stale ↦ remove_if-Fails cfg (os.exists cfg.listen_socket w) e w z stale
        | inr (d1, r1, h1) ↦ elim (M-eq-err _ (ask os (bind_datagram cfg.listen_socket) w1) h1) [
          | inl unbound ↦
              ask-Fails cfg (bind_datagram cfg.listen_socket) e _ z (known, refl) unbound
          | inr (d2, r2, h2) ↦
              elim (M-eq-err _ (apply_socket_permissions os cfg.listen_socket cfg.socket_mode w2)
                h2) [
                  | inl kept ↦
                      ask-Fails cfg
                        (set_permissions cfg.listen_socket (permission_bits cfg.socket_mode)) e _ z
                        (refl, refl) kept
                  | inr (d3, r3, h3) ↦
                      elim (M-eq-err _ (ask os (set_recv_buffer_size recv_buffer_size) w3) h3) [
                        | inl small ↦
                            ask-Fails cfg (set_recv_buffer_size recv_buffer_size) e _ z
                              (known, refl) small
                        | inr (d4, r4, h4) ↦ elim (M-eq-err _ (read_only os w4) h4) [
                          | inl open_end ↦ read_only-Fails cfg e _ z known open_end
                          | inr (d5, r5, h5) ↦ absurd (cc)
                        ]
                      ]
                ]
        ]
      ]

  module _ (lib : JsonLibrary) where
    to_task-err :
        {A : Type 0} (task : A → ListenerTask) (p : Outcome IoError A × W) (e : StartError) (z : W)
        → to_task os lib task p ≡ (err e, z)
        → (cause : IoError) × (e ≡ bind_failed cause) × (p ≡ (err cause, z))
    to_task-err task (ok l, w) e z h = absurd (cc)
    to_task-err task (err cause, w) e z h = (cause, cc, cc)
    to_task-err task (panic, w) e z h = absurd (cc)

    -- If the listener is not bound, then for the error of a call.
    pub bind_listener-Fails :
        (trim : Bytes → Bytes) (transport : ListenTransport) (cfg : DaemonConfig) (fw : Forwarder)
        (e : StartError) (w z : W)
        → cfg.listen_transport ≡ transport
        → bind_listener os lib trim transport cfg fw w ≡ (err e, z)
        → (cause : IoError) × (e ≡ bind_failed cause) × Fails cfg cause z
    bind_listener-Fails trim unix_stream cfg fw e w z known h =
        let (cause, same, bound) = to_task-err on_stream _ e z h in
        (cause, same, bind_stream-Fails trim cfg fw cause w z known bound)
    bind_listener-Fails trim unix_dgram cfg fw e w z known h =
        let (cause, same, bound) = to_task-err on_datagrams _ e z h in
        (cause, same, bind_datagram-Fails trim cfg fw cause w z known bound)
