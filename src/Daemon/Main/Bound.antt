-- ===== src/Daemon/Main/Bound.antt =====
-- The listener that `main` binds, and the mode that its socket has afterwards.
use logfence.Prelude.{
  ℕ, ◌%◌, ◌^◌, ◌≡◌, refl, sym, ap, ◌∙◌, subst, Option, none, some, Bytes, Outcome, ok, err, panic,
}
use logfence.Io.{IoError}
use logfence.Daemon.Config.{
  Config, DaemonConfig, ListenTransport, unix_stream, unix_dgram, permission_bits,
}
use logfence.Daemon.Json.{JsonLibrary}
use logfence.Daemon.Forwarder.Forward.{Forwarder}
use logfence.Daemon.Listener.{detect_hostname}
use logfence.Daemon.Listener.Bind.{Listener, ask, remove_stale, apply_socket_permissions, hostname}
use logfence.Daemon.Datagram.Bind.{
  DatagramListener, read_only, recv_buffer_size, unless_not_connected,
}
use logfence.Daemon.Main.Start.{ListenerTask, on_stream, on_datagrams, to_task, bind_listener}
use logfence.Daemon.Os.{
  System, bind_stream, bind_datagram, set_permissions, set_recv_buffer_size, shutdown_write,
  as_result, M-eq-ok, ok-state,
}

-- A system that has a mode for each file, of twelve bits. To set it succeeds if the call does, and
-- nothing that is done to a socket once it has its mode changes it.
pub record HasModes {W : Type 0} (os : System W) (mode_of : Bytes → W → Option ℕ) : Type 0 where
  pub sets :
      (path : Bytes) (bits : ℕ) (w : W)
      → (os.call (set_permissions path bits) w).0 ≡ none
      → mode_of path (os.call (set_permissions path bits) w).1 ≡ some (bits % 2 ^ 12)
  pub buffer_keeps :
      (path : Bytes) (n : ℕ) (w : W)
      → mode_of path (os.call (set_recv_buffer_size n) w).1 ≡ mode_of path w
  pub shutdown_keeps :
      (path : Bytes) (w : W) → mode_of path (os.call shutdown_write w).1 ≡ mode_of path w

module _ {W : Type 0} (os : System W) (mode_of : Bytes → W → Option ℕ) (modes : HasModes os mode_of)
    (lib : JsonLibrary) where
  -- A call that succeeded set the mode.
  asked_mode :
      (path : Bytes) (bits : ℕ) (w : W) (p : Option IoError × W) (done : Unit {0})
      → p ≡ os.call (set_permissions path bits) w
      → (as_result p).0 ≡ ok done
      → mode_of path (as_result p).1 ≡ some (bits % 2 ^ 12)
  asked_mode path bits w (none, z) done same h =
      ap (λ q. mode_of path q.1) same ∙ modes.sets path bits w (sym (ap (λ q. q.0) same))
  asked_mode path bits w (some e, z) done same h = absurd (cc)

  permissions-mode :
      (path mode_str : Bytes) (w : W) (done : Unit {0})
      → (apply_socket_permissions os path mode_str w).0 ≡ ok done
      → mode_of path (apply_socket_permissions os path mode_str w).1
        ≡ some (permission_bits mode_str % 2 ^ 12)
  permissions-mode path mode_str w done h =
      asked_mode path (permission_bits mode_str) w _ done refl h

  as_result-state : (p : Option IoError × W) → (as_result p).1 ≡ p.1
  as_result-state (none, w) = refl
  as_result-state (some e, w) = refl

  bind_stream-mode :
      (trim : Bytes → Bytes) (cfg : DaemonConfig) (forwarder : Forwarder) (l : Listener) (w z : W)
      → logfence.Daemon.Listener.Bind.bind os trim cfg forwarder w ≡ (ok l, z)
      → (mode_of cfg.listen_socket z ≡ some (permission_bits cfg.socket_mode % 2 ^ 12))
        × (l.cfg ≡ cfg)
        × (l.forwarder ≡ forwarder)
        × (l.semaphore ≡ cfg.max_connections)
  unfolding logfence.Daemon.Listener.Bind.bind
  bind_stream-mode trim cfg forwarder l w z h =
      let (d1, r1, h1) = M-eq-ok _ (remove_stale os cfg.listen_socket w) h in
      let w1 = (remove_stale os cfg.listen_socket w).1 in
      let (d2, r2, h2) = M-eq-ok _ (ask os (bind_stream cfg.listen_socket) w1) h1 in
      let w2 = (ask os (bind_stream cfg.listen_socket) w1).1 in
      let (d3, r3, h3) =
        M-eq-ok _ (apply_socket_permissions os cfg.listen_socket cfg.socket_mode w2) h2 in
      let same = sym (ok-state h3).0 in
      (
        ap (mode_of cfg.listen_socket) (sym (ok-state h3).1)
            ∙ permissions-mode cfg.listen_socket cfg.socket_mode w2 d3 r3,
        ap (λ x. x.cfg) same,
        ap (λ x. x.forwarder) same,
        ap (λ x. x.semaphore) same,
      )

  bind_datagram-mode :
      (trim : Bytes → Bytes) (cfg : DaemonConfig) (forwarder : Forwarder) (l : DatagramListener)
      (w z : W)
      → logfence.Daemon.Datagram.Bind.bind os trim cfg forwarder w ≡ (ok l, z)
      → (mode_of cfg.listen_socket z ≡ some (permission_bits cfg.socket_mode % 2 ^ 12))
        × (l.cfg ≡ cfg)
        × (l.forwarder ≡ forwarder)
  unfolding logfence.Daemon.Datagram.Bind.bind
  bind_datagram-mode trim cfg forwarder l w z h =
      let (d1, r1, h1) = M-eq-ok _ (remove_stale os cfg.listen_socket w) h in
      let w1 = (remove_stale os cfg.listen_socket w).1 in
      let (d2, r2, h2) = M-eq-ok _ (ask os (bind_datagram cfg.listen_socket) w1) h1 in
      let w2 = (ask os (bind_datagram cfg.listen_socket) w1).1 in
      let (d3, r3, h3) =
        M-eq-ok _ (apply_socket_permissions os cfg.listen_socket cfg.socket_mode w2) h2 in
      let w3 = (apply_socket_permissions os cfg.listen_socket cfg.socket_mode w2).1 in
      let (d4, r4, h4) = M-eq-ok _ (ask os (set_recv_buffer_size recv_buffer_size) w3) h3 in
      let w4 = (ask os (set_recv_buffer_size recv_buffer_size) w3).1 in
      let (d5, r5, h5) = M-eq-ok _ (read_only os w4) h4 in
      let same = sym (ok-state h5).0 in
      (
        ap (mode_of cfg.listen_socket) (
              sym (ok-state h5).1
              ∙ as_result-state (
                unless_not_connected (os.call shutdown_write w4).0,
                (os.call shutdown_write w4).1,
              ))
            ∙ modes.shutdown_keeps cfg.listen_socket w4
            ∙ ap (mode_of cfg.listen_socket)
                (as_result-state (os.call (set_recv_buffer_size recv_buffer_size) w3))
            ∙ modes.buffer_keeps cfg.listen_socket recv_buffer_size w3
            ∙ permissions-mode cfg.listen_socket cfg.socket_mode w2 d3 r3,
        ap (λ x. x.cfg) same,
        ap (λ x. x.forwarder) same,
      )

  -- The listener of the configuration, with the forwarder.
  abbrev pub IsTask : Config → Forwarder → ListenerTask → Type 0
  IsTask cfg forwarder (on_stream l) =
      (cfg.daemon.listen_transport ≡ unix_stream)
      × (l.cfg ≡ cfg.daemon)
      × (l.forwarder ≡ forwarder)
      × (l.semaphore ≡ cfg.daemon.max_connections)
  IsTask cfg forwarder (on_datagrams l) =
      (cfg.daemon.listen_transport ≡ unix_dgram) × (l.cfg ≡ cfg.daemon) × (l.forwarder ≡ forwarder)

  abbrev pub Listens : Config → Forwarder → ListenerTask → W → Type 0
  Listens cfg forwarder task z =
      IsTask cfg forwarder task
      × (mode_of cfg.daemon.listen_socket z
          ≡ some (permission_bits cfg.daemon.socket_mode % 2 ^ 12))

  to_task-ok :
      {A : Type 0} (task : A → ListenerTask) (p : Outcome IoError A × W) (t : ListenerTask) (z : W)
      → to_task os lib task p ≡ (ok t, z)
      → (l : A) × (p ≡ (ok l, z)) × (t ≡ task l)
  to_task-ok task (ok l, w) t z h = (l, cc, cc)
  to_task-ok task (err e, w) t z h = absurd (cc)
  to_task-ok task (panic, w) t z h = absurd (cc)

  pub bind_listener-Listens :
      (trim : Bytes → Bytes) (cfg : Config) (transport : ListenTransport) (forwarder : Forwarder)
      (t : ListenerTask) (w z : W)
      → cfg.daemon.listen_transport ≡ transport
      → bind_listener os lib trim transport cfg.daemon forwarder w ≡ (ok t, z)
      → Listens cfg forwarder t z
  bind_listener-Listens trim cfg unix_stream forwarder t w z kind h =
      let (l, bound, same) = to_task-ok on_stream _ t z h in
      let (mode, same_cfg, same_forwarder, permits) =
        bind_stream-mode trim cfg.daemon forwarder l w z bound in
      subst (λ x. Listens cfg forwarder x z) (sym same)
        ((kind, same_cfg, same_forwarder, permits), mode)
  bind_listener-Listens trim cfg unix_dgram forwarder t w z kind h =
      let (l, bound, same) = to_task-ok on_datagrams _ t z h in
      let (mode, same_cfg, same_forwarder) =
        bind_datagram-mode trim cfg.daemon forwarder l w z bound in
      subst (λ x. Listens cfg forwarder x z) (sym same) ((kind, same_cfg, same_forwarder), mode)
