-- ===== src/Init/Main.antt =====
-- `main` of src/init/src/main.rs as the sequence of the calls that it makes, with the heartbeat of
-- src/aws/src/lib.rs. Failures that are only logged change nothing of the sequence.
use coordinator.Base.{
  ℕ, List, [], ◌∷◌, ◌++◌, Text, Bytes, Bool, true, false, Option, Outcome, ok, err, codes,
  if◌then◌else◌,
}
use coordinator.Init.Config.{read_config}
use coordinator.Init.Setup.{
  Environment, apply_pairs, apply_defaults, coordinate_sidecar, hosts_file,
}

-- A mount: source, target, type, the flags nodev, nosuid and noexec, and the options.
pub record Mount : Type 0 where
  pub src : Text
  pub target : Text
  pub fstype : Text
  pub nodev : Bool
  pub data_text : Text

-- The two sets of flags differ in nodev; nosuid and noexec are in both.
abbrev pub mount_of : Text → Text → Text → Bool → Text → Mount
mount_of src target fstype nodev data_text = record {
  src = src;
  target = target;
  fstype = fstype;
  nodev = nodev;
  data_text = data_text;
}

unfoldable pub mounts : List Mount
mounts =
    mount_of (codes "devtmpfs") (codes "/dev") (codes "devtmpfs") false (codes "mode=0755")
    ∷ mount_of (codes "devpts") (codes "/dev/pts") (codes "devpts") false []
    ∷ mount_of (codes "shm") (codes "/dev/shm") (codes "tmpfs") true (codes "mode=0755")
    ∷ mount_of (codes "proc") (codes "/proc") (codes "proc") true (codes "hidepid=2")
    ∷ mount_of (codes "tmpfs") (codes "/run") (codes "tmpfs") true (codes "mode=0755")
    ∷ mount_of (codes "tmpfs") (codes "/tmp") (codes "tmpfs") true []
    ∷ mount_of (codes "sysfs") (codes "/sys") (codes "sysfs") true []
    ∷ mount_of (codes "cgroup_root") (codes "/sys/fs/cgroup") (codes "tmpfs") true
        (codes "mode=0755")
    ∷ []

-- What `main` calls, in order. A child process inherits the environment at its spawn.
pub data Call : Type 0 where
  create_dir : Text → Call
  mount : Mount → Call
  freopen : Text → Text → ℕ → Call
  heartbeat : Call
  insmod : Text → Call
  seed_entropy : ℕ → Call
  run_busybox : List Text → Call
  write_hosts : Text → Call
  vsock_accept : ℕ → Call
  bridge : Text → Text → Call
  truncate_log : Call
  open_log : Call
  spawn_sidecar : Environment → Call
  spawn_coordinator : Environment → Call
  start_log_forwarder : Call
  wait_for_coordinator : Call
  sleep : ℕ → Call
  reboot : Call

abbrev pub mount_each : List Mount → List Call
mount_each [] = []
mount_each (m ∷ ms) = create_dir m.target ∷ mount m ∷ mount_each ms

unfoldable pub init_rootfs : List Call
init_rootfs = mount_each mounts

unfoldable pub init_console : List Call
init_console =
    freopen (codes "/dev/console") (codes "r") 0
    ∷ freopen (codes "/dev/console") (codes "w") 1
    ∷ freopen (codes "/dev/console") (codes "w") 2
    ∷ []

-- `connected`: the socket to the parent's heartbeat port could be opened.
unfoldable pub init_platform : Bool → List Call
init_platform connected =
    let modules : List Call = insmod (codes "/nsm.ko") ∷ [] in
    if connected then heartbeat ∷ modules else modules

unfoldable pub setup_loopback : List Call
setup_loopback =
    run_busybox (
      codes "ip" ∷ codes "addr" ∷ codes "add" ∷ codes "127.0.0.1/8" ∷ codes "dev" ∷ codes "lo" ∷ [])
    ∷ run_busybox
        (codes "ip" ∷ codes "link" ∷ codes "set" ∷ codes "dev" ∷ codes "lo" ∷ codes "up" ∷ [])
    ∷ write_hosts (codes "127.0.0.1 localhost\n")
    ∷ []

unfoldable pub bridges : List Call
bridges =
    bridge (codes "TCP-LISTEN:5432,reuseaddr,fork") (codes "VSOCK-CONNECT:3:8101")
    ∷ bridge (codes "TCP-LISTEN:6379,reuseaddr,fork") (codes "VSOCK-CONNECT:3:8102")
    ∷ bridge (codes "TCP-LISTEN:443,reuseaddr,fork") (codes "VSOCK-CONNECT:3:8103")
    ∷ bridge (codes "VSOCK-LISTEN:4000,reuseaddr,fork") (codes "TCP:127.0.0.1:4000")
    ∷ bridge (codes "VSOCK-LISTEN:4001,reuseaddr,fork") (codes "TCP:127.0.0.1:4001")
    ∷ []

-- The pairs of the config: none where no connection came.
abbrev pub pushed_pairs : Outcome Text (List (Option Text)) → List (Text × Text)
pushed_pairs (ok reader) = read_config reader
pushed_pairs (err e) = []

-- What the calls with an `expect` answer; the first that fails is a panic, after which nothing runs.
pub record Spawns : Type 0 where
  pub sidecar_log : Bool
  pub sidecar : Bool
  pub coordinator_log : Bool
  pub coordinator : Bool

abbrev pub expect : Bool → Call → List Call → List Call
expect true call rest = call ∷ rest
expect false call rest = call ∷ []

unfoldable pub start_children : Spawns → Environment → List Call
start_children s env =
    truncate_log
    ∷ expect s.sidecar_log open_log (
        expect s.sidecar (spawn_sidecar env) (
          expect s.coordinator_log open_log (
            expect s.coordinator (spawn_coordinator env)
              (start_log_forwarder ∷ wait_for_coordinator ∷ sleep 5000 ∷ reboot ∷ []))))

unfoldable pub main :
    Bool → Outcome Text (List (Option Text)) → Outcome Text Bytes → Spawns → Environment → List Call
main connected accepted entropy s env =
    let configured = apply_defaults (apply_pairs (pushed_pairs accepted) env) in
    let children = coordinate_sidecar entropy configured in
    init_rootfs
    ++ init_console
    ++ init_platform connected
    ++ seed_entropy 4096 ∷ setup_loopback
    ++ vsock_accept 7000 ∷ write_hosts (hosts_file configured) ∷ bridges
    ++ start_children s children
