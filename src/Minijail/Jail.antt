-- ===== src/Minijail/Jail.antt =====
-- pkg/minijail/minijail.go: NewMinijail, the command that runs a fuzzer in a jail. The file system and
-- the search for tools are a record of functions; the directories and files made are a list.
use cifuzz.Base.{ℕ, ◌+◌, Bool, true, false, Option, none, some, List, [], ◌∷◌, ◌++◌, if◌then◌else◌}
use cifuzz.Base.Result.{Result, ok, err, ◌>>=◌}
use cifuzz.Text.{Bytes, codes, bytes_eq, split}
use cifuzz.Text.Decimal.{decimal}
use cifuzz.Text.FilePath.{join_path, dir_name}
use cifuzz.Minijail.Bindings.{
  Binding, BindingError, bind, read_only, read_write, with_target, binding_text,
  binding_from_string,
}

-- What is asked of the machine; `none` is an error. `exists` is `fileutil.Exists`.
pub record Machine : Type 0 where
  pub eval_symlinks : Bytes → Option Bytes
  pub mkdir_temp : Option Bytes
  pub mkdir_all : Bytes → Bool
  pub touch : Bytes → Bool
  pub exists : Bytes → Option Bool
  pub is_dir : Bytes → Bool
  pub getwd : Option Bytes
  pub minijail_path : Option Bytes
  pub process_wrapper_path : Option Bytes
  pub getenv : Bytes → Bytes

pub data JailError : Type 0 where
  no_args symlinks_failed temp_failed mkdir_failed touch_failed stat_failed getwd_failed : JailError
  not_found : JailError
  bad_environment : BindingError → JailError

pub record JailOptions : Type 0 where
  pub args : List Bytes
  pub bindings : List Binding
  pub output_dir : Bytes

abbrev ms_rdonly : ℕ
ms_rdonly = 1

-- MS_RDONLY|MS_BIND|MS_REC and MS_NOSUID|MS_NODEV|MS_STRICTATIME: bits that do not overlap
abbrev read_only_flags : Bytes
read_only_flags = decimal (ms_rdonly + 4096 + 16384)

abbrev tmpfs_flags : Bytes
tmpfs_flags = decimal (2 + 4 + 16777216)

abbrev tmpfs : Bytes → Bytes
tmpfs dir = codes "tmpfs," ++ (dir ++ (codes ",tmpfs," ++ (tmpfs_flags ++ codes ",mode=1777")))

-- `fixedMinijailArgs`
abbrev pub fixed_minijail_args : List Bytes
fixed_minijail_args =
    codes "-U"
    ∷ codes "-m"
    ∷ codes "-M"
    ∷ codes "-c"
    ∷ codes "0"
    ∷ codes "-n"
    ∷ codes "-v"
    ∷ codes "-p"
    ∷ codes "-l"
    ∷ codes "-I"
    ∷ codes "-k"
    ∷ (codes "/,/,none," ++ read_only_flags)
    ∷ codes "-k"
    ∷ (codes "proc,/proc,proc," ++ decimal ms_rdonly)
    ∷ codes "-k"
    ∷ tmpfs (codes "/dev/shm")
    ∷ codes "-k"
    ∷ tmpfs (codes "/tmp")
    ∷ codes "-k"
    ∷ tmpfs (codes "/run")
    ∷ codes "-k"
    ∷ tmpfs (codes "/var/run")
    ∷ codes "--logging=stderr"
    ∷ []

-- `defaultBindings`
abbrev pub default_bindings : List Binding
default_bindings = bind (codes "/dev/null") read_write ∷ bind (codes "/dev/urandom") read_write ∷ []

abbrev pub or_error : {A : Type 0} → JailError → Option A → Result JailError A
or_error e none = err e
or_error e (some a) = ok a

abbrev pub or_failed : {A : Type 0} → JailError → Bool → A → Result JailError A
or_failed e true a = ok a
or_failed e false a = err e

abbrev pub wrap_binding : {A : Type 0} → Result BindingError A → Result JailError A
wrap_binding (ok a) = ok a
wrap_binding (err e) = err (bad_environment e)

-- The binding of an entry of CIFUZZ_MINIJAIL_BINDINGS, if its source exists
unfoldable pub env_binding : Machine → Bytes → Result JailError (List Binding)
unfolding binding_from_string
env_binding m [] = ok []
env_binding m (c ∷ s) = do
  b ← wrap_binding (binding_from_string (c ∷ s))
  exists ← or_error stat_failed (m.exists b.source)
  ok (if exists then b ∷ [] else [])

-- The loop over the entries
unfoldable pub env_bindings : Machine → List Bytes → Result JailError (List Binding)
unfolding env_binding
env_bindings m [] = ok []
env_bindings m (s ∷ entries) = do b ← env_binding m s; bs ← env_bindings m entries; ok (b ++ bs)

-- The destination of a binding in the jail: a directory for a directory, and else a file
unfoldable pub make_destination :
    Machine → Bytes → Binding → List Bytes → Result JailError (List Bytes)
unfolding join_path dir_name
make_destination m chroot_dir b made =
    let target = join_path chroot_dir b.target in
    let dir = join_path chroot_dir (dir_name b.target) in
    if m.is_dir b.source
    then or_failed mkdir_failed (m.mkdir_all target) (made ++ (target ∷ []))
    else or_failed mkdir_failed (m.mkdir_all dir) (made ++ (dir ∷ [])) >>= λ made'.
        or_failed touch_failed (m.touch target) (made' ++ (target ∷ []))

-- The minijail arguments so far, and what has been made in the jail
pub record Setup : Type 0 where
  pub args : List Bytes
  pub made : List Bytes

-- One round of the loop that creates the bindings: a source that does not exist is left out.
unfoldable pub bind_existing : Machine → Bytes → Binding → Setup → Bool → Result JailError Setup
unfolding make_destination binding_text
bind_existing m chroot_dir b s false = ok s
bind_existing m chroot_dir b s true = make_destination m chroot_dir b s.made >>= λ made.
    ok (record { args = s.args ++ (codes "-b" ∷ binding_text b ∷ []); made = made })

unfoldable pub create_binding : Machine → Bytes → Binding → Setup → Result JailError Setup
unfolding bind_existing
create_binding m chroot_dir b s =
    or_error stat_failed (m.exists b.source) >>= bind_existing m chroot_dir b s

unfoldable pub create_bindings : Machine → Bytes → List Binding → Setup → Result JailError Setup
unfolding create_binding with_target
create_bindings m chroot_dir [] s = ok s
create_bindings m chroot_dir (b ∷ bs) s =
    create_binding m chroot_dir (with_target b) s >>= create_bindings m chroot_dir bs

abbrev output_binding : Bytes → List Binding
output_binding [] = []
output_binding (c ∷ dir) = bind (c ∷ dir) read_write ∷ []

-- The bindings in front of those of the environment
unfoldable pub all_bindings : JailOptions → Bytes → Bytes → Bytes → List Binding
all_bindings o path workdir process_wrapper_path =
    o.bindings
    ++ (default_bindings
        ++ (output_binding o.output_dir
            ++ (bind workdir read_write
                ∷ bind path read_only
                ∷ bind process_wrapper_path read_only
                ∷ [])))

-- The command of the fuzzer, or a shell for debugging
unfoldable pub inner_args : Machine → List Bytes → List Bytes
unfolding bytes_eq
inner_args m args =
    if bytes_eq (m.getenv (codes "DEBUG_MINIJAIL")) [] then args else codes "/bin/sh" ∷ []

-- The arguments of minijail in front of the bindings
abbrev pub static_args : Bytes → Bytes → List Bytes
static_args minijail_path chroot_dir =
    (minijail_path ∷ fixed_minijail_args)
    ++ (codes "-T" ∷ codes "static" ∷ codes "--ambient" ∷ codes "-P" ∷ chroot_dir ∷ [])

abbrev pub first_dirs : Bytes → List Bytes
unfolding join_path
first_dirs chroot_dir =
    join_path chroot_dir (codes "/proc")
    ∷ join_path chroot_dir (codes "/tmp")
    ∷ join_path chroot_dir (codes "dev/shm")
    ∷ []

abbrev pub make_dirs : Machine → List Bytes → List Bytes → Result JailError (List Bytes)
make_dirs m made [] = ok made
make_dirs m made (dir ∷ dirs) =
    or_failed mkdir_failed (m.mkdir_all dir) (made ++ (dir ∷ [])) >>= λ made'.
    make_dirs m made' dirs

-- `NewMinijail`, behind the evaluation of the path of the executable
unfoldable pub jail_setup : Machine → JailOptions → Bytes → List Bytes → Result JailError Setup
unfolding first_dirs all_bindings env_bindings create_bindings inner_args split
jail_setup m o path rest = do
  chroot_dir ← or_error temp_failed m.mkdir_temp
  made ← make_dirs m [] (first_dirs chroot_dir)
  minijail_path ← or_error not_found m.minijail_path
  workdir ← or_error getwd_failed m.getwd
  process_wrapper_path ← or_error not_found m.process_wrapper_path
  additional ← env_bindings m (split b':' (m.getenv (codes "CIFUZZ_MINIJAIL_BINDINGS")))
  s ←
      create_bindings m chroot_dir (all_bindings o path workdir process_wrapper_path ++ additional)
        (record { args = static_args minijail_path chroot_dir; made = made })
  ok (record s {
    args =
        s.args
        ++ ((codes "--" ∷ process_wrapper_path ∷ workdir ∷ []) ++ inner_args m (path ∷ rest));
  })

unfoldable pub with_command : Machine → JailOptions → List Bytes → Result JailError Setup
unfolding jail_setup
with_command m o [] = err no_args
with_command m o (command ∷ rest) =
    or_error symlinks_failed (m.eval_symlinks command) >>= λ path. jail_setup m o path rest

-- `NewMinijail`; `Args[0]` of no arguments is a panic.
unfoldable pub new_minijail : Machine → JailOptions → Result JailError Setup
unfolding with_command
new_minijail m o = with_command m o o.args
