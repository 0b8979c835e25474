-- ===== src/Tests/JailTests.antt =====
-- The bindings and the command of minijail at concrete inputs.
use cifuzz.Base.{◌≡◌, inl, refl, true, some, [], ◌∷◌, ◌++◌, not, map, if◌then◌else◌}
use cifuzz.Base.Int.{pos}
use cifuzz.Base.Result.{ok, err}
use cifuzz.Text.{codes, bytes_eq, has_byte}
use cifuzz.Minijail.Bindings.{
  Binding, bind, read_only, with_target, binding_text, binding_from_string, bad_writable,
}
use cifuzz.Minijail.BindingTexts.{binding_from_string-binding_text}
use cifuzz.Minijail.Jail.{Machine, JailOptions, Setup, new_minijail, fixed_minijail_args}
use cifuzz.Minijail.Enclosed.{Answers, Encloses, new_minijail-Encloses}

abbrev data_binding : Binding
data_binding = record { source = codes "/data"; target = codes "/mnt"; writable = read_only }

data_text : binding_text data_binding ≡ codes "/data,/mnt"
unfolding binding_text
data_text = refl

binding_from_string_example :
    binding_from_string (binding_text data_binding) ≡ ok (with_target data_binding)
unfolding has_byte
binding_from_string_example = binding_from_string-binding_text data_binding (refl, refl, inl refl)

-- The text of a source with a comma reads back as another binding.
comma_text :
    binding_from_string (binding_text (bind (codes "/a,b") read_only))
    ≡ err (bad_writable (codes "/a,b,0"))
unfolding binding_text binding_from_string
comma_text = refl

abbrev pub machine : Machine
machine = record {
  eval_symlinks = λ path. some path;
  mkdir_temp = some (codes "/jail");
  mkdir_all = λ path. true;
  touch = λ path. true;
  exists = λ path. some (not (bytes_eq path (codes "/gone")));
  is_dir = λ path. bytes_eq path (codes "/work");
  getwd = some (codes "/work");
  minijail_path = some (codes "minijail0");
  process_wrapper_path = some (codes "/bin/wrap");
  getenv = λ name.
      if bytes_eq name (codes "CIFUZZ_MINIJAIL_BINDINGS") then codes "/data,/mnt,1:/gone" else [];
}

abbrev options : JailOptions
options = record {
  args = codes "/fuzz" ∷ codes "-runs=1" ∷ [];
  bindings = bind (codes "/gone") read_only ∷ [];
  output_dir = codes "/out";
}

abbrev answers : Answers
answers = record {
  path = codes "/fuzz";
  chroot_dir = codes "/jail";
  minijail_path = codes "minijail0";
  workdir = codes "/work";
  process_wrapper_path = codes "/bin/wrap";
  additional = record { source = codes "/data"; target = codes "/mnt"; writable = pos 1 } ∷ [];
}

abbrev setup : Setup
setup = elim (new_minijail machine options) as (λ r. Setup) [
  | ok s ↦ s
  | err e ↦ record { args = []; made = [] }
]

setup_args :
    setup.args
    ≡ (codes "minijail0" ∷ fixed_minijail_args)
      ++ (codes "-T"
          ∷ codes "static"
          ∷ codes "--ambient"
          ∷ codes "-P"
          ∷ codes "/jail"
          ∷ codes "-b"
          ∷ codes "/dev/null,/dev/null,1"
          ∷ codes "-b"
          ∷ codes "/dev/urandom,/dev/urandom,1"
          ∷ codes "-b"
          ∷ codes "/out,/out,1"
          ∷ codes "-b"
          ∷ codes "/work,/work,1"
          ∷ codes "-b"
          ∷ codes "/fuzz"
          ∷ codes "-b"
          ∷ codes "/bin/wrap"
          ∷ codes "-b"
          ∷ codes "/data,/mnt,1"
          ∷ codes "--"
          ∷ codes "/bin/wrap"
          ∷ codes "/work"
          ∷ codes "/fuzz"
          ∷ codes "-runs=1"
          ∷ [])
unfolding new_minijail bytes_eq
setup_args = refl

setup_made :
    setup.made
    ≡ map codes (
        "/jail/proc" ∷ "/jail/tmp" ∷ "/jail/dev/shm" ∷ "/jail/dev" ∷ "/jail/dev/null" ∷ "/jail/dev"
        ∷ "/jail/dev/urandom" ∷ "/jail" ∷ "/jail/out" ∷ "/jail/work" ∷ "/jail" ∷ "/jail/fuzz"
        ∷ "/jail/bin" ∷ "/jail/bin/wrap" ∷ "/jail" ∷ "/jail/mnt" ∷ [])
unfolding new_minijail bytes_eq
setup_made = refl

new_minijail_example : Encloses machine options answers (codes "-runs=1" ∷ []) setup
unfolding new_minijail bytes_eq
new_minijail_example =
    new_minijail-Encloses machine options (codes "/fuzz") (codes "-runs=1" ∷ []) answers setup refl
      (refl, refl, refl, refl, refl, refl) refl
