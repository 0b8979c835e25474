-- ===== src/Fuzzer/Unique.antt =====
-- The environments of the fuzzers, which are built from nothing by Setenv.
use cifuzz.Base.{
  ◌≡◌, refl, Bool, true, false, not, Option, none, some, List, [], ◌∷◌, if◌then◌else◌, arith,
}
use cifuzz.Base.Result.{Result, ok, err, ◌>>=◌, Ensures, Ensures-bind, Ensures-if}
use cifuzz.Text.{Bytes, codes, bytes_eq, cut}
use cifuzz.Env.{Entries, SetenvError, setenv, lookup_env}
use cifuzz.Env.Update.{IsUnique, setenv-IsUnique, occurrences}
use cifuzz.Runner.{
  EnvFlagError, wrap_setenv, flag_of, add_env_flag, add_env_flags, set_ld_library_path,
  set_common_ubsan_options, set_common_asan_options, set_options_variable,
}
use cifuzz.Fuzzer.LibFuzzer.{
  RunnerOptions, Platform, RunError, or_error, in_environment, setting, base_environment, inherit,
  fuzzer_environment,
}
use cifuzz.Fuzzer.Jazzer.{with_java_home, jazzer_environment}
use cifuzz.Fuzzer.EngineArgs.{set_engine_args_as_jazzer_flags_lem}
use cifuzz.Fuzzer.JazzerJs.{
  JazzerJsRc, set_engine_args_as_jazzer_flags, set_engine_args, jazzer_js_environment,
}

abbrev AnyError : {E : Type 0} → E → Type 0
AnyError e = Unit

-- No variable occurs twice, if there is an environment.
abbrev pub Keeps : Result RunError (List Bytes) → Type 0
Keeps m = Ensures IsUnique AnyError m

IsUnique-empty : IsUnique []
unfolding occurrences
IsUnique-empty key = ground arith

setting-Keeps :
    (env : List Bytes) (key value : Bytes) → IsUnique env → Keeps (setting (setenv env key value))
setting-Keeps env key value u = result (setenv env key value) refl
  where
    result : (r : Result SetenvError (List Bytes)) → setenv env key value ≡ r → Keeps (setting r)
    result (ok env') e = setenv-IsUnique env key value u e
    result (err x) e = tt

add_env_flags-Keeps :
    (vars env : List Bytes) → IsUnique env → Ensures IsUnique AnyError (add_env_flags env vars)
unfolding add_env_flags add_env_flag
add_env_flags-Keeps [] env u = u
add_env_flags-Keeps (v ∷ vars) env u =
    Ensures-bind IsUnique IsUnique AnyError (add_env_flag env v) (λ env'. add_env_flags env' vars)
      (flag (cut b'=' v)) (λ env' u'. add_env_flags-Keeps vars env' u')
  where
    wrapped :
        (key value : Bytes) (r : Result SetenvError (List Bytes))
        → setenv env key value ≡ r
        → Ensures IsUnique AnyError (wrap_setenv r)
    wrapped key value (ok env') e = setenv-IsUnique env key value u e
    wrapped key value (err x) e = tt

    flag : (c : Option (Bytes × Bytes)) → Ensures IsUnique AnyError (flag_of env v c)
    flag none = tt
    flag (some (key, value)) = wrapped key value (setenv env key value) refl

in_environment-Keeps :
    (r : Result EnvFlagError (List Bytes)) → Ensures IsUnique AnyError r → Keeps (in_environment r)
in_environment-Keeps (ok env) u = u
in_environment-Keeps (err e) u = tt

-- The rule of composition for environments
then-Keeps :
    (m : Result RunError (List Bytes)) (f : List Bytes → Result RunError (List Bytes))
    → Keeps m
    → ((env : List Bytes) → IsUnique env → Keeps (f env))
    → Keeps (m >>= f)
then-Keeps m f = Ensures-bind IsUnique IsUnique AnyError m f

or_error-Keeps :
    {A : Type 0} (e : RunError) (o : Option A) (f : A → Result RunError (List Bytes))
    → ((a : A) → Keeps (f a))
    → Keeps (or_error e o >>= f)
or_error-Keeps e none f h = tt
or_error-Keeps e (some a) f h = h a

found-Keeps :
    (b : Bool) (e : RunError) (a : Bytes) (f : Bytes → Result RunError (List Bytes))
    → Keeps (f a)
    → Keeps ((if b then ok a else err e) >>= f)
found-Keeps true e a f h = h
found-Keeps false e a f h = tt

base_environment-Keeps : (p : Platform) → Keeps (base_environment p)
unfolding base_environment
base_environment-Keeps p = or_error-Keeps _ p.llvm_symbolizer_path _ (λ path.
    or_error-Keeps _ (p.eval_symlinks path) _ (λ resolved.
      found-Keeps (p.exists resolved) _ resolved _ (
        then-Keeps (setting (setenv [] (codes "ASAN_SYMBOLIZER_PATH") resolved)) _
          (setting-Keeps [] _ _ IsUnique-empty) (λ env u. setting-Keeps env _ _ u))))

inherit-Keeps :
    (p : Platform) (name : Bytes) (env : List Bytes) → IsUnique env → Keeps (inherit p name env)
unfolding inherit
inherit-Keeps p name env u =
    Ensures-if IsUnique AnyError (not (bytes_eq (p.getenv name) []))
      (setting (setenv env name (p.getenv name))) (ok env)
      (λ _. setting-Keeps env name (p.getenv name) u) (λ _. u)

options-Keeps :
    (visit : Entries → Entries) (name : Bytes) (env : List Bytes) (defaults overrides : Entries)
    → IsUnique env
    → Keeps (setting (set_options_variable visit name env defaults overrides))
unfolding set_options_variable
options-Keeps visit name env defaults overrides u = setting-Keeps env name _ u

fuzzer_environment-Keeps : (p : Platform) (r : RunnerOptions) → Keeps (fuzzer_environment p r)
unfolding fuzzer_environment set_ld_library_path set_common_ubsan_options set_common_asan_options
fuzzer_environment-Keeps p r = then-Keeps (base_environment p) _ (base_environment-Keeps p) (λ a u.
    then-Keeps (setting (set_ld_library_path a r.library_dirs)) _ (setting-Keeps a _ _ u) (λ b u.
      then-Keeps (inherit p (codes "ASAN_OPTIONS") b) _ (inherit-Keeps p _ b u) (λ c u.
        then-Keeps (inherit p (codes "UBSAN_OPTIONS") c) _ (inherit-Keeps p _ c u) (λ d u.
          then-Keeps (in_environment (add_env_flags d r.env_vars)) _
            (in_environment-Keeps _ (add_env_flags-Keeps r.env_vars d u))
            (λ e u.
              then-Keeps (setting (set_common_ubsan_options p.visit p.is_terminal p.plain_style e))
                _ (options-Keeps p.visit _ e _ _ u)
                (λ f u.
                  then-Keeps
                    (setting (set_common_asan_options p.visit p.is_terminal p.plain_style f)) _
                    (options-Keeps p.visit _ f _ _ u) (λ g u. options-Keeps p.visit _ g _ _ u)))))))

with_java_home-Keeps :
    (java_home : Option Bytes) (env : List Bytes) (set : Option Bytes)
    → IsUnique env
    → Keeps (with_java_home java_home env set)
unfolding with_java_home
with_java_home-Keeps java_home env (some value) u = u
with_java_home-Keeps java_home env none u =
    or_error-Keeps _ java_home _ (λ path. setting-Keeps env _ path u)

jazzer_environment-Keeps :
    (java_home : Option Bytes) (r : RunnerOptions) → Keeps (jazzer_environment java_home r)
unfolding jazzer_environment
jazzer_environment-Keeps java_home r =
    then-Keeps (in_environment (add_env_flags [] r.env_vars)) _
      (in_environment-Keeps _ (add_env_flags-Keeps r.env_vars [] IsUnique-empty))
      (λ a u.
        then-Keeps (with_java_home java_home a (lookup_env a (codes "JAVA_HOME"))) _
          (with_java_home-Keeps java_home a _ u) (λ b u. setting-Keeps b _ _ u))

set_engine_args-Keeps :
    (marshal : List Bytes → Bytes) (rc : Result RunError JazzerJsRc) (args env : List Bytes)
    → IsUnique env
    → Keeps (set_engine_args marshal rc args env)
unfolding set_engine_args
set_engine_args-Keeps marshal rc [] env u = u
set_engine_args-Keeps marshal (err e) (arg ∷ args) env u = tt
set_engine_args-Keeps marshal (ok rc) (arg ∷ args) env u =
    result (set_engine_args_as_jazzer_flags marshal rc (arg ∷ args) env) refl
  where
    result :
        (r : Result RunError (List Bytes))
        → set_engine_args_as_jazzer_flags marshal rc (arg ∷ args) env ≡ r
        → Keeps r
    result (ok after) e =
        (set_engine_args_as_jazzer_flags_lem marshal rc (arg ∷ args) env after u e).unique
    result (err x) e = tt

jazzer_js_environment-Keeps :
    (marshal : List Bytes → Bytes) (rc : Result RunError JazzerJsRc) (r : RunnerOptions)
    → Keeps (jazzer_js_environment marshal rc r)
unfolding jazzer_js_environment
jazzer_js_environment-Keeps marshal rc r =
    then-Keeps (in_environment (add_env_flags [] r.env_vars)) _
      (in_environment-Keeps _ (add_env_flags-Keeps r.env_vars [] IsUnique-empty))
      (λ a u.
        then-Keeps (setting (setenv a (codes "JAZZER_FUZZ") (codes "1"))) _ (setting-Keeps a _ _ u)
          (λ b u. set_engine_args-Keeps marshal rc r.engine_args b u))

-- The environment of each of the three runners has no variable twice, whatever the user and the machine
-- set.
pub fuzzer_environment-IsUnique :
    (p : Platform) (r : RunnerOptions) (java_home : Option Bytes) (marshal : List Bytes → Bytes)
    (rc : Result RunError JazzerJsRc)
    → Keeps (fuzzer_environment p r)
      × Keeps (jazzer_environment java_home r)
      × Keeps (jazzer_js_environment marshal rc r)
fuzzer_environment-IsUnique p r java_home marshal rc = (
  fuzzer_environment-Keeps p r,
  jazzer_environment-Keeps java_home r,
  jazzer_js_environment-Keeps marshal rc r,
)
