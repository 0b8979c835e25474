-- ===== src/Fuzzer/EngineArgs.antt =====
-- The engine arguments that Jazzer.js gets by variables.
use cifuzz.Base.{
  ◌≡◌, refl, sym, ap, ◌∙◌, Bool, true, false, ◌||◌, Option, none, some, List, [], ◌∷◌, ◌++◌,
  append_assoc, append-nil, if◌then◌else◌, arith,
}
use cifuzz.Base.Int.{pos, int_eq}
use cifuzz.Base.Result.{Result, ok, err, ◌>>=◌, Ensures, Ensures-bind, Ensures-map, Ensures-ok}
use cifuzz.Text.{Bytes, codes, bytes_eq, bytes_eq_refl, cut}
use cifuzz.Slices.{equal, bytes_comparable}
use cifuzz.Env.{SetenvError, setenv, lookup_env}
use cifuzz.Env.Update.{IsUnique, setenv-IsUnique, lookup_env-setenv}
use cifuzz.Fuzzer.LibFuzzer.{setting}
use cifuzz.Fuzzer.LastFlag.{last_flag, or_before, value_if}
use cifuzz.Fuzzer.JazzerJs.{
  JazzerJsRc, Engine, flag_already_in_rc, take_flag, take_flags, set_fuzzer_options,
  set_engine_args_as_jazzer_flags,
}

abbrev AnyError : {E : Type 0} → E → Type 0
AnyError e = Unit

-- The arguments that are added to the options of the file
unfoldable pub taken_flag : JazzerJsRc → Bytes → Option (Bytes × Bytes) → List Bytes
unfolding bytes_eq flag_already_in_rc
taken_flag rc arg none = []
taken_flag rc arg (some (flag, value)) =
    if bytes_eq flag (codes "-timeout") || flag_already_in_rc flag rc.fuzzer_options
    then []
    else arg ∷ []

unfoldable pub taken : JazzerJsRc → List Bytes → List Bytes
unfolding taken_flag cut
taken rc [] = []
taken rc (arg ∷ args) = taken_flag rc arg (cut b'=' arg) ++ taken rc args

-- The timeout behind a flag, if the file sets none
abbrev pub timeout_after : JazzerJsRc → Option Bytes → Option Bytes → Option Bytes
timeout_after rc value before = if int_eq rc.timeout (pos 0) then or_before value before else before

-- What the loop makes of some arguments
pub record Takes (rc : JazzerJsRc) (options : List Bytes) (timeout : Option Bytes) (e e' : Engine)
    : Type 0 where
  pub unique : IsUnique e'.env
  pub options_eq : e'.fuzzer_options ≡ e.fuzzer_options ++ options
  pub timeout_eq :
      lookup_env e'.env (codes "JAZZER_TIMEOUT")
      ≡ timeout_after rc timeout (lookup_env e.env (codes "JAZZER_TIMEOUT"))
  pub others :
      (j : Bytes)
      → bytes_eq (codes "JAZZER_TIMEOUT") j ≡ false
      → lookup_env e'.env j ≡ lookup_env e.env j

Takes-trans :
    (rc : JazzerJsRc) (a b : List Bytes) (t u : Option Bytes) (e e' e'' : Engine)
    → Takes rc a t e e'
    → Takes rc b u e' e''
    → Takes rc (a ++ b) (or_before u t) e e''
Takes-trans rc a b t u e e' e'' h k = record {
  unique = k.unique;
  options_eq = k.options_eq ∙ ap (λ o. o ++ b) h.options_eq ∙ append_assoc e.fuzzer_options a b;
  timeout_eq = ground (arith, h.timeout_eq, k.timeout_eq);
  others = λ j n. k.others j n ∙ h.others j n;
}

Takes-none : (rc : JazzerJsRc) (e : Engine) → IsUnique e.env → Takes rc [] none e e
Takes-none rc e u = record {
  unique = u;
  options_eq = sym (append-nil e.fuzzer_options);
  timeout_eq = ground arith;
  others = λ j n. refl;
}

Takes-timeout :
    (rc : JazzerJsRc) (value : Bytes) (e : Engine)
    → int_eq rc.timeout (pos 0) ≡ true
    → IsUnique e.env
    → Ensures (Takes rc [] (some value) e) AnyError (
        setting (setenv e.env (codes "JAZZER_TIMEOUT") value)
        >>= (λ env. ok (record e { env = env })))
Takes-timeout rc value e z u = result (setenv e.env (codes "JAZZER_TIMEOUT") value) refl
  where
    result :
        (r : Result SetenvError (List Bytes))
        → setenv e.env (codes "JAZZER_TIMEOUT") value ≡ r
        → Ensures
            (Takes rc [] (some value) e)
            AnyError
            (setting r >>= (λ env. ok (record e { env = env })))
    result (err x) s = tt
    result (ok env) s = record {
      unique = setenv-IsUnique e.env (codes "JAZZER_TIMEOUT") value u s;
      options_eq = sym (append-nil e.fuzzer_options);
      timeout_eq = ground (
        arith,
        lookup_env-setenv e.env (codes "JAZZER_TIMEOUT") value (codes "JAZZER_TIMEOUT") s,
        bytes_eq_refl (codes "JAZZER_TIMEOUT"),
        u (codes "JAZZER_TIMEOUT"),
        z,
      );
      others = λ j n. ground (arith, lookup_env-setenv e.env (codes "JAZZER_TIMEOUT") value j s);
    }

Takes-ignored :
    (rc : JazzerJsRc) (value : Bytes) (e : Engine)
    → int_eq rc.timeout (pos 0) ≡ false
    → IsUnique e.env
    → Takes rc [] (some value) e e
Takes-ignored rc value e z u = record {
  unique = u;
  options_eq = sym (append-nil e.fuzzer_options);
  timeout_eq = ground (arith, z);
  others = λ j n. refl;
}

Takes-option :
    (rc : JazzerJsRc) (arg : Bytes) (e : Engine)
    → IsUnique e.env
    → Takes rc (arg ∷ []) none e (record e { fuzzer_options = e.fuzzer_options ++ (arg ∷ []) })
Takes-option rc arg e u = record {
  unique = u;
  options_eq = refl;
  timeout_eq = ground arith;
  others = λ j n. refl;
}

take_flag-Takes :
    (rc : JazzerJsRc) (arg : Bytes) (e : Engine) (c : Option (Bytes × Bytes))
    → IsUnique e.env
    → Ensures
        (Takes rc (taken_flag rc arg c) (value_if (codes "-timeout") c) e)
        AnyError
        (take_flag rc arg e c)
unfolding take_flag taken_flag value_if
take_flag-Takes rc arg e none u = Takes-none rc e u
take_flag-Takes rc arg e (some (flag, value)) u =
    step (bytes_eq flag (codes "-timeout")) (flag_already_in_rc flag rc.fuzzer_options)
      (int_eq rc.timeout (pos 0)) refl
  where
    step :
        (is_timeout in_rc unset : Bool)
        → int_eq rc.timeout (pos 0) ≡ unset
        → Ensures
            (Takes rc
              (if is_timeout || in_rc then [] else arg ∷ [])
              (if is_timeout then some value else none)
              e)
            AnyError
            (if is_timeout
              then if unset
                then setting (setenv e.env (codes "JAZZER_TIMEOUT") value)
                  >>= (λ env. ok (record e { env = env }))
                else ok e
              else if in_rc
              then ok e
              else ok (record e { fuzzer_options = e.fuzzer_options ++ (arg ∷ []) }))
    step true in_rc true z = Takes-timeout rc value e z u
    step true in_rc false z = Takes-ignored rc value e z u
    step false true unset z = Takes-none rc e u
    step false false unset z = Takes-option rc arg e u

take_flags-Takes :
    (rc : JazzerJsRc) (args : List Bytes) (e : Engine)
    → IsUnique e.env
    → Ensures
        (Takes rc (taken rc args) (last_flag (codes "-timeout") args) e)
        AnyError
        (take_flags rc args e)
unfolding take_flags taken last_flag
take_flags-Takes rc [] e u = Takes-none rc e u
take_flags-Takes rc (arg ∷ args) e u =
    Ensures-bind
      (Takes rc (taken_flag rc arg (cut b'=' arg)) (value_if (codes "-timeout") (cut b'=' arg)) e)
      (Takes rc (taken rc (arg ∷ args)) (last_flag (codes "-timeout") (arg ∷ args)) e) AnyError
      (take_flag rc arg e (cut b'=' arg)) (take_flags rc args)
      (take_flag-Takes rc arg e (cut b'=' arg) u)
      (λ e' h.
        Ensures-map (Takes rc (taken rc args) (last_flag (codes "-timeout") args) e')
          (Takes rc (taken rc (arg ∷ args)) (last_flag (codes "-timeout") (arg ∷ args)) e) AnyError
          _ (λ e'' k. Takes-trans rc _ _ _ _ e e' e'' h k) (take_flags-Takes rc args e' h.unique))

-- What the engine arguments do to an environment: Jazzer.js reads the options of the file and those that
-- are added to them, if any are, and the last timeout, if the file has none.
pub record SetsEngine (marshal : List Bytes → Bytes) (rc : JazzerJsRc) (args env after : List Bytes)
    : Type 0 where
  pub unique : IsUnique after
  pub options : lookup_env after (codes "JAZZER_FUZZER_OPTIONS") ≡ (
      if equal (rc.fuzzer_options ++ taken rc args) rc.fuzzer_options
      then lookup_env env (codes "JAZZER_FUZZER_OPTIONS")
      else some (marshal (rc.fuzzer_options ++ taken rc args)))
  pub timeout :
      lookup_env after (codes "JAZZER_TIMEOUT")
      ≡ timeout_after rc
          (last_flag (codes "-timeout") args)
          (lookup_env env (codes "JAZZER_TIMEOUT"))
  pub others :
      (j : Bytes)
      → bytes_eq (codes "JAZZER_TIMEOUT") j ≡ false
      → bytes_eq (codes "JAZZER_FUZZER_OPTIONS") j ≡ false
      → lookup_env after j ≡ lookup_env env j

set_fuzzer_options-SetsEngine :
    (marshal : List Bytes → Bytes) (rc : JazzerJsRc) (args env : List Bytes) (e : Engine)
    → Takes rc
        (taken rc args)
        (last_flag (codes "-timeout") args)
        (record { env = env; fuzzer_options = rc.fuzzer_options })
        e
    → Ensures (SetsEngine marshal rc args env) AnyError (set_fuzzer_options marshal rc e)
unfolding set_fuzzer_options lookup_env bytes_eq
set_fuzzer_options-SetsEngine marshal rc args env e h =
    step (equal e.fuzzer_options rc.fuzzer_options)
      (ap (λ o. equal o rc.fuzzer_options) (sym h.options_eq))
  where
    name : Bytes
    name = codes "JAZZER_FUZZER_OPTIONS"

    set :
        (r : Result SetenvError (List Bytes))
        → equal (rc.fuzzer_options ++ taken rc args) rc.fuzzer_options ≡ false
        → setenv e.env name (marshal e.fuzzer_options) ≡ r
        → Ensures (SetsEngine marshal rc args env) AnyError (setting r)
    set (err x) q s = tt
    set (ok after) q s = record {
      unique = setenv-IsUnique e.env name (marshal e.fuzzer_options) h.unique s;
      options = ground (
        arith,
        lookup_env-setenv e.env name (marshal e.fuzzer_options) name s,
        bytes_eq_refl name,
        h.unique name,
        h.options_eq,
        q,
      );
      timeout =
          lookup_env-setenv e.env name (marshal e.fuzzer_options) (codes "JAZZER_TIMEOUT") s
          ∙ h.timeout_eq;
      others = λ j n k.
          ground (arith, lookup_env-setenv e.env name (marshal e.fuzzer_options) j s, h.others j n);
    }

    step :
        (b : Bool)
        → equal (rc.fuzzer_options ++ taken rc args) rc.fuzzer_options ≡ b
        → Ensures
            (SetsEngine marshal rc args env)
            AnyError
            (if b then ok e.env else setting (setenv e.env name (marshal e.fuzzer_options)))
    step true q = record {
      unique = h.unique;
      options = ground (arith, h.others name refl, q);
      timeout = h.timeout_eq;
      others = λ j n k. h.others j n;
    }
    step false q = set (setenv e.env name (marshal e.fuzzer_options)) q refl

-- The variables by which Jazzer.js gets its engine arguments, when the environment had no variable twice
-- and they could be set: JAZZER_FUZZER_OPTIONS lists the options of .jazzerjsrc and behind them the
-- arguments of the form flag=value that it does not set, or is left alone if there are none;
-- JAZZER_TIMEOUT is the last -timeout unless .jazzerjsrc has one; no other variable changes, and none
-- occurs twice.
pub set_engine_args_as_jazzer_flags_lem :
    (marshal : List Bytes → Bytes) (rc : JazzerJsRc) (args env after : List Bytes)
    → IsUnique env
    → set_engine_args_as_jazzer_flags marshal rc args env ≡ ok after
    → SetsEngine marshal rc args env after
unfolding set_engine_args_as_jazzer_flags
set_engine_args_as_jazzer_flags_lem marshal rc args env after u =
    Ensures-ok (SetsEngine marshal rc args env) AnyError (
      Ensures-bind
        (Takes rc (taken rc args) (last_flag (codes "-timeout") args)
          (record { env = env; fuzzer_options = rc.fuzzer_options }))
        (SetsEngine marshal rc args env) AnyError
        (take_flags rc args (record { env = env; fuzzer_options = rc.fuzzer_options }))
        (set_fuzzer_options marshal rc)
        (take_flags-Takes rc args (record { env = env; fuzzer_options = rc.fuzzer_options }) u)
        (λ e h. set_fuzzer_options-SetsEngine marshal rc args env e h))
