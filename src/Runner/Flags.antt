-- ===== src/Runner/Flags.antt =====
-- `AddEnvFlags` of runnerutils.go: the variables it sets.
use cifuzz.Base.{◌≡◌, refl, true, Option, none, some, List, [], ◌∷◌, arith, All}
use cifuzz.Base.Result.{Result, ok}
use cifuzz.Text.{Bytes, bytes_eq_iff, bytes_eq_refl, cut, has_byte}
use cifuzz.Text.Split.{Free, cut-eq-none}
use cifuzz.Env.{lookup_env}
use cifuzz.Env.Copy.{IsSettable, setenv_ok, entry_value-IsSettable}
use cifuzz.Env.Map.{entry_value, value_in, or_else}
use cifuzz.Env.Update.{IsUnique, lookup_env-setenv, setenv-IsUnique}
use cifuzz.Runner.{EnvFlagError, add_env_flag, add_env_flags}

-- A flag that can be added: "key=value", with no NUL.
abbrev pub IsFlag : Bytes → Type 0
IsFlag e = (has_byte b'=' e ≡ true) × Free 0 e

-- What the flags must do: no failure, no variable twice, and each variable reads as the last flag
-- says, or as before if no flag names it.
pub record SetsFlags (env vars : List Bytes) (r : Result EnvFlagError (List Bytes)) : Type 0 where
  pub after : List Bytes
  pub succeeds : r ≡ ok after
  pub unique : IsUnique after
  pub reads : (j : Bytes) → lookup_env after j ≡ or_else (value_in j vars) (lookup_env env j)

cut_flag : (e : Bytes) → IsFlag e → (k v : Bytes) × (cut b'=' e ≡ some (k, v)) × IsSettable (k, v)
cut_flag e f = go (cut b'=' e) refl
  where
    go :
        (o : Option (Bytes × Bytes))
        → cut b'=' e ≡ o
        → (k v : Bytes) × (cut b'=' e ≡ some (k, v)) × IsSettable (k, v)
    go none p = cc (f.0, (cut-eq-none b'=' e).0 p)
    go (some (k, v)) p = (
      k,
      v,
      p,
      entry_value-IsSettable k e v f.1 (unfold entry_value in rw p (rw (bytes_eq_refl k))),
    )

add_env_flag_lem :
    (env : List Bytes) (e : Bytes)
    → IsUnique env
    → IsFlag e
    → (env' : List Bytes) × (add_env_flag env e ≡ ok env')
      × IsUnique env'
      × ((j : Bytes) → lookup_env env' j ≡ or_else (entry_value j e) (lookup_env env j))
add_env_flag_lem env e u f =
    let (k, v, p, settable) = cut_flag e f in
    let (env', q) = setenv_ok env k v settable in
    (
      env',
      unfold add_env_flag in ground (arith, p, q),
      setenv-IsUnique env k v u q,
      (λ j.
          unfold entry_value in
          ground (arith, p, lookup_env-setenv env k v j q, u k, bytes_eq_iff k j)),
    )

-- `AddEnvFlags` with flags of the form "key=value" never fails, makes no variable occur twice, and
-- sets each variable to the last flag that names it; the others read as before.
pub add_env_flags-SetsFlags :
    (vars env : List Bytes)
    → IsUnique env
    → All IsFlag vars
    → SetsFlags env vars (add_env_flags env vars)
unfolding add_env_flags value_in
add_env_flags-SetsFlags [] env u f = record {
  after = env;
  succeeds = refl;
  unique = u;
  reads = λ j. refl;
}
add_env_flags-SetsFlags (e ∷ vars) env u f =
    let (env', q, u', reads) = add_env_flag_lem env e u f.0 in
    let rest = add_env_flags-SetsFlags vars env' u' f.1 in
    record {
      after = rest.after;
      succeeds = ground (arith, q, rest.succeeds);
      unique = rest.unique;
      reads = λ j. ground (arith, rest.reads j, reads j);
    }
