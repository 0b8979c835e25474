-- ===== src/Tests/EnvTests.antt =====
-- util/envutil on concrete environments.
use cifuzz.Base.{All, ◌≡◌, refl, some, List, [], ◌∷◌, arith}
use cifuzz.Base.Result.{ok}
use cifuzz.Text.{Bytes, codes, bytes_eq, bytes_eq_iff, has_byte, has_prefix, cut, split, join}
use cifuzz.Text.Split.{Free}
use cifuzz.Slices.{remove_duplicates, contains}
use cifuzz.Strings.{non_empty}
use cifuzz.Env.{lookup, insert, to_map, lookup_env, setenv, copy, append_to_path_list}
use cifuzz.Env.Update.{IsUnique, occurrences, lookup_env-setenv, setenv-IsUnique}
use cifuzz.Env.Copy.{VisitsOnce, Merges, copy-Merges}
use cifuzz.Env.PathList.{IsPath, paths, paths-append_to_path_list, append_to_path_list_twice}

abbrev home : List Bytes
home = codes "HOME=/root" ∷ codes "CC=clang" ∷ []

abbrev home' : List Bytes
home' = codes "HOME=/root" ∷ codes "CC=gcc" ∷ []

home-IsUnique : IsUnique home
unfolding occurrences cut
home-IsUnique key = ground (arith, bytes_eq_iff (codes "HOME") key, bytes_eq_iff (codes "CC") key)

setenv-home : setenv home (codes "CC") (codes "gcc") ≡ ok home'
unfolding setenv has_byte has_prefix
setenv-home = refl

lookup_env-setenv_example : lookup_env home' (codes "CC") ≡ some (codes "gcc")
unfolding bytes_eq occurrences cut
lookup_env-setenv_example =
    lookup_env-setenv home (codes "CC") (codes "gcc") (codes "CC") setenv-home

setenv-IsUnique_example : IsUnique home'
setenv-IsUnique_example = setenv-IsUnique home (codes "CC") (codes "gcc") home-IsUnique setenv-home

-- With two entries for one key the first is replaced and the last is read.
abbrev twice_set : List Bytes
twice_set = codes "CC=gcc" ∷ codes "CC=tcc" ∷ []

setenv-twice_set :
    setenv twice_set (codes "CC") (codes "clang") ≡ ok (codes "CC=clang" ∷ codes "CC=tcc" ∷ [])
unfolding setenv has_byte has_prefix
setenv-twice_set = refl

lookup_env-twice_set :
    lookup_env (codes "CC=clang" ∷ codes "CC=tcc" ∷ []) (codes "CC") ≡ some (codes "tcc")
unfolding lookup_env bytes_eq cut
lookup_env-twice_set = refl

visits_home : VisitsOnce (to_map home) (to_map home)
unfolding to_map lookup insert bytes_eq cut
visits_home = record { unique = (refl, (refl, tt)); same = λ k. refl }

home-Free : All (Free 0) home
unfolding has_byte
home-Free = (refl, (refl, tt))

copy-Merges_example : Merges home' (lookup_env home) (copy (λ m. m) home' home)
copy-Merges_example = copy-Merges (λ m. m) home' home visits_home setenv-IsUnique_example home-Free

abbrev new_paths : List Bytes
new_paths = codes "/lib" ∷ codes "/opt" ∷ []

new_paths-IsPath : All IsPath new_paths
unfolding has_byte
new_paths-IsPath = ((refl, (λ e. cc e)), ((refl, (λ e. cc e)), tt))

paths-append_to_path_list_example :
    paths (append_to_path_list (codes "/bin::/lib") new_paths)
    ≡ codes "/bin" ∷ codes "/lib" ∷ codes "/opt" ∷ []
unfolding remove_duplicates split non_empty bytes_eq contains
paths-append_to_path_list_example =
    paths-append_to_path_list (codes "/bin::/lib") new_paths new_paths-IsPath

append-bin : append_to_path_list (codes "/bin::/lib") new_paths ≡ codes "/bin:/lib:/opt"
unfolding append_to_path_list split non_empty join bytes_eq contains
append-bin = refl

append_to_path_list_twice_example :
    append_to_path_list (append_to_path_list (codes "/bin::/lib") new_paths) new_paths
    ≡ append_to_path_list (codes "/bin::/lib") new_paths
append_to_path_list_twice_example =
    append_to_path_list_twice (codes "/bin::/lib") new_paths new_paths-IsPath
