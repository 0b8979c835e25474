-- ===== src/Tests/BundlerTests.antt =====
-- internal/bundler/opts.go on concrete options.
use cifuzz.Base.{◌≡◌, refl, [], ◌∷◌, ◌++◌, some, if◌then◌else◌}
use cifuzz.Base.Int.{pos, negsuc}
use cifuzz.Base.Result.{ok, err, Ensures}
use cifuzz.Text.{codes, bytes_eq, split}
use cifuzz.Slices.{bytes_comparable}
use cifuzz.Bundler.{Opts, Stat, Surroundings, OptsError, validate}
use cifuzz.Parser.Detect.{trim_space}
use cifuzz.Store.CopyInput.{replace_all}
use cifuzz.Bundler.Blame.{IsBlamed}
use cifuzz.Bundler.ValidOpts.{IsValid, validate_lem}

abbrev machine : Surroundings
unfolding bytes_eq
machine = record {
  stat = λ path. if bytes_eq path (codes "none") then Stat.not_exist else Stat.found;
  abs = λ path. some (codes "/work/" ++ path);
  getenv = λ key. if bytes_eq key (codes "HOME") then codes "/root" else [];
  bazel_query = λ query. some (codes "//a:one\r\n //a:two \n\n");
}

abbrev some_opts : Opts
some_opts = record {
  build_command = [];
  build_system = codes "bazel";
  dictionary = codes "my.dict";
  env = codes "A=1" ∷ codes "HOME" ∷ codes "UNSET" ∷ [];
  seed_corpus_dirs = codes "seeds" ∷ [];
  timeout = pos 60000000000;
  fuzz_tests = codes "//a" ∷ codes "//a" ∷ [];
}

validate_example : Ensures IsValid (IsBlamed machine some_opts) (validate machine some_opts)
validate_example = validate_lem machine some_opts

accepted :
    validate machine some_opts
    ≡ ok (record some_opts {
      env = codes "A=1" ∷ codes "HOME=/root" ∷ [];
      seed_corpus_dirs = codes "/work/seeds" ∷ [];
      fuzz_tests = codes "//a:one" ∷ codes "//a:two" ∷ [];
    })
unfolding validate machine split replace_all trim_space
accepted = refl

refused :
    (validate machine (record some_opts { timeout = negsuc 0 })
      ≡ err (OptsError.short_timeout (negsuc 0)))
    × (validate machine (record some_opts { dictionary = codes "none" })
        ≡ err (OptsError.dictionary_inaccessible (codes "none")))
    × (validate machine (record some_opts { build_system = codes "other" })
        ≡ err OptsError.no_build_command)
unfolding validate machine split replace_all trim_space
refused = (refl, refl, refl)
