-- ===== src/Tests/StoreTests.antt =====
-- The store of findings and the check of dependencies at concrete inputs.
use cifuzz.Base.{
  ℕ, ◌≡◌, refl, Bool, true, false, some, List, [], ◌∷◌, arith, if◌then◌else◌, length, map,
}
use cifuzz.Base.Result.{Result, ok, err}
use cifuzz.Text.{Bytes, codes, bytes_eq, bytes_eq_iff, bytes_eq_refl}
use cifuzz.Parser.Finding.{Finding, ErrorDetails, new_finding, crash, details_of_id}
use cifuzz.Store.Files.{Files, KeepsFiles, Json, Read, missing, failed, content, StoreError}
use cifuzz.Store.Describe.{short_description_with_name}
use cifuzz.Store.Details.{enhance_with_error_details}
use cifuzz.Store.Save.{save, load_finding}
use cifuzz.Store.Local.{local_findings, load_all, sort_newest}
use cifuzz.Store.CopyInput.{replace_all}
use cifuzz.Store.RoundTrip.{load_finding-save}
use cifuzz.Store.Newest.{IsNewestFirst, at_time, local_findings_lem}

-- A file system that is a list of files, the last one written first
abbrev Disk : Type 0
Disk = List (Bytes × Bytes)

unfoldable read : Disk → Bytes → Read Bytes
unfolding bytes_eq
read [] path = missing
read ((p, text) ∷ disk) path = if bytes_eq p path then content text else read disk path

abbrev is_there : Read Bytes → Bool
is_there missing = false
is_there failed = false
is_there (content text) = true

abbrev files : Files Disk
unfolding read
files = record {
  exists = λ disk path. some (is_there (read disk path));
  mkdir_all = λ disk path. some disk;
  write_file = λ disk path text. some ((path, text) ∷ disk);
  read_file = read;
  read_dir = λ disk path. content (codes "old" ∷ codes "new" ∷ []);
  remove_all = λ disk path. some [];
  copy = λ disk a b. some disk;
}

files-KeepsFiles : KeepsFiles files
unfolding files read
files-KeepsFiles = record {
  read-write_file = λ s s' path text e. ground (arith, bytes_eq_refl path);
  read-write_other = λ s s' path other text n e. ground (arith, bytes_eq_iff path other);
}

-- The text of a finding is its name, and the time of a finding the length of its name.
abbrev leak : Finding
leak = record (new_finding crash (codes "detected memory leaks") []) {
  name = codes "angry_anteater";
  created_at = some 14;
  input_data = codes "x";
}

abbrev of_name : Bytes → Finding
of_name name = record leak {
  name = name;
  created_at = some (length name);
  input_file = codes ".cifuzz-findings/angry_anteater/crashing-input";
}

abbrev json : Json
json = record { marshal = λ f. some f.name; unmarshal = λ text. some (of_name text) }

abbrev collection : Result StoreError (List ErrorDetails)
collection = ok (record (details_of_id (codes "leak")) { name = codes "Memory Leak" } ∷ [])

abbrev saved : Finding
saved = of_name (codes "angry_anteater")

abbrev disk : Disk
disk =
    (codes "/p/.cifuzz-findings/angry_anteater/finding.json", codes "angry_anteater")
    ∷ (codes "/p/.cifuzz-findings/angry_anteater/crashing-input", codes "x")
    ∷ []

save_leak : save files json (codes "/p") leak [] ≡ ok (saved, disk)
unfolding save files
save_leak = refl

load_finding-save_example :
    (saved ≡ record leak { input_file = saved.input_file })
    × (load_finding files json collection (codes "/p") leak.name disk
        ≡ enhance_with_error_details collection
            (record saved { origin = codes "Local"; seed_path = [] }))
unfolding save files
load_finding-save_example =
    load_finding-save files json collection (codes "/p") leak saved [] disk files-KeepsFiles
      (λ text e. ground (arith, e)) refl

-- Two findings, the newer one later in the directory
abbrev two : Disk
two =
    (codes "/p/.cifuzz-findings/old/finding.json", codes "old")
    ∷ (codes "/p/.cifuzz-findings/new/finding.json", codes "newer")
    ∷ []

abbrev loaded : List Finding
loaded =
    elim (load_all files json collection (codes "/p") (codes "old" ∷ codes "new" ∷ []) two)
      as (λ r. List Finding) [ ok fs ↦ fs | err e ↦ [] ]

newest : map (λ f. f.name) (sort_newest loaded) ≡ codes "newer" ∷ codes "old" ∷ []
unfolding load_all sort_newest files
newest = refl

local_findings_example :
    (local_findings files json collection (codes "/p") two ≡ ok (sort_newest loaded))
    × IsNewestFirst (sort_newest loaded)
    × ((t : ℕ) → at_time t (sort_newest loaded) ≡ at_time t loaded)
unfolding load_all sort_newest files
local_findings_example =
    local_findings_lem files json collection (codes "/p") two (codes "old" ∷ codes "new" ∷ [])
      loaded refl refl

description : short_description_with_name leak ≡ codes "[angry_anteater] detected memory leaks"
unfolding short_description_with_name
description = refl

replaced :
    replace_all (codes "at crash-1 in crash-1") (codes "crash-1") (codes "in") ≡ codes "at in in in"
unfolding replace_all
replaced = refl
