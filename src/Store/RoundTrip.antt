-- ===== src/Store/RoundTrip.antt =====
-- What has been saved is loaded.
use cifuzz.Base.{◌≡◌, refl, ap, ◌∙◌, not, ◌&&◌, Option, none, some, List, []}
use cifuzz.Base.Result.{Result, ok, ◌>>=◌, Ensures, Ensures-bind, Ensures-if, Ensures-ok}
use cifuzz.Text.{Bytes, codes, bytes_eq}
use cifuzz.Text.FilePath.{rel}
use cifuzz.Parser.Finding.{Finding, ErrorDetails}
use cifuzz.Store.Files.{
  Files, KeepsFiles, Json, IsReadBack, content, StoreError, or_error, json_failed, file_failed,
}
use cifuzz.Store.Details.{enhance_with_error_details}
use cifuzz.Store.Save.{
  finding_dir, json_path, input_path, write_input, save_input, save_json, save, loaded,
  load_finding,
}

abbrev AnyError : StoreError → Type 0
AnyError e = Unit

or_error-Ensures :
    {A B : Type 0} (Q : B → Type 0) (e : StoreError) (o : Option A) (f : A → Result StoreError B)
    → ((a : A) → o ≡ some a → Ensures Q AnyError (f a))
    → Ensures Q AnyError (or_error e o >>= f)
or_error-Ensures Q e none f h = tt
or_error-Ensures Q e (some a) f h = h a refl

-- Saving changes a finding in its input file alone.
abbrev HasInput : Finding → Finding → Type 0
HasInput f f' = f' ≡ record f { input_file = f'.input_file }

module _ {S : Type 0} (files : Files S) (json : Json) (keeps : KeepsFiles files) where
  save_input-HasInput :
      (project_dir : Bytes) (f : Finding) (s : S)
      → Ensures (λ r. HasInput f r.0) AnyError (save_input files json project_dir f s)
  unfolding save_input write_input
  save_input-HasInput project_dir f s =
      or_error-Ensures (λ r. HasInput f r.0) _ (files.exists s (input_path project_dir f.name)) _
        (λ found e.
          Ensures-if (λ r. HasInput f r.0) AnyError (not found && not (bytes_eq f.input_data [])) _
            _
            (λ _.
              or_error-Ensures (λ r. HasInput f r.0) _
                (files.write_file s (input_path project_dir f.name) f.input_data) _
                (λ s' e.
                  or_error-Ensures (λ r. HasInput f r.0) _
                    (rel project_dir (input_path project_dir f.name)) _ (λ path e. refl)))
            (λ _. refl))

  -- What loading makes of a file that holds the finding
  abbrev pub Holds : Bytes → Finding → S → Type 0
  Holds path f s =
      (text : Bytes) × (json.marshal f ≡ some text) × (files.read_file s path ≡ content text)

  save_json-Holds :
      (path : Bytes) (f : Finding) (s : S)
      → Ensures (Holds path f) AnyError (save_json files json path f s)
  unfolding save_json
  save_json-Holds path f s =
      or_error-Ensures (Holds path f) _ (json.marshal f) _
        (λ text e. written text e (files.write_file s path text) refl)
    where
      written :
          (text : Bytes)
          → json.marshal f ≡ some text
          → (o : Option S) → files.write_file s path text ≡ o
          → Ensures (Holds path f) AnyError (or_error file_failed o)
      written text e none w = tt
      written text e (some s') w = (text, e, keeps.read-write_file s s' path text w)

  Holds-loaded :
      (collection : Result StoreError (List ErrorDetails)) (project_dir name : Bytes) (f : Finding)
      (s : S)
      → IsReadBack json f
      → Holds (json_path project_dir name) f s
      → load_finding files json collection project_dir name s
        ≡ enhance_with_error_details collection
            (record f { origin = codes "Local"; seed_path = [] })
  unfolding load_finding loaded
  Holds-loaded collection project_dir name f s back (text, e, r) =
      ap (loaded files json collection) r
      ∙ ap
          (λ o. or_error json_failed o >>= λ f.
            enhance_with_error_details collection (record f { origin = codes "Local" }))
          (back text e)

  save-HasInput :
      (project_dir : Bytes) (f : Finding) (s : S)
      → Ensures
          (λ r. HasInput f r.0 × Holds (json_path project_dir f.name) r.0 r.1)
          AnyError
          (save files json project_dir f s)
  unfolding save
  save-HasInput project_dir f s =
      or_error-Ensures Q _ (files.mkdir_all s (finding_dir project_dir f.name)) _ (λ s' e.
        Ensures-bind (λ r. HasInput f r.0) Q AnyError (save_input files json project_dir f s') _
          (save_input-HasInput project_dir f s')
          (λ r h.
            Ensures-bind (Holds (json_path project_dir f.name) r.0) Q AnyError
              (save_json files json (json_path project_dir f.name) r.0 r.1) _
              (save_json-Holds (json_path project_dir f.name) r.0 r.1) (λ s'' k. (h, k))))
    where
      Q : Finding × S → Type 0
      Q r = HasInput f r.0 × Holds (json_path project_dir f.name) r.0 r.1

-- A finding that has been saved, in a file system that keeps its files, differs from the one before in
-- its input file alone, and is loaded by its name again: as a local one, without the path of its seed,
-- and enhanced with the details of errors.
pub load_finding-save :
    {S : Type 0} (files : Files S) (json : Json)
    (collection : Result StoreError (List ErrorDetails)) (project_dir : Bytes) (f f' : Finding)
    (s s' : S)
    → KeepsFiles files
    → IsReadBack json f'
    → save files json project_dir f s ≡ ok (f', s')
    → (f' ≡ record f { input_file = f'.input_file })
      × (load_finding files json collection project_dir f.name s'
          ≡ enhance_with_error_details collection
              (record f' { origin = codes "Local"; seed_path = [] }))
load_finding-save files json collection project_dir f f' s s' keeps back e =
    let saved =
      Ensures-ok
        (λ r. HasInput f r.0 × Holds files json keeps (json_path project_dir f.name) r.0 r.1)
        AnyError (save-HasInput files json keeps project_dir f s) e in
    (saved.0, Holds-loaded files json keeps collection project_dir f.name f' s' back saved.1)
