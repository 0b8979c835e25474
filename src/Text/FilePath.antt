-- ===== src/Text/FilePath.antt =====
-- Go's package `filepath`, for Unix.
use cifuzz.Base.{
  ℕ, ◌==◌, Bool, true, false, ◌&&◌, ◌||◌, not, Option, none, some, List, [], ◌∷◌, ◌++◌,
  if◌then◌else◌, map,
}
use mathlib.Core.List.{reverse}
use cifuzz.Text.{Bytes, codes, bytes_eq, has_prefix, split, join}

-- One element of a path, on the elements before it, the last one first. Above the root is the root.
abbrev push_element : Bool → List Bytes → Bytes → List Bytes
push_element rooted [] e =
    if bytes_eq e [] || bytes_eq e (codes ".")
    then []
    else if bytes_eq e (codes "..") && rooted
    then []
    else e ∷ []
push_element rooted (d ∷ done) e =
    if bytes_eq e [] || bytes_eq e (codes ".")
    then d ∷ done
    else if bytes_eq e (codes "..") && not (bytes_eq d (codes ".."))
    then done
    else e ∷ d ∷ done

push_elements : Bool → List Bytes → List Bytes → List Bytes
push_elements rooted done [] = done
push_elements rooted done (e ∷ elements) =
    push_elements rooted (push_element rooted done e) elements

-- `filepath.IsAbs`
unfoldable pub is_abs : Bytes → Bool
unfolding has_prefix
is_abs path = has_prefix path (codes "/")

-- `filepath.Clean`
unfoldable pub clean : Bytes → Bytes
unfolding is_abs push_elements split join bytes_eq
clean path =
    let elements = reverse (push_elements (is_abs path) [] (split b'/' path)) in
    let text = join (codes "/") elements in
    if is_abs path then codes "/" ++ text else if bytes_eq text [] then codes "." else text

-- `filepath.Join` of two elements
unfoldable pub join_path : Bytes → Bytes → Bytes
unfolding clean bytes_eq
join_path a b =
    if bytes_eq a [] then (if bytes_eq b [] then [] else clean b) else clean (a ++ (codes "/" ++ b))

abbrev bool_eq : Bool → Bool → Bool
bool_eq true b = b
bool_eq false b = not b

abbrev not_empty : List Bytes → List Bytes
not_empty [] = []
not_empty ([] ∷ es) = not_empty es
not_empty ((c ∷ e) ∷ es) = (c ∷ e) ∷ not_empty es

-- The elements of a clean path; "." has none as a base.
unfoldable pub path_elements : Bytes → List Bytes
unfolding split
path_elements path = not_empty (split b'/' path)

-- `Rel` on elements: those that both have in front are dropped, then each element that is left of the
-- base is left by "..". A base that goes up further than the target has no relative path.
unfoldable pub rel_elements : List Bytes → List Bytes → Option (List Bytes)
unfolding bytes_eq
rel_elements [] targ = some targ
rel_elements (b ∷ base) [] = some (map (λ e. codes "..") (b ∷ base))
rel_elements (b ∷ base) (t ∷ targ) =
    let rest = rel_elements base targ in
    if bytes_eq b t
    then rest
    else if bytes_eq b (codes "..")
    then none
    else some (map (λ e. codes "..") (b ∷ base) ++ (t ∷ targ))

abbrev pub base_elements : Bytes → List Bytes
base_elements base = if bytes_eq base (codes ".") then [] else path_elements base

abbrev join_rel : Option (List Bytes) → Option Bytes
join_rel none = none
join_rel (some es) = some (join (codes "/") es)

-- `filepath.Rel`; `none` is its error
unfoldable pub rel : Bytes → Bytes → Option Bytes
unfolding clean is_abs path_elements rel_elements bytes_eq join
rel base targ =
    if bytes_eq (clean base) (clean targ)
    then some (codes ".")
    else if bool_eq (is_abs (clean base)) (is_abs (clean targ))
    then join_rel (rel_elements (base_elements (clean base)) (path_elements (clean targ)))
    else none

abbrev last_of : Bytes → List Bytes → Bytes
last_of d [] = d
last_of d (e ∷ es) = last_of e es

-- `filepath.Base`
unfoldable pub base_name : Bytes → Bytes
unfolding path_elements bytes_eq
base_name path = if bytes_eq path [] then codes "." else last_of (codes "/") (path_elements path)

abbrev up_to_slash : ℕ → Option Bytes → Option Bytes
up_to_slash c (some before) = some (c ∷ before)
up_to_slash c none = if c == b'/' then some (c ∷ []) else none

-- The text up to its last slash, which is kept
abbrev last_slash : Bytes → Option Bytes
last_slash [] = none
last_slash (c ∷ s) = up_to_slash c (last_slash s)

abbrev clean_dir : Option Bytes → Bytes
unfolding clean
clean_dir none = clean []
clean_dir (some before) = clean before

-- `filepath.Dir`
unfoldable pub dir_name : Bytes → Bytes
unfolding clean
dir_name path = clean_dir (last_slash path)
