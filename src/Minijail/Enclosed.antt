-- ===== src/Minijail/Enclosed.antt =====
-- What the command of NewMinijail binds into the jail.
use cifuzz.Base.{
  ◌≡◌, refl, sym, ap, ◌∙◌, subst, Bool, true, false, Option, none, some, List, [], ◌∷◌, ◌++◌, map,
  append-nil, append_assoc, if◌then◌else◌, arith,
}
use cifuzz.Base.Result.{Result, ok, ◌>>=◌, Ensures, Ensures-bind, Ensures-map, Ensures-ok}
use cifuzz.Text.{Bytes, codes, split}
use cifuzz.Text.FilePath.{join_path, dir_name}
use cifuzz.Minijail.Bindings.{Binding, with_target, binding_text}
use cifuzz.Minijail.Jail.{
  Machine, JailError, JailOptions, Setup, or_error, or_failed, env_bindings, make_destination,
  bind_existing, create_binding, create_bindings, all_bindings, inner_args, static_args, make_dirs,
  first_dirs, jail_setup, with_command, new_minijail, stat_failed, mkdir_failed,
}

abbrev AnyError : JailError → Type 0
AnyError e = Unit

-- The bindings whose source exists
abbrev keep_if : Option Bool → Binding → List Binding → List Binding
keep_if (some true) b bs = b ∷ bs
keep_if (some false) b bs = bs
keep_if none b bs = bs

abbrev pub present : Machine → List Binding → List Binding
present m [] = []
present m (b ∷ bs) = keep_if (m.exists b.source) b (present m bs)

-- The arguments for bindings
abbrev pub bind_args : List Binding → List Bytes
bind_args [] = []
bind_args (b ∷ bs) = codes "-b" ∷ binding_text b ∷ bind_args bs

-- The places for bindings in the jail
abbrev pub place : Machine → Bytes → Binding → List Bytes
place m chroot_dir b =
    if m.is_dir b.source
    then join_path chroot_dir b.target ∷ []
    else join_path chroot_dir (dir_name b.target) ∷ join_path chroot_dir b.target ∷ []

abbrev pub places : Machine → Bytes → List Binding → List Bytes
places m chroot_dir [] = []
places m chroot_dir (b ∷ bs) = place m chroot_dir b ++ places m chroot_dir bs

-- The second setup is the first with bindings: their arguments, and their places in the jail.
abbrev pub Binds : Machine → Bytes → List Binding → Setup → Setup → Type 0
Binds m chroot_dir bs s s' =
    (s'.args ≡ s.args ++ bind_args bs) × (s'.made ≡ s.made ++ places m chroot_dir bs)

make_destination-place :
    (m : Machine) (chroot_dir : Bytes) (b : Binding) (made : List Bytes)
    → Ensures
        (λ made'. made' ≡ made ++ place m chroot_dir b)
        AnyError
        (make_destination m chroot_dir b made)
unfolding make_destination
make_destination-place m chroot_dir b made = ground (
  arith,
  append_assoc made (join_path chroot_dir (dir_name b.target) ∷ [])
      (join_path chroot_dir b.target ∷ []),
)

bind_existing-Binds :
    (m : Machine) (chroot_dir : Bytes) (b : Binding) (s : Setup)
    → Ensures (Binds m chroot_dir (b ∷ []) s) AnyError (bind_existing m chroot_dir b s true)
unfolding bind_existing
bind_existing-Binds m chroot_dir b s =
    Ensures-bind (λ made'. made' ≡ s.made ++ place m chroot_dir b) (Binds m chroot_dir (b ∷ []) s)
      AnyError (make_destination m chroot_dir b s.made) _
      (make_destination-place m chroot_dir b s.made)
      (λ made' h. (refl, h ∙ ap (λ x. s.made ++ x) (sym (append-nil (place m chroot_dir b)))))

Binds-trans :
    (m : Machine) (chroot_dir : Bytes) (b : Binding) (bs : List Binding) (s s' s'' : Setup)
    → Binds m chroot_dir (b ∷ []) s s'
    → Binds m chroot_dir bs s' s''
    → Binds m chroot_dir (b ∷ bs) s s''
Binds-trans m chroot_dir b bs s s' s'' h k = (
  k.0 ∙ ap (λ a. a ++ bind_args bs) h.0 ∙ append_assoc s.args (bind_args (b ∷ [])) (bind_args bs),
  k.1
      ∙ ap (λ a. a ++ places m chroot_dir bs) h.1
      ∙ append_assoc s.made (place m chroot_dir b ++ []) (places m chroot_dir bs)
      ∙ ap (λ p. s.made ++ (p ++ places m chroot_dir bs)) (append-nil (place m chroot_dir b)),
)

create_bindings-Binds :
    (m : Machine) (chroot_dir : Bytes) (bs : List Binding) (s : Setup)
    → Ensures
        (Binds m chroot_dir (present m (map with_target bs)) s)
        AnyError
        (create_bindings m chroot_dir bs s)
unfolding create_bindings create_binding
create_bindings-Binds m chroot_dir [] s = (sym (append-nil s.args), sym (append-nil s.made))
create_bindings-Binds m chroot_dir (b ∷ bs) s =
    step (m.exists (with_target b).source) (create_bindings-Binds m chroot_dir bs)
  where
    rest : List Binding
    rest = present m (map with_target bs)

    step :
        (e : Option Bool)
        → ((s' : Setup)
            → Ensures (Binds m chroot_dir rest s') AnyError (create_bindings m chroot_dir bs s'))
        → Ensures (Binds m chroot_dir (keep_if e (with_target b) rest) s) AnyError (
            or_error stat_failed e
            >>= bind_existing m chroot_dir (with_target b) s
            >>= create_bindings m chroot_dir bs)
    step none ih = tt
    step (some false) ih = ih s
    step (some true) ih =
        Ensures-bind (Binds m chroot_dir (with_target b ∷ []) s)
          (Binds m chroot_dir (with_target b ∷ rest) s) AnyError
          (bind_existing m chroot_dir (with_target b) s true) (create_bindings m chroot_dir bs)
          (bind_existing-Binds m chroot_dir (with_target b) s)
          (λ s' h.
            Ensures-map (Binds m chroot_dir rest s') (Binds m chroot_dir (with_target b ∷ rest) s)
              AnyError _ (λ s'' k. Binds-trans m chroot_dir (with_target b) rest s s' s'' h k)
              (ih s'))

or_error-bind :
    {A B : Type 0} (Q : B → Type 0) (e : JailError) (x : Option A) (a : A)
    (f : A → Result JailError B)
    → x ≡ some a
    → Ensures Q AnyError (f a)
    → Ensures Q AnyError (or_error e x >>= f)
or_error-bind Q e x a f h k = subst (λ x. Ensures Q AnyError (or_error e x >>= f)) (sym h) k

bind-known :
    {A B : Type 0} (Q : B → Type 0) (x : Result JailError A) (a : A) (f : A → Result JailError B)
    → x ≡ ok a
    → Ensures Q AnyError (f a)
    → Ensures Q AnyError (x >>= f)
bind-known Q x a f h k = subst (λ x. Ensures Q AnyError (x >>= f)) (sym h) k

-- What the machine answers to NewMinijail
pub record Answers : Type 0 where
  pub path : Bytes
  pub chroot_dir : Bytes
  pub minijail_path : Bytes
  pub workdir : Bytes
  pub process_wrapper_path : Bytes
  pub additional : List Binding

abbrev pub Answer : Machine → Bytes → Answers → Type 0
Answer m command a =
    (m.eval_symlinks command ≡ some a.path)
    × (m.mkdir_temp ≡ some a.chroot_dir)
    × (m.minijail_path ≡ some a.minijail_path)
    × (m.getwd ≡ some a.workdir)
    × (m.process_wrapper_path ≡ some a.process_wrapper_path)
    × (env_bindings m (split b':' (m.getenv (codes "CIFUZZ_MINIJAIL_BINDINGS"))) ≡ ok a.additional)

-- The bindings of the jail: those whose source exists
abbrev pub bound : Machine → JailOptions → Answers → List Binding
bound m o a =
    present m
      (map with_target (all_bindings o a.path a.workdir a.process_wrapper_path ++ a.additional))

abbrev pub Encloses : Machine → JailOptions → Answers → List Bytes → Setup → Type 0
Encloses m o a rest s =
    (s.args
      ≡ (static_args a.minijail_path a.chroot_dir ++ bind_args (bound m o a))
        ++ ((codes "--" ∷ a.process_wrapper_path ∷ a.workdir ∷ []) ++ inner_args m (a.path ∷ rest)))
    × (s.made ≡ first_dirs a.chroot_dir ++ places m a.chroot_dir (bound m o a))

make_dirs-append :
    (m : Machine) (made dirs : List Bytes)
    → Ensures (λ made'. made' ≡ made ++ dirs) AnyError (make_dirs m made dirs)
make_dirs-append m made [] = sym (append-nil made)
make_dirs-append m made (dir ∷ dirs) =
    step (m.mkdir_all dir) (make_dirs-append m (made ++ (dir ∷ [])) dirs)
  where
    step :
        (done : Bool)
        → Ensures
            (λ made'. made' ≡ (made ++ (dir ∷ [])) ++ dirs)
            AnyError
            (make_dirs m (made ++ (dir ∷ [])) dirs)
        → Ensures
            (λ made'. made' ≡ made ++ (dir ∷ dirs))
            AnyError
            (or_failed mkdir_failed done (made ++ (dir ∷ [])) >>= λ made'. make_dirs m made' dirs)
    step false ih = tt
    step true ih =
        Ensures-map (λ made'. made' ≡ (made ++ (dir ∷ [])) ++ dirs)
          (λ made'. made' ≡ made ++ (dir ∷ dirs)) AnyError _
          (λ made' h. h ∙ append_assoc made (dir ∷ []) dirs) ih

jail_setup-Encloses :
    (m : Machine) (o : JailOptions) (command : Bytes) (rest : List Bytes) (a : Answers)
    → Answer m command a
    → Ensures (Encloses m o a rest) AnyError (jail_setup m o a.path rest)
unfolding jail_setup
jail_setup-Encloses m o command rest a (p, c, j, w, pw, add) =
    or_error-bind E _ m.mkdir_temp a.chroot_dir _ c (
      Ensures-bind (λ made. made ≡ first_dirs a.chroot_dir) E AnyError
        (make_dirs m [] (first_dirs a.chroot_dir)) _
        (make_dirs-append m [] (first_dirs a.chroot_dir))
        (λ made d. or_error-bind E _ m.minijail_path a.minijail_path _ j (
          or_error-bind E _ m.getwd a.workdir _ w (
            or_error-bind E _ m.process_wrapper_path a.process_wrapper_path _ pw (
              bind-known E _ a.additional _ add (
                Ensures-bind (Binds m a.chroot_dir (bound m o a) (start made)) E AnyError
                  (create_bindings m a.chroot_dir
                    (all_bindings o a.path a.workdir a.process_wrapper_path ++ a.additional)
                    (start made))
                  _ (create_bindings-Binds m a.chroot_dir _ (start made))
                  (λ s h. (
                    ap (λ x. x ++ after) h.0,
                    h.1 ∙ ap (λ x. x ++ places m a.chroot_dir (bound m o a)) d,
                  ))))))))
  where
    E : Setup → Type 0
    E = Encloses m o a rest

    after : List Bytes
    after = (codes "--" ∷ a.process_wrapper_path ∷ a.workdir ∷ []) ++ inner_args m (a.path ∷ rest)

    start : List Bytes → Setup
    start made = record { args = static_args a.minijail_path a.chroot_dir; made = made }

-- A command of NewMinijail: the arguments of minijail, then -b with the text of each binding whose source
-- exists, in order, then the process wrapper with the working directory and the command itself, or a
-- shell. What has been made are the first directories and the place of each of these bindings.
pub new_minijail-Encloses :
    (m : Machine) (o : JailOptions) (command : Bytes) (rest : List Bytes) (a : Answers) (s : Setup)
    → o.args ≡ command ∷ rest
    → Answer m command a
    → new_minijail m o ≡ ok s
    → Encloses m o a rest s
unfolding new_minijail with_command
new_minijail-Encloses m o command rest a s e h r =
    Ensures-ok (Encloses m o a rest) AnyError
      (subst (λ args. Ensures (Encloses m o a rest) AnyError (with_command m o args)) (sym e)
        (or_error-bind (Encloses m o a rest) _ (m.eval_symlinks command) a.path
          (λ path. jail_setup m o path rest) h.0 (jail_setup-Encloses m o command rest a h)))
      r
