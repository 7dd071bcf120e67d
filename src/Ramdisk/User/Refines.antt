-- ===== src/Ramdisk/User/Refines.antt =====
-- A program's call on a path is the file system's call on the trimmed path.
use cs552operating_system.Base.{
  ◌≡◌, refl, sym, ◌∙◌, ap, true, none, some, List, [], ◌∷◌, ◌++◌, Option, ℤ, not, ℕ,
}
use cs552operating_system.Ramdisk.Store.{Fs, Env, Run, done, fault, M, and_then, Ret, pure}
use cs552operating_system.Ramdisk.Calls.{rd_creat, rd_mkdir, rd_unlink, rd_chmod}
use cs552operating_system.Ramdisk.Calls.Open.{denies, rd_open, rd_close}
use cs552operating_system.Ramdisk.Ioctl.{
  Command, ioctl_creat, ioctl_mkdir, ioctl_open, ioctl_close, ioctl_unlink, ioctl_chmod, Copied,
  ramdisk_ioctl, with_copy, plain,
}
use cs552operating_system.Ramdisk.User.{
  User, when_open, when_path, command, success, mode_to_permission, open_flag, user_rd_creat,
  user_rd_mkdir, user_rd_unlink, user_rd_open, user_rd_close, user_rd_chmod,
}
use cs552operating_system.Ramdisk.User.PathName.{check_pathname, is_name_byte, starts_well}
use cs552operating_system.Ramdisk.User.Trips.{Reaches, with_copy_lem, open_proc_randisk-again}
use cs552operating_system.Ramdisk.User.PathName.Trim.{spaces, check_pathname-spaces}
use cs552operating_system.Ramdisk.User.Access.{
  Access, mode_of, flag_of, code_of, grants, mode_to_permission-code_of, open_flag-code_of,
  denies-grants,
}

-- The result of a call, as the program gets it.
abbrev pub returned : (Ret → Ret) → User → Run Ret → Run (Ret × User)
returned f u (done r s) = done (f r, u) s
returned f u fault = fault

-- A call on a path that may be refused.
abbrev pub on_path : (List ℕ → M Ret) → Option (List ℕ) → M Ret
on_path call none = pure none
on_path call (some path) = call path

returned_lem :
    (f : Ret → Ret) (u : User) (r : Run Ret)
    → and_then (and_then r (λ ret. pure (ret, []))) (λ (out : Ret × List ℕ). pure (f out.0, u))
      ≡ returned f u r
returned_lem f u (done r s) = refl
returned_lem f u fault = refl

path_lem :
    (f : Ret → Ret) (u : User) (k : List ℕ → User → M (Ret × User)) (call : List ℕ → M Ret) (s : Fs)
    → f none ≡ none
    → ((path : List ℕ) → k path u s ≡ returned f u (call path s))
    → (o : Option (List ℕ)) → when_path k o u s ≡ returned f u (on_path call o s)
unfolding when_path
path_lem f u k call s keeps same none = ap (λ r. done (r, u) s) (sym keeps)
path_lem f u k call s keeps same (some path) = same path

module _ (opened : ℤ) (env : Env) (ioctl : ℤ → Command → Copied → M (Ret × List ℕ)) (unset : Copied)
    (u : User) (reaches : Reaches env ioctl u) (memory : env.vmalloc ≡ true) where
  command_lem :
      (c : Command) (x : Copied) (f : Ret → Ret) (m : M Ret) (s : Fs)
      → ramdisk_ioctl env c x s ≡ with_copy env (plain m) s
      → command opened ioctl unset c x f u s ≡ returned f u (m s)
  unfolding command
  command_lem c x f m s h =
      ap (λ r. and_then r (λ out. pure (f out.0, u)))
        (reaches.1 c x s ∙ h ∙ with_copy_lem env (plain m) s memory)
      ∙ returned_lem f u (m s)

  served_path :
      (c : Command) (x : List ℕ → Copied) (f : Ret → Ret) (call : List ℕ → M Ret) (s : Fs)
      → f none ≡ none
      → ((p : List ℕ) → ramdisk_ioctl env c (x p) s ≡ with_copy env (plain (call p)) s)
      → (o : Option (List ℕ))
      → when_path (λ p. command opened ioctl unset c (x p) f) o u s
        ≡ returned f u (on_path call o s)
  served_path c x f call s keeps same =
      path_lem f u (λ p. command opened ioctl unset c (x p) f) call s keeps
        (λ p. command_lem c (x p) f (call p) s (same p))

  -- Each call, at whatever `check_pathname` leaves of the path, and with the codes of the wrappers.
  user_calls-checked :
      (pathname : List ℕ) (mode : ℕ) (flag fd : ℤ) (s : Fs)
      → let path = check_pathname pathname in
        (user_rd_creat opened ioctl unset pathname mode u s
          ≡ returned (λ r. r) u (on_path (λ p. rd_creat env p (mode_to_permission mode)) path s))
        × (user_rd_mkdir opened ioctl unset pathname u s
            ≡ returned success u (on_path (rd_mkdir env) path s))
        × (user_rd_unlink opened ioctl unset pathname u s
            ≡ returned success u (on_path (rd_unlink env) path s))
        × (user_rd_open opened ioctl unset pathname flag u s
            ≡ returned (λ r. r) u (on_path (λ p. rd_open env p (open_flag flag)) path s))
        × (user_rd_chmod opened ioctl unset pathname mode u s
            ≡ returned (λ r. r) u (on_path (λ p. rd_chmod env p (mode_to_permission mode)) path s))
        × (user_rd_close opened ioctl unset fd u s ≡ returned (λ r. r) u (rd_close env fd s))
  unfolding user_rd_creat user_rd_mkdir user_rd_unlink user_rd_open user_rd_chmod user_rd_close
      when_open ramdisk_ioctl
  user_calls-checked pathname mode flag fd s =
      let again = open_proc_randisk-again opened u reaches.0 in
      let path = check_pathname pathname in
      let by_mode = λ (p : List ℕ). record unset {
        file_info = record (unset.file_info) { pathname = p; mode = mode_to_permission mode };
      } in
      let by_flag = λ (p : List ℕ). record unset {
        file_info = record (unset.file_info) { pathname = p; flag = open_flag flag };
      } in
      let by_path = λ (p : List ℕ). record unset { pathname = p } in
      (
        rw again (
            served_path ioctl_creat by_mode (λ r. r) (λ p. rd_creat env p (mode_to_permission mode))
              s refl (λ p. refl) path),
        rw again (served_path ioctl_mkdir by_path success (rd_mkdir env) s refl (λ p. refl) path),
        rw again (served_path ioctl_unlink by_path success (rd_unlink env) s refl (λ p. refl) path),
        served_path ioctl_open by_flag (λ r. r) (λ p. rd_open env p (open_flag flag)) s refl
            (λ p. refl) path,
        rw again (
            served_path ioctl_chmod by_mode (λ r. r) (λ p. rd_chmod env p (mode_to_permission mode))
              s refl (λ p. refl) path),
        rw again
            (command_lem ioctl_close (record unset { fd = fd }) (λ r. r) (rd_close env fd) s refl),
      )

  -- A program whose `ioctl` reaches the module, with memory for the argument, at a path that starts well
  -- and ends in a name byte, with any number of spaces before and behind it: each of its calls on the
  -- path, and `rd_close`, does what the file system's call does at the path without the spaces. For the
  -- modes 0444, 0644 and 0244 and the flags `O_RDONLY`, `O_RDWR` and `O_WRONLY` it hands over the
  -- codes 0, 1 and 2, by which `rd_open` denies exactly what the mode does not grant.
  pub user_calls-refine :
      (m n : ℕ) (front : List ℕ) (c : ℕ) (a : Access) (fd : ℤ) (s : Fs)
      → is_name_byte c ≡ true
      → starts_well (front ++ (c ∷ [])) ≡ true
      → let path = front ++ (c ∷ []) in
        let typed = spaces m ++ (path ++ spaces n) in
        (user_rd_creat opened ioctl unset typed (mode_of a) u s
          ≡ returned (λ r. r) u (rd_creat env path (code_of a) s))
        × (user_rd_mkdir opened ioctl unset typed u s ≡ returned success u (rd_mkdir env path s))
        × (user_rd_unlink opened ioctl unset typed u s ≡ returned success u (rd_unlink env path s))
        × (user_rd_open opened ioctl unset typed (flag_of a) u s
            ≡ returned (λ r. r) u (rd_open env path (code_of a) s))
        × (user_rd_chmod opened ioctl unset typed (mode_of a) u s
            ≡ returned (λ r. r) u (rd_chmod env path (code_of a) s))
        × (user_rd_close opened ioctl unset fd u s ≡ returned (λ r. r) u (rd_close env fd s))
        × ((mode flag : Access) → denies (code_of mode) (code_of flag) ≡ not (grants mode flag))
  user_calls-refine m n front c a fd s name good =
      let path = front ++ (c ∷ []) in
      let typed = spaces m ++ (path ++ spaces n) in
      let checked : check_pathname typed ≡ some path =
        check_pathname-spaces m n front c name good in
      let (creat, mkdir, unlink, opens, chmod, close) =
        user_calls-checked typed (mode_of a) (flag_of a) fd s in
      (
        creat
            ∙ ap
                (λ o.
                  returned (λ r. r) u
                    (on_path (λ p. rd_creat env p (mode_to_permission (mode_of a))) o s))
                checked
            ∙ ap (λ k. returned (λ r. r) u (rd_creat env path k s)) (mode_to_permission-code_of a),
        mkdir ∙ ap (λ o. returned success u (on_path (rd_mkdir env) o s)) checked,
        unlink ∙ ap (λ o. returned success u (on_path (rd_unlink env) o s)) checked,
        opens
            ∙ ap
                (λ o.
                  returned (λ r. r) u (on_path (λ p. rd_open env p (open_flag (flag_of a))) o s))
                checked
            ∙ ap (λ k. returned (λ r. r) u (rd_open env path k s)) (open_flag-code_of a),
        chmod
            ∙ ap
                (λ o.
                  returned (λ r. r) u
                    (on_path (λ p. rd_chmod env p (mode_to_permission (mode_of a))) o s))
                checked
            ∙ ap (λ k. returned (λ r. r) u (rd_chmod env path k s)) (mode_to_permission-code_of a),
        close,
        denies-grants,
      )
